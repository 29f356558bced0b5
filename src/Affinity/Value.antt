-- ===== src/Affinity/Value.antt =====
-- The server that a value names, by number or by name.
use mg_web.Base.{
  ℕ, suc, ◌+◌, ◌%◌, ◌^◌, ◌≤◌, ◌<◌, ◌≡◌, refl, List, [], ◌∷◌, ◌++◌, true, false, ltb, length, arith,
  Bool-cases, ◌⊎◌, inl, inr, ap, ltb→lt,
}
use mg_web.Affinity.{
  Affinity, server, absent, out_of_bounds, by_number, by_name, value_server, starts_digit, strtol,
}
use mg_web.Text.{CString, lcase, strcmp_eq}
use mg_web.Types.{PathServer}

-- No server of the list has the name.
abbrev pub NoneNamed : List PathServer → CString → Type 0
NoneNamed [] sname = Unit {0}
NoneNamed (e ∷ servers) sname = (strcmp_eq e.lcname sname ≡ false) × NoneNamed servers sname

-- Place `n` of the list has the name, and no place before it has.
pub record IsNamed (servers : List PathServer) (sname : CString) (n : ℕ) : Type 0 where
  pub before : List PathServer
  pub entry : PathServer
  pub behind : List PathServer
  pub place : servers ≡ before ++ (entry ∷ behind)
  pub number : length before ≡ n
  pub same : strcmp_eq entry.lcname sname ≡ true
  pub first : NoneNamed before sname

-- How the loop over the names ends, from number `m` on.
abbrev pub Named : List PathServer → CString → ℕ → Affinity → Type 0
Named servers sname m r =
    ((n : ℕ) × (r ≡ server (m + n)) × IsNamed servers sname n)
    ⊎ ((r ≡ absent) × NoneNamed servers sname)

IsNamed-behind :
    (entry : PathServer) (servers : List PathServer) (sname : CString) (n : ℕ)
    → strcmp_eq entry.lcname sname ≡ false
    → IsNamed servers sname n
    → IsNamed (entry ∷ servers) sname (suc n)
IsNamed-behind entry servers sname n other h = record {
  before = entry ∷ h.before;
  entry = h.entry;
  behind = h.behind;
  place = ap (◌∷◌ entry) h.place;
  number = ap suc h.number;
  same = h.same;
  first = (other, h.first);
}

by_name-Named :
    (servers : List PathServer) (sname : CString) (m : ℕ)
    → Named servers sname m (by_name servers sname m)
unfolding by_name
by_name-Named [] sname m = inr (refl, tt)
by_name-Named (entry ∷ servers) sname m = elim (Bool-cases (strcmp_eq entry.lcname sname)) [
  | inl t ↦
      let here : IsNamed (entry ∷ servers) sname 0 = record {
        before = [];
        entry = entry;
        behind = servers;
        place = refl;
        number = refl;
        same = t;
        first = tt;
      } in
      inl (0, rw t (ap server (omega arith)), here)
  | inr f ↦ elim (by_name-Named servers sname (m + 1)) [
    | inl (n, e, named) ↦
        inl
          (suc n, rw (f, e) (ap server (omega arith)), IsNamed-behind entry servers sname n f named)
    | inr (e, none_named) ↦ inr (rw (f, e) refl, (f, none_named))
  ]
]

-- What a value comes to: a value that begins with a digit is a number, of which 32 bits count.
-- Below 32 it names the server in that slot, if there is one; with the top bit set it is negative
-- and taken for a place in front of the array; else it names none. Any other value of fewer than
-- 60 bytes names the first server whose name is the value in lower case, if there is one; and a longer
-- one names none.
pub value_server-cases :
    (servers : List PathServer) (pv : CString)
    → let r = value_server servers pv in
      let w = strtol pv % 2 ^ 32 in
      ((starts_digit pv ≡ true)
        × (((w < 32) × (w < length servers) × (r ≡ server w))
            ⊎ ((2 ^ 31 ≤ w) × (r ≡ out_of_bounds))
            ⊎ ((w < 2 ^ 31) × ((32 ≤ w) ⊎ (length servers ≤ w)) × (r ≡ absent))))
      ⊎ ((starts_digit pv ≡ false) × (length pv < 60) × Named servers (lcase pv) 0 r)
      ⊎ ((starts_digit pv ≡ false) × (60 ≤ length pv) × (r ≡ absent))
unfolding value_server by_number
value_server-cases servers pv = elim (Bool-cases (starts_digit pv)) [
  | inl t ↦ inl (t, rw t (ground arith))
  | inr f ↦ elim (Bool-cases (ltb (length pv) 60)) [
    | inl s ↦ inr (inl (f, ltb→lt _ _ s, rw (f, s) (by_name-Named servers (lcase pv) 0)))
    | inr l ↦ inr (inr (f, ground arith, rw (f, l) refl))
  ]
]
