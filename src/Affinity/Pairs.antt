-- ===== src/Affinity/Pairs.antt =====
-- The lookup in a query string that is made of segments, with an `&` between them.
use mg_web.Base.{
  ℕ, zero, suc, ◌+◌, ◌≡◌, refl, ap, ◌∙◌, sym, List, [], ◌∷◌, ◌++◌, true, ◌&&◌, ◌==◌, if◌then◌else◌,
  Option, none, some, length, drop, take, append-nil, arith, Bool-cases, inl, inr,
}
use mg_web.Affinity.{
  Affinity, absent, or_else, is_at, is_open, last_of, query_string, occurrence, value_server,
  find_sa_variable_ex,
}
use mg_web.Affinity.Scan.{scan, at_place, NoneOpens, scan-skip, find_sa_variable_ex-scan}
use mg_web.Text.{CString, starts_with, until, c_string}
use mg_web.Types.{PathServer}

abbrev pub join : List CString → CString
join [] = []
join (seg ∷ []) = seg
join (seg ∷ next ∷ segs) = seg ++ (b'&' ∷ join (next ∷ segs))

-- What one segment names: nothing, unless it is the name, an `=` and a value.
abbrev pub segment_server : List PathServer → CString → CString → Affinity
segment_server servers name seg =
    if starts_with seg name && is_at b'=' (drop (length name) seg)
    then value_server servers (drop (length name + 1) seg)
    else absent

-- What the first segment names that names anything.
abbrev pub first_named : List PathServer → CString → List CString → Affinity
first_named servers name [] = absent
first_named servers name (seg ∷ segs) =
    or_else (segment_server servers name seg) (first_named servers name segs)

abbrev pub AreSegments : List CString → Type 0
AreSegments [] = Unit {0}
AreSegments (seg ∷ segs) = NoneOpens query_string seg × AreSegments segs

-- What follows a segment: nothing, or an `&`.
abbrev IsEnd : CString → Type 0
IsEnd [] = Unit {0}
IsEnd (c ∷ s) = c ≡ b'&'

starts_with-segment :
    (seg rest name : CString)
    → NoneOpens query_string name
    → IsEnd rest
    → starts_with (seg ++ rest) name ≡ starts_with seg name
unfolding starts_with
starts_with-segment seg rest [] shut end = refl
starts_with-segment [] [] (n ∷ name) shut end = refl
starts_with-segment [] (r ∷ rest) (n ∷ name) shut end = ground (arith, shut.0)
starts_with-segment (c ∷ seg) rest (n ∷ name) shut end =
    ap (◌&&◌ (c == n)) (starts_with-segment seg rest name shut.1 end)

until-segment :
    (seg rest : CString) → NoneOpens query_string seg → IsEnd rest → until b'&' (seg ++ rest) ≡ seg
unfolding until
until-segment [] [] shut end = refl
until-segment [] (r ∷ rest) shut end = rw end refl
until-segment (c ∷ seg) rest shut end = rw shut.0 (ap (◌∷◌ c) (until-segment seg rest shut.1 end))

drop-segment :
    (seg rest name : CString)
    → starts_with seg name ≡ true
    → drop (length name) (seg ++ rest) ≡ drop (length name) seg ++ rest
unfolding starts_with
drop-segment seg rest [] t = refl
drop-segment [] rest (n ∷ name) t = ground arith
drop-segment (c ∷ seg) rest (n ∷ name) t = drop-segment seg rest name (ground arith)

drop-suc : (n : ℕ) (s : CString) → drop (suc n) s ≡ drop 1 (drop n s)
drop-suc zero s = refl
drop-suc (suc n) [] = refl
drop-suc (suc n) (c ∷ s) = drop-suc n s

drop-next : (n : ℕ) (s : CString) → drop (n + 1) s ≡ drop 1 (drop n s)
drop-next n s = ap (λ k. drop k s) {y = suc n} (omega arith) ∙ drop-suc n s

NoneOpens-drop :
    (n : ℕ) (s : CString) → NoneOpens query_string s → NoneOpens query_string (drop n s)
NoneOpens-drop zero s shut = shut
NoneOpens-drop (suc n) [] shut = tt
NoneOpens-drop (suc n) (c ∷ s) shut = NoneOpens-drop n s shut.1

-- The bytes behind the name, `tail`, in the segment and in the string.
value-segment :
    (servers : List PathServer) (tail rest : CString)
    → NoneOpens query_string tail
    → IsEnd rest
    → (if is_at b'=' (tail ++ rest)
        then value_server servers (until b'&' (drop 1 (tail ++ rest)))
        else absent)
      ≡ (if is_at b'=' tail then value_server servers (drop 1 tail) else absent)
value-segment servers [] [] shut end = refl
value-segment servers [] (r ∷ rest) shut end = rw end refl
value-segment servers (c ∷ tail) rest shut end = rw (until-segment tail rest shut.1 end) refl

at_place-segment :
    (servers : List PathServer) (name : CString) (prev : Option ℕ) (seg rest : CString)
    → NoneOpens query_string name
    → NoneOpens query_string seg
    → IsEnd rest
    → is_open query_string prev ≡ true
    → at_place query_string servers name prev (seg ++ rest) ≡ segment_server servers name seg
unfolding at_place occurrence
at_place-segment servers name prev seg rest none_opens shut end opened =
    elim (Bool-cases (starts_with seg name)) [
      | inl t ↦
          rw
            (
              starts_with-segment seg rest name none_opens end,
              t,
              opened,
              drop-next (length name) (seg ++ rest),
              drop-next (length name) seg,
              drop-segment seg rest name t,
            )
            (value-segment servers (drop (length name) seg) rest
              (NoneOpens-drop (length name) seg shut) end)
      | inr f ↦ rw (starts_with-segment seg rest name none_opens end, f) refl
    ]

scan-segment :
    (servers : List PathServer) (first : ℕ) (more : CString) (prev : Option ℕ) (seg rest : CString)
    → NoneOpens query_string (first ∷ more)
    → NoneOpens query_string seg
    → IsEnd rest
    → is_open query_string prev ≡ true
    → scan query_string servers (first ∷ more) prev (seg ++ rest)
      ≡ or_else
          (segment_server servers (first ∷ more) seg)
          (scan query_string servers (first ∷ more) (last_of prev seg) rest)
unfolding scan last_of starts_with or_else
scan-segment servers first more prev [] rest none_opens shut end opened = refl
scan-segment servers first more prev (c ∷ seg) rest none_opens shut end opened =
    rw
      (
        at_place-segment servers (first ∷ more) prev (c ∷ seg) rest none_opens shut end opened,
        scan-skip query_string servers (first ∷ more) (some c) seg rest shut.0 shut.1,
      )
      refl

scan-ampersand :
    (servers : List PathServer) (first : ℕ) (more : CString) (prev : Option ℕ) (s : CString)
    → NoneOpens query_string (first ∷ more)
    → scan query_string servers (first ∷ more) prev (b'&' ∷ s)
      ≡ scan query_string servers (first ∷ more) (some b'&') s
unfolding scan at_place starts_with or_else
scan-ampersand servers first more prev s none_opens = ground (arith, none_opens.0)

scan-join :
    (servers : List PathServer) (first : ℕ) (more : CString) (prev : Option ℕ) (segs : List CString)
    → NoneOpens query_string (first ∷ more)
    → AreSegments segs
    → is_open query_string prev ≡ true
    → scan query_string servers (first ∷ more) prev (join segs)
      ≡ first_named servers (first ∷ more) segs
unfolding scan
scan-join servers first more prev [] none_opens shut opened = refl
scan-join servers first more prev (seg ∷ []) none_opens shut opened =
    ap (scan query_string servers (first ∷ more) prev) (sym (append-nil seg))
    ∙ scan-segment servers first more prev seg [] none_opens shut.0 tt opened
scan-join servers first more prev (seg ∷ next ∷ segs) none_opens shut opened =
    let rest = b'&' ∷ join (next ∷ segs) in
    let onward = scan-join servers first more (some b'&') (next ∷ segs) none_opens shut.1 refl in
    scan-segment servers first more prev seg rest none_opens shut.0 refl opened
    ∙ ap (or_else (segment_server servers (first ∷ more) seg))
        (scan-ampersand servers first more (last_of prev seg) _ none_opens ∙ onward)

-- `mg_find_sa_variable_ex` on a query string that consists of segments with an `&` between them, for
-- a name that is not empty and has no `&`: it finds what the first segment finds that is the name, an
-- `=` and a value that names a server.
pub find_sa_variable_ex-first_named :
    (servers : List PathServer) (first : ℕ) (more : CString) (segs : List CString)
    (nvpairs : List ℕ) (nvpairs_len : ℕ)
    → NoneOpens query_string (first ∷ more)
    → AreSegments segs
    → c_string (take nvpairs_len nvpairs) ≡ join segs
    → find_sa_variable_ex servers (first ∷ more) (some nvpairs) nvpairs_len
      ≡ first_named servers (first ∷ more) segs
find_sa_variable_ex-first_named servers first more segs nvpairs nvpairs_len none_opens shut text =
    find_sa_variable_ex-scan servers first more nvpairs nvpairs_len none_opens
    ∙ ap (scan query_string servers (first ∷ more) none) text
    ∙ scan-join servers first more none segs none_opens shut refl
