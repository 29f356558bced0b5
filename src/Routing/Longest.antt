-- ===== src/Routing/Longest.antt =====
-- The path that serves a request is the longest one that its script name begins with.
use mg_web.Base.{
  lt→ltb, subst, sym, ℕ, ◌-◌, ◌≤◌, ◌<◌, ◌≡◌, refl, ap, List, [], ◌∷◌, ◌++◌, true, false, arith,
  length, Option, none, some, ◌⊎◌, inl, inr, Bool-cases, ◌&&◌, ltb,
}
use mg_web.Routing.{improves, scan_paths, get_path_configuration}
use mg_web.Status.{success, failure}
use mg_web.Text.{CString, strncmp_eq, starts_with}
use mg_web.Types.{MgPath}

-- The configuration's parser stores `strlen(name)` in `name_len`.
abbrev pub AreMeasured : List MgPath → Type 0
AreMeasured [] = Unit {0}
AreMeasured (p ∷ ps) = (p.name_len ≡ length p.name) × AreMeasured ps

-- Each path of the list that the script name begins with has a name of at most `n` bytes.
abbrev pub AtMost : CString → ℕ → List MgPath → Type 0
AtMost script n [] = Unit {0}
AtMost script n (p ∷ ps) =
    (starts_with script p.name ≡ true → length p.name ≤ n) × AtMost script n ps

-- `p` is a prefix of the script name and longer than `n`; no path in front of it is as long and a
-- prefix too, and none behind it is longer and a prefix too.
pub record Longest (script : CString) (n : ℕ) (paths : List MgPath) (p : MgPath) : Type 0 where
  pub before : List MgPath
  pub behind : List MgPath
  pub place : paths ≡ before ++ (p ∷ behind)
  pub prefix : starts_with script p.name ≡ true
  pub longer : n < length p.name
  pub first : AtMost script (length p.name - 1) before
  pub longest : AtMost script (length p.name) behind

strncmp_eq-starts_with : (s t : CString) → strncmp_eq s t (length t) ≡ starts_with s t
unfolding strncmp_eq starts_with
strncmp_eq-starts_with s [] = refl
strncmp_eq-starts_with [] (b ∷ t) = refl
strncmp_eq-starts_with (a ∷ s) (b ∷ t) = ap (◌&&◌ _) (strncmp_eq-starts_with s t)

-- What the loop returns: its arguments where nothing is longer, or the longest prefix.
abbrev Scanned : CString → List MgPath → ℕ → Option MgPath → ℕ × Option MgPath → Type 0
Scanned script paths n best r =
    ((r ≡ (n, best)) × AtMost script n paths)
    ⊎ ((p : MgPath) × (r ≡ (length p.name, some p)) × Longest script n paths p)

AtMost-mono :
    (script : CString) (m n : ℕ) (paths : List MgPath)
    → m ≤ n
    → AtMost script m paths
    → AtMost script n paths
AtMost-mono script m n [] h a = tt
AtMost-mono script m n (p ∷ ps) h a = (λ e. omega (arith, a.0 e), AtMost-mono script m n ps h a.1)

Longest-cons :
    (script : CString) (m n : ℕ) (q : MgPath) (ps : List MgPath) (p : MgPath)
    → n ≤ m
    → (starts_with script q.name ≡ true → length q.name ≤ m)
    → Longest script m ps p
    → Longest script n (q ∷ ps) p
Longest-cons script m n q ps p le short l = record {
  before = q ∷ l.before;
  behind = l.behind;
  place = ap (◌∷◌ q) l.place;
  prefix = l.prefix;
  longer = omega (arith, l.longer);
  first = (λ s. omega (arith, short s, l.longer), l.first);
  longest = l.longest;
}

improves-starts_with :
    (script : CString) (q : MgPath) (n : ℕ)
    → q.name_len ≡ length q.name
    → improves script q n ≡ (starts_with script q.name && ltb n (length q.name))
improves-starts_with script q n len = rw (len, strncmp_eq-starts_with script q.name)

-- The rest of the loop, behind a path that was taken, and behind one that was not.
Scanned-taken :
    (script : CString) (q : MgPath) (ps : List MgPath) (n : ℕ) (best : Option MgPath)
    (r : ℕ × Option MgPath)
    → (starts_with script q.name && ltb n (length q.name)) ≡ true
    → Scanned script ps (length q.name) (some q) r
    → Scanned script (q ∷ ps) n best r
Scanned-taken script q ps n best r t (inl (e, rest)) = inr (
  q,
  e,
  record {
    before = [];
    behind = ps;
    place = refl;
    prefix = ground arith;
    longer = ground arith;
    first = tt;
    longest = rest;
  },
)
Scanned-taken script q ps n best r t (inr (p, e, l)) =
    inr (p, e, Longest-cons script (length q.name) n q ps p (ground arith) (λ _. omega arith) l)

Scanned-passed :
    (script : CString) (q : MgPath) (ps : List MgPath) (n : ℕ) (best : Option MgPath)
    (r : ℕ × Option MgPath)
    → (starts_with script q.name && ltb n (length q.name)) ≡ false
    → Scanned script ps n best r
    → Scanned script (q ∷ ps) n best r
Scanned-passed script q ps n best r t (inl (e, rest)) = inl (e, ((λ s. ground arith), rest))
Scanned-passed script q ps n best r t (inr (p, e, l)) =
    inr (p, e, Longest-cons script n n q ps p (omega arith) (λ s. ground arith) l)

scan_paths-Scanned :
    (script : CString) (paths : List MgPath) (n : ℕ) (best : Option MgPath)
    → AreMeasured paths
    → Scanned script paths n best (scan_paths script paths n best)
unfolding scan_paths
scan_paths-Scanned script [] n best m = inl (refl, tt)
scan_paths-Scanned script (q ∷ ps) n best (len, m) =
    let same = improves-starts_with script q n len in
    elim (Bool-cases (starts_with script q.name && ltb n (length q.name))) [
      | inl t ↦
          rw (same, t)
            (subst (λ k. Scanned script (q ∷ ps) n best (scan_paths script ps k (some q))) (sym len)
              (Scanned-taken script q ps n best _ t
                (scan_paths-Scanned script ps (length q.name) (some q) m)))
      | inr t ↦
          rw (same, t)
            (Scanned-passed script q ps n best _ t (scan_paths-Scanned script ps n best m))
    ]

-- On a list of paths that the parser has measured: either the call succeeds with the longest path
-- whose name is not empty and begins the script name, the first one of that length; or it fails,
-- keeps the request's path, and no path with a name begins the script name.
pub get_path_configuration-Longest :
    (script : CString) (paths : List MgPath) (old : Option MgPath)
    → AreMeasured paths
    → ((p : MgPath) × (get_path_configuration script paths old ≡ (some p, success))
        × Longest script 0 paths p)
      ⊎ ((get_path_configuration script paths old ≡ (old, failure)) × AtMost script 0 paths)
unfolding get_path_configuration
get_path_configuration-Longest script paths old m =
    elim (scan_paths-Scanned script paths 0 none m) [
      | inl (e, none_longer) ↦ inr (rw e, none_longer)
      | inr (p, e, l) ↦ inl (p, rw (e, lt→ltb 0 (length p.name) l.longer), l)
    ]
