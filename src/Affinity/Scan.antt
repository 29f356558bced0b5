-- ===== src/Affinity/Scan.antt =====
-- The search with `strstr`, which goes on behind each occurrence of the name, compared with one that
-- tries every place of the string.
use mg_web.Base.{
  ℕ, zero, suc, ◌+◌, ◌≤◌, ◌<◌, ◌≡◌, refl, ap, ◌∙◌, subst, List, [], ◌∷◌, ◌++◌, true, false,
  if◌then◌else◌, Option, none, some, length, drop, take, length-append, arith, Option-cases,
  ne→==_false, Bool-cases, inl, inr,
}
use mg_web.Affinity.{
  Affinity, absent, or_else, Separators, is_open, last_of, occurrence, search, query_string,
  find_sa_variable_ex,
}
use mg_web.Text.{CString, starts_with, strstr, c_string}
use mg_web.Types.{PathServer}

-- At one place of the string.
unfoldable pub at_place : Separators → List PathServer → CString → Option ℕ → CString → Affinity
at_place sep servers name prev s =
    if starts_with s name then occurrence sep servers name prev s else absent

-- The first place whose pair names a server.
unfoldable pub scan : Separators → List PathServer → CString → Option ℕ → CString → Affinity
scan sep servers name prev [] = absent
scan sep servers name prev (c ∷ s) =
    or_else (at_place sep servers name prev (c ∷ s)) (scan sep servers name (some c) s)

-- No byte of the string may stand in front of a name.
abbrev pub NoneOpens : Separators → CString → Type 0
NoneOpens sep [] = Unit {0}
NoneOpens sep (c ∷ s) = (sep.opens c ≡ false) × NoneOpens sep s

pub at_place-shut :
    (sep : Separators) (servers : List PathServer) (name : CString) (prev : Option ℕ) (s : CString)
    → is_open sep prev ≡ false
    → at_place sep servers name prev s ≡ absent
unfolding at_place occurrence
at_place-shut sep servers name prev s shut = elim (Bool-cases (starts_with s name)) [
  | inl t ↦ rw (t, shut) refl
  | inr f ↦ rw f refl
]

-- Bytes behind which no name can begin are passed over.
pub scan-skip :
    (sep : Separators) (servers : List PathServer) (name : CString) (prev : Option ℕ)
    (p tail : CString)
    → is_open sep prev ≡ false
    → NoneOpens sep p
    → scan sep servers name prev (p ++ tail) ≡ scan sep servers name (last_of prev p) tail
unfolding scan last_of or_else
scan-skip sep servers name prev [] tail shut none_opens = refl
scan-skip sep servers name prev (c ∷ p) tail shut none_opens =
    rw (at_place-shut sep servers name prev (c ∷ (p ++ tail)) shut)
      (scan-skip sep servers name (some c) p tail none_opens.0 none_opens.1)

starts_with-append : (s t : CString) → starts_with s t ≡ true → s ≡ t ++ drop (length t) s
unfolding starts_with
starts_with-append s [] h = refl
starts_with-append [] (b ∷ t) h = ground arith
starts_with-append (a ∷ s) (b ∷ t) h = ground (arith, starts_with-append s t)

scan-strstr-none :
    (sep : Separators) (servers : List PathServer) (name : CString) (prev : Option ℕ) (s : CString)
    → strstr s name ≡ none
    → scan sep servers name prev s ≡ absent
unfolding scan strstr at_place or_else
scan-strstr-none sep servers name prev [] h = refl
scan-strstr-none sep servers name prev (c ∷ s) h =
    ground (arith, scan-strstr-none sep servers name (some c) s)

scan-strstr-some :
    (sep : Separators) (servers : List PathServer) (first : ℕ) (more : CString) (prev : Option ℕ)
    (s before pn : CString)
    → strstr s (first ∷ more) ≡ some (before, pn)
    → (scan sep servers (first ∷ more) prev s
        ≡ scan sep servers (first ∷ more) (last_of prev before) pn)
      × (starts_with pn (first ∷ more) ≡ true)
      × (length pn ≤ length s)
unfolding strstr scan at_place or_else last_of
scan-strstr-some sep servers first more prev [] before pn h = ground arith
scan-strstr-some sep servers first more prev (c ∷ s) before pn h =
    elim (Bool-cases (starts_with (c ∷ s) (first ∷ more))) [
      | inl t ↦ ground (arith, t)
      | inr f ↦ elim (Option-cases (strstr s (first ∷ more))) [
        | inl e ↦ ground arith
        | inr ((before', pn'), e) ↦
            let rest = scan-strstr-some sep servers first more (some c) s before' pn' e in
            ground (arith, rest, f)
      ]
    ]

scan-place :
    (sep : Separators) (servers : List PathServer) (first : ℕ) (more : CString) (prev : Option ℕ)
    (tail : CString)
    → NoneOpens sep (first ∷ more)
    → starts_with (first ∷ (more ++ tail)) (first ∷ more) ≡ true
    → scan sep servers (first ∷ more) prev (first ∷ (more ++ tail))
      ≡ or_else
          (occurrence sep servers (first ∷ more) prev (first ∷ (more ++ tail)))
          (scan sep servers (first ∷ more) (last_of (some first) more) tail)
unfolding scan at_place
scan-place sep servers first more prev tail none_opens t =
    rw (t, scan-skip sep servers (first ∷ more) (some first) more tail none_opens.0 none_opens.1)

-- The search and the scan agree, and the search does not run out of rounds.
pub search-scan :
    (sep : Separators) (servers : List PathServer) (first : ℕ) (more : CString) (rounds : ℕ)
    (prev : Option ℕ) (s : CString)
    → NoneOpens sep (first ∷ more)
    → length s < rounds
    → search rounds sep servers (first ∷ more) prev s ≡ scan sep servers (first ∷ more) prev s
unfolding search last_of
search-scan sep servers first more zero prev s none_opens enough = absurd (omega arith)
search-scan sep servers first more (suc rounds) prev s none_opens enough =
    let name = first ∷ more in
    elim (Option-cases (strstr s name)) [
      | inl e ↦ rw (e, search, scan-strstr-none sep servers name prev s e)
      | inr ((before, pn), e) ↦
          let (same, t, shorter) = scan-strstr-some sep servers first more prev s before pn e in
          let tail = drop (length name) pn in
          let parts = starts_with-append pn name t in
          let len : length pn ≡ length name + length tail =
            ap length parts ∙ length-append name tail in
          let rest =
            search-scan sep servers first more rounds (last_of (last_of prev before) name) tail
              none_opens (omega (arith, len)) in
          let place =
            scan-place sep servers first more (last_of prev before) tail none_opens
              (subst (λ x. starts_with x name ≡ true) parts t) in
          let whole = ap (scan sep servers name (last_of prev before)) parts ∙ place in
          rw (e, search, same, whole, rest)
            (ap
              (λ x.
                or_else (occurrence sep servers name (last_of prev before) x)
                  (scan sep servers name (last_of (some first) more) tail))
              parts)
    ]

-- So the search of a query string is a scan of its places.
pub find_sa_variable_ex-scan :
    (servers : List PathServer) (first : ℕ) (more : CString) (nvpairs : List ℕ) (nvpairs_len : ℕ)
    → NoneOpens query_string (first ∷ more)
    → find_sa_variable_ex servers (first ∷ more) (some nvpairs) nvpairs_len
      ≡ scan query_string servers (first ∷ more) none (c_string (take nvpairs_len nvpairs))
unfolding find_sa_variable_ex c_string scan
find_sa_variable_ex-scan servers first more nvpairs zero none_opens = refl
find_sa_variable_ex-scan servers first more nvpairs (suc n) none_opens =
    let s = c_string (take (suc n) nvpairs) in
    rw (ne→==_false (suc n) 0 (λ e. absurd (omega arith)))
      (search-scan query_string servers first more (length s + 1) none s none_opens (omega arith))
