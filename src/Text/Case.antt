-- ===== src/Text/Case.antt =====
-- What the case functions of mg_web.c keep and change.
use mg_web.Base.{
  ℕ, ◌≡◌, refl, List, [], ◌∷◌, Bool, true, false, arith, ◌==◌, ◌≤◌, ◌<◌, ◌+◌, ◌-◌, ◌⊎◌, inl, inr,
  Bool-cases,
}
use mg_web.Text.{is_lower, is_upper, ucase, lcase, ccase_from, ccase, ccase_byte}

lcase-ccase_from : (initial : Bool) (s : List ℕ) → lcase (ccase_from initial s) ≡ lcase s
unfolding lcase ccase_from
lcase-ccase_from initial [] = refl
lcase-ccase_from initial (c ∷ s) = ground (arith, lcase-ccase_from (ccase_byte initial c == b'-') s)

lcase-lcase : (s : List ℕ) → lcase (lcase s) ≡ lcase s
unfolding lcase
lcase-lcase [] = refl
lcase-lcase (c ∷ s) = ground (arith, lcase-lcase s)

lcase-ucase : (s : List ℕ) → lcase (ucase s) ≡ lcase s
unfolding lcase ucase
lcase-ucase [] = refl
lcase-ucase (c ∷ s) = ground (arith, lcase-ucase s)

ccase_from-lcase :
    (initial : Bool) (s : List ℕ) → ccase_from initial (lcase s) ≡ ccase_from initial s
unfolding lcase ccase_from
ccase_from-lcase initial [] = refl
ccase_from-lcase initial (c ∷ s) = ground (arith, ccase_from-lcase (ccase_byte initial c == b'-') s)

ccase_from_idem :
    (initial : Bool) (s : List ℕ) → ccase_from initial (ccase_from initial s) ≡ ccase_from initial s
unfolding ccase_from
ccase_from_idem initial [] = refl
ccase_from_idem initial (c ∷ s) = ground (arith, ccase_from_idem (ccase_byte initial c == b'-') s)

-- The same text but for the case of its letters.
pub data SameButCase : List ℕ → List ℕ → Type 0 where
  ended : SameButCase [] []
  same : (c : ℕ) (s t : List ℕ) → SameButCase s t → SameButCase (c ∷ s) (c ∷ t)
  raised :
      (c : ℕ) (s t : List ℕ)
      → 97 ≤ c
      → c ≤ 122
      → SameButCase s t
      → SameButCase (c ∷ s) ((c - 32) ∷ t)
  lowered :
      (c : ℕ) (s t : List ℕ)
      → 65 ≤ c
      → c ≤ 90
      → SameButCase s t
      → SameButCase (c ∷ s) ((c + 32) ∷ t)

-- Up to the first zero there is no small letter, or no capital letter.
abbrev pub NoSmall : List ℕ → Type 0
NoSmall [] = Unit {0}
NoSmall (c ∷ s) = (c ≡ 0) ⊎ (((c < 97) ⊎ (122 < c)) × NoSmall s)

abbrev pub NoCapital : List ℕ → Type 0
NoCapital [] = Unit {0}
NoCapital (c ∷ s) = (c ≡ 0) ⊎ (((c < 65) ⊎ (90 < c)) × NoCapital s)

-- Up to the first zero, no small letter stands at the start or behind a dash, and no capital letter elsewhere; the flag says
-- that a word starts here.
abbrev pub Words : Bool → List ℕ → Type 0
Words initial [] = Unit {0}
Words true (c ∷ s) = (c ≡ 0) ⊎ (((c < 97) ⊎ (122 < c)) × Words (c == b'-') s)
Words false (c ∷ s) = (c ≡ 0) ⊎ (((c < 65) ⊎ (90 < c)) × Words (c == b'-') s)

SameButCase-refl : (s : List ℕ) → SameButCase s s
SameButCase-refl [] = ended
SameButCase-refl (c ∷ s) = same c s s (SameButCase-refl s)

ucase-SameButCase : (s : List ℕ) → SameButCase s (ucase s)
unfolding ucase
ucase-SameButCase [] = ended
ucase-SameButCase (c ∷ s) = elim (Bool-cases (c == 0)) [
  | inl z ↦ rw z (SameButCase-refl (c ∷ s))
  | inr nz ↦ elim (Bool-cases (is_lower c)) [
    | inl l ↦ rw (nz, l) (raised c s _ (ground arith) (ground arith) (ucase-SameButCase s))
    | inr l ↦ rw (nz, l) (same c s _ (ucase-SameButCase s))
  ]
]

lcase-SameButCase : (s : List ℕ) → SameButCase s (lcase s)
unfolding lcase
lcase-SameButCase [] = ended
lcase-SameButCase (c ∷ s) = elim (Bool-cases (c == 0)) [
  | inl z ↦ rw z (SameButCase-refl (c ∷ s))
  | inr nz ↦ elim (Bool-cases (is_upper c)) [
    | inl l ↦ rw (nz, l) (lowered c s _ (ground arith) (ground arith) (lcase-SameButCase s))
    | inr l ↦ rw (nz, l) (same c s _ (lcase-SameButCase s))
  ]
]

ccase_from-SameButCase : (initial : Bool) (s : List ℕ) → SameButCase s (ccase_from initial s)
unfolding ccase_from
ccase_from-SameButCase initial [] = ended
ccase_from-SameButCase true (c ∷ s) =
    let rest = ccase_from-SameButCase (ccase_byte true c == b'-') s in
    elim (Bool-cases (c == 0)) [
      | inl z ↦ rw z (SameButCase-refl (c ∷ s))
      | inr nz ↦ elim (Bool-cases (is_lower c)) [
        | inl l ↦ rw (nz, l) (raised c s _ (ground arith) (ground arith) (rw l at rest))
        | inr l ↦ rw (nz, l) (same c s _ (rw l at rest))
      ]
    ]
ccase_from-SameButCase false (c ∷ s) =
    let rest = ccase_from-SameButCase (ccase_byte false c == b'-') s in
    elim (Bool-cases (c == 0)) [
      | inl z ↦ rw z (SameButCase-refl (c ∷ s))
      | inr nz ↦ elim (Bool-cases (is_upper c)) [
        | inl l ↦ rw (nz, l) (lowered c s _ (ground arith) (ground arith) (rw l at rest))
        | inr l ↦ rw (nz, l) (same c s _ (rw l at rest))
      ]
    ]

ucase-NoSmall : (s : List ℕ) → NoSmall (ucase s)
unfolding ucase
ucase-NoSmall [] = tt
ucase-NoSmall (c ∷ s) = ground (arith, ucase-NoSmall s)

lcase-NoCapital : (s : List ℕ) → NoCapital (lcase s)
unfolding lcase
lcase-NoCapital [] = tt
lcase-NoCapital (c ∷ s) = ground (arith, lcase-NoCapital s)

ccase_from-Words : (initial : Bool) (s : List ℕ) → Words initial (ccase_from initial s)
unfolding ccase_from
ccase_from-Words initial [] = tt
ccase_from-Words true (c ∷ s) = ground (arith, ccase_from-Words (ccase_byte true c == b'-') s)
ccase_from-Words false (c ∷ s) = ground (arith, ccase_from-Words (ccase_byte false c == b'-') s)

-- `mg_ucase`, `mg_lcase` and `mg_ccase` change nothing but the case of letters. Up to the first zero,
-- `mg_ucase` leaves no small letter and `mg_lcase` no capital one, and behind `mg_ccase` the letters
-- at the start and behind a dash are capital and all others small. `mg_ccase` and `mg_ucase` do not
-- change what `mg_lcase` gives, and `mg_lcase` does not change what `mg_ccase` gives.
pub lcase-ccase-ucase :
    (s : List ℕ)
    → (SameButCase s (ucase s) × NoSmall (ucase s))
      × (SameButCase s (lcase s) × NoCapital (lcase s))
      × (SameButCase s (ccase s) × Words true (ccase s))
      × (lcase (ccase s) ≡ lcase s)
      × (lcase (ucase s) ≡ lcase s)
      × (ccase (lcase s) ≡ ccase s)
      × (lcase (lcase s) ≡ lcase s)
      × (ccase (ccase s) ≡ ccase s)
lcase-ccase-ucase s = (
  (ucase-SameButCase s, ucase-NoSmall s),
  (lcase-SameButCase s, lcase-NoCapital s),
  (ccase_from-SameButCase true s, ccase_from-Words true s),
  lcase-ccase_from true s,
  lcase-ucase s,
  ccase_from-lcase true s,
  lcase-lcase s,
  ccase_from_idem true s,
)
