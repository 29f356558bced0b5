-- ===== src/Text/Compare.antt =====
-- src/mg_web.c: what a comparison with the function `strcmp` of the C library says.
use mg_web.Base.{
  ◌≡◌, refl, [], ◌∷◌, Bool, true, false, ◌&&◌, ◌||◌, ◌==◌, ==_iff, Bool-cases, if◌then◌else◌, inl,
  inr,
}
use mg_web.Text.{CString, strcmp_eq}

pub and_left : (a b : Bool) → (a && b) ≡ true → a ≡ true
and_left true b h = refl
and_left false b h = h

pub and_right : (a b : Bool) → (a && b) ≡ true → b ≡ true
and_right true b h = h
and_right false b h = absurd cc

pub strcmp_eq_sound : (s t : CString) → strcmp_eq s t ≡ true → s ≡ t
unfolding strcmp_eq
strcmp_eq_sound [] [] h = refl
strcmp_eq_sound [] (b ∷ t) h = absurd cc
strcmp_eq_sound (a ∷ s) [] h = absurd cc
strcmp_eq_sound (a ∷ s) (b ∷ t) h =
    let head : a ≡ b = (==_iff a b).0 (and_left (a == b) (strcmp_eq s t) h) in
    let tail : s ≡ t = strcmp_eq_sound s t (and_right (a == b) (strcmp_eq s t) h) in cc

pub strcmp_eq_refl : (s : CString) → strcmp_eq s s ≡ true
unfolding strcmp_eq
strcmp_eq_refl [] = refl
strcmp_eq_refl (a ∷ s) = rw ((==_iff a a).1 refl, strcmp_eq_refl s) refl

module _ {ℓ κ} {A : Type ℓ} (P : A → Type κ) where
  -- What holds in both branches, in the first with the words equal.
  pub if_equal :
      (s t : CString) {x y : A} → (s ≡ t → P x) → P y → P (if strcmp_eq s t then x else y)
  if_equal s t {x} {y} p q =
      elim (Bool-cases (strcmp_eq s t)) as (λ _. P (if strcmp_eq s t then x else y)) [
        | inl e ↦ rw e (p (strcmp_eq_sound s t e))
        | inr e ↦ rw e q
      ]

  pub if_either :
      (s t : CString) (b : Bool) {x : A} (y : A)
      → (s ≡ t → P x)
      → P (if b then x else y)
      → P (if strcmp_eq s t || b then x else y)
  if_either s t b {x} y p q =
      elim (Bool-cases (strcmp_eq s t)) as (λ _. P (if strcmp_eq s t || b then x else y)) [
        | inl e ↦ rw e (p (strcmp_eq_sound s t e))
        | inr e ↦ rw e q
      ]
