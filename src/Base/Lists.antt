-- ===== src/Base/Lists.antt =====
-- Lists measured and indexed by native numbers; `blit` is a store of several bytes.
use Prim.Native.Nat.add
use Prim.Native.Nat.{ℕ, zero, suc, ◌+◌, ◌≤◌, ◌<◌}
use mathlib.Core.Path.{◌≡◌, refl, ap}
use mathlib.Core.Logic.{◌≢◌}
use mathlib.Core.List.{List, [], ◌∷◌, ◌++◌}
use mathlib.Core.Option.{Option, none, some}
use native.Mathlib.Omega.{arith}

module _ {ℓ} {A : Type ℓ} where
  abbrev pub length : List A → ℕ
  length [] = 0
  length (x ∷ xs) = suc (length xs)

  abbrev pub get_elem? : List A → ℕ → Option A
  get_elem? [] i = none
  get_elem? (x ∷ xs) zero = some x
  get_elem? (x ∷ xs) (suc i) = get_elem? xs i

  abbrev pub get_or : List A → ℕ → A → A
  get_or [] i d = d
  get_or (x ∷ xs) zero d = x
  get_or (x ∷ xs) (suc i) d = get_or xs i d

  -- A write out of bounds changes nothing.
  abbrev pub set : List A → ℕ → A → List A
  set [] i v = []
  set (x ∷ xs) zero v = v ∷ xs
  set (x ∷ xs) (suc i) v = x ∷ set xs i v

  abbrev pub take : ℕ → List A → List A
  take zero xs = []
  take (suc n) [] = []
  take (suc n) (x ∷ xs) = x ∷ take n xs

  abbrev pub drop : ℕ → List A → List A
  drop zero xs = xs
  drop (suc n) [] = []
  drop (suc n) (x ∷ xs) = drop n xs

  -- Write `vs` over the elements from place `i` on.
  abbrev pub blit : List A → ℕ → List A → List A
  blit [] i vs = []
  blit (x ∷ xs) (suc i) vs = x ∷ blit xs i vs
  blit (x ∷ xs) zero [] = x ∷ xs
  blit (x ∷ xs) zero (v ∷ vs) = v ∷ blit xs zero vs

  pub length-append : (xs ys : List A) → length (xs ++ ys) ≡ length xs + length ys
  length-append [] ys = omega arith
  length-append (x ∷ xs) ys = omega (arith, length-append xs ys)

module _ {ℓ} {A : Type ℓ} where
  pub length-set : (xs : List A) (i : ℕ) (v : A) → length (set xs i v) ≡ length xs
  length-set [] i v = refl
  length-set (x ∷ xs) zero v = refl
  length-set (x ∷ xs) (suc i) v = ap suc (length-set xs i v)

  pub get_elem?-set_self :
      (xs : List A) (i : ℕ) (v : A) → i < length xs → get_elem? (set xs i v) i ≡ some v
  get_elem?-set_self [] i v h = elim h [ ]
  get_elem?-set_self (x ∷ xs) zero v h = refl
  get_elem?-set_self (x ∷ xs) (suc i) v h = get_elem?-set_self xs i v (omega arith)

  pub get_elem?-set_ne :
      (xs : List A) (i j : ℕ) (v : A) → i ≢ j → get_elem? (set xs i v) j ≡ get_elem? xs j
  get_elem?-set_ne [] i j v h = refl
  get_elem?-set_ne (x ∷ xs) zero zero v h = absurd (h refl)
  get_elem?-set_ne (x ∷ xs) zero (suc j) v h = refl
  get_elem?-set_ne (x ∷ xs) (suc i) zero v h = refl
  get_elem?-set_ne (x ∷ xs) (suc i) (suc j) v h = get_elem?-set_ne xs i j v (λ e. h (ap suc e))

  pub get_elem?-lt : (xs : List A) (i : ℕ) {v : A} → get_elem? xs i ≡ some v → i < length xs
  get_elem?-lt [] i h = cc
  get_elem?-lt (x ∷ xs) zero h = omega arith
  get_elem?-lt (x ∷ xs) (suc i) h = omega (arith, get_elem?-lt xs i h)

  pub length-blit : (xs : List A) (i : ℕ) (vs : List A) → length (blit xs i vs) ≡ length xs
  length-blit [] i vs = refl
  length-blit (x ∷ xs) (suc i) vs = ap suc (length-blit xs i vs)
  length-blit (x ∷ xs) zero [] = refl
  length-blit (x ∷ xs) zero (v ∷ vs) = ap suc (length-blit xs zero vs)

  pub blit-nil : (xs : List A) → blit xs zero [] ≡ xs
  blit-nil [] = refl
  blit-nil (x ∷ xs) = refl

  -- A store that fits replaces a middle part of the list.
  pub blit-eq-append :
      (xs : List A) (i : ℕ) (vs : List A)
      → i + length vs ≤ length xs
      → blit xs i vs ≡ take i xs ++ (vs ++ drop (length vs) (drop i xs))
  blit-eq-append [] zero [] h = refl
  blit-eq-append [] zero (v ∷ vs) h = absurd (omega arith)
  blit-eq-append [] (suc i) vs h = absurd (omega arith)
  blit-eq-append (x ∷ xs) (suc i) vs h = ap (◌∷◌ x) (blit-eq-append xs i vs (omega arith))
  blit-eq-append (x ∷ xs) zero [] h = refl
  blit-eq-append (x ∷ xs) zero (v ∷ vs) h = ap (◌∷◌ v) (blit-eq-append xs zero vs (omega arith))

  -- A store just behind a store, and one just in front of it.
  pub blit-blit_behind :
      (xs : List A) (i : ℕ) (us vs : List A)
      → blit (blit xs i us) (i + length us) vs ≡ blit xs i (us ++ vs)
  blit-blit_behind [] i us vs = refl
  blit-blit_behind (x ∷ xs) (suc i) us vs = simp add.suc (ap (◌∷◌ x) (blit-blit_behind xs i us vs))
  blit-blit_behind (x ∷ xs) zero [] vs = refl
  blit-blit_behind (x ∷ xs) zero (u ∷ us) vs =
      simp (add.zero) (ap (◌∷◌ u) (simp (add.zero) at (blit-blit_behind xs zero us vs)))

  pub blit-blit_before :
      (xs : List A) (i : ℕ) (us vs : List A)
      → blit (blit xs (i + length us) vs) i us ≡ blit xs i (us ++ vs)
  blit-blit_before [] i us vs = refl
  blit-blit_before (x ∷ xs) (suc i) us vs = simp add.suc (ap (◌∷◌ x) (blit-blit_before xs i us vs))
  blit-blit_before (x ∷ xs) zero [] vs = blit-nil (blit (x ∷ xs) zero vs)
  blit-blit_before (x ∷ xs) zero (u ∷ us) vs =
      simp (add.zero) (ap (◌∷◌ u) (simp (add.zero) at (blit-blit_before xs zero us vs)))

  pub take-blit :
      (xs : List A) (i : ℕ) (vs : List A)
      → i + length vs ≤ length xs
      → take (i + length vs) (blit xs i vs) ≡ take i xs ++ vs
  take-blit [] zero [] h = refl
  take-blit [] zero (v ∷ vs) h = absurd (omega arith)
  take-blit [] (suc i) vs h = absurd (omega arith)
  take-blit (x ∷ xs) (suc i) vs h = simp add.suc (ap (◌∷◌ x) (take-blit xs i vs (omega arith)))
  take-blit (x ∷ xs) zero [] h = refl
  take-blit (x ∷ xs) zero (v ∷ vs) h =
      simp add.zero (ap (◌∷◌ v) (simp add.zero at (take-blit xs zero vs (omega arith))))

  pub take-append-drop : (n : ℕ) (xs : List A) → take n xs ++ drop n xs ≡ xs
  take-append-drop zero xs = refl
  take-append-drop (suc n) [] = refl
  take-append-drop (suc n) (x ∷ xs) = rw (take-append-drop n xs)

  pub take-length_append : (xs ys : List A) → take (length xs) (xs ++ ys) ≡ xs
  take-length_append [] ys = refl
  take-length_append (x ∷ xs) ys = ap (◌∷◌ x) (take-length_append xs ys)

  pub drop-length_append : (xs ys : List A) → drop (length xs) (xs ++ ys) ≡ ys
  drop-length_append [] ys = refl
  drop-length_append (x ∷ xs) ys = drop-length_append xs ys

  pub length-take : (n : ℕ) (xs : List A) → n ≤ length xs → length (take n xs) ≡ n
  length-take zero xs h = refl
  length-take (suc n) [] h = absurd (omega arith)
  length-take (suc n) (x ∷ xs) h = ap suc (length-take n xs (omega arith))

-- What holds of each element.
abbrev pub All {ℓ κ} : {A : Type ℓ} → (A → Type κ) → List A → Type κ
All P [] = Unit
All P (x ∷ xs) = P x × All P xs
