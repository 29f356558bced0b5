-- ===== src/Affinity/Boundary/Bounds.antt =====
-- Which boundaries fit into the array.
use mg_web.Base.{
  ℕ, zero, suc, ◌+◌, ◌-◌, ◌||◌, ◌==◌, ◌<◌, ◌≡◌, refl, sym, ap, ◌∙◌, List, [], ◌∷◌, ◌++◌, true,
  false, ltb, if◌then◌else◌, some, length, drop, set, arith, Bool-cases, inl, inr, append_assoc,
  length-append,
}
use mg_web.Text.{CString, strstr}
use mg_web.Affinity.Boundary.{
  stored, overflow, is_end, store_boundary, boundary_is, skip_quote, read_boundary,
}

-- What stands in front of the first byte that ends a boundary.
unfoldable pub value : CString → CString
value [] = []
value (c ∷ p) = let rest = value p in if c == b'"' || c == b';' || c == b' ' then [] else (c ∷ rest)

unfoldable pub zeros : ℕ → List ℕ
zeros zero = []
zeros (suc n) = 0 ∷ zeros n

set-append :
    (done : List ℕ) (z c : ℕ) (zs : List ℕ)
    → set (done ++ (z ∷ zs)) (length done) c ≡ done ++ (c ∷ zs)
set-append [] z c zs = refl
set-append (d ∷ done) z c zs = ap (λ l. d ∷ l) (set-append done z c zs)

value-more : (c : ℕ) (p : CString) → is_end c ≡ false → value (c ∷ p) ≡ c ∷ value p
unfolding value
value-more c p e = rw e refl

value-end : (c : ℕ) (p : CString) → is_end c ≡ true → value (c ∷ p) ≡ []
unfolding value
value-end c p e = rw e refl

shorten :
    (c : ℕ) (p : CString) (k : ℕ)
    → is_end c ≡ false
    → length (value (c ∷ p)) < suc k
    → length (value p) < k
shorten c p k e fits = let same = ap length (value-more c p e) in omega arith

room_left :
    (done : List ℕ) (c k : ℕ) → length done + suc k ≡ 256 → length (done ++ (c ∷ [])) + k ≡ 256
room_left done c k room = let sum = length-append done (c ∷ []) in omega arith

-- A byte that is stored, as one of those that are done.
one_more :
    (done : List ℕ) (c : ℕ) (p : CString) (rest : List ℕ)
    → store_boundary (length done + 1) p (done ++ (c ∷ rest))
      ≡ store_boundary (length (done ++ (c ∷ []))) p ((done ++ (c ∷ [])) ++ rest)
one_more done c p rest =
    ap (λ n. store_boundary n p (done ++ (c ∷ rest))) (sym (length-append done (c ∷ [])))
    ∙ ap (store_boundary (length (done ++ (c ∷ []))) p) (sym (append_assoc done (c ∷ []) rest))

store_boundary-fits :
    (p : CString) (k : ℕ) (done : List ℕ)
    → length done + k ≡ 256
    → length (value p) < k
    → store_boundary (length done) p (done ++ zeros k)
      ≡ stored (done ++ (value p ++ zeros (k - length (value p))))
unfolding store_boundary value zeros
store_boundary-fits [] k done room fits = let all : k - 0 ≡ k = omega arith in rw all refl
store_boundary-fits (c ∷ p) zero done room fits = absurd (omega arith)
store_boundary-fits (c ∷ p) (suc k) done room fits =
    let below : ltb (length done) 256 ≡ true = ground arith in
    elim (Bool-cases (is_end c))
      as (λ _.
        store_boundary (length done) (c ∷ p) (done ++ zeros (suc k))
        ≡ stored (done ++ (value (c ∷ p) ++ zeros (suc k - length (value (c ∷ p)))))) [
          | inl e ↦
              let all : suc k - 0 ≡ suc k = omega arith in
              rw (e, below, set-append done 0 0 (zeros k), all) refl
          | inr e ↦
              let shorter : length (value p) < k = shorten c p k e fits in
              let left : k - length (value p) ≡ suc k - suc (length (value p)) = omega arith in
              rw (e, below, set-append done 0 c (zeros k))
                (one_more done c p (zeros k)
                  ∙ store_boundary-fits p k (done ++ (c ∷ [])) (room_left done c k room) shorter
                  ∙ ap stored (append_assoc done (c ∷ []) (value p ++ zeros (k - length (value p))))
                  ∙ ap (λ m. stored (done ++ (c ∷ (value p ++ zeros m)))) left)
        ]

-- The rest is too long as well, or the array is full.
abbrev IsOver : CString → Type 0
IsOver p =
    (k : ℕ) (done : List ℕ)
    → length done + k ≡ 256
    → k < length (value p)
    → store_boundary (length done) p (done ++ zeros k) ≡ overflow

IsOver-more :
    (c : ℕ) (p : CString)
    → IsOver p
    → (k : ℕ) (done : List ℕ) → length done + k ≡ 256
    → k < length (value (c ∷ p))
    → is_end c ≡ false
    → store_boundary (length done) (c ∷ p) (done ++ zeros k) ≡ overflow
unfolding store_boundary zeros
IsOver-more c p onward zero done room over e =
    let full : ltb (length done) 256 ≡ false = ground arith in rw (e, full) refl
IsOver-more c p onward (suc k) done room over e =
    let below : ltb (length done) 256 ≡ true = ground arith in
    let longer : k < length (value p) = (let same = ap length (value-more c p e) in omega arith) in
    rw (e, below, set-append done 0 c (zeros k))
      (one_more done c p (zeros k) ∙ onward k (done ++ (c ∷ [])) (room_left done c k room) longer)

IsOver-∷ : (c : ℕ) (p : CString) → IsOver p → IsOver (c ∷ p)
unfolding store_boundary zeros
IsOver-∷ c p onward k done room over =
    elim (Bool-cases (is_end c))
      as (λ _. store_boundary (length done) (c ∷ p) (done ++ zeros k) ≡ overflow) [
        | inl e ↦ absurd (let none_left = ap length (value-end c p e) in omega arith)
        | inr e ↦ IsOver-more c p onward k done room over e
      ]

store_boundary-IsOver : (p : CString) → IsOver p
unfolding value
store_boundary-IsOver [] k done room over = absurd (omega arith)
store_boundary-IsOver (c ∷ p) k done room over =
    IsOver-∷ c p (store_boundary-IsOver p) k done room over

module _ (content_type before p : CString)
    (found : strstr content_type boundary_is ≡ some (before, p)) where
  read_boundary-store_boundary :
      read_boundary content_type (zeros 256) ≡ store_boundary 0 (skip_quote (drop 9 p)) (zeros 256)
  unfolding read_boundary
  read_boundary-store_boundary = rw (read_boundary, found) refl

  -- `mg_find_sa_variable`, where the content type of the request has a `boundary=`, and the array `boundary`
  -- is all zeros: what stands behind it, without a quote in front and up to the first quote, semicolon or
  -- blank, is stored in the array where it has fewer than 256 bytes, with zeros behind it.
  pub read_boundary-fits :
      length (value (skip_quote (drop 9 p))) < 256
      → (let v = value (skip_quote (drop 9 p)) in
          read_boundary content_type (zeros 256) ≡ stored (v ++ zeros (256 - length v)))
  read_boundary-fits fits =
      read_boundary-store_boundary ∙ store_boundary-fits (skip_quote (drop 9 p)) 256 [] refl fits

  -- `mg_find_sa_variable`, where the content type of the request has a `boundary=` with more than 256 bytes
  -- behind it, without a quote in front and up to the first quote, semicolon or blank: they are stored
  -- behind the end of the array `boundary` too.
  pub read_boundary-overflow :
      256 < length (value (skip_quote (drop 9 p)))
      → read_boundary content_type (zeros 256) ≡ overflow
  read_boundary-overflow over =
      read_boundary-store_boundary ∙ store_boundary-IsOver (skip_quote (drop 9 p)) 256 [] refl over
