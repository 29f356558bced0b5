-- ===== src/WebSocket/Frames/Unmasked.antt =====
-- The loops that take the mask off a payload give it back.
use Prim.Native.Nat.{bit_xor}
use mg_web.Base.{
  ℕ, zero, suc, ◌+◌, ◌%◌, ◌<◌, ◌≡◌, ◌≢◌, refl, sym, ap, ◌∙◌, List, [], ◌∷◌, ◌++◌, true, false,
  length, get_or, arith, append-nil, append_assoc, inl, inr, Bool-cases,
}
use mg_web.WebSocket.Utf8.{Utf8State, is_er, validate, validate_utf8}
use mg_web.WebSocket.Payload.{unmask, unmask_text}
use mg_web.WebSocket.Incoming.Blocks.Copies.{validate-valid, unmask_text-valid, validate-invalid}
use mg_web.WebSocket.Frames.{Key, key_bytes, under_mask, are_bytes}
use mg_web.WebSocket.Frames.Xor.{bit_xor_twice, bit_xor_zero}

get_or-are_bytes : (xs : List ℕ) (i : ℕ) → are_bytes xs ≡ true → get_or xs i 0 < 256
unfolding are_bytes
get_or-are_bytes [] i h = omega arith
get_or-are_bytes (x ∷ xs) zero h = ground arith
get_or-are_bytes (x ∷ xs) (suc i) h = get_or-are_bytes xs i (ground arith)

are_bytes-head : (b : ℕ) (bytes : List ℕ) → are_bytes (b ∷ bytes) ≡ true → b < 256
unfolding are_bytes
are_bytes-head b bytes h = ground arith

are_bytes-tail : (b : ℕ) (bytes : List ℕ) → are_bytes (b ∷ bytes) ≡ true → are_bytes bytes ≡ true
unfolding are_bytes
are_bytes-tail b bytes h = ground arith

-- One byte under the mask and out of it.
mask_byte :
    (k : Key) (off b : ℕ)
    → are_bytes (key_bytes k) ≡ true
    → b < 256
    → (let m = get_or (key_bytes k) (off % 4) 0 in bit_xor (bit_xor b m) m ≡ b)
mask_byte k off b keys lb =
    bit_xor_twice b (get_or (key_bytes k) (off % 4) 0) lb
      (get_or-are_bytes (key_bytes k) (off % 4) keys)

-- The result of a loop with one byte more in front.
one_more :
    {R : Type 0} (loop : List ℕ → ℕ → R) (acc payload : List ℕ) (b off : ℕ)
    → loop ((acc ++ (b ∷ [])) ++ payload) (off + 1 + length payload)
      ≡ loop (acc ++ (b ∷ payload)) (off + length (b ∷ payload))
one_more loop acc payload b off =
    let sum : off + 1 + length payload ≡ off + length (b ∷ payload) = omega arith in
    rw (append_assoc acc (b ∷ []) payload, sum) refl

pub unmask-under_mask :
    (k : Key) (off : ℕ) (acc payload : List ℕ)
    → are_bytes (key_bytes k) ≡ true
    → are_bytes payload ≡ true
    → unmask (length payload) (key_bytes k) off acc (under_mask (key_bytes k) off payload)
      ≡ (acc ++ payload, off + length payload, [])
unfolding unmask under_mask
unmask-under_mask k off acc [] keys bytes =
    let sum : off + 0 ≡ off = omega arith in rw (append-nil acc, sum) refl
unmask-under_mask k off acc (b ∷ payload) keys bytes =
    rw (mask_byte k off b keys (are_bytes-head b payload bytes)) (
      unmask-under_mask k (off + 1) (acc ++ (b ∷ [])) payload keys (are_bytes-tail b payload bytes)
      ∙ one_more (λ l i. (l, i, [])) acc payload b off)

true-ne-false : true ≢ false
true-ne-false e = cc

-- A text that is valid has no byte that breaks it.
valid_byte :
    (u : Utf8State) (b : ℕ) (s : List ℕ)
    → is_er (validate u (b ∷ s)) ≡ false
    → is_er (validate_utf8 u b) ≡ false
valid_byte u b s h =
    elim (Bool-cases (is_er (validate_utf8 u b))) as (λ _. is_er (validate_utf8 u b) ≡ false) [
      | inl e ↦ (absurd (true-ne-false (sym (ap is_er (validate-invalid u b s e)) ∙ h)))
      | inr e ↦ e
    ]

pub unmask_text-under_mask :
    (k : Key) (off : ℕ) (u : Utf8State) (acc payload : List ℕ)
    → are_bytes (key_bytes k) ≡ true
    → are_bytes payload ≡ true
    → is_er (validate u payload) ≡ false
    → unmask_text (length payload) (key_bytes k) off u acc (under_mask (key_bytes k) off payload)
      ≡ (acc ++ payload, validate u payload, off + length payload, [])
unfolding unmask_text under_mask validate
unmask_text-under_mask k off u acc [] keys bytes valid =
    let sum : off + 0 ≡ off = omega arith in rw (append-nil acc, sum) refl
unmask_text-under_mask k off u acc (b ∷ payload) keys bytes valid =
    let fine = valid_byte u b payload valid in
    let later = sym (ap is_er (validate-valid u b payload fine)) ∙ valid in
    let m = get_or (key_bytes k) (off % 4) 0 in
    let back = mask_byte k off b keys (are_bytes-head b payload bytes) in
    let rest = under_mask (key_bytes k) (off + 1) payload in
    unmask_text-valid (length payload) (key_bytes k) off u acc (bit_xor b m) rest
      (ap (λ c. is_er (validate_utf8 u c)) back ∙ fine)
    ∙ ap
        (λ c.
          unmask_text (length payload) (key_bytes k) (off + 1) (validate_utf8 u c) (acc ++ (c ∷ []))
            rest)
        back
    ∙ unmask_text-under_mask k (off + 1) (validate_utf8 u b) (acc ++ (b ∷ [])) payload keys
        (are_bytes-tail b payload bytes) later
    ∙ one_more (λ l i. (l, validate (validate_utf8 u b) payload, i, [])) acc payload b off
    ∙ ap (λ v. (acc ++ (b ∷ payload), v, off + length (b ∷ payload), []))
        (sym (validate-valid u b payload fine))

get_or-zero_key :
    (k : Key) (i : ℕ) → k.k0 ≡ 0 → k.k1 ≡ 0 → k.k2 ≡ 0 → k.k3 ≡ 0 → get_or (key_bytes k) i 0 ≡ 0
get_or-zero_key k zero z0 z1 z2 z3 = z0
get_or-zero_key k (suc zero) z0 z1 z2 z3 = z1
get_or-zero_key k (suc (suc zero)) z0 z1 z2 z3 = z2
get_or-zero_key k (suc (suc (suc zero))) z0 z1 z2 z3 = z3
get_or-zero_key k (suc (suc (suc (suc i)))) z0 z1 z2 z3 = refl

pub under_mask-zero :
    (k : Key) (off : ℕ) (payload : List ℕ)
    → k.k0 ≡ 0
    → k.k1 ≡ 0
    → k.k2 ≡ 0
    → k.k3 ≡ 0
    → are_bytes payload ≡ true
    → under_mask (key_bytes k) off payload ≡ payload
unfolding under_mask
under_mask-zero k off [] z0 z1 z2 z3 bytes = refl
under_mask-zero k off (b ∷ payload) z0 z1 z2 z3 bytes =
    rw
      (
        get_or-zero_key k (off % 4) z0 z1 z2 z3,
        bit_xor_zero b (are_bytes-head b payload bytes),
        under_mask-zero k (off + 1) payload z0 z1 z2 z3 (are_bytes-tail b payload bytes),
      )
      refl
