-- ===== src/GrowingBuffer/Contents.antt =====
-- What the buffers hold, and that they have room for it and its terminator.
use mathlib.Core.Path.{ap₂}
use mg_web.Base.{
  ℕ, zero, suc, ◌+◌, ◌%◌, ◌^◌, ◌≤◌, ◌<◌, ◌≡◌, refl, ap, ◌∙◌, sym, subst, List, [], ◌∷◌, ◌++◌, true,
  ltb, ◌==◌, none, some, length, take, set, blit, arith, get_elem?, length-set, length-blit,
  length-take, get_elem?-set_self, take-blit, Bool-cases, inl, inr, ltb→lt, append-nil,
}
use mg_web.GrowingBuffer.{
  MgBuf, Malloc, to_int, buf_init, given_size, grow, copy_in, store, buf_cpy, append, buf_cat,
}

-- The memory has one byte more than `size`, and the data end at a zero.
pub record IsValid (b : MgBuf) : Type 0 where
  pub mem : List ℕ
  pub at : b.p_buffer ≡ some mem
  pub room : length mem ≡ b.size + 1
  pub fits : b.data_size ≤ b.size
  pub ended : get_elem? mem b.data_size ≡ some 0

abbrev pub contents : MgBuf → List ℕ
contents b = elim b.p_buffer [ none ↦ [] | some m ↦ take b.data_size m ]

-- The allocator has memory, and gives as much as it is asked for.
abbrev pub Allocates : Malloc → Type 0
Allocates malloc = (k n : ℕ) → n < 2 ^ 31 → (m : List ℕ) × (malloc k n ≡ some m) × (length m ≡ n)

to_int-small : (n : ℕ) → n < 2 ^ 31 → to_int n ≡ n
to_int-small n h = let low : n % 2 ^ 32 ≡ n = omega arith in rw low (ground arith)

-- Enough rounds lead to a size that is large enough, and no larger than the increment makes it.
grow_lem :
    (rounds req inc csize : ℕ)
    → 0 < inc
    → 0 < rounds
    → req < csize + rounds
    → req + inc < 2 ^ 31
    → csize < req + inc
    → (c : ℕ) × (grow rounds req inc csize ≡ some c) × (req ≤ c) × (c < req + inc)
unfolding grow
grow_lem zero req inc csize pos some_left enough fits low = absurd (omega arith)
grow_lem (suc rounds) req inc csize pos some_left enough fits low =
    elim (Bool-cases (ltb csize req)) [
      | inl t ↦
          let lt = ltb→lt csize req t in
          let sum : (csize + inc) % 2 ^ 64 ≡ csize + inc = omega arith in
          let (c, e, le, up) =
            grow_lem rounds req inc (csize + inc) pos (omega arith) (omega arith) fits
              (omega arith) in
          (c, rw t (ap (grow rounds req inc) sum ∙ e), le, up)
      | inr f ↦ (csize, rw f refl, ground arith, low)
    ]

take-set_at : (xs : List ℕ) (i : ℕ) (v : ℕ) → take i (set xs i v) ≡ take i xs
take-set_at [] i v = refl
take-set_at (x ∷ xs) zero v = refl
take-set_at (x ∷ xs) (suc i) v = ap (◌∷◌ x) (take-set_at xs i v)

-- A store of bytes behind the first `at` bytes.
store_lem :
    (b : MgBuf) (mem : List ℕ) (at end : ℕ) (bytes : List ℕ)
    → b.p_buffer ≡ some mem
    → length mem ≡ b.size + 1
    → end ≡ at + length bytes
    → end ≤ b.size
    → IsValid (store b at bytes end) × (contents (store b at bytes end) ≡ take at mem ++ bytes)
unfolding store
store_lem b mem at end bytes e len sum fits =
    let mem' = set (blit mem at bytes) end 0 in
    let len' : length (blit mem at bytes) ≡ b.size + 1 = length-blit mem at bytes ∙ len in
    let holds : take (at + length bytes) (blit mem at bytes) ≡ take at mem ++ bytes =
      take-blit mem at bytes (omega (arith, len, sum)) in
    (
      record {
        mem = mem';
        at = rw e refl;
        room = length-set (blit mem at bytes) end 0 ∙ len';
        fits = fits;
        ended = get_elem?-set_self (blit mem at bytes) end 0 (omega (arith, len'));
      },
      rw e (
          take-set_at (blit mem at bytes) end 0
          ∙ subst (λ x. take x (blit mem at bytes) ≡ take at mem ++ bytes) (sym sum) holds),
    )

take-blit_zero : (xs vs : List ℕ) → length vs ≤ length xs → take (length vs) (blit xs 0 vs) ≡ vs
take-blit_zero xs vs h =
    subst (λ k. take k (blit xs 0 vs) ≡ vs) {x = 0 + length vs} (omega arith)
      (take-blit xs 0 vs (omega arith))

-- A buffer that `mg_buf_init` has made, with this memory.
abbrev initialized : ℕ → ℕ → List ℕ → MgBuf
initialized size inc m = record {
  size = size;
  data_size = 0;
  increment_size = inc;
  p_buffer = some (set m 0 0);
}

buf_init-initialized :
    (malloc : Malloc) (size inc : ℕ) (m : List ℕ)
    → size + 1 < 2 ^ 31
    → malloc 0 (size + 1) ≡ some m
    → buf_init malloc size inc ≡ (initialized size inc m, true)
unfolding buf_init
buf_init-initialized malloc size inc m small e =
    rw (buf_init, to_int-small (size + 1) small, e) refl

buf_init-to_int :
    (malloc : Malloc) (size inc : ℕ) (m : List ℕ)
    → size + 1 < 2 ^ 31
    → inc < 2 ^ 31
    → malloc 0 (size + 1) ≡ some m
    → buf_init malloc (to_int size) (to_int inc) ≡ (initialized size inc m, true)
buf_init-to_int malloc size inc m small small2 e =
    ap₂ (buf_init malloc) (to_int-small size (omega arith)) (to_int-small inc small2)
    ∙ buf_init-initialized malloc size inc m small e

-- New memory, with bytes copied into it, and more behind them.
copy_lem :
    (m : List ℕ) (size inc at end : ℕ) (bytes more : List ℕ)
    → length m ≡ size + 1
    → length bytes ≡ at
    → end ≡ at + length more
    → end ≤ size
    → let s = store (copy_in (initialized size inc m) 0 bytes) at more end in
      IsValid s × (contents s ≡ bytes ++ more)
copy_lem m size inc at end bytes more len here sum fits =
    let zeroed = length-set m 0 0 in
    let mem = blit (set m 0 0) 0 bytes in
    let (valid, holds) =
      store_lem (copy_in (initialized size inc m) 0 bytes) mem at end more refl
        (length-blit (set m 0 0) 0 bytes ∙ zeroed ∙ len) sum fits in
    let kept : take at mem ≡ bytes =
      subst (λ k. take k mem ≡ bytes) here
        (take-blit_zero (set m 0 0) bytes (omega (arith, zeroed, len))) in
    (valid, holds ∙ ap (λ l. l ++ more) kept)

append-contents :
    (rounds : ℕ) (malloc : Malloc) (b : MgBuf) (buffer : List ℕ) (n : ℕ)
    → IsValid b
    → 0 < b.increment_size
    → Allocates malloc
    → n ≤ length buffer
    → n + b.data_size < rounds
    → n + b.data_size + b.increment_size < 2 ^ 31
    → (r : MgBuf) × (append rounds malloc b buffer n (n + b.data_size) ≡ some (r, true))
      × IsValid r
      × (contents r ≡ contents b ++ take n buffer)
unfolding append
append-contents rounds malloc b buffer n valid inc alloc given enough small =
    let req = n + b.data_size in
    let taken = length-take n buffer given in
    let held : contents b ≡ take b.data_size valid.mem = rw valid.at refl in
    let size_held = length-take b.data_size valid.mem (omega (arith, valid.room, valid.fits)) in
    elim (Bool-cases (ltb b.size req)) [
      | inl t ↦
          let lt = ltb→lt b.size req t in
          let (c, grown, large, bound) =
            grow_lem rounds req b.increment_size b.size inc (omega arith) (omega arith) small
              (omega arith) in
          let (m, e, len) = alloc 0 (c + 1) (omega arith) in
          let made = buf_init-to_int malloc c b.increment_size m (omega arith) (omega arith) e in
          let old = take b.data_size valid.mem in
          let (valid', holds) =
            copy_lem m c b.increment_size b.data_size req old (take n buffer) len size_held
              (omega (arith, taken)) large in
          (
            _,
            rw (t, grown, made, held) refl,
            valid',
            holds ∙ ap (λ l. l ++ take n buffer) (sym held),
          )
      | inr f ↦
          let (valid', holds) =
            store_lem b valid.mem b.data_size req (take n buffer) valid.at valid.room
              (omega (arith, taken)) (ground arith) in
          (_, rw f refl, valid', holds ∙ ap (λ l. l ++ take n buffer) (sym held))
    ]

-- `mg_buf_cat` on a valid buffer with an increment above 0, where memory is to be had, for bytes of
-- the size given, where they, the contents and an increment come to less than 2 ^ 31: the loop ends
-- within so many rounds as there are bytes in the end, and one more; the call succeeds, the bytes are appended to the contents, and the buffer is valid, with a
-- terminator behind the contents.
pub buf_cat-contents :
    (rounds : ℕ) (malloc : Malloc) (b : MgBuf) (buffer : List ℕ) (size : ℕ)
    → IsValid b
    → 0 < b.increment_size
    → Allocates malloc
    → given_size buffer size ≤ length buffer
    → given_size buffer size + b.data_size < rounds
    → given_size buffer size + b.data_size + b.increment_size < 2 ^ 31
    → (r : MgBuf) × (buf_cat rounds malloc b buffer size ≡ some (r, true))
      × IsValid r
      × (contents r ≡ contents b ++ take (given_size buffer size) buffer)
unfolding buf_cat
buf_cat-contents rounds malloc b buffer size valid inc alloc given enough small =
    let n = given_size buffer size in
    elim (Bool-cases (n == 0)) [
      | inl t ↦
          let none_given : n ≡ 0 = ground arith in
          (
            b,
            rw t refl,
            valid,
            sym (append-nil (contents b)) ∙ ap (λ k. contents b ++ take k buffer) (sym none_given),
          )
      | inr f ↦
          let (r, e, valid', holds) =
            append-contents rounds malloc b buffer n valid inc alloc given enough small in
          let sum : (n + b.data_size) % 2 ^ 64 ≡ n + b.data_size = omega arith in
          (r, rw f (ap (append rounds malloc b buffer n) sum ∙ e), valid', holds)
    ]

-- `mg_buf_cpy` on a valid buffer with an increment above 0, where memory is to be had, for bytes of
-- the size given, where they and an increment come to less than 2 ^ 31: the loop ends within so many
-- rounds as there are bytes, and one more; the call succeeds, the bytes are all that the buffer holds, and it is valid, with a terminator behind them.
pub buf_cpy-contents :
    (rounds : ℕ) (malloc : Malloc) (b : MgBuf) (buffer : List ℕ) (size : ℕ)
    → IsValid b
    → 0 < b.increment_size
    → Allocates malloc
    → given_size buffer size ≤ length buffer
    → given_size buffer size < rounds
    → given_size buffer size + b.increment_size < 2 ^ 31
    → (r : MgBuf) × (buf_cpy rounds malloc b buffer size ≡ some (r, true))
      × IsValid r
      × (contents r ≡ take (given_size buffer size) buffer)
unfolding buf_cpy
buf_cpy-contents rounds malloc b buffer size valid inc alloc given enough small =
    let n = given_size buffer size in
    let taken = length-take n buffer given in
    elim (Bool-cases (n == 0)) [
      | inl t ↦
          let none_given : n ≡ 0 = ground arith in
          let (valid', holds) =
            store_lem b valid.mem 0 0 [] valid.at valid.room refl (omega arith) in
          (_, rw t refl, valid', holds ∙ ap (λ k. take k buffer) (sym none_given))
      | inr f ↦ elim (Bool-cases (ltb b.size n)) [
        | inl t ↦
            let lt = ltb→lt b.size n t in
            let (c, grown, _, bound) =
              grow_lem rounds n b.increment_size b.size inc (omega arith) (omega arith) small
                (omega arith) in
            let (m, e, len) = alloc 0 (n + 1) (omega arith) in
            let made = buf_init-to_int malloc n b.increment_size m (omega arith) (omega arith) e in
            let (valid', holds) =
              store_lem (initialized n b.increment_size m) (set m 0 0) 0 n (take n buffer) refl
                (length-set m 0 0 ∙ len) (omega (arith, taken)) (omega arith) in
            (_, rw (f, t, grown, made) refl, valid', holds)
        | inr f' ↦
            let (valid', holds) =
              store_lem b valid.mem 0 n (take n buffer) valid.at valid.room (omega (arith, taken))
                (ground arith) in
            (_, rw (f, f') refl, valid', holds)
      ]
    ]
