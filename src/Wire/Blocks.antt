-- ===== src/Wire/Blocks.antt =====
-- What the block headers of mg_web.c hold, and that decoding inverts encoding.
use Prim.Native.Nat.add
use mg_web.Base.{
  ℕ, zero, suc, ◌+◌, ◌-◌, ◌*◌, ◌/◌, ◌%◌, ◌^◌, ◌≤◌, ◌<◌, ◌≡◌, refl, ap, ◌∙◌, List, [], ◌∷◌, ◌++◌,
  ◌⊎◌, arith, length, get_or, take, drop, blit, blit-nil, blit-eq-append, length-take,
  take-length_append, drop-length_append, ◌==◌, if◌then◌else◌,
}
use mg_web.Wire.{set_size, get_size, sign_extend, add_block_size, get_block_size, dsort_status}

-- The five bytes of a header.
abbrev pub header_bytes : ℕ → ℕ → ℕ → List ℕ
header_bytes data_len dsort dtype =
    data_len % 256
    ∷ (data_len / 2 ^ 8 % 256)
    ∷ (data_len / 2 ^ 16 % 256)
    ∷ (data_len / 2 ^ 24 % 256)
    ∷ ((dsort * 20 + dtype) % 256)
    ∷ []

-- The five stores are one store of the header.
pub add_block_size-blit :
    (block : List ℕ) (offset n ds dt : ℕ)
    → offset + 5 ≤ length block
    → add_block_size block offset n ds dt ≡ blit block offset (header_bytes n ds dt)
unfolding add_block_size set_size
add_block_size-blit [] offset n ds dt h = absurd (omega arith)
add_block_size-blit (x ∷ xs) (suc offset) n ds dt h =
    simp add.suc (ap (◌∷◌ x) (add_block_size-blit xs offset n ds dt (omega arith)))
add_block_size-blit (x ∷ a ∷ b ∷ c ∷ d ∷ xs) zero n ds dt h = rw (blit-nil xs)
add_block_size-blit (x ∷ []) zero n ds dt h = absurd (omega arith)
add_block_size-blit (x ∷ a ∷ []) zero n ds dt h = absurd (omega arith)
add_block_size-blit (x ∷ a ∷ b ∷ []) zero n ds dt h = absurd (omega arith)
add_block_size-blit (x ∷ a ∷ b ∷ c ∷ []) zero n ds dt h = absurd (omega arith)

-- What the decoder reads at `offset` depends only on the bytes from there on.
get_block_size-skip :
    (before block : List ℕ)
    → get_block_size (before ++ block) (length before) ≡ get_block_size block 0
unfolding get_block_size get_size
get_block_size-skip [] block = refl
get_block_size-skip (x ∷ before) block = simp add.suc (get_block_size-skip before block)

-- The length that comes back: 0 in a status block; else the low 32 bits, read as an `int`.
abbrev pub decoded_len : ℕ → ℕ → ℕ
decoded_len n ds = if ds == dsort_status then 0 else sign_extend (n % 2 ^ 32)

digits32 :
    (n : ℕ)
    → n % 256 + n / 2 ^ 8 % 256 * 2 ^ 8 + n / 2 ^ 16 % 256 * 2 ^ 16 + n / 2 ^ 24 % 256 * 2 ^ 24
      ≡ n % 2 ^ 32
digits32 n = omega arith

sort_type_byte :
    (ds dt : ℕ)
    → ds < 12
    → dt < 20
    → ((ds * 20 + dt) % 256 / 20 ≡ ds) × ((ds * 20 + dt) % 256 % 20 ≡ dt)
sort_type_byte ds dt hs ht = omega arith

get_block_size-header :
    (rest : List ℕ) (n ds dt : ℕ)
    → 0 < ds
    → ds < 12
    → dt < 20
    → get_block_size (header_bytes n ds dt ++ rest) 0
      ≡ record { data_len = decoded_len n ds; dsort = ds; dtype = dt }
unfolding get_block_size get_size
get_block_size-header rest n ds dt pos hs ht =
    ground (arith, sort_type_byte ds dt hs ht, digits32 n)

-- What is read where a header stands behind `before`.
get_block_size-placed :
    (before rest : List ℕ) (offset n ds dt : ℕ)
    → length before ≡ offset
    → 0 < ds
    → ds < 12
    → dt < 20
    → (get_block_size (before ++ (header_bytes n ds dt ++ rest)) offset
        ≡ record { data_len = decoded_len n ds; dsort = ds; dtype = dt })
      × (take offset (before ++ (header_bytes n ds dt ++ rest)) ≡ before)
      × (drop 5 (drop offset (before ++ (header_bytes n ds dt ++ rest))) ≡ rest)
get_block_size-placed before rest offset n ds dt e pos hs ht = rw (← e) (
  get_block_size-skip before _ ∙ get_block_size-header rest n ds dt pos hs ht,
  take-length_append before _,
  ap (drop 5) (drop-length_append before _),
)

-- A header that `mg_add_block_size` stores at `offset`, inside the buffer, for a sort of the
-- protocol and a type below 20, reads back as the sort, the type, and the length modulo 2 ^ 32
-- extended by its sign bit, or 0 for a status block; the bytes before the header and behind it are
-- unchanged.
pub get_block_size-add_block_size :
    (block : List ℕ) (offset n ds dt : ℕ)
    → offset + 5 ≤ length block
    → 0 < ds
    → ds < 12
    → dt < 20
    → (get_block_size (add_block_size block offset n ds dt) offset
        ≡ record { data_len = decoded_len n ds; dsort = ds; dtype = dt })
      × (take offset (add_block_size block offset n ds dt) ≡ take offset block)
      × (drop 5 (drop offset (add_block_size block offset n ds dt)) ≡ drop 5 (drop offset block))
get_block_size-add_block_size block offset n ds dt fits pos hs ht =
    rw (add_block_size-blit block offset n ds dt fits, blit-eq-append block offset _ fits)
      (get_block_size-placed (take offset block) _ offset n ds dt
        (length-take offset block (omega arith)) pos hs ht)

-- Whatever five bytes are read, the sort is one of the protocol's or `DBX_DSORT_INVALID`, the type
-- is below 20, and the length is below 2 ^ 31 or is a sign extension, from 2 ^ 64 - 2 ^ 31 on.
pub get_block_size_bounds :
    (block : List ℕ) (offset : ℕ)
    → get_or block offset 0 < 256
    → get_or block (offset + 1) 0 < 256
    → get_or block (offset + 2) 0 < 256
    → get_or block (offset + 3) 0 < 256
    → let h = get_block_size block offset in
      (h.dsort < 12)
      × (h.dtype < 20)
      × ((h.data_len < 2 ^ 31) ⊎ ((2 ^ 64 - 2 ^ 31 ≤ h.data_len) × (h.data_len < 2 ^ 64)))
unfolding get_block_size get_size
get_block_size_bounds block offset a b c d = ground arith
