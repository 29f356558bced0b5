-- ===== src/Wire.antt =====
-- src/mg_web.c: `mg_set_size`, `mg_get_size`, `mg_add_block_size` and `mg_get_block_size`, the
-- five-byte headers in front of each block that is exchanged with the DB server. A buffer is the
-- list of its bytes; `unsigned long` has 64 bits and `int` has 32.
pub mod Blocks
mod Tests
use mg_web.Base.{
  ℕ, ◌+◌, ◌-◌, ◌*◌, ◌/◌, ◌%◌, ◌^◌, List, Bool, ◌&&◌, ltb, ◌==◌, if◌then◌else◌, get_or, set,
}

abbrev pub DSort : Type 0
DSort = ℕ

abbrev pub dsort_invalid : ℕ
dsort_invalid = 0

abbrev pub dsort_webcgi : ℕ
dsort_webcgi = 5

abbrev pub dsort_status : ℕ
dsort_status = 10

abbrev pub dtype_str : ℕ
dtype_str = 1

-- `DBX_DSORT_ISVALID`
abbrev pub dsort_is_valid : ℕ → Bool
dsort_is_valid a = ltb 0 a && ltb a 12

-- The four stores of `mg_set_size`, at `str = block + offset`.
unfoldable pub set_size : List ℕ → ℕ → ℕ → List ℕ
set_size block offset data_len =
    set
      (set (set (set block offset (data_len % 256)) (offset + 1) (data_len / 2 ^ 8 % 256))
        (offset + 2) (data_len / 2 ^ 16 % 256))
      (offset + 3) (data_len / 2 ^ 24 % 256)

-- The value of an `int` with these 32 bits, converted to `unsigned long`.
abbrev pub sign_extend : ℕ → ℕ
sign_extend w = if ltb w (2 ^ 31) then w else w + (2 ^ 64 - 2 ^ 32)

-- The four bytes stand in disjoint ranges of bits, so that the `|` of the source is their sum. Its
-- operands are of type `int`, which the conversion to `unsigned long` extends by the sign.
unfoldable pub get_size : List ℕ → ℕ → ℕ
get_size str offset = sign_extend (
    get_or str offset 0
    + get_or str (offset + 1) 0 * 2 ^ 8
    + get_or str (offset + 2) 0 * 2 ^ 16
    + get_or str (offset + 3) 0 * 2 ^ 24)

unfoldable pub add_block_size : List ℕ → ℕ → ℕ → ℕ → ℕ → List ℕ
add_block_size block offset data_len dsort dtype =
    set (set_size block offset data_len) (offset + 4) ((dsort * 20 + dtype) % 256)

-- What `mg_get_block_size` returns, and what it stores through its two pointers.
pub record Header : Type 0 where
  pub data_len : ℕ
  pub dsort : ℕ
  pub dtype : ℕ

unfoldable pub get_block_size : List ℕ → ℕ → Header
get_block_size block offset =
    let uc = get_or block (offset + 4) 0 in
    let dsort = uc / 20 in
    record {
      data_len = if dsort == dsort_status then 0 else get_size block offset;
      dsort = if dsort_is_valid dsort then dsort else dsort_invalid;
      dtype = uc % 20;
    }
