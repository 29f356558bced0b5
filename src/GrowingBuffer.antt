-- ===== src/GrowingBuffer.antt =====
-- src/mg_web.c: `mg_buf_init`, `mg_buf_cpy` and `mg_buf_cat`, the buffers that grow by
-- increments. The allocator is a parameter: `malloc k n` is the memory that the `k`-th call for `n` bytes
-- within an operation gets, if any. A size is an `unsigned long` of 64 bits, and an `int` is taken for the one that it
-- is converted to, which has its sign in all the bits from 31 on.
pub mod Contents
mod Tests
use mg_web.Base.{
  ℕ, zero, suc, ◌+◌, ◌%◌, ◌^◌, List, [], Bool, true, false, ltb, ◌==◌, if◌then◌else◌, Option, none,
  some, length, take, set, blit,
}
use mg_web.Text.{c_string}
use mg_web.Wire.{sign_extend}

-- `MGBUF`; `p_buffer` is the memory that the pointer leads to, and `none` for a null pointer.
pub record MgBuf : Type 0 where
  pub size : ℕ
  pub data_size : ℕ
  pub increment_size : ℕ
  pub p_buffer : Option (List ℕ)

abbrev pub Malloc : Type 0
Malloc = ℕ → ℕ → Option (List ℕ)

-- The conversion of an `unsigned long` to `int`, as the `unsigned long` that the `int` is converted to in turn.
abbrev pub to_int : ℕ → ℕ
to_int n = sign_extend (n % 2 ^ 32)

-- `size` and `increment_size` are of type `int`, and so is the argument of `mg_malloc`.
unfoldable pub buf_init : Malloc → ℕ → ℕ → MgBuf × Bool
buf_init malloc size increment_size = elim (malloc 0 (to_int (size + 1))) [
  | some m ↦ (
    record {
      size = size;
      data_size = 0;
      increment_size = increment_size;
      p_buffer = some (set m 0 0);
    },
    true,
  )
  | none ↦ elim (malloc 1 1) [
    | some m ↦ (
      record {
        size = 1;
        data_size = 0;
        increment_size = increment_size;
        p_buffer = some (set m 0 0);
      },
      false,
    )
    | none ↦ (
      record { size = 0; data_size = 0; increment_size = increment_size; p_buffer = none },
      false,
    )
  ]
]

-- The size to go by: `strlen(buffer)` for 0.
unfoldable pub given_size : List ℕ → ℕ → ℕ
given_size buffer size = if size == 0 then length (c_string buffer) else size

-- The loop that finds the new size, for at most the given number of rounds.
unfoldable pub grow : ℕ → ℕ → ℕ → ℕ → Option ℕ
grow zero req_size increment_size csize = none
grow (suc rounds) req_size increment_size csize =
    let onward = grow rounds req_size increment_size ((csize + increment_size) % 2 ^ 64) in
    if ltb csize req_size then onward else some csize

-- A `memcpy` to place `at`.
abbrev pub copy_in : MgBuf → ℕ → List ℕ → MgBuf
copy_in b at bytes = record b {
  p_buffer = elim b.p_buffer [ none ↦ none | some m ↦ some (blit m at bytes) ];
}

-- The last three stores, of the bytes, the new size of the data, and the terminator.
unfoldable pub store : MgBuf → ℕ → List ℕ → ℕ → MgBuf
store b at bytes req_size = record b {
  data_size = req_size;
  p_buffer = elim b.p_buffer [ none ↦ none | some m ↦ some (set (blit m at bytes) req_size 0) ];
}

-- `mg_buf_init` stores all fields, so that nothing is left of what `mg_buf_free` stores before it.
-- What an operation leaves, and whether it succeeds; nothing where the rounds are not enough.
unfoldable pub buf_cpy : ℕ → Malloc → MgBuf → List ℕ → ℕ → Option (MgBuf × Bool)
buf_cpy rounds malloc b buffer size =
    let n = given_size buffer size in
    if n == 0
    then some (store b 0 [] 0, true)
    else if ltb b.size n
    then elim (grow rounds n b.increment_size b.size) [
      | none ↦ none
      | some csize ↦
          let (b', result) = buf_init malloc (to_int n) (to_int b.increment_size) in
          some (if result then store b' 0 (take n buffer) n else b', result)
    ]
    else some (store b 0 (take n buffer) n, true)

-- The old contents, copied to new memory.
abbrev pub old_data : MgBuf → List ℕ
old_data b = elim b.p_buffer [ none ↦ [] | some m ↦ take b.data_size m ]

-- What comes behind the two sizes.
unfoldable pub append : ℕ → Malloc → MgBuf → List ℕ → ℕ → ℕ → Option (MgBuf × Bool)
append rounds malloc b buffer n req_size =
    if ltb b.size req_size
    then elim (grow rounds req_size b.increment_size b.size) [
      | none ↦ none
      | some csize ↦
          let (b', result) = buf_init malloc (to_int csize) (to_int b.increment_size) in
          some (
            if result
                then store (copy_in b' 0 (old_data b)) b.data_size (take n buffer) req_size
                else record b' { p_buffer = b.p_buffer },
            result,
          )
    ]
    else some (store b b.data_size (take n buffer) req_size, true)

unfoldable pub buf_cat : ℕ → Malloc → MgBuf → List ℕ → ℕ → Option (MgBuf × Bool)
unfolding append
buf_cat rounds malloc b buffer size =
    let n = given_size buffer size in
    if n == 0 then some (b, true) else append rounds malloc b buffer n ((n + b.data_size) % 2 ^ 64)
