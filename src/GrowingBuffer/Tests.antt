-- ===== src/GrowingBuffer/Tests.antt =====
-- Tests of the buffers that grow, and witnesses.
use mg_web.Base.{ℕ, zero, suc, ◌≡◌, refl, List, [], ◌∷◌, ◌++◌, true, some, length, take, arith, ap}
use mg_web.GrowingBuffer.{
  MgBuf, Malloc, buf_init, append, buf_cat, buf_cpy, given_size, grow, store,
}
use mg_web.GrowingBuffer.Contents.{IsValid, contents, Allocates, buf_cat-contents, buf_cpy-contents}
use mg_web.Text.{c_string}

-- Fresh memory, full of sevens.
abbrev sevens : ℕ → List ℕ
sevens zero = []
sevens (suc n) = 7 ∷ sevens n

abbrev memory : Malloc
memory k n = some (sevens n)

length-sevens : (n : ℕ) → length (sevens n) ≡ n
length-sevens zero = refl
length-sevens (suc n) = ap suc (length-sevens n)

memory-Allocates : Allocates memory
memory-Allocates k n small = (sevens n, refl, length-sevens n)

-- "ab" in a buffer of three bytes.
abbrev held : MgBuf
held = record {
  size = 3;
  data_size = 2;
  increment_size = 4;
  p_buffer = some (b'a' ∷ b'b' ∷ 0 ∷ 7 ∷ []);
}

held-IsValid : IsValid held
held-IsValid = record {
  mem = b'a' ∷ b'b' ∷ 0 ∷ 7 ∷ [];
  at = refl;
  room = refl;
  fits = omega arith;
  ended = refl;
}

abbrev added : List ℕ
added = b'c' ∷ b'd' ∷ b'e' ∷ 0 ∷ []

buf_cat_test :
    buf_cat 6 memory held added 0
    ≡ some (
      record {
        size = 7;
        data_size = 5;
        increment_size = 4;
        p_buffer = some (b'a' ∷ b'b' ∷ b'c' ∷ b'd' ∷ b'e' ∷ 0 ∷ 7 ∷ 7 ∷ []);
      },
      true,
    )
unfolding buf_cat append buf_init given_size grow store c_string
buf_cat_test = refl

buf_cat-contents_example :
    (r : MgBuf) × (buf_cat 6 memory held added 3 ≡ some (r, true))
    × IsValid r
    × (contents r ≡ contents held ++ take 3 added)
unfolding given_size
buf_cat-contents_example =
    buf_cat-contents 6 memory held added 3 held-IsValid (omega arith) memory-Allocates (omega arith)
      (omega arith) (omega arith)

buf_cpy-contents_example :
    (r : MgBuf) × (buf_cpy 6 memory held added 4 ≡ some (r, true))
    × IsValid r
    × (contents r ≡ take 4 added)
unfolding given_size
buf_cpy-contents_example =
    buf_cpy-contents 6 memory held added 4 held-IsValid (omega arith) memory-Allocates (omega arith)
      (omega arith) (omega arith)
