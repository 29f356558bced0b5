-- ===== src/Wire/Tests.antt =====
-- Tests of the block headers, and the theorems about them at concrete blocks.
use mg_web.Base.{ℕ, ◌-◌, ◌^◌, ◌≤◌, ◌<◌, ◌≡◌, refl, List, [], ◌∷◌, ◌⊎◌, arith, take, drop}
use mg_web.Wire.{set_size, get_size, add_block_size, get_block_size}
use mg_web.Wire.Blocks.{decoded_len, get_block_size-add_block_size, get_block_size_bounds}

abbrev block : List ℕ
block = 9 ∷ 9 ∷ 9 ∷ 9 ∷ 9 ∷ 9 ∷ 9 ∷ 9 ∷ []

add_block_size_test : add_block_size block 1 300 5 1 ≡ 9 ∷ 44 ∷ 1 ∷ 0 ∷ 0 ∷ 101 ∷ 9 ∷ 9 ∷ []
unfolding add_block_size set_size
add_block_size_test = refl

-- A length of 2 ^ 31 comes back with its sign extended.
get_size_test : get_size (set_size block 0 (2 ^ 31)) 0 ≡ 0xffff_ffff_8000_0000
unfolding get_size set_size
get_size_test = refl

get_block_size-add_block_size_example :
    (get_block_size (add_block_size block 1 300 5 1) 1
      ≡ record { data_len = decoded_len 300 5; dsort = 5; dtype = 1 })
    × (take 1 (add_block_size block 1 300 5 1) ≡ take 1 block)
    × (drop 5 (drop 1 (add_block_size block 1 300 5 1)) ≡ drop 5 (drop 1 block))
get_block_size-add_block_size_example =
    get_block_size-add_block_size block 1 300 5 1 (omega arith) (omega arith) (omega arith)
      (omega arith)

get_block_size_bounds_example :
    let h = get_block_size block 2 in
    (h.dsort < 12)
    × (h.dtype < 20)
    × ((h.data_len < 2 ^ 31) ⊎ ((2 ^ 64 - 2 ^ 31 ≤ h.data_len) × (h.data_len < 2 ^ 64)))
get_block_size_bounds_example =
    get_block_size_bounds block 2 (omega arith) (omega arith) (omega arith) (omega arith)
