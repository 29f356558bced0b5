-- ===== src/Affinity/Boundary.antt =====
-- src/mg_web.c, `mg_find_sa_variable`: how the boundary of a multipart form is taken from the content type of
-- the request; src/mg_web.h: the array `boundary` of `MGWEB`.
pub mod Bounds
mod Tests
use mg_web.Base.{ℕ, ◌+◌, List, [], ◌∷◌, Bool, ◌||◌, ltb, ◌==◌, if◌then◌else◌, none, some, set, drop}
use mg_web.Text.{CString, strstr}

abbrev pub boundary_size : ℕ
boundary_size = 256

-- The array afterwards, or a store behind its end.
pub data Stored : Type 0 where
  stored : List ℕ → Stored
  overflow : Stored

abbrev pub is_end : ℕ → Bool
is_end c = c == b'"' || c == b';' || c == b' '

-- The `while` loop, from `nb` on.
unfoldable pub store_boundary : ℕ → CString → List ℕ → Stored
store_boundary nb [] boundary = stored boundary
store_boundary nb (c ∷ p) boundary =
    let onward = store_boundary (nb + 1) p (set boundary nb c) in
    if is_end c
    then (if ltb nb boundary_size then stored (set boundary nb 0) else overflow)
    else if ltb nb boundary_size
    then onward
    else overflow

abbrev pub boundary_is : CString
boundary_is = b'b' ∷ b'o' ∷ b'u' ∷ b'n' ∷ b'd' ∷ b'a' ∷ b'r' ∷ b'y' ∷ b'=' ∷ []

abbrev pub skip_quote : CString → CString
skip_quote [] = []
skip_quote (c ∷ p) = if c == b'"' then p else (c ∷ p)

unfoldable pub read_boundary : CString → List ℕ → Stored
unfolding store_boundary
read_boundary request_content_type boundary = elim (strstr request_content_type boundary_is) [
  | none ↦ stored boundary
  | some (before, p) ↦ store_boundary 0 (skip_quote (drop 9 p)) boundary
]
