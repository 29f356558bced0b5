-- ===== src/Affinity/Boundary/Tests.antt =====
-- Witnesses of what is proved of the boundary of a form.
use mg_web.Base.{ℕ, zero, suc, ◌≡◌, refl, [], ◌∷◌, ◌++◌, length, arith, drop, some}
use mg_web.Text.{CString, strstr, starts_with}
use mg_web.Affinity.Boundary.{boundary_is, read_boundary, skip_quote, stored, overflow}
use mg_web.Affinity.Boundary.Bounds.{value, zeros, read_boundary-fits, read_boundary-overflow}

abbrev many : ℕ → CString
many zero = []
many (suc n) = b'a' ∷ many n

abbrev quoted : CString
quoted = boundary_is ++ (b'"' ∷ b'x' ∷ b'y' ∷ b'"' ∷ b';' ∷ [])

read_boundary-fits_example :
    read_boundary quoted (zeros 256) ≡ stored ((b'x' ∷ b'y' ∷ []) ++ zeros 254)
unfolding strstr starts_with value
read_boundary-fits_example = read_boundary-fits quoted [] quoted refl (omega arith)

abbrev many_more : CString
many_more = boundary_is ++ many 257

many_more-found : strstr many_more boundary_is ≡ some ([], many_more)
unfolding strstr starts_with
many_more-found = refl

many_more-over : length (value (skip_quote (drop 9 many_more))) ≡ 257
unfolding value
many_more-over = refl

read_boundary-overflow_example : read_boundary many_more (zeros 256) ≡ overflow
read_boundary-overflow_example =
    read_boundary-overflow many_more [] many_more many_more-found (rw many_more-over (omega arith))
