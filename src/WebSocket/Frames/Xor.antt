-- ===== src/WebSocket/Frames/Xor.antt =====
-- Exclusive or on bytes, by trying all of them.
use Prim.Native.Nat.{bit_xor}
use mg_web.Base.{ℕ, zero, suc, ◌<◌, ◌≡◌, refl, Bool, true, ◌&&◌, ◌==◌, ==_iff, arith}

-- The test holds of each of the first numbers.
each : (ℕ → Bool) → ℕ → Bool
each test zero = true
each test (suc count) = each test count && test count

each-holds : (test : ℕ → Bool) (count k : ℕ) → k < count → each test count ≡ true → test k ≡ true
unfolding each
each-holds test zero k below tried = absurd (omega arith)
each-holds test (suc count) k below tried = grind (arith, each-holds test count k)

-- A byte that is put under a mask twice comes back, and so does one under the mask 0.
abbrev comes_back : ℕ → ℕ → Bool
comes_back m b = bit_xor (bit_xor b m) m == b

bytes_come_back : each (λ m. each (comes_back m) 256) 256 ≡ true
unfolding each
bytes_come_back = refl

pub bit_xor_twice : (b m : ℕ) → b < 256 → m < 256 → bit_xor (bit_xor b m) m ≡ b
bit_xor_twice b m b_below m_below =
    let row = each-holds (λ m. each (comes_back m) 256) 256 m m_below bytes_come_back in
    (==_iff (bit_xor (bit_xor b m) m) b).0 (each-holds (comes_back m) 256 b b_below row)

no_mask : each (λ b. bit_xor b 0 == b) 256 ≡ true
unfolding each
no_mask = refl

pub bit_xor_zero : (b : ℕ) → b < 256 → bit_xor b 0 ≡ b
bit_xor_zero b below =
    (==_iff (bit_xor b 0) b).0 (each-holds (λ b. bit_xor b 0 == b) 256 b below no_mask)
