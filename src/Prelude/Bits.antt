-- ===== src/Prelude/Bits.antt =====
-- Checks over all bytes, and the law of exclusive or that the stream cipher rests on.
use Prim.Native.Nat.{ℕ, zero, suc, ◌<◌, bit_xor}
use mathlib.Core.Path.{◌≡◌, refl}
use mathlib.Core.Bool.{Bool, true, ◌&&◌}
use native.Mathlib.Omega.{arith}
use link_chat.Prelude.Tests.{ltb, ◌==◌}

-- The test holds of every number below `top`.
every : (ℕ → Bool) → ℕ → Bool
every test zero = true
every test (suc top) = let lower = every test top in lower && test top

every-at : (top v : ℕ) (test : ℕ → Bool) → v < top → every test top ≡ true → test v ≡ true
unfolding every
every-at zero v test below all = absurd (omega arith)
every-at (suc top) v test below all = ground (arith, every-at top v test)

-- `b` cancels, and the result is a byte.
cancels : ℕ → ℕ → Bool
cancels a b = (bit_xor (bit_xor a b) b == a) && ltb (bit_xor a b) 256

cancels_row : ℕ → Bool
unfolding every cancels
cancels_row a = every (cancels a) 256

cancels_table : every cancels_row 256 ≡ true
unfolding cancels_row
cancels_table = refl

xor_row :
    (a b : ℕ) → a < 256 → b < 256 → ((bit_xor (bit_xor a b) b == a) && ltb (bit_xor a b) 256) ≡ true
unfolding cancels_row
xor_row a b ha hb = every-at 256 b (cancels a) hb (every-at 256 a cancels_row ha cancels_table)

pub xor_cancel : (a b : ℕ) → a < 256 → b < 256 → bit_xor (bit_xor a b) b ≡ a
xor_cancel a b ha hb = ground (arith, xor_row a b)

pub xor_byte : (a b : ℕ) → a < 256 → b < 256 → bit_xor a b < 256
xor_byte a b ha hb = ground (arith, xor_row a b)
