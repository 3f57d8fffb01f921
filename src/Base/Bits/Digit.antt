-- ===== src/Base/Bits/Digit.antt =====
-- A word as the function of its bits: single-bit masks, and `|` bit by bit.
use raspberry_pi_os.Base.Bits.Step.{bit_and_step, bit_or_step}
use raspberry_pi_os.Base.Bits.{bit_and_mask, one-le-pow}
use native.Mathlib.Nat.{pow-suc}
use Prim.Native.Nat.{ℕ, zero, suc, ◌*◌, ◌/◌, ◌%◌, ◌^◌, ◌<◌, max, bit_and, bit_or}
use mathlib.Core.Path.{◌≡◌, refl, ap}
use mathlib.Core.Logic.{◌≢◌}
use native.Mathlib.Omega.{arith}

-- Bit `j` of `x`, as 0 or 1.
abbrev pub bit : ℕ → ℕ → ℕ
bit zero x = x % 2
bit (suc j) x = bit j (x / 2)

pub bit-lt : (j x : ℕ) → bit j x < 2
bit-lt zero x = omega arith
bit-lt (suc j) x = bit-lt j (x / 2)

pub bit-bit_or : (j x y : ℕ) → bit j (bit_or x y) ≡ max (bit j x) (bit j y)
bit-bit_or zero x y = omega (arith, bit_or_step x y)
bit-bit_or (suc j) x y =
    let half : bit_or x y / 2 ≡ bit_or (x / 2) (y / 2) = omega (arith, bit_or_step x y) in
    rw half (bit-bit_or j (x / 2) (y / 2))

halve-pow : (k : ℕ) → (2 ^ suc k) / 2 ≡ 2 ^ k
halve-pow k = omega (arith, pow-suc 2 k)

bit-zero : (j : ℕ) → bit j 0 ≡ 0
bit-zero zero = refl
bit-zero (suc j) = bit-zero j

-- A single bit has that bit and no other.
pub bit-pow_self : (j : ℕ) → bit j (2 ^ j) ≡ 1
bit-pow_self zero = refl
bit-pow_self (suc j) = rw halve-pow (bit-pow_self j)

pub bit-pow_ne : (j k : ℕ) → j ≢ k → bit j (2 ^ k) ≡ 0
bit-pow_ne zero zero h = absurd (h refl)
bit-pow_ne zero (suc k) h = omega (arith, pow-suc 2 k)
bit-pow_ne (suc j) zero h = bit-zero j
bit-pow_ne (suc j) (suc k) h = rw halve-pow (bit-pow_ne j k (λ e. h (ap suc e)))

-- The mask of a single bit.
pub bit_and-bit : (j x : ℕ) → bit_and x (2 ^ j) ≡ bit j x * 2 ^ j
bit_and-bit zero x = omega (arith, bit_and_mask 1 x)
bit_and-bit (suc j) x =
    rw (bit_and_step x (2 ^ suc j), halve-pow j, bit_and-bit j (x / 2))
      (omega (arith, ap (λ (t : ℕ). bit j (x / 2) * t) (pow-suc 2 j), pow-suc 2 j))

pub bit_and-bit_zero : (j x : ℕ) → bit_and x (2 ^ j) ≡ 0 → bit j x ≡ 0
bit_and-bit_zero j x h = grind (arith, bit_and-bit j x, one-le-pow j)

pub bit_and-bit_one : (j x : ℕ) → bit_and x (2 ^ j) ≢ 0 → bit j x ≡ 1
bit_and-bit_one j x h = grind (arith, bit_and-bit j x, bit-lt j x)
