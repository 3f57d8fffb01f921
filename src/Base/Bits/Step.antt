-- ===== src/Base/Bits/Step.antt =====
-- One binary digit of `&` and `|`, from the digit recursion that the native operations stand for.
use Prim.Native.Nat.{
  ℕ, zero, suc, ◌+◌, ◌-◌, ◌*◌, ◌/◌, ◌%◌, ◌≤◌, min, max, bit_and, bit_or, digits, bit_and-bitwise,
  bit_or-bitwise,
}
use mathlib.Core.Path.{◌≡◌, refl, ◌∙◌}
use native.Mathlib.Omega.{arith}

pub zero-bit_and : (b : ℕ) → bit_and 0 b ≡ 0
zero-bit_and b = bit_and-bitwise 0 b

pub zero-bit_or : (b : ℕ) → bit_or 0 b ≡ b
zero-bit_or b = bit_or-bitwise 0 b

-- Fuel beyond the first operand is not used; `left` stands for what follows its last digit.
module _ (left : ℕ → ℕ) (join : ℕ → ℕ → ℕ) where
  one_more : (x y fuel : ℕ) → x ≤ fuel → digits left join (suc fuel) x y ≡ digits left join fuel x y
  one_more zero y zero enough = refl
  one_more zero y (suc fuel) enough = refl
  one_more (suc x) y zero enough = absurd (omega arith)
  one_more (suc x) y (suc fuel) enough =
      let rest = one_more (suc x / 2) (y / 2) fuel (omega arith) in omega (arith, rest)

  many_more :
      (extra x y fuel more : ℕ)
      → x ≤ fuel
      → more ≡ fuel + extra
      → digits left join more x y ≡ digits left join fuel x y
  many_more zero x y fuel more enough e = let same : more ≡ fuel = omega arith in rw same refl
  many_more (suc extra) x y fuel more enough e =
      many_more extra x y (suc fuel) more (omega arith) (omega arith) ∙ one_more x y fuel enough

  -- The fuel that the halved operand is given suffices for it.
  half_fuel :
      (x y : ℕ) → digits left join x (suc x / 2) y ≡ digits left join (suc x / 2) (suc x / 2) y
  half_fuel x y = many_more (x - suc x / 2) (suc x / 2) y (suc x / 2) x (omega arith) (omega arith)

  split_digit :
      (x y : ℕ)
      → digits left join (suc x) (suc x) y
        ≡ digits left join (suc x / 2) (suc x / 2) (y / 2) * 2 + join (suc x % 2) (y % 2)
  split_digit x y = omega (arith, half_fuel x (y / 2))

pub bit_or_step : (x y : ℕ) → bit_or x y ≡ bit_or (x / 2) (y / 2) * 2 + max (x % 2) (y % 2)
bit_or_step zero y = omega (arith, zero-bit_or y, zero-bit_or (y / 2))
bit_or_step (suc x) y =
    let halves = bit_or-bitwise (suc x / 2) (y / 2) in
    omega (arith, bit_or-bitwise (suc x) y, halves, split_digit (λ d. d) max x y)

pub bit_and_step : (x y : ℕ) → bit_and x y ≡ bit_and (x / 2) (y / 2) * 2 + min (x % 2) (y % 2)
bit_and_step zero y = omega (arith, zero-bit_and y, zero-bit_and (y / 2))
bit_and_step (suc x) y =
    let halves = bit_and-bitwise (suc x / 2) (y / 2) in
    omega (arith, bit_and-bitwise (suc x) y, halves, split_digit (λ d. 0) min x y)
