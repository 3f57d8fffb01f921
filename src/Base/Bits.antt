-- ===== src/Base/Bits.antt =====
-- The laws of `&` and `|` that the masks and shifts of the code need, at every width.
mod Step
pub mod Digit
use Step.{bit_and_step, bit_or_step, zero-bit_and, zero-bit_or}
use Prim.Native.Nat.{ℕ, zero, suc, ◌+◌, ◌-◌, ◌*◌, ◌/◌, ◌%◌, ◌^◌, ◌≤◌, ◌<◌, bit_and, bit_or}
use mathlib.Core.Path.{◌≡◌, refl, ap}
use native.Mathlib.Nat.{pow-suc, mod-lt, div-add-mod', div-lt_iff_lt-mul}
use native.Mathlib.Omega.{arith}

-- `&` with no bits is 0, and `|` with no bits changes nothing.
no_bits : (rounds x : ℕ) → x < rounds → (bit_and x 0 ≡ 0) × (bit_or x 0 ≡ x)
no_bits zero x below = absurd (omega arith)
no_bits (suc rounds) zero below = (refl, refl)
no_bits (suc rounds) (suc x) below =
    let half = no_bits rounds (suc x / 2) (omega arith) in
    (omega (arith, bit_and_step (suc x) 0, half.0), omega (arith, bit_or_step (suc x) 0, half.1))

pub bit_and-zero : (a : ℕ) → bit_and a 0 ≡ 0
bit_and-zero a = (no_bits (suc a) a (omega arith)).0

pub bit_or-zero : (a : ℕ) → bit_or a 0 ≡ a
bit_or-zero a = (no_bits (suc a) a (omega arith)).1

pub one-le-pow : (k : ℕ) → 1 ≤ 2 ^ k
one-le-pow zero = omega arith
one-le-pow (suc k) = omega (arith, one-le-pow k)

halve_shift : (k q r : ℕ) → (q * 2 ^ suc k + r) / 2 ≡ q * 2 ^ k + r / 2
halve_shift k q r = omega (arith, ap (λ (t : ℕ). q * t) (pow-suc 2 k))

parity_shift : (k q r : ℕ) → (q * 2 ^ suc k + r) % 2 ≡ r % 2
parity_shift k q r = omega (arith, ap (λ (t : ℕ). q * t) (pow-suc 2 k))

half-lt : (k r : ℕ) → r < 2 ^ suc k → r / 2 < 2 ^ k
half-lt k r h = omega (arith, pow-suc 2 k)

-- Both operations work on the high and on the low field apart.
pub bit_and_split :
    (k q r m n : ℕ)
    → r < 2 ^ k
    → n < 2 ^ k
    → bit_and (q * 2 ^ k + r) (m * 2 ^ k + n) ≡ bit_and q m * 2 ^ k + bit_and r n
bit_and_split zero q r m n h g =
    let r0 : r ≡ 0 = omega arith in
    let n0 : n ≡ 0 = omega arith in
    let a : q * 2 ^ 0 + 0 ≡ q = omega arith in
    let b : m * 2 ^ 0 + 0 ≡ m = omega arith in rw (r0, n0, a, b) (omega arith)
bit_and_split (suc k) q r m n h g =
    rw
      (
        bit_and_step (q * 2 ^ suc k + r) (m * 2 ^ suc k + n),
        halve_shift k q r,
        halve_shift k m n,
        parity_shift k q r,
        parity_shift k m n,
      )
      (omega (
        arith,
        bit_and_step r n,
        bit_and_split k q (r / 2) m (n / 2) (half-lt k r h) (half-lt k n g),
        ap (λ (t : ℕ). bit_and q m * t) (pow-suc 2 k),
      ))

pub bit_or_split :
    (k q r m n : ℕ)
    → r < 2 ^ k
    → n < 2 ^ k
    → bit_or (q * 2 ^ k + r) (m * 2 ^ k + n) ≡ bit_or q m * 2 ^ k + bit_or r n
bit_or_split zero q r m n h g =
    let r0 : r ≡ 0 = omega arith in
    let n0 : n ≡ 0 = omega arith in
    let a : q * 2 ^ 0 + 0 ≡ q = omega arith in
    let b : m * 2 ^ 0 + 0 ≡ m = omega arith in rw (r0, n0, a, b) (omega arith)
bit_or_split (suc k) q r m n h g =
    rw
      (
        bit_or_step (q * 2 ^ suc k + r) (m * 2 ^ suc k + n),
        halve_shift k q r,
        halve_shift k m n,
        parity_shift k q r,
        parity_shift k m n,
      )
      (omega (
        arith,
        bit_or_step r n,
        bit_or_split k q (r / 2) m (n / 2) (half-lt k r h) (half-lt k n g),
        ap (λ (t : ℕ). bit_or q m * t) (pow-suc 2 k),
      ))

bit_and-ones : (k r : ℕ) → r < 2 ^ k → bit_and r (2 ^ k - 1) ≡ r
bit_and-ones zero r h = omega (arith, bit_and-zero r)
bit_and-ones (suc k) r h =
    let ones : (2 ^ suc k - 1) / 2 ≡ 2 ^ k - 1 = omega (arith, pow-suc 2 k, one-le-pow k) in
    let odd : (2 ^ suc k - 1) % 2 ≡ 1 = omega (arith, pow-suc 2 k, one-le-pow k) in
    rw (bit_and_step r (2 ^ suc k - 1), ones, odd)
      (omega (arith, bit_and-ones k (r / 2) (half-lt k r h)))

pub mod-lt-pow : (k a : ℕ) → a % 2 ^ k < 2 ^ k
mod-lt-pow k a = mod-lt a (one-le-pow k)

-- `a & (2^k - 1)` keeps the low bits.
pub bit_and_mask : (k a : ℕ) → bit_and a (2 ^ k - 1) ≡ a % 2 ^ k
bit_and_mask k a =
    let split : bit_and (a / 2 ^ k * 2 ^ k + a % 2 ^ k) (0 * 2 ^ k + (2 ^ k - 1)) ≡ a % 2 ^ k =
      rw
        (
          bit_and_split k (a / 2 ^ k) (a % 2 ^ k) 0 (2 ^ k - 1) (mod-lt-pow k a)
              (omega (arith, one-le-pow k)),
          bit_and-zero (a / 2 ^ k),
          bit_and-ones k (a % 2 ^ k) (mod-lt-pow k a),
        )
        (omega arith) in
    let whole : a / 2 ^ k * 2 ^ k + a % 2 ^ k ≡ a = div-add-mod' a (2 ^ k) in
    let mask : 0 * 2 ^ k + (2 ^ k - 1) ≡ 2 ^ k - 1 = omega arith in rw (whole, mask) at split

-- `a & ~(2^k - 1)`, in a word of `k + w` bits, clears the low bits.
pub bit_and_high :
    (k w a : ℕ) → a < 2 ^ w * 2 ^ k → bit_and a ((2 ^ w - 1) * 2 ^ k) ≡ a / 2 ^ k * 2 ^ k
bit_and_high k w a h =
    let below : a / 2 ^ k < 2 ^ w = (div-lt_iff_lt-mul (one-le-pow k)).1 h in
    let split : bit_and (a / 2 ^ k * 2 ^ k + a % 2 ^ k) ((2 ^ w - 1) * 2 ^ k + 0)
        ≡ a / 2 ^ k * 2 ^ k =
      rw
        (
          bit_and_split k (a / 2 ^ k) (a % 2 ^ k) (2 ^ w - 1) 0 (mod-lt-pow k a) (one-le-pow k),
          bit_and-ones w (a / 2 ^ k) below,
          bit_and-zero (a % 2 ^ k),
        )
        (omega arith) in
    let whole : a / 2 ^ k * 2 ^ k + a % 2 ^ k ≡ a = div-add-mod' a (2 ^ k) in
    let mask : (2 ^ w - 1) * 2 ^ k + 0 ≡ (2 ^ w - 1) * 2 ^ k = omega arith in
    rw (whole, mask) at split

-- Disjoint fields are joined by addition.
pub bit_or_fields : (k q r : ℕ) → r < 2 ^ k → bit_or (q * 2 ^ k) r ≡ q * 2 ^ k + r
bit_or_fields k q r h =
    let split : bit_or (q * 2 ^ k + 0) (0 * 2 ^ k + r) ≡ q * 2 ^ k + r =
      rw (bit_or_split k q 0 0 r (one-le-pow k) h, bit_or-zero q, zero-bit_or r) refl in
    let left : q * 2 ^ k + 0 ≡ q * 2 ^ k = omega arith in
    let right : 0 * 2 ^ k + r ≡ r = omega arith in rw (left, right) at split

bit_and_comm_fuel : (n a b : ℕ) → a ≤ n → bit_and a b ≡ bit_and b a
bit_and_comm_fuel n zero b h = omega (arith, zero-bit_and b, bit_and-zero b)
bit_and_comm_fuel zero (suc a) b h = absurd (omega arith)
bit_and_comm_fuel (suc n) (suc a) b h = omega (
  arith,
  bit_and_step (suc a) b,
  bit_and_step b (suc a),
  bit_and_comm_fuel n (suc a / 2) (b / 2) (omega arith),
)

pub bit_and_comm : (a b : ℕ) → bit_and a b ≡ bit_and b a
bit_and_comm a b = bit_and_comm_fuel a a b (omega arith)

-- `|` with a number that fits the low field leaves the high field alone.
pub bit_or_low :
    (k q r n : ℕ) → r < 2 ^ k → n < 2 ^ k → bit_or (q * 2 ^ k + r) n ≡ q * 2 ^ k + bit_or r n
bit_or_low k q r n h g =
    let split : bit_or (q * 2 ^ k + r) (0 * 2 ^ k + n) ≡ q * 2 ^ k + bit_or r n =
      rw (bit_or_split k q r 0 n h g, bit_or-zero q) refl in
    let right : 0 * 2 ^ k + n ≡ n = omega arith in rw right at split
