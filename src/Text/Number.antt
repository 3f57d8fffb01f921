-- ===== src/Text/Number.antt =====
-- `ultos`, `ltos`, `utos`, `itos` and `atoi` of source/string/string.c. A `long` or an `int` is its
-- two's complement, modulo 2^64 or 2^32; `ltos` does not cover the most negative `long`, whose negation
-- C leaves undefined. Signed overflow in `atoi`, which C leaves undefined as well, wraps here.
pub mod Digits
pub mod Printed
pub mod Roundtrip
mod Tests
use mathlib.Core.Option
use mathlib.Core.List.{reverse}
use raspberry_pi_os.Base.{
  ℕ, zero, suc, ◌+◌, ◌-◌, ◌*◌, ◌/◌, ◌%◌, ◌^◌, Bool, true, false, ◌&&◌, Option, none, some, List, [],
  ◌∷◌, ◌++◌, length, set, ltb, leb, ◌==◌, if◌then◌else◌,
}

-- The C string in a buffer.
unfoldable pub c_string : List ℕ → List ℕ
c_string [] = []
c_string (c ∷ rest) = let tail = c_string rest in if c == 0 then [] else c ∷ tail

-- `buffer[0]`, `buffer[1]`, ... set to the characters.
unfoldable pub write_chars : List ℕ → List ℕ → List ℕ
write_chars buffer [] = buffer
write_chars [] (c ∷ cs) = []
write_chars (b ∷ buffer) (c ∷ cs) = c ∷ write_chars buffer cs

-- `tmp_buffer` from the index on that the loop has reached, when the number ends within the rounds
-- that are left: its digits, the lowest first.
unfoldable pub digits_loop : ℕ → ℕ → Option (List ℕ)
digits_loop zero num = none
digits_loop (suc rounds) num =
    let digit = num % 10 in
    let next = (num - digit) / 10 in
    let rest = digits_loop rounds next in
    if next == 0 then some ((48 + digit) ∷ []) else Option.map (λ tmp. (48 + digit) ∷ tmp) rest

abbrev pub tmp_size : ℕ
tmp_size = 21

-- The size that is used, at most that of `tmp_buffer`.
abbrev pub clamp_size : ℕ → ℕ
clamp_size n = if ltb tmp_size n then tmp_size else n

-- What is returned and left in the buffer: the number of characters, or `none` for −1.
unfoldable pub finish : (n : ℕ) → List ℕ → Option (List ℕ) → Option ℕ × List ℕ
unfolding write_chars
finish n buffer (some tmp) = (some (length tmp), write_chars buffer (reverse tmp ++ (0 ∷ [])))
finish n buffer none = (none, set buffer ((n + 2 ^ 32 - 1) % 2 ^ 32) 0)

unfoldable pub ultos : (num : ℕ) (buffer : List ℕ) (n : ℕ) → Option ℕ × List ℕ
unfolding digits_loop finish
ultos num buffer n =
    let n = clamp_size n in finish n buffer (digits_loop ((n + 2 ^ 32 - 1) % 2 ^ 32) num)

-- The part of `ltos` after it has split off the sign, which is printed behind the digits in
-- `tmp_buffer`.
unfoldable pub print_signed :
    (negative : Bool) (num : ℕ) (buffer : List ℕ) (n : ℕ) → Option ℕ × List ℕ
unfolding digits_loop finish
print_signed negative num buffer n =
    let n = clamp_size n in
    let tmp = digits_loop ((n + 2 ^ 32 - 2) % 2 ^ 32) num in
    finish n buffer (if negative then Option.map (λ cs. cs ++ (45 ∷ [])) tmp else tmp)

unfoldable pub ltos : (num : ℕ) (buffer : List ℕ) (n : ℕ) → Option ℕ × List ℕ
unfolding print_signed
ltos num buffer n =
    let negative = leb (2 ^ 63) num in
    print_signed negative (if negative then 2 ^ 64 - num else num) buffer n

unfoldable pub utos : (num : ℕ) (buffer : List ℕ) (n : ℕ) → Option ℕ × List ℕ
unfolding ultos
utos num buffer n = ultos num buffer n

-- The `int` is widened to a `long` with its sign.
unfoldable pub itos : (num : ℕ) (buffer : List ℕ) (n : ℕ) → Option ℕ × List ℕ
unfolding ltos
itos num buffer n = ltos (if leb (2 ^ 31) num then num + (2 ^ 64 - 2 ^ 32) else num) buffer n

pub data AtoiResult : Type 0 where
  parsed : ℕ → AtoiResult
  invalid : AtoiResult
  out_of_fuel : AtoiResult

-- The check of the characters before the sign, which are given from the last one back: the index does
-- not move, so each round looks at the same character.
unfoldable pub rest_loop : (rounds : ℕ) → List ℕ → ℕ → AtoiResult
rest_loop zero back res = out_of_fuel
rest_loop (suc rounds) [] res = parsed res
rest_loop (suc rounds) (c ∷ back) res =
    let again = rest_loop rounds (c ∷ back) res in if c == 32 then again else invalid

-- The loop over the characters from the last one back, with `res` and `base` as ints.
unfoldable pub atoi_loop : (rounds : ℕ) → List ℕ → (res base : ℕ) → AtoiResult
unfolding rest_loop
atoi_loop rounds [] res base = rest_loop rounds [] res
atoi_loop rounds (c ∷ back) res base =
    let digit = atoi_loop rounds back ((res + (c - 48) * base) % 2 ^ 32) (base * 10 % 2 ^ 32) in
    let skip = atoi_loop rounds back res base in
    if leb 48 c && leb c 57
    then digit
    else if c == 46
    then skip
    else if c == 45
    then rest_loop rounds back ((2 ^ 32 - res) % 2 ^ 32)
    else if c == 43
    then rest_loop rounds back res
    else invalid

-- `atoi` on a C string, with the rounds that its second loop may take.
unfoldable pub atoi : (rounds : ℕ) → List ℕ → AtoiResult
unfolding atoi_loop
atoi rounds string = atoi_loop rounds (reverse string) 0 1
