-- ===== src/Text/Print/Hex.antt =====
-- The hexadecimal printing of source/string/print.c.
use native.Mathlib.Nat.{div-add-mod', mul-div_cancel}
use raspberry_pi_os.Base.{
  ℕ, ◌+◌, ◌-◌, ◌*◌, ◌/◌, ◌%◌, ◌^◌, ◌<◌, ◌≡◌, refl, ap₂, ◌∙◌, arith, List, [], ◌∷◌, length, leb,
  if◌then◌else◌, bit_and,
}
use raspberry_pi_os.Base.Bits.{
  bit_and_mask, bit_and_high, bit_and_split, bit_and-zero, mod-lt-pow, one-le-pow,
}
use raspberry_pi_os.Text.Strings.{hex_char_upper}
use raspberry_pi_os.Text.Print.{print_hex, get_byte, print_hex_uint32, print_hex_uint64}

-- The number that hexadecimal digits stand for, behind the number before them.
abbrev pub hex_value : List ℕ → (before : ℕ) → ℕ
hex_value [] before = before
hex_value (c ∷ digits) before =
    hex_value digits (before * 16 + (if leb c 57 then c - 48 else c - 55))

hex_digit :
    (d : ℕ)
    → d < 16
    → (if leb (hex_char_upper d) 57 then hex_char_upper d - 48 else hex_char_upper d - 55) ≡ d
unfolding hex_char_upper
hex_digit d h = ground arith

byte_digits :
    (byte before : ℕ) (digits : List ℕ)
    → byte < 256
    → hex_value
        (hex_char_upper (bit_and byte 0xF0 / 16) ∷ hex_char_upper (bit_and byte 0x0F) ∷ digits)
        before
      ≡ hex_value digits (before * 256 + byte)
byte_digits byte before digits h =
    let high : bit_and byte 0xF0 / 16 ≡ byte / 16 =
      omega (arith, bit_and_high 4 4 byte (omega arith)) in
    let low : bit_and byte 0x0F ≡ byte % 16 = bit_and_mask 4 byte in
    let sum : (before * 16 + byte / 16) * 16 + byte % 16 ≡ before * 256 + byte = omega arith in
    rw (high, low, hex_digit (byte / 16) (omega arith), hex_digit (byte % 16) (omega arith), sum)
      refl

plus_zero : (n : ℕ) → n + 0 ≡ n
plus_zero n = omega arith

get_byte_lem : (field offset : ℕ) → get_byte field offset ≡ field / 2 ^ (offset * 8) % 256
unfolding get_byte
get_byte_lem field offset =
    let k = offset * 8 in
    let split : bit_and (field / 2 ^ k * 2 ^ k + field % 2 ^ k) (0xff * 2 ^ k + 0)
        ≡ field / 2 ^ k % 256 * 2 ^ k =
      bit_and_split k (field / 2 ^ k) (field % 2 ^ k) 0xff 0 (mod-lt-pow k field) (one-le-pow k)
      ∙ ap₂ (λ q r. q * 2 ^ k + r) (bit_and_mask 8 (field / 2 ^ k)) (bit_and-zero (field % 2 ^ k))
      ∙ plus_zero (field / 2 ^ k % 256 * 2 ^ k) in
    let whole : field / 2 ^ k * 2 ^ k + field % 2 ^ k ≡ field = div-add-mod' field (2 ^ k) in
    let mask : 0xff * 2 ^ k + 0 ≡ 0xff * 2 ^ k = plus_zero (0xff * 2 ^ k) in
    let masked : bit_and field (0xff * 2 ^ k) ≡ field / 2 ^ k % 256 * 2 ^ k =
      rw (whole, mask) at split in
    rw (masked, mul-div_cancel (field / 2 ^ k % 256) (one-le-pow k)) (omega arith)

get_byte-small : (field offset : ℕ) → get_byte field offset < 256
get_byte-small field offset = omega (arith, get_byte_lem field offset)

bytes_value : List ℕ → (before : ℕ) → ℕ
bytes_value [] before = before
bytes_value (byte ∷ bytes) before = bytes_value bytes (before * 256 + byte)

AreBytes : List ℕ → Type 0
AreBytes [] = Unit {0}
AreBytes (byte ∷ bytes) = (byte < 256) × AreBytes bytes

print_hex-value :
    (bytes : List ℕ) (before : ℕ)
    → AreBytes bytes
    → hex_value (print_hex bytes) before ≡ bytes_value bytes before
unfolding print_hex bytes_value AreBytes
print_hex-value [] before h = refl
print_hex-value (byte ∷ bytes) before h =
    byte_digits byte before (print_hex bytes) h.0 ∙ print_hex-value bytes (before * 256 + byte) h.1

-- The eight hexadecimal digits that are printed for a 32-bit number stand for that number.
pub print_hex_uint32_lem :
    (num : ℕ)
    → num < 2 ^ 32
    → (hex_value (print_hex_uint32 num) 0 ≡ num) × (length (print_hex_uint32 num) ≡ 8)
unfolding print_hex_uint32 print_hex bytes_value AreBytes
print_hex_uint32_lem num h = (
  print_hex-value (get_byte num 3 ∷ get_byte num 2 ∷ get_byte num 1 ∷ get_byte num 0 ∷ []) 0 (
    get_byte-small num 3,
    (get_byte-small num 2, (get_byte-small num 1, (get_byte-small num 0, tt))),
  )
      ∙ omega
          (arith, get_byte_lem num 3, get_byte_lem num 2, get_byte_lem num 1, get_byte_lem num 0),
  refl,
)

-- The sixteen digits for a 64-bit number stand for that number.
pub print_hex_uint64_lem :
    (num : ℕ)
    → num < 2 ^ 64
    → (hex_value (print_hex_uint64 num) 0 ≡ num) × (length (print_hex_uint64 num) ≡ 16)
unfolding print_hex_uint64 print_hex bytes_value AreBytes
print_hex_uint64_lem num h = (
  print_hex-value
        (get_byte num 7
          ∷ get_byte num 6
          ∷ get_byte num 5
          ∷ get_byte num 4
          ∷ get_byte num 3
          ∷ get_byte num 2
          ∷ get_byte num 1
          ∷ get_byte num 0
          ∷ [])
        0
        (
          get_byte-small num 7,
          (
            get_byte-small num 6,
            (
              get_byte-small num 5,
              (
                get_byte-small num 4,
                (
                  get_byte-small num 3,
                  (get_byte-small num 2, (get_byte-small num 1, (get_byte-small num 0, tt))),
                ),
              ),
            ),
          ),
        )
      ∙ omega (
        arith,
        get_byte_lem num 7,
        get_byte_lem num 6,
        get_byte_lem num 5,
        get_byte_lem num 4,
        get_byte_lem num 3,
        get_byte_lem num 2,
        get_byte_lem num 1,
        get_byte_lem num 0,
      ),
  refl,
)
