-- ===== src/Text/Print.antt =====
-- source/string/print.c: what the formatted printing sends to the UART, as the list of its characters.
-- The arguments are words, in order, and `string_at` is the memory as the C string at an address; an
-- argument that is not there is 0. A buffer on the stack starts out as zeros.
pub mod Hex
pub mod Format
mod Tests
use raspberry_pi_os.Base.{
  ℕ, zero, suc, ◌+◌, ◌-◌, ◌*◌, ◌/◌, ◌%◌, ◌^◌, Bool, true, false, Option, none, some, List, [], ◌∷◌,
  ◌++◌, get_or, replicate, ltb, ◌==◌, if◌then◌else◌, bit_and,
}
use raspberry_pi_os.Text.Number.{c_string, ultos, ltos, utos, itos}
use raspberry_pi_os.Text.Strings.{hex_char_upper}

-- `if(... > 0)` print the buffer, otherwise "ERR".
unfoldable pub print_result : Option ℕ × List ℕ → List ℕ
print_result (some zero, buff) = 69 ∷ 82 ∷ 82 ∷ []
print_result (some (suc n), buff) = c_string buff
print_result (none, buff) = 69 ∷ 82 ∷ 82 ∷ []

unfoldable pub print_int : ℕ → List ℕ
unfolding print_result
print_int number = print_result (itos number (replicate 12 0) 12)

unfoldable pub print_uint : ℕ → List ℕ
unfolding print_result
print_uint number = print_result (utos number (replicate 12 0) 12)

unfoldable pub print_long : ℕ → List ℕ
unfolding print_result
print_long number = print_result (ltos number (replicate 21 0) 21)

unfoldable pub print_ulong : ℕ → List ℕ
unfolding print_result
print_ulong number = print_result (ultos number (replicate 21 0) 21)

unfoldable pub print_hex : List ℕ → List ℕ
print_hex [] = []
print_hex (byte ∷ bytes) =
    hex_char_upper (bit_and byte 0xF0 / 16) ∷ hex_char_upper (bit_and byte 0x0F) ∷ print_hex bytes

-- The bytes from the last one back, of which n are left.
unfoldable pub print_hex_be : List ℕ → ℕ → List ℕ
print_hex_be bytes zero = []
print_hex_be bytes (suc i) =
    let byte = get_or bytes i 0 in
    hex_char_upper (bit_and byte 0xF0 / 16)
    ∷ hex_char_upper (bit_and byte 0x0F)
    ∷ print_hex_be bytes i

-- A byte of a word, as it is stored in an `unsigned char`.
unfoldable pub get_byte : (field offset : ℕ) → ℕ
get_byte field offset = bit_and field (0xff * 2 ^ (offset * 8)) / 2 ^ (offset * 8) % 256

unfoldable pub print_hex_uint32 : ℕ → List ℕ
unfolding print_hex get_byte
print_hex_uint32 num =
    print_hex (get_byte num 3 ∷ get_byte num 2 ∷ get_byte num 1 ∷ get_byte num 0 ∷ [])

unfoldable pub print_hex_uint64 : ℕ → List ℕ
unfolding print_hex get_byte
print_hex_uint64 num = print_hex (
    get_byte num 7
    ∷ get_byte num 6
    ∷ get_byte num 5
    ∷ get_byte num 4
    ∷ get_byte num 3
    ∷ get_byte num 2
    ∷ get_byte num 1
    ∷ get_byte num 0
    ∷ [])

-- The bytes of a word in memory, the lowest first.
unfoldable pub bytes_of : (count word : ℕ) → List ℕ
bytes_of zero word = []
bytes_of (suc count) word = word % 256 ∷ bytes_of count (word / 256)

unfoldable pub print_address : ℕ → List ℕ
unfolding print_hex_be bytes_of
print_address addr = 48 ∷ 120 ∷ print_hex_be (bytes_of 8 addr) 8

-- What one argument prints, by the characters before the `}`: the last one, and the one before it.
unfoldable pub print_arg : (string_at : ℕ → List ℕ) → (last before arg : ℕ) → List ℕ
unfolding print_int print_uint print_long print_ulong print_hex_uint32 print_hex_uint64
    print_address
print_arg string_at last before arg =
    if last == 108
    then if before == 117
      then print_ulong arg
      else if before == 120
      then print_hex_uint64 arg
      else print_long arg
    else if last == 99
    then arg % 256 ∷ []
    else if last == 105
    then print_int (arg % 2 ^ 32)
    else if last == 100
    then print_int (arg % 2 ^ 32)
    else if last == 117
    then print_uint (arg % 2 ^ 32)
    else if last == 115
    then string_at arg
    else if last == 120
    then print_hex_uint32 (arg % 2 ^ 32)
    else if last == 112
    then print_address arg
    else []

-- The states: outside of a format tag, inside of one, and both behind a `\`.
pub record PrintState : Type 0 where
  pub inside : Bool
  pub escaped : Bool
  pub args_printed : ℕ

-- One character: the state after it, and what it prints. `last` and `before` are the two characters
-- in front of it.
unfoldable pub print_step :
    (string_at : ℕ → List ℕ)
    → (args : List ℕ) → (numargs : ℕ) → (last before c : ℕ) → PrintState
    → PrintState × List ℕ
unfolding print_arg
print_step string_at args numargs last before c s =
    if s.escaped
    then (record s { escaped = false }, c ∷ [])
    else if c == 92
    then (record s { escaped = true }, [])
    else if s.inside
    then if c == 125
      then if ltb s.args_printed numargs
        then (
          record s { inside = false; args_printed = s.args_printed + 1 },
          print_arg string_at last before (get_or args s.args_printed 0),
        )
        else (record s { inside = false }, [])
      else (s, [])
    else if c == 123
    then (record s { inside = true }, [])
    else (s, c ∷ [])

unfoldable pub print_loop :
    (string_at : ℕ → List ℕ)
    → (args : List ℕ) → (numargs : ℕ) → (last before : ℕ) → PrintState
    → List ℕ
    → List ℕ
unfolding print_step
print_loop string_at args numargs last before s [] = []
print_loop string_at args numargs last before s (c ∷ fstring) =
    let next = print_step string_at args numargs last before c s in
    next.1 ++ print_loop string_at args numargs c last next.0 fstring

unfoldable pub print : (string_at : ℕ → List ℕ) → (fstring args : List ℕ) → (numargs : ℕ) → List ℕ
unfolding print_loop
print string_at fstring args numargs =
    print_loop string_at args numargs 0 0
      (record { inside = false; escaped = false; args_printed = 0 }) fstring
