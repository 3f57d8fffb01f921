-- ===== src/Text/Strings.antt =====
-- The C strings of source/string/string.c, and the copying of source/string/mem.c. A string is its
-- characters before the terminating zero, so that the character at its end is 0.
pub mod Compare
pub mod Copy
pub mod Escape
mod Tests
use raspberry_pi_os.Base.{
  ℕ, zero, suc, ◌+◌, ◌-◌, ◌*◌, ◌/◌, ◌%◌, ◌^◌, Bool, true, false, ◌&&◌, ◌||◌, not, Option, none,
  some, List, [], ◌∷◌, ◌++◌, ltb, leb, ◌==◌, if◌then◌else◌, bit_and,
}

-- The int −1.
abbrev pub minus_one : ℕ
minus_one = 2 ^ 32 - 1

unfoldable pub strncmp_loop : (s1 s2 : List ℕ) (n i : ℕ) → ℕ
strncmp_loop [] [] n i = 0
strncmp_loop [] (c2 ∷ s2) n i = if ltb i n || n == 0 then minus_one else 0
strncmp_loop (c1 ∷ s1) [] n i = if ltb i n || n == 0 then minus_one else 0
strncmp_loop (c1 ∷ s1) (c2 ∷ s2) n i =
    let rest = strncmp_loop s1 s2 n (i + 1) in
    if ltb i n || n == 0 then if c1 == c2 then rest else minus_one else 0

unfoldable pub strncmp : (s1 s2 : List ℕ) (n : ℕ) → ℕ
unfolding strncmp_loop
strncmp s1 s2 n = strncmp_loop s1 s2 n 0

unfoldable pub strcmp : (s1 s2 : List ℕ) → ℕ
unfolding strncmp
strcmp s1 s2 = strncmp s1 s2 0

-- The loop over the bytes of a buffer that holds the string.
unfoldable pub strlen : List ℕ → ℕ
strlen [] = 0
strlen (c ∷ s) = let rest = strlen s in if c == 0 then 0 else 1 + rest

-- The bytes of the destination; the source is a string, whose zero is copied if there is room.
unfoldable pub strncpy : (dest src : List ℕ) (n : ℕ) → List ℕ
strncpy dest src zero = dest
strncpy [] src (suc n) = []
strncpy (d ∷ dest) [] (suc n) = 0 ∷ dest
strncpy (d ∷ dest) (c ∷ src) (suc n) = c ∷ strncpy dest src n

unfoldable pub memset : (val : ℕ) (buf : List ℕ) (size : ℕ) → List ℕ
memset val buf zero = buf
memset val [] (suc size) = []
memset val (b ∷ buf) (suc size) = val ∷ memset val buf size

unfoldable pub memcpy : (dest src : List ℕ) (n : ℕ) → List ℕ
memcpy dest src zero = dest
memcpy [] src (suc n) = []
memcpy (d ∷ dest) [] (suc n) = d ∷ dest
memcpy (d ∷ dest) (c ∷ src) (suc n) = c ∷ memcpy dest src n

unfoldable pub is_character : ℕ → Bool
is_character c = leb 32 c && ltb c 127

unfoldable pub is_alphanumeric : ℕ → Bool
is_alphanumeric c =
    if leb 48 c && leb c 57
    then true
    else if leb 97 c && leb c 122
    then true
    else leb 65 c && leb c 90

unfoldable pub hex_char_upper : ℕ → ℕ
hex_char_upper c = if leb c 9 then 48 + c else if leb c 15 then 65 + (c - 10) else 32

-- `@[\]^_`{|}~`
abbrev pub csi_matches : List ℕ
csi_matches = 64 ∷ 91 ∷ 92 ∷ 93 ∷ 94 ∷ 95 ∷ 96 ∷ 123 ∷ 124 ∷ 125 ∷ 126 ∷ []

unfoldable pub matches_any : ℕ → List ℕ → Bool
matches_any c [] = false
matches_any c (m ∷ matches) = let rest = matches_any c matches in if c == m then true else rest

unfoldable pub is_csi_sequence_terminator : ℕ → Bool
unfolding matches_any
is_csi_sequence_terminator c =
    if matches_any c csi_matches
    then true
    else if leb 97 c && leb c 122
    then true
    else leb 65 c && leb c 90

-- The first pass: the length of the output, from what it is so far.
unfoldable pub escape_length : List ℕ → (buffer_len : ℕ) → ℕ
unfolding is_character
escape_length [] buffer_len = buffer_len
escape_length (c ∷ s) buffer_len =
    let plain = escape_length s ((buffer_len + 1) % 2 ^ 32) in
    let escaped = escape_length s ((buffer_len + 4) % 2 ^ 32) in
    if is_character c then plain else escaped

-- The second pass: the characters that are written behind one another.
unfoldable pub escape_chars : List ℕ → List ℕ
unfolding is_character hex_char_upper
escape_chars [] = 0 ∷ []
escape_chars (c ∷ s) =
    let rest = escape_chars s in
    if is_character c
    then c ∷ rest
    else 92 ∷ 120 ∷ hex_char_upper (bit_and c 0xF0 / 16) ∷ hex_char_upper (bit_and c 0x0F) ∷ rest

-- The result is the size that is asked of `kmalloc` and what is written there, or nothing when
-- `kmalloc`, the argument, gives nothing.
unfoldable pub escape_string : (kmalloc : ℕ → Bool) → List ℕ → Option (ℕ × List ℕ)
unfolding escape_length escape_chars
escape_string kmalloc s =
    let buffer_len = escape_length s 1 in
    if kmalloc buffer_len then some (buffer_len, escape_chars s) else none
