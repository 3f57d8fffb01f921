-- ===== src/Text/Strings/Escape.antt =====
-- `escape_string` of source/string/string.c: its two passes agree on the length.
use raspberry_pi_os.Base.{
  ℕ, ◌+◌, ◌*◌, ◌/◌, ◌^◌, ◌%◌, ◌≤◌, ◌<◌, ◌≡◌, refl, arith, Bool, true, false, List, [], ◌∷◌, length,
  Bool-cases, inl, inr, bit_and, Option, some, none,
}
use raspberry_pi_os.Text.Strings.{
  escape_length, escape_chars, escape_string, is_character, hex_char_upper,
}

-- What the first pass counts is what the second writes.
escape_length_lem :
    (s : List ℕ) (buffer_len : ℕ)
    → buffer_len + 4 * length s < 2 ^ 32
    → escape_length s buffer_len + 1 ≡ buffer_len + length (escape_chars s)
unfolding escape_length escape_chars
escape_length_lem [] buffer_len h = omega arith
escape_length_lem (c ∷ s) buffer_len h = elim (Bool-cases (is_character c)) [
  | inl plain ↦
      let no_wrap : (buffer_len + 1) % 2 ^ 32 ≡ buffer_len + 1 = omega arith in
      rw (plain, no_wrap) (omega (arith, escape_length_lem s (buffer_len + 1) (omega arith)))
  | inr escaped ↦
      let no_wrap : (buffer_len + 4) % 2 ^ 32 ≡ buffer_len + 4 = omega arith in
      rw (escaped, no_wrap) (omega (arith, escape_length_lem s (buffer_len + 4) (omega arith)))
]

abbrev pub Printable : ℕ → Type 0
Printable c = (32 ≤ c) × (c < 127)

-- Printable characters, and a zero at the end.
abbrev pub PrintableText : List ℕ → Type 0
PrintableText [] = ⊥
PrintableText (c ∷ []) = c ≡ 0
PrintableText (c ∷ d ∷ rest) = Printable c × PrintableText (d ∷ rest)

PrintableText-cons : (c : ℕ) (s : List ℕ) → Printable c → PrintableText s → PrintableText (c ∷ s)
PrintableText-cons c [] p t = absurd t
PrintableText-cons c (d ∷ s) p t = (p, t)

hex_char_upper-Printable : (c : ℕ) → Printable (hex_char_upper c)
unfolding hex_char_upper
hex_char_upper-Printable c = ground arith

is_character-Printable : (c : ℕ) → is_character c ≡ true → Printable c
unfolding is_character
is_character-Printable c h = ground arith

escape_code-PrintableText :
    (high low : ℕ) (s : List ℕ)
    → PrintableText s
    → PrintableText (92 ∷ 120 ∷ hex_char_upper high ∷ hex_char_upper low ∷ s)
escape_code-PrintableText high low s t =
    PrintableText-cons 92 (120 ∷ hex_char_upper high ∷ hex_char_upper low ∷ s) (omega arith) (
      PrintableText-cons 120 (hex_char_upper high ∷ hex_char_upper low ∷ s) (omega arith) (
        PrintableText-cons (hex_char_upper high) (hex_char_upper low ∷ s)
          (hex_char_upper-Printable high)
          (PrintableText-cons (hex_char_upper low) s (hex_char_upper-Printable low) t)))

escape_chars-PrintableText : (s : List ℕ) → PrintableText (escape_chars s)
unfolding escape_chars
escape_chars-PrintableText [] = refl
escape_chars-PrintableText (c ∷ s) = elim (Bool-cases (is_character c)) [
  | inl plain ↦ rw plain (
      PrintableText-cons c (escape_chars s) (is_character-Printable c plain)
        (escape_chars-PrintableText s))
  | inr escaped ↦ rw escaped (
      escape_code-PrintableText (bit_and c 0xF0 / 16) (bit_and c 0x0F) (escape_chars s)
        (escape_chars-PrintableText s))
]

abbrev pub Escapes : (kmalloc : ℕ → Bool) → List ℕ → Option (ℕ × List ℕ) → Type 0
Escapes kmalloc s (some (size, out)) =
    (kmalloc size ≡ true) × (length out ≡ size) × PrintableText out
Escapes kmalloc s none = kmalloc (escape_length s 1) ≡ false

-- `escape_string` fills exactly the memory that it asks for, provided the length fits into 32 bits, and
-- what it leaves there is printable characters with a zero at the end; it gives nothing only when
-- `kmalloc` gives nothing.
pub escape_string_lem :
    (kmalloc : ℕ → Bool) (s : List ℕ)
    → 1 + 4 * length s < 2 ^ 32
    → Escapes kmalloc s (escape_string kmalloc s)
unfolding escape_string
escape_string_lem kmalloc s h = elim (Bool-cases (kmalloc (escape_length s 1))) [
  | inl granted ↦
      rw granted (granted, omega (arith, escape_length_lem s 1 h), escape_chars-PrintableText s)
  | inr refused ↦ rw refused refused
]
