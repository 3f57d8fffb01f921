-- ===== src/Text/Print/Format.antt =====
-- The format strings of `_print` in source/string/print.c.
use raspberry_pi_os.Base.{
  ℕ, ◌+◌, ◌%◌, ◌^◌, ◌≡◌, ◌≢◌, refl, ap, ap₂, ◌∙◌, arith, true, false, ◌||◌, List, [], ◌∷◌, ◌++◌,
  get_or, ltb, ◌==◌, if◌then◌else◌, Bool-cases, inl, inr, ne→==,
}
use raspberry_pi_os.Text.Print.{
  PrintState, print_arg, print_step, print_loop, print, print_int, print_uint, print_long,
  print_ulong, print_hex_uint32, print_hex_uint64, print_address,
}

-- The formats: ints and longs with a sign and without, hexadecimal numbers of 32 and of 64 bits, an
-- address, a string and a character.
pub data Format : Type 0 where
  int_d : Format
  int_i : Format
  uint_u : Format
  hex_x : Format
  long_l : Format
  ulong_ul : Format
  hex_xl : Format
  address_p : Format
  string_s : Format
  char_c : Format

-- What stands between the braces of a tag.
abbrev pub chars : Format → List ℕ
chars int_d = 100 ∷ []
chars int_i = 105 ∷ []
chars uint_u = 117 ∷ []
chars hex_x = 120 ∷ []
chars long_l = 108 ∷ []
chars ulong_ul = 117 ∷ 108 ∷ []
chars hex_xl = 120 ∷ 108 ∷ []
chars address_p = 112 ∷ []
chars string_s = 115 ∷ []
chars char_c = 99 ∷ []

-- How an argument looks in a format.
abbrev pub shown : (string_at : ℕ → List ℕ) → Format → ℕ → List ℕ
shown string_at int_d arg = print_int (arg % 2 ^ 32)
shown string_at int_i arg = print_int (arg % 2 ^ 32)
shown string_at uint_u arg = print_uint (arg % 2 ^ 32)
shown string_at hex_x arg = print_hex_uint32 (arg % 2 ^ 32)
shown string_at long_l arg = print_long arg
shown string_at ulong_ul arg = print_ulong arg
shown string_at hex_xl arg = print_hex_uint64 arg
shown string_at address_p arg = print_address arg
shown string_at string_s arg = string_at arg
shown string_at char_c arg = arg % 256 ∷ []

-- A format string in parts: text, and tags with their formats.
pub data Piece : Type 0 where
  text : List ℕ → Piece
  tag : Format → Piece

-- Text with a `\` in front of every character that would not print itself.
abbrev pub quote : List ℕ → List ℕ
quote [] = []
quote (c ∷ s) = if (c == 92) || (c == 123) then 92 ∷ c ∷ quote s else c ∷ quote s

abbrev pub render : List Piece → List ℕ
render [] = []
render (text s ∷ pieces) = quote s ++ render pieces
render (tag f ∷ pieces) = (123 ∷ chars f) ++ (125 ∷ render pieces)

-- The last two characters.
abbrev pub last_two : List ℕ → (last before : ℕ) → ℕ × ℕ
last_two [] last before = (last, before)
last_two (c ∷ spec) last before = last_two spec c last

-- What the parts print: the n-th tag prints the n-th argument in its format, and nothing when there
-- are no more arguments.
abbrev pub output :
    (string_at : ℕ → List ℕ) → (args : List ℕ) → (numargs n : ℕ) → List Piece → List ℕ
output string_at args numargs n [] = []
output string_at args numargs n (text s ∷ pieces) = s ++ output string_at args numargs n pieces
output string_at args numargs n (tag f ∷ pieces) =
    if ltb n numargs
    then shown string_at f (get_or args n 0) ++ output string_at args numargs (n + 1) pieces
    else output string_at args numargs n pieces

-- No `}` and no `\` in it.
abbrev pub IsSpec : List ℕ → Type 0
IsSpec [] = Unit {0}
IsSpec (c ∷ spec) = (c ≢ 125) × (c ≢ 92) × IsSpec spec

chars-IsSpec : (f : Format) → IsSpec (chars f)
chars-IsSpec int_d = (omega arith, omega arith, tt)
chars-IsSpec int_i = (omega arith, omega arith, tt)
chars-IsSpec uint_u = (omega arith, omega arith, tt)
chars-IsSpec hex_x = (omega arith, omega arith, tt)
chars-IsSpec long_l = (omega arith, omega arith, tt)
chars-IsSpec ulong_ul = (omega arith, omega arith, (omega arith, omega arith, tt))
chars-IsSpec hex_xl = (omega arith, omega arith, (omega arith, omega arith, tt))
chars-IsSpec address_p = (omega arith, omega arith, tt)
chars-IsSpec string_s = (omega arith, omega arith, tt)
chars-IsSpec char_c = (omega arith, omega arith, tt)

abbrev outside : ℕ → PrintState
outside n = record { inside = false; escaped = false; args_printed = n }

abbrev within : ℕ → PrintState
within n = record { inside = true; escaped = false; args_printed = n }

module _ (string_at : ℕ → List ℕ) (args : List ℕ) (numargs : ℕ) where
  abbrev loop : (last before : ℕ) → PrintState → List ℕ → List ℕ
  loop = print_loop string_at args numargs

  loop-plain :
      (last before n c : ℕ) (rest : List ℕ)
      → ((c == 92) || (c == 123)) ≡ false
      → loop last before (outside n) (c ∷ rest) ≡ c ∷ loop c last (outside n) rest
  unfolding print_loop print_step
  loop-plain last before n c rest h =
      let a : (c == 92) ≡ false = ground arith in
      let b : (c == 123) ≡ false = ground arith in rw (a, b) refl

  loop-escaped :
      (last before n c : ℕ) (rest : List ℕ)
      → loop last before (outside n) (92 ∷ c ∷ rest) ≡ c ∷ loop c 92 (outside n) rest
  unfolding print_loop print_step
  loop-escaped last before n c rest = refl

  loop-open :
      (last before n : ℕ) (rest : List ℕ)
      → loop last before (outside n) (123 ∷ rest) ≡ loop 123 last (within n) rest
  unfolding print_loop print_step
  loop-open last before n rest = refl

  loop-inside :
      (last before n c : ℕ) (rest : List ℕ)
      → c ≢ 125
      → c ≢ 92
      → loop last before (within n) (c ∷ rest) ≡ loop c last (within n) rest
  unfolding print_loop print_step
  loop-inside last before n c rest h h' = rw (ne→== c 92 h', ne→== c 125 h) refl

  loop-close :
      (last before n : ℕ) (rest : List ℕ)
      → loop last before (within n) (125 ∷ rest) ≡ (
          if ltb n numargs
          then print_arg string_at last before (get_or args n 0)
            ++ loop 125 last (outside (n + 1)) rest
          else loop 125 last (outside n) rest)
  unfolding print_loop print_step
  loop-close last before n rest = elim (Bool-cases (ltb n numargs)) [
    | inl more ↦ rw more refl
    | inr none ↦ rw none refl
  ]

  -- Quoted text prints itself.
  loop-quote :
      (s : List ℕ) (last before n : ℕ) (rest : List ℕ)
      → (l b : ℕ) × (loop last before (outside n) (quote s ++ rest)
          ≡ s ++ loop l b (outside n) rest)
  loop-quote [] last before n rest = (last, before, refl)
  loop-quote (c ∷ s) last before n rest = elim (Bool-cases ((c == 92) || (c == 123))) [
    | inl special ↦
        let (l, b, e) = loop-quote s c 92 n rest in
        (l, b, rw special (loop-escaped last before n c (quote s ++ rest) ∙ ap (λ out. c ∷ out) e))
    | inr plain ↦
        let (l, b, e) = loop-quote s c last n rest in
        (
          l,
          b,
          rw plain (loop-plain last before n c (quote s ++ rest) plain ∙ ap (λ out. c ∷ out) e),
        )
  ]

  loop-spec :
      (spec : List ℕ) (last before n : ℕ) (rest : List ℕ)
      → IsSpec spec
      → loop last before (within n) (spec ++ (125 ∷ rest))
        ≡ loop (last_two spec last before).0 (last_two spec last before).1 (within n) (125 ∷ rest)
  loop-spec [] last before n rest h = refl
  loop-spec (c ∷ spec) last before n rest (h, h', hs) =
      loop-inside last before n c (spec ++ (125 ∷ rest)) h h' ∙ loop-spec spec c last n rest hs

  -- What stands in front of the opening brace does not matter.
  tag-print_arg :
      (f : Format) (before arg : ℕ)
      → print_arg string_at (last_two (chars f) 123 before).0 (last_two (chars f) 123 before).1 arg
        ≡ shown string_at f arg
  unfolding print_arg
  tag-print_arg int_d before arg = refl
  tag-print_arg int_i before arg = refl
  tag-print_arg uint_u before arg = refl
  tag-print_arg hex_x before arg = refl
  tag-print_arg long_l before arg = refl
  tag-print_arg ulong_ul before arg = refl
  tag-print_arg hex_xl before arg = refl
  tag-print_arg address_p before arg = refl
  tag-print_arg string_s before arg = refl
  tag-print_arg char_c before arg = refl

  loop-tag :
      (f : Format) (last before n : ℕ) (rest out out' : List ℕ)
      → ((l b : ℕ) → loop l b (outside (n + 1)) rest ≡ out)
      → ((l b : ℕ) → loop l b (outside n) rest ≡ out')
      → loop last before (outside n) ((123 ∷ chars f) ++ (125 ∷ rest))
        ≡ (if ltb n numargs then shown string_at f (get_or args n 0) ++ out else out')
  loop-tag f last before n rest out out' next same =
      loop-open last before n (chars f ++ (125 ∷ rest))
      ∙ loop-spec (chars f) 123 last n rest (chars-IsSpec f)
      ∙ loop-close (last_two (chars f) 123 last).0 (last_two (chars f) 123 last).1 n rest
      ∙ ap₂ (λ a b. if ltb n numargs then a else b)
          (ap₂ (λ a b. a ++ b) (tag-print_arg f last (get_or args n 0)) (next _ _)) (same _ _)

  loop-render :
      (pieces : List Piece) (last before n : ℕ)
      → loop last before (outside n) (render pieces) ≡ output string_at args numargs n pieces
  unfolding print_loop
  loop-render [] last before n = refl
  loop-render (text s ∷ pieces) last before n =
      let (l, b, e) = loop-quote s last before n (render pieces) in
      e ∙ ap (λ out. s ++ out) (loop-render pieces l b n)
  loop-render (tag f ∷ pieces) last before n =
      loop-tag f last before n (render pieces) (output string_at args numargs (n + 1) pieces)
        (output string_at args numargs n pieces) (λ l b. loop-render pieces l b (n + 1))
        (λ l b. loop-render pieces l b n)

-- A format string prints its text, with a backslash in front of each `\` and `{` of it, unchanged, and
-- for each tag the next argument as its format says: `{d}` and `{i}` as `print_int` prints an int, `{u}`
-- and `{x}` as `print_uint` and `print_hex_uint32` print 32 bits, `{l}`, `{ul}` and `{xl}` as
-- `print_long`, `print_ulong` and `print_hex_uint64` print 64 bits, `{p}` as an address, `{s}` as the
-- string there and `{c}` as a character. A tag for which there is no argument any more prints nothing.
pub print_lem :
    (string_at : ℕ → List ℕ) (pieces : List Piece) (args : List ℕ) (numargs : ℕ)
    → print string_at (render pieces) args numargs ≡ output string_at args numargs 0 pieces
unfolding print
print_lem string_at pieces args numargs = loop-render string_at args numargs pieces 0 0 0
