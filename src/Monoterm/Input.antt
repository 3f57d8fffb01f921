-- ===== src/Monoterm/Input.antt =====
-- The loop of `monoterm_start` in source/monoterm/monoterm.c over the characters of the UART, which gathers
-- them to lines. What it echoes is left out. A write past the end of the buffer, which the zero of a
-- line of 4096 characters is, changes nothing here.
mod Tests
use raspberry_pi_os.Base.{
  ℕ, zero, suc, ◌+◌, ◌-◌, ◌≤◌, ◌≡◌, ◌≢◌, refl, sym, ap, ap₂, ◌∙◌, arith, Bool, true, false, ◌&&◌,
  ◌||◌, not, Option, none, some, List, [], ◌∷◌, ◌++◌, length, length-append, set, ltb, lt→ltb, ◌==◌,
  eq→==, ne→==, if◌then◌else◌,
}
use raspberry_pi_os.Text.Number.{c_string}

abbrev max_input_length : ℕ
max_input_length = 4096

pub record LineInput : Type 0 where
  pub input : List ℕ
  pub input_i : ℕ
  pub prev : ℕ

-- 13 and 10 end a line, but not both of them once when they follow each other; 127 and 8 take the
-- last character back.
unfoldable pub input_char : LineInput → (c : ℕ) → LineInput × Option (List ℕ)
input_char l c =
    let ended = set l.input l.input_i 0 in
    if (c == 13) && not (l.prev == 10) || (c == 10) && not (l.prev == 13)
    then (record { input = ended; input_i = 0; prev = c }, some (c_string ended))
    else if (c == 127) || (c == 8)
    then (record l { input_i = l.input_i - 1; prev = c }, none)
    else if ltb l.input_i max_input_length
    then (record { input = set l.input l.input_i c; input_i = l.input_i + 1; prev = c }, none)
    else (record l { prev = c }, none)

abbrev pub and_line : Option (List ℕ) → List (List ℕ) → List (List ℕ)
and_line none lines = lines
and_line (some line) lines = line ∷ lines

-- The lines that are processed while the characters arrive.
unfoldable pub input_chars : LineInput → List ℕ → List (List ℕ)
input_chars l [] = []
input_chars l (c ∷ rest) = let (l', line) = input_char l c in and_line line (input_chars l' rest)

abbrev pub IsOrdinary : ℕ → Type 0
IsOrdinary c = (c ≢ 0) × (c ≢ 8) × (c ≢ 10) × (c ≢ 13) × (c ≢ 127)

abbrev pub AreOrdinary : List ℕ → Type 0
AreOrdinary [] = 0 ≤ 0
AreOrdinary (c ∷ text) = IsOrdinary c × AreOrdinary text

set-length : (xs rest : List ℕ) (r c : ℕ) → set (xs ++ (r ∷ rest)) (length xs) c ≡ xs ++ (c ∷ rest)
set-length [] rest r c = refl
set-length (x ∷ xs) rest r c = ap (λ t. x ∷ t) (set-length xs rest r c)

append_assoc : (xs : List ℕ) (y : ℕ) (zs : List ℕ) → (xs ++ (y ∷ [])) ++ zs ≡ xs ++ (y ∷ zs)
append_assoc [] y zs = refl
append_assoc (x ∷ xs) y zs = ap (λ t. x ∷ t) (append_assoc xs y zs)

append_nil : (xs : List ℕ) → xs ++ [] ≡ xs
append_nil [] = refl
append_nil (x ∷ xs) = ap (λ t. x ∷ t) (append_nil xs)

c_string-typed : (xs rest : List ℕ) → AreOrdinary xs → c_string (xs ++ (0 ∷ rest)) ≡ xs
unfolding c_string
c_string-typed [] rest ordinary = refl
c_string-typed (x ∷ xs) rest ((x0, x8, x10, x13, x127), ordinary) =
    rw (ne→== x 0 x0, c_string-typed xs rest ordinary) refl

-- What has been typed stands at the start of the buffer.
abbrev typed : (xs rest : List ℕ) (prev : ℕ) → LineInput
typed xs rest prev = record { input = xs ++ rest; input_i = length xs; prev = prev }

type_char :
    (xs rest : List ℕ) (r c prev : ℕ)
    → IsOrdinary c
    → length xs + 1 ≤ 4096
    → input_char (typed xs (r ∷ rest) prev) c ≡ (typed (xs ++ (c ∷ [])) rest c, none)
unfolding input_char
type_char xs rest r c prev (c0, c8, c10, c13, c127) room =
    let same : set (xs ++ (r ∷ rest)) (length xs) c ≡ (xs ++ (c ∷ [])) ++ rest =
      set-length xs rest r c ∙ sym (append_assoc xs c rest) in
    let longer : length xs + 1 ≡ length (xs ++ (c ∷ [])) =
      omega (arith, length-append xs (c ∷ [])) in
    let after : List ℕ → ℕ → LineInput × Option (List ℕ) =
      λ t n. (record { input = t; input_i = n; prev = c }, none) in
    rw
      (
        ne→== c 13 c13,
        ne→== c 10 c10,
        ne→== c 127 c127,
        ne→== c 8 c8,
        lt→ltb (length xs) 4096 (omega (arith, room)),
      )
      (ap₂ after same longer)

end_line :
    (xs rest : List ℕ) (r prev : ℕ)
    → AreOrdinary xs
    → prev ≢ 10
    → input_char (typed xs (r ∷ rest) prev) 13
      ≡ (record { input = xs ++ (0 ∷ rest); input_i = 0; prev = 13 }, some xs)
unfolding input_char
end_line xs rest r prev ordinary other =
    rw (ne→== prev 10 other, set-length xs rest r 0, c_string-typed xs rest ordinary) refl

AreOrdinary-snoc :
    (xs : List ℕ) (c : ℕ) → AreOrdinary xs → IsOrdinary c → AreOrdinary (xs ++ (c ∷ []))
AreOrdinary-snoc [] c ordinary c_ordinary = (c_ordinary, omega arith)
AreOrdinary-snoc (x ∷ xs) c (x_ordinary, ordinary) c_ordinary =
    (x_ordinary, AreOrdinary-snoc xs c ordinary c_ordinary)

input_chars-typed :
    (xs text rest : List ℕ) (prev : ℕ)
    → AreOrdinary xs
    → AreOrdinary text
    → prev ≢ 10
    → length text + 1 ≤ length rest
    → length xs + length rest ≡ 4096
    → input_chars (typed xs rest prev) (text ++ (13 ∷ [])) ≡ (xs ++ text) ∷ []
unfolding input_chars
input_chars-typed xs text [] prev ordinary more other room full = absurd (omega arith)
input_chars-typed xs [] (r ∷ rest) prev ordinary more other room full =
    ap (λ l. and_line l.1 (input_chars l.0 [])) (end_line xs rest r prev ordinary other)
    ∙ ap (λ t. t ∷ []) (sym (append_nil xs))
input_chars-typed xs (c ∷ text) (r ∷ rest) prev ordinary (c_ordinary, more) other room full =
    ap (λ l. and_line l.1 (input_chars l.0 (text ++ (13 ∷ []))))
      (type_char xs rest r c prev c_ordinary (omega arith))
    ∙ input_chars-typed (xs ++ (c ∷ [])) text rest c (AreOrdinary-snoc xs c ordinary c_ordinary)
        more c_ordinary.2 (omega arith) (omega (arith, length-append xs (c ∷ [])))
    ∙ ap (λ t. t ∷ []) (append_assoc xs c text)

-- When the character before was no line feed: typing a text of ordinary characters, at least one and
-- fewer than 4096, and then a carriage return
-- processes exactly one line, the text, whatever the buffer of 4096 characters held before.
pub input_chars_lem :
    (buffer text : List ℕ) (c prev : ℕ)
    → length buffer ≡ 4096
    → prev ≢ 10
    → AreOrdinary (c ∷ text)
    → length text + 2 ≤ 4096
    → input_chars (record { input = buffer; input_i = 0; prev = prev }) ((c ∷ text) ++ (13 ∷ []))
      ≡ (c ∷ text) ∷ []
input_chars_lem buffer text c prev full other ordinary room =
    input_chars-typed [] (c ∷ text) buffer prev (omega arith) ordinary other (omega arith)
      (omega arith)
