-- ===== src/Text/Number/Digits.antt =====
-- The digit loop of `ultos` and `ltos` in source/string/string.c, and the buffer that they leave.
use mathlib.Core.Option
use mathlib.Core.List.{reverse, reverse-cons}
use raspberry_pi_os.Base.{
  ℕ, zero, suc, ◌+◌, ◌-◌, ◌/◌, ◌%◌, ◌^◌, ◌≤◌, ◌<◌, ◌≡◌, ◌≢◌, refl, arith, Option, none, some, List,
  [], ◌∷◌, ◌++◌, length, length-append, Bool-cases, inl, inr, eq→==, ne→==, ltb, ltb→lt, ltb→le,
  drop,
}
use raspberry_pi_os.Text.Number.{digits_loop, write_chars, c_string}

-- The decimal digits of a number, the lowest first, with no zero in front.
abbrev pub IsDecimal : ℕ → List ℕ → Type 0
IsDecimal num [] = ⊥
IsDecimal num (c ∷ []) = (c ≡ 48 + num) × (num < 10)
IsDecimal num (c ∷ d ∷ tmp) = (c ≡ 48 + num % 10) × (10 ≤ num) × IsDecimal (num / 10) (d ∷ tmp)

abbrev pub FitsIn : (num rounds : ℕ) → Option (List ℕ) → Type 0
FitsIn num rounds (some tmp) = IsDecimal num tmp × (length tmp ≤ rounds) × (num < 10 ^ rounds)
FitsIn num rounds none = 10 ^ rounds ≤ num

FitsIn-cons :
    (num rounds : ℕ) (r : Option (List ℕ))
    → 10 ≤ num
    → FitsIn (num / 10) (suc rounds) r
    → FitsIn num (suc (suc rounds)) (Option.map (λ tmp. (48 + num % 10) ∷ tmp) r)
FitsIn-cons num rounds (some []) big (d, _, _) = absurd d
FitsIn-cons num rounds (some (c ∷ tmp)) big (d, short, small) =
    ((refl, big, d), omega (arith, short), omega (arith, small))
FitsIn-cons num rounds none big large = omega (arith, large)

one-le-pow10 : (k : ℕ) → 1 ≤ 10 ^ k
one-le-pow10 zero = omega arith
one-le-pow10 (suc k) = omega (arith, one-le-pow10 k)

digits_loop-last :
    (rounds num : ℕ) → num < 10 → digits_loop (suc rounds) num ≡ some ((48 + num) ∷ [])
unfolding digits_loop
digits_loop-last rounds num h =
    let digit : num % 10 ≡ num = omega arith in
    rw (eq→== ((num - num % 10) / 10) 0 (omega arith), digit) refl

digits_loop-none : (num : ℕ) → digits_loop zero num ≡ none
unfolding digits_loop
digits_loop-none num = refl

digits_loop-more :
    (rounds num : ℕ)
    → 10 ≤ num
    → digits_loop (suc rounds) num
      ≡ Option.map (λ tmp. (48 + num % 10) ∷ tmp) (digits_loop rounds (num / 10))
unfolding digits_loop
digits_loop-more rounds num h =
    let same : (num - num % 10) / 10 ≡ num / 10 = omega arith in
    rw (same, ne→== (num / 10) 0 (omega arith)) refl

short-FitsIn : (rounds num : ℕ) → num < 10 → FitsIn num (suc rounds) (digits_loop (suc rounds) num)
short-FitsIn rounds num small =
    rw (digits_loop-last rounds num small)
      ((refl, small), omega arith, omega (arith, one-le-pow10 rounds))

pub digits_loop-FitsIn : (rounds num : ℕ) → FitsIn num (suc rounds) (digits_loop (suc rounds) num)
digits_loop-FitsIn zero num = elim (Bool-cases (ltb num 10)) [
  | inl last ↦ short-FitsIn zero num (ltb→lt num 10 last)
  | inr more ↦
      let large = ltb→le num 10 more in
      rw (digits_loop-more zero num large, digits_loop-none (num / 10)) large
]
digits_loop-FitsIn (suc rounds) num = elim (Bool-cases (ltb num 10)) [
  | inl last ↦ short-FitsIn (suc rounds) num (ltb→lt num 10 last)
  | inr more ↦
      let large = ltb→le num 10 more in
      rw (digits_loop-more (suc rounds) num large)
        (FitsIn-cons num rounds _ large (digits_loop-FitsIn rounds (num / 10)))
]

abbrev pub Nonzero : List ℕ → Type 0
Nonzero [] = Unit {0}
Nonzero (c ∷ cs) = (c ≢ 0) × Nonzero cs

pub IsDecimal-Nonzero : (num : ℕ) (tmp : List ℕ) → IsDecimal num tmp → Nonzero tmp
IsDecimal-Nonzero num [] d = absurd d
IsDecimal-Nonzero num (c ∷ []) d = (omega (arith, d.0), tt)
IsDecimal-Nonzero num (c ∷ c' ∷ tmp) d =
    (omega (arith, d.0), IsDecimal-Nonzero (num / 10) (c' ∷ tmp) d.2)

pub Nonzero-append : (xs ys : List ℕ) → Nonzero xs → Nonzero ys → Nonzero (xs ++ ys)
Nonzero-append [] ys nx ny = ny
Nonzero-append (x ∷ xs) ys nx ny = (nx.0, Nonzero-append xs ys nx.1 ny)

Nonzero-reverse : (xs : List ℕ) → Nonzero xs → Nonzero (reverse xs)
Nonzero-reverse [] n = tt
Nonzero-reverse (x ∷ xs) n =
    rw (reverse-cons x xs) (Nonzero-append (reverse xs) (x ∷ []) (Nonzero-reverse xs n.1) (n.0, tt))

pub length-reverse : (xs : List ℕ) → length (reverse xs) ≡ length xs
length-reverse [] = refl
length-reverse (x ∷ xs) =
    rw (reverse-cons x xs) (omega (arith, length-append (reverse xs) (x ∷ []), length-reverse xs))

c_string-write_chars :
    (cs buffer : List ℕ)
    → Nonzero cs
    → length cs < length buffer
    → c_string (write_chars buffer (cs ++ (0 ∷ []))) ≡ cs
unfolding c_string write_chars
c_string-write_chars [] [] n h = absurd (omega arith)
c_string-write_chars [] (b ∷ buffer) n h = refl
c_string-write_chars (c ∷ cs) [] n h = absurd (omega arith)
c_string-write_chars (c ∷ cs) (b ∷ buffer) n h =
    let rest = c_string-write_chars cs buffer n.1 (omega arith) in rw (ne→== c 0 n.0, rest) refl

-- What is behind the text stays.
pub drop-write_chars :
    (cs buffer : List ℕ)
    → length cs ≤ length buffer
    → drop (length cs) (write_chars buffer cs) ≡ drop (length cs) buffer
unfolding write_chars
drop-write_chars [] buffer h = refl
drop-write_chars (c ∷ cs) [] h = absurd (omega arith)
drop-write_chars (c ∷ cs) (b ∷ buffer) h = drop-write_chars cs buffer (omega arith)

pub c_string-reversed :
    (tmp buffer : List ℕ)
    → Nonzero tmp
    → length tmp < length buffer
    → c_string (write_chars buffer (reverse tmp ++ (0 ∷ []))) ≡ reverse tmp
c_string-reversed tmp buffer n h =
    c_string-write_chars (reverse tmp) buffer (Nonzero-reverse tmp n)
      (omega (arith, length-reverse tmp))
