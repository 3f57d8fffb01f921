-- ===== src/Text/Number/Roundtrip.antt =====
-- `atoi` of source/string/string.c reads back what `itos` prints.
use mathlib.Core.Option
use mathlib.Core.List.{reverse, reverse-reverse, append-nil}
use raspberry_pi_os.Base.{
  ℕ, zero, suc, ◌+◌, ◌-◌, ◌*◌, ◌/◌, ◌%◌, ◌^◌, ◌≤◌, ◌<◌, ◌≡◌, ◌≢◌, refl, sym, ap, ◌∙◌, arith, Bool,
  true, false, Option, none, some, List, [], ◌∷◌, ◌++◌, length, length-append, if◌then◌else◌,
  Bool-cases, inl, inr, ◌⊎◌, ltb, leb, ltb→lt, ltb→le,
}
use raspberry_pi_os.Text.Number.{
  digits_loop, c_string, ltos, itos, atoi, atoi_loop, rest_loop, parsed, out_of_fuel, finish,
  print_signed, clamp_size,
}
use raspberry_pi_os.Text.Number.Digits.{
  IsDecimal, FitsIn, digits_loop-FitsIn, IsDecimal-Nonzero, Nonzero-append, c_string-reversed,
}

atoi_loop-step :
    (rounds digit : ℕ) (back : List ℕ) (res base : ℕ)
    → digit < 10
    → res + digit * base < 2 ^ 32
    → atoi_loop rounds ((48 + digit) ∷ back) res base
      ≡ atoi_loop rounds back (res + digit * base) (base * 10 % 2 ^ 32)
unfolding atoi_loop
atoi_loop-step rounds digit back res base h small =
    let lower : leb 48 (48 + digit) ≡ true = ground arith in
    let upper : leb (48 + digit) 57 ≡ true = ground arith in
    let same : 48 + digit - 48 ≡ digit = omega arith in
    let no_wrap : (res + digit * base) % 2 ^ 32 ≡ res + digit * base = omega arith in
    rw (lower, upper, same, no_wrap) refl

digit_split : (num base : ℕ) → num * base ≡ num % 10 * base + num / 10 * (base * 10)
digit_split num base =
    let parts : num ≡ num % 10 + 10 * (num / 10) = omega arith in
    ap (λ n. n * base) parts ∙ grind arith

larger : (base q : ℕ) → 0 < q → base * 10 ≤ q * (base * 10)
larger base zero h = absurd (omega arith)
larger base (suc q) h = grind arith

atoi_loop-digits :
    (rounds num : ℕ) (tmp back : List ℕ) (res base : ℕ)
    → IsDecimal num tmp
    → res + num * base < 2 ^ 32
    → (next : ℕ) × (atoi_loop rounds (tmp ++ back) res base
        ≡ atoi_loop rounds back (res + num * base) next)
atoi_loop-digits rounds num [] back res base d small = absurd d
atoi_loop-digits rounds num (c ∷ []) back res base d small = (
  base * 10 % 2 ^ 32,
  ap (λ x. atoi_loop rounds (x ∷ back) res base) d.0
      ∙ atoi_loop-step rounds num back res base d.1 small,
)
atoi_loop-digits rounds num (c ∷ c' ∷ tmp) back res base d small =
    let split = digit_split num base in
    let big = larger base (num / 10) (omega (arith, d.1)) in
    let no_wrap : base * 10 % 2 ^ 32 ≡ base * 10 = omega arith in
    let (next, e) =
      atoi_loop-digits rounds (num / 10) (c' ∷ tmp) back (res + num % 10 * base) (base * 10) d.2
        (omega arith) in
    (
      next,
      ap (λ x. atoi_loop rounds (x ∷ ((c' ∷ tmp) ++ back)) res base) d.0
          ∙ atoi_loop-step rounds (num % 10) ((c' ∷ tmp) ++ back) res base (omega arith)
              (omega arith)
          ∙ ap (atoi_loop rounds ((c' ∷ tmp) ++ back) (res + num % 10 * base)) no_wrap
          ∙ e
          ∙ ap (λ r. atoi_loop rounds back r next) (omega arith),
    )

atoi-digits :
    (rounds num : ℕ) (tmp : List ℕ)
    → IsDecimal num tmp
    → num < 2 ^ 31
    → atoi (suc rounds) (reverse tmp) ≡ parsed num
unfolding atoi atoi_loop rest_loop
atoi-digits rounds num tmp d small =
    let (next, e) = atoi_loop-digits (suc rounds) num tmp [] 0 1 d (omega arith) in
    ap (λ cs. atoi_loop (suc rounds) cs 0 1) (reverse-reverse tmp ∙ sym (append-nil tmp))
    ∙ e
    ∙ ap (λ r. atoi_loop (suc rounds) [] r next) (omega arith)

atoi-minus :
    (rounds num : ℕ) (tmp : List ℕ)
    → IsDecimal num tmp
    → num < 2 ^ 31
    → atoi (suc rounds) (reverse (tmp ++ (45 ∷ []))) ≡ parsed ((2 ^ 32 - num) % 2 ^ 32)
unfolding atoi atoi_loop rest_loop
atoi-minus rounds num tmp d small =
    let (next, e) = atoi_loop-digits (suc rounds) num tmp (45 ∷ []) 0 1 d (omega arith) in
    ap (λ cs. atoi_loop (suc rounds) cs 0 1) (reverse-reverse (tmp ++ (45 ∷ [])))
    ∙ e
    ∙ ap (λ r. atoi_loop (suc rounds) (45 ∷ []) r next) (omega arith)

abbrev with_sign : Bool → Option (List ℕ) → Option (List ℕ)
with_sign negative tmp = if negative then Option.map (λ cs. cs ++ (45 ∷ [])) tmp else tmp

finish-parsed :
    (negative : Bool) (rounds num n m : ℕ) (buffer : List ℕ) (r : Option (List ℕ))
    → FitsIn num m r
    → num < 10 ^ m
    → num < 2 ^ 31
    → m + 2 ≤ length buffer
    → atoi (suc rounds) (c_string (finish n buffer (with_sign negative r)).1)
      ≡ parsed (if negative then (2 ^ 32 - num) % 2 ^ 32 else num)
unfolding finish
finish-parsed false rounds num n m buffer (some tmp) (d, short, _) low small room =
    rw (c_string-reversed tmp buffer (IsDecimal-Nonzero num tmp d) (omega arith))
      (atoi-digits rounds num tmp d small)
finish-parsed true rounds num n m buffer (some tmp) (d, short, _) low small room =
    rw
      (c_string-reversed (tmp ++ (45 ∷ [])) buffer
        (Nonzero-append tmp (45 ∷ []) (IsDecimal-Nonzero num tmp d) (omega arith, tt))
        (omega (arith, length-append tmp (45 ∷ []))))
      (atoi-minus rounds num tmp d small)
finish-parsed negative rounds num n m buffer none large low small room = absurd (omega arith)

ten_digits : (k : ℕ) → 10 ^ 10 ≤ 10 ^ (k + 10)
ten_digits zero = omega arith
ten_digits (suc k) =
    let next : suc k + 10 ≡ suc (k + 10) = omega arith in
    let bound : 10 ^ 10 ≤ 10 ^ suc (k + 10) = omega (arith, ten_digits k) in rw next bound

print_signed-parsed :
    (negative : Bool) (rounds num n : ℕ) (buffer : List ℕ)
    → num < 2 ^ 31
    → 12 ≤ n
    → clamp_size n ≤ length buffer
    → atoi (suc rounds) (c_string (print_signed negative num buffer n).1)
      ≡ parsed (if negative then (2 ^ 32 - num) % 2 ^ 32 else num)
unfolding print_signed
print_signed-parsed negative rounds num n buffer small size room =
    let k = clamp_size n - 12 in
    let loops : (clamp_size n + 2 ^ 32 - 2) % 2 ^ 32 ≡ suc (k + 9) = ground arith in
    let ten : suc (k + 9) ≡ k + 10 = omega arith in
    rw loops (
      finish-parsed negative rounds num (clamp_size n) (suc (k + 9)) buffer
        (digits_loop (suc (k + 9)) num) (digits_loop-FitsIn (k + 9) num)
        (rw ten (omega (arith, ten_digits k))) small (ground arith))

nonnegative-itos :
    (num n : ℕ) (buffer : List ℕ)
    → num < 2 ^ 31
    → itos num buffer n ≡ print_signed false num buffer n
unfolding itos ltos
nonnegative-itos num n buffer small =
    let int : leb (2 ^ 31) num ≡ false = ground arith in
    let long : leb (2 ^ 63) num ≡ false = ground arith in rw (int, long) refl

negative-itos :
    (num n : ℕ) (buffer : List ℕ)
    → 2 ^ 31 ≤ num
    → num < 2 ^ 32
    → itos num buffer n ≡ print_signed true (2 ^ 32 - num) buffer n
unfolding itos ltos
negative-itos num n buffer low top =
    let int : leb (2 ^ 31) num ≡ true = ground arith in
    let long : leb (2 ^ 63) (num + (2 ^ 64 - 2 ^ 32)) ≡ true = ground arith in
    let magnitude : 2 ^ 64 - (num + (2 ^ 64 - 2 ^ 32)) ≡ 2 ^ 32 - num = omega arith in
    rw (int, long, magnitude) refl

-- What `itos` prints into a buffer of 12 characters or more, `atoi` reads back: every int but the
-- most negative one survives the round trip, and the second loop of `atoi` then ends at once.
pub atoi-itos :
    (rounds num n : ℕ) (buffer : List ℕ)
    → num < 2 ^ 32
    → num ≢ 2 ^ 31
    → 12 ≤ n
    → clamp_size n ≤ length buffer
    → atoi (suc rounds) (c_string (itos num buffer n).1) ≡ parsed num
atoi-itos rounds num n buffer top ne size room = elim (Bool-cases (ltb num (2 ^ 31))) [
  | inl small ↦
      rw (nonnegative-itos num n buffer (ltb→lt num _ small))
        (print_signed-parsed false rounds num n buffer (ltb→lt num _ small) size room)
  | inr large ↦
      let low = ltb→le num (2 ^ 31) large in
      let back : (2 ^ 32 - (2 ^ 32 - num)) % 2 ^ 32 ≡ num = omega arith in
      rw (negative-itos num n buffer low top) (
        print_signed-parsed true rounds (2 ^ 32 - num) n buffer (omega arith) size room
        ∙ ap parsed back)
]

rest_loop-space :
    (rounds : ℕ) (back : List ℕ) (res : ℕ) → rest_loop rounds (32 ∷ back) res ≡ out_of_fuel
unfolding rest_loop
rest_loop-space zero back res = refl
rest_loop-space (suc rounds) back res = rest_loop-space rounds back res

signed-hangs :
    (rounds num base c : ℕ) (back : List ℕ)
    → (c ≡ 45) ⊎ (c ≡ 43)
    → atoi_loop rounds (c ∷ 32 ∷ back) num base ≡ out_of_fuel
unfolding atoi_loop
signed-hangs rounds num base c back (inl e) =
    rw (e, rest_loop-space rounds back ((2 ^ 32 - num) % 2 ^ 32)) refl
signed-hangs rounds num base c back (inr e) = rw (e, rest_loop-space rounds back num) refl

-- A number with a sign and a space in front of it is never read: however many rounds the loop over
-- the characters before the sign may take, it has not ended, since it does not advance.
pub atoi_hangs :
    (rounds num c : ℕ) (tmp front : List ℕ)
    → IsDecimal num tmp
    → num < 2 ^ 31
    → (c ≡ 45) ⊎ (c ≡ 43)
    → atoi rounds (reverse (tmp ++ (c ∷ 32 ∷ front))) ≡ out_of_fuel
unfolding atoi
atoi_hangs rounds num c tmp front d small sign =
    let (next, e) = atoi_loop-digits rounds num tmp (c ∷ 32 ∷ front) 0 1 d (omega arith) in
    ap (λ cs. atoi_loop rounds cs 0 1) (reverse-reverse (tmp ++ (c ∷ 32 ∷ front)))
    ∙ e
    ∙ signed-hangs rounds (0 + num * 1) next c front sign
