-- ===== src/Text/Number/Printed.antt =====
-- What `ultos` of source/string/string.c leaves in the buffer.
use mathlib.Core.Path.{subst}
use mathlib.Core.List.{reverse}
use raspberry_pi_os.Base.{
  ℕ, suc, ◌+◌, ◌-◌, ◌%◌, ◌^◌, ◌≤◌, ◌<◌, ◌≡◌, refl, sym, ap, ◌∙◌, arith, Option, none, some, List,
  [], ◌∷◌, ◌++◌, length, length-append, set, drop,
}
use raspberry_pi_os.Text.Number.{digits_loop, write_chars, c_string, ultos, finish, clamp_size}
use raspberry_pi_os.Text.Number.Digits.{
  IsDecimal, FitsIn, digits_loop-FitsIn, IsDecimal-Nonzero, length-reverse, drop-write_chars,
  c_string-reversed,
}

-- A printed number: the buffer holds the digits as a C string, the highest first, the returned count
-- is their number, and no character of the buffer behind the terminating zero has changed.
abbrev pub Prints : (num n : ℕ) → List ℕ → Option ℕ × List ℕ → Type 0
Prints num n before (some k, after) =
    ((tmp : List ℕ) × IsDecimal num tmp
      × (c_string after ≡ reverse tmp)
      × (length tmp ≡ k)
      × (k < n)
      × (drop (suc k) after ≡ drop (suc k) before))
Prints num n before (none, after) = (10 ^ (n - 1) ≤ num) × (after ≡ set before (n - 1) 0)

length-text : (tmp : List ℕ) → length (reverse tmp ++ (0 ∷ [])) ≡ suc (length tmp)
length-text tmp = omega (arith, length-append (reverse tmp) (0 ∷ []), length-reverse tmp)

drop-text :
    (tmp buffer : List ℕ)
    → length tmp < length buffer
    → drop (suc (length tmp)) (write_chars buffer (reverse tmp ++ (0 ∷ [])))
      ≡ drop (suc (length tmp)) buffer
drop-text tmp buffer h =
    let text = reverse tmp ++ (0 ∷ []) in
    let size = length-text tmp in
    ap (λ k. drop k (write_chars buffer text)) (sym size)
    ∙ drop-write_chars text buffer (omega (arith, size))
    ∙ ap (λ k. drop k buffer) size

finish-Prints :
    (num n : ℕ) (buffer : List ℕ) (r : Option (List ℕ))
    → 0 < n
    → n < 2 ^ 32
    → n ≤ length buffer
    → FitsIn num (n - 1) r
    → Prints num n buffer (finish n buffer r)
unfolding finish
finish-Prints num n buffer (some tmp) positive top room (d, short, small) = (
  tmp,
  d,
  c_string-reversed tmp buffer (IsDecimal-Nonzero num tmp d) (omega arith),
  refl,
  omega arith,
  drop-text tmp buffer (omega arith),
)
finish-Prints num n buffer none positive top room large =
    let index : (n + 2 ^ 32 - 1) % 2 ^ 32 ≡ n - 1 = omega arith in rw index (large, refl)

-- With room for two characters or more, `ultos` prints the decimal digits of the number and a
-- terminating zero, changes nothing behind it and returns how many digits there are; or the number
-- has as many digits as the size, at most 21, and the result is −1 with the last character set to 0.
pub ultos_lem :
    (num n : ℕ) (buffer : List ℕ)
    → 2 ≤ n
    → clamp_size n ≤ length buffer
    → Prints num (clamp_size n) buffer (ultos num buffer n)
unfolding ultos
ultos_lem num n buffer two room =
    let rounds : (clamp_size n + 2 ^ 32 - 1) % 2 ^ 32 ≡ suc (clamp_size n - 2) = ground arith in
    let same : suc (clamp_size n - 2) ≡ clamp_size n - 1 = ground arith in
    rw rounds (
      finish-Prints num (clamp_size n) buffer _ (ground arith) (ground arith) room (
        subst (λ k. FitsIn num k (digits_loop (suc (clamp_size n - 2)) num)) same
          (digits_loop-FitsIn (clamp_size n - 2) num)))
