-- ===== src/Fs/Overlay.antt =====
-- Bytes that are written into a buffer, one run after the other.
use raspberry_pi_os.Base.{
  ℕ, zero, suc, ◌+◌, ◌-◌, ◌≤◌, ◌≡◌, refl, ap, ◌∙◌, arith, List, [], ◌∷◌, ◌++◌, length, take, drop,
  sym,
}
use raspberry_pi_os.Fs.Bytes.{write_at, write_from}

pub write_from-append :
    (buffer xs ys : List ℕ)
    → length xs ≤ length buffer
    → write_at (write_from buffer xs) (length xs) ys ≡ write_from buffer (xs ++ ys)
write_from-append buffer [] ys h = refl
write_from-append [] (x ∷ xs) ys h = absurd (omega arith)
write_from-append (b ∷ buffer) (x ∷ xs) ys h =
    ap (λ l. x ∷ l) (write_from-append buffer xs ys (omega arith))

pub write_at-append :
    (buffer : List ℕ) (i : ℕ) (xs ys : List ℕ)
    → i + length xs ≤ length buffer
    → write_at (write_at buffer i xs) (i + length xs) ys ≡ write_at buffer i (xs ++ ys)
write_at-append buffer zero xs ys h =
    let e : zero + length xs ≡ length xs = omega arith in
    rw e (write_from-append buffer xs ys (omega arith))
write_at-append [] (suc i) xs ys h = absurd (omega arith)
write_at-append (b ∷ buffer) (suc i) xs ys h =
    let e : suc i + length xs ≡ suc (i + length xs) = omega arith in
    rw e (ap (λ l. b ∷ l) (write_at-append buffer i xs ys (omega arith)))

pub take-append_short : (n : ℕ) (xs ys : List ℕ) → n ≤ length xs → take n (xs ++ ys) ≡ take n xs
take-append_short zero xs ys h = refl
take-append_short (suc n) [] ys h = absurd (omega arith)
take-append_short (suc n) (x ∷ xs) ys h = ap (λ l. x ∷ l) (take-append_short n xs ys (omega arith))

pub take-append_long :
    (n : ℕ) (xs ys : List ℕ) → length xs ≤ n → take n (xs ++ ys) ≡ xs ++ take (n - length xs) ys
take-append_long n [] ys h = ap (λ k. take k ys) (omega arith)
take-append_long zero (x ∷ xs) ys h = absurd (omega arith)
take-append_long (suc n) (x ∷ xs) ys h =
    ap (λ l. x ∷ l)
      (take-append_long n xs ys (omega arith) ∙ ap (λ k. xs ++ take k ys) (omega arith))

length-write_from : (buffer xs : List ℕ) → length (write_from buffer xs) ≡ length buffer
length-write_from buffer [] = refl
length-write_from [] (x ∷ xs) = refl
length-write_from (b ∷ buffer) (x ∷ xs) = ap suc (length-write_from buffer xs)

pub length-write_at :
    (buffer : List ℕ) (i : ℕ) (xs : List ℕ) → length (write_at buffer i xs) ≡ length buffer
length-write_at buffer zero xs = length-write_from buffer xs
length-write_at [] (suc i) xs = refl
length-write_at (b ∷ buffer) (suc i) xs = ap suc (length-write_at buffer i xs)

pub take-all : (n : ℕ) (xs : List ℕ) → length xs ≤ n → take n xs ≡ xs
take-all zero [] h = refl
take-all zero (x ∷ xs) h = absurd (omega arith)
take-all (suc n) [] h = refl
take-all (suc n) (x ∷ xs) h = ap (λ l. x ∷ l) (take-all n xs (omega arith))

pub write_from-full : (buffer xs : List ℕ) → length xs ≡ length buffer → write_from buffer xs ≡ xs
write_from-full [] [] h = refl
write_from-full [] (x ∷ xs) h = absurd (omega arith)
write_from-full (b ∷ buffer) [] h = absurd (omega arith)
write_from-full (b ∷ buffer) (x ∷ xs) h = ap (λ l. x ∷ l) (write_from-full buffer xs (omega arith))

pub length-take : (n : ℕ) (xs : List ℕ) → n ≤ length xs → length (take n xs) ≡ n
length-take zero xs h = refl
length-take (suc n) [] h = absurd (omega arith)
length-take (suc n) (x ∷ xs) h = ap suc (length-take n xs (omega arith))

pub drop-take_append : (s : ℕ) (f ys : List ℕ) → s ≤ length f → drop s (take s f ++ ys) ≡ ys
drop-take_append zero f ys h = refl
drop-take_append (suc s) [] ys h = absurd (omega arith)
drop-take_append (suc s) (x ∷ f) ys h = drop-take_append s f ys (omega arith)

drop-nil : (n : ℕ) → drop {A = ℕ} n [] ≡ []
drop-nil zero = refl
drop-nil (suc n) = refl

pub drop-drop : (s n : ℕ) (f : List ℕ) → drop n (drop s f) ≡ drop (s + n) f
drop-drop zero n f = ap (λ k. drop k f) (omega arith)
drop-drop (suc s) n [] = drop-nil n ∙ sym (drop-nil (suc s + n))
drop-drop (suc s) n (x ∷ f) =
    let e : suc s + n ≡ suc (s + n) = omega arith in rw e (drop-drop s n f)

pub length-drop : (n : ℕ) (f : List ℕ) → length (drop n f) ≡ length f - n
length-drop zero f = omega arith
length-drop (suc n) [] = omega arith
length-drop (suc n) (x ∷ f) = omega (arith, length-drop n f)
