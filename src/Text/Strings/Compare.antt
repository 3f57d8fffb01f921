-- ===== src/Text/Strings/Compare.antt =====
-- `strncmp` and `strcmp` of source/string/string.c decide equality.
use mathlib.Core.Path.{subst}
use mathlib.Core.List.{nil≢cons, head-eq_of_cons-eq, tail-eq_of_cons-eq}
use raspberry_pi_os.Base.{
  ℕ, zero, suc, ◌+◌, ◌-◌, ◌≡◌, ◌≢◌, ◌↔◌, refl, sym, ap₂, ◌∙◌, arith, true, false, List, [], ◌∷◌,
  take, ltb, ◌==◌, ◌||◌, if◌then◌else◌, Bool-cases, inl, inr, ==→eq, ==→ne,
}
use raspberry_pi_os.Text.Strings.{strncmp_loop, strncmp, minus_one}

-- What is compared: the first n characters, or the whole strings when n is 0.
abbrev pub compared : List ℕ → (n i : ℕ) → List ℕ
compared s n i = if n == 0 then s else take (n - i) s

strncmp_loop-stop :
    (s1 s2 : List ℕ) (n i : ℕ) → (ltb i n || n == 0) ≡ false → strncmp_loop s1 s2 n i ≡ 0
unfolding strncmp_loop
strncmp_loop-stop [] [] n i e = refl
strncmp_loop-stop [] (c2 ∷ s2) n i e = rw e refl
strncmp_loop-stop (c1 ∷ s1) [] n i e = rw e refl
strncmp_loop-stop (c1 ∷ s1) (c2 ∷ s2) n i e = rw e refl

compared-stop :
    (s1 s2 : List ℕ) (n i : ℕ) → (ltb i n || n == 0) ≡ false → compared s1 n i ≡ compared s2 n i
compared-stop s1 s2 n i e =
    let z : n - i ≡ 0 = ground arith in
    let some_limit : (n == 0) ≡ false = ground arith in rw (some_limit, z) refl

compared-cons :
    (c : ℕ) (s : List ℕ) (n i : ℕ)
    → (ltb i n || n == 0) ≡ true
    → compared (c ∷ s) n i ≡ c ∷ compared s n (i + 1)
compared-cons c s n i e = elim (Bool-cases (n == 0)) [
  | inl whole ↦ rw whole refl
  | inr limit ↦ let more : n - i ≡ suc (n - (i + 1)) = ground arith in rw (limit, more) refl
]

compared-nil : (n i : ℕ) → compared [] n i ≡ []
compared-nil n i = elim (Bool-cases (n == 0)) [
  | inl whole ↦ rw whole refl
  | inr limit ↦ rw limit (take-nil (n - i))
]
  where
    take-nil : (k : ℕ) → take {A = ℕ} k [] ≡ []
    take-nil zero = refl
    take-nil (suc k) = refl

-- Two strings that the loop compares further, the one at its end, the other not.
nil-compared :
    (c : ℕ) (s : List ℕ) (n i : ℕ)
    → (ltb i n || n == 0) ≡ true
    → compared [] n i ≢ compared (c ∷ s) n i
nil-compared c s n i e same = nil≢cons (sym (compared-nil n i) ∙ same ∙ compared-cons c s n i e)

minus_one-nonzero : minus_one ≢ 0
minus_one-nonzero = omega arith

module _ (c1 c2 : ℕ) (s1 s2 : List ℕ) (n i : ℕ) (go : (ltb i n || n == 0) ≡ true) where
  loop-equal :
      (c1 == c2) ≡ true → strncmp_loop (c1 ∷ s1) (c2 ∷ s2) n i ≡ strncmp_loop s1 s2 n (i + 1)
  unfolding strncmp_loop
  loop-equal same = rw (go, same) refl

  loop-differ : (c1 == c2) ≡ false → strncmp_loop (c1 ∷ s1) (c2 ∷ s2) n i ≡ minus_one
  unfolding strncmp_loop
  loop-differ differ = rw (go, differ) refl

  compared-equal :
      compared (c1 ∷ s1) n i ≡ compared (c2 ∷ s2) n i
      → (c1 ≡ c2) × (compared s1 n (i + 1) ≡ compared s2 n (i + 1))
  compared-equal e =
      let e' = sym (compared-cons c1 s1 n i go) ∙ e ∙ compared-cons c2 s2 n i go in
      (head-eq_of_cons-eq e', tail-eq_of_cons-eq e')

  cons-cons :
      (strncmp_loop s1 s2 n (i + 1) ≡ 0) ↔ (compared s1 n (i + 1) ≡ compared s2 n (i + 1))
      → (strncmp_loop (c1 ∷ s1) (c2 ∷ s2) n i ≡ 0)
        ↔ (compared (c1 ∷ s1) n i ≡ compared (c2 ∷ s2) n i)
  cons-cons (to, from) = elim (Bool-cases (c1 == c2)) [
    | inl same ↦ (
      λ h.
          compared-cons c1 s1 n i go
          ∙ ap₂ (λ c s. c ∷ s) (==→eq c1 c2 same) (to (sym (loop-equal same) ∙ h))
          ∙ sym (compared-cons c2 s2 n i go),
      λ e. loop-equal same ∙ from (compared-equal e).1,
    )
    | inr differ ↦ (
      λ h. absurd (minus_one-nonzero (sym (loop-differ differ) ∙ h)),
      λ e. absurd (==→ne c1 c2 differ (compared-equal e).0),
    )
  ]

nil-cons :
    (c : ℕ) (s : List ℕ) (n i : ℕ)
    → (ltb i n || n == 0) ≡ true
    → (strncmp_loop [] (c ∷ s) n i ≡ 0) ↔ (compared [] n i ≡ compared (c ∷ s) n i)
unfolding strncmp_loop
nil-cons c s n i go =
    let loop : strncmp_loop [] (c ∷ s) n i ≡ minus_one = rw go refl in
    (λ h. absurd (minus_one-nonzero (sym loop ∙ h)), λ e. absurd (nil-compared c s n i go e))

cons-nil :
    (c : ℕ) (s : List ℕ) (n i : ℕ)
    → (ltb i n || n == 0) ≡ true
    → (strncmp_loop (c ∷ s) [] n i ≡ 0) ↔ (compared (c ∷ s) n i ≡ compared [] n i)
unfolding strncmp_loop
cons-nil c s n i go =
    let loop : strncmp_loop (c ∷ s) [] n i ≡ minus_one = rw go refl in
    (λ h. absurd (minus_one-nonzero (sym loop ∙ h)), λ e. absurd (nil-compared c s n i go (sym e)))

loop-nil : (n i : ℕ) → strncmp_loop [] [] n i ≡ 0
unfolding strncmp_loop
loop-nil n i = refl

stopped :
    (s1 s2 : List ℕ) (n i : ℕ)
    → (ltb i n || n == 0) ≡ false
    → (strncmp_loop s1 s2 n i ≡ 0) ↔ (compared s1 n i ≡ compared s2 n i)
stopped s1 s2 n i stop = (λ _. compared-stop s1 s2 n i stop, λ _. strncmp_loop-stop s1 s2 n i stop)

strncmp_loop_lem :
    (s1 s2 : List ℕ) (n i : ℕ) → (strncmp_loop s1 s2 n i ≡ 0) ↔ (compared s1 n i ≡ compared s2 n i)
strncmp_loop_lem [] [] n i = (λ _. refl, λ _. loop-nil n i)
strncmp_loop_lem [] (c2 ∷ s2) n i = elim (Bool-cases (ltb i n || n == 0)) [
  | inl go ↦ nil-cons c2 s2 n i go
  | inr stop ↦ stopped [] (c2 ∷ s2) n i stop
]
strncmp_loop_lem (c1 ∷ s1) [] n i = elim (Bool-cases (ltb i n || n == 0)) [
  | inl go ↦ cons-nil c1 s1 n i go
  | inr stop ↦ stopped (c1 ∷ s1) [] n i stop
]
strncmp_loop_lem (c1 ∷ s1) (c2 ∷ s2) n i = elim (Bool-cases (ltb i n || n == 0)) [
  | inl go ↦ cons-cons c1 c2 s1 s2 n i go (strncmp_loop_lem s1 s2 n (i + 1))
  | inr stop ↦ stopped (c1 ∷ s1) (c2 ∷ s2) n i stop
]

-- `strncmp` returns 0 exactly when the first n characters of the strings agree, or all of them when n
-- is 0.
pub strncmp_lem :
    (s1 s2 : List ℕ) (n : ℕ)
    → (strncmp s1 s2 n ≡ 0)
      ↔ ((if n == 0 then s1 else take n s1) ≡ (if n == 0 then s2 else take n s2))
unfolding strncmp
strncmp_lem s1 s2 n =
    let back : n - 0 ≡ n = omega arith in
    subst
      (λ k.
        (strncmp_loop s1 s2 n 0 ≡ 0)
        ↔ ((if n == 0 then s1 else take k s1) ≡ (if n == 0 then s2 else take k s2)))
      back (strncmp_loop_lem s1 s2 n 0)
