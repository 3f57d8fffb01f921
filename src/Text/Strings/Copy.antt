-- ===== src/Text/Strings/Copy.antt =====
-- `strncpy` and `strlen` of source/string/string.c, and `memcpy` and `memset` of source/string/mem.c.
use raspberry_pi_os.Base.{
  ℕ, zero, suc, ◌≤◌, ◌≡◌, refl, ap, ◌∙◌, arith, List, [], ◌∷◌, ◌++◌, length, take, drop, replicate,
  ◌==◌, if◌then◌else◌, ltb, Bool-cases, inl, inr, true, false,
}
use raspberry_pi_os.Text.Number.{c_string}
use raspberry_pi_os.Text.Strings.{strncpy, strlen, memset, memcpy}

-- With room for the zero, the string and its zero are written; without, the first n characters, and
-- then no zero ends them. The bytes behind are kept.
pub strncpy_lem :
    (dest src : List ℕ) (n : ℕ)
    → n ≤ length dest
    → strncpy dest src n ≡ (
        if ltb (length src) n
        then src ++ (0 ∷ drop (suc (length src)) dest)
        else take n src ++ drop n dest)
unfolding strncpy
strncpy_lem dest src zero room =
    let none_fits : ltb (length src) 0 ≡ false = ground arith in rw none_fits refl
strncpy_lem [] src (suc n) room = absurd (omega arith)
strncpy_lem (d ∷ dest) [] (suc n) room =
    let fits : ltb 0 (suc n) ≡ true = ground arith in rw fits refl
strncpy_lem (d ∷ dest) (c ∷ src) (suc n) room =
    let rest = strncpy_lem dest src n (omega arith) in
    elim (Bool-cases (ltb (length src) n)) [
      | inl fits ↦
          let fits' : ltb (suc (length src)) (suc n) ≡ true = ground arith in
          rw fits' (
            ap (λ s. c ∷ s)
              (rest
                ∙ ap
                    (λ b.
                      if b
                      then src ++ (0 ∷ drop (suc (length src)) dest)
                      else take n src ++ drop n dest)
                    fits))
      | inr cut ↦
          let cut' : ltb (suc (length src)) (suc n) ≡ false = ground arith in
          rw cut' (
            ap (λ s. c ∷ s)
              (rest
                ∙ ap
                    (λ b.
                      if b
                      then src ++ (0 ∷ drop (suc (length src)) dest)
                      else take n src ++ drop n dest)
                    cut))
    ]

-- `strlen` is the length of the C string that the buffer holds.
pub strlen_lem : (s : List ℕ) → strlen s ≡ length (c_string s)
unfolding strlen c_string
strlen_lem [] = refl
strlen_lem (c ∷ s) = elim (Bool-cases (c == 0)) [
  | inl end ↦ rw end refl
  | inr more ↦ rw more (omega (arith, strlen_lem s))
]

-- `memcpy` and `memset` write the first n bytes and keep the rest.
memcpy_lem :
    (dest src : List ℕ) (n : ℕ)
    → n ≤ length dest
    → n ≤ length src
    → memcpy dest src n ≡ take n src ++ drop n dest
unfolding memcpy
memcpy_lem dest src zero h h' = refl
memcpy_lem [] src (suc n) h h' = absurd (omega arith)
memcpy_lem (d ∷ dest) [] (suc n) h h' = absurd (omega arith)
memcpy_lem (d ∷ dest) (c ∷ src) (suc n) h h' =
    ap (λ s. c ∷ s) (memcpy_lem dest src n (omega arith) (omega arith))

memset_lem :
    (val : ℕ) (buf : List ℕ) (size : ℕ)
    → size ≤ length buf
    → memset val buf size ≡ replicate size val ++ drop size buf
unfolding memset
memset_lem val buf zero h = refl
memset_lem val [] (suc size) h = absurd (omega arith)
memset_lem val (b ∷ buf) (suc size) h = ap (λ s. val ∷ s) (memset_lem val buf size (omega arith))
