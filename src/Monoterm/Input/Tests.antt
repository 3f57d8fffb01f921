-- ===== src/Monoterm/Input/Tests.antt =====
-- A typed line, and the theorem at it.
use raspberry_pi_os.Base.{ℕ, zero, suc, ◌≡◌, refl, arith, [], ◌∷◌, length, replicate}
use raspberry_pi_os.Monoterm.Input.{input_chars, input_chars_lem}

length-replicate : (n v : ℕ) → length (replicate n v) ≡ n
length-replicate zero v = refl
length-replicate (suc n) v = omega (arith, length-replicate n v)

input_chars_lem_example :
    input_chars (record { input = replicate 4096 7; input_i = 0; prev = 13 }) (112 ∷ 115 ∷ 13 ∷ [])
    ≡ (112 ∷ 115 ∷ []) ∷ []
input_chars_lem_example =
    input_chars_lem (replicate 4096 7) (115 ∷ []) 112 13 (length-replicate 4096 7)
      (λ e. absurd (omega (arith, e)))
      (
        (
          (λ e. absurd (omega (arith, e))),
          (λ e. absurd (omega (arith, e))),
          (λ e. absurd (omega (arith, e))),
          (λ e. absurd (omega (arith, e))),
          (λ e. absurd (omega (arith, e))),
        ),
        (
          (
            (λ e. absurd (omega (arith, e))),
            (λ e. absurd (omega (arith, e))),
            (λ e. absurd (omega (arith, e))),
            (λ e. absurd (omega (arith, e))),
            (λ e. absurd (omega (arith, e))),
          ),
          omega arith,
        ),
      )
      (omega arith)
