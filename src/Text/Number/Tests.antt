-- ===== src/Text/Number/Tests.antt =====
-- Runs of the number functions, and their theorems at concrete numbers.
use raspberry_pi_os.Base.{◌≡◌, refl, arith, [], ◌∷◌, inl, replicate}
use raspberry_pi_os.Text.Number.{atoi, itos, ultos, c_string, parsed, out_of_fuel}
use raspberry_pi_os.Text.Number.Printed.{Prints, ultos_lem}
use raspberry_pi_os.Text.Number.Roundtrip.{atoi-itos, atoi_hangs}

ultos_lem_example : Prints 407 5 (replicate 8 7) (ultos 407 (replicate 8 7) 5)
ultos_lem_example = ultos_lem 407 5 (replicate 8 7) (omega arith) (omega arith)

-- −42.
atoi-itos_example : atoi 1 (c_string (itos 0xFFFFFFD6 (replicate 12 7) 12).1) ≡ parsed 0xFFFFFFD6
atoi-itos_example =
    atoi-itos 0 0xFFFFFFD6 12 (replicate 12 7) (omega arith) (omega arith) (omega arith)
      (omega arith)

atoi_hangs_example : atoi 1000 (32 ∷ 45 ∷ 53 ∷ []) ≡ out_of_fuel
atoi_hangs_example = atoi_hangs 1000 5 45 (53 ∷ []) [] (omega arith) (omega arith) (inl refl)
