-- ===== src/Text/Print/Tests.antt =====
-- Runs of the printing, and its theorems at concrete format strings and numbers.
use raspberry_pi_os.Base.{ℕ, ◌≡◌, [], ◌∷◌, List}
use raspberry_pi_os.Text.Print.{print}
use raspberry_pi_os.Text.Print.Format.{Piece, text, tag, uint_u, hex_x, render, output, print_lem}

abbrev no_strings : ℕ → List ℕ
no_strings address = []

-- `a{u}b{x}` with one argument.
abbrev pieces : List Piece
pieces = text (97 ∷ []) ∷ tag uint_u ∷ text (98 ∷ []) ∷ tag hex_x ∷ []

print_lem_example :
    print no_strings (render pieces) (7 ∷ []) 1 ≡ output no_strings (7 ∷ []) 1 0 pieces
print_lem_example = print_lem no_strings pieces (7 ∷ []) 1
