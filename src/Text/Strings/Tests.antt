-- ===== src/Text/Strings/Tests.antt =====
-- Runs of the string functions, and their theorems at concrete strings.
use raspberry_pi_os.Base.{ℕ, ◌≡◌, refl, arith, true, false, Bool, [], ◌∷◌}
use raspberry_pi_os.Text.Strings.{
  escape_string, is_csi_sequence_terminator, matches_any, is_alphanumeric,
}
use raspberry_pi_os.Text.Strings.Escape.{Escapes, escape_string_lem}

abbrev always : ℕ → Bool
always size = true

escape_string_lem_example : Escapes always (104 ∷ 10 ∷ []) (escape_string always (104 ∷ 10 ∷ []))
escape_string_lem_example = escape_string_lem always (104 ∷ 10 ∷ []) (omega arith)

arrow_keys : (is_csi_sequence_terminator 65 ≡ true) × (is_csi_sequence_terminator 59 ≡ false)
unfolding is_csi_sequence_terminator matches_any
arrow_keys = (refl, refl)

letters : (is_alphanumeric 122 ≡ true) × (is_alphanumeric 95 ≡ false)
unfolding is_alphanumeric
letters = (refl, refl)
