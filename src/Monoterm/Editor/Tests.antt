-- ===== src/Monoterm/Editor/Tests.antt =====
-- Runs of the editor's keys, and their theorems at them.
use raspberry_pi_os.Base.{◌≡◌, arith, [], ◌∷◌}
use raspberry_pi_os.Monoterm.Editor.{Editor, escape_none, escape_unknown, arrow_right, edit_keys}
use raspberry_pi_os.Monoterm.Editor.Keys.{InScreen, edit_keys-InScreen, edit_keys-arrow}

abbrev at_start : Editor
at_start = record { editor_x = 0; editor_y = 0; escaped = escape_unknown }

edit_keys-InScreen_example : InScreen (edit_keys (27 ∷ 91 ∷ 66 ∷ 97 ∷ []) at_start)
edit_keys-InScreen_example =
    edit_keys-InScreen (27 ∷ 91 ∷ 66 ∷ 97 ∷ []) at_start (omega arith, omega arith)

edit_keys-arrow_example :
    edit_keys (27 ∷ 91 ∷ 67 ∷ 97 ∷ []) at_start
    ≡ edit_keys (97 ∷ []) (record { editor_x = 1; editor_y = 0; escaped = escape_none })
edit_keys-arrow_example = edit_keys-arrow arrow_right (97 ∷ []) at_start (omega arith, omega arith)
