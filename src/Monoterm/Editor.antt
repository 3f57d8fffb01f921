-- ===== src/Monoterm/Editor.antt =====
-- The keys of source/monoterm/editor.c: the cursor, and the state of an escape sequence. What is
-- drawn and printed is left out, and so is the reading of the file.
pub mod Keys
mod Tests
use raspberry_pi_os.Base.{
  ℕ, ◌+◌, ◌-◌, Bool, true, false, Option, none, some, List, [], ◌∷◌, ltb, ◌==◌, if◌then◌else◌,
}
use raspberry_pi_os.Text.Strings.{is_csi_sequence_terminator}

abbrev pub term_width : ℕ
term_width = 80

abbrev pub term_height : ℕ
term_height = 24

abbrev pub keycode_escape : ℕ
keycode_escape = 27

abbrev pub keycode_ctrl_c : ℕ
keycode_ctrl_c = 3

pub data EscapeType : Type 0 where
  escape_none : EscapeType
  escape_init : EscapeType
  escape_unknown : EscapeType
  escape_csi : EscapeType

pub data Keycode : Type 0 where
  arrow_up : Keycode
  arrow_down : Keycode
  arrow_left : Keycode
  arrow_right : Keycode

pub record Editor : Type 0 where
  pub editor_x : ℕ
  pub editor_y : ℕ
  pub escaped : EscapeType

unfoldable pub handle_special_key : Keycode → Editor → Editor
handle_special_key arrow_up s =
    if ltb 0 s.editor_y then record s { editor_y = s.editor_y - 1 } else s
handle_special_key arrow_down s =
    if ltb s.editor_y (term_height - 2) then record s { editor_y = s.editor_y + 1 } else s
handle_special_key arrow_left s =
    if ltb 0 s.editor_x then record s { editor_x = s.editor_x - 1 } else s
handle_special_key arrow_right s =
    if ltb s.editor_x (term_width - 1) then record s { editor_x = s.editor_x + 1 } else s

-- A character of a control sequence: an arrow key, or one that is only printed.
unfoldable pub csi_key : ℕ → Editor → Editor
unfolding handle_special_key
csi_key new_char s =
    if new_char == 65
    then handle_special_key arrow_up s
    else if new_char == 66
    then handle_special_key arrow_down s
    else if new_char == 67
    then handle_special_key arrow_right s
    else if new_char == 68
    then handle_special_key arrow_left s
    else s

unfoldable pub csi_char : ℕ → Editor → Editor
unfolding csi_key
csi_char new_char s =
    let moved = csi_key new_char s in
    if is_csi_sequence_terminator new_char then record moved { escaped = escape_none } else moved

-- What a character does in each state; outside of a sequence it is printed.
unfoldable pub escape_char : EscapeType → ℕ → Editor → Editor
unfolding csi_char
escape_char escape_none new_char s = s
escape_char escape_unknown new_char s = s
escape_char escape_init new_char s = record s {
  escaped = if new_char == 91 then escape_csi else escape_unknown;
}
escape_char escape_csi new_char s = csi_char new_char s

-- One character other than Ctrl-C.
unfoldable pub edit_key : ℕ → Editor → Editor
unfolding escape_char
edit_key new_char s =
    if new_char == keycode_escape
    then record s { escaped = escape_init }
    else escape_char s.escaped new_char s

-- The loop over the characters that are read, up to the first Ctrl-C: the last state.
unfoldable pub edit_keys : List ℕ → Editor → Editor
unfolding edit_key
edit_keys [] s = s
edit_keys (new_char ∷ keys) s =
    let rest = edit_keys keys (edit_key new_char s) in
    if new_char == keycode_ctrl_c then s else rest
