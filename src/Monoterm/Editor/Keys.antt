-- ===== src/Monoterm/Editor/Keys.antt =====
-- The cursor of source/monoterm/editor.c stays on the screen, and the arrow keys move it.
use raspberry_pi_os.Base.{
  ◌+◌, ◌-◌, min, ℕ, ◌<◌, ◌≡◌, refl, ap, ◌∙◌, arith, List, [], ◌∷◌, ltb, ◌==◌, Bool-cases, inl, inr,
}
use raspberry_pi_os.Text.Strings.{is_csi_sequence_terminator, matches_any}
use raspberry_pi_os.Monoterm.Editor.{
  Editor, EscapeType, escape_none, escape_init, escape_unknown, escape_csi, Keycode, arrow_up,
  arrow_down, arrow_left, arrow_right, handle_special_key, csi_key, csi_char, escape_char, edit_key,
  edit_keys,
}

-- The cursor stands on the screen, above its last line, which shows the name of the file.
abbrev pub InScreen : Editor → Type 0
InScreen s = (s.editor_x < 80) × (s.editor_y < 23)

handle_special_key-InScreen :
    (k : Keycode) (s : Editor) → InScreen s → InScreen (handle_special_key k s)
unfolding handle_special_key
handle_special_key-InScreen arrow_up s (x, y) = (ground arith, ground arith)
handle_special_key-InScreen arrow_down s (x, y) = (ground arith, ground arith)
handle_special_key-InScreen arrow_left s (x, y) = (ground arith, ground arith)
handle_special_key-InScreen arrow_right s (x, y) = (ground arith, ground arith)

csi_key-InScreen : (c : ℕ) (s : Editor) → InScreen s → InScreen (csi_key c s)
unfolding csi_key
csi_key-InScreen c s h = elim (Bool-cases (c == 65)) [
  | inl up ↦ rw up (handle_special_key-InScreen arrow_up s h)
  | inr n1 ↦ elim (Bool-cases (c == 66)) [
    | inl down ↦ rw (n1, down) (handle_special_key-InScreen arrow_down s h)
    | inr n2 ↦ elim (Bool-cases (c == 67)) [
      | inl right ↦ rw (n1, n2, right) (handle_special_key-InScreen arrow_right s h)
      | inr n3 ↦ elim (Bool-cases (c == 68)) [
        | inl left ↦ rw (n1, n2, n3, left) (handle_special_key-InScreen arrow_left s h)
        | inr n4 ↦ rw (n1, n2, n3, n4) h
      ]
    ]
  ]
]

csi_char-InScreen : (c : ℕ) (s : Editor) → InScreen s → InScreen (csi_char c s)
unfolding csi_char
csi_char-InScreen c s h = elim (Bool-cases (is_csi_sequence_terminator c)) [
  | inl ends ↦ rw ends (csi_key-InScreen c s h)
  | inr goes_on ↦ rw goes_on (csi_key-InScreen c s h)
]

escape_char-InScreen :
    (e : EscapeType) (c : ℕ) (s : Editor) → InScreen s → InScreen (escape_char e c s)
unfolding escape_char
escape_char-InScreen escape_none c s h = h
escape_char-InScreen escape_init c s h = h
escape_char-InScreen escape_unknown c s h = h
escape_char-InScreen escape_csi c s h = csi_char-InScreen c s h

edit_key-InScreen : (c : ℕ) (s : Editor) → InScreen s → InScreen (edit_key c s)
unfolding edit_key
edit_key-InScreen c s h = elim (Bool-cases (c == 27)) [
  | inl escape ↦ rw escape h
  | inr other ↦ rw other (escape_char-InScreen s.escaped c s h)
]

-- Whatever is typed, the cursor stays within the 80 columns and above the last of the 24 lines.
pub edit_keys-InScreen : (keys : List ℕ) (s : Editor) → InScreen s → InScreen (edit_keys keys s)
unfolding edit_keys
edit_keys-InScreen [] s h = h
edit_keys-InScreen (c ∷ keys) s h = elim (Bool-cases (c == 3)) [
  | inl quits ↦ rw quits h
  | inr other ↦ rw other (edit_keys-InScreen keys (edit_key c s) (edit_key-InScreen c s h))
]

abbrev pub arrow_code : Keycode → ℕ
arrow_code arrow_up = 65
arrow_code arrow_down = 66
arrow_code arrow_left = 68
arrow_code arrow_right = 67

key-escaped :
    (k : Keycode) (s : Editor) (e e' : EscapeType)
    → record (handle_special_key k (record s { escaped = e })) { escaped = e' }
      ≡ record (handle_special_key k s) { escaped = e' }
unfolding handle_special_key
key-escaped arrow_up s e e' = elim (Bool-cases (ltb 0 s.editor_y)) [
  | inl moves ↦ rw moves refl
  | inr stays ↦ rw stays refl
]
key-escaped arrow_down s e e' = elim (Bool-cases (ltb s.editor_y 22)) [
  | inl moves ↦ rw moves refl
  | inr stays ↦ rw stays refl
]
key-escaped arrow_left s e e' = elim (Bool-cases (ltb 0 s.editor_x)) [
  | inl moves ↦ rw moves refl
  | inr stays ↦ rw stays refl
]
key-escaped arrow_right s e e' = elim (Bool-cases (ltb s.editor_x 79)) [
  | inl moves ↦ rw moves refl
  | inr stays ↦ rw stays refl
]

arrow-edit_keys :
    (k : Keycode) (keys : List ℕ) (s : Editor)
    → edit_keys (27 ∷ 91 ∷ arrow_code k ∷ keys) s
      ≡ edit_keys keys (record (handle_special_key k (record s { escaped = escape_csi })) {
        escaped = escape_none;
      })
unfolding edit_keys edit_key escape_char csi_char csi_key is_csi_sequence_terminator matches_any
arrow-edit_keys arrow_up keys s = refl
arrow-edit_keys arrow_down keys s = refl
arrow-edit_keys arrow_left keys s = refl
arrow-edit_keys arrow_right keys s = refl

-- Where an arrow key takes the cursor: one place on, and at the edge nowhere.
abbrev pub target : Keycode → (x y : ℕ) → ℕ × ℕ
target arrow_up x y = (x, y - 1)
target arrow_down x y = (x, min (y + 1) 22)
target arrow_left x y = (x - 1, y)
target arrow_right x y = (min (x + 1) 79, y)

key-target :
    (k : Keycode) (s : Editor)
    → InScreen s
    → handle_special_key k s ≡ record s {
      editor_x = (target k s.editor_x s.editor_y).0;
      editor_y = (target k s.editor_x s.editor_y).1;
    }
unfolding handle_special_key
key-target arrow_up s (x, y) = ground arith
key-target arrow_down s (x, y) = ground arith
key-target arrow_left s (x, y) = ground arith
key-target arrow_right s (x, y) = ground arith

-- With the cursor on the screen, the three characters of an arrow key move it by one place up, down,
-- left or right, or leave it where it is at the first or the last column or line, and end the
-- sequence, whatever sequence was open before.
pub edit_keys-arrow :
    (k : Keycode) (keys : List ℕ) (s : Editor)
    → InScreen s
    → edit_keys (27 ∷ 91 ∷ arrow_code k ∷ keys) s
      ≡ edit_keys keys (record {
        editor_x = (target k s.editor_x s.editor_y).0;
        editor_y = (target k s.editor_x s.editor_y).1;
        escaped = escape_none;
      })
edit_keys-arrow k keys s on_screen =
    arrow-edit_keys k keys s
    ∙ ap (edit_keys keys) (key-escaped k s escape_csi escape_none)
    ∙ ap (λ e. edit_keys keys (record e { escaped = escape_none })) (key-target k s on_screen)
