-- ===== src/Fs/Fat32/Entry/Names.antt =====
-- Long names in the directories of source/fs/fat32.c: the rows come last part first.
use raspberry_pi_os.Base.{
  ℕ, zero, suc, ◌+◌, ◌*◌, ◌^◌, ◌≤◌, ◌<◌, ◌≡◌, refl, ◌∙◌, arith, List, [], ◌∷◌, ◌++◌, length, take,
  drop, set, length-append, ne→==, bit_and,
}
use raspberry_pi_os.Base.Bits.{bit_and_mask, bit_and_split, bit_and-zero}
use raspberry_pi_os.Text.Strings.Copy.{strncpy_lem}
use raspberry_pi_os.Text.Number.{c_string}
use raspberry_pi_os.Text.Strings.{strncpy}
use raspberry_pi_os.Fs.Overlay.{drop-take_append, drop-drop, length-drop, length-take}
use raspberry_pi_os.Fs.Fat32.Entry.{ucs2_to_ascii, lfn_chars}

-- Thirteen characters of a long name.
pub record Part : Type 0 where
  pub c0 : ℕ
  pub c1 : ℕ
  pub c2 : ℕ
  pub c3 : ℕ
  pub c4 : ℕ
  pub c5 : ℕ
  pub c6 : ℕ
  pub c7 : ℕ
  pub c8 : ℕ
  pub c9 : ℕ
  pub c10 : ℕ
  pub c11 : ℕ
  pub c12 : ℕ

abbrev pub chars : Part → List ℕ
chars p =
    p.c0 ∷ p.c1 ∷ p.c2 ∷ p.c3 ∷ p.c4 ∷ p.c5 ∷ p.c6 ∷ p.c7 ∷ p.c8 ∷ p.c9 ∷ p.c10 ∷ p.c11 ∷ p.c12 ∷ []

-- The row of a part, as the format lays it out: two bytes for each character, and 0x0F for a long name.
abbrev pub long_row : (first_byte checksum : ℕ) → Part → List ℕ
long_row first_byte checksum p =
    first_byte ∷ p.c0 ∷ 0 ∷ p.c1 ∷ 0 ∷ p.c2 ∷ 0 ∷ p.c3 ∷ 0 ∷ p.c4 ∷ 0 ∷ 0x0F ∷ 0 ∷ checksum ∷ p.c5
    ∷ 0 ∷ p.c6 ∷ 0 ∷ p.c7 ∷ 0 ∷ p.c8 ∷ 0 ∷ p.c9 ∷ 0 ∷ p.c10 ∷ 0 ∷ 0 ∷ 0 ∷ p.c11 ∷ 0 ∷ p.c12 ∷ 0 ∷ []

-- Printable ASCII, and no terminating zero.
abbrev pub IsPlain : ℕ → Type 0
IsPlain c = (0 < c) × (c < 127)

abbrev pub IsPlainPart : Part → Type 0
IsPlainPart p =
    IsPlain p.c0
    × IsPlain p.c1
    × IsPlain p.c2
    × IsPlain p.c3
    × IsPlain p.c4
    × IsPlain p.c5
    × IsPlain p.c6
    × IsPlain p.c7
    × IsPlain p.c8
    × IsPlain p.c9
    × IsPlain p.c10
    × IsPlain p.c11
    × IsPlain p.c12

plain_char : (c : ℕ) → IsPlain c → ucs2_to_ascii (c + 256 * 0) ≡ c
unfolding ucs2_to_ascii
plain_char c h = ground arith

pub lfn_chars-long_row :
    (b k : ℕ) (p : Part) (more : List ℕ)
    → IsPlainPart p
    → lfn_chars (long_row b k p ++ more) ≡ chars p
unfolding lfn_chars
lfn_chars-long_row b k p more h =
    rw
      (
        plain_char p.c0 h.0,
        plain_char p.c1 h.1,
        plain_char p.c2 h.2,
        plain_char p.c3 h.3,
        plain_char p.c4 h.4,
        plain_char p.c5 h.5,
        plain_char p.c6 h.6,
        plain_char p.c7 h.7,
        plain_char p.c8 h.8,
        plain_char p.c9 h.9,
        plain_char p.c10 h.10,
        plain_char p.c11 h.11,
        plain_char p.c12 h.12,
      )
      refl

pub c_string-chars :
    (p : Part) (xs : List ℕ) → IsPlainPart p → c_string (chars p ++ xs) ≡ chars p ++ c_string xs
unfolding c_string
c_string-chars p xs h =
    rw
      (
        ne→== p.c0 0 (omega (arith, h.0)),
        ne→== p.c1 0 (omega (arith, h.1)),
        ne→== p.c2 0 (omega (arith, h.2)),
        ne→== p.c3 0 (omega (arith, h.3)),
        ne→== p.c4 0 (omega (arith, h.4)),
        ne→== p.c5 0 (omega (arith, h.5)),
        ne→== p.c6 0 (omega (arith, h.6)),
        ne→== p.c7 0 (omega (arith, h.7)),
        ne→== p.c8 0 (omega (arith, h.8)),
        ne→== p.c9 0 (omega (arith, h.9)),
        ne→== p.c10 0 (omega (arith, h.10)),
        ne→== p.c11 0 (omega (arith, h.11)),
        ne→== p.c12 0 (omega (arith, h.12)),
      )
      refl

pub c_string-cut : (f : List ℕ) (i : ℕ) → i < length f → c_string (drop i (set f i 0)) ≡ []
unfolding c_string
c_string-cut [] i h = absurd (omega arith)
c_string-cut (x ∷ f) zero h = refl
c_string-cut (x ∷ f) (suc i) h = c_string-cut f i (omega arith)

-- The name with the part at place `s`.
abbrev pub with_part : (s : ℕ) (f : List ℕ) → Part → List ℕ
with_part s f p = take s f ++ strncpy (drop s f) (chars p) 13

strncpy-part :
    (f : List ℕ) (p : Part) → 13 ≤ length f → strncpy f (chars p) 13 ≡ chars p ++ drop 13 f
strncpy-part f p h = strncpy_lem f (chars p) 13 h

-- From place `s` on, the name is the part and what stood behind it.
pub part_added :
    (s : ℕ) (f : List ℕ) (p : Part)
    → s + 13 ≤ length f
    → IsPlainPart p
    → (c_string (drop s (with_part s f p)) ≡ chars p ++ c_string (drop (s + 13) f))
      × (length (with_part s f p) ≡ length f)
part_added s f p room plain =
    let copied : strncpy (drop s f) (chars p) 13 ≡ chars p ++ drop 13 (drop s f) =
      strncpy-part (drop s f) p (omega (arith, length-drop s f)) in
    rw
      (copied, drop-take_append s f (chars p ++ drop 13 (drop s f)) (omega arith), drop-drop s 13 f)
      (
        c_string-chars p (drop (s + 13) f) plain,
        omega (
          arith,
          length-append (take s f) (chars p ++ drop (s + 13) f),
          length-take s f (omega arith),
          length-drop (s + 13) f,
        ),
      )

-- The two kinds of first byte: the number of the part, and the flag 0x40 on the last part.
module _ (k : ℕ) (small : k < 64) where
  pub number : bit_and k 0x3F ≡ k
  number = bit_and_mask 6 k ∙ omega arith

  pub number_flagged : bit_and (64 + k) 0x3F ≡ k
  number_flagged = bit_and_mask 6 (64 + k) ∙ omega arith

  pub unflagged : bit_and k 0x40 ≡ 0
  unflagged =
      let split = bit_and_split 6 0 k 1 0 (omega arith) (omega arith) in
      let whole : 0 * 2 ^ 6 + k ≡ k = omega arith in
      let sum : bit_and k 64 ≡ bit_and 0 1 * 2 ^ 6 + bit_and k 0 = rw whole at split in
      omega (arith, sum, bit_and-zero k)

  pub flagged : bit_and (64 + k) 0x40 ≡ 64
  flagged =
      let split = bit_and_split 6 1 k 1 0 (omega arith) (omega arith) in
      omega (arith, split, bit_and-zero k)
