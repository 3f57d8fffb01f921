-- ===== src/Fs/Fat32/Entry/LongNames.antt =====
-- Entries with a long name in the directories of source/fs/fat32.c: the rows come last part first, and
-- the short row that ends the entry says what the file is.
use raspberry_pi_os.Base.{
  ℕ, ◌+◌, ◌-◌, ◌*◌, ◌≤◌, ◌<◌, ◌≡◌, refl, sym, ap, ◌∙◌, arith, List, [], ◌++◌, set, le→ltb, eq→==,
  ne→==,
}
use mathlib.Core.List.{append-nil}
use raspberry_pi_os.Text.Number.{c_string}
use raspberry_pi_os.Fs.Fat32.Entry.{
  DirectoryInode, lfn_chars, parse_long_row, parse_directory_entry,
}
use raspberry_pi_os.Fs.Fat32.Entry.Names.{
  Part, chars, long_row, IsPlainPart, lfn_chars-long_row, c_string-chars, with_part, number,
  number_flagged, unflagged, flagged,
}

abbrev pub with_filename : DirectoryInode → List ℕ → DirectoryInode
with_filename r f = record r { filename = f }

part_read :
    (b k : ℕ) (p : Part) (more : List ℕ)
    → IsPlainPart p
    → c_string (lfn_chars (long_row b k p ++ more)) ≡ chars p
unfolding c_string
part_read b k p more plain =
    ap c_string (lfn_chars-long_row b k p more plain)
    ∙ ap c_string (sym (append-nil (chars p)))
    ∙ c_string-chars p [] plain
    ∙ append-nil (chars p)

-- A row in the middle of a name is taken when its number is the next lower one.
pub middle_row :
    (r : DirectoryInode) (k checksum : ℕ) (p : Part) (more : List ℕ)
    → (0 < k) × (k ≤ 18)
    → IsPlainPart p
    → parse_directory_entry r (long_row k checksum p ++ more) (k + 1)
      ≡ (k, with_filename r (with_part ((k - 1) * 13) r.filename p))
unfolding parse_directory_entry parse_long_row
middle_row r k checksum p more range plain =
    rw
      (
        ne→== k 0x00 (omega (arith, range)),
        ne→== k 0xE5 (omega (arith, range)),
        number k (omega (arith, range)),
        unflagged k (omega (arith, range)),
        le→ltb 18 k range.1,
        eq→== (k + 1) (k + 1) refl,
        ne→== k 0 (omega (arith, range)),
        part_read k checksum p more plain,
      )
      refl

-- The last part of a name comes first. It ends the name behind itself.
pub first_row :
    (r : DirectoryInode) (k checksum prev_index : ℕ) (p : Part) (more : List ℕ)
    → (0 < k) × (k ≤ 18)
    → IsPlainPart p
    → parse_directory_entry r (long_row (64 + k) checksum p ++ more) prev_index
      ≡ (k, with_filename r (with_part ((k - 1) * 13) (set r.filename (k * 13) 0) p))
unfolding parse_directory_entry parse_long_row
first_row r k checksum prev_index p more range plain =
    rw
      (
        ne→== (64 + k) 0x00 (omega (arith, range)),
        ne→== (64 + k) 0xE5 (omega (arith, range)),
        number_flagged k (omega (arith, range)),
        flagged k (omega (arith, range)),
        le→ltb 18 k range.1,
        ne→== k 0 (omega (arith, range)),
        part_read (64 + k) checksum p more plain,
      )
      refl
