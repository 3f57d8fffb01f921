-- ===== src/Fs/Fat32/Directory/LongEntries.antt =====
-- Files with long names, as `fat32_inode_read_directory` of source/fs/fat32.c finds them.
use raspberry_pi_os.Base.{
  ℕ, suc, ◌+◌, ◌-◌, ◌*◌, ◌^◌, ◌≤◌, ◌<◌, ◌≡◌, ◌≢◌, refl, ap, ◌∙◌, arith, List, [], ◌∷◌, ◌++◌, length,
  drop, set, length-set, ◌==◌, if◌then◌else◌, ne→==, bit_and, bit_or,
}
use mathlib.Core.List.{append_assoc}
use raspberry_pi_os.Text.Number.{c_string}
use raspberry_pi_os.Fs.Bytes.{u8_at, u16_at, u32_at}
use raspberry_pi_os.Fs.Fat32.Entry.{
  DirectoryInode, parse_directory_entry, parse_short_row, inode_type_dir, inode_type_file,
}
use raspberry_pi_os.Fs.Fat32.Entry.Names.{
  Part, chars, long_row, IsPlainPart, c_string-cut, with_part, part_added,
}
use raspberry_pi_os.Fs.Fat32.Entry.LongNames.{with_filename, middle_row, first_row}
use raspberry_pi_os.Fs.Fat32.Directory.{Rows, read_rows, new_child}

-- The rows of the parts from number `k` on, the last part first and marked with 0x40.
abbrev pub long_rows : (k checksum : ℕ) → List Part → List ℕ
long_rows k checksum [] = []
long_rows k checksum (p ∷ []) = long_row (64 + k) checksum p
long_rows k checksum (p ∷ q ∷ ps) = long_rows (k + 1) checksum (q ∷ ps) ++ long_row k checksum p

abbrev pub text : List Part → List ℕ
text [] = []
text (p ∷ ps) = chars p ++ text ps

abbrev pub ArePlain : List Part → Type 0
ArePlain [] = Unit {0}
ArePlain (p ∷ ps) = IsPlainPart p × ArePlain ps

partial_row :
    (m : ℕ) (mem : List ℕ) (r r' : DirectoryInode) (k prev_index : ℕ)
    (children : List DirectoryInode)
    → (0 < k) × (k ≤ 18)
    → parse_directory_entry r mem prev_index ≡ (k, r')
    → read_rows (suc m) mem r prev_index children ≡ read_rows m (drop 32 mem) r' k children
unfolding read_rows
partial_row m mem r r' k prev_index children range parsed =
    rw
      (
        parsed,
        ne→== k 0 (omega (arith, range)),
        ne→== k 0xFF (omega (arith, range)),
        ne→== k 0xFE (omega (arith, range)),
      )
      refl

-- The rows of a name have been read: the name stands in the inode from the place of part `k` on.
record Named (m k : ℕ) (rest : List ℕ) (r : DirectoryInode) (ps : List Part)
    (children : List DirectoryInode) (rows : Rows) : Type 0 where
  filename : List ℕ
  whole : length filename ≡ 256
  named : c_string (drop ((k - 1) * 13) filename) ≡ text ps
  read : rows ≡ read_rows m rest (with_filename r filename) k children

long_rows-Named :
    (ps : List Part) (m k checksum prev_index : ℕ) (rest : List ℕ) (r : DirectoryInode)
    (children : List DirectoryInode)
    → 0 < length ps
    → (0 < k) × (k + length ps ≤ 19)
    → ArePlain ps
    → length r.filename ≡ 256
    → Named m k rest r ps children
        (read_rows (length ps + m) (long_rows k checksum ps ++ rest) r prev_index children)
long_rows-Named [] m k checksum prev_index rest r children some_parts range plain whole =
    absurd (omega arith)
long_rows-Named (p ∷ []) m k checksum prev_index rest r children some_parts range plain whole =
    let cut = set r.filename (k * 13) 0 in
    let same : length cut ≡ 256 = length-set r.filename (k * 13) 0 ∙ whole in
    let behind : (k - 1) * 13 + 13 ≡ k * 13 = omega (arith, range) in
    let (name, kept) = part_added ((k - 1) * 13) cut p (omega (arith, range)) plain.0 in
    let one : 1 + m ≡ suc m = omega arith in
    record {
      filename = with_part ((k - 1) * 13) cut p;
      whole = kept ∙ same;
      named =
          name
          ∙ ap (λ n. chars p ++ c_string (drop n cut)) behind
          ∙ ap (λ t. chars p ++ t) (c_string-cut r.filename (k * 13) (omega (arith, range)));
      read =
          ap (λ n. read_rows n (long_rows k checksum (p ∷ []) ++ rest) r prev_index children) one
          ∙ partial_row m (long_row (64 + k) checksum p ++ rest) r
              (with_filename r (with_part ((k - 1) * 13) cut p)) k prev_index children
              (omega (arith, range))
              (first_row r k checksum prev_index p rest (omega (arith, range)) plain.0);
    }
long_rows-Named (p ∷ q ∷ ps) m k checksum prev_index rest r children some_parts range plain whole =
    let later =
      long_rows-Named (q ∷ ps) (suc m) (k + 1) checksum prev_index (long_row k checksum p ++ rest) r
        children (omega arith) (omega (arith, range)) plain.1 whole in
    let f = later.filename in
    let place : k + 1 - 1 ≡ k = omega arith in
    let behind : (k - 1) * 13 + 13 ≡ (k + 1 - 1) * 13 = omega (arith, range) in
    let (name, kept) = part_added ((k - 1) * 13) f p (omega (arith, range, later.whole)) plain.0 in
    let rounds : length (p ∷ q ∷ ps) + m ≡ length (q ∷ ps) + suc m = omega arith in
    record {
      filename = with_part ((k - 1) * 13) f p;
      whole = kept ∙ later.whole;
      named =
          name
          ∙ ap (λ n. chars p ++ c_string (drop n f)) behind
          ∙ ap (λ t. chars p ++ t) later.named;
      read =
          ap (λ n. read_rows n (long_rows k checksum (p ∷ q ∷ ps) ++ rest) r prev_index children)
            rounds
          ∙ ap (λ l. read_rows (length (q ∷ ps) + suc m) l r prev_index children)
              (append_assoc (long_rows (k + 1) checksum (q ∷ ps)) (long_row k checksum p) rest)
          ∙ later.read
          ∙ partial_row m (long_row k checksum p ++ rest) (with_filename r f)
              (with_filename r (with_part ((k - 1) * 13) f p)) k (k + 1) children
              (omega (arith, range))
              (middle_row (with_filename r f) k checksum p rest (omega (arith, range)) plain.0);
    }

-- What the row that ends an entry says of the file.
abbrev pub Says : List ℕ → DirectoryInode → Type 0
Says row child =
    (child.data_size ≡ u32_at row 28)
    × (child.cluster ≡ bit_or (u16_at row 26) (u16_at row 20 * 2 ^ 16))
    × (child.state
        ≡ bit_or 1 (if bit_and (u8_at row 11) 0x10 == 0 then inode_type_file else inode_type_dir))

-- The row that completes a child.
last_row :
    (m : ℕ) (r : DirectoryInode) (row : List ℕ) (prev_index : ℕ) (children : List DirectoryInode)
    → (u8_at row 0 ≢ 0x00) × (u8_at row 0 ≢ 0xE5) × (bit_and (u8_at row 11) 0x0F ≢ 0x0F)
    → read_rows (suc m) row r prev_index children
      ≡ read_rows m (drop 32 row) new_child 0 ((parse_short_row r row prev_index).1 ∷ children)
unfolding read_rows parse_directory_entry parse_short_row
last_row m r row prev_index children (used, kept, short) =
    rw (ne→== (u8_at row 0) 0x00 used, ne→== (u8_at row 0) 0xE5 kept, ne→== _ 0x0F short) refl

-- A file with a name of up to 18 parts of 13 plain characters is found: from the rows of the name and
-- the row that ends the entry, the child with this name, and the size, cluster and type that the last
-- row says, is put in front of the children, and the reading goes on behind.
pub read_rows-long_rows :
    (ps : List Part) (m checksum : ℕ) (row : List ℕ) (children : List DirectoryInode)
    → 0 < length ps
    → length ps ≤ 18
    → ArePlain ps
    → (u8_at row 0 ≢ 0x00) × (u8_at row 0 ≢ 0xE5) × (bit_and (u8_at row 11) 0x0F ≢ 0x0F)
    → (child : DirectoryInode) × (read_rows
          (length ps + suc m)
          (long_rows 1 checksum ps ++ row)
          new_child
          0
          children
        ≡ read_rows m (drop 32 row) new_child 0 (child ∷ children))
      × (c_string child.filename ≡ text ps)
      × Says row child
unfolding parse_short_row
read_rows-long_rows ps m checksum row children some_parts few plain (used, kept, short) =
    let done =
      long_rows-Named ps (suc m) 1 checksum 0 row new_child children some_parts (omega arith) plain
        refl in
    let child = (parse_short_row (with_filename new_child done.filename) row 1).1 in
    (
      child,
      done.read
          ∙ last_row m (with_filename new_child done.filename) row 1 children (used, kept, short),
      done.named,
      (refl, refl, refl),
    )
