-- ===== src/Fs/Fat32/Entry.antt =====
-- `parse_directory_entry` of source/fs/fat32.c: a row of 32 bytes adds what it says to an inode.
pub mod Names
pub mod LongNames
use raspberry_pi_os.Base.{
  ℕ, zero, suc, ◌+◌, ◌-◌, ◌*◌, ◌%◌, ◌^◌, Bool, true, false, ◌&&◌, ◌||◌, not, List, [], ◌∷◌, ◌++◌,
  map, set, take, drop, replicate, ltb, ◌==◌, if◌then◌else◌, bit_and, bit_or,
}
use raspberry_pi_os.Text.Number.{c_string}
use raspberry_pi_os.Text.Strings.{strncpy}
use raspberry_pi_os.Fs.Bytes.{u8_at, u16_at, u32_at, write_from}

-- What a row changes of an inode; `filename` holds 256 characters, and `cluster` is that of `fs_data`.
pub record DirectoryInode : Type 0 where
  pub state : ℕ
  pub filename : List ℕ
  pub data_size : ℕ
  pub cluster : ℕ

abbrev pub inode_type_file : ℕ
inode_type_file = 0x10

abbrev pub inode_type_dir : ℕ
inode_type_dir = 0x20

unfoldable pub ucs2_to_ascii : ℕ → ℕ
ucs2_to_ascii ucs_byte = if ltb ucs_byte 127 then ucs_byte else 63

-- Where the 13 characters of a long name stand in a row.
abbrev pub lfn_offsets : List ℕ
lfn_offsets = 1 ∷ 3 ∷ 5 ∷ 7 ∷ 9 ∷ 14 ∷ 16 ∷ 18 ∷ 20 ∷ 22 ∷ 24 ∷ 28 ∷ 30 ∷ []

unfoldable pub lfn_chars : (entry_row : List ℕ) → List ℕ
lfn_chars entry_row = map (λ o. ucs2_to_ascii (u16_at entry_row o)) lfn_offsets

-- A row with a part of a long name: the number of the part and the inode, or 0xFF.
unfoldable pub parse_long_row :
    DirectoryInode → (entry_row : List ℕ) (prev_index : ℕ) → ℕ × DirectoryInode
unfolding lfn_chars
parse_long_row result entry_row prev_index =
    let first_byte = u8_at entry_row 0 in
    let index = bit_and first_byte 0x3F in
    let is_first = not (bit_and first_byte 0x40 == 0) in
    let filename = if is_first then set result.filename (index * 13) 0 else result.filename in
    let start = (index - 1) * 13 in
    let named =
      take start filename ++ strncpy (drop start filename) (c_string (lfn_chars entry_row)) 13 in
    if ltb 18 index || index == 0
    then (0xFF, result)
    else if not is_first && not (index + 1 == prev_index)
    then (0xFF, result)
    else (index, record result { filename = named })

-- The loops over the name of up to eight characters and over the extension of up to three.
unfoldable pub padded_chars : (rounds : ℕ) (entry_row : List ℕ) (i : ℕ) → List ℕ
padded_chars zero entry_row i = []
padded_chars (suc rounds) entry_row i =
    let c = u8_at entry_row i in
    let rest = padded_chars rounds entry_row (i + 1) in if c == 0x20 then [] else c ∷ rest

unfoldable pub short_name : (entry_row : List ℕ) → List ℕ
unfolding padded_chars
short_name entry_row =
    let dot = if u8_at entry_row 8 == 0x20 then [] else 46 ∷ [] in
    padded_chars 8 entry_row 0 ++ (dot ++ padded_chars 3 entry_row 8)

-- The row that completes the entry.
unfoldable pub parse_short_row :
    DirectoryInode → (entry_row : List ℕ) (prev_index : ℕ) → ℕ × DirectoryInode
unfolding short_name
parse_short_row result entry_row prev_index = (
  0,
  record {
    state =
        bit_or result.state
          (if bit_and (u8_at entry_row 11) 0x10 == 0 then inode_type_file else inode_type_dir);
    filename =
        if prev_index == 0
        then write_from result.filename (short_name entry_row ++ (0 ∷ []))
        else result.filename;
    data_size = u32_at entry_row 28;
    cluster = bit_or (u16_at entry_row 26) (u16_at entry_row 20 * 2 ^ 16);
  },
)

unfoldable pub parse_directory_entry :
    DirectoryInode → (entry_row : List ℕ) (prev_index : ℕ) → ℕ × DirectoryInode
unfolding parse_long_row parse_short_row
parse_directory_entry result entry_row prev_index =
    if u8_at entry_row 0 == 0x00 || u8_at entry_row 0 == 0xE5
    then (0xFE, result)
    else if bit_and (u8_at entry_row 11) 0x0F == 0x0F
    then parse_long_row result entry_row prev_index
    else parse_short_row result entry_row prev_index
