-- ===== src/Fs/Fat32.antt =====
-- source/fs/fat32.c: the layout of a FAT32 partition and how its files are read. `dev` is the block
-- device and `s` its state. `kmalloc`, whose result the code does not test, is taken to succeed, and the
-- calls of `free` and `print` are left out.
pub mod Entry
pub mod Chain
pub mod Directory
use raspberry_pi_os.Base.{
  ℕ, zero, suc, ◌+◌, ◌-◌, ◌*◌, ◌/◌, ◌%◌, ◌^◌, Bool, true, false, ◌&&◌, not, Option, none, some,
  List, [], ◌∷◌, ◌++◌, set, drop, replicate, ltb, leb, ◌==◌, if◌then◌else◌, bit_and,
}
use raspberry_pi_os.Text.Number.{c_string}
use raspberry_pi_os.Text.Strings.{strncpy}
use raspberry_pi_os.Fs.Block.{BlockDev, read_blk, read_nblk, seek_blk}
use raspberry_pi_os.Fs.Bytes.{u8_at, u16_at, u32_at}

pub record BiosParameterBlock : Type 0 where
  pub bytes_per_sector : ℕ
  pub sectors_per_cluster : ℕ
  pub nr_reserved_sectors : ℕ
  pub nr_file_allocation_tables : ℕ
  pub nr_root_dir_entry : ℕ
  pub fat16_sectors_per_fat : ℕ
  pub sectors_per_fat : ℕ
  pub nr_fat16_sectors : ℕ
  pub nr_sectors : ℕ
  pub root_cluster : ℕ
  pub volume_label : List ℕ

pub record Fat32Disk : Type 0 where
  pub bpb : BiosParameterBlock
  pub fat_entries : ℕ
  pub data_sector : ℕ
  pub bytes_per_cluster : ℕ
  pub sectors : ℕ
  pub fat : List ℕ

abbrev bpb_global_off : ℕ
bpb_global_off = 0x0B

-- The fields, at their offsets in the first block.
unfoldable pub parse_bpb : (blk_buff : List ℕ) → BiosParameterBlock
parse_bpb b = record {
  bytes_per_sector = u16_at b (bpb_global_off + 0x00);
  sectors_per_cluster = u8_at b (bpb_global_off + 0x02);
  nr_reserved_sectors = u16_at b (bpb_global_off + 0x03);
  nr_file_allocation_tables = u8_at b (bpb_global_off + 0x05);
  nr_root_dir_entry = u16_at b (bpb_global_off + 0x06);
  fat16_sectors_per_fat = u16_at b (bpb_global_off + 0x0B);
  sectors_per_fat = u16_at b (bpb_global_off + 0x19);
  nr_fat16_sectors = u16_at b (bpb_global_off + 0x08);
  nr_sectors = u32_at b (bpb_global_off + 0x15);
  root_cluster = u32_at b (bpb_global_off + 0x21);
  volume_label = set (strncpy (replicate 11 0) (c_string (drop (bpb_global_off + 0x47) b)) 11) 10 0;
}

unfoldable pub fat32_check_valid : BiosParameterBlock → Bool
fat32_check_valid bpb =
    if not (bpb.bytes_per_sector == 512)
    then false
    else if (bpb.nr_fat16_sectors == 0) && (bpb.nr_sectors == 0)
    then false
    else bpb.fat16_sectors_per_fat == 0

-- The numbers that `init_fat32_disk` derives, in 32-bit words.
unfoldable pub disk_of : BiosParameterBlock → Fat32Disk
disk_of bpb = record {
  bpb = bpb;
  fat_entries = bpb.sectors_per_fat * bpb.bytes_per_sector / 4 % 2 ^ 32;
  data_sector =
      (bpb.nr_reserved_sectors + bpb.nr_file_allocation_tables * bpb.sectors_per_fat) % 2 ^ 32;
  bytes_per_cluster = bpb.sectors_per_cluster * bpb.bytes_per_sector % 2 ^ 32;
  sectors = if bpb.nr_sectors == 0 then bpb.nr_fat16_sectors else bpb.nr_sectors;
  fat = [];
}

-- Is this entry of the table an end of chain?
unfoldable pub is_end_of_chain : ℕ → Bool
is_end_of_chain cluster = bit_and cluster 0x0FFFFFF8 == 0x0FFFFFF8

module _ {State : Type 0} (dev : BlockDev State) where
  unfoldable pub read_fat32_bpb : State → Option BiosParameterBlock × State
  read_fat32_bpb s =
      let (code, blk_buff, s') = read_blk dev s in
      if not (code == 1)
      then (none, s')
      else if not (u16_at blk_buff 0x1FE == 0xAA55)
      then (none, s')
      else (some (parse_bpb blk_buff), s')

  -- The inner loop: the words of a block, up to the size of the table; `true` when that is reached.
  unfoldable pub read_words :
      (rounds : ℕ) (fat_entries : ℕ) (blk_buff : List ℕ) (i read_entries : ℕ) → List ℕ × ℕ × Bool
  read_words zero fat_entries blk_buff i read_entries = ([], read_entries, false)
  read_words (suc rounds) fat_entries blk_buff i read_entries =
      let word = u32_at blk_buff (i * 4) in
      let (words, count, done) =
        read_words rounds fat_entries blk_buff (i + 1) (read_entries + 1) in
      if leb fat_entries (read_entries + 1)
      then (word ∷ [], read_entries + 1, true)
      else (word ∷ words, count, done)

  pub data FatLoad : Type 0 where
    fat_loaded : (fat : List ℕ) → State → FatLoad
    fat_failed : State → FatLoad
    fat_no_fuel : FatLoad

  -- The outer loop, with the number of rounds left: `fat` holds the entries that have been read.
  unfoldable pub read_fat_blocks :
      (fuel : ℕ) (fat_entries : ℕ) (fat : List ℕ) (read_entries : ℕ) → State → FatLoad
  unfolding read_words
  read_fat_blocks zero fat_entries fat read_entries s = fat_no_fuel
  read_fat_blocks (suc fuel) fat_entries fat read_entries s =
      let (code, blk_buff, s') = read_blk dev s in
      let (words, count, done) =
        read_words (dev.block_size / 4) fat_entries blk_buff 0 read_entries in
      let rest = read_fat_blocks fuel fat_entries (fat ++ words) count s' in
      if not (code == 1) then fat_failed s' else if done then fat_loaded (fat ++ words) s' else rest

  unfoldable pub fat32_load_fat : (fuel : ℕ) → Fat32Disk → State → FatLoad
  fat32_load_fat fuel part s =
      let fat_start = part.bpb.nr_reserved_sectors * part.bpb.bytes_per_sector in
      let (code, s') = seek_blk dev s (fat_start / dev.block_size) in
      if code == 0 then read_fat_blocks fuel part.fat_entries [] 0 s' else fat_failed s'

  -- `n` is the number of bytes at most, or 0 for a block. The result is the bytes, if both calls
  -- succeed; the device may have changed the buffer nonetheless.
  unfoldable pub fat32_load_cluster :
      Fat32Disk → (n cluster_index : ℕ) → State → Option (List ℕ) × State
  fat32_load_cluster partition n cluster_index s =
      let blk =
        (partition.data_sector + (cluster_index + 2 ^ 32 - 2) * partition.bpb.sectors_per_cluster)
        % 2 ^ 32 in
      let (sought, s1) =
        seek_blk dev s (blk * partition.bpb.bytes_per_sector % 2 ^ 32 / dev.block_size) in
      let (code, bytes, s2) = if n == 0 then read_blk dev s1 else read_nblk dev s1 n in
      if not (sought == 0)
      then (none, s1)
      else if not (code == 1)
      then (none, s2)
      else (some bytes, s2)
