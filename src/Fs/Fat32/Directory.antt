-- ===== src/Fs/Fat32/Directory.antt =====
-- `fat32_inode_read_directory`, `fat32_inode_fetch_data` and `init_fat32_disk` of source/fs/fat32.c.
-- `mem` is the memory from `blk_buff` on, which the code moves by 32 bytes for each row and never back.
pub mod LongEntries
use raspberry_pi_os.Base.{
  ℕ, zero, suc, ◌+◌, ◌-◌, ◌*◌, ◌/◌, ◌%◌, ◌^◌, Bool, true, false, ◌&&◌, not, Option, none, some,
  List, [], ◌∷◌, ◌++◌, get_or, drop, replicate, ltb, ◌==◌, if◌then◌else◌, bit_and,
}
use raspberry_pi_os.Fs.Block.{BlockDev}
use raspberry_pi_os.Fs.Bytes.{write_from}
use raspberry_pi_os.Fs.Fat32.{
  BiosParameterBlock, Fat32Disk, FatLoad, fat_loaded, fat_failed, fat_no_fuel, disk_of,
  fat32_check_valid, read_fat32_bpb, fat32_load_fat, fat32_load_cluster, is_end_of_chain,
}
use raspberry_pi_os.Fs.Fat32.Entry.{
  DirectoryInode, parse_directory_entry, inode_type_dir, inode_type_file,
}
use raspberry_pi_os.Fs.Fat32.Chain.{
  FileInode, FileFetch, fetched, fetch_no_fuel, fetch_file, with_state, inode_state_valid,
}

-- A new child, as `alloc_inode` gives it.
abbrev pub new_child : DirectoryInode
new_child = record { state = 1; filename = replicate 256 0; data_size = 0; cluster = 0 }

-- The rows of a cluster have been read, and there may be more, or the reading ends.
pub data Rows : Type 0 where
  more_rows :
      (mem : List ℕ) (child : DirectoryInode) (prev_index : ℕ) (children : List DirectoryInode)
      → Rows
  rows_ended : (children : List DirectoryInode) → Rows
  rows_failed : (children : List DirectoryInode) → Rows

-- The loop over the 16 rows; a child that is complete is put in front of the others.
unfoldable pub read_rows :
    (rounds : ℕ) (mem : List ℕ) (child : DirectoryInode) (prev_index : ℕ)
    (children : List DirectoryInode)
    → Rows
read_rows zero mem child prev_index children = more_rows mem child prev_index children
read_rows (suc rounds) mem child prev_index children =
    let (index, parsed) = parse_directory_entry child mem prev_index in
    let complete = read_rows rounds (drop 32 mem) new_child index (parsed ∷ children) in
    let partial = read_rows rounds (drop 32 mem) parsed index children in
    if index == 0
    then complete
    else if index == 0xFF
    then rows_failed children
    else if index == 0xFE
    then rows_ended children
    else partial

module _ {State : Type 0} (dev : BlockDev State) where
  pub data Listing : Type 0 where
    listed : (code : ℕ) (children : List DirectoryInode) → State → Listing
    listing_no_fuel : Listing

  unfoldable pub after_rows :
      Rows → State → (List ℕ → DirectoryInode → ℕ → List DirectoryInode → Listing) → Listing
  after_rows (rows_ended children) s continue = listed 0 children s
  after_rows (rows_failed children) s continue = listed 1 children s
  after_rows (more_rows mem child prev_index children) s continue =
      continue mem child prev_index children

  -- The memory after the load, whose result the code does not look at.
  abbrev pub loaded_into : List ℕ → Option (List ℕ) → List ℕ
  loaded_into mem none = mem
  loaded_into mem (some bytes) = write_from mem bytes

  -- The loop over the clusters, with the number of rounds left.
  unfoldable pub directory_loop :
      (fuel : ℕ)
      → Fat32Disk
      → (n_cluster : ℕ) (mem : List ℕ) (child : DirectoryInode) (prev_index : ℕ)
        (children : List DirectoryInode)
      → State
      → Listing
  unfolding after_rows read_rows
  directory_loop zero partition n_cluster mem child prev_index children s = listing_no_fuel
  directory_loop (suc fuel) partition n_cluster mem child prev_index children s =
      let (loaded, s') = fat32_load_cluster dev partition 0 n_cluster s in
      let next = get_or partition.fat n_cluster 0 in
      after_rows (read_rows 16 (loaded_into mem loaded) child prev_index children) s'
        (λ mem' child' index children'.
          let rest = directory_loop fuel partition next mem' child' index children' s' in
          if is_end_of_chain next then listed 0 children' s' else rest)

  unfoldable pub fat32_inode_read_directory :
      (fuel : ℕ)
      → Fat32Disk
      → (n_cluster : ℕ) (mem : List ℕ) (children : List DirectoryInode) → State
      → Listing
  unfolding directory_loop
  fat32_inode_read_directory fuel partition n_cluster mem children s =
      directory_loop fuel partition n_cluster mem new_child 0 children s

  -- What an inode is fetched to: the children of a directory, or the data of a file.
  pub data Fetch : Type 0 where
    fetched_directory : (code : ℕ) (state : ℕ) (children : List DirectoryInode) → State → Fetch
    fetched_file : (code : ℕ) → FileInode → State → Fetch
    unknown_type : State → Fetch
    no_fuel : Fetch

  unfoldable pub after_listing : (state : ℕ) → Listing → Fetch
  after_listing state listing_no_fuel = no_fuel
  after_listing state (listed code children s) =
      fetched_directory code (if code == 0 then with_state state inode_state_valid else state)
        children s

  unfoldable pub after_file : {partition : Fat32Disk} → FileFetch dev partition → Fetch
  after_file fetch_no_fuel = no_fuel
  after_file (fetched code n s) = fetched_file code n s

  unfoldable pub fat32_inode_fetch_data :
      (fuel : ℕ) (vmalloc : Option (List ℕ)) (mem : List ℕ)
      → Fat32Disk
      → FileInode
      → (children : List DirectoryInode) → State
      → Fetch
  unfolding after_listing after_file fat32_inode_read_directory fetch_file
  fat32_inode_fetch_data fuel vmalloc mem partition n children s =
      if not (bit_and n.state inode_type_dir == 0)
      then after_listing n.state
          (fat32_inode_read_directory fuel partition n.cluster mem children s)
      else if not (bit_and n.state inode_type_file == 0)
      then after_file (fetch_file dev partition fuel vmalloc n s)
      else unknown_type s

  -- The disk, whose root directory is taken to begin at cluster 2.
  pub data Init : Type 0 where
    initialised : Fat32Disk → (root_cluster : ℕ) → State → Init
    init_failure : State → Init
    init_no_fuel : Init

  unfoldable pub after_fat : Fat32Disk → FatLoad dev → Init
  after_fat disk (fat_loaded fat s) = initialised (record disk { fat = fat }) 2 s
  after_fat disk (fat_failed s) = init_failure s
  after_fat disk fat_no_fuel = init_no_fuel

  unfoldable pub init_with : (fuel : ℕ) → Option BiosParameterBlock × State → Init
  unfolding after_fat
  init_with fuel (none, s) = init_failure s
  init_with fuel (some bpb, s) =
      if fat32_check_valid bpb
      then after_fat (disk_of bpb) (fat32_load_fat dev fuel (disk_of bpb) s)
      else init_failure s

  unfoldable pub init_fat32_disk : (fuel : ℕ) → State → Init
  unfolding init_with
  init_fat32_disk fuel s = init_with fuel (read_fat32_bpb dev s)
