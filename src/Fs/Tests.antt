-- ===== src/Fs/Tests.antt =====
-- A disk, its files and a tree of inodes, and the theorems at them.
use raspberry_pi_os.Base.{
  ℕ, ◌+◌, ◌-◌, ◌*◌, ◌/◌, ◌%◌, ◌^◌, ◌≤◌, ◌<◌, ◌≡◌, refl, arith, true, false, none, some, List, [],
  ◌∷◌, ◌++◌, length, take, drop, replicate, ne→==, Bool-cases, inl, inr, ◌==◌, if◌then◌else◌,
}
use raspberry_pi_os.Text.Number.{c_string}
use raspberry_pi_os.Text.Strings.{strcmp, strncmp, strncmp_loop}
use raspberry_pi_os.Fs.Block.{BlockDev, read_nblk, seek_blk}
use raspberry_pi_os.Fs.Fat32.{Fat32Disk, fat32_load_cluster, is_end_of_chain}
use raspberry_pi_os.Fs.Fat32.Entry.{DirectoryInode}
use raspberry_pi_os.Fs.Fat32.Entry.Names.{Part}
use raspberry_pi_os.Fs.Fat32.Directory.{read_rows, new_child}
use raspberry_pi_os.Fs.Fat32.Directory.LongEntries.{
  long_rows, text, ArePlain, Says, read_rows-long_rows,
}
use raspberry_pi_os.Fs.Fat32.Chain.{FileInode, fetch_file}
use raspberry_pi_os.Fs.Fat32.Chain.Content.{
  last, link, HoldsClusters, contents, IsFetched, fetch_file_lem,
}
use raspberry_pi_os.Fs.Inode.{
  Inode, Store, slash, inode_from_path, inode_is_new, inode_read, write_inode,
}
use raspberry_pi_os.Fs.Inode.Lookup.{IsLoaded, ArePeers, join, inode_from_path_lem}
use raspberry_pi_os.Fs.Inode.Read.{inode_read_lem}

-- A device whose block with number `i` holds 512 times the byte `i % 256`; its state is the block that
-- is next.
abbrev block : ℕ → List ℕ
block i = replicate 512 (i % 256)

abbrev blocks : BlockDev ℕ
blocks = record {
  block_size = 512;
  driver_read_blk = some (λ i. (1, block i, i + 1));
  driver_read_nblk = some (λ i n. (1, take n (block i), i + 1));
  driver_read_blks = none;
  driver_write_blk = none;
  driver_write_blks = none;
  driver_seek_blk = some (λ i iblk. (0, iblk));
}

-- One sector for each cluster, and a chain from cluster 3 to cluster 5.
abbrev disk : Fat32Disk
disk = record {
  bpb = record {
    bytes_per_sector = 512;
    sectors_per_cluster = 1;
    nr_reserved_sectors = 32;
    nr_file_allocation_tables = 2;
    nr_root_dir_entry = 0;
    fat16_sectors_per_fat = 0;
    sectors_per_fat = 1;
    nr_fat16_sectors = 0;
    nr_sectors = 1000;
    root_cluster = 2;
    volume_label = [];
  };
  fat_entries = 128;
  data_sector = 34;
  bytes_per_cluster = 512;
  sectors = 1000;
  fat = 0 ∷ 0 ∷ 0x0FFFFFFF ∷ 5 ∷ 0 ∷ 0x0FFFFFF8 ∷ [];
}

abbrev cluster_block : ℕ → ℕ
cluster_block c = (34 + (c + 2 ^ 32 - 2) * 1) % 2 ^ 32 * 512 % 2 ^ 32 / 512

blocks-HoldsClusters : HoldsClusters blocks disk (λ c. block (cluster_block c))
unfolding fat32_load_cluster read_nblk seek_blk
blocks-HoldsClusters = record {
  whole = λ c. refl;
  loads = λ n c s positive. (cluster_block c + 1, rw (ne→== n 0 (omega arith)) refl);
}

abbrev file : FileInode
file = record { state = 0x11; data_size = 600; file_data = none; cluster = 3 }

fetch_file_lem_example :
    IsFetched file
      (contents (λ c. block (cluster_block c)) (3 ∷ 5 ∷ []))
      (fetch_file blocks disk 3 (some (replicate 600 0)) file 0)
unfolding is_end_of_chain
fetch_file_lem_example =
    fetch_file_lem blocks disk (λ c. block (cluster_block c)) blocks-HoldsClusters (omega arith)
      file (3 ∷ 5 ∷ []) (replicate 600 0) 0 refl (omega arith) (omega arith) refl
      (link 3 (5 ∷ []) refl (last 5 refl))

-- The name "abcdefghijklmnopqrstuvwxyz", in two parts.
abbrev part : ℕ → Part
part c = record {
  c0 = c;
  c1 = c + 1;
  c2 = c + 2;
  c3 = c + 3;
  c4 = c + 4;
  c5 = c + 5;
  c6 = c + 6;
  c7 = c + 7;
  c8 = c + 8;
  c9 = c + 9;
  c10 = c + 10;
  c11 = c + 11;
  c12 = c + 12;
}

abbrev alphabet : List Part
alphabet = part 97 ∷ part 110 ∷ []

-- The row of a file of 600 bytes at cluster 3, and an empty row.
abbrev short_row : List ℕ
short_row =
    replicate 11 65 ++ (0x20 ∷ (replicate 14 0 ++ (3 ∷ 0 ∷ 88 ∷ 2 ∷ 0 ∷ 0 ∷ replicate 32 0)))

read_rows-long_rows_example :
    (child : DirectoryInode) × (read_rows
        (2 + 1)
        (long_rows 1 77 alphabet ++ short_row)
        new_child
        0
        []
      ≡ read_rows 0 (drop 32 short_row) new_child 0 (child ∷ []))
    × (c_string child.filename ≡ text alphabet)
    × Says short_row child
read_rows-long_rows_example =
    read_rows-long_rows alphabet 0 77 short_row [] (omega arith) (omega arith) plain
      (omega arith, omega arith, omega arith)
  where
    plain : ArePlain alphabet
    plain = (omega arith, (omega arith, tt))

-- The root 1 has the directory "a" at 2, which has the file "b" at 3.
abbrev an_inode : (child parent state : ℕ) (filename : List ℕ) → Inode
an_inode child parent state filename = record {
  has_fetch_data = true;
  has_push_data = false;
  contents = 10 ∷ 20 ∷ 30 ∷ [];
  seek_address = 1;
  data_size = 3;
  child_nodes = child;
  parent_node = parent;
  peer_nodes = 0;
  state = state;
  filename = filename;
}

abbrev tree : Store
tree n =
    if n == 1
    then an_inode 2 0 0x22 []
    else if n == 2
    then an_inode 3 1 0x22 (97 ∷ [])
    else if n == 3
    then an_inode 0 2 0x12 (98 ∷ [])
    else an_inode 0 0 0x12 []

abbrev children : ℕ → List ℕ
children n = if n == 1 then 2 ∷ [] else if n == 2 then 3 ∷ [] else []

abbrev no_driver : Store → ℕ → ℕ × Store
no_driver s n = (1, s)

tree_not_new : (n : ℕ) → inode_is_new (tree n) ≡ false
unfolding inode_is_new
tree_not_new n = elim (Bool-cases (n == 1)) [
  | inl one ↦ rw one refl
  | inr e1 ↦ elim (Bool-cases (n == 2)) [
    | inl two ↦ rw (e1, two) refl
    | inr e2 ↦ elim (Bool-cases (n == 3)) [
      | inl three ↦ rw (e1, e2, three) refl
      | inr e3 ↦ rw (e1, e2, e3) refl
    ]
  ]
]

tree-ArePeers : (n : ℕ) → ArePeers tree (tree n).child_nodes (children n)
tree-ArePeers n = elim (Bool-cases (n == 1)) [
  | inl one ↦ rw one (refl, omega arith, refl)
  | inr e1 ↦ elim (Bool-cases (n == 2)) [
    | inl two ↦ rw (e1, two) (refl, omega arith, refl)
    | inr e2 ↦ elim (Bool-cases (n == 3)) [
      | inl three ↦ rw (e1, e2, three) refl
      | inr e3 ↦ rw (e1, e2, e3) refl
    ]
  ]
]

few_children : (n : ℕ) → length (children n) < 5
few_children n = elim (Bool-cases (n == 1)) [
  | inl one ↦ rw one (omega arith)
  | inr e1 ↦ elim (Bool-cases (n == 2)) [
    | inl two ↦ rw (e1, two) (omega arith)
    | inr e2 ↦ rw (e1, e2) (omega arith)
  ]
]

tree-IsLoaded : IsLoaded 5 tree children
tree-IsLoaded = record { peers = tree-ArePeers; few = few_children }

inode_from_path_lem_example :
    inode_from_path no_driver no_driver 5 tree 3 (slash ∷ join ((97 ∷ []) ∷ (98 ∷ []) ∷ []))
    ≡ some (3, tree)
unfolding inode_is_new strcmp strncmp strncmp_loop
inode_from_path_lem_example =
    inode_from_path_lem no_driver no_driver 5 tree children tree-IsLoaded 3 2 1 (97 ∷ [])
      ((98 ∷ []) ∷ []) (omega arith, (omega arith, (refl, refl))) (omega arith)
      (
        omega arith,
        (omega arith, omega arith, tt),
        omega arith,
        (omega arith, (omega arith, omega arith, tt), omega arith, tt),
      )
      (omega arith) (refl, (refl, tt))

inode_read_lem_example :
    (inode_read no_driver no_driver tree 3 5
      ≡ (2, 20 ∷ 30 ∷ [], write_inode tree 3 (record (tree 3) { seek_address = 3 })))
    × (3 ≤ 3)
inode_read_lem_example =
    inode_read_lem no_driver no_driver tree 3 5 (tree_not_new 3) (omega arith) (omega arith)
