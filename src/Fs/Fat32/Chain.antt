-- ===== src/Fs/Fat32/Chain.antt =====
-- `fat32_load_cluster_chain` and the part of `fat32_inode_fetch_data` of source/fs/fat32.c that reads a
-- file.
pub mod Content
use raspberry_pi_os.Base.{
  ℕ, zero, suc, ◌+◌, ◌-◌, ◌%◌, ◌^◌, Bool, true, false, not, Option, none, some, List, [], ◌∷◌,
  get_or, ltb, ◌==◌, if◌then◌else◌, bit_and, bit_or,
}
use raspberry_pi_os.Fs.Block.{BlockDev}
use raspberry_pi_os.Fs.Bytes.{write_at}
use raspberry_pi_os.Fs.Fat32.{Fat32Disk, fat32_load_cluster, is_end_of_chain}

abbrev pub inode_state_mask : ℕ
inode_state_mask = 0x0F

abbrev pub inode_state_new : ℕ
inode_state_new = 0x01

abbrev pub inode_state_valid : ℕ
inode_state_valid = 0x02

-- `(state & ~INODE_STATE_MASK) | new_state` of a byte.
abbrev pub with_state : (state new_state : ℕ) → ℕ
with_state state new_state = bit_or (bit_and state (2 ^ 8 - 1 - inode_state_mask)) new_state

-- `file_data` is `data`, the memory that holds the file, once there is some.
pub record FileInode : Type 0 where
  pub state : ℕ
  pub data_size : ℕ
  pub file_data : Option (List ℕ)
  pub cluster : ℕ

module _ {State : Type 0} (dev : BlockDev State) (partition : Fat32Disk) where
  pub data ChainLoad : Type 0 where
    chain_read : (bytes_read : ℕ) (buffer : List ℕ) → State → ChainLoad
    chain_no_fuel : ChainLoad

  unfoldable pub after_cluster :
      (buffer : List ℕ) → Option (List ℕ) × State → (List ℕ → State → ChainLoad) → ChainLoad
  after_cluster buffer (none, s) continue = chain_read 0 buffer s
  after_cluster buffer (some bytes, s) continue = continue bytes s

  -- The loop, with the number of rounds left. An entry outside of the table is read as 0.
  unfoldable pub chain_loop :
      (fuel : ℕ) (buffer : List ℕ) (buffer_size bytes_read current_cluster : ℕ) → State → ChainLoad
  unfolding after_cluster
  chain_loop zero buffer buffer_size bytes_read current_cluster s = chain_no_fuel
  chain_loop (suc fuel) buffer buffer_size bytes_read current_cluster s =
      let next = get_or partition.fat current_cluster 0 in
      let count = (bytes_read + partition.bytes_per_cluster) % 2 ^ 32 in
      let body =
        after_cluster buffer
          (fat32_load_cluster dev partition (buffer_size - bytes_read) current_cluster s)
          (λ bytes s'.
            let filled = write_at buffer bytes_read bytes in
            let rest = chain_loop fuel filled buffer_size count next s' in
            if is_end_of_chain next then chain_read count filled s' else rest) in
      if ltb bytes_read buffer_size then body else chain_read bytes_read buffer s

  unfoldable pub fat32_load_cluster_chain :
      (fuel : ℕ) (buffer : List ℕ) (buffer_size cluster_index : ℕ) → State → ChainLoad
  unfolding chain_loop
  fat32_load_cluster_chain fuel buffer buffer_size cluster_index s =
      chain_loop fuel buffer buffer_size 0 cluster_index s

  pub data FileFetch : Type 0 where
    fetched : (code : ℕ) → FileInode → State → FileFetch
    fetch_no_fuel : FileFetch

  -- What follows the reading: the file is valid, or its memory is given back.
  unfoldable pub after_chain : FileInode → ChainLoad → FileFetch
  after_chain n chain_no_fuel = fetch_no_fuel
  after_chain n (chain_read bytes_loaded buffer s) =
      if ltb bytes_loaded n.data_size
      then fetched 1 (record n { file_data = none; state = with_state n.state inode_state_new }) s
      else fetched 0
          (record n { file_data = some buffer; state = with_state n.state inode_state_valid }) s

  -- With the memory of the file, or else with what `vmalloc` returns.
  unfoldable pub fetch_into : (fuel : ℕ) → FileInode → Option (List ℕ) → State → FileFetch
  unfolding after_chain
  fetch_into fuel n none s = fetched 1 n s
  fetch_into fuel n (some buffer) s =
      after_chain n (fat32_load_cluster_chain fuel buffer n.data_size n.cluster s)

  abbrev pub memory_for : Option (List ℕ) → (vmalloc : Option (List ℕ)) → Option (List ℕ)
  memory_for (some buffer) vmalloc = some buffer
  memory_for none vmalloc = vmalloc

  -- `fat32_inode_fetch_data` for an inode of type file.
  unfoldable pub fetch_file : (fuel : ℕ) (vmalloc : Option (List ℕ)) → FileInode → State → FileFetch
  unfolding fetch_into
  fetch_file fuel vmalloc n s = fetch_into fuel n (memory_for n.file_data vmalloc) s
