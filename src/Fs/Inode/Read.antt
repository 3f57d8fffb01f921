-- ===== src/Fs/Inode/Read.antt =====
-- `inode_read` of source/fs/inode.c hands out a file piece by piece.
use raspberry_pi_os.Base.{
  ℕ, ◌+◌, ◌-◌, ◌^◌, ◌≤◌, ◌<◌, ◌≡◌, refl, arith, false, take, drop, min, ◌==◌, if◌then◌else◌,
}
use raspberry_pi_os.Fs.Inode.{
  Inode, Store, write_inode, inode_is_new, fetch_if_new, readable, plus_int, inode_read,
}

-- The size of the next piece: what was asked for, or with 0 everything, as far as there is more.
abbrev pub piece : Inode → (n : ℕ) → ℕ
piece i n = let left = i.data_size - i.seek_address in if n == 0 then left else min n left

readable_lem :
    (i : Inode) (n : ℕ)
    → i.seek_address ≤ i.data_size
    → i.data_size < 2 ^ 31
    → readable i n ≡ piece i n
unfolding readable
readable_lem i n within small = ground arith

plus_int_lem : (a k : ℕ) → a + k < 2 ^ 31 → plus_int a k ≡ a + k
plus_int_lem a k small = ground arith

-- A read of a file that has been fetched, of less than 2 GiB, returns the next bytes, and how many they
-- are, and moves on behind them, never past the end. Asked for 0 bytes it returns all that is left.
pub inode_read_lem :
    (fetch_data push_data : Store → ℕ → ℕ × Store) (s : Store) (node n : ℕ)
    → inode_is_new (s node) ≡ false
    → (s node).seek_address ≤ (s node).data_size
    → (s node).data_size < 2 ^ 31
    → let i = s node in
      let k = piece i n in
      (inode_read fetch_data push_data s node n ≡ (
        k,
        take k (drop i.seek_address i.contents),
        write_inode s node (record i { seek_address = i.seek_address + k }),
      ))
      × (i.seek_address + k ≤ i.data_size)
unfolding inode_read fetch_if_new
inode_read_lem fetch_data push_data s node n fetched within small =
    let inside : (s node).seek_address + piece (s node) n ≤ (s node).data_size = ground arith in
    (
      rw
          (
            fetched,
            readable_lem (s node) n within small,
            plus_int_lem (s node).seek_address (piece (s node) n) (omega arith),
          )
          refl,
      inside,
    )
