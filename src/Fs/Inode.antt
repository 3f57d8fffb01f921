-- ===== src/Fs/Inode.antt =====
-- source/fs/inode.c: the tree of files and directories. An inode is named by its address, 0 for none,
-- and `Store` is the memory of all inodes; a filename is its characters before the zero. The function
-- pointers of `ops` are the parameters `fetch_data` and `push_data`. `print` is left out.
pub mod Lookup
pub mod Read
use raspberry_pi_os.Base.{
  ℕ, zero, suc, ◌+◌, ◌-◌, ◌%◌, ◌^◌, Bool, true, false, ◌&&◌, ◌||◌, not, Option, some, none, List,
  [], ◌∷◌, length, get_or, take, drop, ltb, ◌==◌, if◌then◌else◌, bit_and, bit_or,
}
use raspberry_pi_os.Text.Strings.{strcmp}

pub record Inode : Type 0 where
  pub has_fetch_data : Bool
  pub has_push_data : Bool
  pub contents : List ℕ
  pub seek_address : ℕ
  pub data_size : ℕ
  pub child_nodes : ℕ
  pub parent_node : ℕ
  pub peer_nodes : ℕ
  pub state : ℕ
  pub filename : List ℕ

abbrev pub Store : Type 0
Store = ℕ → Inode

abbrev pub write_inode : Store → ℕ → Inode → Store
write_inode s p n q = if q == p then n else s q

unfoldable pub inode_is_file : Inode → ℕ
inode_is_file n = bit_and n.state 0x10

unfoldable pub inode_is_new : Inode → Bool
inode_is_new n = not (bit_and n.state 0x01 == 0)

-- The child becomes the first of the children.
unfoldable pub inode_insert_child : Store → (parent child : ℕ) → Store
inode_insert_child s parent child =
    let old_child = (s parent).child_nodes in
    let s' = write_inode s parent (record (s parent) { child_nodes = child }) in
    if old_child == 0
    then s'
    else write_inode s' child (record (s' child) { peer_nodes = old_child })

-- The loop over the children, with the number of rounds left; a list that is longer is not searched
-- to its end.
unfoldable pub search_children : (fuel : ℕ) → Store → (it : ℕ) (filename : List ℕ) → ℕ
search_children zero s it filename = 0
search_children (suc fuel) s it filename =
    let rest = search_children fuel s (s it).peer_nodes filename in
    if it == 0 then 0 else if strcmp filename (s it).filename == 0 then it else rest

-- The way up to the root.
unfoldable pub climb : (fuel : ℕ) → Store → (curr_node : ℕ) → ℕ
climb zero s curr_node = curr_node
climb (suc fuel) s curr_node =
    let rest = climb fuel s (s curr_node).parent_node in
    if (s curr_node).parent_node == 0 then curr_node else rest

abbrev pub slash : ℕ
slash = 47

-- The characters up to the next slash, and the rest of the path from there.
unfoldable pub next_token : (path : List ℕ) → List ℕ × List ℕ
next_token [] = ([], [])
next_token (c ∷ path) =
    let (token, rest) = next_token path in if c == slash then ([], c ∷ path) else (c ∷ token, rest)

-- What is left of the file, as the 32-bit int that the code computes.
unfoldable pub readable : Inode → (n : ℕ) → ℕ
readable node n =
    let to_read = (node.data_size + 2 ^ 64 - node.seek_address) % 2 ^ 32 in
    if not (n == 0) && ltb n to_read then n else to_read

-- An int, added to a 64-bit word.
abbrev pub plus_int : (word int : ℕ) → ℕ
plus_int word int =
    if ltb int (2 ^ 31) then (word + int) % 2 ^ 64 else (word + 2 ^ 64 + int - 2 ^ 32) % 2 ^ 64

module _ (fetch_data : Store → ℕ → ℕ × Store) (push_data : Store → ℕ → ℕ × Store) where
  unfoldable pub inode_fetch_data : Store → ℕ → ℕ × Store
  inode_fetch_data s n = if (s n).has_fetch_data then fetch_data s n else (2 ^ 32 - 1, s)

  unfoldable pub inode_push_data : Store → ℕ → ℕ × Store
  inode_push_data s n = if (s n).has_push_data then push_data s n else (2 ^ 32 - 1, s)

  -- An inode that is new is fetched first; the code says whether that failed.
  unfoldable pub fetch_if_new : Store → ℕ → ℕ × Store
  fetch_if_new s n = if inode_is_new (s n) then inode_fetch_data s n else (0, s)

  -- A child was found, or none: the path ends, ends with a slash, or goes on.
  unfoldable pub after_token :
      Store → (rest : List ℕ) (child : ℕ) → (List ℕ → Option (ℕ × Store)) → Option (ℕ × Store)
  after_token s [] child continue = some (child, s)
  after_token s (c ∷ []) child continue =
      if inode_is_file (s child) == 0 then some (child, s) else some (0, s)
  after_token s (c ∷ d ∷ path) child continue = continue (d ∷ path)

  -- The loop over at most 255 tokens. A token is copied to an array of 256 characters: `none` is a token
  -- that with its zero is written past the end of it.
  unfoldable pub path_loop :
      (rounds fuel : ℕ) → Store → (path : List ℕ) (curr_node : ℕ) → Option (ℕ × Store)
  path_loop zero fuel s path curr_node = some (0, s)
  path_loop (suc rounds) fuel s path curr_node =
      let (token, rest) = next_token path in
      let (code, s') = fetch_if_new s curr_node in
      let child = search_children fuel s' (s' curr_node).child_nodes token in
      let next = after_token s' rest child (λ path'. path_loop rounds fuel s' path' child) in
      if ltb 255 (length token)
      then none
      else if not (code == 0)
      then some (0, s')
      else if child == 0
      then some (0, s')
      else next

  unfoldable pub inode_from_path :
      (fuel : ℕ) → Store → (root : ℕ) (path : List ℕ) → Option (ℕ × Store)
  inode_from_path fuel s root path =
      let absolute = get_or path 0 0 == slash in
      let curr_node = if absolute then climb fuel s root else root in
      let start = if absolute then drop 1 path else path in
      if get_or path 1 0 == 0 || get_or path 0 0 == 0
      then some (curr_node, s)
      else path_loop 255 fuel s start curr_node

  -- The number of bytes, and the bytes that are copied to the destination.
  unfoldable pub inode_read : Store → (node n : ℕ) → ℕ × List ℕ × Store
  inode_read s node n =
      let (code, s') = fetch_if_new s node in
      let i = s' node in
      let to_read = readable i n in
      if not (code == 0) then (0, [], s') else (
        to_read,
        take to_read (drop i.seek_address i.contents),
        write_inode s' node (record i { seek_address = plus_int i.seek_address to_read }),
      )
