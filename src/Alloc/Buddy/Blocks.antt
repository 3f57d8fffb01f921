-- ===== src/Alloc/Buddy/Blocks.antt =====
-- source/alloc/buddy.c: how blocks are made, split, merged, given out and taken back. The structures
-- come from the pool `buddy_pool`, whose functions are the fields of `PoolOps`: they take the whole
-- state, since `pool_alloc` may call `kmalloc`. The zeroing of memory and `print` are left out.
pub mod FreeLists
pub mod AllList
pub mod Split
pub mod Halves
pub mod Serve
mod Tests
use raspberry_pi_os.Base.{
  ℕ, zero, suc, ◌+◌, ◌-◌, ◌*◌, ◌/◌, ◌%◌, ◌^◌, Bool, true, false, Option, none, some, List, get_or,
  ltb, leb, ◌==◌, ◌||◌, ◌&&◌, not, if◌then◌else◌, bit_and, bit_xor,
}
use raspberry_pi_os.Memory.Page.{complement64, page_size, va_offset}
use raspberry_pi_os.Alloc.Buddy.{
  MemBlk, Buddy, max_mem_blk_size, blk_head_idx, size_to_bytes, write_blk, remove_from_free_list,
  insert_into_free_list, remove_from_all_list, insert_into_all_list, block_size_for,
}

-- The blocks, and what the pool keeps for itself.
pub record System (P : Type 0) : Type 0 where
  pub buddy : Buddy
  pub pool : P

pub record PoolOps (P : Type 0) : Type 0 where
  pub pool_alloc : System P → ℕ × System P
  pub pool_free : System P → ℕ → System P

abbrev pub a_block : (size addr : ℕ) → MemBlk
a_block size addr = record {
  child1 = 0;
  child2 = 0;
  prev_free = 0;
  next_free = 0;
  prev = 0;
  next = 0;
  blk_size = size;
  allocated = false;
  start_addr = addr;
}

abbrev pub set_children : (child1 child2 : ℕ) → MemBlk → MemBlk
set_children child1 child2 b = record b { child1 = child1; child2 = child2 }

unfoldable pub update_blk : Buddy → ℕ → MemBlk → Buddy
update_blk s b v = record s { blk = write_blk s.blk b v }

unfoldable pub set_allocated : Bool → Buddy → ℕ → Buddy
set_allocated flag s b = update_blk s b (record (s.blk b) { allocated = flag })

-- What `alloc_new_block` does with a structure from the pool.
unfoldable pub link_new_block : Buddy → (b size addr : ℕ) → Buddy
link_new_block s b size addr =
    insert_into_free_list (insert_into_all_list (update_blk s b (a_block size addr)) b) b

module _ {P : Type 0} (ops : PoolOps P) where
  unfoldable pub alloc_new_block : System P → (size addr : ℕ) → ℕ × System P
  alloc_new_block s size addr =
      let (b, s') = ops.pool_alloc s in
      if b == 0 then (0, s') else (b, record s' { buddy = link_new_block s'.buddy b size addr })

  -- Both lists lose the block, and the pool gets its structure back.
  unfoldable pub drop_block : System P → ℕ → System P
  drop_block s b =
      ops.pool_free (record s { buddy = remove_from_all_list (remove_from_free_list s.buddy b) b })
        b

  abbrev pub with_children : System P → (b child1 child2 : ℕ) → System P
  with_children s b child1 child2 = record s {
    buddy = update_blk s.buddy b (set_children child1 child2 (s.buddy.blk b));
  }

  -- The outcome, once both calls have returned.
  unfoldable pub after_children : System P → (b child1 child2 : ℕ) → Bool × System P
  after_children s b child1 child2 =
      if child1 == 0
      then if child2 == 0 then (false, s) else (false, with_children (drop_block s child2) b 0 0)
      else if child2 == 0
      then (false, with_children (drop_block s child1) b 0 0)
      else (true, record s { buddy = remove_from_free_list s.buddy b })

  -- `none` is the panic on a block that is too small.
  unfoldable pub split_block : System P → (b : ℕ) → Option (Bool × System P)
  split_block s b =
      let size = (s.buddy.blk b).blk_size in
      let addr = (s.buddy.blk b).start_addr in
      let (child1, s1) = alloc_new_block s (size - 1) addr in
      let s1' = with_children s1 b child1 (s1.buddy.blk b).child2 in
      let (child2, s2) = alloc_new_block s1' (size - 1) (bit_xor addr (2 ^ (size + 8))) in
      let s2' = with_children s2 b (s2.buddy.blk b).child1 child2 in
      if size == 0 then none else some (after_children s2' b child1 child2)

  -- The search of `merge_blocks` for the parent, with the number of rounds left.
  unfoldable pub find_parent : (fuel : ℕ) → Buddy → (i addr size : ℕ) → ℕ
  find_parent zero s i addr size = 0
  find_parent (suc fuel) s i addr size =
      let rest = find_parent fuel s (s.blk i).next addr size in
      if i == 0
      then 0
      else if ((s.blk i).start_addr == addr) && ((s.blk i).blk_size == size)
      then i
      else rest

  -- Both children are free and not split.
  unfoldable pub can_merge : Buddy → (parent : ℕ) → Bool
  can_merge s i =
      let c1 = s.blk (s.blk i).child1 in
      let c2 = s.blk (s.blk i).child2 in
      not (c1.allocated || c2.allocated) && ((c1.child1 == 0) && (c2.child1 == 0))

  unfoldable pub merge_children : System P → (parent : ℕ) → System P
  merge_children s i =
      let s1 = drop_block s (s.buddy.blk i).child1 in
      let s1' = with_children s1 i 0 (s1.buddy.blk i).child2 in
      let s2 = drop_block s1' (s1'.buddy.blk i).child2 in
      let s2' = with_children s2 i (s2.buddy.blk i).child1 0 in
      record s2' { buddy = insert_into_free_list s2'.buddy i }

  -- One round for each size up to the largest; `fuel` bounds the search in the list of all blocks.
  unfoldable pub merge_blocks : (rounds fuel : ℕ) → System P → (b : ℕ) → System P
  merge_blocks zero fuel s b = s
  merge_blocks (suc rounds) fuel s b =
      let blk = s.buddy.blk b in
      let parent_addr = bit_and blk.start_addr (complement64 (2 ^ (blk.blk_size + 9))) in
      let i = find_parent fuel s.buddy s.buddy.blk_all_head parent_addr (blk.blk_size + 1) in
      let merged = merge_blocks rounds fuel (merge_children s i) i in
      if leb max_mem_blk_size blk.blk_size
      then s
      else if i == 0
      then s
      else if can_merge s.buddy i
      then merged
      else s

  -- The first child of the block that was split. `none` is the panic.
  unfoldable pub after_split : (freeb : ℕ) → Option (Bool × System P) → Option (ℕ × System P)
  after_split freeb none = none
  after_split freeb (some (split, s)) = some (if split then (s.buddy.blk freeb).child1 else 0, s)

  unfoldable pub after_larger : Option (ℕ × System P) → Option (ℕ × System P)
  after_larger none = none
  after_larger (some (freeb, s)) =
      if freeb == 0 then some (0, s) else after_split freeb (split_block s freeb)

  unfoldable pub next_free_block : (rounds : ℕ) → System P → (size : ℕ) → Option (ℕ × System P)
  next_free_block zero s size = some (0, s)
  next_free_block (suc rounds) s size =
      let freeb = get_or s.buddy.blk_heads (blk_head_idx size) 0 in
      let larger = after_larger (next_free_block rounds s (size + 1)) in
      if ltb max_mem_blk_size size
      then some (0, s)
      else if not (freeb == 0)
      then some (freeb, s)
      else larger

  -- The block is taken, and its address is the result.
  unfoldable pub take_block : Option (ℕ × System P) → Option (ℕ × System P)
  take_block none = none
  take_block (some (b, s)) =
      let taken = record s { buddy = set_allocated true (remove_from_free_list s.buddy b) b } in
      if b == 0 then some (0, s) else some ((taken.buddy.blk b).start_addr, taken)

  -- Sizes above the largest block have no round.
  unfoldable pub serve : Option ℕ → System P → Option (ℕ × System P)
  serve none s = none
  serve (some i) s = take_block (next_free_block (14 - i) s i)

  unfoldable pub kmalloc : System P → (size flags : ℕ) → Option (ℕ × System P)
  kmalloc s size flags = serve (block_size_for size flags) s

  -- The search of `try_free`, with the number of rounds left.
  unfoldable pub find_allocated : (fuel : ℕ) → Buddy → (b memory : ℕ) → ℕ
  find_allocated zero s b memory = 0
  find_allocated (suc fuel) s b memory =
      let rest = find_allocated fuel s (s.blk b).next memory in
      if b == 0
      then 0
      else if ((s.blk b).start_addr == memory) && (s.blk b).allocated
      then b
      else rest

  -- The code, and what is left.
  unfoldable pub try_free : (fuel : ℕ) → System P → (memory : ℕ) → ℕ × System P
  try_free fuel s memory =
      let b = find_allocated fuel s.buddy s.buddy.blk_all_head memory in
      if b == 0 then (1, s) else (
        0,
        merge_blocks 14 fuel
            (record s { buddy = insert_into_free_list (set_allocated false s.buddy b) b }) b,
      )

  unfoldable pub free : (fuel : ℕ) → System P → (memory : ℕ) → System P
  free fuel s memory = (try_free fuel s memory).1

  -- The loop of `kmalloc_largest_available`: smaller and smaller blocks, but none of size 0. The size
  -- that is found stands in front.
  unfoldable pub or_smaller :
      (i : ℕ)
      → Option (ℕ × System P)
      → (System P → Option (ℕ × ℕ × System P))
      → Option (ℕ × ℕ × System P)
  or_smaller i none continue = none
  or_smaller i (some (b, s)) continue = if b == 0 then continue s else some (i, b, s)

  unfoldable pub largest_loop : (i : ℕ) → System P → Option (ℕ × ℕ × System P)
  largest_loop zero s = some (0, 0, s)
  largest_loop (suc i) s =
      or_smaller (suc i) (next_free_block (14 - suc i) s (suc i)) (largest_loop i)

  -- The address, and the size that has been allocated.
  unfoldable pub take_largest : Option (ℕ × ℕ × System P) → Option (ℕ × ℕ × System P)
  take_largest none = none
  take_largest (some (i, b, s)) =
      let taken = record s { buddy = set_allocated true (remove_from_free_list s.buddy b) b } in
      if i == 0
      then some (0, 0, s)
      else some ((taken.buddy.blk b).start_addr, size_to_bytes i, taken)

  unfoldable pub serve_largest : Option ℕ → System P → Option (ℕ × ℕ × System P)
  serve_largest none s = none
  serve_largest (some i) s = take_largest (largest_loop i s)

  unfoldable pub kmalloc_largest_available : System P → (size flags : ℕ) → Option (ℕ × ℕ × System P)
  kmalloc_largest_available s size flags = serve_largest (block_size_for size flags) s

  -- The sum over the list of all blocks.
  unfoldable pub memory_allocated : (fuel : ℕ) → Buddy → (b : ℕ) → ℕ
  memory_allocated zero s b = 0
  memory_allocated (suc fuel) s b =
      let rest = memory_allocated fuel s (s.blk b).next in
      if b == 0
      then 0
      else if (s.blk b).allocated
      then (size_to_bytes (s.blk b).blk_size + rest) % 2 ^ 64
      else rest
