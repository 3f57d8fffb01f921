-- ===== src/Alloc/Buddy.antt =====
-- source/alloc/buddy.c: the lists of blocks and the sizes. A block is named by the address of its
-- structure, and `blk` is the memory as these structures. The reads of a null pointer that the code
-- rules out by its tests do not occur.
pub mod Links
pub mod Lists
pub mod Sizes
pub mod Blocks
mod Tests
use raspberry_pi_os.Base.{
  ℕ, zero, suc, ◌+◌, ◌-◌, ◌*◌, ◌%◌, ◌^◌, Bool, true, false, List, get_or, set, ltb, leb, ◌==◌, ◌||◌,
  ◌&&◌, not, if◌then◌else◌, Option, none, some, bit_and,
}
use raspberry_pi_os.Memory.Page.{page_size}

abbrev pub max_mem_blk_size : ℕ
max_mem_blk_size = 13

abbrev pub min_blk_bytes : ℕ
min_blk_bytes = 512

pub record MemBlk : Type 0 where
  pub child1 : ℕ
  pub child2 : ℕ
  pub prev_free : ℕ
  pub next_free : ℕ
  pub prev : ℕ
  pub next : ℕ
  pub blk_size : ℕ
  pub allocated : Bool
  pub start_addr : ℕ

pub record Buddy : Type 0 where
  pub blk : ℕ → MemBlk
  pub blk_heads : List ℕ
  pub blk_all_head : ℕ

abbrev pub blk_head_idx : ℕ → ℕ
blk_head_idx x = max_mem_blk_size - x

-- The product is an int, which overflows from 22 on, where it wraps: at 22 it has become negative, and
-- the conversion to `unsigned long` makes it very large, and above all of its bits are lost.
unfoldable pub size_to_bytes : ℕ → ℕ
size_to_bytes size =
    if ltb size 22 then 2 ^ size * min_blk_bytes else if size == 22 then 2 ^ 64 - 2 ^ 31 else 0

abbrev pub write_blk : (ℕ → MemBlk) → ℕ → MemBlk → ℕ → MemBlk
write_blk blk b value x = if x == b then value else blk x

-- `next->prev_free = prev`, when there is a next block.
unfoldable pub set_prev_free : (next prev : ℕ) → Buddy → Buddy
set_prev_free next prev s =
    if next == 0
    then s
    else record s { blk = write_blk s.blk next (record (s.blk next) { prev_free = prev }) }

unfoldable pub remove_from_free_list : Buddy → ℕ → Buddy
unfolding set_prev_free
remove_from_free_list s b =
    let next = (s.blk b).next_free in
    let prev = (s.blk b).prev_free in
    let s = set_prev_free next prev s in
    if prev == 0
    then record s { blk_heads = set s.blk_heads (blk_head_idx (s.blk b).blk_size) next }
    else record s { blk = write_blk s.blk prev (record (s.blk prev) { next_free = next }) }

unfoldable pub insert_into_free_list : Buddy → ℕ → Buddy
unfolding set_prev_free
insert_into_free_list s b =
    let blk_idx = blk_head_idx (s.blk b).blk_size in
    let blk_head = get_or s.blk_heads blk_idx 0 in
    let s = set_prev_free blk_head b s in
    record s {
      blk = write_blk s.blk b (record (s.blk b) { next_free = blk_head; prev_free = 0 });
      blk_heads = set s.blk_heads blk_idx b;
    }

unfoldable pub set_prev : (next prev : ℕ) → Buddy → Buddy
set_prev next prev s =
    if next == 0
    then s
    else record s { blk = write_blk s.blk next (record (s.blk next) { prev = prev }) }

unfoldable pub remove_from_all_list : Buddy → ℕ → Buddy
unfolding set_prev
remove_from_all_list s b =
    let next = (s.blk b).next in
    let prev = (s.blk b).prev in
    let s = set_prev next prev s in
    if prev == 0
    then record s { blk_all_head = next }
    else record s { blk = write_blk s.blk prev (record (s.blk prev) { next = next }) }

unfoldable pub insert_into_all_list : Buddy → ℕ → Buddy
unfolding set_prev
insert_into_all_list s b =
    let head = s.blk_all_head in
    let s' = set_prev head b s in
    if head == 0 then record s { blk_all_head = b } else record s' {
      blk = write_blk s'.blk b (record (s'.blk b) { next = head });
      blk_all_head = b;
    }

-- The loop of `kmalloc` that looks for the size of the block, with the rounds left.
unfoldable pub size_loop : ℕ → (size i : ℕ) → Option ℕ
unfolding size_to_bytes
size_loop zero size i = none
size_loop (suc rounds) size i =
    let larger = size_loop rounds size (i + 1) in
    if ltb (size_to_bytes i) size then larger else some i

-- The start of `kmalloc`, up to the size of the block that it asks `next_free_block` for.
unfoldable pub block_size_for : (size flags : ℕ) → Option ℕ
unfolding size_loop
block_size_for size flags =
    size_loop 32 (if not (bit_and flags 2 == 0) && ltb size page_size then page_size else size) 0
