-- ===== src/Memory/PageTable/Map.antt =====
-- `page_table_map_address` of source/memory/pagetable.c.
use raspberry_pi_os.Base.{
  Option, none, some, ℕ, zero, suc, ◌+◌, ◌-◌, ◌/◌, ◌%◌, ◌^◌, ◌&&◌, ◌||◌, not, none, some, List, [],
  ◌∷◌, ltb, ◌==◌, if◌then◌else◌, bit_and,
}
use raspberry_pi_os.Memory.Page.{page_size, complement64, to_kern, to_phys}
use raspberry_pi_os.Memory.PageTable.{
  Tables, address_index, is_table_entry, is_leaf_entry, page_table_insert_table_descriptor,
  page_table_insert_descriptor, page_table_block_size, page_table_alignment,
}

unfoldable pub take_fresh : List ℕ → Tables → ℕ × Tables
take_fresh [] s = (0, s)
take_fresh (p ∷ ps) s =
    (p, record s { entry = λ t i. if (t == p) && not (p == 0) then 0 else s.entry t i; fresh = ps })

-- `kmalloc(PAGE_SIZE, ALLOC_ZERO_INIT)`: the next page, zeroed, or 0.
unfoldable pub alloc_table : Tables → ℕ × Tables
unfolding take_fresh
alloc_table s = take_fresh s.fresh s

-- The table that the leaf goes into, or a leaf that is in the way.
pub data Descent : Type 0 where
  at : ℕ → Tables → Descent
  conflict : Tables → Descent

-- The loop that follows or creates the tables above the leaf, with the number of rounds left.
unfoldable pub descend : ℕ → Tables → ℕ → ℕ → ℕ → Descent
descend zero s table i address = at table s
descend (suc rounds) s table i address =
    let entry = s.entry table (address_index address i) in
    let follow = descend rounds s (to_kern (bit_and entry (complement64 3))) (suc i) address in
    let create = alloc_table s in
    let extended = page_table_insert_table_descriptor create.1 table (to_phys create.0) address i in
    let grow = descend rounds extended create.0 (suc i) address in
    if is_leaf_entry entry i then conflict s else if is_table_entry entry i then follow else grow

-- `while(block_size > (va + size - current_address)) alignment++`; three rounds reach the pages.
unfoldable pub fit_level : ℕ → ℕ → ℕ → ℕ
fit_level zero level remaining = level
fit_level (suc rounds) level remaining =
    let smaller = fit_level rounds (level + 1) remaining in
    if ltb remaining (page_table_block_size level) then smaller else level

-- One round of the main loop: the block of some level is mapped, or something is in the way.
-- (An unaligned address is ruled out by the test of `page_table_map_address`.)
pub data Block : Type 0 where
  placed : (level : ℕ) → Tables → Block
  refused : Tables → Block

unfoldable pub place_leaf : (pa current level : ℕ) → Descent → Block
place_leaf pa current level (conflict s) = refused s
place_leaf pa current level (at table s) =
    placed level (page_table_insert_descriptor s table pa current level)

unfoldable pub place_aligned : Option ℕ → Tables → (root pa current remaining : ℕ) → Block
unfolding place_leaf
place_aligned none s root pa current remaining = refused s
place_aligned (some alignment) s root pa current remaining =
    let level = fit_level 3 alignment remaining in
    place_leaf pa current level (descend level s root 0 current)

unfoldable pub map_block : Tables → (root pa current remaining : ℕ) → Block
unfolding place_aligned
map_block s root pa current remaining =
    place_aligned (page_table_alignment current) s root pa current remaining

pub data MapResult : Type 0 where
  mapped : Tables → MapResult
  failed : Tables → MapResult
  out_of_fuel : MapResult

unfoldable pub after_block : Block → (ℕ → Tables → MapResult) → MapResult
after_block (refused s) continue = failed s
after_block (placed level s) continue = continue level s

-- The main loop, from `current` up to `end`.
unfoldable pub map_loop : ℕ → Tables → (root pa va end current : ℕ) → MapResult
unfolding after_block
map_loop zero s root pa va end current = out_of_fuel
map_loop (suc fuel) s root pa va end current =
    let body =
      after_block (map_block s root ((pa + (current - va)) % 2 ^ 64) current (end - current))
        (λ level s'.
          map_loop fuel s' root pa va end ((current + page_table_block_size level) % 2 ^ 64)) in
    if ltb current end then body else mapped s

unfoldable pub page_table_map_address : Tables → (root pa va size : ℕ) → MapResult
page_table_map_address s root pa va size =
    if not (bit_and pa (page_size - 1) == 0)
      || not (bit_and va (page_size - 1) == 0)
      || not (bit_and size (page_size - 1) == 0)
    then failed s
    else map_loop (size / page_size + 1) s root pa va ((va + size) % 2 ^ 64) va
