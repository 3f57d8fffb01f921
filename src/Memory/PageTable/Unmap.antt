-- ===== src/Memory/PageTable/Unmap.antt =====
-- `page_table_unmap_address` and `prune_if_empty` of source/memory/pagetable.c. `pruned` lists the
-- tables that were given to `try_free`. `print` and the invalidation of the TLB are left out.
pub mod Progress
mod Tests
use raspberry_pi_os.Base.{
  ℕ, zero, suc, ◌+◌, ◌-◌, ◌/◌, ◌%◌, ◌^◌, Bool, true, false, ◌||◌, not, List, [], ◌∷◌, ltb, ◌==◌,
  if◌then◌else◌, bit_and,
}
use raspberry_pi_os.Memory.Page.{page_size, page_table_entries, complement64, to_kern}
use raspberry_pi_os.Memory.PageTable.{
  Tables, address_index, is_table_entry, is_leaf_entry, write_entry, page_table_block_size,
}

pub record Pruning : Type 0 where
  pub tables : Tables
  pub pruned : List ℕ

-- The first loop of `prune_if_empty`, with the number of rounds left.
unfoldable pub all_empty : ℕ → Tables → (child i : ℕ) → Bool
all_empty zero s child i = true
all_empty (suc rounds) s child i =
    let rest = all_empty rounds s child (i + 1) in if s.entry child i == 0 then rest else false

pub data Pruned : Type 0 where
  kept : Pruning → Pruned
  corrupted : Pruned

-- The second loop: the entry of the parent is cleared, or the tables are corrupted.
unfoldable pub clear_parent : ℕ → Pruning → (parent child i : ℕ) → Pruned
clear_parent zero s parent child i = corrupted
clear_parent (suc rounds) s parent child i =
    let rest = clear_parent rounds s parent child (i + 1) in
    if to_kern (bit_and (s.tables.entry parent i) (complement64 3)) == child
    then kept (record { tables = write_entry s.tables parent i 0; pruned = child ∷ s.pruned })
    else rest

unfoldable pub prune_if_empty : Pruning → (parent child : ℕ) → Pruned
unfolding all_empty clear_parent
prune_if_empty s parent child =
    if all_empty page_table_entries s.tables child 0
    then clear_parent page_table_entries s parent child 0
    else kept s

unfoldable pub then_prune : Pruned → (Pruning → Pruned) → Pruned
then_prune corrupted continue = corrupted
then_prune (kept s) continue = continue s

-- The way back up: the current table, and those above it.
unfoldable pub prune_path : (child : ℕ) (above : List ℕ) → Pruning → Pruned
unfolding then_prune prune_if_empty
prune_path child [] s = kept s
prune_path child (parent ∷ rest) s =
    then_prune (prune_if_empty s parent child) (prune_path parent rest)

-- One round of the main loop ends at some level, by whose block size the address advances.
pub data Round : Type 0 where
  advanced : (level : ℕ) → Pruning → Round
  panicked : Round
  too_deep : Round

unfoldable pub advance_after : (level : ℕ) → Pruned → Round
advance_after level corrupted = panicked
advance_after level (kept s) = advanced level s

-- The loop over the levels, with the number of rounds left: four, since there are no tables below
-- level 3.
unfoldable pub unmap_walk : ℕ → Pruning → (table : ℕ) (above : List ℕ) (i current : ℕ) → Round
unfolding advance_after prune_path
unmap_walk zero s table above i current = too_deep
unmap_walk (suc rounds) s table above i current =
    let index = address_index current i in
    let entry = s.tables.entry table index in
    let follow =
      unmap_walk rounds s (to_kern (bit_and entry (complement64 3))) (table ∷ above) (i + 1)
        current in
    let cleared = record s { tables = write_entry s.tables table index 0 } in
    if is_leaf_entry entry i
    then advance_after i (prune_path table above cleared)
    else if is_table_entry entry i
    then follow
    else advanced i s

pub data UnmapResult : Type 0 where
  unmapped : Pruning → UnmapResult
  unaligned : Pruning → UnmapResult
  unmap_panicked : UnmapResult
  unmap_no_fuel : UnmapResult

unfoldable pub after_round : Round → (ℕ → Pruning → UnmapResult) → UnmapResult
after_round panicked continue = unmap_panicked
after_round too_deep continue = unmap_no_fuel
after_round (advanced level s) continue = continue level s

-- The main loop, from `current` up to `end`.
unfoldable pub unmap_loop : ℕ → Pruning → (root end current : ℕ) → UnmapResult
unfolding after_round unmap_walk
unmap_loop zero s root end current = unmap_no_fuel
unmap_loop (suc fuel) s root end current =
    let body = after_round (unmap_walk 4 s root [] 0 current) (λ level s'.
      unmap_loop fuel s' root end ((current + page_table_block_size level) % 2 ^ 64)) in
    if ltb current end then body else unmapped s

unfoldable pub page_table_unmap_address : Pruning → (root va size : ℕ) → UnmapResult
unfolding unmap_loop
page_table_unmap_address s root va size =
    if not (bit_and va (page_size - 1) == 0) || not (bit_and size (page_size - 1) == 0)
    then unaligned s
    else unmap_loop (suc (size / page_size)) s root ((va + size) % 2 ^ 64) va
