-- ===== src/Memory/PageTable/Unmap/Progress.antt =====
-- The loops of `page_table_unmap_address` of source/memory/pagetable.c end.
use raspberry_pi_os.Base.{
  ℕ, zero, suc, ◌+◌, ◌-◌, ◌*◌, ◌/◌, ◌%◌, ◌^◌, ◌≤◌, ◌≡◌, refl, arith, true, false, List, [], ◌∷◌,
  ltb, ◌==◌, if◌then◌else◌, bit_and, ltb→lt, Bool, not, ◌||◌, if-either,
}
use raspberry_pi_os.Base.Bits.{bit_and_mask}
use mathlib.Core.Bool.{false≢true}
use raspberry_pi_os.Memory.Page.{page_size}
use raspberry_pi_os.Memory.PageTable.Index.{one-page-le-block}
use raspberry_pi_os.Memory.PageTable.{address_index, is_table_entry, page_table_block_size}
use raspberry_pi_os.Memory.PageTable.Unmap.{
  Pruning, Pruned, kept, corrupted, Round, advanced, panicked, too_deep, UnmapResult, unmapped,
  unaligned, unmap_panicked, unmap_no_fuel, advance_after, unmap_walk, after_round, unmap_loop,
  page_table_unmap_address,
}

abbrev StaysAbove : Round → Type 0
StaysAbove (advanced level s) = level ≤ 3
StaysAbove panicked = Unit {0}
StaysAbove too_deep = ⊥

after-StaysAbove : (level : ℕ) (p : Pruned) → level ≤ 3 → StaysAbove (advance_after level p)
unfolding advance_after
after-StaysAbove level corrupted h = tt
after-StaysAbove level (kept s) h = h

level_3_has_no_tables : (entry i : ℕ) → i ≡ 3 → is_table_entry entry i ≡ true → ⊥
unfolding is_table_entry
level_3_has_no_tables entry i e = rw (e) (λ wrong. absurd (false≢true wrong))

-- One step of the walk, whatever the way further down leads to.
step-StaysAbove :
    (leaf deeper : Bool) (i : ℕ) (p : Pruned) (follow : Round) (s : Pruning)
    → i ≤ 3
    → (deeper ≡ true → StaysAbove follow)
    → StaysAbove (if leaf then advance_after i p else if deeper then follow else advanced i s)
step-StaysAbove true deeper i p follow s h rest = after-StaysAbove i p h
step-StaysAbove false true i p follow s h rest = rest refl
step-StaysAbove false false i p follow s h rest = h

walk-StaysAbove :
    (rounds : ℕ) (s : Pruning) (table : ℕ) (above : List ℕ) (i current : ℕ)
    → i + suc rounds ≡ 4
    → StaysAbove (unmap_walk (suc rounds) s table above i current)
unfolding unmap_walk
walk-StaysAbove zero s table above i current e =
    step-StaysAbove _ (is_table_entry (s.tables.entry table (address_index current i)) i) i _ _ s
      (omega arith) (level_3_has_no_tables _ i (omega arith))
walk-StaysAbove (suc rounds) s table above i current e =
    step-StaysAbove _ (is_table_entry (s.tables.entry table (address_index current i)) i) i _ _ s
      (omega arith)
      (λ deeper. walk-StaysAbove rounds s _ (table ∷ above) (i + 1) current (omega arith))

abbrev pub HasEnded : UnmapResult → Type 0
HasEnded (unmapped s) = Unit {0}
HasEnded (unaligned s) = Unit {0}
HasEnded unmap_panicked = Unit {0}
HasEnded unmap_no_fuel = ⊥

after_round-HasEnded :
    (r : Round) (continue : ℕ → Pruning → UnmapResult)
    → StaysAbove r
    → ((level : ℕ) (s : Pruning) → level ≤ 3 → HasEnded (continue level s))
    → HasEnded (after_round r continue)
unfolding after_round
after_round-HasEnded (advanced level s) continue stays rest = rest level s stays
after_round-HasEnded panicked continue stays rest = tt
after_round-HasEnded too_deep continue stays rest = absurd stays

block-le : (level : ℕ) → level ≤ 3 → page_table_block_size level ≤ 2 ^ 39
unfolding page_table_block_size
block-le zero h = omega arith
block-le (suc zero) h = omega arith
block-le (suc (suc zero)) h = omega arith
block-le (suc (suc (suc zero))) h = omega arith
block-le (suc (suc (suc (suc level)))) h = absurd (omega arith)

loop-HasEnded :
    (fuel : ℕ) (s : Pruning) (root end current : ℕ)
    → end ≤ 2 ^ 64 - 2 ^ 39
    → end ≤ current + fuel * page_size
    → HasEnded (unmap_loop (suc fuel) s root end current)
unfolding unmap_loop
loop-HasEnded zero s root end current top enough =
    if-either HasEnded (ltb current end) _ _
      (λ inside. absurd (omega (arith, ltb→lt current end inside))) (λ over. tt)
loop-HasEnded (suc fuel) s root end current top enough =
    if-either HasEnded (ltb current end) _ _
      (λ inside.
        let below = ltb→lt current end inside in
        after_round-HasEnded _ _ (walk-StaysAbove 3 s root [] 0 current (omega arith))
          (λ level s' stays.
            loop-HasEnded fuel s' root end ((current + page_table_block_size level) % 2 ^ 64) top
              (omega (arith, block-le level stays, one-page-le-block level stays))))
      (λ over. tt)

size_is_aligned :
    (va size : ℕ)
    → (not (bit_and va (page_size - 1) == 0) || not (bit_and size (page_size - 1) == 0)) ≡ false
    → size % page_size ≡ 0
size_is_aligned va size h = ground (arith, bit_and_mask 12 size)

-- The loops end: the address advances by a page at least in every round, whatever the tables hold,
-- provided the range ends 512 GiB below the end of the address space, so that the advance over an
-- entry of level 0 does not wrap.
pub page_table_unmap_address-HasEnded :
    (s : Pruning) (root va size : ℕ)
    → va + size ≤ 2 ^ 64 - 2 ^ 39
    → HasEnded (page_table_unmap_address s root va size)
unfolding page_table_unmap_address
page_table_unmap_address-HasEnded s root va size top =
    if-either HasEnded
      (not (bit_and va (page_size - 1) == 0) || not (bit_and size (page_size - 1) == 0)) _ _
      (λ wrong. tt)
      (λ aligned.
        let pages = size_is_aligned va size aligned in
        loop-HasEnded (size / page_size) s root ((va + size) % 2 ^ 64) va (omega arith)
          (omega arith))
