-- ===== src/Memory/PageTable/Correct.antt =====
-- `page_table_map_address` against what it promises: the range is translated as asked, every other
-- address keeps its translation, and the loop ends.
use mathlib.Core.Path.{subst}
use raspberry_pi_os.Base.{
  ℕ, ◌+◌, ◌-◌, ◌%◌, ◌^◌, ◌≤◌, ◌<◌, ◌≡◌, ◌≢◌, sym, ◌∙◌, ap, arith, ◌⊎◌, Option, none, some, length,
}
use raspberry_pi_os.Memory.PageTable.{
  Tables, page_table_virtual_to_physical, page_table_block_size, page_table_alignment,
}
use raspberry_pi_os.Memory.PageTable.Index.{prefix, prefix-outside}
use raspberry_pi_os.Memory.PageTable.Map.{
  Descent, at, conflict, descend, fit_level, Block, placed, refused, place_leaf, place_aligned,
  map_block, MapResult, mapped, failed, out_of_fuel,
}
use raspberry_pi_os.Memory.PageTable.Tree.{Owner, IsTree}
use raspberry_pi_os.Memory.PageTable.Descend.{Later, Descends, descend_lem}
use raspberry_pi_os.Memory.PageTable.Alignment.{
  IsAlignment, page_table_alignment_lem, Fits, fit_level-Fits,
}
use raspberry_pi_os.Memory.PageTable.Frame.{walk-keep}
use raspberry_pi_os.Memory.PageTable.Leaf.{
  leaf, leaf-IsTree, leaf-fresh, translate-outside, translate-block,
}

-- Tables under `root` that form a tree.
pub record IsRooted (s : Tables) (root : ℕ) : Type 0 where
  pub own : Owner
  pub tree : IsTree own s
  pub at_root : own root ≡ some (0, 0)

-- Outside of the range `[lo, hi)`, what was translated still is, and to the same address.
abbrev pub KeepsOutside : ℕ → ℕ → ℕ → Tables → Tables → Type 0
KeepsOutside root lo hi s s' =
    (a : ℕ)
    → a < 2 ^ 48
    → (a < lo) ⊎ (hi ≤ a)
    → page_table_virtual_to_physical s root a ≢ 0
    → page_table_virtual_to_physical s' root a ≡ page_table_virtual_to_physical s root a

abbrev pub Translates : ℕ → ℕ → ℕ → ℕ → Tables → Type 0
Translates root lo hi pa s =
    (a : ℕ) → lo ≤ a → a < hi → page_table_virtual_to_physical s root a ≡ pa + (a - lo)

-- What one round does. The physical address has to have the alignment of the block, which the code
-- does not test.
abbrev pub Places : Tables → ℕ → ℕ → ℕ → ℕ → Block → Type 0
Places s root c pa remaining (refused s') =
    IsRooted s' root × KeepsOutside root c (c + remaining) s s'
Places s root c pa remaining (placed level s') =
    IsRooted s' root
    × Fits c remaining level
    × (length s.fresh ≤ length s'.fresh + 3)
    × KeepsOutside root c (c + page_table_block_size level) s s'
    × (pa % page_table_block_size level ≡ 0
        → Translates root c (c + page_table_block_size level) pa s')

module _ (s : Tables) (root c pa remaining : ℕ) (rooted : IsRooted s root)
    (room : 3 ≤ length s.fresh) (page : pa % 4096 ≡ 0) (low : pa < 2 ^ 48)
    (fits : c + remaining ≤ 2 ^ 48) where
  translate-Later :
      (own' : Owner) (s' : Tables) (n : ℕ)
      → Later rooted.own own' s s' n
      → (a : ℕ) → a < 2 ^ 48
      → page_table_virtual_to_physical s root a ≢ 0
      → page_table_virtual_to_physical s' root a ≡ page_table_virtual_to_physical s root a
  unfolding page_table_virtual_to_physical
  translate-Later own' s' n later a small live =
      let top : prefix a 0 ≡ 0 = omega arith in
      walk-keep 4 a rooted.own s s' 0 root rooted.tree (rw top rooted.at_root) (omega arith)
        (λ t level o lt present. later.keeps t level _ _ o present) live

  place_leaf-Places :
      (level : ℕ) (d : Descent)
      → Fits c remaining level
      → Descends rooted.own s c level 0 root d
      → Places s root c pa remaining (place_leaf pa c level d)
  unfolding place_leaf
  place_leaf-Places level (conflict s') ok (own', later) = (
    record { own = own'; tree = later.tree; at_root = later.extends root _ rooted.at_root },
    λ a small out live. translate-Later own' s' level later a small live,
  )
  place_leaf-Places level (at u s') ok (own', later, there, leads) =
      let sum : 0 + level ≡ level = omega arith in
      let root' = later.extends root _ rooted.at_root in
      let owner : own' u ≡ some (level, prefix c level) =
        subst (λ k. own' u ≡ some (k, prefix c k)) sum there in
      let same : (leaf own' s' root u c level pa later.tree root' owner ok.bound page low).fresh
          ≡ s'.fresh =
        leaf-fresh own' s' root u c level pa later.tree root' owner ok.bound page low in
      let same_length = ap length same in
      (
        record {
          own = own';
          tree = leaf-IsTree own' s' root u c level pa later.tree root' owner ok.bound page low;
          at_root = root';
        },
        ok,
        omega (arith, later.left, ok.bound),
        (λ a small out live.
            let kept = translate-Later own' s' level later a small live in
            translate-outside own' s' root u c level pa later.tree root' owner ok.bound page low a
              small (prefix-outside level c a ok.bound ok.aligned out)
              (λ dead. live (sym kept ∙ dead))
            ∙ kept),
        (λ base a lo hi.
            translate-block own' s' root u c level pa later.tree root' owner ok.bound page low a
              (omega (arith, ok.within)) leads ok.aligned base lo hi),
      )

  place_aligned-Places :
      (o : Option ℕ)
      → IsAlignment c o
      → c % 4096 ≡ 0
      → 4096 ≤ remaining
      → Places s root c pa remaining (place_aligned o s root pa c remaining)
  unfolding place_aligned
  place_aligned-Places none bad aligned some_page = absurd (bad aligned)
  place_aligned-Places (some alignment) good aligned some_page =
      let level = fit_level 3 alignment remaining in
      let top : prefix c 0 ≡ 0 = omega arith in
      let ok = fit_level-Fits 3 c alignment remaining good.0 (omega arith) some_page good.1 in
      place_leaf-Places level (descend level s root 0 c) ok (
        descend_lem level c rooted.own s root 0 rooted.tree (rw top rooted.at_root)
          (omega (arith, ok.bound)) (omega (arith, ok.bound)))

  -- One round of the main loop.
  pub map_block-Places :
      c % 4096 ≡ 0
      → 4096 ≤ remaining
      → Places s root c pa remaining (map_block s root pa c remaining)
  unfolding map_block
  map_block-Places = place_aligned-Places (page_table_alignment c) (page_table_alignment_lem c)

-- The blocks that fit the range are aligned alike on both sides.
abbrev pub Congruent : ℕ → ℕ → ℕ → Type 0
Congruent pa va size =
    (level : ℕ)
    → level ≤ 3
    → page_table_block_size level ≤ size
    → pa % page_table_block_size level ≡ va % page_table_block_size level

-- What `page_table_map_address` leaves behind. It does not run out of fuel.
abbrev pub Maps : Tables → ℕ → ℕ → ℕ → ℕ → MapResult → Type 0
Maps s root lo hi pa (mapped s') =
    IsRooted s' root × Translates root lo hi pa s' × KeepsOutside root lo hi s s'
Maps s root lo hi pa (failed s') = IsRooted s' root × KeepsOutside root lo hi s s'
Maps s root lo hi pa out_of_fuel = ⊥
