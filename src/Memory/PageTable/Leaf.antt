-- ===== src/Memory/PageTable/Leaf.antt =====
-- Writing a leaf at the end of a path: the addresses of its block are translated by it, every other
-- address keeps its translation, and the tables stay a tree.
use mathlib.Core.Path.{subst}
use raspberry_pi_os.Base.{
  ℕ, suc, ◌+◌, ◌-◌, ◌%◌, ◌^◌, ◌≤◌, ◌<◌, ◌≡◌, ◌≢◌, refl, sym, ◌∙◌, ap, ap₂, arith, true, ◌&&◌, ◌==◌,
  Option, some, Bool-cases, inl, inr, if◌then◌else◌,
}
use raspberry_pi_os.Memory.PageTable.{
  Tables, address_index, is_table_entry, leaf_descriptor, write_entry, page_table_insert_descriptor,
  walk, page_table_virtual_to_physical, page_table_block_size,
}
use raspberry_pi_os.Memory.PageTable.Index.{
  prefix, prefix-suc, prefix-block, prefix-below, block_offset, leaf_descriptor-IsLeaf,
}
use raspberry_pi_os.Memory.PageTable.Tree.{Owner, IsTree}
use raspberry_pi_os.Memory.PageTable.Descend.{Leads}
use raspberry_pi_os.Memory.PageTable.Frame.{
  KeepsPath, Leads-keep, Leads-prefix, walk-Leads, walk-keep,
}

module _ (own : Owner) (s : Tables) (root u c level pa : ℕ) (tree : IsTree own s)
    (at_root : own root ≡ some (0, 0)) (at_leaf : own u ≡ some (level, prefix c level))
    (bound : level ≤ 3) (page : pa % 4096 ≡ 0) (low : pa < 2 ^ 48) where
  abbrev pub leaf : Tables
  leaf = page_table_insert_descriptor s u pa c level

  leaf-entry :
      (t idx : ℕ)
      → leaf.entry t idx ≡ (
          if (t == u) && (idx == address_index c level)
          then leaf_descriptor pa level
          else s.entry t idx)
  unfolding page_table_insert_descriptor write_entry
  leaf-entry t idx = refl

  pub leaf-fresh : leaf.fresh ≡ s.fresh
  unfolding page_table_insert_descriptor write_entry
  leaf-fresh = refl

  -- The entry that is written belongs to the table of the leaf.
  written_owner :
      (t idx l p : ℕ)
      → own t ≡ some (l, p)
      → ((t == u) && (idx == address_index c level)) ≡ true
      → (l ≡ level) × (p ≡ prefix c level) × (idx ≡ address_index c level)
  written_owner t idx l p o hit =
      let at_table : t ≡ u = ground arith in
      let owners : ◌≡◌ {A = Option (ℕ × ℕ)} (some (l, p)) (some (level, prefix c level)) =
        sym o ∙ ap own at_table ∙ at_leaf in
      (ground arith, ground arith, ground arith)

  pub leaf-IsTree : IsTree own leaf
  leaf-IsTree = record {
    linked = λ t l p idx o e. elim (Bool-cases ((t == u) && (idx == address_index c level))) [
      | inl hit ↦
          let owner = written_owner t idx l p o hit in
          let entry : leaf.entry t idx ≡ leaf_descriptor pa level = rw hit at (leaf-entry t idx) in
          let kind = leaf_descriptor-IsLeaf pa level page low in
          cc (sym e ∙ ap₂ is_table_entry entry owner.0 ∙ kind.1)
      | inr miss ↦
          let same : leaf.entry t idx ≡ s.entry t idx = rw miss at (leaf-entry t idx) in
          rw same (tree.linked t l p idx o (rw same at e))
    ];
    fresh = rw leaf-fresh tree.fresh;
  }

  -- An address outside of the block does not pass by the entry that is written.
  KeepsPath-leaf : (a : ℕ) → prefix a (suc level) ≢ prefix c (suc level) → KeepsPath own a s leaf 4
  KeepsPath-leaf a outside t l o lt present =
      elim (Bool-cases ((t == u) && (address_index a l == address_index c level))) [
        | inl hit ↦
            let owner = written_owner t (address_index a l) l (prefix a l) o hit in
            let e = owner.0 in
            let index : address_index a level ≡ address_index c level =
              subst (λ x. address_index a x ≡ address_index c level) e owner.2 in
            let above : prefix a level ≡ prefix c level =
              subst (λ x. prefix a x ≡ prefix c level) e owner.1 in
            absurd
              (outside (rw (prefix-suc a level bound, prefix-suc c level bound, index, above) refl))
        | inr miss ↦ rw miss at (leaf-entry t (address_index a l))
      ]

  -- Nor does any path above the level of the leaf.
  KeepsPath-above : (a : ℕ) → KeepsPath own a s leaf level
  KeepsPath-above a t l o lt present =
      elim (Bool-cases ((t == u) && (address_index a l == address_index c level))) [
        | inl hit ↦
            let owner = written_owner t (address_index a l) l (prefix a l) o hit in
            absurd (omega arith)
        | inr miss ↦ rw miss at (leaf-entry t (address_index a l))
      ]

  root_owner : (a : ℕ) → a < 2 ^ 48 → own root ≡ some (0, prefix a 0)
  root_owner a small = let top : prefix a 0 ≡ 0 = omega arith in rw top at_root

  pub translate-outside :
      (a : ℕ)
      → a < 2 ^ 48
      → prefix a (suc level) ≢ prefix c (suc level)
      → page_table_virtual_to_physical s root a ≢ 0
      → page_table_virtual_to_physical leaf root a ≡ page_table_virtual_to_physical s root a
  unfolding page_table_virtual_to_physical
  translate-outside a small outside live =
      walk-keep 4 a own s leaf 0 root tree (root_owner a small) (omega arith)
        (KeepsPath-leaf a outside) live

  pub translate-block :
      (a : ℕ)
      → a < 2 ^ 48
      → Leads s c level 0 root u
      → c % page_table_block_size level ≡ 0
      → pa % page_table_block_size level ≡ 0
      → c ≤ a
      → a < c + page_table_block_size level
      → page_table_virtual_to_physical leaf root a ≡ pa + (a - c)
  unfolding page_table_virtual_to_physical walk
  translate-block a small leads aligned base lo hi =
      let block = prefix-block level c a bound aligned lo hi in
      let below = prefix-below level a c bound block.0 in
      let sum : 0 + level ≡ level = omega arith in
      let path : Leads leaf a level 0 root u =
        Leads-keep level a own s leaf 0 root u tree (root_owner a small) (omega arith)
          (rw sum (KeepsPath-above a))
          (Leads-prefix level a c s 0 root u (omega arith) (rw sum below.0) leads) in
      let kind = leaf_descriptor-IsLeaf pa level page low in
      let same : (u == u) ≡ true = ground arith in
      let index : (address_index c level == address_index c level) ≡ true = ground arith in
      let entry : leaf.entry u (address_index c level) ≡ leaf_descriptor pa level =
        rw (same, index) at (leaf-entry u (address_index c level)) in
      rw
        (
          walk-Leads level 4 (suc (3 - level)) a leaf 0 level root u (omega arith) (omega arith)
              path,
          below.1,
          entry,
          kind.1,
          kind.0,
          kind.2,
          block_offset level pa a base,
          block.1,
        )
        refl
