-- ===== src/Memory/PageTable/Grow.antt =====
-- The step of `page_table_map_address` that links a new table under a free entry.
use raspberry_pi_os.Base.{
  ℕ, suc, ◌+◌, ◌-◌, ◌*◌, ◌/◌, ◌%◌, ◌^◌, ◌≤◌, ◌<◌, ◌≡◌, ◌≢◌, refl, sym, ◌∙◌, arith, bit_or, true,
  false, if◌then◌else◌, ◌==◌, Option, some, List, ◌∷◌, Bool-cases, inl, inr, ==→eq, ==→ne,
}
use raspberry_pi_os.Memory.Page.{to_kern, to_phys, va_offset}
use raspberry_pi_os.Memory.PageTable.{
  Tables, address_index, is_table_entry, is_leaf_entry, get_address_from_descriptor, write_entry,
  page_table_insert_table_descriptor,
}
use raspberry_pi_os.Memory.PageTable.Index.{prefix, prefix-suc, table_target, entry_bits, or_page}
use mathlib.Core.Path.{ap, subst}
use mathlib.Core.Bool.{◌&&◌}
use raspberry_pi_os.Memory.PageTable.Map.{take_fresh}
use raspberry_pi_os.Memory.PageTable.Tree.{
  Owner, adopt, Link, IsFresh, IsTree, IsPresent, Keeps, Extends, IsFresh-adopt, Extends-adopt,
  Extends-ne, zero-IsAbsent,
}

-- Linking a new zeroed page under a free entry keeps the tree.
module _ (own : Owner) (s : Tables) (p : ℕ) (ps : List ℕ) (tree : IsTree own s)
    (pages : IsFresh own (p ∷ ps)) (table i a : ℕ) (bound : i ≤ 2)
    (here : own table ≡ some (i, prefix a i)) where
  abbrev pub grown : Tables
  grown =
      let create = take_fresh (p ∷ ps) s in
      page_table_insert_table_descriptor create.1 table (to_phys p) a i

  abbrev pub grown_owner : Owner
  grown_owner = adopt own p (suc i, prefix a (suc i))

  descriptor :
      (bit_or (to_phys p) 3 ≡ to_phys p + 3)
      × (to_phys p < 2 ^ 48)
      × (to_phys p % 4096 ≡ 0)
      × (to_kern (to_phys p) ≡ p)
  unfolding to_phys to_kern
  descriptor =
      let facts = pages.0 in
      let q = to_phys p / 4096 in
      let whole : to_phys p ≡ q * 4096 + 0 = omega arith in
      (
        subst (λ x. bit_or x 3 ≡ x + 3) (sym whole)
            (or_page q 0 3 (omega arith) (omega arith) ∙ omega arith),
        omega arith,
        omega arith,
        omega arith,
      )

  new-ne-table : (table == p) ≡ false
  new-ne-table = elim (Bool-cases (table == p)) [
    | inl same ↦ cc (sym here ∙ ap own (==→eq table p same) ∙ pages.0.0)
    | inr other ↦ other
  ]

  -- Away from the new page and the entry that is written, nothing changes.
  grown-entry :
      (t idx : ℕ)
      → (t == p) ≡ false
      → grown.entry t idx
        ≡ (if (t == table) && (idx == address_index a i) then to_phys p + 3 else s.entry t idx)
  unfolding take_fresh page_table_insert_table_descriptor write_entry
  grown-entry t idx other = rw (other, descriptor.0)

  grown-new : (idx : ℕ) → grown.entry p idx ≡ 0
  unfolding take_fresh page_table_insert_table_descriptor write_entry
  grown-new idx =
      let above : va_offset ≤ p = pages.0.2 in
      let apart : p ≢ table = λ e. ==→ne table p new-ne-table (sym e) in ground arith

  Link-new : Link grown_owner (to_phys p + 3) i (prefix a i) (address_index a i)
  Link-new =
      let back : to_phys p + 3 - 3 ≡ to_phys p = omega arith in
      let self : (p == p) ≡ true = ground arith in
      record {
        marked = omega (arith, descriptor);
        small = omega (arith, descriptor);
        owned = rw (back, descriptor.3, self, prefix-suc a i (omega arith)) refl;
      }

  Link-old : {e level q idx : ℕ} → Link own e level q idx → Link grown_owner e level q idx
  Link-old l = record {
    marked = l.marked;
    small = l.small;
    owned = Extends-adopt own p (suc i, prefix a (suc i)) pages.0.0 _ _ l.owned;
  }

  Link-written :
      (t level q idx : ℕ)
      → own t ≡ some (level, q)
      → ((t == table) && (idx == address_index a i)) ≡ true
      → Link grown_owner (to_phys p + 3) level q idx
  Link-written t level q idx o hit =
      let at_table : t ≡ table = ground arith in
      let at_index : idx ≡ address_index a i = ground arith in
      let owners : ◌≡◌ {A = Option (ℕ × ℕ)} (some (level, q)) (some (i, prefix a i)) =
        sym o ∙ ap own at_table ∙ here in
      let at_level : level ≡ i = ground arith in
      let at_prefix : q ≡ prefix a i = ground arith in rw (at_level, at_prefix, at_index) Link-new

  grown-linked :
      (t level q idx : ℕ)
      → grown_owner t ≡ some (level, q)
      → is_table_entry (grown.entry t idx) level ≡ true
      → Link grown_owner (grown.entry t idx) level q idx
  grown-linked t level q idx o e = elim (Bool-cases (t == p)) [
    | inl same ↦
        let zeroed : grown.entry t idx ≡ 0 =
          subst (λ x. grown.entry x idx ≡ 0) (sym (==→eq t p same)) (grown-new idx) in
        cc (sym e ∙ ap (λ x. is_table_entry x level) zeroed ∙ zero-IsAbsent level)
    | inr other ↦
        let old : own t ≡ some (level, q) = rw other at o in
        let entry = grown-entry t idx other in
        elim (Bool-cases ((t == table) && (idx == address_index a i))) [
          | inl written ↦ rw (entry, written) (Link-written t level q idx old written)
          | inr kept ↦
              let same : grown.entry t idx ≡ s.entry t idx = rw kept at entry in
              rw same (Link-old (tree.linked t level q idx old (rw same at e)))
        ]
  ]

  -- What is in use is not the entry that is written, since that was free.
  pub grown-Keeps :
      is_table_entry (s.entry table (address_index a i)) i ≡ false
      → is_leaf_entry (s.entry table (address_index a i)) i ≡ false
      → Keeps own s grown
  grown-Keeps absent free t level q idx o present =
      let other : (t == p) ≡ false = Extends-ne own p t (level, q) pages.0.0 o in
      elim (Bool-cases ((t == table) && (idx == address_index a i))) [
        | inl written ↦
            let at_table : t ≡ table = ground arith in
            let at_index : idx ≡ address_index a i = ground arith in
            let owners : ◌≡◌ {A = Option (ℕ × ℕ)} (some (level, q)) (some (i, prefix a i)) =
              sym o ∙ ap own at_table ∙ here in
            let at_level : level ≡ i = ground arith in
            let used : IsPresent (s.entry table (address_index a i)) i =
              rw (at_table, at_index, at_level) at present in
            cc (rw (absent, free) at used)
        | inr kept ↦ rw kept at (grown-entry t idx other)
      ]

  pub grown-fresh : grown.fresh ≡ ps
  unfolding take_fresh page_table_insert_table_descriptor write_entry
  grown-fresh = refl

  -- The page is linked under the entry, nothing in use is lost, and the tree stays one.
  pub grown-IsTree : IsTree grown_owner grown
  grown-IsTree = record {
    linked = grown-linked;
    fresh = rw grown-fresh (IsFresh-adopt own p (suc i, prefix a (suc i)) ps pages.0.4 pages.1);
  }

  pub grown-Extends : Extends own grown_owner
  grown-Extends = Extends-adopt own p (suc i, prefix a (suc i)) pages.0.0

  -- The new entry is a table entry that leads to the new page.
  pub grown-follow :
      (is_table_entry (grown.entry table (address_index a i)) i ≡ true)
      × (to_kern (get_address_from_descriptor (grown.entry table (address_index a i))) ≡ p)
  unfolding is_table_entry
  grown-follow =
      let one : (table == table) ≡ true = ground arith in
      let two : (address_index a i == address_index a i) ≡ true = ground arith in
      let entry : grown.entry table (address_index a i) ≡ to_phys p + 3 =
        rw (one, two) at (grown-entry table (address_index a i) new-ne-table) in
      let target =
        table_target (to_phys p + 3) (omega (arith, descriptor)) (omega (arith, descriptor)) in
      let back : to_phys p + 3 - 3 ≡ to_phys p = omega arith in
      (
        rw entry (ground (arith, entry_bits (to_phys p + 3), descriptor)),
        rw (entry, target.0, back) descriptor.3,
      )
