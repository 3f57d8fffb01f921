-- ===== src/Memory/Mmap/Reach.antt =====
-- What a call of `mmap` of source/memory/mmap.c makes reachable.
use raspberry_pi_os.Base.{
  ℕ, ◌+◌, ◌-◌, ◌*◌, ◌/◌, ◌%◌, ◌^◌, ◌≤◌, ◌<◌, ◌≡◌, refl, ap, ◌∙◌, arith, true, false, inl, inr, ◌⊎◌,
  List, ◌∷◌, length, ◌==◌, if◌then◌else◌, Bool-cases, eq→==, ne→==, le→ltb,
}
use raspberry_pi_os.Base.Bits.{bit_and_mask}
use raspberry_pi_os.Memory.PageTable.{page_table_virtual_to_physical}
use raspberry_pi_os.Memory.PageTable.Correct.{IsRooted, Congruent}
use raspberry_pi_os.Memory.Mmap.{
  max_mapping_size, mmap_base_addr, mmap_get_free_vaddr, mmap_get_free_vaddr_lem, Taken, TakesSlot,
}
use raspberry_pi_os.Memory.Mmap.Call.{
  MmapState, MmapResult, mapped_at, no_mapping, mmap_halted, discard, activate_mapping,
  after_create, mmap_at, mmap,
}
use raspberry_pi_os.Memory.AddressSpace.{
  AddressMapping, AddressSpace, new_mapping, create_memory_region, map_memory_region, activate,
}
use raspberry_pi_os.Memory.AddressSpace.Overlap.{Activates, map_memory_region_lem}
use raspberry_pi_os.Memory.AddressSpace.Unmap.{
  returned, unlink_mapping, after_removal, unmap_memory_region, unmap_and_remove_memory_region,
}

-- Every address of the range is translated to its place behind `pa`.
abbrev pub Reaches : AddressSpace → (vaddr pa size : ℕ) → Type 0
Reaches s vaddr pa size =
    (a : ℕ)
    → vaddr ≤ a
    → a < vaddr + size
    → page_table_virtual_to_physical s.tables s.page_table a ≡ pa + (a - vaddr)

-- The outcomes of a call with the mapping at `ptr`.
abbrev pub MmapDone : (ptr : ℕ) → MmapState → (pa size : ℕ) → MmapResult → Type 0
MmapDone ptr s pa size (mapped_at vaddr s') =
    ((slot : ℕ) × (vaddr ≡ mmap_base_addr + max_mapping_size * slot)
      × Taken mmap_base_addr 0 1024 s.mmap_free_mask slot s'.mmap_free_mask)
    × Reaches s'.kernel_address_space vaddr pa size
    × (s'.kernel_address_space.mappings
        ≡ activate ptr (new_mapping ptr vaddr pa size ∷ s.kernel_address_space.mappings))
    × (s'.kernel_address_space.freed ≡ s.kernel_address_space.freed)
MmapDone ptr s pa size (no_mapping s') =
    (s'.kernel_address_space.mappings ≡ s.kernel_address_space.mappings)
    × ((s'.kernel_address_space.freed ≡ s.kernel_address_space.freed)
        ⊎ (s'.kernel_address_space.freed ≡ ptr ∷ ptr ∷ ptr ∷ s.kernel_address_space.freed))
MmapDone ptr s pa size mmap_halted = ⊥

-- A mapping that is not active is only taken off the list and freed.
remove_inactive :
    (s : AddressSpace) (ptr vaddr pa size : ℕ)
    → unmap_and_remove_memory_region s (new_mapping ptr vaddr pa size)
      ≡ returned 0 (record s { mappings = unlink_mapping ptr s.mappings; freed = ptr ∷ s.freed })
unfolding unmap_and_remove_memory_region after_removal unmap_memory_region
remove_inactive s ptr vaddr pa size = refl

unlink_first :
    (ptr vaddr pa size : ℕ) (rest : List AddressMapping)
    → unlink_mapping ptr (new_mapping ptr vaddr pa size ∷ rest) ≡ rest
unfolding unlink_mapping
unlink_first ptr vaddr pa size rest = rw (eq→== ptr ptr refl) refl

module _ (ptr : ℕ) (s : MmapState) (pa size : ℕ) (words : length s.mmap_free_mask ≡ 16)
    (rooted : IsRooted s.kernel_address_space.tables s.kernel_address_space.page_table)
    (pages : (pa % 4096 ≡ 0) × (size % 4096 ≡ 0)) (bounds : (0 < pa) × (pa + size ≤ 2 ^ 48))
    (fits : size ≤ max_mapping_size)
    (alike : (slot : ℕ) → Congruent pa (mmap_base_addr + max_mapping_size * slot) size)
    (room : 3 * (size / 4096) ≤ length s.kernel_address_space.tables.fresh) where
  abbrev space : AddressSpace
  space = s.kernel_address_space

  abbrev linked : ℕ → AddressSpace
  linked vaddr = record space { mappings = new_mapping ptr vaddr pa size ∷ space.mappings }

  after_map-MmapDone :
      (mask : List ℕ) (slot : ℕ) (r : ℕ × AddressSpace)
      → let vaddr = mmap_base_addr + max_mapping_size * slot in
        Taken mmap_base_addr 0 1024 s.mmap_free_mask slot mask
        → Activates (linked vaddr) (new_mapping ptr vaddr pa size) r
        → MmapDone ptr s pa size (
            if r.0 == 0
            then mapped_at vaddr (record { kernel_address_space = r.1; mmap_free_mask = mask })
            else discard ptr mask
                (unmap_and_remove_memory_region r.1 (new_mapping ptr vaddr pa size)))
  unfolding discard
  after_map-MmapDone mask slot (code, after) taken (inl (zero_code, list, freed, reaches)) =
      rw (eq→== code 0 zero_code) ((slot, refl, taken), reaches, list, freed)
  after_map-MmapDone mask slot (code, after) taken (inr (one_code, list, freed)) =
      let vaddr = mmap_base_addr + max_mapping_size * slot in
      rw (ne→== code 0 (omega arith), remove_inactive after ptr vaddr pa size)
        (
          ap (unlink_mapping ptr) list ∙ unlink_first ptr vaddr pa size space.mappings,
          inr (ap (λ l. ptr ∷ ptr ∷ l) freed),
        )

  create-failed :
      (vaddr pa' size' : ℕ)
      → (ptr == 0) ≡ true
      → create_memory_region space ptr vaddr pa' size' ≡ (0, space)
  unfolding create_memory_region
  create-failed vaddr pa' size' failed = rw failed refl

  create-granted :
      (vaddr pa' size' : ℕ)
      → (ptr == 0) ≡ false
      → create_memory_region space ptr vaddr pa' size'
        ≡ (ptr, record space { mappings = new_mapping ptr vaddr pa' size' ∷ space.mappings })
  unfolding create_memory_region
  create-granted vaddr pa' size' granted = rw granted refl

  mmap_at-MmapDone :
      (r : ℕ × List ℕ)
      → TakesSlot mmap_base_addr 0 1024 s.mmap_free_mask r
      → MmapDone ptr s pa size (mmap_at r.1 ptr r.0 pa size space)
  unfolding mmap_at after_create activate_mapping
  mmap_at-MmapDone (vaddr, mask) (inr (none_free, same, all_used)) =
      rw (eq→== vaddr 0 none_free) (refl, inl refl)
  mmap_at-MmapDone (vaddr, mask) (inl (slot, at_slot, taken)) =
      rw (at_slot, ne→== (mmap_base_addr + max_mapping_size * slot) 0 (omega arith))
        (elim (Bool-cases (ptr == 0)) [
          | inl failed ↦ rw (create-failed _ pa size failed) (refl, inl refl)
          | inr granted ↦
              let m = new_mapping ptr (mmap_base_addr + max_mapping_size * slot) pa size in
              let aspace = linked (mmap_base_addr + max_mapping_size * slot) in
              rw
                (create-granted (mmap_base_addr + max_mapping_size * slot) pa size granted, granted)
                (after_map-MmapDone mask slot (map_memory_region aspace m) taken (
                  map_memory_region_lem aspace m refl rooted (pages.0, omega arith, pages.1)
                    bounds.0 (omega (arith, taken.within), bounds.1) (alike slot) room))
        ])

  -- For page-aligned arguments that the page table code can map, `mmap` returns the lowest free slot,
  -- which is then in use, or 0. If it returns a slot, every address of it is translated to its place
  -- behind the physical start and the new mapping is the first of the list; if it returns 0, the list
  -- is as before, and the mapping has not been made or has been freed three times.
  pub mmap_lem : MmapDone ptr s pa size (mmap ptr s pa size)
  unfolding mmap
  mmap_lem =
      rw
        (
          eq→== _ 0 (bit_and_mask 12 pa ∙ pages.0),
          eq→== _ 0 (bit_and_mask 12 size ∙ pages.1),
          le→ltb max_mapping_size size fits,
        )
        (mmap_at-MmapDone (mmap_get_free_vaddr s.mmap_free_mask)
          (mmap_get_free_vaddr_lem s.mmap_free_mask words))
