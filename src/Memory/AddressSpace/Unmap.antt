-- ===== src/Memory/AddressSpace/Unmap.antt =====
-- How a mapping of source/memory/address_space.c is taken out of the page table and the list, and the
-- address space that the kernel starts with. The tables that are pruned count as freed.
use raspberry_pi_os.Base.{
  ℕ, ◌*◌, true, false, Option, none, some, List, [], ◌∷◌, ◌==◌, if◌then◌else◌,
}
use raspberry_pi_os.Alloc.Heap.{Heap, kmalloc, free}
use raspberry_pi_os.Memory.Page.{page_size, page_table_entries, va_offset}
use raspberry_pi_os.Memory.PageTable.Unmap.{
  UnmapResult, unmapped, unaligned, unmap_panicked, unmap_no_fuel, page_table_unmap_address,
}
use raspberry_pi_os.Memory.AddressSpace.{AddressMapping, AddressSpace}

-- `mapping->active = false` in the list that holds the mapping.
unfoldable pub deactivate : ℕ → List AddressMapping → List AddressMapping
deactivate ptr [] = []
deactivate ptr (m ∷ rest) =
    (if m.ptr == ptr then record m { active = false } else m) ∷ deactivate ptr rest

-- The call returns a code, or the kernel panics; with a range that wraps, the loop may not end.
pub data Unmapping : Type 0 where
  returned : (code : ℕ) → AddressSpace → Unmapping
  halted : Unmapping

unfoldable pub after_unmap : AddressSpace → AddressMapping → UnmapResult → Unmapping
unfolding deactivate
after_unmap aspace m (unmapped s) = returned 0 (record aspace {
  tables = s.tables;
  freed = s.pruned;
  mappings = deactivate m.ptr aspace.mappings;
})
after_unmap aspace m (unaligned s) = returned 1 aspace
after_unmap aspace m unmap_panicked = halted
after_unmap aspace m unmap_no_fuel = halted

unfoldable pub unmap_memory_region : AddressSpace → AddressMapping → Unmapping
unfolding after_unmap
unmap_memory_region aspace m =
    if m.active
    then after_unmap aspace m (
        page_table_unmap_address (record { tables = aspace.tables; pruned = aspace.freed })
          aspace.page_table m.vaddress m.size)
    else returned 0 aspace

-- The links of the neighbours skip the mapping.
unfoldable pub unlink_mapping : ℕ → List AddressMapping → List AddressMapping
unlink_mapping ptr [] = []
unlink_mapping ptr (m ∷ rest) =
    let later = unlink_mapping ptr rest in if m.ptr == ptr then rest else m ∷ later

unfoldable pub after_removal : ℕ → Unmapping → Unmapping
unfolding unlink_mapping
after_removal ptr halted = halted
after_removal ptr (returned code aspace) =
    if code == 0
    then returned 0 (record aspace {
      mappings = unlink_mapping ptr aspace.mappings;
      freed = ptr ∷ aspace.freed;
    })
    else returned code aspace

unfoldable pub unmap_and_remove_memory_region : AddressSpace → AddressMapping → Unmapping
unfolding after_removal
unmap_and_remove_memory_region aspace m = after_removal m.ptr (unmap_memory_region aspace m)

-- The addresses of the new address space and of its two mappings, the identity mapping first.
pub record KernelSpace : Type 0 where
  pub ptr : ℕ
  pub mappings : List AddressMapping
  pub id_mapping : ℕ

-- One gigabyte from the physical address 0 on.
abbrev pub early_mapping : (ptr vaddr : ℕ) → AddressMapping
early_mapping ptr vaddr = record {
  ptr = ptr;
  vaddress = vaddr;
  paddress = 0;
  size = page_size * page_table_entries * page_table_entries;
  active = true;
}

unfoldable pub init_kernel_address_space_struct : Heap → Option KernelSpace × Heap
init_kernel_address_space_struct h =
    let (kaddrspace, h1) = kmalloc h in
    let (new_map, h2) = kmalloc h1 in
    let (new_id_map, h3) = kmalloc h2 in
    if kaddrspace == 0
    then (none, h1)
    else if new_map == 0
    then (none, free kaddrspace h2)
    else if new_id_map == 0
    then (none, free new_map (free kaddrspace h3))
    else (
      some (record {
        ptr = kaddrspace;
        mappings = early_mapping new_id_map 0 ∷ early_mapping new_map va_offset ∷ [];
        id_mapping = new_id_map;
      }),
      h3,
    )
