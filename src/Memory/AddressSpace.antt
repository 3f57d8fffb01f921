-- ===== src/Memory/AddressSpace.antt =====
-- source/memory/address_space.c: the mappings of an address space, and how one is put into the page
-- table. A mapping is named by its address, as the list links it; `kmalloc` is the argument `ptr`, 0
-- for a failure, and `freed` records the calls of `free`. `print` is left out.
pub mod Unmap
pub mod Overlap
pub mod Translate
mod Tests
use raspberry_pi_os.Base.{
  ℕ, ◌+◌, ◌-◌, ◌%◌, ◌^◌, Bool, true, false, ◌&&◌, ◌||◌, not, List, [], ◌∷◌, map, ltb, leb, ◌==◌,
  if◌then◌else◌,
}
use raspberry_pi_os.Memory.PageTable.{Tables, page_table_virtual_to_physical}
use raspberry_pi_os.Memory.PageTable.Map.{
  MapResult, mapped, failed, out_of_fuel, page_table_map_address,
}

pub record AddressMapping : Type 0 where
  pub ptr : ℕ
  pub vaddress : ℕ
  pub paddress : ℕ
  pub size : ℕ
  pub active : Bool

pub record AddressSpace : Type 0 where
  pub mappings : List AddressMapping
  pub page_table : ℕ
  pub tables : Tables
  pub freed : List ℕ

-- The end of a region, as the 64-bit sum that the code computes.
abbrev pub region_end : AddressMapping → ℕ
region_end m = (m.vaddress + m.size) % 2 ^ 64

unfoldable pub memory_region_overlaps : AddressMapping → AddressMapping → Bool
memory_region_overlaps map1 map2 =
    if not map1.active || not map2.active
    then false
    else if leb map2.vaddress map1.vaddress && ltb map1.vaddress (region_end map2)
    then true
    else if ltb map2.vaddress (region_end map1) && leb (region_end map1) (region_end map2)
    then true
    else ltb map1.vaddress map2.vaddress && ltb (region_end map2) (region_end map1)

unfoldable pub overlaps_any : AddressMapping → List AddressMapping → Bool
overlaps_any m [] = false
overlaps_any m (other ∷ rest) = if memory_region_overlaps m other then true else overlaps_any m rest

-- `map->active = true` in the list that holds the mapping.
unfoldable pub activate : ℕ → List AddressMapping → List AddressMapping
activate ptr [] = []
activate ptr (m ∷ rest) =
    (if m.ptr == ptr then record m { active = true } else m) ∷ activate ptr rest

unfoldable pub after_map : AddressSpace → AddressMapping → MapResult → ℕ × AddressSpace
after_map aspace m (mapped s) =
    (0, record aspace { tables = s; mappings = activate m.ptr aspace.mappings })
after_map aspace m (failed s) = (1, record aspace { tables = s; freed = m.ptr ∷ aspace.freed })
after_map aspace m out_of_fuel = (1, aspace)

unfoldable pub map_memory_region : AddressSpace → AddressMapping → ℕ × AddressSpace
unfolding after_map overlaps_any
map_memory_region aspace m =
    if m.active
    then (1, aspace)
    else if overlaps_any m aspace.mappings
    then (1, record aspace { freed = m.ptr ∷ aspace.freed })
    else after_map aspace m
        (page_table_map_address aspace.tables aspace.page_table m.paddress m.vaddress m.size)

abbrev pub new_mapping : (ptr vaddr paddr size : ℕ) → AddressMapping
new_mapping ptr vaddr paddr size = record {
  ptr = ptr;
  vaddress = vaddr;
  paddress = paddr;
  size = size;
  active = false;
}

-- The result is the pointer to the new mapping, or 0.
unfoldable pub create_memory_region : AddressSpace → (ptr vaddr paddr size : ℕ) → ℕ × AddressSpace
create_memory_region aspace ptr vaddr paddr size =
    if ptr == 0
    then (0, aspace)
    else (ptr, record aspace { mappings = new_mapping ptr vaddr paddr size ∷ aspace.mappings })

unfoldable pub create_memory_region_virt :
    (kernel_table : ℕ) → AddressSpace → (ptr vaddr kaddr size : ℕ) → ℕ × AddressSpace
unfolding create_memory_region
create_memory_region_virt kernel_table aspace ptr vaddr kaddr size =
    let map_to = page_table_virtual_to_physical aspace.tables kernel_table kaddr in
    if map_to == 0 then (0, aspace) else create_memory_region aspace ptr vaddr map_to size

unfoldable pub translate_in : List AddressMapping → ℕ → ℕ
translate_in [] address = 0
translate_in (i ∷ rest) address =
    if ltb i.vaddress address && ltb address (region_end i)
    then (i.paddress + (address - i.vaddress)) % 2 ^ 64
    else translate_in rest address

unfoldable pub address_space_virtual_to_physical : AddressSpace → ℕ → ℕ
unfolding translate_in
address_space_virtual_to_physical s address = translate_in s.mappings address
