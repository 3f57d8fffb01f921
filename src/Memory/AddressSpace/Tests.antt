-- ===== src/Memory/AddressSpace/Tests.antt =====
-- Runs of the address space functions, and of the search for a slot, and their theorems at them.
use raspberry_pi_os.Base.{ℕ, ◌≡◌, ◌↔◌, refl, arith, true, inl, List, [], ◌∷◌, replicate, zero, suc}
use raspberry_pi_os.Memory.AddressSpace.{
  AddressMapping, AddressSpace, memory_region_overlaps, map_memory_region, new_mapping,
  address_space_virtual_to_physical,
}
use raspberry_pi_os.Memory.AddressSpace.Overlap.{
  Covers, Activates, memory_region_overlaps_lem, map_memory_region_ignores_mappings,
  map_memory_region_lem,
}
use raspberry_pi_os.Memory.AddressSpace.Translate.{address_space_virtual_to_physical_lem}
use raspberry_pi_os.Memory.PageTable.Correct.{Congruent}
use raspberry_pi_os.Memory.PageTable.{page_table_block_size}
use raspberry_pi_os.Memory.PageTable.Tests.{root_table, empty_tables, empty-IsRooted}

abbrev no_slots_used : List ℕ
no_slots_used = replicate 16 0

abbrev stack : AddressMapping
stack = record {
  ptr = 0x500;
  vaddress = 0x40000000;
  paddress = 0x5000;
  size = 0x1000;
  active = true;
}

abbrev heap : AddressMapping
heap = record {
  ptr = 0x600;
  vaddress = 0x40000800;
  paddress = 0x9000;
  size = 0x1000;
  active = true;
}

memory_region_overlaps_lem_example :
    (memory_region_overlaps stack heap ≡ true) ↔ ((a : ℕ) × Covers stack a × Covers heap a)
memory_region_overlaps_lem_example =
    memory_region_overlaps_lem stack heap refl refl
      (record { nonempty = omega arith; no_wrap = omega arith })
      (record { nonempty = omega arith; no_wrap = omega arith })

abbrev page : AddressMapping
page = new_mapping 0x700 0x40000000 0x5000 0x1000

abbrev space : AddressSpace
space = record {
  mappings = page ∷ stack ∷ [];
  page_table = root_table;
  tables = empty_tables;
  freed = [];
}

map_memory_region_ignores_mappings_example :
    (map_memory_region space page).0
    ≡ (map_memory_region (record space { mappings = heap ∷ [] }) page).0
map_memory_region_ignores_mappings_example =
    map_memory_region_ignores_mappings space page (heap ∷ [])

map_memory_region_lem_example : Activates space page (map_memory_region space page)
unfolding page_table_block_size
map_memory_region_lem_example =
    map_memory_region_lem space page refl empty-IsRooted (omega arith) (omega arith) (omega arith)
      one_page (omega arith)
  where
    one_page : Congruent 0x5000 0x40000000 0x1000
    one_page zero h fits = absurd (omega arith)
    one_page (suc zero) h fits = absurd (omega arith)
    one_page (suc (suc zero)) h fits = absurd (omega arith)
    one_page (suc (suc (suc zero))) h fits = omega arith
    one_page (suc (suc (suc (suc level)))) h fits = absurd (omega arith)

abbrev one_mapping : AddressSpace
one_mapping = record space { mappings = stack ∷ [] }

address_space_virtual_to_physical_lem_example :
    address_space_virtual_to_physical one_mapping 0x40000010 ≡ 0x5010
address_space_virtual_to_physical_lem_example =
    address_space_virtual_to_physical_lem one_mapping stack 0x40000010
      (record { nonempty = omega arith; no_wrap = omega arith }, tt, tt) (inl refl) (omega arith)
