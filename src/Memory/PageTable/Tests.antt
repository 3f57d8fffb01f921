-- ===== src/Memory/PageTable/Tests.antt =====
-- Runs of the page table functions, and their theorems at concrete tables.
use raspberry_pi_os.Base.{
  ℕ, zero, suc, ◌+◌, ◌≡◌, refl, sym, ◌∙◌, arith, true, none, some, [], ◌∷◌, ◌==◌, if◌then◌else◌,
}
use raspberry_pi_os.Memory.Page.{va_offset, to_kern, to_phys}
use raspberry_pi_os.Memory.PageTable.{
  walk, alignment_loop, is_leaf_entry, address_index, page_table_insert_table_descriptor,
  write_entry, page_table_insert_descriptor, leaf_descriptor, get_address_from_descriptor, Tables,
  is_table_entry, page_table_alignment, page_table_virtual_to_physical, page_table_block_size,
}
use raspberry_pi_os.Memory.PageTable.Map.{
  MapResult, mapped, failed, out_of_fuel, page_table_map_address, map_loop, map_block, fit_level,
  descend, alloc_table, take_fresh,
}
use raspberry_pi_os.Memory.PageTable.Tree.{zero-IsAbsent}
use raspberry_pi_os.Memory.PageTable.Alignment.{IsAlignment, page_table_alignment_lem}
use raspberry_pi_os.Memory.PageTable.Correct.{IsRooted, Congruent, Maps}
use raspberry_pi_os.Memory.PageTable.Range.{page_table_map_address_lem}

abbrev pub root_table : ℕ
root_table = va_offset + 0x1000

-- An empty root table, and three pages to come.
abbrev pub empty_tables : Tables
empty_tables = record {
  entry = λ t i. 0;
  fresh = (va_offset + 0x2000) ∷ (va_offset + 0x3000) ∷ (va_offset + 0x4000) ∷ [];
}

pub empty-IsRooted : IsRooted empty_tables root_table
empty-IsRooted = record {
  own = λ t. if t == root_table then some (0, 0) else none;
  tree = record {
    linked = λ t level p idx o e. absurd (no-entry level e);
    fresh = (
      (refl, omega arith, omega arith, omega arith, omega arith),
      (
        (refl, omega arith, omega arith, omega arith, omega arith),
        ((refl, omega arith, omega arith, omega arith, tt), tt),
      ),
    );
  };
  at_root = refl;
}
  where
    no-entry : (level : ℕ) → is_table_entry 0 level ≡ true → ⊥
    no-entry level e = cc (sym e ∙ zero-IsAbsent level)

page_table_map_address_lem_example :
    Maps empty_tables root_table 0x40000000 0x40001000 0x5000
      (page_table_map_address empty_tables root_table 0x5000 0x40000000 0x1000)
unfolding page_table_block_size
page_table_map_address_lem_example =
    page_table_map_address_lem empty_tables root_table 0x5000 0x40000000 0x1000 empty-IsRooted
      (omega arith) (omega arith) (omega arith) one_page (omega arith)
  where
    one_page : Congruent 0x5000 0x40000000 0x1000
    one_page zero h fits = absurd (omega arith)
    one_page (suc zero) h fits = absurd (omega arith)
    one_page (suc (suc zero)) h fits = absurd (omega arith)
    one_page (suc (suc (suc zero))) h fits = omega arith
    one_page (suc (suc (suc (suc level)))) h fits = absurd (omega arith)

page_table_alignment_lem_example : IsAlignment 0x200000 (page_table_alignment 0x200000)
page_table_alignment_lem_example = page_table_alignment_lem 0x200000

-- The mapping that the run leaves, read back at an address inside the page and at one outside.
translated : MapResult → ℕ → ℕ
translated (mapped s) a = page_table_virtual_to_physical s root_table a
translated (failed s) a = 0
translated out_of_fuel a = 0

map_then_translate :
    let run = page_table_map_address empty_tables root_table 0x5000 0x40000000 0x1000 in
    (translated run 0x40000123 ≡ 0x5123) × (translated run 0x40001123 ≡ 0)
unfolding translated page_table_map_address page_table_virtual_to_physical walk map_loop map_block
    page_table_alignment alignment_loop page_table_block_size fit_level descend alloc_table
    take_fresh is_table_entry is_leaf_entry address_index page_table_insert_table_descriptor
    write_entry page_table_insert_descriptor leaf_descriptor get_address_from_descriptor to_kern
    to_phys
map_then_translate = (refl, refl)
