-- ===== src/Memory/PageTable.antt =====
-- source/memory/pagetable.c. A table is named by its kernel address and holds 512 entries, so the
-- memory of all tables is a function of an address and an index. `fresh` lists what the next calls
-- of `kmalloc(PAGE_SIZE, ALLOC_ZERO_INIT)` return; 0 is a failure, which the code does not test.
pub mod Index
pub mod Map
pub mod Unmap
pub mod Tree
pub mod Grow
pub mod Descend
pub mod Alignment
pub mod Frame
pub mod Leaf
pub mod Correct
pub mod Range
pub mod Tests
use raspberry_pi_os.Base.{
  ℕ, zero, suc, ◌+◌, ◌-◌, ◌*◌, ◌/◌, ◌%◌, ◌^◌, ◌≤◌, ◌<◌, Bool, true, false, ◌&&◌, ◌||◌, not, Option,
  none, some, List, [], ◌∷◌, arith, ltb, ◌==◌, if◌then◌else◌, bit_and, bit_or,
}
use raspberry_pi_os.Memory.Page.{page_size, page_table_entries, complement64, to_kern, to_phys}

pub record Tables : Type 0 where
  pub entry : ℕ → ℕ → ℕ
  pub fresh : List ℕ

-- The width of what a level's index leaves over: `(3 - level) * 9 + 12`.
abbrev pub level_shift : ℕ → ℕ
level_shift level = (3 - level) * 9 + 12

unfoldable pub address_index : ℕ → ℕ → ℕ
address_index addr level = bit_and (addr / 2 ^ level_shift level) (page_table_entries - 1)

unfoldable pub is_table_entry : ℕ → ℕ → Bool
is_table_entry entry level = if level == 3 then false else bit_and entry 3 == 3

unfoldable pub is_leaf_entry : ℕ → ℕ → Bool
is_leaf_entry entry level = if level == 3 then bit_and entry 3 == 3 else bit_and entry 3 == 1

unfoldable pub get_address_from_descriptor : ℕ → ℕ
get_address_from_descriptor desc = bit_and desc 0x0000FFFFFFFFF000

unfoldable pub write_entry : Tables → ℕ → ℕ → ℕ → Tables
write_entry s table index v = record s {
  entry = λ t i. if (t == table) && (i == index) then v else s.entry t i;
}

unfoldable pub page_table_insert_table_descriptor : Tables → ℕ → ℕ → ℕ → ℕ → Tables
page_table_insert_table_descriptor s table next_table target_address level =
    write_entry s table (address_index target_address level) (bit_or next_table 3)

-- The leaf descriptor that maps to `pa`: valid, 0b10 at level 3, access flag, access from EL0.
unfoldable pub leaf_descriptor : ℕ → ℕ → ℕ
leaf_descriptor pa level =
    let valid = bit_or pa 1 in
    let page = if level == 3 then bit_or valid 2 else valid in bit_or (bit_or page 0x400) 0x40

unfoldable pub page_table_insert_descriptor : Tables → ℕ → ℕ → ℕ → ℕ → Tables
page_table_insert_descriptor s table pa va level =
    write_entry s table (address_index va level) (leaf_descriptor pa level)

-- The loop over the levels, with the number of rounds left.
unfoldable pub walk : ℕ → Tables → ℕ → ℕ → ℕ → ℕ
walk zero s level table a = 0
walk (suc rounds) s level table a =
    let entry = s.entry table (address_index a level) in
    let deeper = walk rounds s (suc level) (to_kern (get_address_from_descriptor entry)) a in
    if is_table_entry entry level
    then deeper
    else if is_leaf_entry entry level
    then bit_or (get_address_from_descriptor entry) (bit_and (2 ^ level_shift level - 1) a)
    else 0

unfoldable pub page_table_virtual_to_physical : Tables → ℕ → ℕ → ℕ
page_table_virtual_to_physical s table a = walk 4 s 0 table a

unfoldable pub page_table_block_size : ℕ → ℕ
page_table_block_size level = 2 ^ level_shift level

-- The loop of `page_table_alignment`, `level + 1` first; `none` is the result -1.
unfoldable pub alignment_loop : ℕ → ℕ → Option ℕ
alignment_loop zero address = some 0
alignment_loop (suc level) address =
    let next = alignment_loop level address in
    if bit_and address (page_table_block_size level - 1) == 0
    then next
    else if level == 3
    then none
    else some (level + 1)

unfoldable pub page_table_alignment : ℕ → Option ℕ
page_table_alignment address = alignment_loop 4 address
