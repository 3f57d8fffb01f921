-- ===== src/Memory/AddressSpace/Overlap.antt =====
-- The overlap test of source/memory/address_space.c, and how `map_memory_region` uses it.
use raspberry_pi_os.Base.{
  ℕ, ◌+◌, ◌-◌, ◌*◌, ◌/◌, ◌%◌, ◌^◌, ◌≤◌, ◌<◌, ◌≡◌, ◌↔◌, refl, sym, ◌∙◌, ap, arith, true, false, List,
  [], ◌∷◌, length, if◌then◌else◌, max, Bool-cases, inl, inr, ◌⊎◌,
}
use raspberry_pi_os.Memory.PageTable.{page_table_virtual_to_physical}
use raspberry_pi_os.Memory.PageTable.Map.{
  MapResult, mapped, failed, out_of_fuel, page_table_map_address,
}
use raspberry_pi_os.Memory.PageTable.Correct.{IsRooted, Congruent, Maps}
use raspberry_pi_os.Memory.PageTable.Range.{page_table_map_address_lem}
use raspberry_pi_os.Memory.AddressSpace.{
  AddressMapping, AddressSpace, memory_region_overlaps, overlaps_any, after_map, map_memory_region,
  activate,
}

-- A region of at least one byte that does not wrap.
pub record IsRegion (m : AddressMapping) : Type 0 where
  pub nonempty : 0 < m.size
  pub no_wrap : m.vaddress + m.size < 2 ^ 64

abbrev pub Covers : AddressMapping → ℕ → Type 0
Covers m a = (m.vaddress ≤ a) × (a < m.vaddress + m.size)

-- Two active regions overlap, as the code tests it, exactly when some address lies in both.
pub memory_region_overlaps_lem :
    (map1 map2 : AddressMapping)
    → map1.active ≡ true
    → map2.active ≡ true
    → IsRegion map1
    → IsRegion map2
    → (memory_region_overlaps map1 map2 ≡ true) ↔ ((a : ℕ) × Covers map1 a × Covers map2 a)
unfolding memory_region_overlaps
memory_region_overlaps_lem map1 map2 on1 on2 r1 r2 = (
  λ h. (max map1.vaddress map2.vaddress, ground arith, ground arith),
  λ (a, c1, c2). ground arith,
)

inactive-overlaps :
    (m other : AddressMapping) → m.active ≡ false → memory_region_overlaps m other ≡ false
unfolding memory_region_overlaps
inactive-overlaps m other off = rw off refl

inactive-overlaps_any :
    (m : AddressMapping) (ms : List AddressMapping) → m.active ≡ false → overlaps_any m ms ≡ false
unfolding overlaps_any
inactive-overlaps_any m [] off = refl
inactive-overlaps_any m (other ∷ ms) off =
    rw (inactive-overlaps m other off) (inactive-overlaps_any m ms off)

pub map_inactive :
    (aspace : AddressSpace) (m : AddressMapping)
    → m.active ≡ false
    → map_memory_region aspace m
      ≡ after_map aspace m
          (page_table_map_address aspace.tables aspace.page_table m.paddress m.vaddress m.size)
unfolding map_memory_region
map_inactive aspace m off =
    let mapping =
      after_map aspace m
        (page_table_map_address aspace.tables aspace.page_table m.paddress m.vaddress m.size) in
    let clash : ℕ × AddressSpace = (1, record aspace { freed = m.ptr ∷ aspace.freed }) in
    ap (λ b. if b then (1, aspace) else if overlaps_any m aspace.mappings then clash else mapping)
      off
    ∙ ap (λ b. if b then clash else mapping) (inactive-overlaps_any m aspace.mappings off)

map_active :
    (aspace : AddressSpace) (m : AddressMapping)
    → m.active ≡ true
    → (map_memory_region aspace m).0 ≡ 1
unfolding map_memory_region
map_active aspace m on = ground arith

-- `map_memory_region` only maps what is not active yet, and then its overlap test never fires: what
-- it returns does not depend on the mappings that the address space has.
pub map_memory_region_ignores_mappings :
    (aspace : AddressSpace) (m : AddressMapping) (others : List AddressMapping)
    → (map_memory_region aspace m).0 ≡ (map_memory_region (record aspace { mappings = others }) m).0
unfolding after_map
map_memory_region_ignores_mappings aspace m others = elim (Bool-cases m.active) [
  | inl on ↦ map_active aspace m on ∙ sym (map_active (record aspace { mappings = others }) m on)
  | inr off ↦
      ap (λ r. r.0) (map_inactive aspace m off)
      ∙ same_code
          (page_table_map_address aspace.tables aspace.page_table m.paddress m.vaddress m.size)
      ∙ sym (ap (λ r. r.0) (map_inactive (record aspace { mappings = others }) m off))
]
  where
    same_code :
        (r : MapResult)
        → (after_map aspace m r).0 ≡ (after_map (record aspace { mappings = others }) m r).0
    same_code (mapped s) = refl
    same_code (failed s) = refl
    same_code out_of_fuel = refl

-- What is left behind when a mapping is activated, by the returned code.
abbrev pub Activates : AddressSpace → AddressMapping → ℕ × AddressSpace → Type 0
Activates before m (code, after) =
    ((code ≡ 0)
      × (after.mappings ≡ activate m.ptr before.mappings)
      × (after.freed ≡ before.freed)
      × ((a : ℕ)
          → m.vaddress ≤ a
          → a < m.vaddress + m.size
          → page_table_virtual_to_physical after.tables after.page_table a
            ≡ m.paddress + (a - m.vaddress)))
    ⊎ ((code ≡ 1) × (after.mappings ≡ before.mappings) × (after.freed ≡ m.ptr ∷ before.freed))

-- Activating an inactive mapping that meets the conditions of the page table code returns 0, marks it
-- active and makes each of its addresses translate to its place behind the physical start; or it
-- returns 1, and then the mapping has been freed although the list still links it.
pub map_memory_region_lem :
    (aspace : AddressSpace) (m : AddressMapping)
    → m.active ≡ false
    → IsRooted aspace.tables aspace.page_table
    → (m.paddress % 4096 ≡ 0) × (m.vaddress % 4096 ≡ 0) × (m.size % 4096 ≡ 0)
    → 0 < m.paddress
    → (m.vaddress + m.size ≤ 2 ^ 48) × (m.paddress + m.size ≤ 2 ^ 48)
    → Congruent m.paddress m.vaddress m.size
    → 3 * (m.size / 4096) ≤ length aspace.tables.fresh
    → Activates aspace m (map_memory_region aspace m)
unfolding after_map
map_memory_region_lem aspace m off rooted pages positive bounds alike room =
    rw (map_inactive aspace m off) (
      outcome (page_table_map_address aspace.tables aspace.page_table m.paddress m.vaddress m.size)
        (page_table_map_address_lem aspace.tables aspace.page_table m.paddress m.vaddress m.size
          rooted pages positive bounds alike room))
  where
    outcome :
        (r : MapResult)
        → Maps aspace.tables aspace.page_table m.vaddress (m.vaddress + m.size) m.paddress r
        → Activates aspace m (after_map aspace m r)
    outcome (mapped s) maps = inl (refl, refl, refl, maps.1)
    outcome (failed s) maps = inr (refl, refl, refl)
    outcome out_of_fuel bad = absurd bad
