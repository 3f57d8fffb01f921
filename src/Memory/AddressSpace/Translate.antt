-- ===== src/Memory/AddressSpace/Translate.antt =====
-- `address_space_virtual_to_physical` of source/memory/address_space.c: the first mapping in the list
-- that holds the address decides, but the start address of a mapping does not count as held.
use mathlib.Core.Path.{subst}
use raspberry_pi_os.Base.{
  ℕ, ◌+◌, ◌-◌, ◌%◌, ◌^◌, ◌≡◌, refl, sym, ◌∙◌, ap, arith, ◌⊎◌, inl, inr, List, [], ◌∷◌, ◌&&◌, ltb,
  ◌==◌, if◌then◌else◌, Bool-cases,
}
use raspberry_pi_os.Memory.AddressSpace.{
  AddressMapping, AddressSpace, region_end, translate_in, address_space_virtual_to_physical,
}
use raspberry_pi_os.Memory.AddressSpace.Overlap.{IsRegion, Covers}

-- Every mapping of the list is a region, and no address lies in two of them.
abbrev pub Apart : AddressMapping → List AddressMapping → Type 0
Apart m [] = Unit {0}
Apart m (other ∷ rest) = ((a : ℕ) → Covers m a → ¬ Covers other a) × Apart m rest

abbrev pub AreDisjoint : List AddressMapping → Type 0
AreDisjoint [] = Unit {0}
AreDisjoint (m ∷ rest) = IsRegion m × Apart m rest × AreDisjoint rest

abbrev pub Listed : AddressMapping → List AddressMapping → Type 0
Listed m [] = ⊥
Listed m (other ∷ rest) = (m ≡ other) ⊎ Listed m rest

region_end_lem : (m : AddressMapping) → IsRegion m → region_end m ≡ m.vaddress + m.size
region_end_lem m r = omega (arith, r.no_wrap)

-- An address of a region that the rest of the list stays clear of is not translated there.
Apart-translate_in :
    (m : AddressMapping) (a : ℕ) (ms : List AddressMapping)
    → Apart m ms
    → Covers m a
    → AreDisjoint ms
    → translate_in ms a ≡ 0
unfolding translate_in
Apart-translate_in m a [] apart c d = refl
Apart-translate_in m a (other ∷ rest) apart c d =
    let out = apart.0 a c in
    let end = region_end_lem other d.0 in
    elim (Bool-cases (ltb other.vaddress a && ltb a (region_end other))) [
      | inl inside ↦ absurd (out (ground arith))
      | inr outside ↦ rw outside (Apart-translate_in m a rest apart.1 c d.2)
    ]

Apart-Listed :
    (m other : AddressMapping) (ms : List AddressMapping)
    → Apart other ms
    → Listed m ms
    → (a : ℕ) → Covers other a
    → ¬ Covers m a
Apart-Listed m other [] apart listed a c c' = listed
Apart-Listed m other (next ∷ ms) apart (inl e) a c c' = apart.0 a c (subst (λ x. Covers x a) e c')
Apart-Listed m other (next ∷ ms) apart (inr later) a c c' =
    Apart-Listed m other ms apart.1 later a c c'

-- What the code answers for an address that a mapping holds.
abbrev pub translated_by : AddressMapping → ℕ → ℕ
translated_by m a = if a == m.vaddress then 0 else (m.paddress + (a - m.vaddress)) % 2 ^ 64

head-translate_in :
    (m : AddressMapping) (ms : List AddressMapping) (a : ℕ)
    → IsRegion m
    → Apart m ms
    → AreDisjoint ms
    → Covers m a
    → translate_in (m ∷ ms) a ≡ translated_by m a
unfolding translate_in
head-translate_in m ms a r apart d c =
    let end = region_end_lem m r in let rest = Apart-translate_in m a ms apart c d in ground arith

mappings-translate_in :
    (m : AddressMapping) (ms : List AddressMapping) (a : ℕ)
    → AreDisjoint ms
    → Listed m ms
    → Covers m a
    → translate_in ms a ≡ translated_by m a
unfolding translate_in
mappings-translate_in m [] a d listed c = absurd listed
mappings-translate_in m (other ∷ ms) a d (inl e) c =
    ap (λ x. translate_in (x ∷ ms) a) (sym e)
    ∙ head-translate_in m ms a (subst IsRegion (sym e) d.0) (subst (λ x. Apart x ms) (sym e) d.1)
        d.2 c
mappings-translate_in m (other ∷ ms) a d (inr later) c =
    let end = region_end_lem other d.0 in
    elim (Bool-cases (ltb other.vaddress a && ltb a (region_end other))) [
      | inl inside ↦ absurd (Apart-Listed m other ms d.1 later a (ground arith) c)
      | inr outside ↦ rw outside (mappings-translate_in m ms a d.2 later c)
    ]

-- When no address lies in two mappings of the list, the mapping that holds an address decides what
-- the address is translated to: its distance from the start is added to the physical start, but at
-- the very start of the mapping the result is 0, as for an address that is not mapped.
pub address_space_virtual_to_physical_lem :
    (s : AddressSpace) (m : AddressMapping) (address : ℕ)
    → AreDisjoint s.mappings
    → Listed m s.mappings
    → Covers m address
    → address_space_virtual_to_physical s address
      ≡ (if address == m.vaddress then 0 else (m.paddress + (address - m.vaddress)) % 2 ^ 64)
unfolding address_space_virtual_to_physical
address_space_virtual_to_physical_lem s m address d listed c =
    mappings-translate_in m s.mappings address d listed c
