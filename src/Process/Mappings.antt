-- ===== src/Process/Mappings.antt =====
-- `remove_process_mappings` of source/process/process.c, and the list of mappings after it.
use raspberry_pi_os.Base.{
  ℕ, ◌≡◌, ◌≢◌, refl, sym, ap, ◌∙◌, false, Option, none, some, List, [], ◌∷◌, ◌++◌, map, ◌==◌,
  if◌then◌else◌, Bool-cases, Option-cases, inl, inr, eq→==, ne→==,
}
use mathlib.Core.Option.{none-ne-some, some-injective}
use raspberry_pi_os.Memory.PageTable.Unmap.{
  UnmapResult, unmapped, unaligned, unmap_panicked, unmap_no_fuel, page_table_unmap_address,
}
use raspberry_pi_os.Memory.AddressSpace.{AddressMapping, AddressSpace}
use raspberry_pi_os.Memory.AddressSpace.Unmap.{
  Unmapping, returned, halted, deactivate, after_unmap, unmap_memory_region,
}

-- The test of the code that `unmap_memory_region` returns: the kernel panics at any but 0.
unfoldable pub unmapped_or_panic : Unmapping → Option AddressSpace
unmapped_or_panic halted = none
unmapped_or_panic (returned code aspace) = if code == 0 then some aspace else none

abbrev or_panic : Option AddressSpace → (AddressSpace → Option AddressSpace) → Option AddressSpace
or_panic none continue = none
or_panic (some aspace) continue = continue aspace

-- The loop over the list; unmapping changes no field of a later mapping.
unfoldable pub remove_mappings : List AddressMapping → AddressSpace → Option AddressSpace
unfolding unmapped_or_panic
remove_mappings [] aspace = some aspace
remove_mappings (i ∷ rest) aspace =
    or_panic (unmapped_or_panic (unmap_memory_region aspace i)) (λ next. remove_mappings rest next)

unfoldable pub remove_process_mappings : AddressSpace → Option AddressSpace
unfolding remove_mappings
remove_process_mappings aspace = remove_mappings aspace.mappings aspace

abbrev pub inactive : AddressMapping → AddressMapping
inactive m = record m { active = false }

-- No mapping has the address of another one behind it.
abbrev pub HasNo : ℕ → List AddressMapping → Type 0
HasNo ptr [] = Unit {0}
HasNo ptr (m ∷ rest) = (m.ptr ≢ ptr) × HasNo ptr rest

abbrev pub AreApart : List AddressMapping → Type 0
AreApart [] = Unit {0}
AreApart (m ∷ rest) = HasNo m.ptr rest × AreApart rest

deactivate-HasNo : (ptr : ℕ) (ms : List AddressMapping) → HasNo ptr ms → deactivate ptr ms ≡ ms
unfolding deactivate
deactivate-HasNo ptr [] others = refl
deactivate-HasNo ptr (m ∷ ms) others =
    rw (ne→== m.ptr ptr others.0, deactivate-HasNo ptr ms others.1) refl

-- The mappings in front are inactive already.
deactivate-inactive :
    (front : List AddressMapping) (i : AddressMapping) (rest : List AddressMapping)
    → HasNo i.ptr rest
    → deactivate i.ptr (map inactive front ++ (i ∷ rest))
      ≡ map inactive front ++ (inactive i ∷ rest)
unfolding deactivate
deactivate-inactive [] i rest others =
    rw (eq→== i.ptr i.ptr refl, deactivate-HasNo i.ptr rest others) refl
deactivate-inactive (m ∷ front) i rest others = elim (Bool-cases (m.ptr == i.ptr)) [
  | inl e ↦ rw (deactivate-inactive front i rest others, e) refl
  | inr e ↦ rw (deactivate-inactive front i rest others, e) refl
]

-- What one round of the loop does to the list.
abbrev switched_off : List AddressMapping → AddressMapping → List AddressMapping
switched_off ms i = if i.active then deactivate i.ptr ms else ms

after_unmap-mappings :
    (aspace next : AddressSpace) (i : AddressMapping) (r : UnmapResult)
    → unmapped_or_panic (after_unmap aspace i r) ≡ some next
    → next.mappings ≡ deactivate i.ptr aspace.mappings
unfolding unmapped_or_panic after_unmap
after_unmap-mappings aspace next i (unmapped s) e =
    ap (λ a. a.mappings) (sym (some-injective _ next e))
after_unmap-mappings aspace next i (unaligned s) e = absurd (none-ne-some next e)
after_unmap-mappings aspace next i unmap_panicked e = absurd (none-ne-some next e)
after_unmap-mappings aspace next i unmap_no_fuel e = absurd (none-ne-some next e)

unmap_memory_region-mappings :
    (aspace next : AddressSpace) (i : AddressMapping)
    → unmapped_or_panic (unmap_memory_region aspace i) ≡ some next
    → next.mappings ≡ switched_off aspace.mappings i
unfolding unmap_memory_region unmapped_or_panic
unmap_memory_region-mappings aspace next i done = elim (Bool-cases i.active) [
  | inl on ↦ rw on (
      after_unmap-mappings aspace next i
        (page_table_unmap_address (record { tables = aspace.tables; pruned = aspace.freed })
          aspace.page_table i.vaddress i.size)
        (rw on at done))
  | inr off ↦
      let same : some aspace ≡ some next = rw off at done in
      rw off (ap (λ a. a.mappings) (sym (some-injective aspace next same)))
]

switched_off-inactive :
    (front : List AddressMapping) (i : AddressMapping) (rest : List AddressMapping)
    → HasNo i.ptr rest
    → switched_off (map inactive front ++ (i ∷ rest)) i ≡ map inactive front ++ (inactive i ∷ rest)
switched_off-inactive front i rest others =
    let ms = map inactive front ++ (i ∷ rest) in
    elim (Bool-cases i.active) [
      | inl on ↦
          ap (λ b. if b then deactivate i.ptr ms else ms) on
          ∙ deactivate-inactive front i rest others
      | inr off ↦
          ap (λ b. if b then deactivate i.ptr ms else ms) off
          ∙ ap (λ b. map inactive front ++ (record i { active = b } ∷ rest)) off
    ]

inactive_then :
    (front : List AddressMapping) (i : AddressMapping) (ys : List AddressMapping)
    → map inactive (front ++ (i ∷ [])) ++ ys ≡ map inactive front ++ (inactive i ∷ ys)
inactive_then [] i ys = refl
inactive_then (m ∷ front) i ys = ap (λ t. inactive m ∷ t) (inactive_then front i ys)

remove_mappings-inactive :
    (front rest : List AddressMapping) (aspace next : AddressSpace)
    → AreApart rest
    → aspace.mappings ≡ map inactive front ++ rest
    → remove_mappings rest aspace ≡ some next
    → next.mappings ≡ map inactive front ++ map inactive rest
unfolding remove_mappings
remove_mappings-inactive front [] aspace next apart place done =
    ap (λ a. a.mappings) (sym (some-injective aspace next done)) ∙ place
remove_mappings-inactive front (i ∷ rest) aspace next apart place done =
    elim (Option-cases (unmapped_or_panic (unmap_memory_region aspace i))) [
      | inl panics ↦ absurd (
          none-ne-some next
            (sym (ap (λ o. or_panic o (λ a. remove_mappings rest a)) panics) ∙ done))
      | inr (after, unmapped_i) ↦
          let now : after.mappings ≡ map inactive (front ++ (i ∷ [])) ++ rest =
            unmap_memory_region-mappings aspace after i unmapped_i
            ∙ (rw place (switched_off-inactive front i rest apart.0)
                ∙ sym (inactive_then front i rest)) in
          remove_mappings-inactive (front ++ (i ∷ [])) rest after next apart.1 now
            (sym (ap (λ o. or_panic o (λ a. remove_mappings rest a)) unmapped_i) ∙ done)
          ∙ inactive_then front i (map inactive rest)
    ]

-- When no mapping stands in the list twice and the kernel does not panic, every mapping is inactive
-- afterwards, and the list still holds all of them.
pub remove_process_mappings_lem :
    (aspace next : AddressSpace)
    → AreApart aspace.mappings
    → remove_process_mappings aspace ≡ some next
    → next.mappings ≡ map inactive aspace.mappings
unfolding remove_process_mappings
remove_process_mappings_lem aspace next apart done =
    remove_mappings-inactive [] aspace.mappings aspace next apart refl done
