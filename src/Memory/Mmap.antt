-- ===== src/Memory/Mmap.antt =====
-- The slots of source/memory/mmap.c and source/alloc/vmalloc.c: both files keep a mask of 1024 bits,
-- one for each slot of 4 GiB of virtual addresses, and search it with the same function. `print` is
-- left out.
pub mod Call
pub mod Reach
mod Tests
use mathlib.Core.Path.{subst}
use raspberry_pi_os.Base.{
  ℕ, zero, suc, ◌+◌, ◌*◌, ◌/◌, ◌%◌, ◌^◌, ◌≤◌, ◌<◌, ◌≡◌, ◌≢◌, refl, sym, arith, inl, inr, ◌⊎◌, List,
  get_or, set, length, length-set, get_or-set_self, get_or-set_ne, bit_and, bit_or, ◌==◌,
  if◌then◌else◌, Bool-cases, ==→eq, ==→ne,
}
use raspberry_pi_os.Base.Bits.Digit.{
  bit, bit-lt, bit-bit_or, bit-pow_self, bit-pow_ne, bit_and-bit_zero, bit_and-bit_one,
}

abbrev pub mmap_base_addr : ℕ
mmap_base_addr = 0x0000A00000000000

abbrev pub vmalloc_base_addr : ℕ
vmalloc_base_addr = 0x0000B00000000000

abbrev pub max_mapping_size : ℕ
max_mapping_size = 0x0000000100000000

abbrev pub max_mappings : ℕ
max_mappings = 1024

-- The loop over the slots, with the number of rounds left.
unfoldable pub slot_loop : (base : ℕ) → ℕ → List ℕ → ℕ → ℕ × List ℕ
slot_loop base zero free_mask i = (0, free_mask)
slot_loop base (suc rounds) free_mask i =
    let rest = slot_loop base rounds free_mask (i + 1) in
    let word = get_or free_mask (i / 64) 0 in
    if bit_and word (2 ^ (i % 64)) == 0
    then (base + max_mapping_size * i, set free_mask (i / 64) (bit_or word (2 ^ (i % 64))))
    else rest

unfoldable pub mmap_get_free_vaddr : List ℕ → ℕ × List ℕ
mmap_get_free_vaddr mmap_free_mask = slot_loop mmap_base_addr max_mappings mmap_free_mask 0

unfoldable pub vmalloc_get_free_vaddr : List ℕ → ℕ × List ℕ
vmalloc_get_free_vaddr vmalloc_free_mask =
    slot_loop vmalloc_base_addr max_mappings vmalloc_free_mask 0

abbrev pub IsUsed : List ℕ → ℕ → Type 0
IsUsed free_mask i = bit (i % 64) (get_or free_mask (i / 64) 0) ≡ 1

-- The lowest free slot from `lo` on, below `hi`, was taken, and only that.
pub record Taken (base lo hi : ℕ) (before : List ℕ) (slot : ℕ) (after : List ℕ) : Type 0 where
  pub within : (lo ≤ slot) × (slot < hi)
  pub was_free : ¬ IsUsed before slot
  pub lower_used : (j : ℕ) → lo ≤ j → j < slot → IsUsed before j
  pub now_used : IsUsed after slot
  pub others_kept :
      (j : ℕ)
      → j ≢ slot
      → bit (j % 64) (get_or after (j / 64) 0) ≡ bit (j % 64) (get_or before (j / 64) 0)
  pub same_length : length after ≡ length before

abbrev pub TakesSlot : (base lo hi : ℕ) → List ℕ → ℕ × List ℕ → Type 0
TakesSlot base lo hi before (vaddr, after) =
    ((slot : ℕ) × (vaddr ≡ base + max_mapping_size * slot) × Taken base lo hi before slot after)
    ⊎ ((vaddr ≡ 0) × (after ≡ before) × ((j : ℕ) → lo ≤ j → j < hi → IsUsed before j))

-- A search from the next slot, when the slot itself is in use.
TakesSlot-skip :
    (base i hi : ℕ) (mask : List ℕ) (r : ℕ × List ℕ)
    → IsUsed mask i
    → TakesSlot base (i + 1) hi mask r
    → TakesSlot base i hi mask r
TakesSlot-skip base i hi mask (vaddr, after) used (inl (slot, e, t)) = inl (
  slot,
  e,
  record {
    within = omega (arith, t.within);
    was_free = t.was_free;
    lower_used = λ j lo below. skip j (λ lo'. t.lower_used j lo' below) lo;
    now_used = t.now_used;
    others_kept = t.others_kept;
    same_length = t.same_length;
  },
)
  where
    skip : (j : ℕ) → (i + 1 ≤ j → IsUsed mask j) → i ≤ j → IsUsed mask j
    skip j later lo = elim (Bool-cases (i == j)) [
      | inl same ↦ subst (IsUsed mask) (==→eq i j same) used
      | inr other ↦ let ne = ==→ne i j other in later (omega arith)
    ]
TakesSlot-skip base i hi mask (vaddr, after) used (inr (z, same, all)) = inr (z, same, rest)
  where
    rest : (j : ℕ) → i ≤ j → j < hi → IsUsed mask j
    rest j lo below = elim (Bool-cases (i == j)) [
      | inl same ↦ subst (IsUsed mask) (==→eq i j same) used
      | inr other ↦ let ne = ==→ne i j other in all j (omega arith) below
    ]

module _ (base : ℕ) (mask : List ℕ) (words : length mask ≡ 16) where
  abbrev taken : ℕ → List ℕ
  taken i = set mask (i / 64) (bit_or (get_or mask (i / 64) 0) (2 ^ (i % 64)))

  taken_self : (i : ℕ) → i < 1024 → IsUsed (taken i) i
  taken_self i h =
      rw
        (
          get_or-set_self mask (i / 64) (bit_or (get_or mask (i / 64) 0) (2 ^ (i % 64))) 0
              (omega arith),
          bit-bit_or (i % 64) (get_or mask (i / 64) 0) (2 ^ (i % 64)),
          bit-pow_self (i % 64),
        )
        (omega (arith, bit-lt (i % 64) (get_or mask (i / 64) 0)))

  taken_other :
      (i j : ℕ)
      → i < 1024
      → j ≢ i
      → bit (j % 64) (get_or (taken i) (j / 64) 0) ≡ bit (j % 64) (get_or mask (j / 64) 0)
  taken_other i j h ne = elim (Bool-cases (j / 64 == i / 64)) [
    | inl same ↦
        let e : j / 64 ≡ i / 64 = ==→eq _ _ same in
        let bits : j % 64 ≢ i % 64 = λ e'. ne (omega arith) in
        rw
          (
            e,
            get_or-set_self mask (i / 64) (bit_or (get_or mask (i / 64) 0) (2 ^ (i % 64))) 0
                (omega arith),
            bit-bit_or (j % 64) (get_or mask (i / 64) 0) (2 ^ (i % 64)),
            bit-pow_ne (j % 64) (i % 64) bits,
          )
          (omega arith)
    | inr other ↦
        let e : i / 64 ≢ j / 64 = λ e'. ==→ne _ _ other (sym e') in
        rw
          (get_or-set_ne mask (i / 64) (j / 64) (bit_or (get_or mask (i / 64) 0) (2 ^ (i % 64))) 0
            e)
          refl
  ]

  take_slot :
      (i hi : ℕ)
      → i < hi
      → hi ≤ 1024
      → bit_and (get_or mask (i / 64) 0) (2 ^ (i % 64)) ≡ 0
      → Taken base i hi mask i (set mask (i / 64) (bit_or (get_or mask (i / 64) 0) (2 ^ (i % 64))))
  take_slot i hi lt top free = record {
    within = omega arith;
    was_free = λ used. absurd (omega (arith, used, bit_and-bit_zero (i % 64) _ free));
    lower_used = λ j lo below. absurd (omega arith);
    now_used = taken_self i (omega arith);
    others_kept = λ j ne. taken_other i j (omega arith) ne;
    same_length = length-set mask (i / 64) _;
  }

  pub slot_loop-TakesSlot :
      (rounds i hi : ℕ)
      → i + rounds ≡ hi
      → hi ≤ 1024
      → TakesSlot base i hi mask (slot_loop base rounds mask i)
  unfolding slot_loop
  slot_loop-TakesSlot zero i hi e top = inr (refl, refl, λ j lo below. absurd (omega arith))
  slot_loop-TakesSlot (suc rounds) i hi e top =
      elim (Bool-cases (bit_and (get_or mask (i / 64) 0) (2 ^ (i % 64)) == 0)) [
        | inl free ↦ rw free (inl (i, refl, take_slot i hi (omega arith) top (==→eq _ 0 free)))
        | inr busy ↦ rw busy (
            TakesSlot-skip base i hi mask _ (bit_and-bit_one (i % 64) _ (==→ne _ 0 busy))
              (slot_loop-TakesSlot rounds (i + 1) hi (omega arith) top))
      ]

-- With the mask of 16 words, `mmap` is given the lowest free slot, which is then in use while the
-- bits of all others stay; only when all 1024 are in use the result is 0, and the mask is as before.
pub mmap_get_free_vaddr_lem :
    (mask : List ℕ)
    → length mask ≡ 16
    → TakesSlot mmap_base_addr 0 1024 mask (mmap_get_free_vaddr mask)
unfolding mmap_get_free_vaddr
mmap_get_free_vaddr_lem mask words =
    slot_loop-TakesSlot mmap_base_addr mask words 1024 0 1024 refl (omega arith)

-- `vmalloc` searches the same way over its own mask and its own range of addresses: the lowest free
-- slot is taken and no other bit changes, or all 1024 are in use and the mask is as before.
pub vmalloc_get_free_vaddr_lem :
    (mask : List ℕ)
    → length mask ≡ 16
    → TakesSlot vmalloc_base_addr 0 1024 mask (vmalloc_get_free_vaddr mask)
unfolding vmalloc_get_free_vaddr
vmalloc_get_free_vaddr_lem mask words =
    slot_loop-TakesSlot vmalloc_base_addr mask words 1024 0 1024 refl (omega arith)
