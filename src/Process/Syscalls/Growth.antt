-- ===== src/Process/Syscalls/Growth.antt =====
-- `syscall_sbrk` of source/syscalls/sbrk.c, and its one mistake.
use raspberry_pi_os.Base.{
  ℕ, ◌+◌, ◌-◌, ◌%◌, ◌^◌, ◌≤◌, ◌<◌, ◌≡◌, ◌≢◌, refl, arith, true, false, ◌&&◌, not, List, ◌∷◌, ltb,
  ◌==◌, ◌⊎◌, inl, inr, Bool-cases, eq→==,
}
use raspberry_pi_os.Memory.Page.{round_up_to_page}
use raspberry_pi_os.Memory.PageTable.{page_table_virtual_to_physical}
use raspberry_pi_os.Memory.PageTable.Range.{page_table_map_address_unaligned}
use raspberry_pi_os.Memory.AddressSpace.{
  AddressSpace, AddressMapping, create_memory_region, create_memory_region_virt, map_memory_region,
  after_map, new_mapping,
}
use raspberry_pi_os.Alloc.Heap.{kmalloc}
use raspberry_pi_os.Memory.AddressSpace.Overlap.{map_inactive}
use raspberry_pi_os.Process.Lifecycle.{new_process_memory_region}
use raspberry_pi_os.Process.Structs.{userspace_heap_address}
use raspberry_pi_os.Process.Syscalls.{
  User, sbrk_returned, sbrk_panicked, mapping_at, map_heap, create_from_heap,
  new_mapped_process_memory, syscall_sbrk,
}

-- As long as the heap has room, `sbrk` returns the old end of the used part, moves it, and asks for
-- nothing.
syscall_sbrk_fits :
    (kernel_page_table : ℕ) (s : User) (incr : ℕ)
    → s.process.user_heap_used + incr ≤ s.process.user_heap_size
    → s.process.user_heap_size < 2 ^ 62
    → syscall_sbrk kernel_page_table s incr
      ≡ sbrk_returned (userspace_heap_address + s.process.user_heap_used) (record s {
        process = record s.process { user_heap_used = s.process.user_heap_used + incr };
      })
unfolding syscall_sbrk
syscall_sbrk_fits kernel_page_table s incr room small =
    let p = s.process in
    let d = (p.user_heap_used + incr + 2 ^ 64 - p.user_heap_size) % 2 ^ 64 in
    let no_growth : (not (d == 0) && ltb d (2 ^ 63)) ≡ false = ground arith in
    let address : (userspace_heap_address + p.user_heap_used) % 2 ^ 64
        ≡ userspace_heap_address + p.user_heap_used =
      omega arith in
    let used : (p.user_heap_used + incr) % 2 ^ 64 ≡ p.user_heap_used + incr = omega arith in
    let same : (p.user_heap_size + 0) % 2 ^ 64 ≡ p.user_heap_size = omega arith in
    rw (no_growth, address, used, same) refl

-- The pointer is null, or it is that of a mapping from the given address that is not active.
abbrev IsMappingAt : (target_addr : ℕ) → ℕ × User → Type 0
IsMappingAt target_addr (ptr, s) =
    (ptr ≡ 0)
    ⊎ ((paddr : ℕ) × (size : ℕ) × (mapping_at ptr s.aspace.mappings
          ≡ new_mapping ptr target_addr paddr size))

mapping_at-first :
    (ptr vaddr paddr size : ℕ) (rest : List AddressMapping)
    → mapping_at ptr (new_mapping ptr vaddr paddr size ∷ rest) ≡ new_mapping ptr vaddr paddr size
unfolding mapping_at
mapping_at-first ptr vaddr paddr size rest = rw (eq→== ptr ptr refl) refl

create-IsMappingAt :
    (kernel_page_table : ℕ) (s : User) (target_addr kaddr size : ℕ)
    → IsMappingAt target_addr (create_from_heap kernel_page_table s target_addr kaddr size)
unfolding create_from_heap create_memory_region_virt create_memory_region
create-IsMappingAt kernel_page_table s target_addr kaddr size =
    let map_to = page_table_virtual_to_physical s.aspace.tables kernel_page_table kaddr in
    let ptr = (kmalloc s.heap).0 in
    elim (Bool-cases (map_to == 0)) [
      | inl unmapped ↦ rw unmapped (inl refl)
      | inr known ↦ elim (Bool-cases (ptr == 0)) [
        | inl null ↦ rw (known, null) (inl refl)
        | inr granted ↦
            rw (known, granted)
              (inr (map_to, size, mapping_at-first ptr target_addr map_to size s.aspace.mappings))
      ]
    ]

memory-IsMappingAt :
    (kernel_page_table : ℕ) (s : User) (target_addr size : ℕ)
    → IsMappingAt target_addr (new_mapped_process_memory kernel_page_table s target_addr size)
unfolding new_mapped_process_memory
memory-IsMappingAt kernel_page_table s target_addr size =
    let r = new_process_memory_region s.process s.heap in
    elim (Bool-cases (r.0 == 0)) [
      | inl null ↦ rw null (inl refl)
      | inr granted ↦ rw granted (
          create-IsMappingAt kernel_page_table (record s { heap = r.1; process = r.2 }) target_addr
            r.0 size)
    ]

-- A mapping from an unaligned address cannot be activated.
unaligned_refused :
    (aspace : AddressSpace) (ptr vaddr paddr size : ℕ)
    → vaddr % 4096 ≢ 0
    → (map_memory_region aspace (new_mapping ptr vaddr paddr size)).0 ≡ 1
unfolding after_map
unaligned_refused aspace ptr vaddr paddr size unaligned =
    rw
      (
        map_inactive aspace (new_mapping ptr vaddr paddr size) refl,
        page_table_map_address_unaligned aspace.tables aspace.page_table paddr vaddr size
            (inr (inl unaligned)),
      )
      refl

map_heap-panics :
    (user_addr grown incr : ℕ) (r : ℕ × User)
    → user_addr % 4096 ≢ 0
    → IsMappingAt user_addr r
    → map_heap user_addr grown incr r ≡ sbrk_panicked
unfolding map_heap
map_heap-panics user_addr grown incr (ptr, s) unaligned (inl null) = rw (eq→== ptr 0 null) refl
map_heap-panics user_addr grown incr (ptr, s) unaligned (inr (paddr, size, here)) =
    elim (Bool-cases (ptr == 0)) [
      | inl null ↦ rw null refl
      | inr granted ↦
          rw (granted, here, unaligned_refused s.aspace ptr user_addr paddr size unaligned) refl
    ]

-- When the heap has to grow while its used part does not end at a page, `sbrk` panics, whatever memory
-- there is: it maps the new memory at the end of the used part and not at the end of the heap.
pub syscall_sbrk_unaligned :
    (kernel_page_table : ℕ) (s : User) (incr : ℕ)
    → s.process.user_heap_used % 4096 ≢ 0
    → s.process.user_heap_size < s.process.user_heap_used + incr
    → s.process.user_heap_used + incr < 2 ^ 62
    → syscall_sbrk kernel_page_table s incr ≡ sbrk_panicked
unfolding syscall_sbrk
syscall_sbrk_unaligned kernel_page_table s incr unaligned more small =
    let p = s.process in
    let d = (p.user_heap_used + incr + 2 ^ 64 - p.user_heap_size) % 2 ^ 64 in
    let growth : (not (d == 0) && ltb d (2 ^ 63)) ≡ true = ground arith in
    let user_addr = (userspace_heap_address + p.user_heap_used) % 2 ^ 64 in
    rw growth (
      map_heap-panics user_addr (round_up_to_page d) incr
        (new_mapped_process_memory kernel_page_table s user_addr (round_up_to_page d))
        (omega (arith, unaligned))
        (memory-IsMappingAt kernel_page_table s user_addr (round_up_to_page d)))
