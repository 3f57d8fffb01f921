-- ===== src/Memory/Mmap/Call.antt =====
-- `mmap` of source/memory/mmap.c as a whole. `ptr` is what `kmalloc` returns for the mapping.
use raspberry_pi_os.Base.{ℕ, ◌-◌, not, ◌||◌, List, ◌∷◌, ltb, ◌==◌, if◌then◌else◌, bit_and}
use raspberry_pi_os.Memory.Page.{page_size}
use raspberry_pi_os.Memory.Mmap.{max_mapping_size, mmap_get_free_vaddr}
use raspberry_pi_os.Memory.AddressSpace.{
  AddressSpace, new_mapping, create_memory_region, map_memory_region,
}
use raspberry_pi_os.Memory.AddressSpace.Unmap.{
  Unmapping, returned, halted, unmap_and_remove_memory_region,
}

pub record MmapState : Type 0 where
  pub kernel_address_space : AddressSpace
  pub mmap_free_mask : List ℕ

pub data MmapResult : Type 0 where
  mapped_at : (vaddr : ℕ) → MmapState → MmapResult
  no_mapping : MmapState → MmapResult
  mmap_halted : MmapResult

-- The mapping is removed and freed; the code does not look at the result of the removal.
unfoldable pub discard : (ptr : ℕ) → List ℕ → Unmapping → MmapResult
discard ptr mask halted = mmap_halted
discard ptr mask (returned code aspace) = no_mapping (record {
  kernel_address_space = record aspace { freed = ptr ∷ aspace.freed };
  mmap_free_mask = mask;
})

unfoldable pub activate_mapping :
    (mask : List ℕ) (ptr vaddr pa size : ℕ) → AddressSpace → MmapResult
unfolding discard
activate_mapping mask ptr vaddr pa size aspace =
    let (code, after) = map_memory_region aspace (new_mapping ptr vaddr pa size) in
    if code == 0
    then mapped_at vaddr (record { kernel_address_space = after; mmap_free_mask = mask })
    else discard ptr mask (unmap_and_remove_memory_region after (new_mapping ptr vaddr pa size))

-- The pointer to the mapping, or 0, and the address space with it.
unfoldable pub after_create : (mask : List ℕ) (vaddr pa size : ℕ) → ℕ × AddressSpace → MmapResult
unfolding activate_mapping
after_create mask vaddr pa size (created, aspace) =
    if created == 0
    then no_mapping (record { kernel_address_space = aspace; mmap_free_mask = mask })
    else activate_mapping mask created vaddr pa size aspace

unfoldable pub mmap_at : (mask : List ℕ) (ptr vaddr pa size : ℕ) → AddressSpace → MmapResult
unfolding after_create
mmap_at mask ptr vaddr pa size aspace =
    if vaddr == 0
    then no_mapping (record { kernel_address_space = aspace; mmap_free_mask = mask })
    else after_create mask vaddr pa size (create_memory_region aspace ptr vaddr pa size)

unfoldable pub mmap : (ptr : ℕ) → MmapState → (pa size : ℕ) → MmapResult
unfolding mmap_at
mmap ptr s pa size =
    let (vaddr, mask) = mmap_get_free_vaddr s.mmap_free_mask in
    if not (bit_and pa (page_size - 1) == 0) || not (bit_and size (page_size - 1) == 0)
    then no_mapping s
    else if ltb max_mapping_size size
    then no_mapping s
    else mmap_at mask ptr vaddr pa size s.kernel_address_space
