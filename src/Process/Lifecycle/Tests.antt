-- ===== src/Process/Lifecycle/Tests.antt =====
-- Processes that are made and taken down, and the theorems at them.
use raspberry_pi_os.Base.{map, some, none, true, false, ◌⊎◌, ℕ, ◌≡◌, refl, arith, List, [], ◌∷◌}
use raspberry_pi_os.Alloc.Heap.{kmalloc, grant, free}
use raspberry_pi_os.Process.Structs.{Process, a_process}
use raspberry_pi_os.Process.Lifecycle.{
  Kernel, allocate_process, allocate_address_space, allocate_kthread, destroy_process,
}
use raspberry_pi_os.Process.Lifecycle.Create.{Created, allocate_process_lem}
use raspberry_pi_os.Process.Lifecycle.Destroy.{Destroyed, destroy_process_lem}
use raspberry_pi_os.Memory.AddressSpace.{AddressSpace}
use raspberry_pi_os.Process.Mappings.{
  inactive, remove_process_mappings, remove_mappings, unmapped_or_panic,
}
use raspberry_pi_os.Memory.AddressSpace.Unmap.{unmap_memory_region, after_unmap, deactivate}
use raspberry_pi_os.Memory.PageTable.{is_leaf_entry, is_table_entry, page_table_block_size}
use raspberry_pi_os.Memory.PageTable.Unmap.{
  page_table_unmap_address, unmap_loop, after_round, unmap_walk,
}
use raspberry_pi_os.Memory.PageTable.Tests.{root_table, empty_tables}

abbrev kernel : List ℕ → Kernel
kernel grants = record {
  heap = record { grants = grants; live = 5 ∷ []; bad_frees = [] };
  global_pid_counter = 7;
  process_list = [];
}

-- The second stream cannot be allocated.
abbrev enough : Kernel
enough = kernel (0x10 ∷ 0x20 ∷ 0x30 ∷ 0x40 ∷ 0x50 ∷ 0 ∷ 0x60 ∷ [])

-- There is no memory for the user thread.
abbrev too_little : Kernel
too_little = kernel (0x10 ∷ 0x20 ∷ 0x30 ∷ [])

allocate_process_lem_example : Created too_little (allocate_process 9 too_little)
allocate_process_lem_example = allocate_process_lem 9 too_little

failure_leaves_heap : (allocate_process 9 too_little).1.heap.live ≡ 5 ∷ []
unfolding allocate_process allocate_address_space allocate_kthread kmalloc grant free
failure_leaves_heap = refl

abbrev running : Process
running = record a_process {
  ptr = 0x10;
  addr_space = 0x20;
  kern_thread = 0x30;
  user_thread = 0x40;
  streams = record { ptr = 0x50; id = 0; dev = 9; dev_type = 2 } ∷ [];
  stream_count = 1;
  allocated_list = record { ptr = 0x60; memory = 0x1000 } ∷ [];
}

abbrev used : Kernel
used = record {
  heap = record {
    grants = [];
    live = 0x10 ∷ 5 ∷ 0x20 ∷ 0x30 ∷ 0x40 ∷ 0x50 ∷ 0x60 ∷ 0x1000 ∷ [];
    bad_frees = [];
  };
  global_pid_counter = 8;
  process_list = running ∷ [];
}

-- An address space with one mapping that is in the page table, and one that is not.
abbrev two_mappings : AddressSpace
two_mappings = record {
  mappings =
      record { ptr = 0x500; vaddress = 0x40000000; paddress = 0x5000; size = 0x1000; active = true }
      ∷ record { ptr = 0x600; vaddress = 0x80000000; paddress = 0; size = 0x1000; active = false }
      ∷ [];
  page_table = root_table;
  tables = empty_tables;
  freed = [];
}

destroy_process_lem_example :
    ((remove_process_mappings two_mappings ≡ none)
      × (destroy_process running two_mappings used ≡ none))
    ⊎ ((after : Kernel × AddressSpace) × (remove_process_mappings two_mappings ≡ some after.1)
        × (destroy_process running two_mappings used ≡ some after)
        × Destroyed running two_mappings used [] after)
destroy_process_lem_example =
    destroy_process_lem running two_mappings used [] [] refl tt (λ a. omega arith)
      (((λ same. omega (arith, same)), tt), (tt, tt))

-- The unmapping of the one page passes over the tables that do not have it.
both_are_inactive :
    remove_process_mappings two_mappings
    ≡ some (record two_mappings { mappings = map inactive two_mappings.mappings })
unfolding remove_process_mappings remove_mappings unmapped_or_panic unmap_memory_region after_unmap
    deactivate page_table_unmap_address unmap_loop after_round unmap_walk is_leaf_entry
    is_table_entry page_table_block_size
both_are_inactive = refl

-- A size that is no multiple of the page size.
unaligned_panics :
    remove_process_mappings (record two_mappings {
      mappings =
          record {
            ptr = 0x500;
            vaddress = 0x40000000;
            paddress = 0x5000;
            size = 0x1001;
            active = true;
          }
          ∷ [];
    })
    ≡ none
unfolding remove_process_mappings remove_mappings unmapped_or_panic unmap_memory_region after_unmap
    page_table_unmap_address
unaligned_panics = refl
