-- ===== src/Process/Syscalls/Tests.antt =====
-- System calls of a process, and the theorems at them.
use raspberry_pi_os.Base.{ℕ, ◌+◌, ◌≡◌, refl, arith, List, [], ◌∷◌}
use raspberry_pi_os.Memory.PageTable.Tests.{root_table, empty_tables}
use raspberry_pi_os.Process.Structs.{StreamDescriptor, a_process}
use raspberry_pi_os.Process.Syscalls.{User, sbrk_panicked, syscall_sbrk, syscall_write}
use raspberry_pi_os.Process.Syscalls.Growth.{syscall_sbrk_unaligned}
use raspberry_pi_os.Process.Syscalls.Streams.{syscall_write_lem}

-- 100 bytes of a heap of one page are used.
abbrev user : User
user = record {
  heap = record { grants = 0x9000 ∷ 0x500 ∷ 0x600 ∷ []; live = []; bad_frees = [] };
  process = record a_process { user_heap_used = 100; user_heap_size = 4096 };
  aspace = record { mappings = []; page_table = root_table; tables = empty_tables; freed = [] };
}

syscall_sbrk_unaligned_example : syscall_sbrk root_table user 5000 ≡ sbrk_panicked
syscall_sbrk_unaligned_example =
    syscall_sbrk_unaligned root_table user 5000 (omega arith) (omega arith) (omega arith)

abbrev stream : (id dev : ℕ) → StreamDescriptor
stream id dev = record { ptr = 0x100 + id; id = id; dev = dev; dev_type = 2 }

-- The state of the drivers is the list of what was written.
abbrev record_write : (dev ptr len : ℕ) → List (ℕ × ℕ × ℕ) → List (ℕ × ℕ × ℕ)
record_write dev ptr len log = (dev, ptr, len) ∷ log

syscall_write_lem_example :
    syscall_write record_write (stream 2 7 ∷ stream 1 8 ∷ stream 0 9 ∷ []) 1 0x4000 5 []
    ≡ (5, (8, 0x4000, 5) ∷ [])
syscall_write_lem_example =
    syscall_write_lem record_write (stream 2 7 ∷ stream 1 8 ∷ stream 0 9 ∷ []) 3 1 0x4000 5 []
      (refl, (refl, (refl, refl))) (refl, (refl, (refl, tt)))
