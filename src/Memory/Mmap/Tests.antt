-- ===== src/Memory/Mmap/Tests.antt =====
-- A call of `mmap` on an empty address space.
use raspberry_pi_os.Base.{ℕ, zero, suc, ◌+◌, ◌*◌, refl, arith, [], replicate}
use raspberry_pi_os.Memory.PageTable.{page_table_block_size}
use raspberry_pi_os.Memory.PageTable.Correct.{Congruent}
use raspberry_pi_os.Memory.PageTable.Tests.{root_table, empty_tables, empty-IsRooted}
use raspberry_pi_os.Memory.Mmap.{mmap_base_addr, max_mapping_size}
use raspberry_pi_os.Memory.Mmap.Call.{MmapState, mmap}
use raspberry_pi_os.Memory.Mmap.Reach.{MmapDone, mmap_lem}

abbrev unused : MmapState
unused = record {
  kernel_address_space = record {
    mappings = [];
    page_table = root_table;
    tables = empty_tables;
    freed = [];
  };
  mmap_free_mask = replicate 16 0;
}

mmap_lem_example : MmapDone 0x700 unused 0x5000 0x1000 (mmap 0x700 unused 0x5000 0x1000)
unfolding page_table_block_size
mmap_lem_example =
    mmap_lem 0x700 unused 0x5000 0x1000 refl empty-IsRooted (omega arith) (omega arith)
      (omega arith) one_page (omega arith)
  where
    one_page : (slot : ℕ) → Congruent 0x5000 (mmap_base_addr + max_mapping_size * slot) 0x1000
    one_page slot zero h fits = absurd (omega arith)
    one_page slot (suc zero) h fits = absurd (omega arith)
    one_page slot (suc (suc zero)) h fits = absurd (omega arith)
    one_page slot (suc (suc (suc zero))) h fits = omega arith
    one_page slot (suc (suc (suc (suc level)))) h fits = absurd (omega arith)
