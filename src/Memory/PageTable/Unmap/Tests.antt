-- ===== src/Memory/PageTable/Unmap/Tests.antt =====
-- A page that is mapped and unmapped again, and the theorem on the end of the loops at it.
use raspberry_pi_os.Base.{arith, []}
use raspberry_pi_os.Memory.PageTable.Tests.{root_table, empty_tables}
use raspberry_pi_os.Memory.PageTable.Unmap.{Pruning, page_table_unmap_address}
use raspberry_pi_os.Memory.PageTable.Unmap.Progress.{HasEnded, page_table_unmap_address-HasEnded}

abbrev nothing_pruned : Pruning
nothing_pruned = record { tables = empty_tables; pruned = [] }

page_table_unmap_address-HasEnded_example :
    HasEnded (page_table_unmap_address nothing_pruned root_table 0x40000000 0x2000)
page_table_unmap_address-HasEnded_example =
    page_table_unmap_address-HasEnded nothing_pruned root_table 0x40000000 0x2000 (omega arith)
