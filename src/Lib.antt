-- ===== src/Lib.antt =====
-- A verification library for the kernel of Raspberry-Pi-OS, a small 64-bit operating system in C.
--
-- Parts and how they interact. `kmalloc` of the buddy allocator (source/alloc/buddy.c) gives memory to
-- everything else; its block structures come from a pool (source/alloc/pool.c), which asks `kmalloc`
-- for more. The page tables (source/memory/pagetable.c) map ranges of virtual addresses to physical
-- ones; an address space (source/memory/address_space.c) lists such ranges and puts them into the
-- tables; `mmap` and `vmalloc` (source/memory/mmap.c, source/alloc/vmalloc.c) choose a free slot of
-- virtual addresses for a new range. source/string holds the C strings that the monitor and the
-- printing use.
--
-- Files and code.
-- - Base: names of the libraries, Boolean tests, lists indexed by native numbers, and the lemmas on
--   masks and bits (Base.Bits) that the components share.
-- - Memory.Page, Memory.PageTable: include/kernel/page.h, source/memory/page.c and pagetable.c. The
--   state is `Tables`: the entries of each table by the table's kernel address, and the pages that
--   `kmalloc` will give, in order; an exhausted list is a `kmalloc` that returns 0, which the code does
--   not check. Memory.PageTable.Map holds `page_table_map_address`; its children's lemmas are on the
--   tree that the tables form (Tree), on the growth of one branch (Grow, Descend), on the blocks that
--   the alignment allows (Alignment), on what a leaf translates (Leaf) and leaves alone (Frame), and on
--   the whole range (Correct, Range).
-- - Memory.AddressSpace: source/memory/address_space.c, a list of mappings, newest first as the code
--   links them; `freed` records the calls of `free`.
-- - Memory.PageTable.Unmap: `page_table_unmap_address` and `prune_if_empty`; Memory.AddressSpace.Unmap:
--   `unmap_memory_region`, `unmap_and_remove_memory_region`.
-- - Memory.Mmap: the search for a slot, `mmap_get_free_vaddr` and `vmalloc_get_free_vaddr`;
--   Memory.Mmap.Call: `mmap`.
-- - Alloc.Pool: source/alloc/pool.c. The memory is a function from addresses to words, of which the
--   model uses the first word of a free object; `kmalloc` is a parameter that may change the pool, since
--   for the pool of the buddy allocator it comes back to the same pool. Its laws (`IsLawful`) hold in
--   the states that the allocator knows, which are a parameter as well.
-- - Alloc.Heap: what the parts above the allocator use of `kmalloc` and `free`: the addresses that the
--   allocator will give, in order, what was given out and not given back, and the frees of what was
--   not given out.
-- - Alloc.Buddy: source/alloc/buddy.c, the lists of free blocks and of all blocks, and the size of the
--   block that `kmalloc` looks for. A block is the address of its structure. Alloc.Buddy.Blocks: the
--   splitting and merging of blocks, `kmalloc`, `free`. The pool of structures is an interface,
--   whose operations get the whole state, since growing the pool calls `kmalloc`.
-- - Text.Number, Text.Strings, Text.Print: source/string/string.c, mem.c and print.c.
-- - Process.Scheduler: source/process/scheduler.c and, of source/process/process.c, the list of processes
--   and their states. A run of the loop ends where another process is switched to; `resume_scan` is the
--   rest of the loop, when the process that left is switched to again. Process.Structs,
--   Process.Lifecycle, Process.Mappings: the structures of a process, its creation and destruction, and
--   the removal of its mappings, in source/process/process.c and thread.c. Process.Syscalls:
--   source/syscalls.
-- - Fs: source/fs, source/dev/block.c and, in Fs.Char, source/dev/char.c. Fs.Block: the calls of block
--   devices, whose drivers are a parameter. Fs.Fat32: the boot block, Entry the rows of a directory, Chain
--   the chain of clusters of a file, Directory the listing. Fs.Inode: the tree of nodes, the lookup of a
--   path and reads. Fs.Bytes and Fs.Overlay: numbers in a buffer, and buffers that are written at
--   several places.
-- - Elf: source/elf.c. Elf.Format lays the format out as bytes.
-- - DeviceTree: source/dev/device_tree.c, the parser of a node; DeviceTree.Load: the whole tree and how
--   it is freed; DeviceTree.Format: the format as bytes. A node has its first child and the next one
--   beside it, as in the code.
-- - Monoterm.Editor: source/monoterm/editor.c, the keys and the cursor. Monoterm.Input, Monoterm.Commands:
--   source/monoterm/monoterm.c, how characters become lines and lines run commands.
--
-- Bounds and fuel. Words wrap at 2^32 or 2^64 where the code's do. The main loops of
-- `page_table_map_address` and `page_table_unmap_address` run on size / 4096 + 1 rounds, which are
-- enough because every round passes a page or more; the theorems on the functions show that the fuel
-- never ends. The search for a slot is a recursion on its 1024 rounds. The loop of `kmalloc` over the
-- sizes has 32 rounds and ends after 23 at most; `next_free_block` runs on one round for each size that
-- is left, `merge_blocks` on one for each size. The chain of the clusters of a file runs on one round
-- more than there are clusters, the parser of a device tree on one for each word, the lookup of a path
-- on one for each character and one more. Walks over
-- linked lists whose end the state does not bound get fuel as an argument, and the theorems on them
-- say how much is enough. The second loop of `atoi` runs on any number of rounds: it ends in one, or
-- in none. All other loops are structural.
--
-- Where the code would write past an array or through a null pointer, or panics, the model ends: the
-- result is `none` (`process_input` with more than 64 parts or no memory, `inode_from_path` with a part
-- of more than 255 characters, `destroy_process` with a mapping that cannot be removed) or a
-- constructor of its own.
--
-- Not modelled: what the other parts print, system registers, device registers, assembly, and the
-- parts of the kernel that the list above does not name.
pub mod Base
pub mod Memory
pub mod Text
pub mod Alloc
pub mod Process
pub mod Monoterm
pub mod Fs
pub mod Elf
pub mod DeviceTree
