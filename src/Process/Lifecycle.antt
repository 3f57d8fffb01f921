-- ===== src/Process/Lifecycle.antt =====
-- source/process/process.c and `allocate_kthread` of source/process/thread.c: how a process is made,
-- given memory and streams, and taken down. `kmalloc` and `free` are those of the heap of Alloc.Heap.
-- The loop by which `destroy_process` takes the mappings out of the page table is in
-- Process.Mappings; `print` is left out.
pub mod Create
pub mod Destroy
mod Tests
use raspberry_pi_os.Base.{
  ℕ, ◌+◌, ◌-◌, ◌%◌, ◌^◌, Option, none, some, List, [], ◌∷◌, ◌==◌, if◌then◌else◌,
}
use raspberry_pi_os.Alloc.Heap.{Heap, kmalloc, free}
use raspberry_pi_os.Memory.AddressSpace.{AddressSpace}
use raspberry_pi_os.Process.Mappings.{remove_process_mappings}
use raspberry_pi_os.Process.Structs.{
  Process, StreamDescriptor, ProcessMemoryHandle, a_process, userspace_stack_address,
}

pub record Kernel : Type 0 where
  pub heap : Heap
  pub global_pid_counter : ℕ
  pub process_list : List Process

abbrev pub device_type_char : ℕ
device_type_char = 2

unfoldable pub process_new_stream_descriptor :
    Heap → Process → (dev dev_type : ℕ) → ℕ × Heap × Process
process_new_stream_descriptor h p dev dev_type =
    let (new_stream, h') = kmalloc h in
    if new_stream == 0 then (1, h', p) else (
      0,
      h',
      record p {
        streams =
            record { ptr = new_stream; id = p.stream_count; dev = dev; dev_type = dev_type }
            ∷ p.streams;
        stream_count = (p.stream_count + 1) % 2 ^ 32;
      },
    )

-- The results of the three calls are not looked at.
unfoldable pub open_default_streams : (global_uart : ℕ) → Heap → Process → Heap × Process
unfolding process_new_stream_descriptor
open_default_streams global_uart h p =
    let first = process_new_stream_descriptor h p global_uart device_type_char in
    let second = process_new_stream_descriptor first.1 first.2 global_uart device_type_char in
    let third = process_new_stream_descriptor second.1 second.2 global_uart device_type_char in
    (third.1, third.2)

unfoldable pub allocate_address_space : Heap → ℕ × Heap
allocate_address_space h = kmalloc h

unfoldable pub allocate_kthread : Heap → ℕ × Heap
allocate_kthread h = kmalloc h

-- What is left to do once the four structures are there.
unfoldable pub start_process :
    (global_uart : ℕ) → Kernel → Heap → (ptr aspace kern user : ℕ) → Option Process × Kernel
unfolding open_default_streams
start_process global_uart k h ptr aspace kern user =
    let p = record a_process {
      ptr = ptr;
      addr_space = aspace;
      kern_thread = kern;
      user_thread = user;
      user_sp = userspace_stack_address;
      pid = k.global_pid_counter % 2 ^ 16;
    } in
    let (h', p') = open_default_streams global_uart h p in
    (
      some p',
      record {
        heap = h';
        global_pid_counter = (k.global_pid_counter + 1) % 2 ^ 64;
        process_list = p' ∷ k.process_list;
      },
    )

unfoldable pub allocate_process : (global_uart : ℕ) → Kernel → Option Process × Kernel
unfolding start_process allocate_address_space allocate_kthread
allocate_process global_uart k =
    let (p, h1) = kmalloc k.heap in
    let (aspace, h2) = allocate_address_space h1 in
    let (kern, h3) = allocate_kthread h2 in
    let (user, h4) = allocate_kthread h3 in
    if p == 0
    then (none, record k { heap = h1 })
    else if aspace == 0
    then (none, record k { heap = free p h2 })
    else if kern == 0
    then (none, record k { heap = free p (free aspace h3) })
    else if user == 0
    then (none, record k { heap = free p (free aspace (free kern h4)) })
    else start_process global_uart k h4 p aspace kern user

-- The loop of `free_process_memory` over the list.
unfoldable pub free_handles : List ProcessMemoryHandle → Heap → Heap
free_handles [] h = h
free_handles (m ∷ rest) h = free_handles rest (free m.ptr (free m.memory h))

unfoldable pub free_process_memory : Process → Heap → Heap × Process
unfolding free_handles
free_process_memory p h = (free_handles p.allocated_list h, record p { allocated_list = [] })

-- The loop of `free_process_streams`, and what is left of the count.
unfoldable pub free_streams : List StreamDescriptor → (count : ℕ) → Heap → Heap × ℕ
free_streams [] count h = (h, count)
free_streams (i ∷ rest) count h = free_streams rest ((count + 2 ^ 32 - 1) % 2 ^ 32) (free i.ptr h)

-- The list itself stays as it is.
unfoldable pub free_process_streams : Process → Heap → Heap × Process
unfolding free_streams
free_process_streams p h =
    let (h', count) = free_streams p.streams p.stream_count h in
    (h', record p { stream_count = count })

-- The search for the process: `free(i)` and the list without it, or the warning.
unfoldable pub unlink_and_free : ℕ → List Process → Heap → Heap × List Process
unlink_and_free p [] h = (h, [])
unlink_and_free p (i ∷ rest) h =
    let later = unlink_and_free p rest h in
    if i.ptr == p then (free i.ptr h, rest) else (later.0, i ∷ later.1)

-- What `destroy_process` does once the mappings are out of the page table.
unfoldable pub free_process : Process → Kernel → Heap → Kernel
unfolding free_process_streams unlink_and_free
free_process p k h1 =
    let (h2, p2) = free_process_streams p h1 in
    let threads_freed = free p.addr_space (free p.user_thread (free p.kern_thread h2)) in
    let (h3, list) = unlink_and_free p.ptr k.process_list threads_freed in
    record k { heap = h3; process_list = list }

unfoldable pub after_mappings :
    Process → Kernel → Heap → Option AddressSpace → Option (Kernel × AddressSpace)
after_mappings p k h none = none
after_mappings p k h (some aspace) = some (free_process p k h, aspace)

-- The address space is the one that `p.addr_space` points to. The tables that are pruned from it are
-- recorded in its own list, and `none` is the panic at a mapping that cannot be unmapped, or a loop over it that may not end.
unfoldable pub destroy_process : Process → AddressSpace → Kernel → Option (Kernel × AddressSpace)
unfolding free_process_memory after_mappings
destroy_process p aspace k =
    let (h1, p1) = free_process_memory p k.heap in
    after_mappings p1 k h1 (remove_process_mappings aspace)

-- The address of the memory or 0. When there is no room for the handle, all memory of the process is
-- given back.
unfoldable pub new_process_memory_region : Process → Heap → ℕ × Heap × Process
unfolding free_process_memory
new_process_memory_region p h =
    let (header_memory, h1) = kmalloc h in
    let (al, h2) = kmalloc h1 in
    let failed = free_process_memory p (free header_memory h2) in
    if header_memory == 0 then (0, h1, p) else if al == 0 then (0, failed.0, failed.1) else (
      header_memory,
      h2,
      record p { allocated_list = record { ptr = al; memory = header_memory } ∷ p.allocated_list },
    )
