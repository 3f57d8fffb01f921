-- ===== src/Process/Syscalls.antt =====
-- source/syscalls: what a user process asks of the kernel. `print` is left out, as is the register that
-- an unknown call prints.
pub mod Growth
pub mod Streams
mod Tests
use raspberry_pi_os.Base.{
  ℕ, ◌+◌, ◌-◌, ◌%◌, ◌^◌, Bool, true, false, ◌&&◌, not, List, [], ◌∷◌, ltb, ◌==◌, if◌then◌else◌,
}
use raspberry_pi_os.Alloc.Heap.{Heap, kmalloc}
use raspberry_pi_os.Memory.Page.{round_up_to_page}
use raspberry_pi_os.Memory.PageTable.{page_table_virtual_to_physical}
use raspberry_pi_os.Memory.AddressSpace.{
  AddressSpace, create_memory_region_virt, map_memory_region, new_mapping, AddressMapping,
}
use raspberry_pi_os.Process.Structs.{Process, StreamDescriptor, userspace_heap_address}
use raspberry_pi_os.Process.Scheduler.{
  Scan, Processes, switch_to_next_process, process_state_terminated,
}
use raspberry_pi_os.Process.Lifecycle.{new_process_memory_region, device_type_char}

-- The first stream with the number of the file that is a character device gets the bytes. `write_char`
-- is the driver, whose result the code does not look at.
unfoldable pub syscall_write {ℓ} :
    {State : Type ℓ} (write_char : (dev ptr len : ℕ) → State → State)
    → List StreamDescriptor
    → (file ptr len : ℕ) → State
    → ℕ × State
syscall_write write_char [] file ptr len s = (0, s)
syscall_write write_char (i ∷ rest) file ptr len s =
    let later = syscall_write write_char rest file ptr len s in
    if (i.id == file) && (i.dev_type == device_type_char)
    then (len, write_char i.dev ptr len s)
    else later

unfoldable pub syscall_close : (fd : ℕ) → ℕ
syscall_close fd = 0

-- The current process with its address space, and the heap of the kernel.
pub record User : Type 0 where
  pub heap : Heap
  pub process : Process
  pub aspace : AddressSpace

-- `create_memory_region_virt`, which takes memory for the mapping only when the address translates.
unfoldable pub create_from_heap :
    (kernel_page_table : ℕ) → User → (target_addr kaddr size : ℕ) → ℕ × User
create_from_heap kernel_page_table s target_addr kaddr size =
    let (ptr, h) = kmalloc s.heap in
    let (created, aspace) =
      create_memory_region_virt kernel_page_table s.aspace ptr target_addr kaddr size in
    if page_table_virtual_to_physical s.aspace.tables kernel_page_table kaddr == 0
    then (0, s)
    else (created, record s { heap = h; aspace = aspace })

-- The pointer to the mapping, or 0.
unfoldable pub new_mapped_process_memory :
    (kernel_page_table : ℕ) → User → (target_addr size : ℕ) → ℕ × User
new_mapped_process_memory kernel_page_table s target_addr size =
    let (new_mem, h, p) = new_process_memory_region s.process s.heap in
    let s' = record s { heap = h; process = p } in
    if new_mem == 0 then (0, s') else create_from_heap kernel_page_table s' target_addr new_mem size

pub data Sbrk : Type 0 where
  sbrk_returned : (address : ℕ) → User → Sbrk
  sbrk_panicked : Sbrk

-- The mapping that `new_mem` points to, in the list.
unfoldable pub mapping_at : ℕ → List AddressMapping → AddressMapping
mapping_at ptr [] = new_mapping 0 0 0 0
mapping_at ptr (m ∷ rest) = let later = mapping_at ptr rest in if m.ptr == ptr then m else later

abbrev pub use_heap : User → (grown incr : ℕ) → User
use_heap s grown incr = record s {
  process = record s.process {
    user_heap_size = (s.process.user_heap_size + grown) % 2 ^ 64;
    user_heap_used = (s.process.user_heap_used + incr) % 2 ^ 64;
  };
}

-- The new memory is mapped, or the kernel panics.
unfoldable pub map_heap : (user_addr grown incr : ℕ) → ℕ × User → Sbrk
map_heap user_addr grown incr (new_mem, s) =
    let (code, aspace) = map_memory_region s.aspace (mapping_at new_mem s.aspace.mappings) in
    if new_mem == 0
    then sbrk_panicked
    else if code == 0
    then sbrk_returned user_addr (use_heap (record s { aspace = aspace }) grown incr)
    else sbrk_panicked

-- `incr` is an int, extended to 64 bits.
unfoldable pub syscall_sbrk : (kernel_page_table : ℕ) → User → (incr : ℕ) → Sbrk
syscall_sbrk kernel_page_table s incr =
    let p = s.process in
    let user_addr = (userspace_heap_address + p.user_heap_used) % 2 ^ 64 in
    let required_space = (p.user_heap_used + incr + 2 ^ 64 - p.user_heap_size) % 2 ^ 64 in
    let grown = round_up_to_page required_space in
    if not (required_space == 0) && ltb required_space (2 ^ 63)
    then map_heap user_addr grown incr
        (new_mapped_process_memory kernel_page_table s user_addr grown)
    else sbrk_returned user_addr (use_heap s 0 incr)

-- `(int)a` of a 64-bit word, as a word of 32 bits, and extended again.
abbrev pub as_int : ℕ → ℕ
as_int a = a % 2 ^ 32

abbrev pub sign_extended : ℕ → ℕ
sign_extended int = if ltb int (2 ^ 31) then int else int + 2 ^ 64 - 2 ^ 32

pub data Handled {ℓ} (State : Type ℓ) : Type ℓ where
  resumed : (result : ℕ) → User → State → Handled State
  switched_away : Scan → Handled State
  handler_panicked : Handled State

abbrev pub after_sbrk {ℓ} : {State : Type ℓ} → State → Sbrk → Handled State
after_sbrk out sbrk_panicked = handler_panicked
after_sbrk out (sbrk_returned address s) = resumed address s out

-- The numbers of the calls are 1 for `exit`, 4 for `write`, 7 for `close` and 8 for `sbrk`.
unfoldable pub handle_syscall {ℓ} :
    {State : Type ℓ} (write_char : (dev ptr len : ℕ) → State → State) (kernel_page_table : ℕ)
    → Processes
    → User
    → State
    → (syscall a1 a2 a3 : ℕ) → Handled State
handle_syscall write_char kernel_page_table processes s out syscall a1 a2 a3 =
    let (written, out') =
      syscall_write write_char s.process.streams (as_int a1) a2 (as_int a3) out in
    if syscall == 1
    then switched_away (switch_to_next_process processes process_state_terminated)
    else if syscall == 4
    then resumed (sign_extended written) s out'
    else if syscall == 7
    then resumed (syscall_close (as_int a1)) s out
    else if syscall == 8
    then after_sbrk out (syscall_sbrk kernel_page_table s (sign_extended (as_int a1)))
    else handler_panicked
