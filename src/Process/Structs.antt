-- ===== src/Process/Structs.antt =====
-- The structures of include/kernel/process.h. `ptr` is the address of a structure, lists stand for the
-- links, newest first, and of the threads
-- the stack, the link register and the first two registers are kept.
use raspberry_pi_os.Base.{ℕ, List, []}

pub record StreamDescriptor : Type 0 where
  pub ptr : ℕ
  pub id : ℕ
  pub dev : ℕ
  pub dev_type : ℕ

pub record ProcessMemoryHandle : Type 0 where
  pub ptr : ℕ
  pub memory : ℕ

pub record Process : Type 0 where
  pub ptr : ℕ
  pub addr_space : ℕ
  pub allocated_list : List ProcessMemoryHandle
  pub kern_thread : ℕ
  pub user_thread : ℕ
  pub user_sp : ℕ
  pub user_register_0 : ℕ
  pub user_register_1 : ℕ
  pub user_link_reg : ℕ
  pub user_stack_size : ℕ
  pub kern_sp : ℕ
  pub kern_link_reg : ℕ
  pub kern_stack_size : ℕ
  pub user_heap_size : ℕ
  pub user_heap_used : ℕ
  pub streams : List StreamDescriptor
  pub stream_count : ℕ
  pub pid : ℕ
  pub state : ℕ

-- A structure with zeros, as `kmalloc` gives it with `ALLOC_ZERO_INIT`.
abbrev pub a_process : Process
a_process = record {
  ptr = 0;
  addr_space = 0;
  allocated_list = [];
  kern_thread = 0;
  user_thread = 0;
  user_sp = 0;
  user_register_0 = 0;
  user_register_1 = 0;
  user_link_reg = 0;
  user_stack_size = 0;
  kern_sp = 0;
  kern_link_reg = 0;
  kern_stack_size = 0;
  user_heap_size = 0;
  user_heap_used = 0;
  streams = [];
  stream_count = 0;
  pid = 0;
  state = 0;
}

abbrev pub userspace_stack_address : ℕ
userspace_stack_address = 0x0000010000000000

abbrev pub userspace_heap_address : ℕ
userspace_heap_address = 0x0000020000000000
