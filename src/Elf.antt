-- ===== src/Elf.antt =====
-- source/elf.c: how the headers of an ELF file are read, and how a process is made from them. A file is
-- its bytes; what is read behind their end is 0. `print` is left out.
pub mod Format
pub mod Roundtrip
pub mod Segments
mod Tests
use raspberry_pi_os.Base.{
  ℕ, zero, suc, ◌+◌, ◌-◌, ◌*◌, ◌%◌, ◌^◌, Bool, true, false, ◌&&◌, not, Option, none, some, List, [],
  ◌∷◌, take, ltb, ◌==◌, if◌then◌else◌, bit_and,
}
use raspberry_pi_os.Memory.Page.{page_size, round_up_to_page}
use raspberry_pi_os.Text.Number.{c_string}
use raspberry_pi_os.Text.Strings.{strncmp}
use raspberry_pi_os.Fs.Bytes.{u8_at, u16_at, u32_at, u64_at}
use raspberry_pi_os.Process.Structs.{Process}
use raspberry_pi_os.Process.Lifecycle.{new_process_memory_region}
use raspberry_pi_os.Process.Syscalls.{User, create_from_heap}

pub record ElfHeader : Type 0 where
  pub elf_class : ℕ
  pub endianness : ℕ
  pub version : ℕ
  pub abi : ℕ
  pub abi_version : ℕ
  pub object_type : ℕ
  pub instruction_set : ℕ
  pub entry_point : ℕ
  pub pheader_addr : ℕ
  pub sheader_addr : ℕ
  pub pheader_num : ℕ
  pub sheader_num : ℕ
  pub pheader_size : ℕ
  pub sheader_size : ℕ
  pub sheader_name_index : ℕ
  pub flags : ℕ

pub record ElfProgramHeader : Type 0 where
  pub segment_type : ℕ
  pub segment_flags : ℕ
  pub file_address : ℕ
  pub proc_address : ℕ
  pub file_size : ℕ
  pub proc_size : ℕ
  pub alignment : ℕ

abbrev pub elf_class_64bit : ℕ
elf_class_64bit = 2

abbrev pub elf_little_endian : ℕ
elf_little_endian = 1

-- The first characters against the magic ones.
unfoldable pub is_elf : List ℕ → Bool
is_elf bytes = strncmp (c_string bytes) (0x7F ∷ 69 ∷ 76 ∷ 70 ∷ []) 4 == 0

unfoldable pub unpack_header : List ℕ → ElfHeader
unpack_header bytes = record {
  elf_class = u8_at bytes 0x04;
  endianness = u8_at bytes 0x05;
  version = u8_at bytes 0x06;
  abi = u8_at bytes 0x07;
  abi_version = u8_at bytes 0x08;
  object_type = u16_at bytes 0x10;
  instruction_set = u16_at bytes 0x12;
  entry_point = u64_at bytes 0x18;
  pheader_addr = u64_at bytes 0x20;
  sheader_addr = u64_at bytes 0x28;
  flags = u32_at bytes 0x30;
  pheader_size = u16_at bytes 0x36;
  pheader_num = u16_at bytes 0x38;
  sheader_size = u16_at bytes 0x3A;
  sheader_num = u16_at bytes 0x3C;
  sheader_name_index = u16_at bytes 0x3E;
}

abbrev is_valid : (state : ℕ) → Bool
is_valid state = not (bit_and state 0x02 == 0)

-- `none` stands for the result 1.
unfoldable pub load_elf_header : (state : ℕ) → List ℕ → Option ElfHeader
load_elf_header state bytes =
    let header = unpack_header bytes in
    if not (is_valid state)
    then none
    else if not (header.endianness == elf_little_endian)
    then none
    else if not (header.elf_class == elf_class_64bit)
    then none
    else some header

unfoldable pub unpack_program_header : List ℕ → (offset : ℕ) → ElfProgramHeader
unpack_program_header bytes offset = record {
  segment_type = u32_at bytes (offset + 0x00);
  segment_flags = u32_at bytes (offset + 0x04);
  file_address = u64_at bytes (offset + 0x08);
  proc_address = u64_at bytes (offset + 0x10);
  file_size = u64_at bytes (offset + 0x20);
  proc_size = u64_at bytes (offset + 0x28);
  alignment = u64_at bytes (offset + 0x30);
}

-- The loop over the headers, with the number of headers left. The link of each to the next is their
-- order in the list; the code also writes the link of a header before the first.
unfoldable pub program_header_loop :
    (left : ℕ) → List ℕ → (pheader_addr pheader_size i : ℕ) → List ElfProgramHeader
program_header_loop zero bytes pheader_addr pheader_size i = []
program_header_loop (suc left) bytes pheader_addr pheader_size i =
    unpack_program_header bytes (pheader_addr + pheader_size * i)
    ∷ program_header_loop left bytes pheader_addr pheader_size (i + 1)

unfoldable pub load_elf_program_header :
    (state : ℕ) → List ℕ → ElfHeader → Option (List ElfProgramHeader)
load_elf_program_header state bytes header =
    if is_valid state
    then some
        (program_header_loop header.pheader_num bytes header.pheader_addr header.pheader_size 0)
    else none

pub record ElfData : Type 0 where
  pub file : List ℕ
  pub header : ElfHeader
  pub pheader : List ElfProgramHeader

unfoldable pub with_program_headers :
    List ℕ → ElfHeader → Option (List ElfProgramHeader) → Option ElfData
with_program_headers bytes header none = none
with_program_headers bytes header (some pheader) =
    some (record { file = bytes; header = header; pheader = pheader })

unfoldable pub with_header : (state : ℕ) → List ℕ → Option ElfHeader → Option ElfData
with_header state bytes none = none
with_header state bytes (some header) =
    with_program_headers bytes header (load_elf_program_header state bytes header)

-- The file with the state and the size that it has after it has been fetched.
unfoldable pub load_elf : (state data_size : ℕ) → List ℕ → Option ElfData
load_elf state data_size bytes =
    if not (bit_and state 0x20 == 0)
    then none
    else if not (is_valid state)
    then none
    else if ltb data_size 0x40
    then none
    else if not (is_elf bytes)
    then none
    else with_header state bytes (load_elf_header state bytes)

-- The process, and what was copied: to which address, from which place of the file, how many bytes.
pub record Loader : Type 0 where
  pub user : User
  pub copied : List (ℕ × ℕ × ℕ)

abbrev pub with_process : User → Process → User
with_process s p = record s { process = p }

-- New memory of the process, and its mapping: the address of the memory, or 0, and the code.
unfoldable pub map_new_memory :
    (kernel_page_table : ℕ) → User → (vaddr size mapped_size : ℕ) → ℕ × User
map_new_memory kernel_page_table s vaddr size mapped_size =
    let (memory, h, p) = new_process_memory_region s.process s.heap in
    let s' = record s { heap = h; process = p } in
    let (m, s'') = create_from_heap kernel_page_table s' vaddr memory mapped_size in
    if memory == 0 then (0, s') else if m == 0 then (0, s'') else (memory, s'')

-- One segment; the code is 1 for a failure.
unfoldable pub load_segment : (kernel_page_table : ℕ) → ElfProgramHeader → Loader → ℕ × Loader
load_segment kernel_page_table hdr s =
    let file_page_offset = hdr.file_address % page_size in
    let map_from = (hdr.proc_address + 2 ^ 64 - file_page_offset) % 2 ^ 64 in
    let size = (hdr.proc_size + file_page_offset) % 2 ^ 64 in
    let (memory, user) =
      map_new_memory kernel_page_table s.user map_from size (round_up_to_page size) in
    if not (map_from % page_size == 0)
    then (1, s)
    else if memory == 0
    then (1, record s { user = user })
    else (
      0,
      record {
        user = user;
        copied = (memory + file_page_offset, hdr.file_address, hdr.file_size) ∷ s.copied;
      },
    )

unfoldable pub load_segments : (kernel_page_table : ℕ) → List ElfProgramHeader → Loader → ℕ × Loader
load_segments kernel_page_table [] s = (0, s)
load_segments kernel_page_table (hdr ∷ rest) s =
    let (code, s') = load_segment kernel_page_table hdr s in
    let later = load_segments kernel_page_table rest s' in if code == 0 then later else (code, s')

-- The user stack below its fixed top, and the stack of the kernel thread.
unfoldable pub make_stacks : (kernel_page_table switch_to_user_thread : ℕ) → ℕ × Loader → ℕ × Loader
make_stacks kernel_page_table switch_to_user_thread (code, s) =
    let p = s.user.process in
    let stack_begin = (p.user_sp + 2 ^ 64 - p.user_stack_size) % 2 ^ 64 in
    let (stack, user) =
      map_new_memory kernel_page_table s.user stack_begin p.user_stack_size p.user_stack_size in
    let (kernel_stack, h, q) = new_process_memory_region user.process user.heap in
    let with_kernel = record user { heap = h; process = q } in
    let done = with_process with_kernel (record q {
      kern_sp = (kernel_stack + q.kern_stack_size) % 2 ^ 64;
      kern_link_reg = switch_to_user_thread;
    }) in
    if not (code == 0)
    then (code, s)
    else if stack == 0
    then (1, record s { user = user })
    else if kernel_stack == 0
    then (1, record s { user = with_kernel })
    else (0, record s { user = done })

unfoldable pub elf_create_process :
    (kernel_page_table switch_to_user_thread : ℕ) → ElfData → User → ℕ × Loader
elf_create_process kernel_page_table switch_to_user_thread elf s =
    let p = record s.process {
      user_link_reg = elf.header.entry_point;
      user_stack_size = page_size;
      kern_stack_size = page_size * 4;
    } in
    make_stacks kernel_page_table switch_to_user_thread (
      load_segments kernel_page_table elf.pheader (record { user = with_process s p; copied = [] }))
