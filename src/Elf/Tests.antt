-- ===== src/Elf/Tests.antt =====
-- A small file and its process, and the theorems at them.
use raspberry_pi_os.Base.{◌≡◌, refl, arith, some, [], ◌∷◌}
use raspberry_pi_os.Elf.{ElfHeader, ElfProgramHeader, load_elf}
use raspberry_pi_os.Elf.Roundtrip.{file_bytes, load_elf-file_bytes}

abbrev header : ElfHeader
header = record {
  elf_class = 2;
  endianness = 1;
  version = 1;
  abi = 0;
  abi_version = 0;
  object_type = 2;
  instruction_set = 0xB7;
  entry_point = 0x400120;
  pheader_addr = 66;
  sheader_addr = 0;
  pheader_num = 1;
  sheader_num = 0;
  pheader_size = 56;
  sheader_size = 0;
  sheader_name_index = 0;
  flags = 0;
}

abbrev segment : ElfProgramHeader
segment = record {
  segment_type = 1;
  segment_flags = 5;
  file_address = 0x120;
  proc_address = 0x400120;
  file_size = 3;
  proc_size = 16;
  alignment = 4096;
}

load_elf-file_bytes_example :
    load_elf 0x12 122 (file_bytes header (1 ∷ 2 ∷ []) (segment ∷ []) [])
    ≡ some (record {
      file = file_bytes header (1 ∷ 2 ∷ []) (segment ∷ []) [];
      header = header;
      pheader = segment ∷ [];
    })
load_elf-file_bytes_example =
    load_elf-file_bytes 0x12 header (1 ∷ 2 ∷ []) (segment ∷ []) [] 122
      (
        omega arith,
        omega arith,
        omega arith,
        omega arith,
        omega arith,
        omega arith,
        omega arith,
        omega arith,
        omega arith,
        omega arith,
        omega arith,
      )
      (
        (omega arith, omega arith, omega arith, omega arith, omega arith, omega arith, omega arith),
        omega arith,
      )
      refl refl refl refl refl (omega arith) refl (omega arith)
