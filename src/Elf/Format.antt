-- ===== src/Elf/Format.antt =====
-- What an ELF file holds is what source/elf.c reads from it.
use raspberry_pi_os.Base.{ℕ, ◌+◌, ◌*◌, ◌/◌, ◌%◌, ◌^◌, ◌<◌, ◌≡◌, refl, arith, List, ◌∷◌}
use raspberry_pi_os.Elf.{ElfHeader, ElfProgramHeader, unpack_header, unpack_program_header}

-- The bytes of a number, the lowest first, in front of others.
abbrev pub le16 : ℕ → List ℕ → List ℕ
le16 v rest = v % 256 ∷ v / 256 % 256 ∷ rest

abbrev pub le32 : ℕ → List ℕ → List ℕ
le32 v rest = le16 (v % 65536) (le16 (v / 65536) rest)

abbrev pub le64 : ℕ → List ℕ → List ℕ
le64 v rest = le32 (v % 4294967296) (le32 (v / 4294967296) rest)

read16 : (v : ℕ) → v < 65536 → v % 256 + 256 * (v / 256 % 256) ≡ v
read16 v h = omega arith

read32 :
    (v : ℕ)
    → v < 4294967296
    → v % 65536 % 256
        + 256 * (v % 65536 / 256 % 256)
        + 65536 * (v / 65536 % 256 + 256 * (v / 65536 / 256 % 256))
      ≡ v
read32 v h = omega arith

read64 :
    (v : ℕ)
    → v < 2 ^ 64
    → v % 4294967296 % 65536 % 256
        + 256 * (v % 4294967296 % 65536 / 256 % 256)
        + 65536 * (v % 4294967296 / 65536 % 256 + 256 * (v % 4294967296 / 65536 / 256 % 256))
        + 4294967296
          * (v / 4294967296 % 65536 % 256
              + 256 * (v / 4294967296 % 65536 / 256 % 256)
              + 65536 * (v / 4294967296 / 65536 % 256 + 256 * (v / 4294967296 / 65536 / 256 % 256)))
      ≡ v
read64 v h = omega arith

-- The first 64 bytes of a file, as the format lays them out.
abbrev pub header_bytes : ElfHeader → List ℕ → List ℕ
header_bytes h rest =
    0x7F
    ∷ 69
    ∷ 76
    ∷ 70
    ∷ h.elf_class
    ∷ h.endianness
    ∷ h.version
    ∷ h.abi
    ∷ h.abi_version
    ∷ 0
    ∷ 0
    ∷ 0
    ∷ 0
    ∷ 0
    ∷ 0
    ∷ 0
    ∷ le16 h.object_type (
        le16 h.instruction_set (
          le32 1 (
            le64 h.entry_point (
              le64 h.pheader_addr (
                le64 h.sheader_addr (
                  le32 h.flags (
                    le16 64 (
                      le16 h.pheader_size (
                        le16 h.pheader_num (
                          le16 h.sheader_size
                            (le16 h.sheader_num (le16 h.sheader_name_index rest))))))))))))

-- The 56 bytes of a program header.
abbrev pub program_header_bytes : ElfProgramHeader → List ℕ → List ℕ
program_header_bytes p rest = le32 p.segment_type (
    le32 p.segment_flags (
      le64 p.file_address (
        le64 p.proc_address
          (le64 p.proc_address (le64 p.file_size (le64 p.proc_size (le64 p.alignment rest)))))))

-- The fields fit their widths.
abbrev pub HeaderFits : ElfHeader → Type 0
HeaderFits h =
    (h.object_type < 65536)
    × (h.instruction_set < 65536)
    × (h.entry_point < 2 ^ 64)
    × (h.pheader_addr < 2 ^ 64)
    × (h.sheader_addr < 2 ^ 64)
    × (h.flags < 4294967296)
    × (h.pheader_size < 65536)
    × (h.pheader_num < 65536)
    × (h.sheader_size < 65536)
    × (h.sheader_num < 65536)
    × (h.sheader_name_index < 65536)

abbrev pub ProgramHeaderFits : ElfProgramHeader → Type 0
ProgramHeaderFits p =
    (p.segment_type < 4294967296)
    × (p.segment_flags < 4294967296)
    × (p.file_address < 2 ^ 64)
    × (p.proc_address < 2 ^ 64)
    × (p.file_size < 2 ^ 64)
    × (p.proc_size < 2 ^ 64)
    × (p.alignment < 2 ^ 64)

pub unpack_header-bytes :
    (h : ElfHeader) (rest : List ℕ) → HeaderFits h → unpack_header (header_bytes h rest) ≡ h
unfolding unpack_header
unpack_header-bytes h rest (f0, f1, f2, f3, f4, f5, f6, f7, f8, f9, f10) =
    rw
      (
        read16 h.object_type f0,
        read16 h.instruction_set f1,
        read64 h.entry_point f2,
        read64 h.pheader_addr f3,
        read64 h.sheader_addr f4,
        read32 h.flags f5,
        read16 h.pheader_size f6,
        read16 h.pheader_num f7,
        read16 h.sheader_size f8,
        read16 h.sheader_num f9,
        read16 h.sheader_name_index f10,
      )
      refl

pub unpack_program_header-bytes :
    (p : ElfProgramHeader) (rest : List ℕ)
    → ProgramHeaderFits p
    → unpack_program_header (program_header_bytes p rest) 0 ≡ p
unfolding unpack_program_header
unpack_program_header-bytes p rest (f0, f1, f2, f3, f4, f5, f6) =
    rw
      (
        read32 p.segment_type f0,
        read32 p.segment_flags f1,
        read64 p.file_address f2,
        read64 p.proc_address f3,
        read64 p.file_size f4,
        read64 p.proc_size f5,
        read64 p.alignment f6,
      )
      refl
