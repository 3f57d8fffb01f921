-- ===== src/Elf/Roundtrip.antt =====
-- What source/elf.c loads from a file that was laid out by the format.
use raspberry_pi_os.Base.{
  bit_and, ◌≢◌, eq→==, ne→==, ℕ, zero, suc, ◌+◌, ◌*◌, ◌≤◌, ◌≡◌, refl, ap, ◌∙◌, arith, true, false,
  some, List, [], ◌∷◌, ◌++◌, length, length-append, get_or, ltb, le→ltb, ◌==◌,
}
use mathlib.Core.Path.{subst}
use raspberry_pi_os.Text.Number.{c_string}
use raspberry_pi_os.Text.Strings.{strncmp, strncmp_loop}
use raspberry_pi_os.Fs.Bytes.{u32_at, u64_at}
use raspberry_pi_os.Elf.{
  ElfHeader, ElfProgramHeader, is_elf, unpack_header, load_elf_header, unpack_program_header,
  program_header_loop, load_elf_program_header, with_program_headers, with_header, load_elf,
}
use raspberry_pi_os.Elf.Format.{
  header_bytes, program_header_bytes, HeaderFits, ProgramHeaderFits, unpack_header-bytes,
  unpack_program_header-bytes,
}

-- The program headers, one behind the other.
abbrev pub table_bytes : List ElfProgramHeader → List ℕ → List ℕ
table_bytes [] rest = rest
table_bytes (p ∷ ps) rest = program_header_bytes p (table_bytes ps rest)

abbrev pub AllFit : List ElfProgramHeader → Type 0
AllFit [] = 0 ≤ 0
AllFit (p ∷ ps) = ProgramHeaderFits p × AllFit ps

-- A file: its header, what stands in between, and the table.
abbrev pub file_bytes :
    ElfHeader → (between : List ℕ) → List ElfProgramHeader → (rest : List ℕ) → List ℕ
file_bytes h between ps rest = header_bytes h (between ++ table_bytes ps rest)

append_assoc : (xs ys zs : List ℕ) → (xs ++ ys) ++ zs ≡ xs ++ (ys ++ zs)
append_assoc [] ys zs = refl
append_assoc (x ∷ xs) ys zs = ap (λ t. x ∷ t) (append_assoc xs ys zs)

get_or-append :
    (pre bytes : List ℕ) (k i : ℕ)
    → i ≡ length pre + k
    → get_or (pre ++ bytes) i 0 ≡ get_or bytes k 0
get_or-append [] bytes k i e = ap (λ t. get_or bytes t 0) (omega (arith, e))
get_or-append (x ∷ pre) bytes k zero e = absurd (omega arith)
get_or-append (x ∷ pre) bytes k (suc i) e = get_or-append pre bytes k i (omega arith)

u32_at-append :
    (pre bytes : List ℕ) (k i : ℕ) → i ≡ length pre + k → u32_at (pre ++ bytes) i ≡ u32_at bytes k
u32_at-append pre bytes k i e =
    rw
      (
        get_or-append pre bytes k i e,
        get_or-append pre bytes (k + 1) (i + 1) (omega arith),
        get_or-append pre bytes (k + 2) (i + 2) (omega arith),
        get_or-append pre bytes (k + 2 + 1) (i + 2 + 1) (omega arith),
      )
      refl

u64_at-append :
    (pre bytes : List ℕ) (k i : ℕ) → i ≡ length pre + k → u64_at (pre ++ bytes) i ≡ u64_at bytes k
u64_at-append pre bytes k i e =
    ap (λ t. t + 4294967296 * u32_at (pre ++ bytes) (i + 4)) (u32_at-append pre bytes k i e)
    ∙ ap (λ t. u32_at bytes k + 4294967296 * t)
        (u32_at-append pre bytes (k + 4) (i + 4) (omega arith))

unpack_program_header-append :
    (pre bytes : List ℕ) (i : ℕ)
    → i ≡ length pre
    → unpack_program_header (pre ++ bytes) i ≡ unpack_program_header bytes 0
unfolding unpack_program_header
unpack_program_header-append pre bytes i e =
    rw
      (
        u32_at-append pre bytes 0 (i + 0x00) (omega arith),
        u32_at-append pre bytes 0x04 (i + 0x04) (omega arith),
        u64_at-append pre bytes 0x08 (i + 0x08) (omega arith),
        u64_at-append pre bytes 0x10 (i + 0x10) (omega arith),
        u64_at-append pre bytes 0x20 (i + 0x20) (omega arith),
        u64_at-append pre bytes 0x28 (i + 0x28) (omega arith),
        u64_at-append pre bytes 0x30 (i + 0x30) (omega arith),
      )
      refl

program_header_loop-table :
    (ps : List ElfProgramHeader) (pre rest : List ℕ) (addr i : ℕ)
    → addr + 56 * i ≡ length pre
    → AllFit ps
    → program_header_loop (length ps) (pre ++ table_bytes ps rest) addr 56 i ≡ ps
unfolding program_header_loop
program_header_loop-table [] pre rest addr i e fits = refl
program_header_loop-table (p ∷ ps) pre rest addr i e (fit, fits) =
    let bytes = program_header_bytes p (table_bytes ps rest) in
    let longer = pre ++ program_header_bytes p [] in
    let head : unpack_program_header (pre ++ bytes) (addr + 56 * i) ≡ p =
      unpack_program_header-append pre bytes (addr + 56 * i) e
      ∙ unpack_program_header-bytes p (table_bytes ps rest) fit in
    let at : addr + 56 * (i + 1) ≡ length longer =
      omega (arith, length-append pre (program_header_bytes p [])) in
    let tail : program_header_loop (length ps) (pre ++ bytes) addr 56 (i + 1) ≡ ps =
      subst (λ t. program_header_loop (length ps) t addr 56 (i + 1) ≡ ps)
        (append_assoc pre (program_header_bytes p []) (table_bytes ps rest))
        (program_header_loop-table ps longer rest addr (i + 1) at fits) in
    ap (λ t. t ∷ program_header_loop (length ps) (pre ++ bytes) addr 56 (i + 1)) head
    ∙ ap (λ t. p ∷ t) tail

strncmp_loop-end : (s : List ℕ) → strncmp_loop s [] 4 4 ≡ 0
unfolding strncmp_loop
strncmp_loop-end [] = refl
strncmp_loop-end (c ∷ s) = refl

is_elf-header_bytes : (h : ElfHeader) (rest : List ℕ) → is_elf (header_bytes h rest) ≡ true
unfolding is_elf c_string strncmp strncmp_loop
is_elf-header_bytes h rest = ap (λ t. t == 0) (strncmp_loop-end _)

load_elf_header_lem :
    (state : ℕ) (bytes : List ℕ) (h : ElfHeader)
    → bit_and state 0x02 ≢ 0
    → unpack_header bytes ≡ h
    → h.elf_class ≡ 2
    → h.endianness ≡ 1
    → load_elf_header state bytes ≡ some h
unfolding load_elf_header
load_elf_header_lem state bytes h valid e class endian =
    rw (ne→== (bit_and state 0x02) 0 valid, e, class, endian) refl

load_elf_program_header_lem :
    (state : ℕ) (bytes : List ℕ) (h : ElfHeader) (ps : List ElfProgramHeader)
    → bit_and state 0x02 ≢ 0
    → program_header_loop h.pheader_num bytes h.pheader_addr h.pheader_size 0 ≡ ps
    → load_elf_program_header state bytes h ≡ some ps
unfolding load_elf_program_header
load_elf_program_header_lem state bytes h ps valid e =
    rw (ne→== (bit_and state 0x02) 0 valid) (ap some e)

load_elf_lem :
    (state : ℕ) (bytes : List ℕ) (h : ElfHeader) (ps : List ElfProgramHeader) (data_size : ℕ)
    → bit_and state 0x20 ≡ 0
    → bit_and state 0x02 ≢ 0
    → is_elf bytes ≡ true
    → load_elf_header state bytes ≡ some h
    → load_elf_program_header state bytes h ≡ some ps
    → ltb data_size 0x40 ≡ false
    → load_elf state data_size bytes ≡ some (record { file = bytes; header = h; pheader = ps })
unfolding load_elf with_header with_program_headers
load_elf_lem state bytes h ps data_size no_dir valid elf header table big =
    rw
      (
        eq→== (bit_and state 0x20) 0 no_dir,
        ne→== (bit_and state 0x02) 0 valid,
        big,
        elf,
        header,
        table,
      )
      refl

-- A file of the ELF format, of 64 bits and little-endian, whose table of program headers of 56 bytes
-- stands anywhere behind the header and whose inode is valid and no directory, is loaded as the header
-- and the program headers it was made of.
pub load_elf-file_bytes :
    (state : ℕ) (h : ElfHeader) (between : List ℕ) (ps : List ElfProgramHeader) (rest : List ℕ)
    (data_size : ℕ)
    → HeaderFits h
    → AllFit ps
    → h.elf_class ≡ 2
    → h.endianness ≡ 1
    → h.pheader_addr ≡ 64 + length between
    → h.pheader_size ≡ 56
    → h.pheader_num ≡ length ps
    → 64 ≤ data_size
    → bit_and state 0x20 ≡ 0
    → bit_and state 0x02 ≢ 0
    → load_elf state data_size (file_bytes h between ps rest)
      ≡ some (record { file = file_bytes h between ps rest; header = h; pheader = ps })
load_elf-file_bytes state h between ps rest data_size fits all class endian addr size num big no_dir
      valid =
    let bytes = file_bytes h between ps rest in
    let table : program_header_loop h.pheader_num bytes h.pheader_addr h.pheader_size 0 ≡ ps =
      ap (λ t. program_header_loop t bytes h.pheader_addr h.pheader_size 0) num
      ∙ ap (λ t. program_header_loop (length ps) bytes t h.pheader_size 0) addr
      ∙ ap (λ t. program_header_loop (length ps) bytes (64 + length between) t 0) size
      ∙ subst (λ t. program_header_loop (length ps) t (64 + length between) 56 0 ≡ ps)
          (append_assoc (header_bytes h []) between (table_bytes ps rest))
          (program_header_loop-table ps (header_bytes h between) rest (64 + length between) 0
            (omega arith) all) in
    load_elf_lem state bytes h ps data_size no_dir valid
      (is_elf-header_bytes h (between ++ table_bytes ps rest))
      (load_elf_header_lem state bytes h valid
        (unpack_header-bytes h (between ++ table_bytes ps rest) fits) class endian)
      (load_elf_program_header_lem state bytes h ps valid table) (le→ltb data_size 64 big)
