-- ===== src/Elf/Segments.antt =====
-- The segments that source/elf.c puts into a process.
use raspberry_pi_os.Base.{
  ℕ, ◌+◌, ◌-◌, ◌%◌, ◌^◌, ◌≡◌, refl, arith, not, if◌then◌else◌, List, [], ◌∷◌, ◌==◌, ==→eq,
  if-either,
}
use mathlib.Core.Path.{subst}
use raspberry_pi_os.Memory.Page.{page_size, round_up_to_page}
use raspberry_pi_os.Elf.{ElfProgramHeader, Loader, map_new_memory, load_segment, load_segments}

-- The place and the size in the file of what a copy took.
abbrev pub copies : (copied : List (ℕ × ℕ × ℕ)) → List (ℕ × ℕ)
copies [] = []
copies ((to, from, count) ∷ rest) = (from, count) ∷ copies rest

-- The same of the segments, in front of others, the last segment first.
abbrev pub expected_copies : List ElfProgramHeader → List (ℕ × ℕ) → List (ℕ × ℕ)
expected_copies [] before = before
expected_copies (hdr ∷ rest) before =
    expected_copies rest ((hdr.file_address, hdr.file_size) ∷ before)

-- A result with code 0 has the copies.
HasCopies : List (ℕ × ℕ) → ℕ × Loader → Type 0
HasCopies expected r = r.0 ≡ 0 → copies r.1.copied ≡ expected

fails : (expected : List (ℕ × ℕ)) (s : Loader) → HasCopies expected (1, s)
unfolding HasCopies
fails expected s h = absurd (omega (arith, h))

copies_of :
    (expected : List (ℕ × ℕ)) (r : ℕ × Loader)
    → HasCopies expected r
    → r.0 ≡ 0
    → copies r.1.copied ≡ expected
unfolding HasCopies
copies_of expected r h e = h e

succeeds :
    (expected : List (ℕ × ℕ)) (s : Loader) → copies s.copied ≡ expected → HasCopies expected (0, s)
unfolding HasCopies
succeeds expected s e h = e

load_segment_lem :
    (kernel_page_table : ℕ) (hdr : ElfProgramHeader) (s : Loader)
    → HasCopies
        ((hdr.file_address, hdr.file_size) ∷ copies s.copied)
        (load_segment kernel_page_table hdr s)
unfolding load_segment
load_segment_lem k hdr s =
    let X = (hdr.file_address, hdr.file_size) ∷ copies s.copied in
    let file_page_offset = hdr.file_address % page_size in
    let map_from = (hdr.proc_address + 2 ^ 64 - file_page_offset) % 2 ^ 64 in
    let size = (hdr.proc_size + file_page_offset) % 2 ^ 64 in
    let m = map_new_memory k s.user map_from size (round_up_to_page size) in
    let done : Loader = record {
      user = m.1;
      copied = (m.0 + file_page_offset, hdr.file_address, hdr.file_size) ∷ s.copied;
    } in
    if-either (HasCopies X) (not (map_from % page_size == 0)) (1, s)
      (if m.0 == 0 then (1, record s { user = m.1 }) else (0, done)) (λ e. fails X s)
      (λ e.
        if-either (HasCopies X) (m.0 == 0) (1, record s { user = m.1 }) (0, done)
          (λ e'. fails X (record s { user = m.1 })) (λ e'. succeeds X done refl))

after_segment :
    (expected : List (ℕ × ℕ)) (r later : ℕ × Loader)
    → (r.0 ≡ 0 → HasCopies expected later)
    → HasCopies expected (if r.0 == 0 then later else r)
unfolding HasCopies
after_segment expected r later h =
    if-either (HasCopies expected) (r.0 == 0) later r (λ e. h (==→eq r.0 0 e))
      (λ e e'. absurd (ground arith))

load_segments-HasCopies :
    (kernel_page_table : ℕ) (hdrs : List ElfProgramHeader) (s : Loader)
    → HasCopies (expected_copies hdrs (copies s.copied)) (load_segments kernel_page_table hdrs s)
unfolding load_segments
load_segments-HasCopies k [] s = succeeds (copies s.copied) s refl
load_segments-HasCopies k (hdr ∷ rest) s =
    let r = load_segment k hdr s in
    after_segment (expected_copies (hdr ∷ rest) (copies s.copied)) r (load_segments k rest r.1)
      (λ e.
        subst (λ c. HasCopies (expected_copies rest c) (load_segments k rest r.1))
          (copies_of _ r (load_segment_lem k hdr s) e) (load_segments-HasCopies k rest r.1))

-- When all segments were loaded without a failure, then exactly one copy was made for each of them, in
-- their order, and it took the bytes of the file that the segment names.
pub load_segments_lem :
    (kernel_page_table : ℕ) (hdrs : List ElfProgramHeader) (s : Loader)
    → (load_segments kernel_page_table hdrs s).0 ≡ 0
    → copies (load_segments kernel_page_table hdrs s).1.copied
      ≡ expected_copies hdrs (copies s.copied)
load_segments_lem k hdrs s h = copies_of _ _ (load_segments-HasCopies k hdrs s) h
