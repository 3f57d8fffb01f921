-- ===== src/Alloc/Buddy/Sizes.antt =====
-- The sizes of blocks in source/alloc/buddy.c.
use mathlib.Core.Path.{subst}
use raspberry_pi_os.Base.{
  ℕ, zero, suc, ◌+◌, ◌-◌, ◌^◌, ◌≤◌, ◌<◌, ◌≡◌, refl, arith, true, Option, none, some, ltb,
  if◌then◌else◌, ◌==◌, Bool-cases, inl, inr, ltb→lt, ltb→le, ==→eq, ==→ne, not, ◌&&◌, bit_and,
}
use raspberry_pi_os.Memory.Page.{page_size}
use raspberry_pi_os.Alloc.Buddy.{size_to_bytes, size_loop, block_size_for}

-- The least block that holds the request: larger than half of it is needed, or it is the smallest.
abbrev pub IsFit : (size : ℕ) → Option ℕ → Type 0
IsFit size none = ⊥
IsFit size (some i) =
    (size ≤ size_to_bytes i) × (i ≤ 22) × ((j : ℕ) → j < i → size_to_bytes j < size)

last_is_large : (size : ℕ) → size ≤ 2 ^ 64 - 2 ^ 31 → ¬ (size_to_bytes 22 < size)
unfolding size_to_bytes
last_is_large size top h = omega (arith, h)

size_loop-IsFit :
    (rounds size i : ℕ)
    → i + rounds ≡ 32
    → i ≤ 22
    → size ≤ 2 ^ 64 - 2 ^ 31
    → ((j : ℕ) → j < i → size_to_bytes j < size)
    → IsFit size (size_loop rounds size i)
unfolding size_loop
size_loop-IsFit zero size i e small top smaller = absurd (omega arith)
size_loop-IsFit (suc rounds) size i e small top smaller =
    elim (Bool-cases (ltb (size_to_bytes i) size)) [
      | inl short ↦ rw short (
          size_loop-IsFit rounds size (i + 1) (omega arith) (fits_at_last short) top
            (λ j h. still j h short))
      | inr enough ↦ rw enough (ltb→le (size_to_bytes i) size enough, small, smaller)
    ]
  where
    fits_at_last : ltb (size_to_bytes i) size ≡ true → i + 1 ≤ 22
    fits_at_last short = elim (Bool-cases (i == 22)) [
      | inl last ↦
          let here = ==→eq i 22 last in
          let large =
            subst (λ k. size_to_bytes k < size) here (ltb→lt (size_to_bytes i) size short) in
          absurd (last_is_large size top large)
      | inr other ↦ let ne = ==→ne i 22 other in omega arith
    ]

    still : (j : ℕ) → j < i + 1 → ltb (size_to_bytes i) size ≡ true → size_to_bytes j < size
    still j h short = elim (Bool-cases (i == j)) [
      | inl same ↦
          subst (λ k. size_to_bytes k < size) (==→eq i j same) (ltb→lt (size_to_bytes i) size short)
      | inr other ↦ let ne = ==→ne i j other in smaller j (omega arith)
    ]

-- The size of the block that `kmalloc` looks for is the least that holds the request, which is a page
-- at least when the alignment to pages is asked for: the loop over the sizes ends, at 22 or before.
pub block_size_for_lem :
    (size flags : ℕ)
    → size ≤ 2 ^ 64 - 2 ^ 31
    → IsFit
        (if not (bit_and flags 2 == 0) && ltb size page_size then page_size else size)
        (block_size_for size flags)
unfolding block_size_for
block_size_for_lem size flags top =
    size_loop-IsFit 32
      (if not (bit_and flags 2 == 0) && ltb size page_size then page_size else size) 0 refl
      (omega arith) (ground arith) (λ j h. absurd (omega arith))
