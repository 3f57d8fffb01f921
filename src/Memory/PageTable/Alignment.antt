-- ===== src/Memory/PageTable/Alignment.antt =====
-- Which block `page_table_map_address` places next: `page_table_alignment`, and the loop that goes
-- down to a block that fits.
use raspberry_pi_os.Base.{
  ℕ, zero, suc, ◌+◌, ◌-◌, ◌%◌, ◌≤◌, ◌<◌, ◌≡◌, ◌≢◌, sym, ◌∙◌, arith, Option, none, some, Bool-cases,
  inl, inr, bit_and, ◌==◌, ltb, ltb→lt, ltb→le, ==→eq, ==→ne,
}
use raspberry_pi_os.Base.Bits.{bit_and_mask}
use raspberry_pi_os.Memory.PageTable.{
  level_shift, page_table_block_size, alignment_loop, page_table_alignment,
}
use raspberry_pi_os.Memory.PageTable.Map.{fit_level}

block_mask :
    (a level : ℕ) → bit_and a (page_table_block_size level - 1) ≡ a % page_table_block_size level
unfolding page_table_block_size
block_mask a level = bit_and_mask (level_shift level) a

-- `some level` is the largest block that the address is aligned to, and `none` means that it is
-- not aligned to a page.
abbrev pub IsAlignment : ℕ → Option ℕ → Type 0
IsAlignment a none = a % 4096 ≢ 0
IsAlignment a (some level) =
    (level ≤ 3)
    × (a % page_table_block_size level ≡ 0)
    × ((larger : ℕ) → larger < level → a % page_table_block_size larger ≢ 0)

-- An aligned address is aligned to the smaller blocks too.
pub block-finer :
    (a level : ℕ)
    → level < 3
    → a % page_table_block_size level ≡ 0
    → a % page_table_block_size (suc level) ≡ 0
unfolding page_table_block_size
block-finer a zero h e = omega arith
block-finer a (suc zero) h e = omega arith
block-finer a (suc (suc zero)) h e = omega arith
block-finer a (suc (suc (suc n))) h e = absurd (omega arith)

block-finer_iter :
    (k a level : ℕ)
    → level + k ≤ 3
    → a % page_table_block_size level ≡ 0
    → a % page_table_block_size (level + k) ≡ 0
block-finer_iter zero a level h e = let same : level + 0 ≡ level = omega arith in rw same e
block-finer_iter (suc k) a level h e =
    let next : suc level + k ≡ level + suc k = omega arith in
    rw (← next)
      (block-finer_iter k a (suc level) (omega arith) (block-finer a level (omega arith) e))

pub aligned-to-page : (a level : ℕ) → level ≤ 3 → a % page_table_block_size level ≡ 0 → a % 4096 ≡ 0
unfolding page_table_block_size
aligned-to-page a level h e =
    let three : level + (3 - level) ≡ 3 = omega arith in
    rw three at (block-finer_iter (3 - level) a level (omega arith) e)

not-coarser :
    (a larger level : ℕ)
    → larger < suc level
    → level ≤ 3
    → a % page_table_block_size level ≢ 0
    → a % page_table_block_size larger ≢ 0
not-coarser a larger level h bound ne e =
    let sum : larger + (level - larger) ≡ level = omega arith in
    ne (rw sum at (block-finer_iter (level - larger) a larger (omega arith) e))

last-page : (a level : ℕ) → level ≡ 3 → a % page_table_block_size level ≢ 0 → a % 4096 ≢ 0
unfolding page_table_block_size
last-page a level e ne h = ne (rw e h)

alignment_loop_lem :
    (level a : ℕ)
    → level ≤ 4
    → (level ≤ 3 → a % page_table_block_size level ≡ 0)
    → IsAlignment a (alignment_loop level a)
unfolding alignment_loop
alignment_loop_lem zero a h coarse =
    (omega arith, coarse (omega arith), λ larger lt. absurd (omega arith))
alignment_loop_lem (suc level) a h coarse =
    elim (Bool-cases (bit_and a (page_table_block_size level - 1) == 0)) [
      | inl hit ↦
          let aligned : a % page_table_block_size level ≡ 0 =
            sym (block_mask a level) ∙ ==→eq _ 0 hit in
          rw hit (alignment_loop_lem level a (omega arith) (λ _. aligned))
      | inr miss ↦
          let ne : a % page_table_block_size level ≢ 0 =
            λ e. ==→ne _ 0 miss (block_mask a level ∙ e) in
          elim (Bool-cases (level == 3)) [
            | inl page ↦ rw (miss, page) (last-page a level (==→eq level 3 page) ne)
            | inr block ↦
                let low : level ≢ 3 = ==→ne level 3 block in
                let sum : level + 1 ≡ suc level = omega arith in
                rw (miss, block, sum)
                  (
                    omega arith,
                    coarse (omega arith),
                    λ larger lt. not-coarser a larger level lt (omega arith) ne,
                  )
          ]
    ]

-- The result is the level of the largest block, of levels 0 to 3, whose size divides the address, or
-- -1, and then the address is not a multiple of the page size.
pub page_table_alignment_lem : (a : ℕ) → IsAlignment a (page_table_alignment a)
unfolding page_table_alignment
page_table_alignment_lem a = alignment_loop_lem 4 a (omega arith) (λ h. absurd (omega arith))

page-within :
    (level remaining : ℕ) → level ≡ 3 → 4096 ≤ remaining → page_table_block_size level ≤ remaining
unfolding page_table_block_size
page-within level remaining e h = rw e h

-- A block at `a` that is aligned and not longer than what remains to be mapped.
pub record Fits (a remaining level : ℕ) : Type 0 where
  pub bound : level ≤ 3
  pub aligned : a % page_table_block_size level ≡ 0
  pub within : page_table_block_size level ≤ remaining

-- The loop ends at a block that fits: at the latest at a page.
pub fit_level-Fits :
    (rounds a level remaining : ℕ)
    → level ≤ 3
    → 3 ≤ level + rounds
    → 4096 ≤ remaining
    → a % page_table_block_size level ≡ 0
    → Fits a remaining (fit_level rounds level remaining)
unfolding fit_level
fit_level-Fits zero a level remaining top e h al = record {
  bound = omega arith;
  aligned = al;
  within = page-within level remaining (omega arith) h;
}
fit_level-Fits (suc rounds) a level remaining top e h al =
    elim (Bool-cases (ltb remaining (page_table_block_size level))) [
      | inl long ↦
          let next : level + 1 ≡ suc level = omega arith in
          let not_page : level ≢ 3 =
            λ e'. absurd (omega (arith, page-within level remaining e' h, ltb→lt _ _ long)) in
          rw (long, next)
            (fit_level-Fits rounds a (suc level) remaining (omega arith) (omega arith) h
              (block-finer a level (omega arith) al))
      | inr short ↦ rw short record { bound = omega arith; aligned = al; within = ltb→le _ _ short }
    ]
