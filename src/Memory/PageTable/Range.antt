-- ===== src/Memory/PageTable/Range.antt =====
-- `page_table_map_address` of source/memory/pagetable.c as a whole: the loop over the blocks.
use raspberry_pi_os.Base.Bits.{bit_and_mask}
use raspberry_pi_os.Base.{
  eq→==, ne→==, bit_and, ◌==◌, ℕ, zero, suc, ◌+◌, ◌-◌, ◌*◌, ◌/◌, ◌%◌, ◌^◌, ◌≤◌, ◌<◌, ◌≡◌, ◌≢◌, refl,
  sym, ◌∙◌, arith, true, ◌⊎◌, inl, inr, length, Bool-cases, ltb, ltb→lt, ltb→le,
}
use raspberry_pi_os.Memory.PageTable.{Tables, page_table_block_size}
use raspberry_pi_os.Memory.PageTable.Index.{one-page-le-block, block-end-aligned, congruent-shift}
use raspberry_pi_os.Memory.PageTable.Map.{
  Block, placed, refused, after_block, MapResult, mapped, failed, out_of_fuel, map_loop,
  page_table_map_address,
}
use raspberry_pi_os.Memory.PageTable.Alignment.{Fits}
use raspberry_pi_os.Memory.PageTable.Correct.{
  IsRooted, KeepsOutside, Translates, Places, map_block-Places, Congruent, Maps,
}

KeepsOutside-trans :
    (root c m e : ℕ) (s s' s'' : Tables)
    → c ≤ m
    → m ≤ e
    → KeepsOutside root c m s s'
    → KeepsOutside root m e s' s''
    → KeepsOutside root c e s s''
KeepsOutside-trans root c m e s s' s'' cm me first second a small out live =
    let one = first a small (omega arith) live in
    second a small (omega arith) (λ dead. live (sym one ∙ dead)) ∙ one

Translates-append :
    (root c m e p : ℕ) (s' s'' : Tables)
    → 0 < p
    → e ≤ 2 ^ 48
    → c ≤ m
    → m ≤ e
    → Translates root c m p s'
    → KeepsOutside root m e s' s''
    → Translates root m e (p + (m - c)) s''
    → Translates root c e p s''
Translates-append root c m e p s' s'' positive small cm me first kept second a lo hi =
    elim (Bool-cases (ltb a m)) [
      | inl below ↦
          let old = first a lo (ltb→lt a m below) in
          let lt = ltb→lt a m below in
          kept a (omega arith) (inl lt) (λ dead. absurd (omega (arith, old, dead))) ∙ old
      | inr above ↦ let le = ltb→le a m above in second a le hi ∙ omega arith
    ]

module _ (root pa va end : ℕ) (positive : 0 < pa)
    (pages : (pa % 4096 ≡ 0) × (va % 4096 ≡ 0) × (end % 4096 ≡ 0))
    (bounds : (va ≤ end) × (end ≤ 2 ^ 48) × (pa + (end - va) ≤ 2 ^ 48))
    (alike : Congruent pa va (end - va)) where
  -- The blocks after the first, put together with it.
  after_block-Maps :
      (s : Tables) (current : ℕ) (b : Block) (continue : ℕ → Tables → MapResult)
      → va ≤ current
      → current < end
      → Places s root current (pa + (current - va)) (end - current) b
      → ((level : ℕ) (s' : Tables)
          → IsRooted s' root
          → Fits current (end - current) level
          → length s.fresh ≤ length s'.fresh + 3
          → let next = current + page_table_block_size level in
            Maps s' root next end (pa + (next - va)) (continue level s'))
      → Maps s root current end (pa + (current - va)) (after_block b continue)
  unfolding after_block
  after_block-Maps s current (refused s') continue lo hi (rooted', kept) rest =
      let sum : current + (end - current) ≡ end = omega arith in (rooted', rw sum at kept)
  after_block-Maps s current (placed level s') continue lo hi (rooted', ok, left, kept, block)
        rest =
      combine (continue level s') (rest level s' rooted' ok left)
    where
      first :
          Translates root current (current + page_table_block_size level) (pa + (current - va)) s'
      first = block (
          congruent-shift level pa va current ok.bound
            (alike level ok.bound (omega (arith, ok.within))) ok.aligned lo)

      next : ℕ
      next = current + page_table_block_size level

      shift : pa + (next - va) ≡ pa + (current - va) + (next - current)
      shift = omega arith

      combine :
          (r : MapResult)
          → Maps s' root next end (pa + (next - va)) r
          → Maps s root current end (pa + (current - va)) r
      combine (mapped s'') (rooted'', there, kept') = (
        rooted'',
        Translates-append root current next end (pa + (current - va)) s' s'' (omega arith) bounds.1
            (omega arith) (omega (arith, ok.within)) first kept' (rw shift at there),
        KeepsOutside-trans root current next end s s' s'' (omega arith) (omega (arith, ok.within))
            kept kept',
      )
      combine (failed s'') (rooted'', kept') = (
        rooted'',
        KeepsOutside-trans root current next end s s' s'' (omega arith) (omega (arith, ok.within))
            kept kept',
      )
      combine out_of_fuel bad = bad

  pub map_loop-Maps :
      (fuel : ℕ) (s : Tables) (current : ℕ)
      → IsRooted s root
      → va ≤ current
      → current ≤ end
      → current % 4096 ≡ 0
      → (end - current) / 4096 < fuel
      → 3 * ((end - current) / 4096) ≤ length s.fresh
      → Maps s root current end (pa + (current - va)) (map_loop fuel s root pa va end current)
  unfolding map_loop
  map_loop-Maps zero s current rooted lo hi aligned enough room = absurd (omega arith)
  map_loop-Maps (suc fuel) s current rooted lo hi aligned enough room =
      elim (Bool-cases (ltb current end)) [
        | inl more ↦
            let lt = ltb→lt current end more in
            let whole : (pa + (current - va)) % 2 ^ 64 ≡ pa + (current - va) = omega arith in
            rw (more, whole)
              (after_block-Maps s current _ _ lo lt
                (map_block-Places s root current (pa + (current - va)) (end - current) rooted
                  (omega arith) (omega arith) (omega arith) (omega arith) aligned (omega arith))
                (λ level s' rooted' ok left.
                  let block = one-page-le-block level ok.bound in
                  let next : (current + page_table_block_size level) % 2 ^ 64
                      ≡ current + page_table_block_size level =
                    omega (arith, ok.within) in
                  rw next (
                    map_loop-Maps fuel s' (current + page_table_block_size level) rooted'
                      (omega arith) (omega (arith, ok.within))
                      (block-end-aligned level current ok.bound aligned)
                      (omega (arith, ok.within, block)) (omega (arith, ok.within, block, left)))))
        | inr done ↦ rw done (
          rooted,
          λ a l h. absurd (omega (arith, ltb→le current end done)),
          λ a small out live. refl,
        )
      ]

-- With page-aligned arguments below 48 bits, a physical start other than 0, three free pages for
-- each page of the range and physical addresses aligned like the virtual ones for every block that
-- fits, the call ends; if it succeeds, every address of the range is translated to its place behind
-- the physical start. Whether it succeeds or meets a conflicting entry, the tables stay a tree and
-- every address outside of the range that was translated keeps its translation.
pub page_table_map_address_lem :
    (s : Tables) (root pa va size : ℕ)
    → IsRooted s root
    → (pa % 4096 ≡ 0) × (va % 4096 ≡ 0) × (size % 4096 ≡ 0)
    → 0 < pa
    → (va + size ≤ 2 ^ 48) × (pa + size ≤ 2 ^ 48)
    → Congruent pa va size
    → 3 * (size / 4096) ≤ length s.fresh
    → Maps s root va (va + size) pa (page_table_map_address s root pa va size)
unfolding page_table_map_address
page_table_map_address_lem s root pa va size rooted pages positive bounds alike room =
    let p0 : (bit_and pa (4096 - 1) == 0) ≡ true = eq→== _ 0 (bit_and_mask 12 pa ∙ pages.0) in
    let v0 : (bit_and va (4096 - 1) == 0) ≡ true = eq→== _ 0 (bit_and_mask 12 va ∙ pages.1) in
    let z0 : (bit_and size (4096 - 1) == 0) ≡ true = eq→== _ 0 (bit_and_mask 12 size ∙ pages.2) in
    let whole : (va + size) % 2 ^ 64 ≡ va + size = omega arith in
    let width : va + size - va ≡ size = omega arith in
    let start : pa + (va - va) ≡ pa = omega arith in
    let result =
      map_loop-Maps root pa va (va + size) positive (pages.0, pages.1, omega arith)
        (omega arith, bounds.0, omega arith) (rw width alike) (size / 4096 + 1) s va rooted
        (omega arith) (omega arith) pages.1 (rw width (omega arith)) (rw width room) in
    rw (p0, v0, z0, whole) (rw start at result)

-- A physical start, virtual start or size that is not a multiple of the page size is refused, and
-- nothing is changed.
pub page_table_map_address_unaligned :
    (s : Tables) (root pa va size : ℕ)
    → (pa % 4096 ≢ 0) ⊎ ((va % 4096 ≢ 0) ⊎ (size % 4096 ≢ 0))
    → page_table_map_address s root pa va size ≡ failed s
unfolding page_table_map_address
page_table_map_address_unaligned s root pa va size bad =
    let p = bit_and_mask 12 pa in
    let v = bit_and_mask 12 va in
    let z = bit_and_mask 12 size in
    elim bad [
      | inl pa_bad ↦ rw (ne→== _ 0 (λ e. pa_bad (sym p ∙ e))) refl
      | inr rest ↦ elim rest [
        | inl va_bad ↦ rw (ne→== (bit_and va 4095) 0 (λ e. va_bad (sym v ∙ e))) (ground arith)
        | inr size_bad ↦ rw (ne→== (bit_and size 4095) 0 (λ e. size_bad (sym z ∙ e))) (ground arith)
      ]
    ]
