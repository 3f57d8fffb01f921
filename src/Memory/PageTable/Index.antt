-- ===== src/Memory/PageTable/Index.antt =====
-- Arithmetic of table indices: how a 48-bit address is cut into four indices and an offset.
use native.Mathlib.Nat.{mod-lt, div-add-mod'}
use mathlib.Core.Path.{subst}
use raspberry_pi_os.Base.{
  ◌⊎◌, ◌≢◌, Bool-cases, ==→eq, inl, inr, ℕ, zero, suc, ◌+◌, ◌-◌, ◌*◌, ◌/◌, ◌%◌, ◌^◌, ◌≤◌, ◌<◌, ◌≡◌,
  refl, sym, ◌∙◌, arith, bit_and, bit_or, true, false, if◌then◌else◌, ◌==◌,
}
use raspberry_pi_os.Base.Bits.{
  bit_and_mask, bit_and_high, bit_and_comm, bit_or_low, bit_or_fields, one-le-pow,
}
use raspberry_pi_os.Memory.Page.{complement64}
use raspberry_pi_os.Memory.PageTable.{
  level_shift, address_index, is_table_entry, is_leaf_entry, get_address_from_descriptor,
  leaf_descriptor, page_table_block_size,
}

-- What identifies the table of a level: the part of the address above it.
abbrev pub prefix : ℕ → ℕ → ℕ
prefix a level = a / 2 ^ ((4 - level) * 9 + 12)

pub index-eq : (a level : ℕ) → address_index a level ≡ a / 2 ^ level_shift level % 512
unfolding address_index
index-eq a level = bit_and_mask 9 (a / 2 ^ level_shift level)

pub index-lt : (a level : ℕ) → address_index a level < 512
index-lt a level = omega (arith, index-eq a level)

pub prefix-suc :
    (a level : ℕ) → level ≤ 3 → prefix a (suc level) ≡ prefix a level * 512 + address_index a level
prefix-suc a zero h = omega (arith, index-eq a 0)
prefix-suc a (suc zero) h = omega (arith, index-eq a 1)
prefix-suc a (suc (suc zero)) h = omega (arith, index-eq a 2)
prefix-suc a (suc (suc (suc zero))) h = omega (arith, index-eq a 3)
prefix-suc a (suc (suc (suc (suc n)))) h = absurd (omega arith)

-- The four indices and the offset make up the address.
pub indices-cover :
    (a : ℕ)
    → a < 2 ^ 48
    → ((address_index a 0 * 512 + address_index a 1) * 512 + address_index a 2) * 512 * 4096
        + address_index a 3 * 4096
        + a % 4096
      ≡ a
indices-cover a h = omega (arith, index-eq a 0, index-eq a 1, index-eq a 2, index-eq a 3)

pub entry_bits : (e : ℕ) → bit_and e 3 ≡ e % 4
entry_bits e = bit_and_mask 2 e

pub descriptor_address : (e : ℕ) → e < 2 ^ 48 → get_address_from_descriptor e ≡ e / 4096 * 4096
unfolding get_address_from_descriptor
descriptor_address e h = bit_and_high 12 36 e h

-- Both ways of taking the address out of a table descriptor agree on a well-formed one.
pub table_target :
    (e : ℕ)
    → e % 4096 ≡ 3
    → e < 2 ^ 48
    → (get_address_from_descriptor e ≡ e - 3) × (bit_and e (complement64 3) ≡ e - 3)
table_target e m h =
    (omega (arith, descriptor_address e h), omega (arith, bit_and_high 2 62 e (omega arith)))

pub or_page : (q r n : ℕ) → r < 4096 → n < 4096 → bit_or (q * 4096 + r) n ≡ q * 4096 + bit_or r n
or_page q r n h g = bit_or_low 12 q r n h g

leaf_descriptor-page : (q : ℕ) → leaf_descriptor (q * 4096 + 0) 3 ≡ q * 4096 + 0x443
unfolding leaf_descriptor
leaf_descriptor-page q =
    rw
      (
        or_page q 0 1 (omega arith) (omega arith),
        or_page q 1 2 (omega arith) (omega arith),
        or_page q 3 0x400 (omega arith) (omega arith),
        or_page q 0x403 0x40 (omega arith) (omega arith),
      )
      refl

leaf_descriptor-block :
    (q level : ℕ) → (level == 3) ≡ false → leaf_descriptor (q * 4096 + 0) level ≡ q * 4096 + 0x441
unfolding leaf_descriptor
leaf_descriptor-block q level e =
    rw
      (
        e,
        or_page q 0 1 (omega arith) (omega arith),
        or_page q 1 0x400 (omega arith) (omega arith),
        or_page q 0x401 0x40 (omega arith) (omega arith),
      )
      refl

-- The leaf descriptor in closed form.
pub leaf_descriptor_lem :
    (pa level : ℕ)
    → pa % 4096 ≡ 0
    → leaf_descriptor pa level ≡ pa + (if level == 3 then 0x443 else 0x441)
leaf_descriptor_lem pa level h =
    let q = pa / 4096 in
    let e : pa ≡ q * 4096 + 0 = omega arith in
    elim (Bool-cases (level == 3)) [
      | inl page ↦
          rw (page, ==→eq level 3 page)
            (subst (λ x. leaf_descriptor x 3 ≡ x + 0x443) (sym e)
              (leaf_descriptor-page q ∙ omega arith))
      | inr block ↦ rw block (
          subst (λ x. leaf_descriptor x level ≡ x + 0x441) (sym e)
            (leaf_descriptor-block q level block ∙ omega arith))
    ]

-- A leaf descriptor is read back as a leaf with the address that went in.
pub leaf_descriptor-IsLeaf :
    (pa level : ℕ)
    → pa % 4096 ≡ 0
    → pa < 2 ^ 48
    → (is_leaf_entry (leaf_descriptor pa level) level ≡ true)
      × (is_table_entry (leaf_descriptor pa level) level ≡ false)
      × (get_address_from_descriptor (leaf_descriptor pa level) ≡ pa)
unfolding is_leaf_entry is_table_entry
leaf_descriptor-IsLeaf pa level h g = ground (
  arith,
  leaf_descriptor_lem pa level h,
  entry_bits (leaf_descriptor pa level),
  descriptor_address (leaf_descriptor pa level),
)

-- The offset inside a block, put back into a base address that is aligned to it.
offset_join :
    (k base a : ℕ) → base % 2 ^ k ≡ 0 → bit_or base (bit_and (2 ^ k - 1) a) ≡ base + a % 2 ^ k
offset_join k base a h =
    let q : base / 2 ^ k * 2 ^ k ≡ base = omega (arith, div-add-mod' base (2 ^ k)) in
    rw (bit_and_comm (2 ^ k - 1) a, bit_and_mask k a)
      (subst (λ x. bit_or x (a % 2 ^ k) ≡ x + a % 2 ^ k) q
        (bit_or_fields k (base / 2 ^ k) (a % 2 ^ k) (mod-lt a (one-le-pow k))))

pub block_offset :
    (level base a : ℕ)
    → base % page_table_block_size level ≡ 0
    → bit_or base (bit_and (2 ^ level_shift level - 1) a) ≡ base + a % page_table_block_size level
unfolding page_table_block_size
block_offset level base a h = offset_join (level_shift level) base a h

-- The addresses of a block share its indices down to its level.
pub prefix-block :
    (level c a : ℕ)
    → level ≤ 3
    → c % page_table_block_size level ≡ 0
    → c ≤ a
    → a < c + page_table_block_size level
    → (prefix a (suc level) ≡ prefix c (suc level)) × (a % page_table_block_size level ≡ a - c)
unfolding page_table_block_size
prefix-block zero c a h m lo hi = omega arith
prefix-block (suc zero) c a h m lo hi = omega arith
prefix-block (suc (suc zero)) c a h m lo hi = omega arith
prefix-block (suc (suc (suc zero))) c a h m lo hi = omega arith
prefix-block (suc (suc (suc (suc n)))) c a h m lo hi = absurd (omega arith)

-- Equal prefixes mean equal prefixes and indices above.
pub prefix-below :
    (level a c : ℕ)
    → level ≤ 3
    → prefix a (suc level) ≡ prefix c (suc level)
    → (prefix a level ≡ prefix c level) × (address_index a level ≡ address_index c level)
prefix-below level a c h e =
    omega (arith, prefix-suc a level h, prefix-suc c level h, index-lt a level, index-lt c level)

-- The addresses outside of a block differ from it in an index.
pub prefix-outside :
    (level c a : ℕ)
    → level ≤ 3
    → c % page_table_block_size level ≡ 0
    → (a < c) ⊎ (c + page_table_block_size level ≤ a)
    → prefix a (suc level) ≢ prefix c (suc level)
unfolding page_table_block_size
prefix-outside zero c a h m out = omega arith
prefix-outside (suc zero) c a h m out = omega arith
prefix-outside (suc (suc zero)) c a h m out = omega arith
prefix-outside (suc (suc (suc zero))) c a h m out = omega arith
prefix-outside (suc (suc (suc (suc n)))) c a h m out = absurd (omega arith)

pub one-page-le-block : (level : ℕ) → level ≤ 3 → 4096 ≤ page_table_block_size level
unfolding page_table_block_size
one-page-le-block zero h = omega arith
one-page-le-block (suc zero) h = omega arith
one-page-le-block (suc (suc zero)) h = omega arith
one-page-le-block (suc (suc (suc zero))) h = omega arith
one-page-le-block (suc (suc (suc (suc n)))) h = absurd (omega arith)

-- The end of an aligned block is page-aligned.
pub block-end-aligned :
    (level c : ℕ) → level ≤ 3 → c % 4096 ≡ 0 → (c + page_table_block_size level) % 4096 ≡ 0
unfolding page_table_block_size
block-end-aligned zero c h m = omega arith
block-end-aligned (suc zero) c h m = omega arith
block-end-aligned (suc (suc zero)) c h m = omega arith
block-end-aligned (suc (suc (suc zero))) c h m = omega arith
block-end-aligned (suc (suc (suc (suc n)))) c h m = absurd (omega arith)

-- A common remainder carries over to the position in the range.
pub congruent-shift :
    (level pa va c : ℕ)
    → level ≤ 3
    → pa % page_table_block_size level ≡ va % page_table_block_size level
    → c % page_table_block_size level ≡ 0
    → va ≤ c
    → (pa + (c - va)) % page_table_block_size level ≡ 0
unfolding page_table_block_size
congruent-shift zero pa va c h e m lo = omega arith
congruent-shift (suc zero) pa va c h e m lo = omega arith
congruent-shift (suc (suc zero)) pa va c h e m lo = omega arith
congruent-shift (suc (suc (suc zero))) pa va c h e m lo = omega arith
congruent-shift (suc (suc (suc (suc n)))) pa va c h e m lo = absurd (omega arith)
