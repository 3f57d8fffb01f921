-- ===== src/Memory/Page.antt =====
-- include/kernel/page.h and source/memory/page.c.
use raspberry_pi_os.Base.{ℕ, ◌+◌, ◌-◌, ◌%◌, ◌^◌, ◌≤◌, ◌<◌, ◌≡◌, arith, bit_and, ◌==◌, if◌then◌else◌}
use raspberry_pi_os.Base.Bits.{bit_and_high}

abbrev pub page_size : ℕ
page_size = 4096

abbrev pub va_offset : ℕ
va_offset = 0x800000000000

abbrev pub page_table_entries : ℕ
page_table_entries = 512

-- `~m` of a 64-bit word.
abbrev pub complement64 : ℕ → ℕ
complement64 m = 2 ^ 64 - 1 - m

-- `PHYS_TO_KERN` and `PT_ADDRESS_TO_KERN`
unfoldable pub to_kern : ℕ → ℕ
to_kern a = (a + va_offset) % 2 ^ 64

-- `PT_KERN_TO_PHYS`
unfoldable pub to_phys : ℕ → ℕ
to_phys a = (a + 2 ^ 64 - va_offset) % 2 ^ 64

unfoldable pub round_up_to_page : ℕ → ℕ
round_up_to_page a =
    if a == 0 then 0 else (bit_and (a - 1) (complement64 (page_size - 1)) + page_size) % 2 ^ 64

-- Rounding up gives the least multiple of the page size that is not below the argument, for every
-- size whose rounding fits a 64-bit word.
pub round_up_to_page_lem :
    (a : ℕ)
    → a ≤ 2 ^ 64 - page_size
    → (a ≤ round_up_to_page a)
      × (round_up_to_page a % page_size ≡ 0)
      × (round_up_to_page a < a + page_size)
unfolding round_up_to_page
round_up_to_page_lem a h = ground (arith, bit_and_high 12 52 (a - 1))

-- Above that the sum wraps, and the size is rounded to nothing.
pub round_up_to_page_wraps : (a : ℕ) → 2 ^ 64 - page_size < a → a < 2 ^ 64 → round_up_to_page a ≡ 0
unfolding round_up_to_page
round_up_to_page_wraps a h g = ground (arith, bit_and_high 12 52 (a - 1))

pub to_phys-to_kern : (a : ℕ) → a < 2 ^ 64 → to_phys (to_kern a) ≡ a
unfolding to_phys to_kern
to_phys-to_kern a h = omega arith

pub to_kern-to_phys : (a : ℕ) → a < 2 ^ 64 → to_kern (to_phys a) ≡ a
unfolding to_phys to_kern
to_kern-to_phys a h = omega arith
