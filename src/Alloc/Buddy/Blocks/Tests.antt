-- ===== src/Alloc/Buddy/Blocks/Tests.antt =====
-- The first blocks of a buddy allocator with one block of 4 MiB, and the theorem on `kmalloc` there.
use raspberry_pi_os.Base.{
  ℕ, zero, suc, ◌+◌, ◌-◌, ◌≤◌, ◌<◌, ◌≡◌, refl, arith, some, List, [], ◌∷◌, replicate, get_or, ◌==◌,
  Bool-cases, inl, inr,
}
use raspberry_pi_os.Alloc.Pool.Chain.{occurrences}
use raspberry_pi_os.Alloc.Buddy.{Buddy, block_size_for}
use raspberry_pi_os.Alloc.Buddy.Blocks.{System, PoolOps, a_block, link_new_block, kmalloc}
use raspberry_pi_os.Alloc.Buddy.Blocks.FreeLists.{AreFree, replace}
use raspberry_pi_os.Alloc.Buddy.Blocks.Split.{IsQuiet, IsSound, link-AreFree}
use raspberry_pi_os.Alloc.Buddy.Blocks.Serve.{Given, kmalloc-Given}

-- A pool that has structures without end: it counts those that it has given out.
abbrev counting : PoolOps ℕ
counting = record {
  pool_alloc = λ s. (s.pool + 1, record s { pool = s.pool + 1 });
  pool_free = λ s b. s;
}

abbrev IsCounted : ℕ → ℕ → Type 0
IsCounted count x = x ≤ count

counting-IsQuiet : IsQuiet counting IsCounted
counting-IsQuiet = record {
  alloc_quiet = λ s. refl;
  alloc_fresh = λ s present used. absurd (omega (arith, used));
  alloc_used = λ s present. omega arith;
  alloc_keeps = λ s x used. omega (arith, used);
  free_quiet = λ s b. refl;
  free_keeps = λ s b x other used. used;
}

abbrev no_blocks : Buddy
no_blocks = record { blk = λ b. a_block 0 0; blk_heads = replicate 14 0; blk_all_head = 0 }

abbrev none_free : ℕ → List ℕ
none_free size = []

get_or-zeros : (n i : ℕ) → get_or {A = ℕ} (replicate n 0) i 0 ≡ 0
get_or-zeros zero i = refl
get_or-zeros (suc n) zero = refl
get_or-zeros (suc n) (suc i) = get_or-zeros n i

no_blocks-AreFree : AreFree no_blocks none_free
no_blocks-AreFree = record {
  heads = refl;
  lists = λ size top. record {
    linked = get_or-zeros 14 (13 - size);
    distinct = λ a. omega arith;
    same_size = λ a h. absurd (omega (arith, h));
  };
  idle = λ size a top h. absurd (omega (arith, h));
}

is_one : (a : ℕ) → 0 < occurrences a (1 ∷ []) → a ≤ 1
is_one a h = ground arith

-- The structure 1 stands for all of the memory, at 0x400000.
abbrev one_block : System ℕ
one_block = record { buddy = link_new_block no_blocks 1 13 0x400000; pool = 1 }

one_block-IsSound : IsSound IsCounted one_block (replace none_free 13 (1 ∷ []))
one_block-IsSound = record {
  are_free =
      (link-AreFree no_blocks none_free 1 13 0x400000 no_blocks-AreFree (omega arith) (omega arith)
        (λ n small. refl)).0;
  used = λ size a top h. used size a h;
}
  where
    used : (size a : ℕ) → 0 < occurrences a (replace none_free 13 (1 ∷ []) size) → a ≤ 1
    used size a h = elim (Bool-cases (size == 13)) [
      | inr other ↦ let h' : 0 < 0 = rw other at h in absurd (omega arith)
      | inl here ↦ let h' : 0 < occurrences a (1 ∷ []) = rw here at h in is_one a h'
    ]

kmalloc-Given_example :
    (i : ℕ) × (block_size_for 1000 0 ≡ some i)
    × Given counting IsCounted counting-IsQuiet i (kmalloc counting one_block 1000 0)
kmalloc-Given_example =
    kmalloc-Given counting IsCounted counting-IsQuiet one_block (replace none_free 13 (1 ∷ [])) 1000
      0 one_block-IsSound (omega arith)
