-- ===== src/Alloc/Pool/Correct/Grow.antt =====
-- `pool_alloc` of source/alloc/pool.c with the blocks that it asks of `kmalloc`.
use raspberry_pi_os.Base.{
  ℕ, ◌+◌, ◌*◌, ◌/◌, ◌%◌, ◌^◌, ◌≤◌, ◌<◌, ◌≡◌, refl, sym, ap, ◌∙◌, arith, Bool, true, false, List,
  ◌++◌, ◌==◌, inl, inr, not, ◌&&◌, ltb, Bool-cases, ==→ne, ==→eq,
}
use raspberry_pi_os.Alloc.Pool.{
  PoolMemory, Kmalloc, add_block, after_kmalloc, take_object, pool_allocate_new_block,
  grow_when_low, grow_when_empty, pool_alloc, set_no_new_block,
}
use raspberry_pi_os.Alloc.Pool.Chain.{occurrences}
use raspberry_pi_os.Alloc.Pool.Block.{block_objects}
use raspberry_pi_os.Alloc.Pool.Correct.{IsPool, IsApart, add_block-IsPool, Takes, take_object-Takes}

-- No object that was in use has come out of use.
abbrev pub Keeps : List ℕ → List ℕ → Type 0
Keeps used used' = (a : ℕ) → occurrences a used ≤ occurrences a used'

-- What the allocator behind `kmalloc` knows of the state: which addresses are objects of the pool.
abbrev pub Knowledge : Type 1
Knowledge = PoolMemory → (free used : List ℕ) → Type 0

-- What the pool asks of a call of `kmalloc`: it may take objects of the pool, and unless it fails, the
-- memory that it gives is no object of the pool, and there is room in the counters for another block.
-- The allocator goes on with the objects of the new block, or with the same ones after a failure.
pub record Grants (Knows : Knowledge) (used : List ℕ) (ptr : ℕ) (after : PoolMemory) : Type 0 where
  pub free : List ℕ
  pub now_used : List ℕ
  pub pool_kept : IsPool after free now_used
  pub used_kept : Keeps used now_used
  pub apart : 0 < ptr → IsApart ptr (after.pool.block_size * after.pool.object_size) free now_used
  pub room : 0 < ptr → after.pool.objects + after.pool.block_size < 2 ^ 32
  pub failed : ptr ≡ 0 → Knows (set_no_new_block false after) free now_used
  pub added :
      0 < ptr
      → Knows
          (add_block (set_no_new_block false after) ptr)
          (block_objects ptr after.pool.object_size after.pool.block_size ++ free)
          now_used

-- A `kmalloc` grants only new memory, in the states that the allocator knows, while the pool may not
-- grow.
pub record IsLawful (Knows : Knowledge) (kmalloc : Kmalloc) : Type 0 where
  pub flagged :
      (s : PoolMemory) (free used : List ℕ)
      → Knows s free used
      → Knows (set_no_new_block true s) free used
  pub grants :
      (s : PoolMemory) (free used : List ℕ)
      → IsPool s free used
      → Knows s free used
      → s.pool.no_new_block ≡ true
      → let r = kmalloc (s.pool.block_size * s.pool.object_size % 2 ^ 32) s in
        Grants Knows used r.0 r.1

flag-IsPool :
    (flag : Bool) (s : PoolMemory) (free used : List ℕ)
    → IsPool s free used
    → IsPool (set_no_new_block flag s) free used
flag-IsPool flag s free used ok = record {
  chain = ok.chain;
  distinct = ok.distinct;
  nonzero = ok.nonzero;
  sizes = ok.sizes;
  product = ok.product;
  short = ok.short;
  free_count = ok.free_count;
  total = ok.total;
  bound = ok.bound;
}

-- A pool in which no object has come out of use.
abbrev pub Grown : Knowledge → List ℕ → PoolMemory → Type 0
Grown Knows used after =
    (free now_used : List ℕ) × IsPool after free now_used
    × Knows after free now_used
    × Keeps used now_used

module _ (Knows : Knowledge) where
  after_kmalloc-Grown :
      (used : List ℕ) (r : ℕ × PoolMemory)
      → Grants Knows used r.0 r.1
      → Grown Knows used (after_kmalloc r)
  unfolding after_kmalloc
  after_kmalloc-Grown used (ptr, s) g = elim (Bool-cases (ptr == 0)) [
    | inl failed ↦ rw failed (
      g.free,
      g.now_used,
      flag-IsPool false s g.free g.now_used g.pool_kept,
      g.failed (==→eq ptr 0 failed),
      g.used_kept,
    )
    | inr granted ↦
        let ne = ==→ne ptr 0 granted in
        rw granted (
          block_objects ptr s.pool.object_size s.pool.block_size ++ g.free,
          g.now_used,
          add_block-IsPool (set_no_new_block false s) g.free g.now_used ptr
              (flag-IsPool false s g.free g.now_used g.pool_kept) (omega arith)
              (g.apart (omega arith)) (g.room (omega arith)),
          g.added (omega arith),
          g.used_kept,
        )
  ]

  pub new_block-Grown :
      (kmalloc : Kmalloc)
      → IsLawful Knows kmalloc
      → (s : PoolMemory) (free used : List ℕ) → IsPool s free used
      → Knows s free used
      → Grown Knows used (pool_allocate_new_block kmalloc s 0)
  unfolding pool_allocate_new_block
  new_block-Grown kmalloc lawful s free used ok known =
      after_kmalloc-Grown used
        (kmalloc (s.pool.block_size * s.pool.object_size % 2 ^ 32) (set_no_new_block true s))
        (lawful.grants (set_no_new_block true s) free used (flag-IsPool true s free used ok)
          (lawful.flagged s free used known) refl)

  low-Grown :
      (kmalloc : Kmalloc)
      → IsLawful Knows kmalloc
      → (s : PoolMemory) (free used : List ℕ) → IsPool s free used
      → Knows s free used
      → Grown Knows used (grow_when_low kmalloc s)
  unfolding grow_when_low
  low-Grown kmalloc lawful s free used ok known =
      elim (Bool-cases
        (ltb (s.pool.free_objects * 100 % 2 ^ 32 / s.pool.objects) 20 && not s.pool.no_new_block)) [
          | inl grows ↦ rw grows (new_block-Grown kmalloc lawful s free used ok known)
          | inr stays ↦ rw stays (free, used, ok, known, λ a. omega arith)
        ]

  empty-Grown :
      (kmalloc : Kmalloc)
      → IsLawful Knows kmalloc
      → (s : PoolMemory) (free used : List ℕ) → IsPool s free used
      → Knows s free used
      → Grown Knows used (grow_when_empty kmalloc s)
  unfolding grow_when_empty
  empty-Grown kmalloc lawful s free used ok known =
      elim (Bool-cases (s.pool.next_free == 0 && not s.pool.no_new_block)) [
        | inl grows ↦ rw grows (new_block-Grown kmalloc lawful s free used ok known)
        | inr stays ↦ rw stays (free, used, ok, known, λ a. omega arith)
      ]

  -- Given a `kmalloc` that in the states known to its allocator grants only memory that is no object of
  -- the pool, and such a state: `pool_alloc` keeps the pool well formed and every object that is in use,
  -- whether the pool grows once, twice or not at all. It takes an object that was not in use, or returns
  -- 0 when none is free in the end.
  pub pool_alloc_lem :
      (kmalloc : Kmalloc) (s : PoolMemory) (free used : List ℕ)
      → IsLawful Knows kmalloc
      → IsPool s free used
      → Knows s free used
      → (now_used : List ℕ) × Keeps used now_used × Takes now_used (pool_alloc kmalloc s)
  unfolding pool_alloc
  pool_alloc_lem kmalloc s free used lawful ok known =
      let (free1, used1, ok1, known1, keeps1) = low-Grown kmalloc lawful s free used ok known in
      let (free2, used2, ok2, known2, keeps2) =
        empty-Grown kmalloc lawful (grow_when_low kmalloc s) free1 used1 ok1 known1 in
      (
        used2,
        λ a. omega (arith, keeps1 a, keeps2 a),
        take_object-Takes (grow_when_empty kmalloc (grow_when_low kmalloc s)) free2 used2 ok2,
      )

and-false : (c flag : Bool) → flag ≡ true → (c && not flag) ≡ false
and-false true flag e = ap not e
and-false false flag e = refl

flagged-low :
    (kmalloc : Kmalloc) (s : PoolMemory) → s.pool.no_new_block ≡ true → grow_when_low kmalloc s ≡ s
unfolding grow_when_low
flagged-low kmalloc s flag =
    rw
      (and-false (ltb (s.pool.free_objects * 100 % 2 ^ 32 / s.pool.objects) 20) s.pool.no_new_block
        flag)
      refl

flagged-empty :
    (kmalloc : Kmalloc) (s : PoolMemory)
    → s.pool.no_new_block ≡ true
    → grow_when_empty kmalloc s ≡ s
unfolding grow_when_empty
flagged-empty kmalloc s flag = rw (and-false (s.pool.next_free == 0) s.pool.no_new_block flag) refl

flagged-alloc :
    (kmalloc : Kmalloc) (s : PoolMemory)
    → s.pool.no_new_block ≡ true
    → grow_when_empty kmalloc (grow_when_low kmalloc s) ≡ s
flagged-alloc kmalloc s flag =
    ap (grow_when_empty kmalloc) (flagged-low kmalloc s flag) ∙ flagged-empty kmalloc s flag

-- While the pool may not grow, `pool_alloc` does not call `kmalloc`, whatever it does: this bounds the
-- recursion of the buddy allocator, which takes its own structures from a pool.
pub pool_alloc_no_recursion :
    (k1 k2 : Kmalloc) (s : PoolMemory)
    → s.pool.no_new_block ≡ true
    → pool_alloc k1 s ≡ pool_alloc k2 s
unfolding pool_alloc
pool_alloc_no_recursion k1 k2 s flag =
    ap take_object (flagged-alloc k1 s flag ∙ sym (flagged-alloc k2 s flag))
