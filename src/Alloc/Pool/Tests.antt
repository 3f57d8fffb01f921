-- ===== src/Alloc/Pool/Tests.antt =====
-- Runs of a pool, and its theorems at them.
use raspberry_pi_os.Base.{
  eq→==, ℕ, ◌*◌, ◌/◌, ◌<◌, ◌≡◌, refl, arith, false, List, [], ◌∷◌, if◌then◌else◌, ◌==◌,
}
use raspberry_pi_os.Alloc.Pool.{
  PoolMemory, Kmalloc, grow_when_low, grow_when_empty, pool_allocate_new_block, after_kmalloc,
  add_block, take_object, pool_alloc, pool_free, pool_create_pool_using_memory,
}
use raspberry_pi_os.Alloc.Pool.Block.{block_objects}
use raspberry_pi_os.Alloc.Pool.Correct.{IsPool, IsApart, Takes, pool_free_lem}
use raspberry_pi_os.Alloc.Pool.Correct.Create.{pool_create_pool_using_memory_lem}
use raspberry_pi_os.Alloc.Pool.Correct.Grow.{Knowledge, Keeps, IsLawful, pool_alloc_lem}

-- The memory at 0x9000 is granted to a pool of two objects.
abbrev grant_third : Kmalloc
grant_third size s = (if s.pool.objects == 2 then 0x9000 else 0, s)

-- The blocks are small, and the objects of a pool of two lie elsewhere.
abbrev Elsewhere : Knowledge
Elsewhere s free used =
    (s.pool.block_size < 1000)
    × (s.pool.objects ≡ 2 → IsApart 0x9000 (s.pool.block_size * s.pool.object_size) free used)

grant_third-IsLawful : IsLawful Elsewhere grant_third
unfolding add_block
grant_third-IsLawful = record {
  flagged = λ s free used known. known;
  grants = λ s free used ok known flag. record {
    free = free;
    now_used = used;
    pool_kept = ok;
    used_kept = λ a. omega arith;
    apart = λ granted. rw (eq→== s.pool.objects 2 (two s granted)) (known.1 (two s granted));
    room = λ granted. omega (arith, two s granted, known.0);
    failed = λ failed. known;
    added = λ granted.
        (known.0, λ more. absurd (omega (arith, two s granted, more, ok.sizes.1, known.0)));
  };
}
  where
    two : (s : PoolMemory) → 0 < (if s.pool.objects == 2 then 0x9000 else 0) → s.pool.objects ≡ 2
    two s granted = ground arith

-- Two objects of 64 bytes at 0x8000.
abbrev two_objects : PoolMemory
two_objects = pool_create_pool_using_memory grant_third (λ a. 0) 64 128 0x8000

two_objects-IsPool : IsPool two_objects (block_objects 0x8000 64 (128 / 64)) []
two_objects-IsPool =
    pool_create_pool_using_memory_lem grant_third (λ a. 0) 64 128 0x8000 (omega arith) (omega arith)
      (omega arith) (omega arith)

pool_create_pool_using_memory_lem_example :
    IsPool
      (pool_create_pool_using_memory grant_third (λ a. 0) 64 128 0x8000)
      (block_objects 0x8000 64 (128 / 64))
      []
pool_create_pool_using_memory_lem_example =
    pool_create_pool_using_memory_lem grant_third (λ a. 0) 64 128 0x8000 (omega arith) (omega arith)
      (omega arith) (omega arith)

-- The pool with one object on the list and one in use.
abbrev one_used : PoolMemory
one_used = record {
  pool = record {
    next_free = 0x8040;
    object_size = 64;
    block_size = 2;
    objects = 2;
    free_objects = 1;
    no_new_block = false;
  };
  word = λ a. 0;
}

one_used-IsPool : IsPool one_used (0x8040 ∷ []) (0x8000 ∷ [])
one_used-IsPool = record {
  chain = (refl, omega arith, refl);
  distinct = λ a. ground arith;
  nonzero = refl;
  sizes = omega arith;
  product = omega arith;
  short = omega arith;
  free_count = refl;
  total = refl;
  bound = omega arith;
}

pool_free_lem_example : IsPool (pool_free one_used 0x8000) (0x8000 ∷ 0x8040 ∷ []) []
pool_free_lem_example = pool_free_lem one_used (0x8040 ∷ []) [] [] 0x8000 one_used-IsPool

-- Both objects are in use, so that the pool grows by the two at 0x9000.
abbrev both_used : PoolMemory
both_used = record {
  pool = record {
    next_free = 0;
    object_size = 64;
    block_size = 2;
    objects = 2;
    free_objects = 0;
    no_new_block = false;
  };
  word = λ a. 0;
}

both_used-IsPool : IsPool both_used [] (0x8040 ∷ 0x8000 ∷ [])
both_used-IsPool = record {
  chain = refl;
  distinct = λ a. ground arith;
  nonzero = refl;
  sizes = omega arith;
  product = omega arith;
  short = omega arith;
  free_count = refl;
  total = refl;
  bound = omega arith;
}

both_used-Elsewhere : Elsewhere both_used [] (0x8040 ∷ 0x8000 ∷ [])
both_used-Elsewhere = (omega arith, λ two a lo hi. ground arith)

pool_alloc_lem_example :
    (now_used : List ℕ) × Keeps (0x8040 ∷ 0x8000 ∷ []) now_used
    × Takes now_used (pool_alloc grant_third both_used)
pool_alloc_lem_example =
    pool_alloc_lem Elsewhere grant_third both_used [] (0x8040 ∷ 0x8000 ∷ []) grant_third-IsLawful
      both_used-IsPool both_used-Elsewhere

takes_new_object : (pool_alloc grant_third both_used).0 ≡ 0x9000
unfolding pool_alloc grow_when_low grow_when_empty pool_allocate_new_block after_kmalloc add_block
    take_object
takes_new_object = refl
