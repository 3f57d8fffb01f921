-- ===== src/Alloc/Pool/Correct/Create.antt =====
-- The new pools of source/alloc/pool.c.
use mathlib.Core.Path.{subst}
use mathlib.Core.List.{append-nil}
use native.Mathlib.Nat.{div-mul-le_self, lt-div-mul-add, le-mul_of_pos_right, div-le_self}
use raspberry_pi_os.Base.{
  ℕ, zero, suc, ◌+◌, ◌*◌, ◌/◌, ◌^◌, ◌≤◌, ◌<◌, ◌≡◌, refl, ap, ◌∙◌, arith, false, [], if◌then◌else◌,
  ◌==◌, ne→==, leb,
}
use raspberry_pi_os.Alloc.Pool.{
  PoolMemory, Kmalloc, add_block, pool_allocate_new_block, empty_pool, pool_create_pool,
  pool_create_pool_using_memory,
}
use raspberry_pi_os.Alloc.Pool.Block.{block_objects}
use raspberry_pi_os.Alloc.Pool.Correct.{IsPool, add_block-IsPool}
use raspberry_pi_os.Alloc.Pool.Correct.Grow.{Knowledge, IsLawful, Grown, new_block-Grown}

empty-IsPool :
    (word : ℕ → ℕ) (object_size block_size : ℕ)
    → 0 < block_size
    → block_size < 2 ^ 32
    → 8 ≤ object_size
    → block_size * object_size < 2 ^ 32
    → IsPool (record { pool = empty_pool object_size block_size; word = word }) [] []
empty-IsPool word object_size block_size positive short large product =
    let kept : (if leb 8 object_size then object_size else 8) ≡ object_size = ground arith in
    record {
      chain = refl;
      distinct = λ a. omega arith;
      nonzero = refl;
      sizes = (rw kept (omega arith), positive);
      product = rw kept product;
      short = short;
      free_count = refl;
      total = refl;
      bound = omega arith;
    }

quotient-positive : (q a b : ℕ) → a < q * b + b → b ≤ a → 0 < q
quotient-positive zero a b h h' = absurd (omega arith)
quotient-positive (suc q) a b h h' = omega arith

-- A new pool is well formed, whether `kmalloc` grants its first block or not.
pub pool_create_pool_lem :
    (Knows : Knowledge) (kmalloc : Kmalloc) (word : ℕ → ℕ) (object_size block_size : ℕ)
    → IsLawful Knows kmalloc
    → Knows (record { pool = empty_pool object_size block_size; word = word }) [] []
    → 0 < block_size
    → 8 ≤ object_size
    → block_size * object_size < 2 ^ 32
    → Grown Knows [] (pool_create_pool kmalloc word object_size block_size)
unfolding pool_create_pool
pool_create_pool_lem Knows kmalloc word object_size block_size lawful known positive large product =
    new_block-Grown Knows kmalloc lawful
      (record { pool = empty_pool object_size block_size; word = word }) [] []
      (empty-IsPool word object_size block_size positive
        (omega (arith, product, le-mul_of_pos_right {m = object_size} block_size (omega arith)))
        large product)
      known

-- A pool of objects of 8 bytes or more over given memory of at least one object and less than 4 GiB
-- holds as many objects as fit, all of them free, the lowest first.
pub pool_create_pool_using_memory_lem :
    (kmalloc : Kmalloc) (word : ℕ → ℕ) (object_size block_bytes block : ℕ)
    → 0 < block
    → 8 ≤ object_size
    → object_size ≤ block_bytes
    → block_bytes < 2 ^ 32
    → IsPool
        (pool_create_pool_using_memory kmalloc word object_size block_bytes block)
        (block_objects block object_size (block_bytes / object_size))
        []
unfolding pool_create_pool_using_memory pool_allocate_new_block
pool_create_pool_using_memory_lem kmalloc word object_size block_bytes block present large fits
      top =
    let n = block_bytes / object_size in
    let product : n * object_size ≤ block_bytes = div-mul-le_self block_bytes object_size in
    let some_fit : 0 < n =
      quotient-positive n block_bytes object_size (lt-div-mul-add {a = block_bytes} (omega arith))
        fits in
    let short : n < 2 ^ 32 = omega (arith, div-le_self block_bytes object_size) in
    let kept : (if leb 8 object_size then object_size else 8) ≡ object_size = ground arith in
    let s : PoolMemory = record { pool = empty_pool object_size n; word = word } in
    let given : (block == 0) ≡ false = ne→== block 0 (omega arith) in
    rw given (
      subst (λ objects. IsPool (add_block s block) objects [])
        (append-nil _ ∙ ap (λ size. block_objects block size n) kept)
        (add_block-IsPool s [] [] block
          (empty-IsPool word object_size n some_fit short large (omega arith)) present
          (λ a lo hi. omega arith) (omega arith)))
