-- ===== src/Alloc/Pool.antt =====
-- source/alloc/pool.c: a pool of objects of one size. A free object holds the address of the next free
-- one in its first word, and `word` is the memory as words, that in which the allocator keeps its own
-- state included. `kmalloc` is an argument that takes the state as well, since the pool of the buddy
-- allocator is used by `kmalloc` itself: it returns the address, 0 for a failure, and the state that it
-- leaves. `print` is left out.
pub mod Chain
pub mod Block
pub mod Correct
mod Tests
use raspberry_pi_os.Base.{
  ℕ, zero, suc, ◌+◌, ◌-◌, ◌*◌, ◌/◌, ◌%◌, ◌^◌, Bool, true, false, ◌&&◌, not, ltb, leb, ◌==◌,
  if◌then◌else◌,
}

pub record MemoryPool : Type 0 where
  pub next_free : ℕ
  pub object_size : ℕ
  pub block_size : ℕ
  pub objects : ℕ
  pub free_objects : ℕ
  pub no_new_block : Bool

pub record PoolMemory : Type 0 where
  pub pool : MemoryPool
  pub word : ℕ → ℕ

abbrev pub Kmalloc : Type 0
Kmalloc = (size : ℕ) → PoolMemory → ℕ × PoolMemory

abbrev pub write_word : (ℕ → ℕ) → ℕ → ℕ → ℕ → ℕ
write_word word address value x = if x == address then value else word x

-- The loop that links the objects of a new block, and the write of the last one.
unfoldable pub link_objects : (rounds new_block object_size next_free : ℕ) → (ℕ → ℕ) → ℕ → ℕ
link_objects zero new_block object_size next_free word = write_word word new_block next_free
link_objects (suc rounds) new_block object_size next_free word =
    link_objects rounds (new_block + object_size) object_size next_free
      (write_word word new_block (new_block + object_size))

unfoldable pub add_block : PoolMemory → (new_block : ℕ) → PoolMemory
unfolding link_objects
add_block s new_block =
    let p = s.pool in
    record {
      pool = record p {
        next_free = new_block;
        objects = (p.objects + p.block_size) % 2 ^ 32;
        free_objects = (p.free_objects + p.block_size) % 2 ^ 32;
      };
      word =
          link_objects ((p.block_size + 2 ^ 32 - 1) % 2 ^ 32) new_block p.object_size p.next_free
            s.word;
    }

abbrev pub set_no_new_block : Bool → PoolMemory → PoolMemory
set_no_new_block flag s = record s { pool = record s.pool { no_new_block = flag } }

unfoldable pub after_kmalloc : ℕ × PoolMemory → PoolMemory
unfolding add_block
after_kmalloc (new_block, s) =
    if new_block == 0
    then set_no_new_block false s
    else add_block (set_no_new_block false s) new_block

unfoldable pub pool_allocate_new_block : Kmalloc → PoolMemory → (new_block : ℕ) → PoolMemory
unfolding add_block after_kmalloc
pool_allocate_new_block kmalloc s new_block =
    if new_block == 0
    then after_kmalloc
        (kmalloc (s.pool.block_size * s.pool.object_size % 2 ^ 32) (set_no_new_block true s))
    else add_block s new_block

abbrev pub empty_pool : (object_size block_size : ℕ) → MemoryPool
empty_pool object_size block_size = record {
  next_free = 0;
  object_size = if leb 8 object_size then object_size else 8;
  block_size = block_size;
  objects = 0;
  free_objects = 0;
  no_new_block = false;
}

-- The flag that the code leaves unset is cleared by the first block.
unfoldable pub pool_create_pool : Kmalloc → (ℕ → ℕ) → (object_size block_size : ℕ) → PoolMemory
unfolding pool_allocate_new_block
pool_create_pool kmalloc word object_size block_size =
    pool_allocate_new_block kmalloc
      (record { pool = empty_pool object_size block_size; word = word }) 0

unfoldable pub pool_create_pool_using_memory :
    Kmalloc → (ℕ → ℕ) → (object_size block_bytes block : ℕ) → PoolMemory
unfolding pool_allocate_new_block
pool_create_pool_using_memory kmalloc word object_size block_bytes block =
    pool_allocate_new_block kmalloc
      (record { pool = empty_pool object_size (block_bytes / object_size); word = word }) block

-- The first object is taken off the list of free ones.
unfoldable pub take_object : PoolMemory → ℕ × PoolMemory
take_object s =
    let p = s.pool in
    if p.next_free == 0 then (0, s) else (
      p.next_free,
      record s {
        pool = record p {
          next_free = s.word p.next_free;
          free_objects = (p.free_objects + 2 ^ 32 - 1) % 2 ^ 32;
        };
      },
    )

-- The first of the two attempts to grow: fewer than 20 percent of the objects are free.
unfoldable pub grow_when_low : Kmalloc → PoolMemory → PoolMemory
unfolding pool_allocate_new_block
grow_when_low kmalloc s =
    let free_percent = s.pool.free_objects * 100 % 2 ^ 32 / s.pool.objects in
    if ltb free_percent 20 && not s.pool.no_new_block
    then pool_allocate_new_block kmalloc s 0
    else s

-- The second: nothing is free.
unfoldable pub grow_when_empty : Kmalloc → PoolMemory → PoolMemory
unfolding pool_allocate_new_block
grow_when_empty kmalloc s =
    if s.pool.next_free == 0 && not s.pool.no_new_block
    then pool_allocate_new_block kmalloc s 0
    else s

unfoldable pub pool_alloc : Kmalloc → PoolMemory → ℕ × PoolMemory
unfolding grow_when_low grow_when_empty take_object
pool_alloc kmalloc s = take_object (grow_when_empty kmalloc (grow_when_low kmalloc s))

unfoldable pub pool_free : PoolMemory → (object : ℕ) → PoolMemory
pool_free s object =
    let p = s.pool in
    if object == 0 then s else record {
      pool = record p { next_free = object; free_objects = (p.free_objects + 1) % 2 ^ 32 };
      word = write_word s.word object p.next_free;
    }
