-- ===== src/Alloc/Pool/Correct.antt =====
-- The pool of source/alloc/pool.c keeps its objects apart and counts them right.
pub mod Create
pub mod Grow
use mathlib.Core.Path.{subst}
use raspberry_pi_os.Base.{
  ℕ, zero, suc, ◌+◌, ◌*◌, ◌-◌, ◌%◌, ◌^◌, ◌≤◌, ◌<◌, ◌≡◌, ◌≢◌, refl, sym, ap, ◌∙◌, arith, Bool, true,
  false, List, [], ◌∷◌, ◌++◌, length, length-append, if◌then◌else◌, ◌==◌, inl, inr, ◌⊎◌, eq→==,
  ne→==, ltb, ltb→lt, ltb→le, Bool-cases,
}
use raspberry_pi_os.Alloc.Pool.{
  MemoryPool, PoolMemory, add_block, take_object, pool_free, link_objects, set_no_new_block,
  write_word,
}
use raspberry_pi_os.Alloc.Pool.Chain.{
  Chain, occurrences, occurrences-append, occurrences-head, Chain-write_word,
}
use raspberry_pi_os.Alloc.Pool.Block.{
  block_objects, length-block_objects, occurrences-block_objects, occurrences-before,
  link_objects-Chain, written,
}

-- The objects are those on the list and those that are in use: none twice, none null, and both
-- counters right.
pub record IsPool (s : PoolMemory) (free used : List ℕ) : Type 0 where
  pub chain : Chain s.word s.pool.next_free free
  pub distinct : (a : ℕ) → occurrences a free + occurrences a used ≤ 1
  pub nonzero : occurrences 0 used ≡ 0
  pub sizes : (0 < s.pool.object_size) × (0 < s.pool.block_size)
  pub product : s.pool.block_size * s.pool.object_size < 2 ^ 32
  pub short : s.pool.block_size < 2 ^ 32
  pub free_count : s.pool.free_objects ≡ length free
  pub total : s.pool.objects ≡ length free + length used
  pub bound : s.pool.objects < 2 ^ 32

-- The objects that the memory of a new block would hold are not in use or on the list.
abbrev pub IsApart : (start size : ℕ) → (free used : List ℕ) → Type 0
IsApart start size free used =
    (a : ℕ) → start ≤ a → a < start + size → occurrences a free + occurrences a used ≡ 0

block-distinct :
    (a start size n f u : ℕ)
    → 0 < size
    → f + u ≤ 1
    → (start ≤ a → a < start + n * size → f + u ≡ 0)
    → occurrences a (block_objects start size n) + f + u ≤ 1
block-distinct a start size n f u positive once apart = elim (Bool-cases (ltb a start)) [
  | inl before ↦ omega (arith, occurrences-before a start size n (ltb→lt a start before))
  | inr behind ↦
      let lo = ltb→le a start behind in
      let (single, outside) = occurrences-block_objects a start size n positive in
      elim (Bool-cases (ltb a (start + n * size))) [
        | inl inside ↦ let none = apart lo (ltb→lt a _ inside) in omega arith
        | inr beyond ↦ let none = outside (ltb→le a (start + n * size) beyond) in omega arith
      ]
]

pub add_block-IsPool :
    (s : PoolMemory) (free used : List ℕ) (start : ℕ)
    → IsPool s free used
    → 0 < start
    → IsApart start (s.pool.block_size * s.pool.object_size) free used
    → s.pool.objects + s.pool.block_size < 2 ^ 32
    → IsPool
        (add_block s start)
        (block_objects start s.pool.object_size s.pool.block_size ++ free)
        used
unfolding add_block
add_block-IsPool s free used start ok positive apart room =
    let size = s.pool.object_size in
    let n = s.pool.block_size in
    let block = block_objects start size n in
    let e : suc (n - 1) ≡ n = omega (arith, ok.sizes) in
    let region : suc (n - 1) * size ≡ n * size = ap (λ k. k * size) e in
    let rounds : (n + 2 ^ 32 - 1) % 2 ^ 32 ≡ n - 1 = omega (arith, ok.sizes, ok.short) in
    record {
      chain = rw rounds (
          subst
            (λ k.
              Chain (link_objects (n - 1) start size s.pool.next_free s.word) start
                (block_objects start size k ++ free))
            e
            (link_objects-Chain (n - 1) start size s.pool.next_free s.word free ok.sizes.0 positive
              (λ a lo hi. omega (arith, apart a lo (omega arith))) ok.chain));
      distinct = λ a. omega (
        arith,
        occurrences-append a block free,
        block-distinct a start size n (occurrences a free) (occurrences a used) ok.sizes.0
            (ok.distinct a) (apart a),
      );
      nonzero = ok.nonzero;
      sizes = ok.sizes;
      product = ok.product;
      short = ok.short;
      free_count = omega (
        arith,
        ok.free_count,
        ok.total,
        length-append block free,
        length-block_objects start size n,
      );
      total = omega (arith, ok.total, length-append block free, length-block_objects start size n);
      bound = omega (arith, room);
    }

-- What is taken off the list is in use from then on.
abbrev pub Takes : List ℕ → ℕ × PoolMemory → Type 0
Takes used (object, after) =
    ((object ≡ 0) × IsPool after [] used)
    ⊎ ((object ≢ 0) × (free : List ℕ) × IsPool after free (object ∷ used))

pub take_object-Takes :
    (s : PoolMemory) (free used : List ℕ) → IsPool s free used → Takes used (take_object s)
unfolding take_object
take_object-Takes s [] used ok = rw (eq→== s.pool.next_free 0 ok.chain) (inl (refl, ok))
take_object-Takes s (x ∷ free) used ok =
    let (e, ne, rest) = ok.chain in
    let some_free : (s.pool.next_free == 0) ≡ false =
      ne→== s.pool.next_free 0 (λ z. ne (sym e ∙ z)) in
    rw some_free (
      inr (
        λ z. ne (sym e ∙ z),
        free,
        record {
          chain = subst (λ p. Chain s.word (s.word p) free) (sym e) rest;
          distinct = λ a. rw e (omega (arith, ok.distinct a));
          nonzero = rw (ne→== 0 s.pool.next_free (λ z. ne (sym e ∙ sym z)), ok.nonzero) refl;
          sizes = ok.sizes;
          product = ok.product;
          short = ok.short;
          free_count = omega (arith, ok.free_count, ok.total, ok.bound);
          total = omega (arith, ok.total);
          bound = ok.bound;
        },
      ))

-- An object in use that is given back is the first free one.
pub pool_free_lem :
    (s : PoolMemory) (free front back : List ℕ) (object : ℕ)
    → IsPool s free (front ++ (object ∷ back))
    → IsPool (pool_free s object) (object ∷ free) (front ++ back)
unfolding pool_free
pool_free_lem s free front back object ok =
    let present : object ≢ 0 = λ z. omega (
      arith,
      ok.nonzero,
      occurrences-append 0 front (object ∷ back),
      occurrences-head 0 object back (sym z),
    ) in
    let out : occurrences object free ≡ 0 = omega (
      arith,
      ok.distinct object,
      occurrences-append object front (object ∷ back),
      occurrences-head object object back refl,
    ) in
    let word' = write_word s.word object s.pool.next_free in
    rw (ne→== object 0 present) (record {
      chain = (
        refl,
        present,
        subst (λ p. Chain word' p free) (sym (written s.word object s.pool.next_free))
            (Chain-write_word s.word s.pool.next_free free object s.pool.next_free out ok.chain),
      );
      distinct = λ a. omega (
        arith,
        ok.distinct a,
        occurrences-append a front (object ∷ back),
        occurrences-append a front back,
      );
      nonzero = omega (
        arith,
        ok.nonzero,
        occurrences-append 0 front (object ∷ back),
        occurrences-append 0 front back,
      );
      sizes = ok.sizes;
      product = ok.product;
      short = ok.short;
      free_count =
          omega (arith, ok.free_count, ok.total, ok.bound, length-append front (object ∷ back));
      total =
          omega (arith, ok.total, length-append front (object ∷ back), length-append front back);
      bound = ok.bound;
    })
