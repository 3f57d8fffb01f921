-- ===== src/Alloc/Pool/Block.antt =====
-- The objects of a new block of a pool, for source/alloc/pool.c.
use mathlib.Core.Path.{subst}
use raspberry_pi_os.Base.{
  ℕ, zero, suc, ◌+◌, ◌*◌, ◌≤◌, ◌<◌, ◌≡◌, refl, sym, ap, ◌∙◌, arith, List, [], ◌∷◌, ◌++◌, length,
  ◌==◌, eq→==, ne→==, Bool-cases, inl, inr, ==→eq,
}
use raspberry_pi_os.Alloc.Pool.{write_word, link_objects}
use raspberry_pi_os.Alloc.Pool.Chain.{Chain, occurrences, Chain-write_word}

abbrev pub block_objects : (start object_size n : ℕ) → List ℕ
block_objects start object_size zero = []
block_objects start object_size (suc n) = start ∷ block_objects (start + object_size) object_size n

pub length-block_objects :
    (start object_size n : ℕ) → length (block_objects start object_size n) ≡ n
length-block_objects start object_size zero = refl
length-block_objects start object_size (suc n) =
    ap suc (length-block_objects (start + object_size) object_size n)

product_suc : (n size : ℕ) → suc n * size ≡ size + n * size
product_suc n size = grind arith

pub occurrences-before :
    (a start size n : ℕ) → a < start → occurrences a (block_objects start size n) ≡ 0
occurrences-before a start size zero h = refl
occurrences-before a start size (suc n) h =
    let other = ne→== a start (omega arith) in
    rw other (omega (arith, occurrences-before a (start + size) size n (omega arith)))

-- Each object is there once, and none outside of the memory of the block.
pub occurrences-block_objects :
    (a start size n : ℕ)
    → 0 < size
    → (occurrences a (block_objects start size n) ≤ 1)
      × ((start + n * size ≤ a) → occurrences a (block_objects start size n) ≡ 0)
occurrences-block_objects a start size zero positive = (omega arith, λ _. refl)
occurrences-block_objects a start size (suc n) positive =
    let (once, none) = occurrences-block_objects a (start + size) size n positive in
    let e = product_suc n size in
    elim (Bool-cases (a == start)) [
      | inl here ↦
          let eq = ==→eq a start here in
          let rest = occurrences-before a (start + size) size n (omega arith) in
          rw (here, rest) (omega arith, λ h. absurd (omega arith))
      | inr other ↦ rw other (omega arith, λ h. omega (arith, none (omega arith)))
    ]

pub link_objects-before :
    (rounds start size next : ℕ) (word : ℕ → ℕ) (a : ℕ)
    → a < start
    → link_objects rounds start size next word a ≡ word a
unfolding link_objects
link_objects-before zero start size next word a h = rw (ne→== a start (omega arith)) refl
link_objects-before (suc rounds) start size next word a h =
    link_objects-before rounds (start + size) size next (write_word word start (start + size)) a
      (omega arith)
    ∙ rw (ne→== a start (omega arith)) refl

pub written : (word : ℕ → ℕ) (a v : ℕ) → write_word word a v a ≡ v
written word a v = rw (eq→== a a refl) refl

-- The objects of the new block come first, in the order of their addresses, then those before.
pub link_objects-Chain :
    (rounds start size next : ℕ) (word : ℕ → ℕ) (xs : List ℕ)
    → 0 < size
    → 0 < start
    → ((a : ℕ) → start ≤ a → a < start + suc rounds * size → occurrences a xs ≡ 0)
    → Chain word next xs
    → Chain
        (link_objects rounds start size next word)
        start
        (block_objects start size (suc rounds) ++ xs)
unfolding link_objects
link_objects-Chain zero start size next word xs positive nonzero apart c =
    let here = eq→== start start refl in
    let out = apart start (omega arith) (omega arith) in
    (refl, λ e. omega (arith, e), rw here (Chain-write_word word next xs start next out c))
link_objects-Chain (suc rounds) start size next word xs positive nonzero apart c =
    let e = product_suc (suc rounds) size in
    let e' = product_suc rounds size in
    let word' = write_word word start (start + size) in
    let linked = link_objects rounds (start + size) size next word' in
    let head : linked start ≡ start + size =
      link_objects-before rounds (start + size) size next word' start (omega arith)
      ∙ written word start (start + size) in
    let out = apart start (omega arith) (omega arith) in
    let rest =
      link_objects-Chain rounds (start + size) size next word' xs positive (omega arith)
        (λ a lo hi. apart a (omega arith) (omega arith))
        (Chain-write_word word next xs start (start + size) out c) in
    (
      refl,
      λ z. omega (arith, z),
      subst (λ p. Chain linked p (block_objects (start + size) size (suc rounds) ++ xs)) (sym head)
          rest,
    )
