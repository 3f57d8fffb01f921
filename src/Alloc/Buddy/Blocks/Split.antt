-- ===== src/Alloc/Buddy/Blocks/Split.antt =====
-- New blocks and the splitting of blocks in source/alloc/buddy.c, while the pool has structures or does
-- not grow.
use raspberry_pi_os.Base.{
  ℕ, ◌+◌, ◌≤◌, ◌<◌, ◌≡◌, ◌≢◌, refl, sym, ap, ◌∙◌, arith, false, List, ◌∷◌, ltb, ltb→lt, ltb→le,
  ◌==◌, ◌⊎◌, Bool-cases, inl, inr, ne→==, ==→eq, ==→ne,
}
use mathlib.Core.Path.{subst}
use raspberry_pi_os.Alloc.Pool.Chain.{occurrences}
use raspberry_pi_os.Alloc.Buddy.{
  Buddy, set_prev, set_prev_free, insert_into_free_list, insert_into_all_list,
  remove_from_free_list,
}
use raspberry_pi_os.Alloc.Buddy.Lists.{size_of, insert-size_of}
use raspberry_pi_os.Alloc.Buddy.Blocks.{
  System, PoolOps, a_block, update_blk, link_new_block, alloc_new_block,
}
use raspberry_pi_os.Alloc.Buddy.Blocks.FreeLists.{
  AreFree, replace, update_blk-AreFree, update_blk_self, update_blk-other, insert-AreFree,
}
use raspberry_pi_os.Alloc.Buddy.Blocks.AllList.{
  insert_all-AreFree, insert_all-size_of, insert_all-allocated,
}

-- What the pool promises while it does not grow: it does not touch the blocks, and gives out
-- structures that are not in use.
pub record IsQuiet {P : Type 0} (ops : PoolOps P) (InUse : P → ℕ → Type 0) : Type 0 where
  pub alloc_quiet : (s : System P) → (ops.pool_alloc s).1.buddy ≡ s.buddy
  pub alloc_fresh : (s : System P) → (ops.pool_alloc s).0 ≢ 0 → ¬ InUse s.pool (ops.pool_alloc s).0
  pub alloc_used :
      (s : System P)
      → (ops.pool_alloc s).0 ≢ 0
      → InUse (ops.pool_alloc s).1.pool (ops.pool_alloc s).0
  pub alloc_keeps : (s : System P) (x : ℕ) → InUse s.pool x → InUse (ops.pool_alloc s).1.pool x
  pub free_quiet : (s : System P) (b : ℕ) → (ops.pool_free s b).buddy ≡ s.buddy
  pub free_keeps :
      (s : System P) (b x : ℕ) → x ≢ b → InUse s.pool x → InUse (ops.pool_free s b).pool x

-- The free lists are well formed, and every block on them has a structure in use.
pub record IsSound {P : Type 0} (InUse : P → ℕ → Type 0) (s : System P) (free : ℕ → List ℕ)
    : Type 0 where
  pub are_free : AreFree s.buddy free
  pub used : (size a : ℕ) → size ≤ 13 → 0 < occurrences a (free size) → InUse s.pool a

absent : (b : ℕ) (xs : List ℕ) → ¬ (0 < occurrences b xs) → occurrences b xs ≡ 0
absent b xs h = elim (Bool-cases (ltb 0 (occurrences b xs))) [
  | inl member ↦ absurd (h (ltb→lt 0 (occurrences b xs) member))
  | inr not_there ↦ let le = ltb→le 0 (occurrences b xs) not_there in omega arith
]

occurrences-other :
    (a b : ℕ) (xs : List ℕ) → a ≢ b → 0 < occurrences a (b ∷ xs) → 0 < occurrences a xs
occurrences-other a b xs ne h =
    let h' : 0 < occurrences a xs + 0 = rw (ne→== a b ne) at h in omega arith

-- The new block is the first of its list.
pub link-AreFree :
    (s : Buddy) (free : ℕ → List ℕ) (b size addr : ℕ)
    → AreFree s free
    → size ≤ 13
    → b ≢ 0
    → ((n : ℕ) → n ≤ 13 → occurrences b (free n) ≡ 0)
    → AreFree (link_new_block s b size addr) (replace free size (b ∷ free size))
      × (size_of (link_new_block s b size addr) b ≡ size)
unfolding link_new_block
link-AreFree s free b size addr ok top present new =
    let s1 = update_blk s b (a_block size addr) in
    let s2 = insert_into_all_list s1 b in
    let ok1 = update_blk-AreFree s free b (a_block size addr) ok new in
    let ok2 = insert_all-AreFree s1 free b ok1 in
    let size2 : size_of s2 b ≡ size =
      insert_all-size_of s1 b b ∙ ap (λ v. v.blk_size) (update_blk_self s b (a_block size addr)) in
    let idle2 : (s2.blk b).allocated ≡ false =
      insert_all-allocated s1 b b
      ∙ ap (λ v. v.allocated) (update_blk_self s b (a_block size addr)) in
    (
      insert-AreFree s2 free size b ok2 top size2 present (new size top) idle2,
      insert-size_of s2 b b ∙ size2,
    )

abbrev pub child_of : Buddy → ℕ → ℕ
child_of s x = (s.blk x).child1

insert-child_of : (s : Buddy) (b x : ℕ) → child_of (insert_into_free_list s b) x ≡ child_of s x
unfolding insert_into_free_list set_prev_free
insert-child_of s b x = ground arith

insert_all-child_of : (s : Buddy) (b x : ℕ) → child_of (insert_into_all_list s b) x ≡ child_of s x
unfolding insert_into_all_list set_prev
insert_all-child_of s b x = ground arith

pub remove-child_of : (s : Buddy) (b x : ℕ) → child_of (remove_from_free_list s b) x ≡ child_of s x
unfolding remove_from_free_list set_prev_free
remove-child_of s b x = ground arith

link-child_of :
    (s : Buddy) (b size addr x : ℕ)
    → x ≢ b
    → child_of (link_new_block s b size addr) x ≡ child_of s x
unfolding link_new_block
link-child_of s b size addr x ne =
    let s1 = update_blk s b (a_block size addr) in
    insert-child_of (insert_into_all_list s1 b) b x
    ∙ insert_all-child_of s1 b x
    ∙ ap (λ v. v.child1) (update_blk-other s b x (a_block size addr) ne)

module _ {P : Type 0} (ops : PoolOps P) (InUse : P → ℕ → Type 0) (quiet : IsQuiet ops InUse) where
  -- What `alloc_new_block` leaves behind.
  abbrev pub Allocated : (s : System P) (free : ℕ → List ℕ) (size : ℕ) → ℕ × System P → Type 0
  Allocated s free size (b, s') =
      ((b ≡ 0) × IsSound InUse s' free × (s'.buddy ≡ s.buddy))
      ⊎ ((b ≢ 0)
          × ((n : ℕ) → n ≤ 13 → occurrences b (free n) ≡ 0)
          × IsSound InUse s' (replace free size (b ∷ free size))
          × ((x : ℕ) → x ≢ b → child_of s'.buddy x ≡ child_of s.buddy x))

  pub alloc_new_block-Allocated :
      (s : System P) (free : ℕ → List ℕ) (size addr : ℕ)
      → IsSound InUse s free
      → size ≤ 13
      → Allocated s free size (alloc_new_block ops s size addr)
  unfolding alloc_new_block
  alloc_new_block-Allocated s free size addr sound top =
      let b = (ops.pool_alloc s).0 in
      let s' = (ops.pool_alloc s).1 in
      let same = quiet.alloc_quiet s in
      let still : AreFree s'.buddy free = subst (λ x. AreFree x free) (sym same) sound.are_free in
      elim (Bool-cases (b == 0)) [
        | inl null ↦ rw null (
            inl (
              refl,
              record {
                are_free = still;
                used = λ n a h m. quiet.alloc_keeps s a (sound.used n a h m);
              },
              same,
            ))
        | inr granted ↦
            let present : b ≢ 0 = ==→ne b 0 granted in
            let new : (n : ℕ) → n ≤ 13 → occurrences b (free n) ≡ 0 = λ n small.
              absent b (free n)
                (λ member. quiet.alloc_fresh s present (sound.used n b small member)) in
            let (linked, size_b) = link-AreFree s'.buddy free b size addr still top present new in
            rw granted (
              inr (
                present,
                new,
                record {
                  are_free = linked;
                  used = λ n a small member. elim (Bool-cases (a == b)) [
                    | inl self ↦
                        subst (InUse s'.pool) (sym (==→eq a b self)) (quiet.alloc_used s present)
                    | inr other ↦ elim (Bool-cases (n == size)) [
                      | inl here ↦
                          let m : 0 < occurrences a (b ∷ free size) = rw here at member in
                          quiet.alloc_keeps s a (
                            sound.used size a top
                              (occurrences-other a b (free size) (==→ne a b other) m))
                      | inr elsewhere ↦
                          let m : 0 < occurrences a (free n) = rw elsewhere at member in
                          quiet.alloc_keeps s a (sound.used n a small m)
                    ]
                  ];
                },
                λ x ne. link-child_of s'.buddy b size addr x ne ∙ ap (λ y. child_of y x) same,
              ))
      ]
