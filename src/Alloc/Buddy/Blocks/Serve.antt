-- ===== src/Alloc/Buddy/Blocks/Serve.antt =====
-- `next_free_block` and `kmalloc` of source/alloc/buddy.c give out free blocks.
use raspberry_pi_os.Base.{
  ℕ, zero, suc, ◌+◌, ◌-◌, ◌^◌, ◌≤◌, ◌<◌, ◌≡◌, ◌≢◌, refl, sym, ap, ◌∙◌, arith, Bool, true, false,
  Option, none, some, List, [], ◌∷◌, ◌++◌, get_or, ltb, ltb→lt, ltb→le, le→ltb, not, ◌==◌,
  if◌then◌else◌, ◌⊎◌, Bool-cases, inl, inr, eq→==, ne→==, ==→ne, bit_and, ◌&&◌,
}
use raspberry_pi_os.Memory.Page.{page_size}
use mathlib.Core.Path.{subst}
use raspberry_pi_os.Alloc.Pool.Chain.{occurrences, occurrences-append, occurrences-head}
use raspberry_pi_os.Alloc.Buddy.{
  blk_head_idx, max_mem_blk_size, remove_from_free_list, block_size_for,
}
use raspberry_pi_os.Alloc.Buddy.Links.{Linked}
use raspberry_pi_os.Alloc.Buddy.Lists.{size_of, free_next, free_prev, remove-size_of}
use raspberry_pi_os.Alloc.Buddy.Sizes.{IsFit, block_size_for_lem}
use raspberry_pi_os.Alloc.Buddy.Blocks.{
  System, PoolOps, set_allocated, update_blk, split_block, after_split, after_larger,
  next_free_block, take_block, serve, kmalloc,
}
use raspberry_pi_os.Alloc.Buddy.Blocks.FreeLists.{
  replace, remove-AreFree, update_blk-AreFree, update_blk_self,
}
use raspberry_pi_os.Alloc.Buddy.Blocks.Split.{IsQuiet, IsSound}
use raspberry_pi_os.Alloc.Buddy.Blocks.Halves.{Splits, split_block-Splits}

-- A list that begins at a block has it as its first.
head-of-list :
    (next prev : ℕ → ℕ) (p : ℕ) (xs : List ℕ)
    → Linked next prev 0 p xs
    → p ≢ 0
    → (back : List ℕ) × (xs ≡ p ∷ back)
head-of-list next prev p [] linked ne = absurd (ne linked)
head-of-list next prev p (x ∷ xs) linked ne = (xs, ap (λ y. y ∷ xs) (sym linked.0))

module _ {P : Type 0} (ops : PoolOps P) (InUse : P → ℕ → Type 0) (quiet : IsQuiet ops InUse) where
  -- There is no panic; the block is one of the list of its size, if there is one.
  abbrev pub Served : (size : ℕ) → Option (ℕ × System P) → Type 0
  Served size none = ⊥
  Served size (some (b, s')) =
      (free' : ℕ → List ℕ) × IsSound InUse s' free'
      × ((b ≡ 0)
          ⊎ ((b ≢ 0)
              × (size ≤ 13)
              × (front : List ℕ) × (back : List ℕ) × (free' size ≡ front ++ (b ∷ back))))

  after_split-Served :
      (n b : ℕ) (r : Option (Bool × System P))
      → n ≤ 13
      → Splits ops InUse quiet n b r
      → Served n (after_split ops b r)
  unfolding after_split
  after_split-Served n b none top split = split
  after_split-Served n b (some (true, s)) top (free', second, back, sound, list, present) =
      (free', sound, inr (present, top, second ∷ [], back, list))
  after_split-Served n b (some (false, s)) top (free', sound) = (free', sound, inl refl)

  after_larger-Served :
      (n : ℕ) (r : Option (ℕ × System P)) → Served (suc n) r → Served n (after_larger ops r)
  unfolding after_larger
  after_larger-Served n none served = served
  after_larger-Served n (some (b, s)) (free', sound, inl null) =
      rw (eq→== b 0 null) (free', sound, inl refl)
  after_larger-Served n (some (b, s)) (free', sound, inr (present, top, front, back, place)) =
      rw (ne→== b 0 present) (
        after_split-Served n b (split_block ops s b) (omega arith)
          (split_block-Splits ops InUse quiet s free' n b front back sound top place))

  next_free_block-Served :
      (rounds : ℕ) (s : System P) (free : ℕ → List ℕ) (size : ℕ)
      → IsSound InUse s free
      → rounds + size ≡ 14
      → Served size (next_free_block ops rounds s size)
  unfolding next_free_block
  next_free_block-Served zero s free size sound e = (free, sound, inl refl)
  next_free_block-Served (suc rounds) s free size sound e =
      let freeb = get_or s.buddy.blk_heads (blk_head_idx size) 0 in
      let up : size + 1 ≡ suc size = omega arith in
      let larger : Served (suc size) (next_free_block ops rounds s (size + 1)) =
        subst (λ k. Served k (next_free_block ops rounds s (size + 1))) up
          (next_free_block-Served rounds s free (size + 1) sound (omega arith)) in
      rw (le→ltb max_mem_blk_size size (omega arith)) (elim (Bool-cases (freeb == 0)) [
        | inl null ↦
            rw null (after_larger-Served size (next_free_block ops rounds s (size + 1)) larger)
        | inr found ↦
            let top : size ≤ 13 = omega arith in
            let present = ==→ne freeb 0 found in
            let (back, list) =
              head-of-list (free_next s.buddy) (free_prev s.buddy) freeb (free size)
                (sound.are_free.lists size top).linked present in
            rw found (free, sound, inr (present, top, [], back, list))
      ])

  -- What `kmalloc` returns, for a block of some size: nothing, or the address of a block that was free.
  abbrev pub Given : (size : ℕ) → Option (ℕ × System P) → Type 0
  Given size none = ⊥
  Given size (some (address, s')) =
      (free' : ℕ → List ℕ) × IsSound InUse s' free'
      × ((address ≡ 0)
          ⊎ ((b : ℕ) × (address ≡ (s'.buddy.blk b).start_addr)
              × (size_of s'.buddy b ≡ size)
              × ((s'.buddy.blk b).allocated ≡ true)
              × ((n : ℕ) → n ≤ 13 → occurrences b (free' n) ≡ 0)))

  -- A block that has left its list is on no list.
  taken-absent :
      (s : System P) (free : ℕ → List ℕ) (size b : ℕ) (front back : List ℕ)
      → IsSound InUse s free
      → size ≤ 13
      → free size ≡ front ++ (b ∷ back)
      → (n : ℕ) → n ≤ 13
      → occurrences b (replace free size (front ++ back) n) ≡ 0
  taken-absent s free size b front back sound top place n small = elim (Bool-cases (n == size)) [
    | inl here ↦
        let once : occurrences b (front ++ (b ∷ back)) ≤ 1 =
          subst (λ l. occurrences b l ≤ 1) place ((sound.are_free.lists size top).distinct b) in
        rw here (
          omega (
            arith,
            once,
            occurrences-append b front back,
            occurrences-append b front (b ∷ back),
            occurrences-head b b back refl,
          ))
    | inr other ↦ rw other (elsewhere (ltb 0 (occurrences b (free n))) refl (==→ne n size other))
  ]
    where
      member : 0 < occurrences b (free size)
      member =
          subst (λ l. 0 < occurrences b l) (sym place)
            (omega (arith, occurrences-append b front (b ∷ back), occurrences-head b b back refl))

      elsewhere :
          (t : Bool) → ltb 0 (occurrences b (free n)) ≡ t → n ≢ size → occurrences b (free n) ≡ 0
      elsewhere true there ne = absurd (
          ne (
            sym
              ((sound.are_free.lists n small).same_size b (ltb→lt 0 (occurrences b (free n)) there))
            ∙ (sound.are_free.lists size top).same_size b member))
      elsewhere false absent ne = let le = ltb→le 0 (occurrences b (free n)) absent in omega arith

  take_block-Given :
      (size : ℕ) (r : Option (ℕ × System P)) → Served size r → Given size (take_block ops r)
  unfolding take_block set_allocated
  take_block-Given size none served = served
  take_block-Given size (some (b, s)) (free, sound, inl null) =
      rw (eq→== b 0 null) (free, sound, inl refl)
  take_block-Given size (some (b, s)) (free, sound, inr (present, top, front, back, place)) =
      let s1 = remove_from_free_list s.buddy b in
      let free' = replace free size (front ++ back) in
      let absent = taken-absent s free size b front back sound top place in
      let v = record (s1.blk b) { allocated = true } in
      let here : (update_blk s1 b v).blk b ≡ v = update_blk_self s1 b v in
      let member : 0 < occurrences b (free size) =
        subst (λ l. 0 < occurrences b l) (sym place)
          (omega (arith, occurrences-append b front (b ∷ back), occurrences-head b b back refl)) in
      rw (ne→== b 0 present) (
        free',
        record {
          are_free =
              update_blk-AreFree s1 free' b v
                (remove-AreFree s.buddy free size b front back sound.are_free top place) absent;
          used = λ n a small m. used n a small m (Bool-cases (n == size));
        },
        inr (
          b,
          refl,
          ap (λ x. x.blk_size) here
              ∙ remove-size_of s.buddy b b
              ∙ (sound.are_free.lists size top).same_size b member,
          ap (λ x. x.allocated) here,
          absent,
        ),
      )
    where
      used :
          (n a : ℕ)
          → n ≤ 13
          → 0 < occurrences a (replace free size (front ++ back) n)
          → ((n == size) ≡ true) ⊎ ((n == size) ≡ false)
          → InUse s.pool a
      used n a small m (inl here) =
          let m' : 0 < occurrences a (front ++ back) = rw here at m in
          sound.used size a top (
            subst (λ l. 0 < occurrences a l) (sym place)
              (omega
                (arith, occurrences-append a front back, occurrences-append a front (b ∷ back))))
      used n a small m (inr other) =
          let m' : 0 < occurrences a (free n) = rw other at m in sound.used n a small m'

  serve-Given :
      (i : ℕ) (s : System P) (free : ℕ → List ℕ)
      → IsSound InUse s free
      → Given i (serve ops (some i) s)
  unfolding serve next_free_block
  serve-Given i s free sound = elim (Bool-cases (ltb 14 i)) [
    | inl over ↦
        let lt = ltb→lt 14 i over in
        let no_rounds : 14 - i ≡ 0 = omega arith in
        rw no_rounds (take_block-Given i (next_free_block ops 0 s i) (free, sound, inl refl))
    | inr fits ↦
        let le = ltb→le 14 i fits in
        take_block-Given i (next_free_block ops (14 - i) s i)
          (next_free_block-Served (14 - i) s free i sound (omega arith))
  ]

  -- `kmalloc` does not panic while the pool does not grow. The free lists stay well formed, whether blocks
  -- are split on the way or structures are missing; it returns 0, or the address of a block of the least
  -- size that holds the request, which is marked as allocated and is on no free list any more.
  pub kmalloc-Given :
      (s : System P) (free : ℕ → List ℕ) (size flags : ℕ)
      → IsSound InUse s free
      → size ≤ 2 ^ 64 - 2 ^ 31
      → (i : ℕ) × (block_size_for size flags ≡ some i) × Given i (kmalloc ops s size flags)
  unfolding kmalloc
  kmalloc-Given s free size flags sound top =
      found (block_size_for size flags) refl (block_size_for_lem size flags top)
    where
      found :
          (o : Option ℕ)
          → block_size_for size flags ≡ o
          → IsFit (if not (bit_and flags 2 == 0) && ltb size page_size then page_size else size) o
          → (i : ℕ) × (o ≡ some i) × Given i (serve ops o s)
      found none e fit = absurd fit
      found (some i) e fit = (i, refl, serve-Given i s free sound)
