-- ===== src/Alloc/Buddy/Blocks/Halves.antt =====
-- `split_block` of source/alloc/buddy.c, on every branch.
use raspberry_pi_os.Base.{
  ℕ, suc, ◌-◌, ◌≤◌, ◌<◌, ◌≡◌, ◌≢◌, refl, sym, ap, ◌∙◌, arith, Bool, true, false, Option, none, some,
  List, [], ◌∷◌, ◌++◌, ◌==◌, Bool-cases, inl, inr, eq→==, ne→==, ==→ne,
}
use mathlib.Core.Path.{subst}
use raspberry_pi_os.Alloc.Pool.Chain.{occurrences, occurrences-append, occurrences-head}
use raspberry_pi_os.Alloc.Buddy.{remove_from_free_list, remove_from_all_list}
use raspberry_pi_os.Alloc.Buddy.Lists.{size_of}
use raspberry_pi_os.Alloc.Buddy.Blocks.{
  System, PoolOps, alloc_new_block, drop_block, with_children, after_children, split_block,
}
use raspberry_pi_os.Alloc.Buddy.Blocks.FreeLists.{AreFree, replace, update_blk_self, remove-AreFree}
use raspberry_pi_os.Alloc.Buddy.Blocks.AllList.{remove_all-AreFree, children-AreFree}
use raspberry_pi_os.Alloc.Buddy.Blocks.Split.{
  IsQuiet, IsSound, Allocated, alloc_new_block-Allocated, child_of, remove-child_of,
}

replace_self : (free : ℕ → List ℕ) (n : ℕ) (xs : List ℕ) → replace free n xs n ≡ xs
replace_self free n xs = rw (eq→== n n refl) refl

replace-other : (free : ℕ → List ℕ) (n m : ℕ) (xs : List ℕ) → m ≢ n → replace free n xs m ≡ free m
replace-other free n m xs ne = rw (ne→== m n ne) refl

module _ {P : Type 0} (ops : PoolOps P) (InUse : P → ℕ → Type 0) (quiet : IsQuiet ops InUse) where
  children-IsSound :
      (s : System P) (free : ℕ → List ℕ) (b c1 c2 : ℕ)
      → IsSound InUse s free
      → IsSound InUse (with_children ops s b c1 c2) free
  children-IsSound s free b c1 c2 sound = record {
    are_free = children-AreFree s.buddy free b c1 c2 sound.are_free;
    used = sound.used;
  }

  -- A block that was just made is taken back.
  drop-IsSound :
      (s : System P) (free : ℕ → List ℕ) (size b : ℕ)
      → size ≤ 13
      → ((n : ℕ) → n ≤ 13 → occurrences b (free n) ≡ 0)
      → IsSound InUse s (replace free size (b ∷ free size))
      → IsSound InUse
          (drop_block ops s b)
          (replace (replace free size (b ∷ free size)) size (free size))
  unfolding drop_block
  drop-IsSound s free size b top new sound =
      let listed = replace free size (b ∷ free size) in
      let removed =
        remove_all-AreFree (remove_from_free_list s.buddy b) (replace listed size (free size)) b (
          remove-AreFree s.buddy listed size b [] (free size) sound.are_free top
            (replace_self free size (b ∷ free size))) in
      let s1 = record s { buddy = remove_from_all_list (remove_from_free_list s.buddy b) b } in
      record {
        are_free =
            subst (λ x. AreFree x (replace listed size (free size))) (sym (quiet.free_quiet s1 b))
              removed;
        used = λ n a small member. elim (Bool-cases (n == size)) [
          | inl here ↦
              let m : 0 < occurrences a (free size) = rw here at member in
              quiet.free_keeps s1 b a (not_new a size top m) (
                sound.used size a top (
                  subst (λ l. 0 < occurrences a l) (sym (replace_self free size (b ∷ free size)))
                    (omega arith)))
          | inr other ↦
              let m : 0 < occurrences a (free n) = rw other at member in
              quiet.free_keeps s1 b a (not_new a n small m) (
                sound.used n a small (
                  subst (λ l. 0 < occurrences a l)
                    (sym (replace-other free size n (b ∷ free size) (==→ne n size other))) m))
        ];
      }
    where
      not_new : (a n : ℕ) → n ≤ 13 → 0 < occurrences a (free n) → a ≢ b
      not_new a n small member same =
          let m = subst (λ x. 0 < occurrences x (free n)) same member in
          omega (arith, new n small, m)

  -- The outcome of a split of `b`: its first child is on the list of the halves, behind the second one,
  -- or the lists are sound without it.
  abbrev pub Splits : (n b : ℕ) → Option (Bool × System P) → Type 0
  Splits n b none = ⊥
  Splits n b (some (true, s')) =
      (free' : ℕ → List ℕ) × (second : ℕ) × (back : List ℕ) × IsSound InUse s' free'
      × (free' n ≡ second ∷ child_of s'.buddy b ∷ back)
      × (child_of s'.buddy b ≢ 0)
  Splits n b (some (false, s')) = (free' : ℕ → List ℕ) × IsSound InUse s' free'

  -- Both children are there: the block itself leaves its list.
  whole-Splits :
      (s : System P) (free : ℕ → List ℕ) (n b c1 c2 : ℕ) (front back : List ℕ)
      → IsSound InUse s
          (replace (replace free n (c1 ∷ free n)) n (c2 ∷ replace free n (c1 ∷ free n) n))
      → suc n ≤ 13
      → free (suc n) ≡ front ++ (b ∷ back)
      → child_of s.buddy b ≡ c1
      → c1 ≢ 0
      → Splits n b (some (true, record s { buddy = remove_from_free_list s.buddy b }))
  whole-Splits s free n b c1 c2 front back sound top place child present =
      let first = replace free n (c1 ∷ free n) in
      let both = replace first n (c2 ∷ first n) in
      let free' = replace both (suc n) (front ++ back) in
      let up : (suc n == n) ≡ false = ne→== (suc n) n (omega arith) in
      let here : both (suc n) ≡ front ++ (b ∷ back) = rw up place in
      let kept : child_of (remove_from_free_list s.buddy b) b ≡ c1 =
        remove-child_of s.buddy b b ∙ child in
      (
        free',
        c2,
        free n,
        record {
          are_free = remove-AreFree s.buddy both (suc n) b front back sound.are_free top here;
          used = λ m a small member. elim (Bool-cases (m == suc n)) [
            | inl at ↦
                let in_rest : 0 < occurrences a (front ++ back) = rw at at member in
                sound.used (suc n) a top (
                  subst (λ l. 0 < occurrences a l) (sym here)
                    (omega (
                      arith,
                      occurrences-append a front back,
                      occurrences-append a front (b ∷ back),
                    )))
            | inr off ↦
                let there : 0 < occurrences a (both m) = rw off at member in
                sound.used m a small there
          ];
        },
        replace-other both (suc n) n (front ++ back) (omega arith)
            ∙ replace_self first n (c2 ∷ first n)
            ∙ ap (λ l. c2 ∷ l) (replace_self free n (c1 ∷ free n))
            ∙ ap (λ c. c2 ∷ c ∷ free n) (sym kept),
        λ zero_child. present (sym kept ∙ zero_child),
      )

  module _ (s : System P) (free : ℕ → List ℕ) (n b : ℕ) (front back : List ℕ) (top : suc n ≤ 13)
      (place : free (suc n) ≡ front ++ (b ∷ back)) (addr2 : ℕ) where
    abbrev linked_first : (c1 : ℕ) → System P → System P
    linked_first c1 s1 = with_children ops s1 b c1 (s1.buddy.blk b).child2

    abbrev linked_both : (c2 : ℕ) → System P → System P
    linked_both c2 s2 = with_children ops s2 b (s2.buddy.blk b).child1 c2

    no_first-Splits :
        (s1 : System P) (r : ℕ × System P)
        → Allocated ops InUse quiet (linked_first 0 s1) free n r
        → Splits n b (some (after_children ops (linked_both r.0 r.1) b 0 r.0))
    unfolding after_children
    no_first-Splits s1 (c2, s2) (inl (null, sound, same)) =
        rw (eq→== c2 0 null) (free, children-IsSound s2 free b _ c2 sound)
    no_first-Splits s1 (c2, s2) (inr (present, new, sound, kept)) =
        let linked = linked_both c2 s2 in
        let dropped =
          drop-IsSound linked free n c2 (omega arith) new
            (children-IsSound s2 _ b (s2.buddy.blk b).child1 c2 sound) in
        rw (ne→== c2 0 present) (_, children-IsSound (drop_block ops linked c2) _ b 0 0 dropped)

    with_first-Splits :
        (c1 : ℕ) (s1 : System P) (r : ℕ × System P)
        → c1 ≢ 0
        → ((m : ℕ) → m ≤ 13 → occurrences c1 (free m) ≡ 0)
        → Allocated ops InUse quiet (linked_first c1 s1) (replace free n (c1 ∷ free n)) n r
        → Splits n b (some (after_children ops (linked_both r.0 r.1) b c1 r.0))
    unfolding after_children
    with_first-Splits c1 s1 (c2, s2) c1_present c1_new (inl (null, sound, same)) =
        let linked = linked_both c2 s2 in
        let dropped =
          drop-IsSound linked free n c1 (omega arith) c1_new
            (children-IsSound s2 _ b (s2.buddy.blk b).child1 c2 sound) in
        rw (ne→== c1 0 c1_present, eq→== c2 0 null)
          (_, children-IsSound (drop_block ops linked c1) _ b 0 0 dropped)
    with_first-Splits c1 s1 (c2, s2) c1_present c1_new (inr (present, new, sound, kept)) =
        let linked = linked_both c2 s2 in
        let listed : replace free n (c1 ∷ free n) (suc n) ≡ front ++ (b ∷ back) =
          replace-other free n (suc n) (c1 ∷ free n) (omega arith) ∙ place in
        let other : b ≢ c2 = λ same.
          let none : occurrences b (front ++ (b ∷ back)) ≡ 0 =
            subst (λ x. occurrences x (front ++ (b ∷ back)) ≡ 0) (sym same)
              (ap (occurrences c2) (sym listed) ∙ new (suc n) top) in
          omega
            (arith, none, occurrences-append b front (b ∷ back), occurrences-head b b back refl) in
        let child : child_of linked.buddy b ≡ c1 =
          ap (λ v. v.child1) (update_blk_self s2.buddy b _)
          ∙ kept b other
          ∙ ap (λ v. v.child1) (update_blk_self s1.buddy b _) in
        rw (ne→== c1 0 c1_present, ne→== c2 0 present)
          (whole-Splits linked free n b c1 c2 front back
            (children-IsSound s2 _ b (s2.buddy.blk b).child1 c2 sound) top place child c1_present)

    first-Splits :
        (r1 : ℕ × System P)
        → Allocated ops InUse quiet s free n r1
        → let r2 = alloc_new_block ops (linked_first r1.0 r1.1) n addr2 in
          Splits n b (some (after_children ops (linked_both r2.0 r2.1) b r1.0 r2.0))
    first-Splits (c1, s1) (inl (null, sound, same)) = rw null (
        no_first-Splits s1 (alloc_new_block ops (linked_first 0 s1) n addr2) (
          alloc_new_block-Allocated ops InUse quiet (linked_first 0 s1) free n addr2
            (children-IsSound s1 free b 0 _ sound) (omega arith)))
    first-Splits (c1, s1) (inr (present, new, sound, kept)) =
        with_first-Splits c1 s1 (alloc_new_block ops (linked_first c1 s1) n addr2) present new (
          alloc_new_block-Allocated ops InUse quiet (linked_first c1 s1)
            (replace free n (c1 ∷ free n)) n addr2 (children-IsSound s1 _ b c1 _ sound)
            (omega arith))

  -- A free block of a size above 0 is split without a panic, or the lists are left sound.
  pub split_block-Splits :
      (s : System P) (free : ℕ → List ℕ) (n b : ℕ) (front back : List ℕ)
      → IsSound InUse s free
      → suc n ≤ 13
      → free (suc n) ≡ front ++ (b ∷ back)
      → Splits n b (split_block ops s b)
  unfolding split_block
  split_block-Splits s free n b front back sound top place =
      let member : 0 < occurrences b (free (suc n)) =
        subst (λ l. 0 < occurrences b l) (sym place)
          (omega (arith, occurrences-append b front (b ∷ back), occurrences-head b b back refl)) in
      let size : size_of s.buddy b ≡ suc n =
        (sound.are_free.lists (suc n) top).same_size b member in
      let half : suc n - 1 ≡ n = omega arith in
      rw (size, ne→== (suc n) 0 (omega arith), half)
        (first-Splits s free n b front back top place _
          (alloc_new_block ops s n (s.buddy.blk b).start_addr)
          (alloc_new_block-Allocated ops InUse quiet s free n (s.buddy.blk b).start_addr sound
            (omega arith)))
