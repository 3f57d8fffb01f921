-- ===== src/Alloc/Buddy/Blocks/FreeLists.antt =====
-- The free lists of source/alloc/buddy.c, all sizes together.
use raspberry_pi_os.Base.{
  ℕ, ◌+◌, ◌≤◌, ◌<◌, ◌≡◌, ◌≢◌, refl, sym, ap, ◌∙◌, arith, false, List, ◌∷◌, ◌++◌, length, length-set,
  get_or, ◌==◌, if◌then◌else◌, Bool-cases, inl, inr, eq→==, ne→==, ==→eq, ==→ne,
}
use mathlib.Core.Path.{subst}
use raspberry_pi_os.Alloc.Pool.Chain.{occurrences, occurrences-append}
use raspberry_pi_os.Alloc.Buddy.{
  MemBlk, Buddy, blk_head_idx, set_prev_free, remove_from_free_list, insert_into_free_list,
}
use raspberry_pi_os.Alloc.Buddy.Links.{Linked, Linked-agree}
use raspberry_pi_os.Alloc.Buddy.Lists.{IsFreeList, size_of, free_next, free_prev}
use raspberry_pi_os.Alloc.Buddy.Lists.Insert.{insert_into_free_list_lem}
use raspberry_pi_os.Alloc.Buddy.Lists.Remove.{remove_from_free_list_lem}
use raspberry_pi_os.Alloc.Buddy.Blocks.{update_blk}

-- The free blocks of each size, in the order of the lists; none of them is given out.
pub record AreFree (s : Buddy) (free : ℕ → List ℕ) : Type 0 where
  pub heads : length s.blk_heads ≡ 14
  pub lists : (size : ℕ) → size ≤ 13 → IsFreeList s size (free size)
  pub idle : (size a : ℕ) → size ≤ 13 → 0 < occurrences a (free size) → (s.blk a).allocated ≡ false

abbrev pub replace : (ℕ → List ℕ) → (size : ℕ) → List ℕ → ℕ → List ℕ
replace free size xs n = if n == size then xs else free n

-- What agrees on the free blocks has the same lists.
pub AreFree-agree :
    (s s' : Buddy) (free : ℕ → List ℕ)
    → AreFree s free
    → s'.blk_heads ≡ s.blk_heads
    → ((size a : ℕ)
        → size ≤ 13
        → 0 < occurrences a (free size)
        → (free_next s' a ≡ free_next s a)
          × (free_prev s' a ≡ free_prev s a)
          × (size_of s' a ≡ size_of s a)
          × ((s'.blk a).allocated ≡ (s.blk a).allocated))
    → AreFree s' free
AreFree-agree s s' free ok heads same = record {
  heads = ap length heads ∙ ok.heads;
  lists = λ size top.
      let l = ok.lists size top in
      record {
        linked =
            subst (λ p. Linked (free_next s') (free_prev s') 0 p (free size))
              (sym (ap (λ h. get_or h (blk_head_idx size) 0) heads))
              (Linked-agree (free_next s) (free_prev s) (free_next s') (free_prev s') 0 _
                (free size) (λ x h. let e = same size x top h in (e.0, e.1)) l.linked);
        distinct = l.distinct;
        same_size = λ a h. (same size a top h).2 ∙ l.same_size a h;
      };
  idle = λ size a top h. (same size a top h).3 ∙ ok.idle size a top h;
}

pub update_blk-other :
    (s : Buddy) (b a : ℕ) (v : MemBlk) → a ≢ b → (update_blk s b v).blk a ≡ s.blk a
unfolding update_blk
update_blk-other s b a v ne = rw (ne→== a b ne) refl

pub update_blk_self : (s : Buddy) (b : ℕ) (v : MemBlk) → (update_blk s b v).blk b ≡ v
unfolding update_blk
update_blk_self s b v = rw (eq→== b b refl) refl

-- A change of a block that is not free.
pub update_blk-AreFree :
    (s : Buddy) (free : ℕ → List ℕ) (b : ℕ) (v : MemBlk)
    → AreFree s free
    → ((size : ℕ) → size ≤ 13 → occurrences b (free size) ≡ 0)
    → AreFree (update_blk s b v) free
unfolding update_blk
update_blk-AreFree s free b v ok out =
    AreFree-agree s (update_blk s b v) free ok refl (λ size a top h. unchanged size a top h)
  where
    unchanged :
        (size a : ℕ)
        → size ≤ 13
        → 0 < occurrences a (free size)
        → (free_next (update_blk s b v) a ≡ free_next s a)
          × (free_prev (update_blk s b v) a ≡ free_prev s a)
          × (size_of (update_blk s b v) a ≡ size_of s a)
          × (((update_blk s b v).blk a).allocated ≡ (s.blk a).allocated)
    unchanged size a top h = elim (Bool-cases (a == b)) [
      | inl here ↦
          let there = subst (λ x. 0 < occurrences x (free size)) (==→eq a b here) h in
          absurd (omega (arith, out size top))
      | inr other ↦
          let e = update_blk-other s b a v (==→ne a b other) in
          (
            ap (λ x. x.next_free) e,
            ap (λ x. x.prev_free) e,
            ap (λ x. x.blk_size) e,
            ap (λ x. x.allocated) e,
          )
    ]

remove-allocated :
    (s : Buddy) (b x : ℕ) → ((remove_from_free_list s b).blk x).allocated ≡ (s.blk x).allocated
unfolding remove_from_free_list set_prev_free
remove-allocated s b x = ground arith

insert-allocated :
    (s : Buddy) (b x : ℕ) → ((insert_into_free_list s b).blk x).allocated ≡ (s.blk x).allocated
unfolding insert_into_free_list set_prev_free
insert-allocated s b x = ground arith

set_prev_free-heads :
    (next prev : ℕ) (s : Buddy) → (set_prev_free next prev s).blk_heads ≡ s.blk_heads
unfolding set_prev_free
set_prev_free-heads next prev s = elim (Bool-cases (next == 0)) [
  | inl here ↦ rw here refl
  | inr other ↦ rw other refl
]

remove-heads :
    (s : Buddy) (b : ℕ) → length (remove_from_free_list s b).blk_heads ≡ length s.blk_heads
unfolding remove_from_free_list
remove-heads s b =
    let next = (s.blk b).next_free in
    let prev = (s.blk b).prev_free in
    let same = ap length (set_prev_free-heads next prev s) in
    elim (Bool-cases (prev == 0)) [
      | inl first ↦ rw first (length-set (set_prev_free next prev s).blk_heads _ next ∙ same)
      | inr later ↦ rw later same
    ]

insert-heads :
    (s : Buddy) (b : ℕ) → length (insert_into_free_list s b).blk_heads ≡ length s.blk_heads
unfolding insert_into_free_list
insert-heads s b =
    length-set (set_prev_free _ b s).blk_heads _ b ∙ ap length (set_prev_free-heads _ b s)

-- Taking a block off its list.
pub remove-AreFree :
    (s : Buddy) (free : ℕ → List ℕ) (size b : ℕ) (front back : List ℕ)
    → AreFree s free
    → size ≤ 13
    → free size ≡ front ++ (b ∷ back)
    → AreFree (remove_from_free_list s b) (replace free size (front ++ back))
remove-AreFree s free size b front back ok top place =
    let done =
      remove_from_free_list_lem s size b front back
        (subst (IsFreeList s size) place (ok.lists size top)) ok.heads top in
    record {
      heads = remove-heads s b ∙ ok.heads;
      lists = λ n small. elim (Bool-cases (n == size)) [
        | inl here ↦ rw here (
            subst (λ k. IsFreeList (remove_from_free_list s b) k (front ++ back))
              (sym (==→eq n size here)) done.0)
        | inr other ↦ rw other (done.1 n (free n) small (==→ne n size other) (ok.lists n small))
      ];
      idle = λ n a small h. remove-allocated s b a ∙ elim (Bool-cases (n == size)) [
        | inl here ↦
            let h' : 0 < occurrences a (front ++ back) = rw here at h in
            ok.idle size a top (
              subst (λ l. 0 < occurrences a l) (sym place)
                (omega
                  (arith, occurrences-append a front back, occurrences-append a front (b ∷ back))))
        | inr other ↦ let h' : 0 < occurrences a (free n) = rw other at h in ok.idle n a small h'
      ];
    }

-- Putting a block that is not given out in front of its list.
pub insert-AreFree :
    (s : Buddy) (free : ℕ → List ℕ) (size b : ℕ)
    → AreFree s free
    → size ≤ 13
    → size_of s b ≡ size
    → b ≢ 0
    → occurrences b (free size) ≡ 0
    → (s.blk b).allocated ≡ false
    → AreFree (insert_into_free_list s b) (replace free size (b ∷ free size))
insert-AreFree s free size b ok top same present new idle =
    let done =
      insert_into_free_list_lem s size b (free size) (ok.lists size top) same present new ok.heads
        top in
    record {
      heads = insert-heads s b ∙ ok.heads;
      lists = λ n small. elim (Bool-cases (n == size)) [
        | inl here ↦ rw here (
            subst (λ k. IsFreeList (insert_into_free_list s b) k (b ∷ free size))
              (sym (==→eq n size here)) done.0)
        | inr other ↦ rw other (done.1 n (free n) small (==→ne n size other) (ok.lists n small))
      ];
      idle = λ n a small h. insert-allocated s b a ∙ elim (Bool-cases (n == size)) [
        | inl here ↦
            let h' : 0 < occurrences a (b ∷ free size) = rw here at h in
            elim (Bool-cases (a == b)) [
              | inl self ↦ subst (λ x. (s.blk x).allocated ≡ false) (sym (==→eq a b self)) idle
              | inr rest ↦
                  let h'' : 0 < occurrences a (free size) + 0 = rw rest at h' in
                  ok.idle size a top (omega arith)
            ]
        | inr other ↦ let h' : 0 < occurrences a (free n) = rw other at h in ok.idle n a small h'
      ];
    }
