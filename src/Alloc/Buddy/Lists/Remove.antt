-- ===== src/Alloc/Buddy/Lists/Remove.antt =====
-- `remove_from_free_list` of source/alloc/buddy.c.
use mathlib.Core.Path.{subst}
use raspberry_pi_os.Base.{
  ℕ, ◌≤◌, ◌<◌, ◌≡◌, ◌≢◌, refl, sym, ap, ◌∙◌, arith, List, [], ◌∷◌, ◌++◌, ◌==◌, if◌then◌else◌, eq→==,
  ne→==, ◌⊎◌, inl, inr, Bool-cases, ==→eq, ==→ne, get_or, set, length, get_or-set_self,
  get_or-set_ne,
}
use raspberry_pi_os.Alloc.Pool.Chain.{occurrences, occurrences-append, occurrences-head}
use raspberry_pi_os.Alloc.Buddy.{Buddy, blk_head_idx, remove_from_free_list}
use raspberry_pi_os.Alloc.Buddy.Links.{
  Linked, Linked-agree, unlink_next, unlink_prev, unlink-Linked, start_of, prev-in, next-in,
}
use raspberry_pi_os.Alloc.Buddy.Lists.{
  IsFreeList, LeavesOthers, free_next, free_prev, size_of, remove-free_next, remove-free_prev,
  remove-size_of, removed-heads, Linked-nonzero,
}

removed_size :
    (s : Buddy) (size b : ℕ) (front back : List ℕ)
    → IsFreeList s size (front ++ (b ∷ back))
    → size_of s b ≡ size
removed_size s size b front back ok =
    ok.same_size b
      (omega (arith, occurrences-append b front (b ∷ back), occurrences-head b b back refl))

before_size :
    (s : Buddy) (size b : ℕ) (front back : List ℕ)
    → IsFreeList s size (front ++ (b ∷ back))
    → (free_prev s b ≡ 0) ⊎ (size_of s (free_prev s b) ≡ size)
before_size s size b [] back ok = inl ok.linked.2
before_size s size b (x ∷ front) back ok =
    let there = prev-in (free_next s) (free_prev s) 0 _ b x front back ok.linked in
    inr (
      ok.same_size (free_prev s b)
        (omega (arith, occurrences-append (free_prev s b) (x ∷ front) (b ∷ back))))

behind_size :
    (s : Buddy) (size b : ℕ) (front back : List ℕ)
    → IsFreeList s size (front ++ (b ∷ back))
    → (free_next s b ≡ 0) ⊎ (size_of s (free_next s b) ≡ size)
behind_size s size b front back ok =
    elim (next-in (free_next s) (free_prev s) 0 _ b front back ok.linked) [
      | inl last ↦ inl last
      | inr inside ↦ inr (
          ok.same_size (free_next s b)
            (omega (arith, occurrences-append (free_next s b) front (b ∷ back))))
    ]

first-heads :
    (s : Buddy) (b : ℕ)
    → free_prev s b ≡ 0
    → (remove_from_free_list s b).blk_heads
      ≡ set s.blk_heads (blk_head_idx (size_of s b)) (free_next s b)
first-heads s b first =
    removed-heads s b
    ∙ ap
        (λ c.
          if c then set s.blk_heads (blk_head_idx (size_of s b)) (free_next s b) else s.blk_heads)
        (eq→== (free_prev s b) 0 first)

later-heads :
    (s : Buddy) (b : ℕ) → free_prev s b ≢ 0 → (remove_from_free_list s b).blk_heads ≡ s.blk_heads
later-heads s b later =
    removed-heads s b
    ∙ ap
        (λ c.
          if c then set s.blk_heads (blk_head_idx (size_of s b)) (free_next s b) else s.blk_heads)
        (ne→== (free_prev s b) 0 later)

removed-head :
    (s : Buddy) (size b : ℕ) (front back : List ℕ)
    → IsFreeList s size (front ++ (b ∷ back))
    → length s.blk_heads ≡ 14
    → get_or (remove_from_free_list s b).blk_heads (blk_head_idx size) 0
      ≡ start_of (get_or s.blk_heads (blk_head_idx size) 0) front (free_next s b)
removed-head s size b [] back ok heads =
    let same = removed_size s size b [] back ok in
    ap (λ hs. get_or hs (blk_head_idx size) 0) (first-heads s b ok.linked.2)
    ∙ ap (λ k. get_or (set s.blk_heads (blk_head_idx k) (free_next s b)) (blk_head_idx size) 0) same
    ∙ get_or-set_self s.blk_heads (blk_head_idx size) (free_next s b) 0 (omega arith)
removed-head s size b (x ∷ front) back ok heads =
    let there = prev-in (free_next s) (free_prev s) 0 _ b x front back ok.linked in
    let nonzero =
      Linked-nonzero (free_next s) (free_prev s) 0 _ ((x ∷ front) ++ (b ∷ back)) ok.linked in
    let later : free_prev s b ≢ 0 = λ z.
      let zero_there = subst (λ k. 0 < occurrences k (x ∷ front)) z there in
      omega (arith, occurrences-append 0 (x ∷ front) (b ∷ back)) in
    ap (λ hs. get_or hs (blk_head_idx size) 0) (later-heads s b later)

other-head :
    (s : Buddy) (size other b : ℕ)
    → size_of s b ≡ size
    → size ≤ 13
    → other ≤ 13
    → other ≢ size
    → get_or (remove_from_free_list s b).blk_heads (blk_head_idx other) 0
      ≡ get_or s.blk_heads (blk_head_idx other) 0
other-head s size other b same top top' ne = elim (Bool-cases (free_prev s b == 0)) [
  | inl first ↦
      ap (λ hs. get_or hs (blk_head_idx other) 0) (first-heads s b (==→eq _ 0 first))
      ∙ get_or-set_ne s.blk_heads (blk_head_idx (size_of s b)) (blk_head_idx other) (free_next s b)
          0 (λ e. omega (arith, e, same))
  | inr later ↦ ap (λ hs. get_or hs (blk_head_idx other) 0) (later-heads s b (==→ne _ 0 later))
]

kept : (z y v w : ℕ) → (z ≡ 0) ⊎ (z ≢ y) → (if z == 0 then v else if y == z then w else v) ≡ v
kept z y v w h = ground arith

-- A block of another size is not a neighbour.
not-neighbour :
    (s : Buddy) (size other z y : ℕ)
    → (z ≡ 0) ⊎ (size_of s z ≡ size)
    → size_of s y ≡ other
    → other ≢ size
    → (z ≡ 0) ⊎ (z ≢ y)
not-neighbour s size other z y (inl none) size_y ne = inl none
not-neighbour s size other z y (inr size_z) size_y ne =
    inr (λ e. ne (sym size_y ∙ sym (ap (size_of s) e) ∙ size_z))

removed-LeavesOthers :
    (s : Buddy) (size b : ℕ) (front back : List ℕ)
    → IsFreeList s size (front ++ (b ∷ back))
    → size ≤ 13
    → LeavesOthers s (remove_from_free_list s b) size
removed-LeavesOthers s size b front back ok top other ys top' ne l =
    let before = before_size s size b front back ok in
    let behind = behind_size s size b front back ok in
    let same = removed_size s size b front back ok in
    record {
      linked =
          subst
            (λ p.
              Linked (free_next (remove_from_free_list s b)) (free_prev (remove_from_free_list s b))
                0 p ys)
            (sym (other-head s size other b same top top' ne))
            (Linked-agree (free_next s) (free_prev s) (free_next (remove_from_free_list s b))
              (free_prev (remove_from_free_list s b)) 0 (get_or s.blk_heads (blk_head_idx other) 0)
              ys
              (λ y h.
                let size_y = l.same_size y h in
                (
                  remove-free_next s b y
                      ∙ kept (free_prev s b) y (free_next s y) (free_next s b)
                          (not-neighbour s size other (free_prev s b) y before size_y ne),
                  remove-free_prev s b y
                      ∙ kept (free_next s b) y (free_prev s y) (free_prev s b)
                          (not-neighbour s size other (free_next s b) y behind size_y ne),
                ))
              l.linked);
      distinct = l.distinct;
      same_size = λ a h. remove-size_of s b a ∙ l.same_size a h;
    }

-- Taking a free block off the list of its size, wherever it stands there, leaves the list of the
-- others in their order, and the lists of the other sizes as they were.
pub remove_from_free_list_lem :
    (s : Buddy) (size b : ℕ) (front back : List ℕ)
    → IsFreeList s size (front ++ (b ∷ back))
    → length s.blk_heads ≡ 14
    → size ≤ 13
    → IsFreeList (remove_from_free_list s b) size (front ++ back)
      × LeavesOthers s (remove_from_free_list s b) size
remove_from_free_list_lem s size b front back ok heads top = (
  record {
    linked =
        subst
          (λ p.
            Linked (free_next (remove_from_free_list s b)) (free_prev (remove_from_free_list s b)) 0
              p (front ++ back))
          (sym (removed-head s size b front back ok heads))
          (Linked-agree (unlink_next (free_next s) (free_prev s) b)
            (unlink_prev (free_next s) (free_prev s) b) (free_next (remove_from_free_list s b))
            (free_prev (remove_from_free_list s b)) 0 _ (front ++ back)
            (λ x h. (remove-free_next s b x, remove-free_prev s b x))
            (unlink-Linked (free_next s) (free_prev s) 0 (get_or s.blk_heads (blk_head_idx size) 0)
              b front back ok.distinct (inl refl) ok.linked));
    distinct = λ a. omega (
      arith,
      ok.distinct a,
      occurrences-append a front (b ∷ back),
      occurrences-append a front back,
    );
    same_size = λ a h.
        remove-size_of s b a
        ∙ ok.same_size a
            (omega (arith, occurrences-append a front (b ∷ back), occurrences-append a front back));
  },
  removed-LeavesOthers s size b front back ok top,
)
