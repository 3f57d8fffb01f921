-- ===== src/Alloc/Buddy/Lists/Insert.antt =====
-- `insert_into_free_list` of source/alloc/buddy.c.
use mathlib.Core.Path.{subst}
use raspberry_pi_os.Base.{
  ℕ, ◌≤◌, ◌<◌, ◌≡◌, ◌≢◌, refl, sym, ap, ◌∙◌, arith, List, [], ◌∷◌, ◌==◌, eq→==, ne→==, ◌⊎◌, inl,
  inr, Bool-cases, ==→eq, get_or, set, length, get_or-set_self, get_or-set_ne,
}
use raspberry_pi_os.Alloc.Pool.Chain.{occurrences, occurrences-head}
use raspberry_pi_os.Alloc.Buddy.{Buddy, blk_head_idx, insert_into_free_list}
use raspberry_pi_os.Alloc.Buddy.Links.{Linked, Linked-agree}
use raspberry_pi_os.Alloc.Buddy.Lists.{
  IsFreeList, LeavesOthers, free_next, free_prev, size_of, insert-free_next, insert-free_prev,
  insert-size_of, inserted-heads, cons-Linked,
}

abbrev head_of : Buddy → ℕ → ℕ
head_of s size = get_or s.blk_heads (blk_head_idx size) 0

first-there :
    (s : Buddy) (size : ℕ) (xs : List ℕ)
    → IsFreeList s size xs
    → (head_of s size ≡ 0) ⊎ (size_of s (head_of s size) ≡ size)
first-there s size [] ok = inl ok.linked
first-there s size (x ∷ xs) ok =
    let e = ok.linked.0 in
    inr (ap (size_of s) e ∙ ok.same_size x (omega (arith, occurrences-head x x xs refl)))

module _ (s : Buddy) (size b : ℕ) (same : size_of s b ≡ size) where
  abbrev after : Buddy
  after = insert_into_free_list s b

  next_self : free_next after b ≡ head_of s size
  next_self = insert-free_next s b b ∙ rw (eq→== b b refl) (ap (head_of s) same)

  prev_self : free_prev after b ≡ 0
  prev_self = insert-free_prev s b b ∙ rw (eq→== b b refl) refl

  next_other : (x : ℕ) → x ≢ b → free_next after x ≡ free_next s x
  next_other x ne = insert-free_next s b x ∙ rw (ne→== x b ne) refl

  prev_other :
      (x : ℕ)
      → x ≢ b
      → (head_of s size ≡ 0) ⊎ (x ≢ head_of s size)
      → free_prev after x ≡ free_prev s x
  prev_other x ne h =
      let h' = subst (λ k. (head_of s k ≡ 0) ⊎ (x ≢ head_of s k)) (sym same) h in
      insert-free_prev s b x ∙ ground arith

  prev_first : head_of s size ≢ 0 → head_of s size ≢ b → free_prev after (head_of s size) ≡ b
  prev_first h ne =
      subst (λ k. head_of s k ≢ 0 → head_of s k ≢ b → free_prev after (head_of s k) ≡ b) same
        (λ h ne. insert-free_prev s b (head_of s (size_of s b)) ∙ ground arith) h ne

  inserted-head : length s.blk_heads ≡ 14 → head_of after size ≡ b
  inserted-head heads =
      ap (λ hs. get_or hs (blk_head_idx size) 0) (inserted-heads s b)
      ∙ ap (λ k. get_or (set s.blk_heads (blk_head_idx k) b) (blk_head_idx size) 0) same
      ∙ get_or-set_self s.blk_heads (blk_head_idx size) b 0 (omega arith)

  other-head :
      (other : ℕ) → size ≤ 13 → other ≤ 13 → other ≢ size → head_of after other ≡ head_of s other
  other-head other top top' ne =
      ap (λ hs. get_or hs (blk_head_idx other) 0) (inserted-heads s b)
      ∙ get_or-set_ne s.blk_heads (blk_head_idx (size_of s b)) (blk_head_idx other) b 0
          (λ e. omega (arith, e, same))

  inserted-LeavesOthers :
      (xs : List ℕ) → IsFreeList s size xs → size ≤ 13 → LeavesOthers s after size
  inserted-LeavesOthers xs ok top other ys top' ne l = record {
    linked =
        subst (λ p. Linked (free_next after) (free_prev after) 0 p ys)
          (sym (other-head other top top' ne))
          (Linked-agree (free_next s) (free_prev s) (free_next after) (free_prev after) 0
            (head_of s other) ys
            (λ y h. (next_other y (not_b y h), prev_other y (not_b y h) (not_first y h))) l.linked);
    distinct = l.distinct;
    same_size = λ a h. insert-size_of s b a ∙ l.same_size a h;
  }
    where
      not_b : (y : ℕ) → 0 < occurrences y ys → y ≢ b
      not_b y h e = ne (sym (l.same_size y h) ∙ ap (size_of s) e ∙ same)

      not_first : (y : ℕ) → 0 < occurrences y ys → (head_of s size ≡ 0) ⊎ (y ≢ head_of s size)
      not_first y h = elim (first-there s size xs ok) [
        | inl none ↦ inl none
        | inr size_head ↦ inr (λ e. ne (sym (l.same_size y h) ∙ ap (size_of s) e ∙ size_head))
      ]

cons-distinct :
    (a b : ℕ) (xs : List ℕ)
    → occurrences b xs ≡ 0
    → occurrences a xs ≤ 1
    → occurrences a (b ∷ xs) ≤ 1
cons-distinct a b xs new once = elim (Bool-cases (a == b)) [
  | inl same ↦
      let none = ap (λ k. occurrences k xs) (==→eq a b same) ∙ new in rw (same, none) (omega arith)
  | inr other ↦ rw other (omega (arith, once))
]

cons-size :
    (s : Buddy) (size b : ℕ) (xs : List ℕ)
    → size_of s b ≡ size
    → ((a : ℕ) → 0 < occurrences a xs → size_of s a ≡ size)
    → (a : ℕ) → 0 < occurrences a (b ∷ xs)
    → size_of s a ≡ size
cons-size s size b xs same sizes a h = elim (Bool-cases (a == b)) [
  | inl here ↦ ap (size_of s) (==→eq a b here) ∙ same
  | inr other ↦ sizes a (ground arith)
]

-- A block that is put back is the first on the list of its size, before those that were there, and
-- the lists of the other sizes are as they were.
pub insert_into_free_list_lem :
    (s : Buddy) (size b : ℕ) (xs : List ℕ)
    → IsFreeList s size xs
    → size_of s b ≡ size
    → b ≢ 0
    → occurrences b xs ≡ 0
    → length s.blk_heads ≡ 14
    → size ≤ 13
    → IsFreeList (insert_into_free_list s b) size (b ∷ xs)
      × LeavesOthers s (insert_into_free_list s b) size
insert_into_free_list_lem s size b xs ok same present new heads top = (
  record {
    linked =
        subst
          (λ p.
            Linked (free_next (insert_into_free_list s b)) (free_prev (insert_into_free_list s b)) 0
              p (b ∷ xs))
          (sym (inserted-head s size b same heads))
          (cons-Linked (free_next s) (free_prev s) (free_next (insert_into_free_list s b))
            (free_prev (insert_into_free_list s b)) (head_of s size) b xs present
            (next_self s size b same, prev_self s size b same) (next_other s size b same)
            (λ x ne ne'. prev_other s size b same x ne (inr ne')) (prev_first s size b same) new
            ok.distinct ok.linked);
    distinct = λ a. cons-distinct a b xs new (ok.distinct a);
    same_size = λ a h. insert-size_of s b a ∙ cons-size s size b xs same ok.same_size a h;
  },
  inserted-LeavesOthers s size b same xs ok top,
)
