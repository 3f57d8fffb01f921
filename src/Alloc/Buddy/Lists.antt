-- ===== src/Alloc/Buddy/Lists.antt =====
-- The lists of free blocks, and of all blocks, of source/alloc/buddy.c.
pub mod Remove
pub mod Insert
use mathlib.Core.Path.{subst}
use raspberry_pi_os.Base.{
  not, ◌&&◌, ℕ, ◌+◌, ◌-◌, ◌≤◌, ◌<◌, ◌≡◌, ◌≢◌, refl, sym, ap, ap₂, ◌∙◌, arith, Bool, true, false,
  List, [], ◌∷◌, ◌++◌, ◌==◌, if◌then◌else◌, eq→==, ne→==, ◌⊎◌, inl, inr, Bool-cases, ==→eq, ==→ne,
  get_or, set, length, get_or-set_self, get_or-set_ne,
}
use raspberry_pi_os.Alloc.Pool.Chain.{occurrences, occurrences-append, occurrences-head}
use raspberry_pi_os.Alloc.Buddy.{
  MemBlk, Buddy, blk_head_idx, set_prev_free, remove_from_free_list, insert_into_free_list,
  set_prev, remove_from_all_list, insert_into_all_list, write_blk,
}
use raspberry_pi_os.Alloc.Buddy.Links.{
  Linked, Linked-agree, next-in, prev-in, unlink_next, unlink_prev, unlink-Linked, start_of,
}

abbrev pub free_next : Buddy → ℕ → ℕ
free_next s x = (s.blk x).next_free

abbrev pub free_prev : Buddy → ℕ → ℕ
free_prev s x = (s.blk x).prev_free

abbrev pub size_of : Buddy → ℕ → ℕ
size_of s x = (s.blk x).blk_size

pub remove-free_next :
    (s : Buddy) (b x : ℕ)
    → free_next (remove_from_free_list s b) x ≡ unlink_next (free_next s) (free_prev s) b x
unfolding remove_from_free_list set_prev_free
remove-free_next s b x = ground arith

pub remove-free_prev :
    (s : Buddy) (b x : ℕ)
    → free_prev (remove_from_free_list s b) x ≡ unlink_prev (free_next s) (free_prev s) b x
unfolding remove_from_free_list set_prev_free
remove-free_prev s b x = ground arith

pub remove-size_of : (s : Buddy) (b x : ℕ) → size_of (remove_from_free_list s b) x ≡ size_of s x
unfolding remove_from_free_list set_prev_free
remove-size_of s b x = ground arith

-- The free blocks of one size, in the order of their list.
pub record IsFreeList (s : Buddy) (size : ℕ) (xs : List ℕ) : Type 0 where
  pub linked : Linked (free_next s) (free_prev s) 0 (get_or s.blk_heads (blk_head_idx size) 0) xs
  pub distinct : (a : ℕ) → occurrences a xs ≤ 1
  pub same_size : (a : ℕ) → 0 < occurrences a xs → size_of s a ≡ size

pub Linked-nonzero :
    (next prev : ℕ → ℕ) (before p : ℕ) (xs : List ℕ)
    → Linked next prev before p xs
    → occurrences 0 xs ≡ 0
Linked-nonzero next prev before p [] l = refl
Linked-nonzero next prev before p (x ∷ xs) (e, ne, e', l) =
    let rest = Linked-nonzero next prev x (next x) xs l in
    let other = ne→== 0 x (λ z. ne (sym z)) in rw (other, rest) refl

-- Linking one block in front of a list.
pub cons-Linked :
    (next prev next' prev' : ℕ → ℕ) (p b : ℕ) (xs : List ℕ)
    → b ≢ 0
    → (next' b ≡ p) × (prev' b ≡ 0)
    → ((x : ℕ) → x ≢ b → next' x ≡ next x)
    → ((x : ℕ) → x ≢ b → x ≢ p → prev' x ≡ prev x)
    → (p ≢ 0 → p ≢ b → prev' p ≡ b)
    → occurrences b xs ≡ 0
    → ((a : ℕ) → occurrences a xs ≤ 1)
    → Linked next prev 0 p xs
    → Linked next' prev' 0 b (b ∷ xs)
cons-Linked next prev next' prev' p b [] present (n, q) kept_next kept_prev first new once l =
    (refl, present, q, n ∙ l)
cons-Linked next prev next' prev' p b (x ∷ xs) present (n, q) kept_next kept_prev first new once
      (e, ne, e', l) =
    let x_other : x ≢ b = λ z. omega (arith, new, occurrences-head b x xs (sym z)) in
    let at_x =
      subst (λ z. prev' z ≡ b) e (first (λ z. ne (sym e ∙ z)) (λ z. x_other (sym e ∙ z))) in
    let not_b : (y : ℕ) → 0 < occurrences y xs → y ≢ b =
      λ y h z. let there = subst (λ k. 0 < occurrences k xs) z h in omega (arith, new) in
    let not_p : (y : ℕ) → 0 < occurrences y xs → y ≢ p = λ y h z.
      let there = subst (λ k. 0 < occurrences k xs) (z ∙ e) h in
      omega (arith, once x, occurrences-head x x xs refl) in
    let rest =
      subst (λ z. Linked next' prev' x z xs) (sym (kept_next x x_other))
        (Linked-agree next prev next' prev' x (next x) xs
          (λ y h. (kept_next y (not_b y h), kept_prev y (not_b y h) (not_p y h))) l) in
    (refl, present, q, (n ∙ e, ne, at_x, rest))

pub insert-free_next :
    (s : Buddy) (b x : ℕ)
    → free_next (insert_into_free_list s b) x
      ≡ (if x == b then get_or s.blk_heads (blk_head_idx (size_of s b)) 0 else free_next s x)
unfolding insert_into_free_list set_prev_free
insert-free_next s b x = ground arith

pub insert-free_prev :
    (s : Buddy) (b x : ℕ)
    → let head = get_or s.blk_heads (blk_head_idx (size_of s b)) 0 in
      free_prev (insert_into_free_list s b) x
      ≡ (if x == b then 0 else if not (head == 0) && (x == head) then b else free_prev s x)
unfolding insert_into_free_list set_prev_free
insert-free_prev s b x = ground arith

pub insert-size_of : (s : Buddy) (b x : ℕ) → size_of (insert_into_free_list s b) x ≡ size_of s x
unfolding insert_into_free_list set_prev_free
insert-size_of s b x = ground arith

-- What both operations leave of the lists of the other sizes: they do not touch their blocks.
abbrev pub LeavesOthers : Buddy → Buddy → ℕ → Type 0
LeavesOthers s after size =
    (other : ℕ) (ys : List ℕ)
    → other ≤ 13
    → other ≢ size
    → IsFreeList s other ys
    → IsFreeList after other ys

set_prev_free-heads :
    (next prev : ℕ) (s : Buddy) → (set_prev_free next prev s).blk_heads ≡ s.blk_heads
unfolding set_prev_free
set_prev_free-heads next prev s = elim (Bool-cases (next == 0)) [
  | inl none ↦ rw none refl
  | inr some_next ↦ rw some_next refl
]

set_prev_free-size_of :
    (next prev : ℕ) (s : Buddy) (x : ℕ) → size_of (set_prev_free next prev s) x ≡ size_of s x
unfolding set_prev_free
set_prev_free-size_of next prev s x = ground arith

pub removed-heads :
    (s : Buddy) (b : ℕ)
    → (remove_from_free_list s b).blk_heads ≡ (
        if free_prev s b == 0
        then set s.blk_heads (blk_head_idx (size_of s b)) (free_next s b)
        else s.blk_heads)
unfolding remove_from_free_list
removed-heads s b =
    let heads = set_prev_free-heads (free_next s b) (free_prev s b) s in
    let size = set_prev_free-size_of (free_next s b) (free_prev s b) s b in
    elim (Bool-cases (free_prev s b == 0)) [
      | inl first ↦ rw first (ap₂ (λ hs k. set hs (blk_head_idx k) (free_next s b)) heads size)
      | inr later ↦ rw later heads
    ]

pub inserted-heads :
    (s : Buddy) (b : ℕ)
    → (insert_into_free_list s b).blk_heads ≡ set s.blk_heads (blk_head_idx (size_of s b)) b
unfolding insert_into_free_list
inserted-heads s b =
    let idx = blk_head_idx (size_of s b) in
    ap (λ hs. set hs idx b) (set_prev_free-heads (get_or s.blk_heads idx 0) b s)
