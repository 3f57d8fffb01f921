-- ===== src/Alloc/Buddy/Blocks/AllList.antt =====
-- What leaves the free lists of source/alloc/buddy.c as they are: the list of all blocks, and the links
-- to the children.
use raspberry_pi_os.Base.{ℕ, ◌≡◌, refl, arith, List, ◌==◌, Bool-cases, inl, inr}
use raspberry_pi_os.Alloc.Buddy.{Buddy, set_prev, insert_into_all_list, remove_from_all_list}
use raspberry_pi_os.Alloc.Buddy.Lists.{size_of, free_next, free_prev}
use raspberry_pi_os.Alloc.Buddy.Blocks.{update_blk, set_children}
use raspberry_pi_os.Alloc.Buddy.Blocks.FreeLists.{AreFree, AreFree-agree}

insert_all-free_next :
    (s : Buddy) (b x : ℕ) → free_next (insert_into_all_list s b) x ≡ free_next s x
unfolding insert_into_all_list set_prev
insert_all-free_next s b x = ground arith

insert_all-free_prev :
    (s : Buddy) (b x : ℕ) → free_prev (insert_into_all_list s b) x ≡ free_prev s x
unfolding insert_into_all_list set_prev
insert_all-free_prev s b x = ground arith

pub insert_all-size_of : (s : Buddy) (b x : ℕ) → size_of (insert_into_all_list s b) x ≡ size_of s x
unfolding insert_into_all_list set_prev
insert_all-size_of s b x = ground arith

pub insert_all-allocated :
    (s : Buddy) (b x : ℕ) → ((insert_into_all_list s b).blk x).allocated ≡ (s.blk x).allocated
unfolding insert_into_all_list set_prev
insert_all-allocated s b x = ground arith

insert_all-heads : (s : Buddy) (b : ℕ) → (insert_into_all_list s b).blk_heads ≡ s.blk_heads
unfolding insert_into_all_list set_prev
insert_all-heads s b = elim (Bool-cases (s.blk_all_head == 0)) [
  | inl none ↦ rw none refl
  | inr some ↦ rw some refl
]

pub insert_all-AreFree :
    (s : Buddy) (free : ℕ → List ℕ) (b : ℕ)
    → AreFree s free
    → AreFree (insert_into_all_list s b) free
insert_all-AreFree s free b ok =
    AreFree-agree s (insert_into_all_list s b) free ok (insert_all-heads s b) (λ size a top h. (
      insert_all-free_next s b a,
      insert_all-free_prev s b a,
      insert_all-size_of s b a,
      insert_all-allocated s b a,
    ))

remove_all-free_next :
    (s : Buddy) (b x : ℕ) → free_next (remove_from_all_list s b) x ≡ free_next s x
unfolding remove_from_all_list set_prev
remove_all-free_next s b x = ground arith

remove_all-free_prev :
    (s : Buddy) (b x : ℕ) → free_prev (remove_from_all_list s b) x ≡ free_prev s x
unfolding remove_from_all_list set_prev
remove_all-free_prev s b x = ground arith

remove_all-size_of : (s : Buddy) (b x : ℕ) → size_of (remove_from_all_list s b) x ≡ size_of s x
unfolding remove_from_all_list set_prev
remove_all-size_of s b x = ground arith

remove_all-allocated :
    (s : Buddy) (b x : ℕ) → ((remove_from_all_list s b).blk x).allocated ≡ (s.blk x).allocated
unfolding remove_from_all_list set_prev
remove_all-allocated s b x = ground arith

set_prev-heads : (next prev : ℕ) (s : Buddy) → (set_prev next prev s).blk_heads ≡ s.blk_heads
unfolding set_prev
set_prev-heads next prev s = elim (Bool-cases (next == 0)) [
  | inl here ↦ rw here refl
  | inr other ↦ rw other refl
]

remove_all-heads : (s : Buddy) (b : ℕ) → (remove_from_all_list s b).blk_heads ≡ s.blk_heads
unfolding remove_from_all_list
remove_all-heads s b = elim (Bool-cases ((s.blk b).prev == 0)) [
  | inl first ↦ rw first (set_prev-heads (s.blk b).next (s.blk b).prev s)
  | inr later ↦ rw later (set_prev-heads (s.blk b).next (s.blk b).prev s)
]

pub remove_all-AreFree :
    (s : Buddy) (free : ℕ → List ℕ) (b : ℕ)
    → AreFree s free
    → AreFree (remove_from_all_list s b) free
remove_all-AreFree s free b ok =
    AreFree-agree s (remove_from_all_list s b) free ok (remove_all-heads s b) (λ size a top h. (
      remove_all-free_next s b a,
      remove_all-free_prev s b a,
      remove_all-size_of s b a,
      remove_all-allocated s b a,
    ))

-- The links to the children do not matter.
child-fields :
    (s : Buddy) (b c1 c2 a : ℕ)
    → let s' = update_blk s b (set_children c1 c2 (s.blk b)) in
      (free_next s' a ≡ free_next s a)
      × (free_prev s' a ≡ free_prev s a)
      × (size_of s' a ≡ size_of s a)
      × ((s'.blk a).allocated ≡ (s.blk a).allocated)
unfolding update_blk
child-fields s b c1 c2 a = (ground arith, ground arith, ground arith, ground arith)

pub children-AreFree :
    (s : Buddy) (free : ℕ → List ℕ) (b c1 c2 : ℕ)
    → AreFree s free
    → AreFree (update_blk s b (set_children c1 c2 (s.blk b))) free
unfolding update_blk
children-AreFree s free b c1 c2 ok =
    AreFree-agree s (update_blk s b (set_children c1 c2 (s.blk b))) free ok refl
      (λ size a top h. child-fields s b c1 c2 a)
