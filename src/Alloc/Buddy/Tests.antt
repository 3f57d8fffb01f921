-- ===== src/Alloc/Buddy/Tests.antt =====
-- Runs of the lists and sizes of blocks, and their theorems at them.
use raspberry_pi_os.Base.{◌≡◌, refl, arith, false, [], ◌∷◌, replicate, length, some}
use raspberry_pi_os.Alloc.Buddy.{
  Buddy, insert_into_free_list, remove_from_free_list, block_size_for, size_loop, size_to_bytes,
  set_prev_free,
}
use raspberry_pi_os.Alloc.Buddy.Lists.{IsFreeList, LeavesOthers}
use raspberry_pi_os.Alloc.Buddy.Lists.Remove.{remove_from_free_list_lem}
use raspberry_pi_os.Alloc.Buddy.Lists.Insert.{insert_into_free_list_lem}
use raspberry_pi_os.Alloc.Buddy.Sizes.{IsFit, block_size_for_lem}

-- Blocks of the smallest size, none of them on a list yet.
abbrev small_blocks : Buddy
small_blocks = record {
  blk = λ b. record {
    child1 = 0;
    child2 = 0;
    prev_free = 0;
    next_free = 0;
    prev = 0;
    next = 0;
    blk_size = 0;
    allocated = false;
    start_addr = 0;
  };
  blk_heads = replicate 14 0;
  blk_all_head = 0;
}

no_blocks-IsFreeList : IsFreeList small_blocks 0 []
no_blocks-IsFreeList = record {
  linked = refl;
  distinct = λ a. omega arith;
  same_size = λ a h. absurd (omega arith);
}

insert_into_free_list_lem_example :
    IsFreeList (insert_into_free_list small_blocks 64) 0 (64 ∷ [])
    × LeavesOthers small_blocks (insert_into_free_list small_blocks 64) 0
insert_into_free_list_lem_example =
    insert_into_free_list_lem small_blocks 0 64 [] no_blocks-IsFreeList refl (omega arith) refl refl
      (omega arith)

inserted-length : length (insert_into_free_list small_blocks 64).blk_heads ≡ 14
unfolding insert_into_free_list set_prev_free
inserted-length = refl

remove_from_free_list_lem_example :
    IsFreeList (remove_from_free_list (insert_into_free_list small_blocks 64) 64) 0 []
    × LeavesOthers
        (insert_into_free_list small_blocks 64)
        (remove_from_free_list (insert_into_free_list small_blocks 64) 64)
        0
remove_from_free_list_lem_example =
    remove_from_free_list_lem (insert_into_free_list small_blocks 64) 0 64 [] []
      (insert_into_free_list_lem small_blocks 0 64 [] no_blocks-IsFreeList refl (omega arith) refl
        refl (omega arith)).0
      inserted-length (omega arith)

block_size_for_lem_example : IsFit 4096 (block_size_for 100 2)
block_size_for_lem_example = block_size_for_lem 100 2 (omega arith)

page_is_size_3 : block_size_for 100 2 ≡ some 3
unfolding block_size_for size_loop size_to_bytes
page_is_size_3 = refl
