-- ===== src/Monoterm/Commands/Tests.antt =====
-- A table of two commands, and the theorem on a line at it.
use raspberry_pi_os.Base.{some, ℕ, ◌+◌, ◌≡◌, ap, arith, [], ◌∷◌, length, get_or}
use raspberry_pi_os.Alloc.Heap.{Heap, kmalloc, grant}
use raspberry_pi_os.Monoterm.Commands.{MonotermCmd, process_input}
use raspberry_pi_os.Monoterm.Commands.Words.{process_input_lem}

-- `ps`, and `ls`, which count their calls; the result is the number of words.
abbrev ps : MonotermCmd ℕ
ps = record { cmd = 112 ∷ 115 ∷ []; cmd_func = λ args s. (0, s.0, s.1 + 1) }

abbrev ls : MonotermCmd ℕ
ls = record { cmd = 108 ∷ 115 ∷ []; cmd_func = λ args s. (length args, s.0, s.1 + 10) }

abbrev heap : Heap
heap = record { grants = 0x10 ∷ 0x20 ∷ 0x30 ∷ []; live = []; bad_frees = [] }

process_input_lem_example :
    process_input (ps ∷ ls ∷ []) (108 ∷ 115 ∷ 32 ∷ 47 ∷ 32 ∷ []) heap 5
    ≡ some (2, record { grants = 0x30 ∷ []; live = 0x20 ∷ 0x10 ∷ []; bad_frees = [] }, 15)
unfolding kmalloc grant
process_input_lem_example =
    process_input_lem (ps ∷ []) [] ls ((47 ∷ []) ∷ []) heap 5
      (
        (λ e. absurd (omega (arith, ap length e))),
        (λ e. absurd (omega (arith, ap (λ l. get_or l 0 0) e))),
        omega arith,
      )
      (
        omega arith,
        (λ e. absurd (omega (arith, e)), (λ e. absurd (omega (arith, e)), omega arith)),
        (omega arith, (λ e. absurd (omega (arith, e)), omega arith), omega arith),
      )
      (omega arith) (omega arith)
