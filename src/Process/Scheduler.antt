-- ===== src/Process/Scheduler.antt =====
-- source/process/scheduler.c, and the parts of source/process/process.c that it uses: the list of
-- processes, newest first, and the process that runs. The mappings and the registers that a switch
-- exchanges are left out, and of `destroy_process` the list is modelled: Process.Lifecycle has the rest,
-- the panic at a mapping that cannot be removed included. The code reads the link to
-- the next process after it has freed the structure that holds it: here the link is as it was.
-- `switch_to_process` returns when the process that gave up the processor is switched to again, and then
-- the loop goes on behind the process that it had switched to: a run of the loop ends at a switch, and
-- `resume_scan` is the run after it.
pub mod Choice
pub mod Running
mod Tests
use raspberry_pi_os.Process.Structs.{Process}
use raspberry_pi_os.Base.{
  ℕ, Bool, true, false, Option, none, some, List, [], ◌∷◌, map, ◌==◌, if◌then◌else◌,
}

abbrev pub process_state_running : ℕ
process_state_running = 1

abbrev pub process_state_waiting : ℕ
process_state_waiting = 2

abbrev pub process_state_terminated : ℕ
process_state_terminated = 3

pub record Processes : Type 0 where
  pub kernel_curr_process : ℕ
  pub process_list : List Process

-- The end of `destroy_process`: the process is taken out of the list.
unfoldable pub unlink_process : ℕ → List Process → List Process
unlink_process p [] = []
unlink_process p (i ∷ rest) =
    let later = unlink_process p rest in if i.ptr == p then rest else i ∷ later

unfoldable pub set_state : (p new_state : ℕ) → List Process → List Process
set_state p new_state [] = []
set_state p new_state (i ∷ rest) =
    (if i.ptr == p then record i { state = new_state } else i) ∷ set_state p new_state rest

unfoldable pub switch_to_process : Processes → (p new_state : ℕ) → Processes
unfolding set_state
switch_to_process s p new_state = record {
  kernel_curr_process = p;
  process_list =
      set_state p process_state_running (set_state s.kernel_curr_process new_state s.process_list);
}

-- A run of the loop over the processes ends in a switch to a process, at which it goes on later, or in a
-- panic.
pub data Scan : Type 0 where
  switched : (at : ℕ) → Processes → Scan
  panicked : Processes → Scan

-- The loop from some process of the list on.
unfoldable pub scan : (new_state : ℕ) → Processes → List Process → Scan
unfolding switch_to_process unlink_process
scan new_state s [] = panicked s
scan new_state s (p ∷ rest) =
    let after_destroy =
      scan new_state (record s { process_list = unlink_process p.ptr s.process_list }) rest in
    let next = scan new_state s rest in
    if p.state == process_state_waiting
    then switched p.ptr (switch_to_process s p.ptr new_state)
    else if p.state == process_state_terminated
    then after_destroy
    else next

unfoldable pub switch_to_next_process : Processes → (new_state : ℕ) → Scan
unfolding scan
switch_to_next_process s new_state = scan new_state s s.process_list

-- The processes that are linked behind one.
unfoldable pub behind : ℕ → List Process → List Process
behind p [] = []
behind p (i ∷ rest) = let later = behind p rest in if i.ptr == p then rest else later

-- The loop goes on when `switch_to_process` returns, with the processes as they are by then.
unfoldable pub resume_scan : Processes → (at new_state : ℕ) → Scan
unfolding scan behind
resume_scan s at new_state = scan new_state s (behind at s.process_list)

unfoldable pub yield : Processes → Scan
unfolding switch_to_next_process
yield s = switch_to_next_process s process_state_waiting
