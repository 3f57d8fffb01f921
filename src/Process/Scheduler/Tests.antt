-- ===== src/Process/Scheduler/Tests.antt =====
-- Runs of the scheduler, and its theorems at them.
use raspberry_pi_os.Base.{ℕ, ◌≡◌, refl, arith, [], ◌∷◌, some}
use raspberry_pi_os.Process.Structs.{Process, a_process}
use raspberry_pi_os.Process.Scheduler.{
  Processes, switch_to_next_process, switch_to_process, yield, scan, switched, panicked,
  resume_scan, set_state, unlink_process,
}
use raspberry_pi_os.Process.Scheduler.Running.{RunsOne, switch_to_next_process-RunsOne}
use raspberry_pi_os.Process.Scheduler.Choice.{
  choice, AreDistinct, switch_to_next_process-resume_scan,
}

abbrev process : (ptr state : ℕ) → Process
process ptr state = record a_process { ptr = ptr; pid = ptr; state = state }

-- One process runs, one has ended, and one waits.
abbrev three : Processes
three = record {
  kernel_curr_process = 10;
  process_list = process 10 1 ∷ process 20 3 ∷ process 30 2 ∷ [];
}

three-AreDistinct : AreDistinct three.process_list
three-AreDistinct = ((omega arith, (omega arith, tt)), ((omega arith, tt), (tt, tt)))

-- Process 10 yields to 30, and when 30 yields, the loop of 10 goes on behind 30, where none waits.
switch_to_next_process-resume_scan_example :
    (switch_to_next_process three 2
      ≡ choice 2 (record three { process_list = process 10 1 ∷ process 30 2 ∷ [] }) (some 30))
    × (resume_scan
          (record { kernel_curr_process = 10; process_list = process 10 1 ∷ process 30 2 ∷ [] })
          30
          2
        ≡ panicked
            (record { kernel_curr_process = 10; process_list = process 10 1 ∷ process 30 2 ∷ [] }))
switch_to_next_process-resume_scan_example =
    switch_to_next_process-resume_scan three 2 10 (process 30 2) (process 10 1 ∷ []) []
      three-AreDistinct ((omega arith, tt), (tt, tt))

-- Three processes of which the first has been switched to again, after it had switched to the second.
switch_to_next_process-RunsOne_example :
    RunsOne 10 (switch_to_next_process three 2)
    × RunsOne 10 (
        resume_scan
          (record {
            kernel_curr_process = 10;
            process_list = process 10 1 ∷ process 20 2 ∷ process 30 2 ∷ [];
          })
          20
          2)
switch_to_next_process-RunsOne_example =
    switch_to_next_process-RunsOne three 2 10 (process 20 2) (process 10 1 ∷ []) (process 30 2 ∷ [])
      three-AreDistinct three-AreDistinct (omega arith)
      (λ e. refl, (λ e. absurd (omega arith), (λ e. absurd (omega arith), tt)))
      (λ e. refl, (λ e. absurd (omega arith), (λ e. absurd (omega arith), tt)))

yields_to_30 :
    yield three
    ≡ switched 30
        (record { kernel_curr_process = 30; process_list = process 10 2 ∷ process 30 1 ∷ [] })
unfolding yield switch_to_next_process scan switch_to_process set_state unlink_process
yields_to_30 = refl
