-- ===== src/Process/Scheduler/Running.antt =====
-- At most one process runs, in source/process/scheduler.c.
use mathlib.Core.Path.{subst}
use mathlib.Core.Option.{none-ne-some, some-injective}
use raspberry_pi_os.Base.{
  ◌++◌, ℕ, ◌≤◌, ◌≡◌, ◌≢◌, refl, sym, ◌⊎◌, Option, none, some, List, [], ◌∷◌, ◌==◌, Bool-cases, inl,
  inr, eq→==, ==→eq, ==→ne,
}
use raspberry_pi_os.Process.Structs.{Process}
use raspberry_pi_os.Process.Scheduler.{
  Processes, Scan, switched, panicked, set_state, switch_to_process, switch_to_next_process,
  resume_scan,
}
use raspberry_pi_os.Process.Scheduler.Choice.{
  first_waiting, reap, choice, AreDistinct, switch_to_next_process_lem, resume_scan_lem,
}

-- Every process in the state `running` is the given one.
abbrev pub OnlyRunning : ℕ → List Process → Type 0
OnlyRunning current [] = Unit {0}
OnlyRunning current (p ∷ ps) = (p.state ≡ 1 → p.ptr ≡ current) × OnlyRunning current ps

abbrev NoneRunning : List Process → Type 0
NoneRunning [] = Unit {0}
NoneRunning (p ∷ ps) = (p.state ≢ 1) × NoneRunning ps

stopped-NoneRunning :
    (current new_state : ℕ) (ps : List Process)
    → new_state ≢ 1
    → OnlyRunning current ps
    → NoneRunning (set_state current new_state ps)
unfolding set_state
stopped-NoneRunning current new_state [] ne h = tt
stopped-NoneRunning current new_state (p ∷ ps) ne h = elim (Bool-cases (p.ptr == current)) [
  | inl here ↦ rw here (ne, stopped-NoneRunning current new_state ps ne h.1)
  | inr other ↦ rw other (
    λ running. ==→ne p.ptr current other (h.0 running),
    stopped-NoneRunning current new_state ps ne h.1,
  )
]

started-OnlyRunning :
    (next : ℕ) (ps : List Process) → NoneRunning ps → OnlyRunning next (set_state next 1 ps)
unfolding set_state
started-OnlyRunning next [] h = tt
started-OnlyRunning next (p ∷ ps) h = elim (Bool-cases (p.ptr == next)) [
  | inl here ↦ rw here (λ e. ==→eq p.ptr next here, started-OnlyRunning next ps h.1)
  | inr other ↦ rw other (λ running. absurd (h.0 running), started-OnlyRunning next ps h.1)
]

switched-OnlyRunning :
    (current next new_state : ℕ) (ps : List Process)
    → new_state ≢ 1
    → OnlyRunning current ps
    → OnlyRunning next (set_state next 1 (set_state current new_state ps))
switched-OnlyRunning current next new_state ps ne h =
    started-OnlyRunning next (set_state current new_state ps)
      (stopped-NoneRunning current new_state ps ne h)

abbrev pub IsRunning : Processes → Type 0
IsRunning s = OnlyRunning s.kernel_curr_process s.process_list

-- A process of the list is at an address, and its state is `running`.
abbrev pub HasRunning : ℕ → List Process → Type 0
HasRunning ptr [] = 1 ≤ 0
HasRunning ptr (p ∷ ps) = ((p.ptr ≡ ptr) × (p.state ≡ 1)) ⊎ HasRunning ptr ps

abbrev HasProcess : ℕ → List Process → Type 0
HasProcess ptr [] = 1 ≤ 0
HasProcess ptr (p ∷ ps) = (p.ptr ≡ ptr) ⊎ HasProcess ptr ps

first_waiting-HasProcess :
    (ps : List Process) (ptr : ℕ) → first_waiting ps ≡ some ptr → HasProcess ptr (reap ps)
first_waiting-HasProcess [] ptr e = absurd (none-ne-some ptr e)
first_waiting-HasProcess (p ∷ ps) ptr e = elim (Bool-cases (p.state == 2)) [
  | inl waiting ↦
      let same : some p.ptr ≡ some ptr = rw waiting at e in
      rw waiting (inl (some-injective p.ptr ptr same))
  | inr busy ↦
      let later : first_waiting ps ≡ some ptr = rw busy at e in
      let found = first_waiting-HasProcess ps ptr later in
      elim (Bool-cases (p.state == 3)) [
        | inl terminated ↦ rw (busy, terminated) found
        | inr other ↦ rw (busy, other) (inr found)
      ]
]

reap-OnlyRunning :
    (current : ℕ) (ps : List Process) → OnlyRunning current ps → OnlyRunning current (reap ps)
reap-OnlyRunning current [] h = tt
reap-OnlyRunning current (p ∷ ps) h = elim (Bool-cases (p.state == 2)) [
  | inl waiting ↦ rw waiting h
  | inr busy ↦ elim (Bool-cases (p.state == 3)) [
    | inl terminated ↦ rw (busy, terminated) (reap-OnlyRunning current ps h.1)
    | inr other ↦ rw (busy, other) (h.0, reap-OnlyRunning current ps h.1)
  ]
]

set_state-HasProcess :
    (ptr p new_state : ℕ) (ps : List Process)
    → HasProcess ptr ps
    → HasProcess ptr (set_state p new_state ps)
unfolding set_state
set_state-HasProcess ptr p new_state [] h = h
set_state-HasProcess ptr p new_state (i ∷ ps) (inl here) = elim (Bool-cases (i.ptr == p)) [
  | inl same ↦ rw same (inl here)
  | inr other ↦ rw other (inl here)
]
set_state-HasProcess ptr p new_state (i ∷ ps) (inr later) =
    inr (set_state-HasProcess ptr p new_state ps later)

set_state-HasRunning :
    (ptr : ℕ) (ps : List Process) → HasProcess ptr ps → HasRunning ptr (set_state ptr 1 ps)
unfolding set_state
set_state-HasRunning ptr [] h = h
set_state-HasRunning ptr (i ∷ ps) (inl here) = rw (eq→== i.ptr ptr here) (inl (here, refl))
set_state-HasRunning ptr (i ∷ ps) (inr later) = inr (set_state-HasRunning ptr ps later)

-- After a switch the process that was switched to is the current one and runs, and no other does;
-- before a panic the current process is the same as before.
abbrev pub RunsOne : (current : ℕ) → Scan → Type 0
RunsOne current (switched at s) =
    (s.kernel_curr_process ≡ at) × HasRunning at s.process_list × IsRunning s
RunsOne current (panicked s) = (s.kernel_curr_process ≡ current) × IsRunning s

choice-RunsOne :
    (new_state : ℕ) (s : Processes) (next : Option ℕ)
    → new_state ≢ 1
    → IsRunning s
    → ((p : ℕ) → next ≡ some p → HasProcess p s.process_list)
    → RunsOne s.kernel_curr_process (choice new_state s next)
unfolding switch_to_process
choice-RunsOne new_state s none ne h found = (refl, h)
choice-RunsOne new_state s (some p) ne h found = (
  refl,
  set_state-HasRunning p (set_state s.kernel_curr_process new_state s.process_list)
      (set_state-HasProcess p s.kernel_curr_process new_state s.process_list (found p refl)),
  switched-OnlyRunning s.kernel_curr_process p new_state s.process_list ne h,
)

reap-OnlyRunning-append :
    (current : ℕ) (p : Process) (front back : List Process)
    → OnlyRunning current (front ++ (p ∷ back))
    → OnlyRunning current (front ++ (p ∷ reap back))
reap-OnlyRunning-append current p [] back h = (h.0, reap-OnlyRunning current back h.1)
reap-OnlyRunning-append current p (k ∷ front) back h =
    (h.0, reap-OnlyRunning-append current p front back h.1)

append-HasProcess :
    (ptr : ℕ) (p : Process) (front back : List Process)
    → HasProcess ptr back
    → HasProcess ptr (front ++ (p ∷ back))
append-HasProcess ptr p [] back h = inr h
append-HasProcess ptr p (k ∷ front) back h = inr (append-HasProcess ptr p front back h)

resume_scan-RunsOne :
    (current new_state : ℕ) (p : Process) (front back : List Process)
    → AreDistinct (front ++ (p ∷ back))
    → new_state ≢ 1
    → OnlyRunning current (front ++ (p ∷ back))
    → RunsOne current (
        resume_scan
          (record { kernel_curr_process = current; process_list = front ++ (p ∷ back) })
          p.ptr
          new_state)
resume_scan-RunsOne current new_state p front back distinct ne h =
    let left : Processes = record {
      kernel_curr_process = current;
      process_list = front ++ (p ∷ reap back);
    } in
    subst (RunsOne current) (sym (resume_scan_lem current new_state p front back distinct)) (
      choice-RunsOne new_state left (first_waiting back) ne
        (reap-OnlyRunning-append current p front back h)
        (λ next e.
          append-HasProcess next p front (reap back) (first_waiting-HasProcess back next e)))

-- When no two processes share a structure and none but the current one is in the state `running`, and the
-- caller is not told to go on running: after a switch the current process is the one that was switched
-- to, it is in the list and runs, and no other process does; before a panic the current process has not
-- changed and still no other runs. The same holds when the caller is switched to again and its loop goes
-- on, if the process that it had switched to is still in the list.
pub switch_to_next_process-RunsOne :
    (s : Processes) (new_state current : ℕ) (p : Process) (front back : List Process)
    → AreDistinct s.process_list
    → AreDistinct (front ++ (p ∷ back))
    → new_state ≢ 1
    → IsRunning s
    → OnlyRunning current (front ++ (p ∷ back))
    → RunsOne s.kernel_curr_process (switch_to_next_process s new_state)
      × RunsOne current (
          resume_scan
            (record { kernel_curr_process = current; process_list = front ++ (p ∷ back) })
            p.ptr
            new_state)
switch_to_next_process-RunsOne s new_state current p front back distinct distinct' ne h h' = (
  subst (RunsOne s.kernel_curr_process) (sym (switch_to_next_process_lem s new_state distinct)) (
      choice-RunsOne new_state (record s { process_list = reap s.process_list })
        (first_waiting s.process_list) ne (reap-OnlyRunning s.kernel_curr_process s.process_list h)
        (first_waiting-HasProcess s.process_list)),
  resume_scan-RunsOne current new_state p front back distinct' ne h',
)
