-- ===== src/Process/Scheduler/Choice.antt =====
-- Which process source/process/scheduler.c chooses, and which it destroys.
use mathlib.Core.Path.{subst}
use raspberry_pi_os.Base.{
  ℕ, ◌≡◌, ◌≢◌, refl, sym, ap, ◌∙◌, Option, none, some, List, [], ◌∷◌, ◌++◌, ◌==◌, if◌then◌else◌,
  Bool-cases, inl, inr, ne→==, eq→==,
}
use mathlib.Core.List.{append_assoc}
use raspberry_pi_os.Process.Structs.{Process}
use raspberry_pi_os.Process.Scheduler.{
  Processes, Scan, switched, panicked, unlink_process, switch_to_process, scan,
  switch_to_next_process, behind, resume_scan,
}

abbrev pub first_waiting : List Process → Option ℕ
first_waiting [] = none
first_waiting (p ∷ ps) = let rest = first_waiting ps in if p.state == 2 then some p.ptr else rest

-- The list without the terminated processes in front of the first one that waits.
abbrev pub reap : List Process → List Process
reap [] = []
reap (p ∷ ps) =
    let rest = reap ps in if p.state == 2 then p ∷ ps else if p.state == 3 then rest else p ∷ rest

abbrev pub choice : (new_state : ℕ) → Processes → Option ℕ → Scan
choice new_state s (some p) = switched p (switch_to_process s p new_state)
choice new_state s none = panicked s

-- No process has this address.
abbrev pub IsAbsent : ℕ → List Process → Type 0
IsAbsent ptr [] = Unit {0}
IsAbsent ptr (p ∷ ps) = (p.ptr ≢ ptr) × IsAbsent ptr ps

abbrev pub AreDistinct : List Process → Type 0
AreDistinct [] = Unit {0}
AreDistinct (p ∷ ps) = IsAbsent p.ptr ps × AreDistinct ps

head-differs :
    (ptr : ℕ) (p : Process) (front back : List Process)
    → IsAbsent ptr (front ++ (p ∷ back))
    → ptr ≢ p.ptr
head-differs ptr p [] back h e = h.0 (sym e)
head-differs ptr p (k ∷ front) back h e = head-differs ptr p front back h.1 e

rest-IsAbsent :
    (ptr : ℕ) (p : Process) (front back : List Process)
    → IsAbsent ptr (front ++ (p ∷ back))
    → IsAbsent ptr (front ++ back)
rest-IsAbsent ptr p [] back h = h.1
rest-IsAbsent ptr p (k ∷ front) back h = (h.0, rest-IsAbsent ptr p front back h.1)

unlink_process_lem :
    (p : Process) (kept rest : List Process)
    → AreDistinct (kept ++ (p ∷ rest))
    → (unlink_process p.ptr (kept ++ (p ∷ rest)) ≡ kept ++ rest) × AreDistinct (kept ++ rest)
unfolding unlink_process
unlink_process_lem p [] rest d = (rw (eq→== p.ptr p.ptr refl) refl, d.1)
unlink_process_lem p (k ∷ kept) rest d =
    let (e, d') = unlink_process_lem p kept rest d.1 in
    let other : k.ptr ≢ p.ptr = head-differs k.ptr p kept rest d.0 in
    (rw (ne→== k.ptr p.ptr other) (ap (λ ps. k ∷ ps) e), (rest-IsAbsent k.ptr p kept rest d.0, d'))

-- A process that is passed over stands with those that are kept.
moved :
    (new_state current : ℕ) (kept : List Process) (p : Process) (ps : List Process)
    → scan new_state
        (record { kernel_curr_process = current; process_list = (kept ++ (p ∷ [])) ++ ps })
        ps
      ≡ choice new_state
          (record { kernel_curr_process = current; process_list = (kept ++ (p ∷ [])) ++ reap ps })
          (first_waiting ps)
    → scan new_state (record { kernel_curr_process = current; process_list = kept ++ (p ∷ ps) }) ps
      ≡ choice new_state
          (record { kernel_curr_process = current; process_list = kept ++ (p ∷ reap ps) })
          (first_waiting ps)
moved new_state current kept p ps h =
    let list : List Process → Processes =
      λ l. record { kernel_curr_process = current; process_list = l } in
    ap (λ l. scan new_state (list l) ps) (sym (append_assoc kept (p ∷ []) ps))
    ∙ h
    ∙ ap (λ l. choice new_state (list l) (first_waiting ps)) (append_assoc kept (p ∷ []) (reap ps))

scan_lem :
    (new_state current : ℕ) (kept ps : List Process)
    → AreDistinct (kept ++ ps)
    → scan new_state (record { kernel_curr_process = current; process_list = kept ++ ps }) ps
      ≡ choice new_state
          (record { kernel_curr_process = current; process_list = kept ++ reap ps })
          (first_waiting ps)
unfolding scan
scan_lem new_state current kept [] d = refl
scan_lem new_state current kept (p ∷ ps) d = elim (Bool-cases (p.state == 2)) [
  | inl waiting ↦ rw waiting refl
  | inr busy ↦ elim (Bool-cases (p.state == 3)) [
    | inl terminated ↦
        rw (busy, terminated)
          (let (e, d') = unlink_process_lem p kept ps d in
            ap
              (λ list.
                scan new_state (record { kernel_curr_process = current; process_list = list }) ps)
              e
            ∙ scan_lem new_state current kept ps d')
    | inr other ↦
        rw (busy, other)
          (moved new_state current kept p ps (
            scan_lem new_state current (kept ++ (p ∷ [])) ps
              (subst AreDistinct (sym (append_assoc kept (p ∷ []) ps)) d)))
  ]
]

behind_lem :
    (p : Process) (front back : List Process)
    → AreDistinct (front ++ (p ∷ back))
    → behind p.ptr (front ++ (p ∷ back)) ≡ back
unfolding behind
behind_lem p [] back d = rw (eq→== p.ptr p.ptr refl) refl
behind_lem p (k ∷ front) back d =
    rw (ne→== k.ptr p.ptr (head-differs k.ptr p front back d.0)) (behind_lem p front back d.1)

-- When no two processes share a structure: the first process in the list that waits is switched to, and
-- there is a panic when none waits; the terminated processes that the loop meets before are taken out
-- of the list, and all others stay in it in their order.
pub switch_to_next_process_lem :
    (s : Processes) (new_state : ℕ)
    → AreDistinct s.process_list
    → switch_to_next_process s new_state
      ≡ choice new_state
          (record s { process_list = reap s.process_list })
          (first_waiting s.process_list)
unfolding switch_to_next_process
switch_to_next_process_lem s new_state d =
    scan_lem new_state s.kernel_curr_process [] s.process_list d

pub resume_scan_lem :
    (current new_state : ℕ) (p : Process) (front back : List Process)
    → AreDistinct (front ++ (p ∷ back))
    → resume_scan
        (record { kernel_curr_process = current; process_list = front ++ (p ∷ back) })
        p.ptr
        new_state
      ≡ choice new_state
          (record { kernel_curr_process = current; process_list = front ++ (p ∷ reap back) })
          (first_waiting back)
unfolding resume_scan
resume_scan_lem current new_state p front back d =
    let list : List Process → Processes =
      λ l. record { kernel_curr_process = current; process_list = l } in
    let moved_to = append_assoc front (p ∷ []) in
    ap (scan new_state (list (front ++ (p ∷ back)))) (behind_lem p front back d)
    ∙ moved new_state current front p back (
        scan_lem new_state current (front ++ (p ∷ [])) back
          (subst AreDistinct (sym (moved_to back)) d))

-- When no two processes share a structure: a call switches to the first process of the list that waits,
-- and panics when none waits; when the caller is switched to again, its loop does not end, but switches
-- to the first waiting process behind the one that it had switched to, if that is still in the list, and
-- panics when none behind it waits. Terminated processes that a run meets before are taken out of the
-- list, and all others stay in it in their order.
pub switch_to_next_process-resume_scan :
    (s : Processes) (new_state current : ℕ) (p : Process) (front back : List Process)
    → AreDistinct s.process_list
    → AreDistinct (front ++ (p ∷ back))
    → (switch_to_next_process s new_state
        ≡ choice new_state
            (record s { process_list = reap s.process_list })
            (first_waiting s.process_list))
      × (resume_scan
            (record { kernel_curr_process = current; process_list = front ++ (p ∷ back) })
            p.ptr
            new_state
          ≡ choice new_state
              (record { kernel_curr_process = current; process_list = front ++ (p ∷ reap back) })
              (first_waiting back))
switch_to_next_process-resume_scan s new_state current p front back d d' =
    (switch_to_next_process_lem s new_state d, resume_scan_lem current new_state p front back d')
