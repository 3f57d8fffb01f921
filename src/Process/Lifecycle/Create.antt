-- ===== src/Process/Lifecycle/Create.antt =====
-- What `allocate_process` of source/process/process.c leaves behind.
use raspberry_pi_os.Base.{
  ◌≤◌, ℕ, ◌+◌, ◌%◌, ◌^◌, ◌<◌, ◌≡◌, refl, ap, ◌∙◌, arith, Option, none, some, List, [], ◌∷◌, ◌++◌,
  ◌==◌, Bool-cases, inl, inr,
}
use raspberry_pi_os.Alloc.Heap.{Heap, kmalloc, free}
use raspberry_pi_os.Alloc.Heap.Balance.{
  uses, uses-append, free-last, kmalloc_lem, kmalloc-failed, kmalloc-granted,
}
use raspberry_pi_os.Process.Structs.{
  Process, StreamDescriptor, ProcessMemoryHandle, a_process, userspace_stack_address,
}
use raspberry_pi_os.Process.Lifecycle.{
  Kernel, process_new_stream_descriptor, open_default_streams, allocate_address_space,
  allocate_kthread, start_process, allocate_process,
}

abbrev pub handle_addresses : List ProcessMemoryHandle → List ℕ
handle_addresses [] = []
handle_addresses (m ∷ rest) = m.memory ∷ m.ptr ∷ handle_addresses rest

abbrev pub stream_addresses : List StreamDescriptor → List ℕ
stream_addresses [] = []
stream_addresses (i ∷ rest) = i.ptr ∷ stream_addresses rest

-- What `kmalloc` has granted for a process.
abbrev pub owned : Process → List ℕ
owned p =
    handle_addresses p.allocated_list
    ++ (stream_addresses p.streams ++ (p.kern_thread ∷ p.user_thread ∷ p.addr_space ∷ p.ptr ∷ []))

-- The streams have the numbers below the count, the highest first.
abbrev pub AreNumbered : List StreamDescriptor → ℕ → Type 0
AreNumbered [] count = count ≡ 0
AreNumbered (i ∷ rest) count = (i.id + 1 ≡ count) × AreNumbered rest i.id

-- From one state to another, the process has gained streams and nothing else, at most `n`.
record Opened (n : ℕ) (h : Heap) (p : Process) (h' : Heap) (p' : Process) : Type 0 where
  balance :
      (a : ℕ)
      → uses a h'.live + uses a (stream_addresses p.streams)
        ≡ uses a h.live + uses a (stream_addresses p'.streams)
  none_wrong : h'.bad_frees ≡ h.bad_frees
  numbered : AreNumbered p'.streams p'.stream_count
  count : p'.stream_count < n
  same : record p' { streams = []; stream_count = 0 } ≡ record p { streams = []; stream_count = 0 }

open-Opened :
    (n : ℕ) (h : Heap) (p : Process) (dev dev_type : ℕ)
    → n < 2 ^ 32
    → p.stream_count < n
    → AreNumbered p.streams p.stream_count
    → let r = process_new_stream_descriptor h p dev dev_type in Opened (n + 1) h p r.1 r.2
unfolding process_new_stream_descriptor
open-Opened n h p dev dev_type small few numbered =
    let (live, bad) = kmalloc_lem h in
    let wrap : (p.stream_count + 1) % 2 ^ 32 ≡ p.stream_count + 1 = omega arith in
    elim (Bool-cases ((kmalloc h).0 == 0)) [
      | inl failed ↦
          let same_live : (kmalloc h).1.live ≡ h.live = rw failed at live in
          rw failed (record {
            balance = λ a. rw same_live refl;
            none_wrong = bad;
            numbered = numbered;
            count = omega arith;
            same = refl;
          })
      | inr granted ↦
          let more : (kmalloc h).1.live ≡ (kmalloc h).0 ∷ h.live = rw granted at live in
          rw (granted, wrap)
            (record {
              balance = λ a. rw more (omega arith);
              none_wrong = bad;
              numbered = (refl, numbered);
              count = omega arith;
              same = refl;
            })
    ]

Opened-then :
    (n : ℕ) (h : Heap) (p : Process) (k : Heap) (q : Process) (l : Heap) (r : Process)
    → Opened n h p k q
    → Opened (n + 1) k q l r
    → Opened (n + 1) h p l r
Opened-then n h p k q l r first next = record {
  balance = λ a. omega (arith, first.balance a, next.balance a);
  none_wrong = next.none_wrong ∙ first.none_wrong;
  numbered = next.numbered;
  count = next.count;
  same = next.same ∙ first.same;
}

default_streams-Opened :
    (uart : ℕ) (h : Heap) (p : Process)
    → p.stream_count ≡ 0
    → AreNumbered p.streams p.stream_count
    → let r = open_default_streams uart h p in Opened 4 h p r.0 r.1
unfolding open_default_streams
default_streams-Opened uart h p closed numbered =
    let first = open-Opened 1 h p uart 2 (omega arith) (omega arith) numbered in
    let r1 = process_new_stream_descriptor h p uart 2 in
    let second = open-Opened 2 r1.1 r1.2 uart 2 (omega arith) first.count first.numbered in
    let r2 = process_new_stream_descriptor r1.1 r1.2 uart 2 in
    let third = open-Opened 3 r2.1 r2.2 uart 2 (omega arith) second.count second.numbered in
    let r3 = process_new_stream_descriptor r2.1 r2.2 uart 2 in
    Opened-then 3 h p r2.1 r2.2 r3.1 r3.2 (Opened-then 2 h p r1.1 r1.2 r2.1 r2.2 first second) third

-- The outcome of `allocate_process`.
abbrev pub Created : Kernel → Option Process × Kernel → Type 0
Created k (none, k') =
    (k'.heap.live ≡ k.heap.live)
    × (k'.heap.bad_frees ≡ k.heap.bad_frees)
    × (k'.global_pid_counter ≡ k.global_pid_counter)
    × (k'.process_list ≡ k.process_list)
Created k (some p, k') =
    ((a : ℕ) → uses a k'.heap.live ≡ uses a k.heap.live + uses a (owned p))
    × (k'.heap.bad_frees ≡ k.heap.bad_frees)
    × (k'.process_list ≡ p ∷ k.process_list)
    × (p.pid ≡ k.global_pid_counter % 2 ^ 16)
    × (p.state ≡ 0)
    × (p.allocated_list ≡ [])
    × (p.stream_count ≤ 3)
    × AreNumbered p.streams p.stream_count

free-two :
    (a b : ℕ) (l : List ℕ) (h : Heap)
    → h.live ≡ b ∷ a ∷ l
    → ((free a (free b h)).live ≡ l) × ((free a (free b h)).bad_frees ≡ h.bad_frees)
free-two a b l h live =
    let (live1, bad1) = free-last b (a ∷ l) h live in
    let (live2, bad2) = free-last a l (free b h) live1 in (live2, bad2 ∙ bad1)

start-Created :
    (uart : ℕ) (k : Kernel) (h : Heap) (ptr aspace kern user : ℕ)
    → h.live ≡ user ∷ kern ∷ aspace ∷ ptr ∷ k.heap.live
    → h.bad_frees ≡ k.heap.bad_frees
    → Created k (start_process uart k h ptr aspace kern user)
unfolding start_process
start-Created uart k h ptr aspace kern user live bad =
    let p = record a_process {
      ptr = ptr;
      addr_space = aspace;
      kern_thread = kern;
      user_thread = user;
      user_sp = userspace_stack_address;
      pid = k.global_pid_counter % 2 ^ 16;
    } in
    let opened = default_streams-Opened uart h p refl refl in
    let r = open_default_streams uart h p in
    let q = r.1 in
    let handles : q.allocated_list ≡ [] = ap (λ x. x.allocated_list) opened.same in
    let e1 : q.kern_thread ≡ kern = ap (λ x. x.kern_thread) opened.same in
    let e2 : q.user_thread ≡ user = ap (λ x. x.user_thread) opened.same in
    let e3 : q.addr_space ≡ aspace = ap (λ x. x.addr_space) opened.same in
    let e4 : q.ptr ≡ ptr = ap (λ x. x.ptr) opened.same in
    let balance : (a : ℕ) → uses a r.0.live ≡ uses a k.heap.live + uses a (owned q) = λ a.
      rw (handles, e1, e2, e3, e4)
        (omega (
          arith,
          opened.balance a,
          ap (uses a) live,
          uses-append a (stream_addresses q.streams) (kern ∷ user ∷ aspace ∷ ptr ∷ []),
        )) in
    (
      balance,
      opened.none_wrong ∙ bad,
      refl,
      ap (λ x. x.pid) opened.same,
      ap (λ x. x.state) opened.same,
      handles,
      omega (arith, opened.count),
      opened.numbered,
    )

-- A process is made whole or not at all. Either the four structures and up to three streams, numbered
-- from 0, are all that has been granted and the new process is the first of the list, in the state
-- `new`; or nothing is granted any more that was not before, no address is freed that was not live,
-- and the list and the counter of process numbers are as before.
pub allocate_process_lem :
    (global_uart : ℕ) (k : Kernel) → Created k (allocate_process global_uart k)
unfolding allocate_process allocate_address_space allocate_kthread
allocate_process_lem uart k =
    let h0 = k.heap in
    let r1 = kmalloc h0 in
    let r2 = kmalloc r1.1 in
    let r3 = kmalloc r2.1 in
    let r4 = kmalloc r3.1 in
    let bad1 = (kmalloc_lem h0).1 in
    let bad2 = (kmalloc_lem r1.1).1 ∙ bad1 in
    let bad3 = (kmalloc_lem r2.1).1 ∙ bad2 in
    let bad4 = (kmalloc_lem r3.1).1 ∙ bad3 in
    elim (Bool-cases (r1.0 == 0)) [
      | inl failed ↦ rw failed (kmalloc-failed h0 failed, bad1, refl, refl)
      | inr p ↦
          let l1 = kmalloc-granted h0 p in
          elim (Bool-cases (r2.0 == 0)) [
            | inl failed ↦
                let (live, bad) = free-last r1.0 h0.live r2.1 (kmalloc-failed r1.1 failed ∙ l1) in
                rw (p, failed) (live, bad ∙ bad2, refl, refl)
            | inr aspace ↦
                let l2 = kmalloc-granted r1.1 aspace ∙ ap (λ l. r2.0 ∷ l) l1 in
                elim (Bool-cases (r3.0 == 0)) [
                  | inl failed ↦
                      let (live, bad) =
                        free-two r1.0 r2.0 h0.live r3.1 (kmalloc-failed r2.1 failed ∙ l2) in
                      rw (p, aspace, failed) (live, bad ∙ bad3, refl, refl)
                  | inr kern ↦
                      let l3 = kmalloc-granted r2.1 kern ∙ ap (λ l. r3.0 ∷ l) l2 in
                      elim (Bool-cases (r4.0 == 0)) [
                        | inl failed ↦
                            let all = kmalloc-failed r3.1 failed ∙ l3 in
                            let (live1, bad) = free-last r3.0 (r2.0 ∷ r1.0 ∷ h0.live) r4.1 all in
                            let (live, bad') = free-two r1.0 r2.0 h0.live (free r3.0 r4.1) live1 in
                            rw (p, aspace, kern, failed) (live, bad' ∙ bad ∙ bad4, refl, refl)
                        | inr user ↦
                            rw (p, aspace, kern, user)
                              (start-Created uart k r4.1 r1.0 r2.0 r3.0 r4.0
                                (kmalloc-granted r3.1 user ∙ ap (λ l. r4.0 ∷ l) l3) bad4)
                      ]
                ]
          ]
    ]
