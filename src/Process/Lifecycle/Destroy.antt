-- ===== src/Process/Lifecycle/Destroy.antt =====
-- What `destroy_process` of source/process/process.c gives back.
use raspberry_pi_os.Base.{
  ap, none, some, map, ◌⊎◌, inl, inr, Option-cases, ℕ, ◌≡◌, ◌≢◌, refl, arith, List, [], ◌∷◌, ◌++◌,
  eq→==, ne→==,
}
use raspberry_pi_os.Alloc.Heap.{Heap, free}
use raspberry_pi_os.Alloc.Heap.Balance.{
  uses-append, GivesBack, GivesBack-nothing, GivesBack-then, Holds, Holds-rest, free-then,
}
use raspberry_pi_os.Process.Structs.{Process, StreamDescriptor, ProcessMemoryHandle}
use raspberry_pi_os.Process.Lifecycle.{
  Kernel, free_handles, free_process_memory, free_streams, free_process_streams, unlink_and_free,
  free_process, after_mappings, destroy_process,
}
use raspberry_pi_os.Memory.AddressSpace.{AddressSpace}
use raspberry_pi_os.Process.Mappings.{
  AreApart, inactive, remove_process_mappings, remove_process_mappings_lem,
}
use raspberry_pi_os.Process.Lifecycle.Create.{handle_addresses, stream_addresses, owned}

handles-GivesBack :
    (ms : List ProcessMemoryHandle) (h : Heap)
    → Holds h (handle_addresses ms)
    → GivesBack (handle_addresses ms) h (free_handles ms h)
unfolding free_handles
handles-GivesBack [] h all = GivesBack-nothing h
handles-GivesBack (m ∷ ms) h all =
    free-then m.memory (m.ptr ∷ handle_addresses ms) h (free_handles (m ∷ ms) h) all (λ all'.
      free-then m.ptr (handle_addresses ms) (free m.memory h) (free_handles (m ∷ ms) h) all'
        (handles-GivesBack ms (free m.ptr (free m.memory h))))

streams-GivesBack :
    (is : List StreamDescriptor) (count : ℕ) (h : Heap)
    → Holds h (stream_addresses is)
    → GivesBack (stream_addresses is) h (free_streams is count h).0
unfolding free_streams
streams-GivesBack [] count h all = GivesBack-nothing h
streams-GivesBack (i ∷ is) count h all =
    free-then i.ptr (stream_addresses is) h (free_streams (i ∷ is) count h).0 all
      (streams-GivesBack is _ (free i.ptr h))

Holds-first : (xs ys : List ℕ) (h : Heap) → Holds h (xs ++ ys) → Holds h xs
Holds-first xs ys h all = λ a. omega (arith, uses-append a xs ys, all a)

-- The structures of the process itself.
abbrev own_addresses : Process → List ℕ
own_addresses p = p.kern_thread ∷ p.user_thread ∷ p.addr_space ∷ p.ptr ∷ []

abbrev pub AreOther : ℕ → List Process → Type 0
AreOther ptr [] = Unit {0}
AreOther ptr (i ∷ rest) = (i.ptr ≢ ptr) × AreOther ptr rest

rest-GivesBack :
    (p : Process) (h : Heap)
    → Holds h (p.kern_thread ∷ p.user_thread ∷ p.addr_space ∷ p.ptr ∷ [])
    → GivesBack
        (p.kern_thread ∷ p.user_thread ∷ p.addr_space ∷ p.ptr ∷ [])
        h
        (free p.ptr (free p.addr_space (free p.user_thread (free p.kern_thread h))))
rest-GivesBack p h all =
    let end = free p.ptr (free p.addr_space (free p.user_thread (free p.kern_thread h))) in
    free-then p.kern_thread _ h end all (λ all1. free-then p.user_thread _ _ end all1 (λ all2.
      free-then p.addr_space _ _ end all2
        (λ all3. free-then p.ptr [] _ end all3 (λ all4. GivesBack-nothing end))))

-- The process stands in the list behind others with other addresses.
unlink_and_free_lem :
    (p : Process) (front back : List Process) (h : Heap)
    → AreOther p.ptr front
    → unlink_and_free p.ptr (front ++ (p ∷ back)) h ≡ (free p.ptr h, front ++ back)
unfolding unlink_and_free
unlink_and_free_lem p [] back h others = rw (eq→== p.ptr p.ptr refl) refl
unlink_and_free_lem p (i ∷ front) back h others =
    rw (ne→== i.ptr p.ptr others.0, unlink_and_free_lem p front back h others.1) refl

free_process_lem :
    (p : Process) (k : Kernel) (h : Heap) (front back : List Process)
    → k.process_list ≡ front ++ (p ∷ back)
    → AreOther p.ptr front
    → Holds h (stream_addresses p.streams ++ own_addresses p)
    → let k' = free_process (record p { allocated_list = [] }) k h in
      GivesBack (stream_addresses p.streams ++ own_addresses p) h k'.heap
      × (k'.process_list ≡ front ++ back)
      × (k'.global_pid_counter ≡ k.global_pid_counter)
unfolding free_process free_process_streams
free_process_lem p k h1 front back place others held =
    let rest = own_addresses p in
    let streams = stream_addresses p.streams in
    let h2 = (free_streams p.streams p.stream_count h1).0 in
    let h3 = free p.addr_space (free p.user_thread (free p.kern_thread h2)) in
    let second : GivesBack streams h1 h2 =
      streams-GivesBack p.streams p.stream_count h1 (Holds-first streams rest h1 held) in
    let third : GivesBack rest h2 (free p.ptr h3) =
      rest-GivesBack p h2 (Holds-rest streams rest h1 h2 held second) in
    rw (place, unlink_and_free_lem p front back h3 others)
      (GivesBack-then streams rest h1 h2 (free p.ptr h3) second third, refl, refl)

-- The kernel and the address space after `destroy_process`.
abbrev pub Destroyed :
    Process → AddressSpace → Kernel → List Process → Kernel × AddressSpace → Type 0
Destroyed p aspace k others (k', aspace') =
    GivesBack (owned p) k.heap k'.heap
    × (k'.process_list ≡ others)
    × (k'.global_pid_counter ≡ k.global_pid_counter)
    × (aspace'.mappings ≡ map inactive aspace.mappings)

-- A process whose memory is live is destroyed unless its mappings cannot be removed, where the kernel
-- panics or, at a range that wraps, may not get to an end. It gives back the memory and the handles of its list, the streams, the two threads, the
-- address space and the structure itself, each once, and no other address of the kernel's heap is
-- freed but by the pruning of page tables, which the address space records. It is taken out of the
-- list of processes, and the others stay in order. The mappings, no two of them the same, are inactive
-- and still listed: their structures are not freed.
pub destroy_process_lem :
    (p : Process) (aspace : AddressSpace) (k : Kernel) (front back : List Process)
    → k.process_list ≡ front ++ (p ∷ back)
    → AreOther p.ptr front
    → Holds k.heap (owned p)
    → AreApart aspace.mappings
    → ((remove_process_mappings aspace ≡ none) × (destroy_process p aspace k ≡ none))
      ⊎ ((after : Kernel × AddressSpace) × (remove_process_mappings aspace ≡ some after.1)
          × (destroy_process p aspace k ≡ some after)
          × Destroyed p aspace k (front ++ back) after)
unfolding destroy_process free_process_memory after_mappings
destroy_process_lem p aspace k front back place others all apart =
    let p1 = record p { allocated_list = [] } in
    let h1 = free_handles p.allocated_list k.heap in
    elim (Option-cases (remove_process_mappings aspace)) [
      | inl panics ↦ inl (panics, ap (after_mappings p1 k h1) panics)
      | inr (aspace', removed) ↦
          let handles = handle_addresses p.allocated_list in
          let rest = stream_addresses p.streams ++ own_addresses p in
          let first : GivesBack handles k.heap h1 =
            handles-GivesBack p.allocated_list k.heap (Holds-first handles rest k.heap all) in
          let (freed, listed, pids) =
            free_process_lem p k h1 front back place others
              (Holds-rest handles rest k.heap h1 all first) in
          let k' = free_process p1 k h1 in
          inr (
            (k', aspace'),
            removed,
            ap (after_mappings p1 k h1) removed,
            (
              GivesBack-then handles rest k.heap h1 k'.heap first freed,
              listed,
              pids,
              remove_process_mappings_lem aspace aspace' apart removed,
            ),
          )
    ]
