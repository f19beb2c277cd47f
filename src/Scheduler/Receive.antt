-- ===== src/Scheduler/Receive.antt =====
-- The arrivals of src/scheduler.c account for every process that is received.
use mathlib.Core.List.{
  append_assoc, perm_append_singleton, append-nil, perm_middle, mem-cons_self, mem-cons_of_mem,
}
use mathlib.Core.List.Perm
use kernel_sim.Base.{
  ℕ, zero, suc, ◌+◌, ◌%◌, ◌≤◌, ◌<◌, ◌≡◌, refl, sym, ap, ◌∙◌, true, false, List, [], ◌∷◌, ◌++◌,
  Bool-cases, inl, inr, Option, none, some, Perm, arith,
}
use kernel_sim.Base.Int.{ℤ, pos, ◌==ℤ◌, ◌+ℤ◌}
use kernel_sim.Base.Array
use kernel_sim.Base.Array.{length, get_or, load-get_or}
use kernel_sim.Base.Outcome.{Ends, ends, Ends-then, Ends-weaken, Ends-branch, done}
use kernel_sim.Pcb.{Pcb, zero_pcb}
use kernel_sim.MinHeap.Inv.{length-contents}
use kernel_sim.MinHeap.Insert.{insert_process_min_heap-Holds}
use kernel_sim.Queue.{PcbQueue, add_size}
use kernel_sim.Queue.Inv.{IsValid, contents, ring, Allocates}
use kernel_sim.Queue.Small.{queue_enqueue-IsSmall}
use kernel_sim.Scheduler.{Os, Scheduler, SchedulingAlgorithm, hpf, srtn, rr, other, is_rr, is_srtn}
use kernel_sim.Scheduler.Arrive.{
  restore_from, arrived, handle_process_arrival, react, reset_clock, receive_new_process,
}
use kernel_sim.Scheduler.Dispatch.{HasSemaphore}
use kernel_sim.Scheduler.Account.{
  ids, current_ids, by_ring, by_heap, HoldsReady, CanStart, AllCanStart, AllCanStart-cons, Books,
  SameBooks, same_books, Accounts, Accounts-moved, Accounts-Perm, Accounts-length, finished_ids,
}
use kernel_sim.Scheduler.Algorithms.{run_srtn_algorithm-Settled}

-- While all processes of the ring have semaphores, the search for a lost one changes nothing.
restore_from_calm :
    (q : PcbQueue) (p : Pcb) (left i : ℕ)
    → IsValid q
    → i + left ≤ q.size
    → AllCanStart (ring q.elements q.capacity (q.front + i) left)
    → restore_from q p left i ≡ done q
unfolding restore_from
restore_from_calm q p zero i v inside sem = refl
restore_from_calm q p (suc left) i v inside sem =
    let at = (q.front + i) % q.capacity in
    let found = get_or q.elements at zero_pcb in
    let no_wrap : add_size q.front i ≡ q.front + i = omega (arith, v.small, v.front_in, v.fits) in
    let here : HasSemaphore found = (sem found mem-cons_self).0 in
    let later : AllCanStart (ring q.elements q.capacity (q.front + (i + 1)) left) =
      let shift : q.front + (i + 1) ≡ q.front + i + 1 = omega arith in
      λ x m. sem x (mem-cons_of_mem found (rw shift at m)) in
    let rest = restore_from_calm q p left (i + 1) v (omega arith) later in
    let stored : at < length q.elements = grind (arith, v.storage, v.has_room) in
    elim (Bool-cases (found.id_from_file ==ℤ p.id_from_file)) [
      | inl same ↦ rw (no_wrap, load-get_or q.elements at zero_pcb stored, here, same) refl
      | inr differs ↦ rw (no_wrap, load-get_or q.elements at zero_pcb stored, here, differs) rest
    ]

next_length : (received : List ℤ) → pos (length received) +ℤ pos 1 ≡ pos (suc (length received))
unfolding ◌+ℤ◌
next_length received = ground arith

-- One more process is received, and it is ready.
Accounts-received :
    {n : ℕ} {g : Books} {received : List ℤ} {s t : Scheduler} (p : Pcb)
    (a : Accounts n g received s)
    → SameBooks s (record t { process_count = s.process_count })
    → t.process_count ≡ s.process_count +ℤ pos 1
    → t.current_process ≡ s.current_process
    → HoldsReady n t (p ∷ a.waiting)
    → CanStart p
    → Accounts n g (p.id_from_file ∷ received) t
Accounts-received {received = received} {s = s} {t = t} p a books one_more same holds here =
    let ends_and_current = finished_ids s.effects ++ current_ids s.current_process in
    let moved = perm_middle {a = p.id_from_file} ends_and_current (ids a.waiting) in
    let split = append_assoc (finished_ids s.effects) (current_ids s.current_process) in
    let added : Perm
        (finished_ids s.effects ++ (current_ids s.current_process ++ ids (p ∷ a.waiting)))
        (p.id_from_file
          ∷ (finished_ids s.effects ++ (current_ids s.current_process ++ ids a.waiting))) =
      rw (split (ids (p ∷ a.waiting)), split (ids a.waiting)) at moved in
    record {
      waiting = p ∷ a.waiting;
      holds = holds;
      semaphores = AllCanStart-cons p a.waiting here a.semaphores;
      current = rw same a.current;
      all = rw (books.finished, same) (Perm.trans added (Perm.cons p.id_from_file a.all));
      known = λ e. a.known (sym books.algorithm ∙ e);
      generator = books.generator ∙ a.generator;
      finished = books.finished ∙ a.finished;
      count = books.count ∙ a.count ∙ ap length (sym books.finished);
      turnaround = rw books.turnaround a.turnaround;
      wait = rw books.wait a.wait;
      processes = one_more ∙ ap (λ c. c +ℤ pos 1) a.processes ∙ next_length received;
    }

srtn_by_heap : (a : SchedulingAlgorithm) → is_srtn a ≡ true → is_rr a ≡ false
srtn_by_heap hpf e = refl
srtn_by_heap srtn e = refl
srtn_by_heap rr e = absurd (ground arith)
srtn_by_heap other e = refl

module _ (os : Os) (alloc : Allocates os.malloc) where
  arrival_holds :
      (n : ℕ) (g : Books) (received : List ℤ) (s : Scheduler) (p : Pcb)
      (a : Accounts n g received s)
      → length received < n
      → CanStart p
      → HoldsReady n s a.waiting
      → Ends (Accounts n g (p.id_from_file ∷ received)) (handle_process_arrival os s p)
  unfolding handle_process_arrival
  arrival_holds n g received s p a few here (by_ring r small room same) =
      let p' = arrived p in
      let counted = Accounts-length a in
      rw r (
        Ends-then
          (queue_enqueue-IsSmall os.malloc s.rr_queue p' alloc small
            (omega (arith, Array.length-Perm same, counted, few, room)))
          λ q (small', more).
            let all : Perm (contents q) (p' ∷ a.waiting) =
              rw more (Perm.trans (perm_append_singleton p' _) (Perm.cons p' same)) in
            let sem : AllCanStart (contents q) =
              λ x m. AllCanStart-cons p' a.waiting here a.semaphores x ((Perm.mem_iff all).0 m) in
            let start : q.front + 0 ≡ q.front = omega arith in
            rw (restore_from_calm q p' q.size 0 small'.valid (omega arith) (rw start sem)) (
              ends {a = record s { process_count = s.process_count +ℤ pos 1; rr_queue = q }} (
                Accounts-received p' a (same_books refl refl refl refl refl refl refl) refl refl
                  (by_ring r small' room all) here)))
  arrival_holds n g received s p a few here (by_heap r valid room same) =
      let p' = arrived p in
      let counted = Accounts-length a in
      rw r (
        Ends-then
          (insert_process_min_heap-Holds s.ready_heap p' valid
            (omega (arith, Array.length-Perm same, length-contents s.ready_heap valid, counted)))
          λ h held.
            ends {a = record s { process_count = s.process_count +ℤ pos 1; ready_heap = h }} (
              Accounts-received p' a (same_books refl refl refl refl refl refl refl) refl refl
                (by_heap r held.valid (omega (arith, held.kept_capacity))
                  (Perm.trans held.same (Perm.cons p' same)))
                here))

  react_from :
      (n : ℕ) (g : Books) (received : List ℤ) (s : Scheduler) (current : Option Pcb)
      → length received ≤ n
      → let s' = record s { current_process = current } in
        Accounts n g received s' → Ends (Accounts n g received) (react os s')
  react_from n g received s none few a = ends a
  react_from n g received s (some p) few a =
      let s' = record s { current_process = some p } in
      Ends-branch (is_srtn s.algorithm)
        (λ by_time.
          Ends-weaken
            (run_srtn_algorithm-Settled os alloc n g received s' (srtn_by_heap s.algorithm by_time)
              few a)
            λ t settled. settled.accounts)
        (λ others. ends a)

  reset_from :
      (n : ℕ) (g : Books) (received : List ℤ) (s : Scheduler) (current : Option Pcb)
      → let s' = record s { current_process = current } in
        Accounts n g received s' → Accounts n g received (reset_clock os s')
  reset_from n g received s none a =
      Accounts-moved a.waiting a (same_books refl refl refl refl refl refl refl) a.holds
        a.semaphores tt Perm.rfl
  reset_from n g received s (some p) a = a

  -- Receiving the messages of a round ends, and the scheduler accounts for their processes, too.
  pub receive_new_process-Accounts :
      (n : ℕ) (g : Books) (received : List ℤ) (s : Scheduler) (messages : List Pcb)
      → length received + length messages ≤ n
      → AllCanStart messages
      → Accounts n g received s
      → Ends (Accounts n g (received ++ ids messages)) (receive_new_process os s messages)
  unfolding receive_new_process
  receive_new_process-Accounts n g received s [] few sem a = ends (rw (append-nil received) a)
  receive_new_process-Accounts n g received s (p ∷ ps) few sem a =
      let all = p.id_from_file ∷ received in
      let order : Perm (all ++ ids ps) (received ++ ids (p ∷ ps)) =
        Perm.symm (perm_middle received (ids ps)) in
      Ends-then (arrival_holds n g received s p a (omega arith) (sem p mem-cons_self) a.holds)
        λ t b. Ends-then (react_from n g all t t.current_process (omega arith) b) λ u c.
          Ends-weaken
            (receive_new_process-Accounts n g all (reset_clock os u) ps (omega arith)
              (λ q m. sem q (mem-cons_of_mem p m)) (reset_from n g all u u.current_process c))
            λ v d. Accounts-Perm order d
