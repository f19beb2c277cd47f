-- ===== src/Scheduler/RoundRobin.antt =====
-- Round robin in src/scheduler.c: `context_switching` and `run_RR_Algorithm` with the ring.
use mathlib.Core.Path.{subst}
use kernel_sim.Scheduler.Switch.{update_twice_lem}
use kernel_sim.Base.{
  ℕ, zero, suc, ◌⊎◌, inl, inr, ◌*◌, ◌^◌, ◌<◌, ◌≡◌, refl, sym, ap, ◌∙◌, true, false, ◌==◌, List, [],
  ◌∷◌, ◌++◌, some, arith, ltb, Bool-cases,
}
use kernel_sim.Base.Int.{pos, ◌-ℤ◌, ◌==ℤ◌, ◌<ℤ◌, ◌≤ℤ◌}
use kernel_sim.Base.Array.{length}
use kernel_sim.Base.Outcome.{Ends, ends, Ends-then, Ends-weaken, Ends-branch}
use kernel_sim.Pcb.{Pcb}
use kernel_sim.Queue.{PcbQueue}
use kernel_sim.Queue.Inv.{IsValid, contents, Allocates, ring, length-ring}
use kernel_sim.Queue.Enqueue.{queue_enqueue-contents}
use kernel_sim.Queue.Refine.{queue_dequeue-contents}
use kernel_sim.Scheduler.{
  Os, Scheduler, is_rr, is_terminated, signal_stop, ready_up, next_of_queue, take_next,
  switch_to_next, stop_current, context_switching, update_process_remaining_time, slice_over,
  run_rr_algorithm,
}
use kernel_sim.Scheduler.Dispatch.{HasSemaphore, Runs, run_next-Running}
use kernel_sim.Scheduler.Stop.{
  preempted, signal_stop_kept, HasRunningTime, preempt_process-signal_stop,
}

-- `next` runs, and the ring holds `rest`.
pub record TurnTaken (next : Pcb) (rest : List Pcb) (s : Scheduler) : Type 0 where
  pub current : Pcb
  pub runs : s.current_process ≡ some current
  pub is_next : Runs next current
  pub valid : IsValid s.rr_queue
  pub waiting : contents s.rr_queue ≡ rest

pub not_empty :
    (q : PcbQueue) {p : Pcb} {rest : List Pcb} → contents q ≡ p ∷ rest → (q.size == 0) ≡ false
not_empty q e =
    let size = sym (length-ring q.elements q.capacity q.front q.size) ∙ ap length e in
    ground (arith, size)

pub ring-cons :
    (a : List Pcb) (capacity i n : ℕ)
    → 0 < n
    → (p : Pcb) × (rest : List Pcb) × (ring a capacity i n ≡ p ∷ rest)
ring-cons a capacity i zero h = absurd (omega arith)
ring-cons a capacity i (suc n) h = (_, _, refl)

-- A head with a semaphore leaves the ring.
next_of_queue-contents :
    (os : Os) (q : PcbQueue) (p : Pcb) (rest : List Pcb)
    → IsValid q
    → contents q ≡ p ∷ rest
    → HasSemaphore p
    → Ends (λ r. (r.0 ≡ some p) × IsValid r.1 × (contents r.1 ≡ rest)) (next_of_queue os q)
unfolding next_of_queue
next_of_queue-contents os q p rest v e h =
    let (front, valid, tail) = queue_dequeue-contents q p rest v e in
    rw (not_empty q e, front, h, front) (ends (refl, valid, tail))

module _ (os : Os) where
  take_next-contents :
      (s : Scheduler) (p : Pcb) (rest : List Pcb)
      → is_rr s.algorithm ≡ true
      → IsValid s.rr_queue
      → contents s.rr_queue ≡ p ∷ rest
      → HasSemaphore p
      → Ends
          (λ r. (r.0 ≡ some p) × IsValid r.1.rr_queue × (contents r.1.rr_queue ≡ rest))
          (take_next os s)
  unfolding take_next
  take_next-contents s p rest ring v e h =
      rw ring (Ends-then (next_of_queue-contents os s.rr_queue p rest v e h) λ r x. ends x)

  pub switch_to_next-TurnTaken :
      (s : Scheduler) (p : Pcb) (rest : List Pcb)
      → is_rr s.algorithm ≡ true
      → IsValid s.rr_queue
      → contents s.rr_queue ≡ p ∷ rest
      → HasSemaphore p
      → Ends (TurnTaken p rest) (switch_to_next os s)
  unfolding switch_to_next
  switch_to_next-TurnTaken s p rest ring v e h =
      Ends-then (take_next-contents s p rest ring v e h) λ (o, t) (found, valid, tail).
        let r = run_next-Running os t p h in
        rw found (
          ends (record {
            current = r.current;
            runs = r.runs;
            is_next = r.is_next;
            valid = rw r.queue valid;
            waiting = rw r.queue tail;
          }))

  stop_current-contents :
      (s : Scheduler) (p : Pcb)
      → HasRunningTime p
      → is_rr s.algorithm ≡ true
      → IsValid s.rr_queue
      → 4 * s.rr_queue.capacity < 2 ^ 64
      → Allocates os.malloc
      → Ends
          (λ t.
            (is_rr t.algorithm ≡ true)
            × IsValid t.rr_queue
            × (contents t.rr_queue ≡ contents s.rr_queue ++ preempted os s p ∷ []))
          (stop_current os s p)
  unfolding stop_current ready_up
  stop_current-contents s p time ring v small alloc =
      let (_, same_algorithm, same_queue) = signal_stop_kept os s p in
      let still : is_rr (signal_stop os s p).1.algorithm ≡ true = ap is_rr same_algorithm ∙ ring in
      rw (preempt_process-signal_stop os s p time, still, same_queue)
        (Ends-then (queue_enqueue-contents os.malloc s.rr_queue (preempted os s p) alloc v small)
          λ q (valid, more). ends (still, valid, more))

  -- With a valid ring that can still grow, a running process that is not done and has a running
  -- time, and a process with a semaphore at the head of the ring, a switch under round robin runs
  -- the head and puts the stopped process at the end of the ring.
  pub context_switching-TurnTaken :
      (s : Scheduler) (process next : Pcb) (rest : List Pcb)
      → is_rr s.algorithm ≡ true
      → IsValid s.rr_queue
      → 4 * s.rr_queue.capacity < 2 ^ 64
      → Allocates os.malloc
      → s.current_process ≡ some process
      → let p = update_process_remaining_time os process in
        let s' = record s { current_process = some p } in
        HasRunningTime p
        → (p.remaining_time ==ℤ pos 0) ≡ false
        → is_terminated p.state ≡ false
        → contents s.rr_queue ≡ next ∷ rest
        → HasSemaphore next
        → Ends (TurnTaken next (rest ++ preempted os s' p ∷ [])) (context_switching os s)
  unfolding context_switching
  context_switching-TurnTaken s process next rest ring v small alloc runs time unfinished alive e
        h =
      let p = update_process_remaining_time os process in
      let s' = record s { current_process = some p } in
      rw (runs, unfinished, alive)
        (Ends-then (stop_current-contents s' p time ring v small alloc) λ t (still, valid, more).
          switch_to_next-TurnTaken t next (rest ++ preempted os s' p ∷ []) still valid
            (more ∙ ap (λ l. l ++ preempted os s' p ∷ []) e) h)

  -- The same, when the control block is already up to date.
  fresh-TurnTaken :
      (s : Scheduler) (p next : Pcb) (rest : List Pcb)
      → is_rr s.algorithm ≡ true
      → IsValid s.rr_queue
      → 4 * s.rr_queue.capacity < 2 ^ 64
      → Allocates os.malloc
      → update_process_remaining_time os p ≡ p
      → let s' = record s { current_process = some p } in
        HasRunningTime p
        → (p.remaining_time ==ℤ pos 0) ≡ false
        → is_terminated p.state ≡ false
        → contents s.rr_queue ≡ next ∷ rest
        → HasSemaphore next
        → Ends (TurnTaken next (rest ++ preempted os s' p ∷ [])) (context_switching os s')
  fresh-TurnTaken s p next rest ring v small alloc fresh =
      let s' = record s { current_process = some p } in
      subst
        (λ x.
          let t = record s { current_process = some x } in
          HasRunningTime x
          → (x.remaining_time ==ℤ pos 0) ≡ false
          → is_terminated x.state ≡ false
          → contents s.rr_queue ≡ next ∷ rest
          → HasSemaphore next
          → Ends (TurnTaken next (rest ++ preempted os t x ∷ [])) (context_switching os s'))
        fresh (context_switching-TurnTaken s' p next rest ring v small alloc refl)

  -- A slice that is not over has time left, or nobody waits.
  slice_lasts :
      (s : Scheduler)
      → slice_over os s ≡ false
      → ((s.clock_value -ℤ s.time_slice_start) <ℤ s.quantum) ⊎ (contents s.rr_queue ≡ [])
  slice_lasts s lasts = elim (Bool-cases (ltb 0 s.rr_queue.size)) [
    | inl some_wait ↦ inl (ground (arith, lasts, some_wait))
    | inr none_wait ↦
        let empty : s.rr_queue.size ≡ 0 = ground (arith, none_wait) in inr (rw empty refl)
  ]

  -- What a tick of round robin does while `p` runs: until the time slice is over and another process
  -- waits, nothing; then `p` goes to the end of the ring and its head runs.
  abbrev pub RrStep : Scheduler → Pcb → Scheduler → Type 0
  RrStep s p t =
      ((t ≡ s)
        × (((s.clock_value -ℤ s.time_slice_start) <ℤ s.quantum) ⊎ (contents s.rr_queue ≡ [])))
      ⊎ ((next : Pcb) × (rest : List Pcb) × (s.quantum ≤ℤ (s.clock_value -ℤ s.time_slice_start))
          × (contents s.rr_queue ≡ next ∷ rest)
          × TurnTaken next (rest ++ preempted os s p ∷ []) t)

  -- When malloc allocates what is asked for: with a valid ring that can still grow, a live
  -- running process that is not done and has a running time other than 0, and a semaphore for the
  -- head of the ring if there is one, a tick of round robin ends: it reads the remaining time of
  -- the process and either less time than the quantum has passed since the slice began or nobody
  -- waits, and nothing else changes, or at least the quantum has passed, and then the head of the
  -- ring runs and the stopped process is behind all others.
  pub run_rr_algorithm-RrStep :
      (s : Scheduler) (process : Pcb)
      → is_rr s.algorithm ≡ true
      → IsValid s.rr_queue
      → 4 * s.rr_queue.capacity < 2 ^ 64
      → Allocates os.malloc
      → s.current_process ≡ some process
      → let p = update_process_remaining_time os process in
        let s' = record s { current_process = some p } in
        HasRunningTime p
        → (p.remaining_time ==ℤ pos 0) ≡ false
        → is_terminated p.state ≡ false
        → ((q : Pcb) (rest : List Pcb) → contents s.rr_queue ≡ q ∷ rest → HasSemaphore q)
        → Ends (RrStep s' p) (run_rr_algorithm os s)
  unfolding run_rr_algorithm
  run_rr_algorithm-RrStep s process ring v small alloc runs time unfinished alive sem =
      let p = update_process_remaining_time os process in
      let s' = record s { current_process = some p } in
      rw runs (
        Ends-branch (slice_over os s')
          (λ over.
            let some_waiting : 0 < s.rr_queue.size = ground (arith, over) in
            let (next, rest, e) =
              ring-cons s.rr_queue.elements s.rr_queue.capacity s.rr_queue.front s.rr_queue.size
                some_waiting in
            Ends-weaken
              (fresh-TurnTaken s p next rest ring v small alloc (update_twice_lem os process) time
                unfinished alive e (sem next rest e))
              λ t turn. inr (next, rest, ground (arith, over), e, turn))
          (λ lasts. ends (inl (refl, slice_lasts s' lasts))))
