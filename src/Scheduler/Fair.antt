-- ===== src/Scheduler/Fair.antt =====
-- Round robin in src/scheduler.c is fair: a process that waits behind others runs after as many
-- switches as there are processes before it, and one.
use mathlib.Core.List.{append_assoc, mem-cons_self, mem-cons_of_mem}
use kernel_sim.Base.{
  ℕ, zero, suc, ◌^◌, ◌≤◌, ◌≡◌, refl, ap, ◌∙◌, true, false, List, [], ◌∷◌, ◌++◌, some, Mem, arith,
}
use kernel_sim.Base.Int.{ℤ, pos, minus_one, ◌==ℤ◌}
use kernel_sim.Base.Array
use kernel_sim.Base.Array.{length}
use kernel_sim.Base.Outcome.{Outcome, done, ◌>>=◌, Ends, ends, Ends-then, Ends-weaken}
use kernel_sim.Pcb.{Pcb}
use kernel_sim.Queue.Inv.{contents, Allocates}
use kernel_sim.Queue.Small.{IsSmall, queue_enqueue-IsSmall, queue_dequeue-IsSmall}
use kernel_sim.Scheduler.{
  Os, Scheduler, is_rr, is_terminated, signal_stop, ready_up, next_of_queue, take_next,
  switch_to_next, stop_current, context_switching, update_process_remaining_time,
}
use kernel_sim.Scheduler.Dispatch.{HasSemaphore, Runs, run_next-Running}
use kernel_sim.Scheduler.Stop.{
  preempted, signal_stop_kept, HasRunningTime, preempt_process-signal_stop, updated_times,
}
use kernel_sim.Scheduler.RoundRobin.{not_empty}
use kernel_sim.Scheduler.Account.{AllCanStart}
use kernel_sim.Scheduler.Keep.{update-SameProcess}
use kernel_sim.Scheduler.Turn.{run_next-SameBooks}

-- Under round robin the ring holds `waiting`, oldest first.
pub record Rotates (waiting : List Pcb) (s : Scheduler) : Type 0 where
  pub by_turns : is_rr s.algorithm ≡ true
  pub small : IsSmall s.rr_queue
  pub holds : contents s.rr_queue ≡ waiting

-- `next` runs.
pub record TookTurn (next : Pcb) (s : Scheduler) : Type 0 where
  pub current : Pcb
  pub runs : s.current_process ≡ some current
  pub is_next : Runs next current

-- The process has shared memory; what is assumed of all shared memory is that it shows work left.
abbrev pub HasSharedMemory : Pcb → Type 0
HasSharedMemory p = (p.shm_id ==ℤ minus_one) ≡ false

abbrev pub ShowsWork : Os → Type 0
ShowsWork os = (id : ℤ) → (t : ℤ) × (os.shm id ≡ some t) × ((t ==ℤ pos 0) ≡ false)

-- So many switches, one after the other.
abbrev pub switches : Os → ℕ → Scheduler → Outcome Scheduler
switches os zero s = done s
switches os (suc n) s = context_switching os s >>= λ t. switches os n t

module _ (os : Os) (alloc : Allocates os.malloc) where
  take_next-Rotates :
      (s : Scheduler) (p : Pcb) (rest : List Pcb)
      → Rotates (p ∷ rest) s
      → HasSemaphore p
      → Ends (λ r. (r.0 ≡ some p) × Rotates rest r.1) (take_next os s)
  unfolding take_next next_of_queue
  take_next-Rotates s p rest v h =
      let (empty, front, small, tail) = queue_dequeue-IsSmall s.rr_queue p rest v.small v.holds in
      rw (v.by_turns, not_empty s.rr_queue v.holds, front, h, front)
        (ends (refl, record { by_turns = v.by_turns; small = small; holds = tail }))

  switch_to_next-Rotates :
      (s : Scheduler) (p : Pcb) (rest : List Pcb)
      → Rotates (p ∷ rest) s
      → HasSemaphore p
      → Ends (λ t. Rotates rest t × TookTurn p t) (switch_to_next os s)
  unfolding switch_to_next
  switch_to_next-Rotates s p rest v h =
      Ends-then (take_next-Rotates s p rest v h) λ (o, t) (found, w).
        let r = run_next-Running os t p h in
        let b = run_next-SameBooks os alloc t p in
        rw found (
          ends (
            record {
              by_turns = rw b.algorithm w.by_turns;
              small = rw r.queue w.small;
              holds = rw r.queue w.holds;
            },
            record { current = r.current; runs = r.runs; is_next = r.is_next },
          ))

  stop_current-Rotates :
      (s : Scheduler) (p : Pcb) (waiting : List Pcb)
      → HasRunningTime p
      → Rotates waiting s
      → length waiting ≤ 2 ^ 60
      → Ends (Rotates (waiting ++ preempted os s p ∷ [])) (stop_current os s p)
  unfolding stop_current ready_up
  stop_current-Rotates s p waiting time v few =
      let (_, same_algorithm, same_queue) = signal_stop_kept os s p in
      let still : is_rr (signal_stop os s p).1.algorithm ≡ true =
        ap is_rr same_algorithm ∙ v.by_turns in
      rw (preempt_process-signal_stop os s p time, still, same_queue)
        (Ends-then
          (queue_enqueue-IsSmall os.malloc s.rr_queue (preempted os s p) alloc v.small
            (rw v.holds few))
          λ q (small, more). ends (record {
            by_turns = still;
            small = small;
            holds = more ∙ ap (λ l. l ++ preempted os s p ∷ []) v.holds;
          }))

  module _ (work : ShowsWork os) where
    update-unfinished :
        (p : Pcb)
        → HasSharedMemory p
        → ((update_process_remaining_time os p).remaining_time ==ℤ pos 0) ≡ false
    unfolding update_process_remaining_time
    update-unfinished p h = let (t, e, more) = work p.shm_id in rw (h, e) more

    -- A switch away from a process that has work left.
    context_switching-Rotates :
        (s : Scheduler) (c p : Pcb) (rest : List Pcb)
        → s.current_process ≡ some c
        → HasSharedMemory c
        → HasRunningTime c
        → is_terminated (update_process_remaining_time os c).state ≡ false
        → Rotates (p ∷ rest) s
        → length (p ∷ rest) ≤ 2 ^ 60
        → HasSemaphore p
        → Ends
            (λ t. ((stopped : Pcb) × Rotates (rest ++ stopped ∷ []) t) × TookTurn p t)
            (context_switching os s)
    unfolding context_switching
    context_switching-Rotates s c p rest runs h time alive v few sem =
        let c' = update_process_remaining_time os c in
        let s' = record s { current_process = some c' } in
        let w : Rotates (p ∷ rest) s' = record {
          by_turns = v.by_turns;
          small = v.small;
          holds = v.holds;
        } in
        rw (runs, update-unfinished c h, alive)
          (Ends-then
            (stop_current-Rotates s' c' (p ∷ rest) (rw ((updated_times os c).1) time) w few)
            λ t u.
              Ends-weaken (switch_to_next-Rotates t p (rest ++ preempted os s' c' ∷ []) u sem)
                λ x (rotates, took). ((preempted os s' c', rotates), took))

    -- Under round robin, when malloc allocates what is asked for and all shared memory shows work
    -- left: with a valid ring of at most 2 ^ 60 processes, a live current process with shared
    -- memory and a running time other than 0, semaphores and running times other than 0 for the
    -- process p and those before it in the ring, and shared memory for those before it, as many
    -- switches as there are processes before p, and one, end with p running.
    pub switches-TookTurn :
        (before : List Pcb) (p : Pcb) (after : List Pcb) (s : Scheduler) (c : Pcb)
        → s.current_process ≡ some c
        → HasSharedMemory c
        → HasRunningTime c
        → is_terminated c.state ≡ false
        → Rotates (before ++ p ∷ after) s
        → length (before ++ p ∷ after) ≤ 2 ^ 60
        → AllCanStart (before ++ p ∷ [])
        → ((q : Pcb) → Mem q before → HasSharedMemory q)
        → Ends (TookTurn p) (switches os (suc (length before)) s)
    switches-TookTurn [] p after s c runs has time alive v few sem all =
        let still = (update-SameProcess os c).1 in
        Ends-then
          (context_switching-Rotates s c p after runs has time (rw still alive) v few
            (sem p mem-cons_self).0)
          λ t (rotates, took). ends took
    switches-TookTurn (b ∷ before) p after s c runs has time alive v few sem all =
        let still = (update-SameProcess os c).1 in
        Ends-then
          (context_switching-Rotates s c b (before ++ p ∷ after) runs has time (rw still alive) v
            few (sem b mem-cons_self).0)
          λ t ((stopped, rotates), took).
            let order = append_assoc before (p ∷ after) (stopped ∷ []) in
            let goes_on : is_terminated took.current.state ≡ false = rw took.is_next.state refl in
            switches-TookTurn before p (after ++ stopped ∷ []) t took.current took.runs
              (rw took.is_next.shm_id (all b mem-cons_self))
              (rw took.is_next.execution_time (sem b mem-cons_self).1) goes_on (rw order at rotates)
              (omega (
                arith,
                few,
                Array.length-append before (p ∷ after),
                Array.length-append before (p ∷ (after ++ stopped ∷ [])),
                Array.length-append after (stopped ∷ []),
              ))
              (λ q m. sem q (mem-cons_of_mem b m)) (λ q m. all q (mem-cons_of_mem b m))
