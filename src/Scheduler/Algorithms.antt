-- ===== src/Scheduler/Algorithms.antt =====
-- The three algorithms of src/scheduler.c account for every process and keep the processor busy.
use mathlib.Core.Bool.{true≢false}
use kernel_sim.Base.{
  ℕ, ◌≤◌, ◌<◌, ◌≡◌, refl, sym, ◌∙◌, true, false, ltb, List, if◌then◌else◌, Option, none, some,
  arith,
}
use kernel_sim.Base.Int.{ℤ}
use kernel_sim.Base.Array.{length, load, get_or, load-get_or}
use kernel_sim.Base.Outcome.{Ends, ends, ◌>>=◌, Ends-then, Ends-branch, done}
use kernel_sim.Pcb.{Pcb, zero_pcb}
use kernel_sim.Queue.Inv.{Allocates}
use kernel_sim.Scheduler.{
  Os, Scheduler, SchedulingAlgorithm, hpf, srtn, rr, other, is_longer, slice_over, end_slice, is_rr,
  context_switching, update_process_remaining_time, run_hpf_algorithm, run_srtn_algorithm,
  run_rr_algorithm, run_algorithm,
}
use kernel_sim.Scheduler.Complete.{is_idle}
use kernel_sim.Scheduler.Account.{by_ring, by_heap, HoldsReady, Books, Accounts, Settled, settled}
use kernel_sim.Scheduler.Keep.{updated-Accounts, context_switching-Settled}

heap_stored :
    (n : ℕ) (s : Scheduler) (ps : List Pcb)
    → is_rr s.algorithm ≡ false
    → HoldsReady n s ps
    → ltb 0 s.ready_heap.size ≡ true
    → 0 < length s.ready_heap.processes
heap_stored n s ps heap (by_ring r small room same) more = absurd (true≢false (sym r ∙ heap))
heap_stored n s ps heap (by_heap r v room same) more = ground (arith, more, v.storage, v.fits)

module _ (os : Os) (alloc : Allocates os.malloc) where
  hpf_from :
      (n : ℕ) (g : Books) (received : List ℤ) (s : Scheduler) (current : Option Pcb)
      → is_rr s.algorithm ≡ false
      → length received ≤ n
      → let s' = record s { current_process = current } in
        Accounts n g received s' → Ends (Settled n g received) (run_hpf_algorithm os s')
  unfolding run_hpf_algorithm
  hpf_from n g received s (some p) heap few a = ends (settled a refl)
  hpf_from n g received s none heap few a =
      let s' = record s { current_process = none } in
      Ends-branch (ltb 0 s.ready_heap.size)
        (λ more. context_switching-Settled os alloc n g received s' few a)
        (λ empty. ends (record { accounts = a; busy = λ _. rw heap (ground arith) }))

  -- The part of SRTN after the remaining time of the current process has been read.
  longer_than_none :
      (current : Option Pcb) (shortest : Pcb)
      → is_idle current ≡ true
      → is_longer os current shortest ≡ true
  longer_than_none none shortest idle = refl
  longer_than_none (some p) shortest idle = absurd (true≢false (sym idle))

  choose_from :
      (n : ℕ) (g : Books) (received : List ℤ) (s : Scheduler)
      → is_rr s.algorithm ≡ false
      → length received ≤ n
      → Accounts n g received s
      → Ends (Settled n g received) (
          if ltb 0 s.ready_heap.size
          then (do
            shortest ← load s.ready_heap.processes 0
            if is_longer os s.current_process shortest then context_switching os s else done s)
          else done s)
  choose_from n g received s heap few a =
      Ends-branch (ltb 0 s.ready_heap.size)
        (λ more.
          let stored : 0 < length s.ready_heap.processes =
            heap_stored n s a.waiting heap a.holds more in
          rw (load-get_or s.ready_heap.processes 0 zero_pcb stored) (
            Ends-branch (is_longer os s.current_process (get_or s.ready_heap.processes 0 zero_pcb))
              (λ longer. context_switching-Settled os alloc n g received s few a)
              (λ not_longer. ends (record {
                accounts = a;
                busy = λ idle.
                    absurd
                      (true≢false (sym (longer_than_none s.current_process _ idle) ∙ not_longer));
              }))))
        (λ empty. ends (record { accounts = a; busy = λ _. rw heap (ground arith) }))

  srtn_from :
      (n : ℕ) (g : Books) (received : List ℤ) (s : Scheduler) (current : Option Pcb)
      → is_rr s.algorithm ≡ false
      → length received ≤ n
      → let s' = record s { current_process = current } in
        Accounts n g received s' → Ends (Settled n g received) (run_srtn_algorithm os s')
  unfolding run_srtn_algorithm
  srtn_from n g received s none heap few a =
      choose_from n g received (record s { current_process = none }) heap few a
  srtn_from n g received s (some p) heap few a =
      choose_from n g received
        (record s { current_process = some (update_process_remaining_time os p) }) heap few
        (updated-Accounts os n g received s p a)

  pub run_srtn_algorithm-Settled :
      (n : ℕ) (g : Books) (received : List ℤ) (s : Scheduler)
      → is_rr s.algorithm ≡ false
      → length received ≤ n
      → Accounts n g received s
      → Ends (Settled n g received) (run_srtn_algorithm os s)
  run_srtn_algorithm-Settled n g received s heap few a =
      srtn_from n g received s s.current_process heap few a

  end_slice_from :
      (n : ℕ) (g : Books) (received : List ℤ) (s : Scheduler) (current : Option Pcb)
      → length received ≤ n
      → let s' = record s { current_process = current } in
        Settled n g received s' → Ends (Settled n g received) (end_slice os s')
  end_slice_from n g received s none few a = ends a
  end_slice_from n g received s (some p) few a =
      let s' = record s { current_process = some (update_process_remaining_time os p) } in
      let a' = updated-Accounts os n g received s p a.accounts in
      Ends-branch (slice_over os s')
        (λ over. context_switching-Settled os alloc n g received s' few a')
        (λ lasts. ends (settled a' refl))

  rr_from :
      (n : ℕ) (g : Books) (received : List ℤ) (s : Scheduler) (current : Option Pcb)
      → is_rr s.algorithm ≡ true
      → length received ≤ n
      → let s' = record s { current_process = current } in
        Accounts n g received s' → Ends (Settled n g received) (run_rr_algorithm os s')
  unfolding run_rr_algorithm
  rr_from n g received s (some p) ring few a =
      end_slice_from n g received s (some p) few (settled a refl)
  rr_from n g received s none ring few a =
      let s' = record s { current_process = none } in
      Ends-then
        (Ends-branch (ltb 0 s.rr_queue.size)
          (λ more. context_switching-Settled os alloc n g received s' few a)
          (λ empty. ends (record { accounts = a; busy = λ _. rw ring (ground arith) })))
        λ t b. end_slice_from n g received t t.current_process few b

  run_from :
      (n : ℕ) (g : Books) (received : List ℤ) (s : Scheduler) (algorithm : SchedulingAlgorithm)
      → length received ≤ n
      → let s' = record s { algorithm = algorithm } in
        Accounts n g received s' → Ends (Settled n g received) (run_algorithm os s')
  unfolding run_algorithm
  run_from n g received s hpf few a =
      hpf_from n g received (record s { algorithm = hpf }) s.current_process refl few a
  run_from n g received s srtn few a =
      run_srtn_algorithm-Settled n g received (record s { algorithm = srtn }) refl few a
  run_from n g received s rr few a =
      rr_from n g received (record s { algorithm = rr }) s.current_process refl few a
  run_from n g received s other few a = absurd (a.known refl)

  -- When malloc allocates what is asked for: from a state that accounts for at most as many
  -- processes as there is room for, each with a semaphore and a running time other than 0, what
  -- each of the three algorithms does on a tick ends, accounts for the same processes, and leaves
  -- the processor idle only when no process is ready.
  pub run_algorithm-Settled :
      (n : ℕ) (g : Books) (received : List ℤ) (s : Scheduler)
      → length received ≤ n
      → Accounts n g received s
      → Ends (Settled n g received) (run_algorithm os s)
  run_algorithm-Settled n g received s few a = run_from n g received s s.algorithm few a
