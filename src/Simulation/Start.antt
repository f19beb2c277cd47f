-- ===== src/Simulation/Start.antt =====
-- The state in which the loop of `main` of src/scheduler.c starts accounts for no process.
use mathlib.Core.Path.{subst}
use mathlib.Core.List.{not-mem-nil}
use mathlib.Core.List.Perm
use Prim.Native.String.{String}
use kernel_sim.Base.{
  ℕ, ◌≡◌, ◌≢◌, refl, true, false, List, [], none, some, Bool-cases, inl, inr, ltb, arith,
}
use kernel_sim.Base.Int.{ℤ, pos}
use kernel_sim.Base.Array.{length, load, replicate, length-replicate}
use kernel_sim.Base.Outcome.{done, done_through}
use kernel_sim.Pcb.{Pcb, compare_remaining_time, compare_priority}
use kernel_sim.Heap.Order.{IsOrder}
use kernel_sim.Pcb.Order.{compare_remaining_time-IsOrder, compare_priority-IsOrder}
use kernel_sim.MinHeap
use kernel_sim.MinHeap.{MinHeap, max_processes, create_min_heap}
use kernel_sim.MinHeap.Inv.{IsValid}
use kernel_sim.Queue.{PcbQueue, queue_init}
use kernel_sim.Queue.Inv.{contents, Allocates}
use kernel_sim.Queue.Small.{IsSmall, queue_init-IsSmall}
use kernel_sim.Scheduler.{SchedulingAlgorithm, hpf, srtn, rr, other, Scheduler, is_rr}
use kernel_sim.Scheduler.Account.{by_ring, by_heap, Accounts, HoldsReady, books_of}
use kernel_sim.Arguments.{
  ReadyProcesses, in_heap, in_ring, SchedulerStart, prepare, scheduler_start, numbered,
}
use kernel_sim.Simulation.{scheduler_state}

-- The ready structure is the one of the algorithm, and empty.
data Prepared (algorithm : SchedulingAlgorithm) : ReadyProcesses → Type 0 where
  heap_prepared :
      (h : MinHeap)
      → is_rr algorithm ≡ false
      → IsValid h
      → MinHeap.contents h ≡ []
      → h.capacity ≡ max_processes
      → Prepared algorithm (in_heap h)
  ring_prepared :
      (q : PcbQueue)
      → is_rr algorithm ≡ true
      → IsSmall q
      → contents q ≡ []
      → Prepared algorithm (in_ring q)

new_heap : List Pcb → (Pcb → Pcb → ℤ) → MinHeap
new_heap processes cmp = record {
  capacity = max_processes;
  size = 0;
  processes = processes;
  cmp = cmp;
}

-- A state in which nothing has happened yet.
pub empty-Accounts :
    (s : Scheduler)
    → HoldsReady 100 s []
    → s.algorithm ≢ other
    → s.current_process ≡ none
    → s.effects ≡ []
    → s.finished_processes ≡ 0
    → s.turnaround_times ≡ replicate 100 (pos 0)
    → s.wait_times ≡ replicate 100 (pos 0)
    → s.process_count ≡ pos 0
    → Accounts 100 (books_of s) [] s
empty-Accounts s holds known idle fresh count turnaround wait none_received =
    let long = length-replicate 100 (pos 0) in
    record {
      waiting = [];
      holds = holds;
      semaphores = λ p m. absurd (not-mem-nil m);
      current = rw idle tt;
      all = rw (idle, fresh) Perm.nil;
      known = known;
      generator = refl;
      finished = refl;
      count = rw fresh count;
      turnaround = rw turnaround (omega (arith, long));
      wait = rw wait (omega (arith, long));
      processes = none_received;
    }

module _ (atoi : String → ℤ) (processes : List Pcb) (malloc : ℕ → List Pcb)
    (size : length processes ≡ max_processes) (alloc : Allocates malloc) where
  new_heap-Prepared :
      (algorithm : SchedulingAlgorithm) (cmp : Pcb → Pcb → ℤ)
      → is_rr algorithm ≡ false
      → IsOrder cmp
      → Prepared algorithm (in_heap (new_heap processes cmp))
  unfolding new_heap
  new_heap-Prepared algorithm cmp heap order =
      let valid : IsValid (new_heap processes cmp) = record {
        order = order;
        storage = size;
        fits = omega arith;
        heap = λ c p q. absurd (omega arith);
      } in
      heap_prepared (new_heap processes cmp) heap valid refl refl

  prepare-Prepared :
      (argv : List String) (algorithm : SchedulingAlgorithm) (q : ℤ) (r : ReadyProcesses)
      → algorithm ≢ other
      → prepare atoi true (some processes) malloc argv algorithm ≡ done (q, r)
      → Prepared algorithm r
  unfolding prepare create_min_heap new_heap
  prepare-Prepared argv srtn q r known e =
      let made : in_heap (new_heap processes compare_remaining_time) ≡ r = cc in
      rw (← made)
        (new_heap-Prepared srtn compare_remaining_time refl compare_remaining_time-IsOrder)
  prepare-Prepared argv hpf q r known e =
      let made : in_heap (new_heap processes compare_priority) ≡ r = cc in
      rw (← made) (new_heap-Prepared hpf compare_priority refl compare_priority-IsOrder)
  prepare-Prepared argv rr q r known e = elim (Bool-cases (ltb (length argv) 4)) [
    | inl short ↦ let none_made = rw short at e in absurd cc
    | inr enough ↦
        let rest = rw enough at e in
        let (third, loaded, made) =
          done_through (load argv 3) (λ x. done (atoi x, in_ring (queue_init malloc 100))) rest in
        let same : in_ring (queue_init malloc 100) ≡ r = cc in
        let (small, empty) = queue_init-IsSmall malloc alloc in
        rw (← same) (ring_prepared (queue_init malloc 100) refl small empty)
  ]
  prepare-Prepared argv other q r known e = absurd (known refl)

  scheduler_start-Prepared :
      (argv : List String) (start : SchedulerStart)
      → scheduler_start atoi true (some processes) malloc argv ≡ done start
      → start.algorithm ≢ other
      → Prepared start.algorithm start.ready
  unfolding scheduler_start
  scheduler_start-Prepared argv start e known = elim (Bool-cases (ltb (length argv) 2)) [
    | inl short ↦ let none_made = rw short at e in absurd cc
    | inr enough ↦
        let (a, first, e₁) = done_through (load argv 1) _ (rw enough at e) in
        let algorithm = numbered (atoi a) in
        let ((q, r), made, e₂) =
          done_through (prepare atoi true (some processes) malloc argv algorithm) _ e₁ in
        let (id, second, e₃) = done_through (load argv 2) _ e₂ in
        let built : SchedulerStart = record {
          algorithm = algorithm;
          quantum = q;
          semid = atoi id;
          ready = r;
        } in
        let same : built ≡ start = cc in
        subst (λ x. x.algorithm ≢ other → Prepared x.algorithm x.ready) same
          (λ one_of_three. prepare-Prepared argv algorithm q r one_of_three made) known
  ]

  state_from :
      (algorithm : SchedulingAlgorithm) (r : ReadyProcesses) (quantum semid now : ℤ)
      → Prepared algorithm r
      → algorithm ≢ other
      → let start : SchedulerStart = record {
        algorithm = algorithm;
        quantum = quantum;
        semid = semid;
        ready = r;
      } in
        (s : Scheduler) × (scheduler_state start now ≡ some s) × Accounts 100 (books_of s) [] s
  state_from a r quantum semid now (heap_prepared h heap valid empty capacity) known =
      let holds = by_heap heap valid (omega (arith, capacity)) (rw empty Perm.nil) in
      (_, refl, empty-Accounts _ holds known refl refl refl refl refl refl)
  state_from a r quantum semid now (ring_prepared q ring small empty) known =
      let holds = by_ring ring small (omega arith) (rw empty Perm.nil) in
      (_, refl, empty-Accounts _ holds known refl refl refl refl refl refl)

  Prepared-Accounts :
      (start : SchedulerStart) (now : ℤ)
      → Prepared start.algorithm start.ready
      → start.algorithm ≢ other
      → (s : Scheduler) × (scheduler_state start now ≡ some s) × Accounts 100 (books_of s) [] s
  Prepared-Accounts start now prepared known =
      state_from start.algorithm start.ready start.quantum start.semid now prepared known

  pub scheduler_state-Accounts :
      (argv : List String) (start : SchedulerStart) (now : ℤ)
      → scheduler_start atoi true (some processes) malloc argv ≡ done start
      → start.algorithm ≢ other
      → (s : Scheduler) × (scheduler_state start now ≡ some s) × Accounts 100 (books_of s) [] s
  scheduler_state-Accounts argv start now e known =
      Prepared-Accounts start now (scheduler_start-Prepared argv start e known) known
