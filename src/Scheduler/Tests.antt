-- ===== src/Scheduler/Tests.antt =====
-- The theorems about src/scheduler.c at a concrete scheduler.
use kernel_sim.Base.{
  List, ℕ, zero, suc, ◌<◌, ◌≡◌, refl, ◌∷◌, [], true, false, none, some, Mem, arith,
}
use kernel_sim.Base.Int.{pos, minus_one}
use kernel_sim.Base.Array.{get_or, take-all, replicate, length-replicate}
use kernel_sim.Base.Outcome.{fault, Ends}
use kernel_sim.Pcb.{Pcb, zero_pcb, running, compare_remaining_time}
use kernel_sim.Pcb.Order.{compare_remaining_time-IsOrder}
use kernel_sim.MinHeap.{MinHeap, contents}
use kernel_sim.MinHeap.Inv.{IsValid}
use kernel_sim.Queue.Inv
use kernel_sim.Scheduler.RoundRobin.{RrStep, run_rr_algorithm-RrStep}
use kernel_sim.Scheduler.{
  run_rr_algorithm, Os, Scheduler, srtn, rr, context_switching, update_process_remaining_time,
  run_hpf_algorithm, run_srtn_algorithm, signal_stop, preempt_process,
}
use kernel_sim.Scheduler.Complete.{
  Booked, handle_process_completion, handle_process_completion-Booked,
}
use kernel_sim.Logger.{print_progress_bar, quotient}
use kernel_sim.Scheduler.Dispatch.{HasSemaphore, Dispatched}
use kernel_sim.Scheduler.Stop.{preempted}
use mathlib.Core.Logic.Or
use mathlib.Core.List.{mem-cons, not-mem-nil}
use kernel_sim.Scheduler.Account.{AllCanStart-cons}
use kernel_sim.Scheduler.Fair.{Rotates, TookTurn, HasSharedMemory, switches, switches-TookTurn}
use kernel_sim.Scheduler.Switch.{
  CanStop, HpfStep, SrtnStep, context_switching-Dispatched, run_hpf_algorithm-HpfStep,
  run_srtn_algorithm-SrtnStep,
}

-- Signals arrive, and every process has three ticks of work left.
abbrev os : Os
os = record { kill = λ pid. true; shm = λ id. some (pos 3); malloc = λ n. replicate n zero_pcb }

abbrev process : ℕ → ℕ → Pcb
process pid time = record zero_pcb {
  pid = pos pid;
  id_from_file = pos pid;
  remaining_time = pos time;
  execution_time = pos time;
  sync_semid = pos 5;
  start_time = minus_one;
}

abbrev heap : MinHeap
heap = record {
  capacity = 3;
  size = 1;
  processes = process 72 2 ∷ zero_pcb ∷ zero_pcb ∷ [];
  cmp = compare_remaining_time;
}

heap-IsValid : IsValid heap
heap-IsValid = record {
  order = compare_remaining_time-IsOrder;
  storage = refl;
  fits = omega arith;
  heap = λ c p q. absurd (omega arith);
}

abbrev current : Pcb
current = record (process 71 4) { state = running; start_time = pos 1 }

-- Process 71 runs, and process 72 is ready.
abbrev busy : Scheduler
busy = record {
  algorithm = srtn;
  current_process = some current;
  rr_queue = record { elements = []; front = 0; rear = 0; size = 0; capacity = 0 };
  ready_heap = heap;
  process_count = pos 2;
  finished_processes = 0;
  start_time = pos 1;
  quantum = pos 0;
  generator_finished = false;
  active_cpu_time = pos 4;
  turnaround_times = pos 0 ∷ pos 0 ∷ [];
  wait_times = pos 0 ∷ pos 0 ∷ [];
  time_slice_start = pos 1;
  clock_value = pos 2;
  effects = [];
}

abbrev idle : Scheduler
idle = record busy { current_process = none }

-- The current process, with its remaining time read.
abbrev refreshed : Pcb
refreshed = update_process_remaining_time os current

abbrev up_to_date : Scheduler
up_to_date = record busy { current_process = some refreshed }

heap_semaphores : (q : Pcb) → Mem q (contents heap) → HasSemaphore q
heap_semaphores = take-all HasSemaphore (λ q. hlevel) 1 heap.processes zero_pcb (omega arith) at
  where
    at : (i : ℕ) → i < 1 → HasSemaphore (get_or heap.processes i zero_pcb)
    at zero p = refl
    at (suc i) p = absurd (omega arith)

all_semaphores :
    (q : Pcb) → Mem q (preempted os up_to_date refreshed ∷ contents heap) → HasSemaphore q
unfolding signal_stop
all_semaphores =
    take-all HasSemaphore (λ q. hlevel) 2 (preempted os up_to_date refreshed ∷ heap.processes)
      zero_pcb (omega arith) at
  where
    at :
        (i : ℕ)
        → i < 2
        → HasSemaphore (get_or (preempted os up_to_date refreshed ∷ heap.processes) i zero_pcb)
    at zero p = refl
    at (suc zero) p = refl
    at (suc (suc i)) p = absurd (omega arith)

busy-CanStop : CanStop os up_to_date refreshed
unfolding update_process_remaining_time
busy-CanStop = record {
  running_time = refl;
  unfinished = refl;
  alive = refl;
  room = omega arith;
  semaphores = all_semaphores;
}

context_switching-Dispatched_example :
    Ends
      (Dispatched compare_remaining_time (preempted os up_to_date refreshed ∷ contents heap))
      (context_switching os busy)
context_switching-Dispatched_example =
    context_switching-Dispatched os busy current refl heap-IsValid refl busy-CanStop

run_hpf_algorithm-HpfStep_example : Ends (HpfStep os idle) (run_hpf_algorithm os idle)
run_hpf_algorithm-HpfStep_example =
    run_hpf_algorithm-HpfStep os idle refl heap-IsValid heap_semaphores

run_srtn_algorithm-SrtnStep_example :
    Ends (SrtnStep os up_to_date refreshed) (run_srtn_algorithm os busy)
run_srtn_algorithm-SrtnStep_example =
    run_srtn_algorithm-SrtnStep os busy current refl refl heap-IsValid refl busy-CanStop

handle_process_completion-Booked_example :
    Ends (Booked busy (pos 9) (pos 0) (pos 4)) (handle_process_completion os busy (pos 9))
handle_process_completion-Booked_example =
    handle_process_completion-Booked os busy current (pos 9) refl (omega arith) (omega arith) refl
      refl

-- Stopping a process whose running time is 0 divides by 0 in its progress bar.
zero_preempted : preempt_process os busy (process 71 0) ≡ fault
unfolding preempt_process signal_stop print_progress_bar quotient update_process_remaining_time
zero_preempted = refl

-- Under round robin process 71 runs, and process 72 waits in the ring.
abbrev ring : Scheduler
ring = record busy {
  algorithm = rr;
  rr_queue = record {
    elements = process 72 2 ∷ zero_pcb ∷ [];
    front = 0;
    rear = 1;
    size = 1;
    capacity = 2;
  };
}

head-semaphore :
    (q : Pcb) (rest : List Pcb) → Inv.contents ring.rr_queue ≡ q ∷ rest → HasSemaphore q
head-semaphore q rest e = let same : process 72 2 ≡ q = cc in rw (← same) refl

ring-IsValid : Inv.IsValid ring.rr_queue
ring-IsValid = record {
  storage = refl;
  has_room = omega arith;
  small = omega arith;
  front_in = omega arith;
  fits = omega arith;
  rear_at = refl;
}

run_rr_algorithm-RrStep_example :
    Ends
      (RrStep os (record ring { current_process = some refreshed }) refreshed)
      (run_rr_algorithm os ring)
unfolding update_process_remaining_time
run_rr_algorithm-RrStep_example =
    run_rr_algorithm-RrStep os ring current refl ring-IsValid (omega arith)
      (λ n. length-replicate n zero_pcb) refl refl refl refl head-semaphore

-- Process 71 runs, 72 and 73 wait.
abbrev two_waiting : Scheduler
two_waiting = record ring {
  rr_queue = record {
    elements = process 72 2 ∷ process 73 1 ∷ [];
    front = 0;
    rear = 0;
    size = 2;
    capacity = 2;
  };
}

two_waiting-Rotates : Rotates (process 72 2 ∷ process 73 1 ∷ []) two_waiting
two_waiting-Rotates =
    let valid : Inv.IsValid two_waiting.rr_queue = record {
      storage = refl;
      has_room = omega arith;
      small = omega arith;
      front_in = omega arith;
      fits = omega arith;
      rear_at = refl;
    } in
    record {
      by_turns = refl;
      small = record { valid = valid; capacity = omega arith };
      holds = refl;
    }

before-HasSharedMemory : (q : Pcb) → Mem q (process 72 2 ∷ []) → HasSharedMemory q
before-HasSharedMemory q m =
    let prop : IsProp (HasSharedMemory q) = hlevel in
    Or.elim prop (mem-cons.0 m) (λ e. rw e refl) (λ n. absurd (not-mem-nil n))

switches-TookTurn_example : Ends (TookTurn (process 73 1)) (switches os 2 two_waiting)
switches-TookTurn_example =
    switches-TookTurn os (λ n. length-replicate n zero_pcb) (λ id. (pos 3, refl, refl))
      (process 72 2 ∷ []) (process 73 1) [] two_waiting current refl refl refl refl
      two_waiting-Rotates (omega arith)
      (AllCanStart-cons (process 72 2) (process 73 1 ∷ []) (refl, refl)
        (AllCanStart-cons (process 73 1) [] (refl, refl) (λ p m. absurd (not-mem-nil m))))
      before-HasSharedMemory
