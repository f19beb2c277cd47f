-- ===== src/Simulation/Tests.antt =====
-- A whole simulation under round robin, from a file of one process, and the theorems at it.
use mathlib.Core.List.{not-mem-nil}
use mathlib.Core.List.Perm
use Prim.Native.String.{String}
use kernel_sim.Base.{ℕ, ◌≡◌, ◌≢◌, refl, true, false, List, [], ◌∷◌, ◌++◌, none, some, arith}
use kernel_sim.Base.Int
use kernel_sim.Base.Int.{ℤ, pos, minus_one}
use kernel_sim.Base.Array
use kernel_sim.Base.Array.{replicate, length-replicate, length}
use kernel_sim.Base.Outcome.{Outcome, done, Ends}
use kernel_sim.Pcb.{Pcb, zero_pcb}
use kernel_sim.PriorityQueue.Inv.{zero_process}
use kernel_sim.Generator.Rows.{process_ids}
use kernel_sim.Generator.Input.{rows}
use kernel_sim.Generator.Run.{run_over, run_round}
use kernel_sim.Generator.Tests as GeneratorTests
use kernel_sim.Generator.InputTests.{
  scan, zeroed, zeroed-Allocates, file, little, work, loaded, start_run, finished, round_run,
  finished_once,
}
use kernel_sim.Generator.{generator_round}
use kernel_sim.Generator.ReadProcesses.{push_lines, generator_start}
use kernel_sim.Heap.{sift_down}
use kernel_sim.PriorityQueue.{pq_init, pq_push, pq_top, pq_pop, pq_empty}
use kernel_sim.Memory.{
  allocate_memory, update_id, highest_power_of_2, traverse_memory_segment, get_block_address,
}
use kernel_sim.Queue.{queue_init, queue_enqueue, queue_empty, queue_front, queue_dequeue}
use kernel_sim.Logger.{print_progress_bar, quotient}
use kernel_sim.Scheduler.{
  Os, Scheduler, rr, other, update_process_remaining_time, start_process, next_of_queue, take_next,
  run_next, switch_to_next, context_switching, run_rr_algorithm, run_algorithm,
}
use kernel_sim.Queue.Inv.{Allocates}
use kernel_sim.Queue.Small.{queue_init-IsSmall}
use kernel_sim.Scheduler.Account.{
  ids, by_ring, HoldsReady, AllCanStart, AllCanStart-cons, Accounts, Settled, books_of,
}
use kernel_sim.Scheduler.Algorithms.{run_algorithm-Settled}
use kernel_sim.Scheduler.Round.{completed, tick-Accounts, handle_process_completion-Accounts}
use kernel_sim.Simulation.Start.{empty-Accounts}
use kernel_sim.Scheduler.Arrive.{restore_from, handle_process_arrival, receive_new_process}
use kernel_sim.Scheduler.Complete.{
  record_completion, handle_process_completion, tick, is_over, handle_generator_completion,
}
use kernel_sim.Scheduler.Run as R
use kernel_sim.Scheduler.Finish.{Finished}
use kernel_sim.Arguments.{SchedulerStart, in_ring, prepare, scheduler_start}
use kernel_sim.Simulation.{scheduler_state}
use kernel_sim.Simulation.Whole.{simulation_finishes}
use kernel_sim.Arguments.Tests.{atoi}

abbrev pub os : ℕ → Os
os k = record { kill = λ pid. true; shm = λ id. some (pos 3); malloc = λ n. replicate n zero_pcb }

abbrev pub argv : List String
argv = "scheduler" ∷ "11" ∷ "1111111" ∷ "1111111" ∷ []

abbrev pub pcbs : ℕ → List Pcb
pcbs n = replicate n zero_pcb

abbrev pub start : SchedulerStart
start = record {
  algorithm = rr;
  quantum = pos 7;
  semid = pos 7;
  ready = in_ring (queue_init pcbs 100);
}

pub start_made : scheduler_start atoi true (some (pcbs 1024)) pcbs argv ≡ done start
unfolding scheduler_start prepare Array.load
start_made = refl

abbrev pub first : Scheduler
first = record {
  algorithm = rr;
  current_process = none;
  rr_queue = queue_init pcbs 100;
  ready_heap = record { capacity = 0; size = 0; processes = []; cmp = λ p q. pos 0 };
  process_count = pos 0;
  finished_processes = 0;
  start_time = minus_one;
  quantum = pos 7;
  generator_finished = false;
  active_cpu_time = pos 0;
  turnaround_times = replicate 100 (pos 0);
  wait_times = replicate 100 (pos 0);
  time_slice_start = minus_one;
  clock_value = pos 2;
  effects = [];
}

pub first_made : scheduler_state start (pos 3) ≡ some first
unfolding Int.◌-ℤ◌
first_made = refl

abbrev after : Outcome Scheduler → Scheduler
after (done s) = s
after _ = first

-- The process is received and started, the generator reports its end, and the process ends.
abbrev one : Scheduler
one = after (tick (os 0) first finished.sent (pos 4))

abbrev two : Scheduler
two = handle_generator_completion one

abbrev pub three : Scheduler
three = after (handle_process_completion (os 2) two (pos 9))

one_made : tick (os 0) first finished.sent (pos 4) ≡ done one
unfolding generator_start push_lines pq_push pq_init generator_round allocate_memory update_id
    Array.load Array.store pq_top pq_pop pq_empty sift_down queue_init queue_empty
    highest_power_of_2 traverse_memory_segment get_block_address Int.◌+ℤ◌ Int.◌-ℤ◌ tick
    receive_new_process handle_process_arrival restore_from queue_enqueue run_algorithm
    run_rr_algorithm context_switching switch_to_next take_next next_of_queue queue_front
    queue_dequeue run_next start_process update_process_remaining_time
one_made = refl

two_made : handle_process_completion (os 2) two (pos 9) ≡ done three
unfolding generator_start push_lines pq_push pq_init generator_round allocate_memory update_id
    Array.load Array.store pq_top pq_pop pq_empty sift_down queue_init queue_empty
    highest_power_of_2 traverse_memory_segment get_block_address Int.◌+ℤ◌ Int.◌-ℤ◌ tick
    receive_new_process handle_process_arrival restore_from queue_enqueue run_algorithm
    run_rr_algorithm context_switching switch_to_next take_next next_of_queue queue_front
    queue_dequeue run_next start_process update_process_remaining_time handle_generator_completion
    handle_process_completion record_completion print_progress_bar quotient
two_made = refl

pub over : is_over three ≡ true
unfolding generator_start push_lines pq_push pq_init generator_round allocate_memory update_id
    Array.load Array.store pq_top pq_pop pq_empty sift_down queue_init queue_empty
    highest_power_of_2 traverse_memory_segment get_block_address Int.◌+ℤ◌ Int.◌-ℤ◌ tick
    receive_new_process handle_process_arrival restore_from queue_enqueue run_algorithm
    run_rr_algorithm context_switching switch_to_next take_next next_of_queue queue_front
    queue_dequeue run_next start_process update_process_remaining_time handle_generator_completion
    handle_process_completion record_completion print_progress_bar quotient is_over
over = refl

sent-AllCanStart : AllCanStart finished.sent
unfolding generator_start push_lines pq_push pq_init generator_round allocate_memory update_id
    Array.load Array.store pq_top pq_pop pq_empty sift_down queue_init queue_empty
    highest_power_of_2 traverse_memory_segment get_block_address Int.◌+ℤ◌ Int.◌-ℤ◌
sent-AllCanStart = AllCanStart-cons _ [] (refl, refl) (λ p m. absurd (not-mem-nil m))

pub pcbs-Allocates : Allocates pcbs
pcbs-Allocates n = length-replicate n zero_pcb

pub os-Allocates : (k : ℕ) → Allocates (os k).malloc
os-Allocates k n = length-replicate n zero_pcb

rr-known : rr ≢ other
rr-known e = cc

more : is_over first ≡ false
unfolding is_over
more = refl

run_one : R.Run os 0 first 1 finished.sent one
run_one = R.ticked finished.sent (pos 4) R.start more one_made

run_two : R.Run os 0 first 2 finished.sent two
run_two = R.generator_completed run_one

pub run_three : R.Run os 0 first 3 finished.sent three
run_three = R.completed (pos 9) run_two two_made

two_finished : two.generator_finished ≡ true
unfolding handle_generator_completion
two_finished = refl

simulation_finishes_example : Finished os 2 two (process_ids (rows scan zero_process file))
simulation_finishes_example =
    simulation_finishes scan zero_process zeroed zeroed-Allocates GeneratorTests.os
      GeneratorTests.os-IsSteady atoi (pcbs 1024) pcbs (length-replicate 1024 zero_pcb)
      pcbs-Allocates os os-Allocates "#id" file (pos 60) loaded finished argv start (pos 3) first
      two 2 (omega arith) (omega arith) little work start_run (run_round (pos 4) run_over round_run)
      finished_once start_made rr-known first_made run_two two_finished

ring-HoldsReady : HoldsReady 100 first []
ring-HoldsReady =
    let (small, empty) = queue_init-IsSmall pcbs pcbs-Allocates in
    by_ring refl small (omega arith) (rw empty Perm.nil)

first-Accounts : Accounts 100 (books_of first) [] first
first-Accounts = empty-Accounts first ring-HoldsReady rr-known refl refl refl refl refl refl

Run-Accounts_example : Accounts 100 (books_of three) (ids finished.sent) three
unfolding generator_start push_lines pq_push pq_init generator_round allocate_memory update_id
    Array.load Array.store pq_top pq_pop pq_empty sift_down queue_init queue_empty
    highest_power_of_2 traverse_memory_segment get_block_address Int.◌+ℤ◌ Int.◌-ℤ◌
Run-Accounts_example =
    R.Run-Accounts os os-Allocates 100 0 first first-Accounts (omega arith) sent-AllCanStart
      run_three

tick-Accounts_example :
    Ends
      (Accounts 100 (books_of first) ([] ++ ids finished.sent))
      (tick (os 0) first finished.sent (pos 4))
unfolding generator_start push_lines pq_push pq_init generator_round allocate_memory update_id
    Array.load Array.store pq_top pq_pop pq_empty sift_down queue_init queue_empty
    highest_power_of_2 traverse_memory_segment get_block_address Int.◌+ℤ◌ Int.◌-ℤ◌
tick-Accounts_example =
    tick-Accounts (os 0) (os-Allocates 0) 100 (books_of first) [] first finished.sent (pos 4)
      (omega arith) sent-AllCanStart first-Accounts

one-Accounts : Accounts 100 (books_of one) (ids finished.sent) one
unfolding generator_start push_lines pq_push pq_init generator_round allocate_memory update_id
    Array.load Array.store pq_top pq_pop pq_empty sift_down queue_init queue_empty
    highest_power_of_2 traverse_memory_segment get_block_address Int.◌+ℤ◌ Int.◌-ℤ◌
one-Accounts =
    R.Run-Accounts os os-Allocates 100 0 first first-Accounts (omega arith) sent-AllCanStart run_one

handle_process_completion-Accounts_example :
    Ends
      (Accounts 100 (completed (books_of one) one.current_process) (ids finished.sent))
      (handle_process_completion (os 1) one (pos 9))
unfolding generator_start push_lines pq_push pq_init generator_round allocate_memory update_id
    Array.load Array.store pq_top pq_pop pq_empty sift_down queue_init queue_empty
    highest_power_of_2 traverse_memory_segment get_block_address Int.◌+ℤ◌ Int.◌-ℤ◌
handle_process_completion-Accounts_example =
    handle_process_completion-Accounts (os 1) (os-Allocates 1) 100 (books_of one)
      (ids finished.sent) one (pos 9) (omega arith) one-Accounts

run_algorithm-Settled_example :
    Ends (Settled 100 (books_of one) (ids finished.sent)) (run_algorithm (os 1) one)
unfolding generator_start push_lines pq_push pq_init generator_round allocate_memory update_id
    Array.load Array.store pq_top pq_pop pq_empty sift_down queue_init queue_empty
    highest_power_of_2 traverse_memory_segment get_block_address Int.◌+ℤ◌ Int.◌-ℤ◌
run_algorithm-Settled_example =
    run_algorithm-Settled (os 1) (os-Allocates 1) 100 (books_of one) (ids finished.sent) one
      (omega arith) one-Accounts
