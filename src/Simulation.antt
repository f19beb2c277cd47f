-- ===== src/Simulation.antt =====
-- The programs of src/process_generator.c and src/scheduler.c together: the state in which the loop
-- of `main` of the scheduler starts, and a whole simulation, from the file to the end of every
-- process.
pub mod Setup
pub mod Start
pub mod Whole
pub mod CommandLine
mod Tests
mod CommandLineTests
use kernel_sim.Base.{List, [], Option, none, some, false}
use kernel_sim.Base.Int.{ℤ, pos, minus_one, ◌-ℤ◌}
use kernel_sim.Base.Array.{replicate}
use kernel_sim.MinHeap.{MinHeap}
use kernel_sim.Queue.{PcbQueue}
use kernel_sim.Scheduler.{Scheduler}
use kernel_sim.Arguments.{ReadyProcesses, in_heap, in_ring, nowhere, SchedulerStart}

-- The static structures that an algorithm does not use are zero.
abbrev zero_ring : PcbQueue
zero_ring = record { elements = []; front = 0; rear = 0; size = 0; capacity = 0 }

abbrev zero_heap : MinHeap
zero_heap = record { capacity = 0; size = 0; processes = []; cmp = λ p q. pos 0 }

-- The globals when the loop of `main` is entered; `now` is what `get_clk` returns before it. With no
-- ready structure there is no state: the code goes on with a null pointer.
abbrev pub scheduler_state : SchedulerStart → ℤ → Option Scheduler
scheduler_state start now =
    let state : PcbQueue → MinHeap → Option Scheduler = λ q h. some (record {
      algorithm = start.algorithm;
      current_process = none;
      rr_queue = q;
      ready_heap = h;
      process_count = pos 0;
      finished_processes = 0;
      start_time = minus_one;
      quantum = start.quantum;
      generator_finished = false;
      active_cpu_time = pos 0;
      turnaround_times = replicate 100 (pos 0);
      wait_times = replicate 100 (pos 0);
      time_slice_start = minus_one;
      clock_value = now -ℤ pos 1;
      effects = [];
    }) in
    elim start.ready [
      | in_heap h ↦ state zero_ring h
      | in_ring q ↦ state q zero_heap
      | nowhere ↦ none
    ]
