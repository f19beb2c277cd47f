-- ===== src/Generator/RunTests.antt =====
-- Runs of the generator of one process, and the theorems about runs at them.
use mathlib.Core.Logic.Or
use native.Mathlib.Bridge.{le_prop}
use mathlib.Core.List.{mem-cons, mem-cons_self, not-mem-nil}
use kernel_sim.Base.{ℕ, ◌^◌, ◌≤◌, ◌≡◌, refl, true, [], ◌∷◌, arith}
use kernel_sim.Base.Int
use kernel_sim.Base.Int.{ℤ, pos, minus_one, ◌==ℤ◌, leb_ℤ, ◌≤ℤ◌}
use kernel_sim.Base.Array
use kernel_sim.Base.Array.{replicate, length-replicate}
use kernel_sim.Base.Outcome.{done}
use kernel_sim.Heap.{sift_down}
use kernel_sim.PriorityQueue.{pq_top, pq_pop, pq_empty}
use kernel_sim.Queue.{queue_init, queue_empty, queue_enqueue}
use kernel_sim.Memory.{
  allocate_memory, update_id, highest_power_of_2, traverse_memory_segment, get_block_address,
}
use kernel_sim.Generator.{
  Generator, exited_child, generator_round, released, handle_children_termination,
}
use kernel_sim.Generator.Rows.{all_rows}
use kernel_sim.Generator.Tick.{IsReady, Keeps}
use kernel_sim.Generator.Run.{Run, run_over, run_round, run_children, Run-Keeps}
use kernel_sim.Generator.Fresh.{HasFresh, Run-HasFresh}
use kernel_sim.Generator.Stuck.{too_large-waits}
use kernel_sim.Generator.Tests.{os, os-IsSteady, start, start-Sized, ring, queue, arrives}

-- One process arrives, and nobody waits.
abbrev single : ℕ → Generator
single bytes = record start {
  pq = record queue {
    elements = record (arrives 1 1) { memory_size = pos bytes } ∷ [];
    size = 1;
    capacity = 1;
  };
  waiting_queue = record ring { size = 0 };
}

single-IsReady : (bytes : ℕ) → bytes ≤ 2 ^ 30 → IsReady (single bytes)
single-IsReady bytes few = record {
  arrive = record {
    valid = record {
      storage = refl;
      fits = omega arith;
      has_room = omega arith;
      small = omega arith;
      heap = λ c p q. absurd (omega arith);
    };
    small = record {
      valid = record {
        storage = refl;
        has_room = omega arith;
        small = omega arith;
        front_in = omega arith;
        fits = omega arith;
        rear_at = refl;
      };
      capacity = omega arith;
    };
    sized = start-Sized;
    total = omega arith;
    little = λ p m.
        Or.elim le_prop (mem-cons.0 m) (λ same. rw same (omega (arith, few)))
          (λ none. absurd (not-mem-nil none));
  };
  little = tt;
  complete = λ over. ground (arith, over);
}

abbrev finished : Generator
finished = elim (generator_round os (single 200) (pos 4)) [ done g ↦ g | _ ↦ start ]

round_run : generator_round os (single 200) (pos 4) ≡ done finished
unfolding generator_round allocate_memory update_id Array.load Array.store pq_top pq_pop pq_empty
    sift_down queue_init queue_empty highest_power_of_2 traverse_memory_segment get_block_address
    Int.◌+ℤ◌ Int.◌-ℤ◌
round_run = refl

-- The process dies, and its memory is released.
abbrev died : Generator
died = released finished (pos 90) (pos 5)

finished-Run : Run os (pos 60) (single 200) died
unfolding handle_children_termination
finished-Run =
    run_children (pos 5) (exited_child (pos 90) ∷ []) (run_round (pos 4) run_over round_run) refl

Run-Keeps_example : Keeps (all_rows (single 200)) died
Run-Keeps_example = Run-Keeps os os-IsSteady finished-Run (single-IsReady 200 (omega arith))

-- The process asks for 2000 bytes, and waits.
abbrev stuck : Generator
stuck = elim (generator_round os (single 2000) (pos 4)) [ done g ↦ g | _ ↦ start ]

stuck_round : generator_round os (single 2000) (pos 4) ≡ done stuck
unfolding generator_round allocate_memory update_id Array.load Array.store pq_top pq_pop pq_empty
    sift_down queue_init queue_empty queue_enqueue highest_power_of_2 traverse_memory_segment
    get_block_address Int.◌+ℤ◌ Int.◌-ℤ◌
stuck_round = refl

too_large-waits_example : stuck.once ≡ true
too_large-waits_example =
    too_large-waits os os-IsSteady (pos 60) (single 2000) stuck
      (record (arrives 1 1) { memory_size = pos 2000 }) (run_round (pos 4) run_over stuck_round)
      (single-IsReady 2000 (omega arith)) mem-cons_self (omega arith, omega arith)

single-HasFresh : HasFresh (single 200)
single-HasFresh = record { sent = tt; waiting = tt }

Run-HasFresh_example : HasFresh died
Run-HasFresh_example =
    Run-HasFresh os os-IsSteady (pos 60) (single 200) died finished-Run
      (single-IsReady 200 (omega arith)) single-HasFresh
