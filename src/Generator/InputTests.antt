-- ===== src/Generator/InputTests.antt =====
-- A whole run of the generator, from a file of one process, and the theorems at it.
use mathlib.Core.Logic.Or
use native.Mathlib.Bridge.{le_prop}
use mathlib.Core.List.{mem-cons, not-mem-nil}
use Prim.Native.String.{String}
use text.Mathlib.Text.{◌==◌ as ◌==ₛ◌}
use kernel_sim.Base.{ℕ, ◌^◌, ◌≡◌, refl, false, List, [], ◌∷◌, Mem, Perm, some, arith, if◌then◌else◌}
use kernel_sim.Base.Int
use kernel_sim.Base.Int.{ℤ, pos, ◌≤ℤ◌, ◌==ℤ◌}
use kernel_sim.Base.Array
use kernel_sim.Base.Array.{replicate, length-replicate}
use kernel_sim.Base.Outcome.{done}
use kernel_sim.Heap.{sift_down}
use kernel_sim.PriorityQueue.{Process, pq_init, pq_push, pq_top, pq_pop, pq_empty}
use kernel_sim.PriorityQueue.Inv.{Allocates, zero_process}
use kernel_sim.Queue.{queue_init, queue_empty}
use kernel_sim.Memory.{
  allocate_memory, update_id, highest_power_of_2, traverse_memory_segment, get_block_address,
}
use kernel_sim.Generator.{Generator, generator_round}
use kernel_sim.Generator.ReadProcesses.{push_lines, generator_start}
use kernel_sim.Generator.Rows.{pcb_rows, process_rows}
use kernel_sim.Generator.Run.{run_over, run_round}
use kernel_sim.Generator.Input.{rows, complete-sent}
use kernel_sim.Generator.Tests.{os, os-IsSteady, start}

abbrev pub scan : String → List ℤ
scan line = if line ==ₛ "1 1 5 2 200" then pos 1 ∷ pos 1 ∷ pos 5 ∷ pos 2 ∷ pos 200 ∷ [] else []

abbrev pub zeroed : ℕ → List Process
zeroed n = replicate n zero_process

pub zeroed-Allocates : Allocates zeroed
zeroed-Allocates n = length-replicate n zero_process

abbrev pub file : List String
file = "# a comment" ∷ "1 1 5 2 200" ∷ []

pub little : (p : Process) → Mem p (rows scan zero_process file) → p.memory_size ≤ℤ pos (2 ^ 30)
little p m =
    Or.elim le_prop (mem-cons.0 m) (λ same. rw same (omega arith))
      (λ none. absurd (not-mem-nil none))

pub work :
    (p : Process) → Mem p (rows scan zero_process file) → (p.execution_time ==ℤ pos 0) ≡ false
work p m =
    let prop : IsProp ((p.execution_time ==ℤ pos 0) ≡ false) = hlevel in
    Or.elim prop (mem-cons.0 m) (λ same. rw same refl) (λ none. absurd (not-mem-nil none))

abbrev pub loaded : Generator
loaded = elim (generator_start scan zero_process zeroed os (some ("#id" ∷ file))) [
  | done g ↦ g
  | _ ↦ start
]

pub start_run : generator_start scan zero_process zeroed os (some ("#id" ∷ file)) ≡ done loaded
unfolding generator_start push_lines pq_push pq_init Array.store
start_run = refl

abbrev pub finished : Generator
finished = elim (generator_round os loaded (pos 4)) [ done g ↦ g | _ ↦ start ]

pub round_run : generator_round os loaded (pos 4) ≡ done finished
unfolding generator_start pq_push pq_init generator_round allocate_memory update_id Array.load
    Array.store pq_top pq_pop pq_empty sift_down queue_init queue_empty highest_power_of_2
    traverse_memory_segment get_block_address Int.◌+ℤ◌ Int.◌-ℤ◌
round_run = refl

pub finished_once : finished.once ≡ false
unfolding generator_start pq_push pq_init generator_round allocate_memory update_id Array.load
    Array.store pq_top pq_pop pq_empty sift_down queue_init queue_empty highest_power_of_2
    traverse_memory_segment get_block_address Int.◌+ℤ◌ Int.◌-ℤ◌
finished_once = refl

complete-sent_example : Perm (pcb_rows finished.sent) (process_rows (rows scan zero_process file))
complete-sent_example =
    complete-sent scan zero_process zeroed zeroed-Allocates os os-IsSteady "#id" file (pos 60)
      loaded finished (omega arith) little start_run (run_round (pos 4) run_over round_run)
      finished_once
