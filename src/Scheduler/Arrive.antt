-- ===== src/Scheduler/Arrive.antt =====
-- The arrivals of src/scheduler.c: `handle_process_arrival` and `receive_new_process`.
use kernel_sim.Base.{
  ℕ, zero, suc, ◌+◌, ◌%◌, ◌<◌, ◌≡◌, refl, false, List, [], ◌∷◌, none, some, if◌then◌else◌,
}
use kernel_sim.Base.Int.{pos, minus_one, ◌+ℤ◌, ◌==ℤ◌, leb_ℤ}
use kernel_sim.Base.Array.{load, store}
use kernel_sim.Base.Outcome.{Outcome, done, ◌>>=◌, Ends, ends, Ends-then}
use kernel_sim.Pcb.{Pcb, ready}
use kernel_sim.MinHeap.{contents, insert_process_min_heap}
use kernel_sim.MinHeap.Inv.{IsValid, Holds}
use kernel_sim.MinHeap.Insert.{insert_process_min_heap-Holds}
use kernel_sim.Queue.{PcbQueue, add_size, queue_enqueue}
use kernel_sim.Scheduler.{Os, Scheduler, is_rr, is_srtn, run_srtn_algorithm}

-- The loop that looks for the process in the ring, to give it back a semaphore id that was lost.
unfoldable pub restore_from : PcbQueue → Pcb → ℕ → ℕ → Outcome PcbQueue
restore_from q process zero i = done q
restore_from q process (suc left) i = do
  let idx = add_size q.front i % q.capacity
  p ← load q.elements idx
  let rest = restore_from q process left (i + 1)
  let restored = do
    b ← store q.elements idx (record p { sync_semid = process.sync_semid })
    done (record q { elements = b })
  let here = if leb_ℤ p.sync_semid (pos 0) then restored else done q
  if p.id_from_file ==ℤ process.id_from_file then here else rest

abbrev pub arrived : Pcb → Pcb
arrived p = record p {
  remaining_time = p.execution_time;
  state = ready;
  start_time = minus_one;
  last_prempt_time = minus_one;
}

module _ (os : Os) where
  unfoldable pub handle_process_arrival : Scheduler → Pcb → Outcome Scheduler
  unfolding restore_from
  handle_process_arrival s process =
      let p = arrived process in
      let s' = record s { process_count = s.process_count +ℤ pos 1 } in
      if is_rr s.algorithm
      then (do
        q ← queue_enqueue os.malloc s.rr_queue p
        r ← restore_from q p q.size 0
        done (record s' { rr_queue = r }))
      else (do h ← insert_process_min_heap s.ready_heap p; done (record s' { ready_heap = h }))

  abbrev pub reset_clock : Scheduler → Scheduler
  reset_clock s = elim s.current_process [
    | none ↦ record s { clock_value = minus_one }
    | some p ↦ s
  ]

  abbrev pub react : Scheduler → Outcome Scheduler
  react s = elim s.current_process [
    | none ↦ done s
    | some p ↦ if is_srtn s.algorithm then run_srtn_algorithm os s else done s
  ]

  -- The messages that are in the queue when the scheduler looks.
  unfoldable pub receive_new_process : Scheduler → List Pcb → Outcome Scheduler
  unfolding handle_process_arrival
  receive_new_process s [] = done s
  receive_new_process s (message ∷ messages) = do
    a ← handle_process_arrival s message
    b ← react a
    receive_new_process (reset_clock b) messages

-- What an arrival does to a scheduler that uses the heap: exactly the arrived process is added, ready
-- and with all its work ahead, and the current process stays.
pub record Arrived (s : Scheduler) (process : Pcb) (s' : Scheduler) : Type 0 where
  pub heap : Holds s.ready_heap (arrived process ∷ contents s.ready_heap) s'.ready_heap
  pub current : s'.current_process ≡ s.current_process
  pub count : s'.process_count ≡ s.process_count +ℤ pos 1
  pub queue : s'.rr_queue ≡ s.rr_queue

-- Under an algorithm that uses the heap, with a valid heap that has room, an arriving process is
-- added to the heap, ready and with all its work ahead, and nothing else is added or lost.
pub handle_process_arrival-Arrived :
    (os : Os) (s : Scheduler) (process : Pcb)
    → is_rr s.algorithm ≡ false
    → IsValid s.ready_heap
    → s.ready_heap.size < s.ready_heap.capacity
    → Ends (Arrived s process) (handle_process_arrival os s process)
unfolding handle_process_arrival
handle_process_arrival-Arrived os s process heap v room = rw heap (
    Ends-then (insert_process_min_heap-Holds s.ready_heap (arrived process) v room)
      λ h holds. ends (record { heap = holds; current = refl; count = refl; queue = refl }))
