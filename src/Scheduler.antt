-- ===== src/Scheduler.antt =====
-- src/scheduler.c: the state of the scheduler and what its signal handlers and its clock tick do to
-- it. The scheduler owns the control block that `current_process` points to. What the operating
-- system answers is an argument; what the scheduler asks of it is a list of effects, newest first.
-- Signals are handled between the calls of this file. The float statistics are left out.
pub mod Arrive
pub mod Complete
pub mod Stop
pub mod Dispatch
pub mod Switch
pub mod RoundRobin
pub mod Account
pub mod Turn
pub mod Keep
pub mod Algorithms
pub mod Receive
pub mod Round
pub mod Run
pub mod Finish
pub mod Fair
pub mod Find
mod Tests
use kernel_sim.Base.{
  ℕ, zero, suc, ◌+◌, ◌%◌, Bool, true, false, not, ◌&&◌, List, [], ◌∷◌, Option, none, some, ltb,
  ◌==◌, if◌then◌else◌,
}
use kernel_sim.Base.Int.{ℤ, pos, minus_one, ◌+ℤ◌, ◌-ℤ◌, ◌==ℤ◌, leb_ℤ, ltb_ℤ}
use kernel_sim.Base.Array.{load, store}
use kernel_sim.Base.Outcome.{Outcome, done, ◌>>=◌}
use kernel_sim.Pcb.{Pcb, ready, running, terminated, ProcessState, waiting, stopped}
use kernel_sim.MinHeap.{MinHeap, insert_process_min_heap, extract_min}
use kernel_sim.Logger.{print_progress_bar}
use kernel_sim.Queue.{PcbQueue, add_size, queue_front, queue_enqueue, queue_dequeue}

-- `other` stands for the numbers that name no algorithm.
pub data SchedulingAlgorithm : Type 0 where
  hpf srtn rr other : SchedulingAlgorithm

-- The word that a line of scheduler.log has for what happened.
pub data Label : Type 0 where
  started resumed halted finished : Label

-- `set_semaphore` sets it to 1; a log line shows the control block at a time.
pub data Effect : Type 0 where
  continue_process stop_process remove_shm remove_semaphore set_semaphore : ℤ → Effect
  log_process_event : Label → Pcb → ℤ → Effect

-- Whether `kill` succeeds for a pid, the remaining time in a shared memory segment if `shmat`
-- succeeds, and the arrays of `malloc`.
pub record Os : Type 0 where
  pub kill : ℤ → Bool
  pub shm : ℤ → Option ℤ
  pub malloc : ℕ → List Pcb

pub record Scheduler : Type 0 where
  pub algorithm : SchedulingAlgorithm
  pub current_process : Option Pcb
  pub rr_queue : PcbQueue
  pub ready_heap : MinHeap
  pub process_count : ℤ
  pub finished_processes : ℕ
  pub start_time : ℤ
  pub quantum : ℤ
  pub generator_finished : Bool
  pub active_cpu_time : ℤ
  pub turnaround_times : List ℤ
  pub wait_times : List ℤ
  pub time_slice_start : ℤ
  pub clock_value : ℤ
  pub effects : List Effect

abbrev pub is_rr : SchedulingAlgorithm → Bool
is_rr rr = true
is_rr _ = false

abbrev pub is_srtn : SchedulingAlgorithm → Bool
is_srtn srtn = true
is_srtn _ = false

abbrev is_terminated : ProcessState → Bool
is_terminated terminated = true
is_terminated _ = false

abbrev pub emit : Effect → Scheduler → Scheduler
emit e s = record s { effects = e ∷ s.effects }

-- A signal that arrives is followed by a line of the log.
abbrev signal_and_log : Bool → Effect → Label → Pcb → Scheduler → Scheduler
signal_and_log sent e label p s =
    if sent then emit (log_process_event label p s.clock_value) (emit e s) else s

module _ (os : Os) where
  unfoldable pub update_process_remaining_time : Pcb → Pcb
  update_process_remaining_time p =
      if p.shm_id ==ℤ minus_one
      then p
      else elim (os.shm p.shm_id) [ none ↦ p | some t ↦ record p { remaining_time = t } ]

  -- The control block is in `current_process` when this is called.
  unfoldable pub start_process : Scheduler → Pcb → Scheduler
  start_process s process =
      let p = record process {
        state = running;
        start_time = s.clock_value;
        waiting_time = s.clock_value -ℤ process.arrival_time;
      } in
      let s' = record s {
        current_process = some p;
        start_time = if s.start_time ==ℤ minus_one then s.clock_value else s.start_time;
        active_cpu_time = s.active_cpu_time +ℤ process.execution_time;
        time_slice_start = s.clock_value;
      } in
      if leb_ℤ process.sync_semid (pos 0)
      then s
      else signal_and_log (os.kill p.pid) (continue_process p.pid) started p s'

  unfoldable pub resume_process : Scheduler → Pcb → Scheduler
  resume_process s process =
      let p = record process {
        state = running;
        waiting_time =
            if process.last_prempt_time ==ℤ minus_one
            then process.waiting_time
            else process.waiting_time +ℤ (s.clock_value -ℤ process.last_prempt_time);
      } in
      let s' = record s { current_process = some p; time_slice_start = s.clock_value } in
      signal_and_log (os.kill p.pid) (continue_process p.pid) resumed p s'

  -- The control block of the stopped process, and the scheduler once the signal is sent and logged.
  unfoldable pub signal_stop : Scheduler → Pcb → Pcb × Scheduler
  unfolding update_process_remaining_time
  signal_stop s process =
      let p = record (update_process_remaining_time process) {
        state = ready;
        last_prempt_time = s.clock_value;
      } in
      (
        p,
        signal_and_log (os.kill p.pid) (stop_process p.pid) halted p
            (record s { current_process = some p }),
      )

  -- The progress bar of a stopped process divides by its running time.
  unfoldable pub preempt_process : Scheduler → Pcb → Outcome (Pcb × Scheduler)
  unfolding signal_stop
  preempt_process s process =
      let r = signal_stop s process in
      let total = r.0.execution_time in
      if os.kill r.0.pid
      then (do bar ← print_progress_bar (total -ℤ r.0.remaining_time) total (pos 20); done r)
      else done r

  unfoldable pub ready_up : Scheduler → Pcb → Outcome Scheduler
  ready_up s p =
      if is_rr s.algorithm
      then (do q ← queue_enqueue os.malloc s.rr_queue p; done (record s { rr_queue = q }))
      else (do h ← insert_process_min_heap s.ready_heap p; done (record s { ready_heap = h }))

  -- The search for a control block with a valid semaphore, which changes places with the first.
  unfoldable pub recover_from : PcbQueue → ℕ → ℕ → Outcome PcbQueue
  recover_from q zero i = done q
  recover_from q (suc left) i = do
    let idx = add_size q.front i % q.capacity
    p ← load q.elements idx
    let rest = recover_from q left (i + 1)
    let swapped = do
      temp ← load q.elements q.front
      b ← store q.elements q.front p
      c ← store b idx temp
      done (record q { elements = c })
    if ltb_ℤ (pos 0) p.sync_semid then swapped else rest

  -- The next process of round robin.
  unfoldable pub next_of_queue : PcbQueue → Outcome (Option Pcb × PcbQueue)
  unfolding recover_from
  next_of_queue q = if q.size == 0 then done (none, q) else do
    front_pcb ← queue_front q
    q' ← if leb_ℤ front_pcb.sync_semid (pos 0) then recover_from q q.size 0 else done q
    front_pcb' ← queue_front q'
    done (some front_pcb', queue_dequeue q')

  unfoldable pub take_next : Scheduler → Outcome (Option Pcb × Scheduler)
  unfolding next_of_queue
  take_next s =
      if is_rr s.algorithm
      then (do r ← next_of_queue s.rr_queue; done (r.0, record s { rr_queue = r.1 }))
      else (do r ← extract_min s.ready_heap; done (r.0, record s { ready_heap = r.1 }))

  -- A process without a valid semaphore is skipped.
  unfoldable pub run_next : Option Pcb × Scheduler → Scheduler
  unfolding start_process resume_process
  run_next (none, s) = record s { current_process = none }
  run_next (some p, s) =
      if leb_ℤ p.sync_semid (pos 0)
      then record s { current_process = none }
      else if p.start_time ==ℤ minus_one
      then start_process (record s { current_process = some p }) p
      else resume_process (record s { current_process = some p }) p

  -- What `context_switching` does once no process runs.
  unfoldable pub switch_to_next : Scheduler → Outcome Scheduler
  unfolding take_next run_next
  switch_to_next s = take_next s >>= λ r. done (run_next r)

  unfoldable pub stop_current : Scheduler → Pcb → Outcome Scheduler
  unfolding preempt_process ready_up
  stop_current s p = preempt_process s p >>= λ r. ready_up r.1 r.0

  unfoldable pub context_switching : Scheduler → Outcome Scheduler
  unfolding switch_to_next stop_current update_process_remaining_time
  context_switching s = elim s.current_process [
    | none ↦ switch_to_next s
    | some process ↦
        let p = update_process_remaining_time process in
        let s' = record s { current_process = some p } in
        if p.remaining_time ==ℤ pos 0
        then done s'
        else if is_terminated p.state
        then switch_to_next s'
        else stop_current s' p >>= λ t. switch_to_next t
  ]

  -- The control block that the loop `update_process_remaining_time(current_process)` refreshes.
  abbrev pub refresh_current : Scheduler → Scheduler
  refresh_current s = elim s.current_process [
    | none ↦ s
    | some p ↦ record s { current_process = some (update_process_remaining_time p) }
  ]

  unfoldable pub run_hpf_algorithm : Scheduler → Outcome Scheduler
  run_hpf_algorithm s = elim s.current_process [
    | none ↦ if ltb 0 s.ready_heap.size then context_switching s else done s
    | some p ↦ done s
  ]

  abbrev is_longer : Option Pcb → Pcb → Bool
  is_longer none shortest = true
  is_longer (some p) shortest = ltb_ℤ shortest.remaining_time p.remaining_time

  unfoldable pub run_srtn_algorithm : Scheduler → Outcome Scheduler
  run_srtn_algorithm s =
      let s' = refresh_current s in
      let choose = do
        shortest ← load s'.ready_heap.processes 0
        if is_longer s'.current_process shortest then context_switching s' else done s'
      in if ltb 0 s'.ready_heap.size then choose else done s'

  abbrev pub slice_over : Scheduler → Bool
  slice_over s = leb_ℤ s.quantum (s.clock_value -ℤ s.time_slice_start) && ltb 0 s.rr_queue.size

  abbrev end_slice : Scheduler → Outcome Scheduler
  end_slice s = elim s.current_process [
    | none ↦ done s
    | some p ↦ let s' = refresh_current s in if slice_over s' then context_switching s' else done s'
  ]

  unfoldable pub run_rr_algorithm : Scheduler → Outcome Scheduler
  run_rr_algorithm s = elim s.current_process [
    | none ↦ (if ltb 0 s.rr_queue.size then context_switching s else done s) >>= end_slice
    | some p ↦ end_slice s
  ]

  unfoldable pub run_algorithm : Scheduler → Outcome Scheduler
  unfolding run_hpf_algorithm run_srtn_algorithm run_rr_algorithm
  run_algorithm s = elim s.algorithm [
    | hpf ↦ run_hpf_algorithm s
    | srtn ↦ run_srtn_algorithm s
    | rr ↦ run_rr_algorithm s
    | other ↦ done s
  ]
