-- ===== src/Scheduler/Complete.antt =====
-- The end of a process in src/scheduler.c (`handle_process_completion`, the handler of SIGUSR2), the
-- work of one clock tick in `main`, and the test that ends its loop.
use mathlib.Core.Path.{ap₂}
use kernel_sim.Base.{
  ℕ, ◌+◌, ◌<◌, ◌≡◌, refl, Bool, true, false, ◌&&◌, List, [], ◌∷◌, ◌++◌, Option, none, some, ◌==◌,
  if◌then◌else◌, ap, ◌∙◌,
}
use kernel_sim.Base.Int.{ℤ, pos, minus_one, ◌-ℤ◌, ◌==ℤ◌}
use kernel_sim.Base.Array
use kernel_sim.Base.Array.{length, load, store, get_or}
use kernel_sim.Base.Outcome.{Outcome, done, ◌>>=◌, Ends, ends}
use kernel_sim.Pcb.{Pcb, terminated}
use kernel_sim.Logger.{print_progress_bar}
use kernel_sim.Logger.Bar.{print_progress_bar-ends}
use kernel_sim.Scheduler.{
  Os, Scheduler, Effect, remove_shm, remove_semaphore, set_semaphore, log_process_event, finished,
  emit, is_rr, is_srtn, update_process_remaining_time, refresh_current, context_switching,
  run_algorithm,
}
use kernel_sim.Scheduler.Stop.{updated_times}
use kernel_sim.Scheduler.Arrive.{receive_new_process}

abbrev pub detached : Pcb → List Effect
detached p = if p.shm_id ==ℤ minus_one then [] else remove_shm p.shm_id ∷ []

-- The control block that the log line of the end shows.
abbrev pub ended : Pcb → Pcb
ended p = record p { shm_id = minus_one; state = terminated }

module _ (os : Os) where
  unfoldable pub record_completion : Scheduler → Pcb → Outcome Scheduler
  unfolding update_process_remaining_time
  record_completion s process = do
    let p = update_process_remaining_time os process
    let ta = s.clock_value -ℤ p.arrival_time
    turnaround ← store s.turnaround_times s.finished_processes ta
    wait ← store s.wait_times s.finished_processes (ta -ℤ p.execution_time)
    bar ← print_progress_bar (pos (s.finished_processes + 1)) s.process_count (pos 20)
    done (record s {
      effects =
          remove_semaphore p.sync_semid
          ∷ log_process_event finished (ended p) s.clock_value
          ∷ (detached p ++ s.effects);
      turnaround_times = turnaround;
      wait_times = wait;
      finished_processes = s.finished_processes + 1;
      current_process = none;
    })

  -- `now` is what `get_clk` returns.
  unfoldable pub handle_process_completion : Scheduler → ℤ → Outcome Scheduler
  unfolding record_completion
  handle_process_completion s now = elim s.current_process [
    | none ↦ done (record s { clock_value = now })
    | some p ↦ do
      t ← record_completion (record s { clock_value = now }) p
      if t.generator_finished && is_srtn t.algorithm then context_switching os t else done t
  ]

  abbrev pub release_current : Scheduler → Scheduler
  release_current s = elim s.current_process [
    | none ↦ s
    | some p ↦ emit (set_semaphore p.sync_semid) s
  ]

  -- One round of the loop of `main` after the scheduler got its semaphore.
  unfoldable pub tick : Scheduler → List Pcb → ℤ → Outcome Scheduler
  unfolding receive_new_process run_algorithm
  tick s messages now = do
    received ← receive_new_process os s messages
    let run = do
      t ← run_algorithm os (record received { clock_value = now })
      done (refresh_current os (release_current t))
    if received.clock_value ==ℤ now then done received else run

abbrev pub nothing_ready : Scheduler → Bool
nothing_ready s = if is_rr s.algorithm then s.rr_queue.size == 0 else s.ready_heap.size == 0

abbrev pub is_idle : Option Pcb → Bool
is_idle none = true
is_idle (some p) = false

unfoldable pub is_over : Scheduler → Bool
is_over s = s.generator_finished && nothing_ready s && is_idle s.current_process

unfoldable pub handle_generator_completion : Scheduler → Scheduler
handle_generator_completion s = record s { generator_finished = true }

-- The books after the end of a process that arrived at `arrival` and needed `execution`.
pub record Booked (s : Scheduler) (now arrival execution : ℤ) (s' : Scheduler) : Type 0 where
  pub turnaround : get_or s'.turnaround_times s.finished_processes (pos 0) ≡ now -ℤ arrival
  pub wait : get_or s'.wait_times s.finished_processes (pos 0) ≡ now -ℤ arrival -ℤ execution
  pub earlier :
      (i : ℕ)
      → i < s.finished_processes
      → get_or s'.turnaround_times i (pos 0) ≡ get_or s.turnaround_times i (pos 0)
  pub earlier_wait :
      (i : ℕ)
      → i < s.finished_processes
      → get_or s'.wait_times i (pos 0) ≡ get_or s.wait_times i (pos 0)
  pub count : s'.finished_processes ≡ s.finished_processes + 1
  pub current : s'.current_process ≡ none
  pub heap : s'.ready_heap ≡ s.ready_heap
  pub queue : s'.rr_queue ≡ s.rr_queue

-- While the arrays of the statistics have room, when process_count is not 0 and unless SRTN
-- switches at once, the end of the current process files its turnaround and waiting times, keeps
-- those of both kinds filed before, frees the processor and leaves the ready processes alone.
pub handle_process_completion-Booked :
    (os : Os) (s : Scheduler) (p : Pcb) (now : ℤ)
    → s.current_process ≡ some p
    → s.finished_processes < length s.turnaround_times
    → s.finished_processes < length s.wait_times
    → (s.generator_finished && is_srtn s.algorithm) ≡ false
    → (s.process_count ==ℤ pos 0) ≡ false
    → Ends (Booked s now p.arrival_time p.execution_time) (handle_process_completion os s now)
unfolding handle_process_completion record_completion
handle_process_completion-Booked os s p now runs room room_wait calm counted =
    let q = update_process_remaining_time os p in
    let (arrival, execution) = updated_times os p in
    let ta = now -ℤ q.arrival_time in
    let same : ta ≡ now -ℤ p.arrival_time = ap (λ t. now -ℤ t) arrival in
    let n = s.finished_processes in
    let (bar, printed) = print_progress_bar-ends (pos (n + 1)) s.process_count (pos 20) counted in
    rw
      (
        runs,
        Array.store-set s.turnaround_times n ta room,
        Array.store-set s.wait_times n (ta -ℤ q.execution_time) room_wait,
        printed,
        calm,
      )
      (ends (record {
        turnaround = Array.get_or-set_same s.turnaround_times n ta (pos 0) room ∙ same;
        wait =
            Array.get_or-set_same s.wait_times n (ta -ℤ q.execution_time) (pos 0) room_wait
            ∙ ap₂ ◌-ℤ◌ same execution;
        earlier = λ i before. Array.get_or-set_other s.turnaround_times n i ta (pos 0) room before;
        earlier_wait = λ i before.
            Array.get_or-set_other s.wait_times n i (ta -ℤ q.execution_time) (pos 0) room_wait
              before;
        count = refl;
        current = refl;
        heap = refl;
        queue = refl;
      }))
