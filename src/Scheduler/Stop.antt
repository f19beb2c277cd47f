-- ===== src/Scheduler/Stop.antt =====
-- `preempt_process` of src/scheduler.c: stopping the running process.
use kernel_sim.Base.{◌≡◌, refl, false, Bool-cases, Option-cases, inl, inr}
use kernel_sim.Base.Int.{pos, minus_one, ◌-ℤ◌, ◌==ℤ◌}
use kernel_sim.Base.Outcome.{done}
use kernel_sim.Pcb.{Pcb}
use kernel_sim.Logger.Bar.{print_progress_bar-ends}
use kernel_sim.Scheduler.{
  Os, Scheduler, preempt_process, signal_stop, update_process_remaining_time,
}

-- The process has a running time, which the progress bar divides by.
abbrev pub HasRunningTime : Pcb → Type 0
HasRunningTime p = (p.execution_time ==ℤ pos 0) ≡ false

module _ (os : Os) where
  -- The control block of a process that has just been stopped.
  abbrev pub preempted : Scheduler → Pcb → Pcb
  preempted s p = (signal_stop os s p).0

  pub signal_stop_kept :
      (s : Scheduler) (p : Pcb)
      → ((signal_stop os s p).1.ready_heap ≡ s.ready_heap)
        × ((signal_stop os s p).1.algorithm ≡ s.algorithm)
        × ((signal_stop os s p).1.rr_queue ≡ s.rr_queue)
  unfolding signal_stop
  signal_stop_kept s p =
      let pid = (update_process_remaining_time os p).pid in
      elim (Bool-cases (os.kill pid)) [
        | inl sent ↦ rw (sent, signal_stop) (refl, refl, refl)
        | inr lost ↦ rw (lost, signal_stop) (refl, refl, refl)
      ]

  -- The remaining time is read; the others stay.
  pub updated_times :
      (p : Pcb)
      → ((update_process_remaining_time os p).arrival_time ≡ p.arrival_time)
        × ((update_process_remaining_time os p).execution_time ≡ p.execution_time)
  unfolding update_process_remaining_time
  updated_times p = elim (Bool-cases (p.shm_id ==ℤ minus_one)) [
    | inl gone ↦ rw gone (refl, refl)
    | inr there ↦ elim (Option-cases (os.shm p.shm_id)) [
      | inl failed ↦ rw (there, failed) (refl, refl)
      | inr (t, e) ↦ rw (there, e) (refl, refl)
    ]
  ]

  -- With a running time to divide by, the progress bar is no obstacle.
  pub preempt_process-signal_stop :
      (s : Scheduler) (p : Pcb)
      → HasRunningTime p
      → preempt_process os s p ≡ done (signal_stop os s p)
  unfolding preempt_process signal_stop
  preempt_process-signal_stop s p time =
      let r = update_process_remaining_time os p in
      let divisor : (r.execution_time ==ℤ pos 0) ≡ false = rw ((updated_times p).1) time in
      let (bar, printed) =
        print_progress_bar-ends (r.execution_time -ℤ r.remaining_time) r.execution_time (pos 20)
          divisor in
      elim (Bool-cases (os.kill r.pid)) [
        | inl sent ↦ rw (sent, printed) refl
        | inr lost ↦ rw lost refl
      ]
