-- ===== src/Scheduler/Keep.antt =====
-- The switches of src/scheduler.c account for every process.
use mathlib.Core.List.Perm
use kernel_sim.Base.{
  ℕ, ◌≤◌, ◌≡◌, refl, inl, inr, List, ◌∷◌, Option, none, some, Bool-cases, Option-cases, arith,
}
use kernel_sim.Base.Int.{ℤ, pos, minus_one, ◌==ℤ◌}
use kernel_sim.Base.Array.{length}
use kernel_sim.Base.Outcome.{Ends, ends, Ends-then, Ends-weaken, Ends-branch}
use kernel_sim.Pcb.{Pcb}
use kernel_sim.Queue.Inv.{Allocates}
use kernel_sim.Scheduler.{
  Os, Scheduler, signal_stop, stop_current, context_switching, update_process_remaining_time,
  refresh_current,
}
use kernel_sim.Scheduler.Stop.{preempt_process-signal_stop, preempted, signal_stop_kept}
use kernel_sim.Scheduler.Account.{
  AllCanStart-cons, CanRun, Books, SameBooks, same_books, SameBooks-trans, Accounts, Settled,
  settled, Accounts-moved, Accounts-length,
}
use kernel_sim.Scheduler.Turn.{
  HoldsReady-moved, SameBooks-if, ready_up-HoldsReady, switch_to_next-Settled,
}

-- `q` is `p` but for its times and its state.
pub record SameProcess (p q : Pcb) : Type 0 where
  pub id : q.id_from_file ≡ p.id_from_file
  pub semaphore : q.sync_semid ≡ p.sync_semid
  pub execution : q.execution_time ≡ p.execution_time

module _ (os : Os) where
  pub update-SameProcess :
      (p : Pcb)
      → SameProcess p (update_process_remaining_time os p)
        × ((update_process_remaining_time os p).state ≡ p.state)
  unfolding update_process_remaining_time
  update-SameProcess p = elim (Bool-cases (p.shm_id ==ℤ minus_one)) [
    | inl gone ↦ rw gone (record { id = refl; semaphore = refl; execution = refl }, refl)
    | inr there ↦ elim (Option-cases (os.shm p.shm_id)) [
      | inl failed ↦
          rw (there, failed) (record { id = refl; semaphore = refl; execution = refl }, refl)
      | inr (t, e) ↦ rw (there, e) (record { id = refl; semaphore = refl; execution = refl }, refl)
    ]
  ]

  preempted-SameProcess : (s : Scheduler) (p : Pcb) → SameProcess p (preempted os s p)
  unfolding signal_stop
  preempted-SameProcess s p =
      let same = (update-SameProcess p).0 in
      record { id = same.id; semaphore = same.semaphore; execution = same.execution }

  signal_stop-SameBooks : (s : Scheduler) (p : Pcb) → SameBooks s (signal_stop os s p).1
  unfolding signal_stop
  signal_stop-SameBooks s p =
      SameBooks-if (os.kill (update_process_remaining_time os p).pid)
        (same_books refl refl refl refl refl refl refl)
        (same_books refl refl refl refl refl refl refl)

  update-CanRun : (p : Pcb) → CanRun p → CanRun (update_process_remaining_time os p)
  update-CanRun p can =
      let (same, state) = update-SameProcess p in
      record {
        semaphore = rw same.semaphore can.semaphore;
        alive = rw state can.alive;
        running_time = rw same.execution can.running_time;
      }

  pub updated-Accounts :
      (n : ℕ) (g : Books) (received : List ℤ) (s : Scheduler) (p : Pcb)
      → Accounts n g received (record s { current_process = some p })
      → Accounts n g received
          (record s { current_process = some (update_process_remaining_time os p) })
  updated-Accounts n g received s p a =
      Accounts-moved a.waiting a (same_books refl refl refl refl refl refl refl) a.holds
        a.semaphores (update-CanRun p a.current) (rw (update-SameProcess p).0.id Perm.rfl)

  refresh_from :
      (n : ℕ) (g : Books) (received : List ℤ) (s : Scheduler) (current : Option Pcb)
      → let s' = record s { current_process = current } in
        Accounts n g received s' → Accounts n g received (refresh_current os s')
  refresh_from n g received s none a = a
  refresh_from n g received s (some p) a = updated-Accounts n g received s p a

  pub refresh_current-Accounts :
      (n : ℕ) (g : Books) (received : List ℤ) (s : Scheduler)
      → Accounts n g received s
      → Accounts n g received (refresh_current os s)
  refresh_current-Accounts n g received s a = refresh_from n g received s s.current_process a

  module _ (alloc : Allocates os.malloc) where
    stop_current-Accounts :
        (n : ℕ) (g : Books) (received : List ℤ) (s : Scheduler) (p : Pcb)
        → Accounts n g received (record s { current_process = some p })
        → length received ≤ n
        → Ends
            (λ t. Accounts n g received (record t { current_process = none }))
            (stop_current os s p)
    unfolding stop_current
    stop_current-Accounts n g received s p a few =
        let r = signal_stop os s p in
        let (heap, algorithm, queue) = signal_stop_kept os s p in
        let same = preempted-SameProcess s p in
        let b = signal_stop-SameBooks s p in
        let count = Accounts-length a in
        rw (preempt_process-signal_stop os s p a.current.running_time) (
          Ends-weaken
            (ready_up-HoldsReady os alloc n r.1 r.0 a.waiting
              (HoldsReady-moved s r.1 a.holds algorithm queue heap) (omega (arith, count)))
            λ t (holds, books, _).
              let c = SameBooks-trans b books in
              Accounts-moved (r.0 ∷ a.waiting) a
                (same_books c.algorithm c.generator c.finished c.count c.turnaround c.wait
                  c.processes)
                holds
                (AllCanStart-cons r.0 a.waiting
                  (rw same.semaphore a.current.semaphore, rw same.execution a.current.running_time)
                  a.semaphores)
                tt (rw same.id Perm.rfl))

    switch_from :
        (n : ℕ) (g : Books) (received : List ℤ) (s : Scheduler) (current : Option Pcb)
        → length received ≤ n
        → let s' = record s { current_process = current } in
          Accounts n g received s' → Ends (Settled n g received) (context_switching os s')
    unfolding context_switching
    switch_from n g received s none few a =
        switch_to_next-Settled os alloc n g received (record s { current_process = none }) a
    switch_from n g received s (some p) few a =
        let p' = update_process_remaining_time os p in
        let a' = updated-Accounts n g received s p a in
        Ends-branch (p'.remaining_time ==ℤ pos 0) (λ over. ends (settled a' refl))
          (λ more. rw a'.current.alive (
            Ends-then
              (stop_current-Accounts n g received (record s { current_process = some p' }) p' a'
                few)
              λ t stopped. switch_to_next-Settled os alloc n g received t stopped))

    -- A switch under any algorithm ends, accounts for every process and leaves the processor idle
    -- only when no process is ready.
    pub context_switching-Settled :
        (n : ℕ) (g : Books) (received : List ℤ) (s : Scheduler)
        → length received ≤ n
        → Accounts n g received s
        → Ends (Settled n g received) (context_switching os s)
    context_switching-Settled n g received s few a =
        switch_from n g received s s.current_process few a
