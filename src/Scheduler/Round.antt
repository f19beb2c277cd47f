-- ===== src/Scheduler/Round.antt =====
-- The rounds of the loop of `main` in src/scheduler.c and the handler of SIGUSR2 account for every
-- process.
use mathlib.Core.List.{perm_middle}
use mathlib.Core.List.Perm
use kernel_sim.Base.{
  ℕ, ◌+◌, ◌≤◌, ◌≡◌, refl, ap, ◌&&◌, false, List, [], ◌∷◌, ◌++◌, Bool-cases, inl, inr, Option, none,
  some, arith,
}
use kernel_sim.Base.Int.{ℤ, pos, minus_one, ◌-ℤ◌, ◌==ℤ◌}
use kernel_sim.Base.Array
use kernel_sim.Base.Array.{length}
use kernel_sim.Base.Outcome.{Ends, ends, Ends-then, Ends-branch, Ends-weaken, done, ◌>>=◌}
use kernel_sim.Pcb.{Pcb}
use kernel_sim.Queue.Inv.{Allocates}
use kernel_sim.Logger.Bar.{print_progress_bar-ends}
use kernel_sim.Scheduler.{
  Os, Scheduler, Effect, is_srtn, run_algorithm, refresh_current, update_process_remaining_time,
}
use kernel_sim.Scheduler.Complete.{
  detached, record_completion, handle_process_completion, release_current, tick,
}
use kernel_sim.Scheduler.Arrive.{receive_new_process}
use kernel_sim.Scheduler.Account.{
  ids, length-ids, finished_ids, AllCanStart, Books, same_books, Accounts, Settled, settled,
  Accounts-moved, Accounts-length,
}
use kernel_sim.Scheduler.Keep.{
  update-SameProcess, refresh_current-Accounts, context_switching-Settled,
}
use kernel_sim.Scheduler.Algorithms.{run_algorithm-Settled}
use kernel_sim.Scheduler.Receive.{receive_new_process-Accounts}

finished_ids-detached :
    (p : Pcb) (es : List Effect) → finished_ids (detached p ++ es) ≡ finished_ids es
finished_ids-detached p es = elim (Bool-cases (p.shm_id ==ℤ minus_one)) [
  | inl gone ↦ rw gone refl
  | inr there ↦ rw there refl
]

-- The books after the end of the current process.
abbrev pub completed : Books → Option Pcb → Books
completed g none = g
completed g (some p) = record g { finished = p.id_from_file ∷ g.finished }

module _ (os : Os) where
  -- The current process moves from the processor to the log.
  record_completion-Accounts :
      (n : ℕ) (g : Books) (received : List ℤ) (s : Scheduler) (p : Pcb)
      → length received ≤ n
      → Accounts n g received (record s { current_process = some p })
      → Ends (Accounts n (completed g (some p)) received) (record_completion os s p)
  unfolding record_completion
  record_completion-Accounts n g received s p few a =
      let q = update_process_remaining_time os p in
      let k = s.finished_processes in
      let ta = s.clock_value -ℤ q.arrival_time in
      let wait = ta -ℤ q.execution_time in
      let counted = Accounts-length a in
      let (same, state) = update-SameProcess os p in
      let before = finished_ids-detached q s.effects in
      let some_received : (s.process_count ==ℤ pos 0) ≡ false =
        rw a.processes (ground (arith, counted)) in
      let (bar, printed) =
        print_progress_bar-ends (pos (k + 1)) s.process_count (pos 20) some_received in
      rw
        (
          Array.store-set s.turnaround_times k ta (omega (arith, a.turnaround)),
          Array.store-set s.wait_times k wait (omega (arith, a.wait)),
          printed,
        )
        (ends (record {
          waiting = a.waiting;
          holds = a.holds;
          semaphores = a.semaphores;
          current = tt;
          all =
              rw (before, same.id)
                (Perm.trans (Perm.symm (perm_middle (finished_ids s.effects) (ids a.waiting)))
                  a.all);
          known = a.known;
          generator = a.generator;
          finished = rw (before, same.id) (ap (λ l. p.id_from_file ∷ l) a.finished);
          count = omega (arith, a.count, ap length before);
          turnaround = rw (Array.length-set s.turnaround_times k ta) a.turnaround;
          wait = rw (Array.length-set s.wait_times k wait) a.wait;
          processes = a.processes;
        }))

  release_from :
      (n : ℕ) (g : Books) (received : List ℤ) (s : Scheduler) (current : Option Pcb)
      → let s' = record s { current_process = current } in
        Accounts n g received s' → Accounts n g received (release_current os s')
  release_from n g received s none a = a
  release_from n g received s (some p) a =
      Accounts-moved a.waiting a (same_books refl refl refl refl refl refl refl) a.holds
        a.semaphores a.current Perm.rfl

  at_time :
      (n : ℕ) (g : Books) (received : List ℤ) (s : Scheduler) (now : ℤ)
      → Accounts n g received s
      → Accounts n g received (record s { clock_value = now })
  at_time n g received s now a =
      Accounts-moved a.waiting a (same_books refl refl refl refl refl refl refl) a.holds
        a.semaphores a.current Perm.rfl

  released :
      (n : ℕ) (g : Books) (received : List ℤ) (s : Scheduler) (current : Option Pcb)
      → let s' = record s { current_process = current } in
        Settled n g received s' → Settled n g received (refresh_current os (release_current os s'))
  released n g received s none c = c
  released n g received s (some p) c =
      let s' = record s { current_process = some p } in
      let released = release_from n g received s (some p) c.accounts in
      settled (refresh_current-Accounts os n g received (release_current os s') released) refl

  module _ (alloc : Allocates os.malloc) where
    complete_from :
        (n : ℕ) (g : Books) (received : List ℤ) (s : Scheduler) (current : Option Pcb) (now : ℤ)
        → length received ≤ n
        → let s' = record s { current_process = current } in
          Accounts n g received s'
          → Ends (Accounts n (completed g current) received) (handle_process_completion os s' now)
    unfolding handle_process_completion
    complete_from n g received s none now few a =
        ends (at_time n g received (record s { current_process = none }) now a)
    complete_from n g received s (some p) now few a =
        let s' = record s { current_process = some p; clock_value = now } in
        Ends-then
          (record_completion-Accounts n g received s' p few
            (at_time n g received (record s { current_process = some p }) now a))
          λ t b.
            Ends-branch (t.generator_finished && is_srtn t.algorithm)
              (λ at_once.
                Ends-weaken
                  (context_switching-Settled os alloc n (completed g (some p)) received t few b)
                  λ u settled. settled.accounts)
              (λ later. ends b)

    -- When malloc allocates what is asked for: from a state that accounts for at most as many
    -- processes as there is room for, each with a semaphore and a running time other than 0, the
    -- handler of SIGUSR2 ends, accounts for the same, and puts the end of the current process,
    -- and of no other, into the log.
    pub handle_process_completion-Accounts :
        (n : ℕ) (g : Books) (received : List ℤ) (s : Scheduler) (now : ℤ)
        → length received ≤ n
        → Accounts n g received s
        → Ends
            (Accounts n (completed g s.current_process) received)
            (handle_process_completion os s now)
    handle_process_completion-Accounts n g received s now few a =
        complete_from n g received s s.current_process now few a

    -- The rest of a round, once the messages have been received.
    round_from :
        (n : ℕ) (g : Books) (received : List ℤ) (t : Scheduler) (now : ℤ)
        → length received ≤ n
        → Accounts n g received t
        → Ends (Settled n g received) (do
          u ← run_algorithm os (record t { clock_value = now })
          done (refresh_current os (release_current os u)))
    round_from n g received t now few b =
        Ends-then
          (run_algorithm-Settled os alloc n g received (record t { clock_value = now }) few
            (at_time n g received t now b))
          λ u c. ends (released n g received u u.current_process c)

    -- When malloc allocates what is asked for: from a state that accounts for what was received,
    -- where each process has a semaphore and a running time other than 0, a round of the loop of
    -- main, once the scheduler has its semaphore, whatever messages it finds, as long as there is
    -- room for them and each has a semaphore and a running time other than 0, ends; it accounts
    -- for their processes, too, and puts no end into the log.
    pub tick-Accounts :
        (n : ℕ) (g : Books) (received : List ℤ) (s : Scheduler) (messages : List Pcb) (now : ℤ)
        → length received + length messages ≤ n
        → AllCanStart messages
        → Accounts n g received s
        → Ends (Accounts n g (received ++ ids messages)) (tick os s messages now)
    unfolding tick
    tick-Accounts n g received s messages now few sem a =
        let all = received ++ ids messages in
        let in_all : length all ≤ n =
          omega (arith, Array.length-append received (ids messages), length-ids messages) in
        Ends-then (receive_new_process-Accounts os alloc n g received s messages few sem a) λ t b.
          Ends-branch (t.clock_value ==ℤ now) (λ again. ends b)
            (λ next. Ends-weaken (round_from n g all t now in_all b) λ u settled. settled.accounts)

    -- A round without messages, once the clock has moved.
    pub tick-Settled :
        (n : ℕ) (g : Books) (received : List ℤ) (s : Scheduler) (now : ℤ)
        → length received ≤ n
        → (s.clock_value ==ℤ now) ≡ false
        → Accounts n g received s
        → Ends (Settled n g received) (tick os s [] now)
    unfolding tick receive_new_process
    tick-Settled n g received s now few moved a = rw moved (round_from n g received s now few a)
