-- ===== src/Scheduler/Run.antt =====
-- Runs of the scheduler of src/scheduler.c: the rounds of the loop of `main`, between which its two
-- signal handlers can come at any time.
use mathlib.Core.List.{map-append, mem-append_left, mem-append_right, append-nil}
use kernel_sim.Base.{
  ℕ, suc, ◌≤◌, ◌≡◌, refl, true, false, List, [], ◌++◌, Option, none, some, Perm, arith,
}
use kernel_sim.Base.Int.{ℤ}
use kernel_sim.Base.Array
use kernel_sim.Base.Array.{length}
use kernel_sim.Base.Outcome.{done, ended}
use kernel_sim.Pcb.{Pcb}
use kernel_sim.Queue.Inv.{Allocates}
use kernel_sim.Scheduler.{Os, Scheduler}
use kernel_sim.Scheduler.Complete.{
  tick, is_over, nothing_ready, handle_process_completion, handle_generator_completion,
}
use kernel_sim.Scheduler.Account.{
  ids, length-ids, finished_ids, AllCanStart, Accounts, nothing_waits, books_of, Books,
}
use kernel_sim.Scheduler.Round.{tick-Accounts, handle_process_completion-Accounts}

-- `os k` is how the operating system answers in step `k`. A run begins with some step, in some state;
-- it is indexed by the next step and by the processes that have been received. A round in which the
-- scheduler does not get its semaphore does nothing and is left out, as is the wait for the next tick.
module _ (os : ℕ → Os) where
  pub data Run (began : ℕ) (first : Scheduler) : ℕ → List Pcb → Scheduler → Type 0 where
    start : Run began first began [] first
    ticked :
        {k : ℕ} {received : List Pcb} {s t : Scheduler} (messages : List Pcb) (now : ℤ)
        → Run began first k received s
        → is_over s ≡ false
        → tick (os k) s messages now ≡ done t
        → Run began first (suc k) (received ++ messages) t
    completed :
        {k : ℕ} {received : List Pcb} {s t : Scheduler} (now : ℤ)
        → Run began first k received s
        → handle_process_completion (os k) s now ≡ done t
        → Run began first (suc k) received t
    generator_completed :
        {k : ℕ} {received : List Pcb} {s : Scheduler}
        → Run began first k received s
        → Run began first (suc k) received (handle_generator_completion s)

pub over_from :
    (n : ℕ) (g : Books) (received : List ℤ) (s : Scheduler) (current : Option Pcb)
    → let s' = record s { current_process = current } in
      Accounts n g received s' → is_over s' ≡ true → Perm (finished_ids s.effects) received
unfolding is_over
over_from n g received s none a over =
    let none_ready : nothing_ready s ≡ true = ground arith in
    let empty = nothing_waits n s a.waiting a.holds none_ready in rw (empty, append-nil) at a.all
over_from n g received s (some p) a over = absurd (ground arith)

-- The books are read off the state.
pub own :
    {n : ℕ} {g : Books} {received : List ℤ} {s : Scheduler}
    → Accounts n g received s
    → Accounts n (books_of s) received s
own a = record {
  waiting = a.waiting;
  holds = a.holds;
  semaphores = a.semaphores;
  current = a.current;
  all = a.all;
  known = a.known;
  generator = refl;
  finished = refl;
  count = a.count;
  turnaround = a.turnaround;
  wait = a.wait;
  processes = a.processes;
}

handle_generator_completion-Accounts :
    (n : ℕ) (g : Books) (received : List ℤ) (s : Scheduler)
    → Accounts n g received s
    → Accounts n (record g { generator_finished = true }) received (handle_generator_completion s)
unfolding handle_generator_completion
handle_generator_completion-Accounts n g received s a = record {
  waiting = a.waiting;
  holds = a.holds;
  semaphores = a.semaphores;
  current = a.current;
  all = a.all;
  known = a.known;
  generator = refl;
  finished = a.finished;
  count = a.count;
  turnaround = a.turnaround;
  wait = a.wait;
  processes = a.processes;
}

module _ (os : ℕ → Os) (alloc : (k : ℕ) → Allocates (os k).malloc) where
  -- When malloc allocates what is asked for: in every state that rounds of main and signals, in
  -- any order, lead to from one that accounts for nothing, with at most as many processes
  -- received as there is room for, and a semaphore and a running time other than 0 for each, the
  -- scheduler accounts for them: each received process has its end in the log, is current, or is
  -- ready, exactly once; finished_processes counts the ends and process_count what was received,
  -- and the ready structure is valid.
  pub Run-Accounts :
      (n began : ℕ) (first : Scheduler) {k : ℕ} {received : List Pcb} {s : Scheduler}
      → Accounts n (books_of first) [] first
      → length received ≤ n
      → AllCanStart received
      → Run os began first k received s
      → Accounts n (books_of s) (ids received) s
  Run-Accounts n began first a few sem start = own a
  Run-Accounts n began first a few sem
        (ticked {k = k} {received = received} {s = s} messages now r more e) =
      let size = Array.length-append received messages in
      let before =
        Run-Accounts n began first a (omega (arith, size))
          (λ p m. sem p (mem-append_left messages m)) r in
      let after =
        tick-Accounts (os k) (alloc k) n (books_of s) (ids received) s messages now
          (omega (arith, size, length-ids received)) (λ p m. sem p (mem-append_right received m))
          before in
      rw (map-append (λ p. p.id_from_file) received messages) (own (ended (rw e at after)))
  Run-Accounts n began first a few sem (completed {k = k} {received = received} {s = s} now r e) =
      let before = Run-Accounts n began first a few sem r in
      let after =
        handle_process_completion-Accounts (os k) (alloc k) n (books_of s) (ids received) s now
          (omega (arith, length-ids received)) before in
      own (ended (rw e at after))
  Run-Accounts n began first a few sem (generator_completed {received = received} {s = s} r) = own (
      handle_generator_completion-Accounts n (books_of s) (ids received) s
        (Run-Accounts n began first a few sem r))

  -- From a state that accounts for nothing, with room for all that is received, and a semaphore and
  -- a running time for each: when a run leaves the loop of main, the ids whose end is in the log
  -- are, in some order, those received, and finished_processes is their number.
  pub Run_over :
      (n began : ℕ) (first : Scheduler) {k : ℕ} {received : List Pcb} {s : Scheduler}
      → Accounts n (books_of first) [] first
      → length received ≤ n
      → AllCanStart received
      → Run os began first k received s
      → is_over s ≡ true
      → Perm (finished_ids s.effects) (ids received) × (s.finished_processes ≡ length received)
  Run_over n began first {received = received} {s = s} a few sem r over =
      let b = Run-Accounts n began first a few sem r in
      let same = over_from n (books_of s) (ids received) s s.current_process b over in
      (same, omega (arith, b.count, Array.length-Perm same, length-ids received))
