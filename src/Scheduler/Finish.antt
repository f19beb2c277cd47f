-- ===== src/Scheduler/Finish.antt =====
-- The scheduler of src/scheduler.c cannot get stuck: once the generator has reported its end, ends
-- of the current processes and rounds in between lead out of the loop of `main`.
use mathlib.Core.Bool.{true≢false}
use kernel_sim.Base.{
  ℕ, zero, suc, ◌+◌, ◌≤◌, ◌≡◌, refl, ap, ◌∙◌, Bool-cases, inl, inr, true, false, List, [], ◌∷◌,
  Option, none, some, Perm, arith,
}
use kernel_sim.Base.Int.{ℤ, pos, ◌+ℤ◌, ◌==ℤ◌, +ℤ_parts}
use kernel_sim.Base.Array.{length}
use kernel_sim.Base.Outcome.{Ends-value}
use kernel_sim.Pcb.{Pcb}
use kernel_sim.Queue.Inv.{Allocates}
use kernel_sim.Scheduler.{Os, Scheduler}
use kernel_sim.Scheduler.Complete.{is_over, is_idle, nothing_ready}
use kernel_sim.Scheduler.Account.{
  ids, length-ids, current_ids, finished_ids, AllCanStart, Books, books_of, Accounts,
  Accounts-length, none_waits,
}
use kernel_sim.Scheduler.Round.{completed, tick-Settled, handle_process_completion-Accounts}
use kernel_sim.Scheduler.Run as R
use kernel_sim.Scheduler.Run.{Run, own, over_from}

completed_books :
    (g : Books) (current : Option Pcb)
    → ((completed g current).generator_finished ≡ g.generator_finished)
      × (is_idle current ≡ false → length (completed g current).finished ≡ suc (length g.finished))
completed_books g none = (refl, λ e. absurd (true≢false e))
completed_books g (some p) = (refl, λ e. refl)

later : (t : ℤ) → (t ==ℤ t +ℤ pos 1) ≡ false
later t = ground (arith, +ℤ_parts t (pos 1))

idle_current : (current : Option Pcb) → length (current_ids current) ≡ 0 → is_idle current ≡ true
idle_current none e = refl
idle_current (some p) e = absurd (omega arith)

empty_list : (ps : List Pcb) → length ps ≡ 0 → ps ≡ []
empty_list [] e = refl
empty_list (p ∷ ps) e = absurd (omega arith)

settled_over :
    (s : Scheduler)
    → s.generator_finished ≡ true
    → nothing_ready s ≡ true
    → is_idle s.current_process ≡ true
    → is_over s ≡ true
unfolding is_over
settled_over s g empty idle = rw (g, empty, idle) refl

-- From step `began` and the state `s` on, a run that receives nothing more is over, and the ends of
-- the processes `received` are in its log.
pub record Finished (os : ℕ → Os) (began : ℕ) (s : Scheduler) (received : List ℤ) : Type 0 where
  pub steps : ℕ
  pub last : Scheduler
  pub run : Run os began s steps [] last
  pub over : is_over last ≡ true
  pub all : Perm (finished_ids last.effects) received

module _ (os : ℕ → Os) (alloc : (k : ℕ) → Allocates (os k).malloc) where
  module _ (n began : ℕ) (first : Scheduler) (received : List ℤ) (few : length received ≤ n) where
    -- With at most `left` processes to finish, a run can be finished.
    abbrev Finishes : ℕ → Type 0
    Finishes left =
        (k : ℕ) (s : Scheduler)
        → Run os began first k [] s
        → s.generator_finished ≡ true
        → Accounts n (books_of s) received s
        → length received ≤ s.finished_processes + left
        → Finished os began first received

    ended_at :
        {g : Books} (k : ℕ) (s : Scheduler)
        → Run os began first k [] s
        → Accounts n g received s
        → is_over s ≡ true
        → Finished os began first received
    ended_at {g} k s r a over = record {
      steps = k;
      last = s;
      run = r;
      over = over;
      all = over_from n g received s s.current_process a over;
    }

    -- The current process ends.
    finish_current :
        (left : ℕ)
        → Finishes left
        → (k : ℕ) (s : Scheduler) → Run os began first k [] s
        → s.generator_finished ≡ true
        → Accounts n (books_of s) received s
        → length received ≤ s.finished_processes + suc left
        → is_idle s.current_process ≡ false
        → Finished os began first received
    finish_current left rest k s r g a enough busy =
        let (t, e, b) = Ends-value (
          handle_process_completion-Accounts (os k) (alloc k) n (books_of s) received s (pos 0) few
            a) in
        let (kept, more) = completed_books (books_of s) s.current_process in
        rest (suc k) t (R.completed (pos 0) r e) (b.generator ∙ kept ∙ g) (own b)
          (omega (arith, b.count, ap length b.finished, more busy, a.count))

    -- Nobody is current: in the next round one becomes current, or the run is over.
    next_round :
        (left : ℕ)
        → Finishes left
        → (k : ℕ) (s : Scheduler) → Run os began first k [] s
        → s.generator_finished ≡ true
        → Accounts n (books_of s) received s
        → length received ≤ s.finished_processes + suc left
        → is_over s ≡ false
        → Finished os began first received
    next_round left rest k s r g a enough more =
        let now = s.clock_value +ℤ pos 1 in
        let (t, e, b) = Ends-value (
          tick-Settled (os k) (alloc k) n (books_of s) received s now (few) (later s.clock_value)
            a) in
        let r' : Run os began first (suc k) [] t = R.ticked [] now r more e in
        let c = b.accounts in
        elim (Bool-cases (is_idle t.current_process)) [
          | inl idle ↦
              let over : is_over t ≡ true = settled_over t (c.generator ∙ g) (b.busy idle) idle in
              ended_at (suc k) t r' c over
          | inr busy ↦
              finish_current left rest (suc k) t r' (c.generator ∙ g) (own c)
                (omega (arith, c.count, ap length c.finished, a.count)) busy
        ]

    finish : (left : ℕ) → Finishes left
    finish zero k s r g a enough =
        let counted = Accounts-length a in
        let over : is_over s ≡ true =
          settled_over s g
            (none_waits n s (rw (empty_list a.waiting (omega (arith, counted))) at a.holds))
            (idle_current s.current_process (omega (arith, counted))) in
        ended_at k s r a over
    finish (suc left) k s r g a enough = elim (Bool-cases (is_over s)) [
      | inl over ↦ ended_at k s r a over
      | inr more ↦ elim (Bool-cases (is_idle s.current_process)) [
        | inl idle ↦ next_round left (finish left) k s r g a enough more
        | inr busy ↦ finish_current left (finish left) k s r g a enough busy
      ]
    ]

  -- From the last state of a run that has heard of the end of the generator, and has received
  -- processes with semaphores and running times for which there is room, a run that receives
  -- nothing more leaves the loop of main, with the ends of exactly the received processes in the
  -- log.
  pub Run-Finished :
      (n began : ℕ) (first : Scheduler) {k : ℕ} {received : List Pcb} {s : Scheduler}
      → Accounts n (books_of first) [] first
      → length received ≤ n
      → AllCanStart received
      → Run os began first k received s
      → s.generator_finished ≡ true
      → Finished os k s (ids received)
  Run-Finished n began first {k = k} {received = received} {s = s} a few sem r g =
      finish n k s (ids received) (omega (arith, length-ids received)) (length received) k s R.start
        g (R.Run-Accounts os alloc n began first a few sem r) (omega (arith, length-ids received))
