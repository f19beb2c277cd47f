-- ===== src/SimulatedProcess/Work.antt =====
-- A process ends after as many ticks as its running time.
use kernel_sim.Base.{ℕ, zero, suc, ◌-◌, ◌<◌, ◌≡◌, refl, true, leb, List, [], ◌∷◌, arith}
use kernel_sim.Base.Int.{ℤ, pos, negsuc, ◌-ℤ◌, ◌<ℤ◌, ltb_ℤ, leb_ℤ}
use kernel_sim.Base.Outcome.{fault, Ends, ends, Ends-then, Ends-weaken, Ends-branch}
use kernel_sim.Logger.{ProgressBar, times, print_progress_bar, quotient}
use kernel_sim.Semaphores.{Semop, changed, again, failed, up}
use kernel_sim.SimulatedProcess.{Progress, is_shown, show_progress, finish, work_from, run_process}

-- How often the semaphore was taken.
abbrev pub taken : List Semop → ℕ
taken [] = 0
taken (changed ∷ answers) = suc (taken answers)
taken (again ∷ answers) = taken answers
taken (failed ∷ answers) = taken answers

one_less : (m : ℕ) → pos (suc m) -ℤ pos 1 ≡ pos m
unfolding ◌-ℤ◌
one_less m = ground arith

quotient-Ends : (a : ℤ) (b : ℕ) → Ends (λ _. Unit {0}) (quotient a (pos (suc b)))
unfolding quotient
quotient-Ends (pos a) b = ends tt
quotient-Ends (negsuc a) b = ends tt

print_progress_bar-Ends :
    (completed width : ℤ) (n : ℕ)
    → Ends (λ _. Unit {0}) (print_progress_bar completed (pos (suc n)) width)
unfolding print_progress_bar
print_progress_bar-Ends completed width n =
    Ends-then (quotient-Ends (times completed width) n) λ q _. ends tt

show_progress-Ends :
    (n : ℕ) (remaining : ℤ) (bars : List ProgressBar)
    → Ends (λ _. Unit {0}) (show_progress (pos (suc n)) remaining bars)
unfolding show_progress
show_progress-Ends n remaining bars =
    Ends-branch (is_shown remaining)
      (λ _.
        Ends-then (print_progress_bar-Ends (pos (suc n) -ℤ remaining) (pos 20) n) λ b _. ends tt)
      λ _. ends tt

-- What the memory and the scheduler know after `k` ticks of `m`.
pub record AfterTicks (m k : ℕ) (r : Progress) : Type 0 where
  pub remaining : r.remaining ≡ pos (m - k)
  pub over : r.over ≡ leb m k
  pub signaled : r.signaled ≡ leb m k

finish-Ends :
    (n : ℕ) (pid remaining : ℤ) (bars : List ProgressBar)
    → pos 0 <ℤ pid
    → Ends
        (λ r. (r.remaining ≡ pos 0) × (r.over ≡ true) × (r.signaled ≡ true))
        (finish (pos (suc n)) pid changed remaining bars)
unfolding finish up
finish-Ends n pid remaining bars known =
    Ends-then (print_progress_bar-Ends (pos (suc n)) (pos 20) n) λ b _.
      Ends-branch (ltb_ℤ (pos 0) pid) (λ _. ends (refl, refl, refl))
        λ unknown. absurd (ground (arith, known, unknown))

-- With `m + 1` ticks of work left, of `n + 1` in all.
work_from-AfterTicks :
    (n : ℕ) (pid : ℤ) (answers : List Semop) (m : ℕ) (bars : List ProgressBar)
    → pos 0 <ℤ pid
    → Ends
        (AfterTicks (suc m) (taken answers))
        (work_from (pos (suc n)) pid changed answers (pos (suc m)) bars)
unfolding work_from
work_from-AfterTicks n pid [] m bars known =
    ends (record { remaining = ground arith; over = ground arith; signaled = ground arith })
work_from-AfterTicks n pid (again ∷ answers) m bars known =
    work_from-AfterTicks n pid answers m bars known
work_from-AfterTicks n pid (failed ∷ answers) m bars known =
    work_from-AfterTicks n pid answers m bars known
work_from-AfterTicks n pid (changed ∷ answers) zero bars known = rw (one_less 0) (
    Ends-then (show_progress-Ends n (pos 0) bars) λ drawn _.
      Ends-weaken (finish-Ends n pid (pos 0) drawn known) λ r (remaining, over, signaled). record {
        remaining = ground (arith, remaining);
        over = ground (arith, over);
        signaled = ground (arith, signaled);
      })
work_from-AfterTicks n pid (changed ∷ answers) (suc m) bars known = rw (one_less (suc m)) (
    Ends-then (show_progress-Ends n (pos (suc m)) bars) λ drawn _.
      Ends-branch (leb_ℤ (pos (suc m)) (pos 0)) (λ none. absurd (ground (arith, none)))
        λ some_left. Ends-weaken (work_from-AfterTicks n pid answers m drawn known) λ r a. record {
          remaining = ground (arith, a.remaining);
          over = ground (arith, a.over);
          signaled = ground (arith, a.signaled);
        })

-- A process with a running time of at least one tick that knows the scheduler, gets its shared
-- memory and can raise its semaphore at the end, however often its semaphore is refused to it in
-- between: after k ticks its shared memory holds what is left, down to 0, and it is over and has
-- told the scheduler exactly when k has reached the running time.
pub run_process-AfterTicks :
    (n : ℕ) (pid : ℤ) (answers : List Semop)
    → pos 0 <ℤ pid
    → Ends (AfterTicks (suc n) (taken answers)) (run_process true (pos (suc n)) pid changed answers)
unfolding run_process
run_process-AfterTicks n pid answers known = work_from-AfterTicks n pid answers n [] known

work_from_zero :
    (pid : ℤ) (up_answer : Semop) (answers : List Semop) (bars : List ProgressBar)
    → 0 < taken answers
    → work_from (pos 0) pid up_answer answers (pos 0) bars ≡ fault
unfolding work_from show_progress finish print_progress_bar quotient ◌-ℤ◌
work_from_zero pid up_answer [] bars some_taken = absurd (omega arith)
work_from_zero pid up_answer (again ∷ answers) bars some_taken =
    work_from_zero pid up_answer answers bars some_taken
work_from_zero pid up_answer (failed ∷ answers) bars some_taken =
    work_from_zero pid up_answer answers bars some_taken
work_from_zero pid up_answer (changed ∷ answers) bars some_taken = refl

-- A process with a running time of 0 that gets its shared memory divides by zero as soon as it
-- has taken its semaphore.
pub run_process_zero :
    (pid : ℤ) (up_answer : Semop) (answers : List Semop)
    → 0 < taken answers
    → run_process true (pos 0) pid up_answer answers ≡ fault
unfolding run_process
run_process_zero pid up_answer answers some_taken =
    work_from_zero pid up_answer answers [] some_taken
