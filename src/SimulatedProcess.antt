-- ===== src/SimulatedProcess.antt =====
-- src/process.c: the program that each process runs. It works one tick whenever it can take its
-- semaphore. What the operations on the semaphore return is an argument.
pub mod Work
mod Tests
use kernel_sim.Base.{◌%◌, ◌+◌, Bool, true, false, ◌||◌, List, [], ◌∷◌, ◌==◌, if◌then◌else◌}
use kernel_sim.Base.Int.{ℤ, pos, pos_part, neg_part, ◌-ℤ◌, ◌==ℤ◌, ltb_ℤ, leb_ℤ}
use kernel_sim.Base.Outcome.{Outcome, done, exited, ◌>>=◌}
use kernel_sim.Logger.{ProgressBar, print_progress_bar}
use kernel_sim.Semaphores.{Semop, down_nb, up}

-- `remaining` is in the memory that the scheduler reads, `signaled` says whether the scheduler has
-- been told of the end, and `bars` are those drawn, newest first.
pub record Progress : Type 0 where
  pub remaining : ℤ
  pub over : Bool
  pub signaled : Bool
  pub bars : List ProgressBar

abbrev pub is_shown : ℤ → Bool
is_shown remaining = (pos_part remaining + neg_part remaining) % 5 == 0 || remaining ==ℤ pos 0

-- The bar that may be drawn in a tick.
unfoldable pub show_progress : ℤ → ℤ → List ProgressBar → Outcome (List ProgressBar)
unfolding print_progress_bar
show_progress runtime remaining bars =
    if is_shown remaining
    then (print_progress_bar (runtime -ℤ remaining) runtime (pos 20) >>= λ b. done (b ∷ bars))
    else done bars

-- What follows the loop.
unfoldable pub finish : ℤ → ℤ → Semop → ℤ → List ProgressBar → Outcome Progress
unfolding print_progress_bar up
finish runtime scheduler_pid up_answer remaining bars = do
  b ← print_progress_bar runtime runtime (pos 20)
  let silent =
      done (record { remaining = remaining; over = true; signaled = false; bars = b ∷ bars })
  let told = up up_answer >>= λ _.
      done (record { remaining = pos 0; over = true; signaled = true; bars = b ∷ bars })
  if ltb_ℤ (pos 0) scheduler_pid then told else silent

-- The loop, as far as the answers of `down_nb` go.
unfoldable pub work_from : ℤ → ℤ → Semop → List Semop → ℤ → List ProgressBar → Outcome Progress
unfolding show_progress finish
work_from runtime scheduler_pid up_answer [] remaining bars =
    done (record { remaining = remaining; over = false; signaled = false; bars = bars })
work_from runtime scheduler_pid up_answer (a ∷ answers) remaining bars =
    let less = remaining -ℤ pos 1 in
    let worked = do
      drawn ← show_progress runtime less bars
      let rest = work_from runtime scheduler_pid up_answer answers less drawn
      if leb_ℤ less (pos 0) then finish runtime scheduler_pid up_answer less drawn else rest
    in let idle = work_from runtime scheduler_pid up_answer answers remaining bars in
      if ltb_ℤ (down_nb a) (pos 0) then idle else worked

-- `main` calls it with the global `runtime` as the remaining time.
unfoldable pub run_process : Bool → ℤ → ℤ → Semop → List Semop → Outcome Progress
unfolding work_from
run_process attached runtime scheduler_pid up_answer answers =
    if attached then work_from runtime scheduler_pid up_answer answers runtime [] else exited
