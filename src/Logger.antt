-- ===== src/Logger.antt =====
-- src/logger.c: the progress bar. What else the file does is to print.
pub mod Bar
mod Tests
use kernel_sim.Base.{ℕ, zero, suc, ◌+◌, ◌*◌, ◌/◌, Bool, List, [], ◌∷◌, ◌==◌, if◌then◌else◌}
use kernel_sim.Base.Int.{ℤ, pos, negsuc, pos_part, neg_part, sub_ℕ, ltb_ℤ}
use kernel_sim.Base.Outcome.{Outcome, done, fault, ◌>>=◌}

abbrev pub times : ℤ → ℤ → ℤ
times a b =
    sub_ℕ (pos_part a * pos_part b + neg_part a * neg_part b)
      (pos_part a * neg_part b + neg_part a * pos_part b)

-- C's division: it rounds towards 0, and a division by 0 is undefined.
unfoldable pub quotient : ℤ → ℤ → Outcome ℤ
quotient a (pos zero) = fault
quotient (pos a) (pos (suc b)) = done (pos (a / suc b))
quotient (pos a) (negsuc b) = done (sub_ℕ 0 (a / suc b))
quotient (negsuc a) (pos (suc b)) = done (sub_ℕ 0 (suc a / suc b))
quotient (negsuc a) (negsuc b) = done (pos (suc a / suc b))

-- The cells of the bar, filled or not, from cell `i` on.
abbrev pub cells_from : ℕ → ℕ → ℤ → List Bool
cells_from zero i filled = []
cells_from (suc n) i filled = ltb_ℤ (pos i) filled ∷ cells_from n (i + 1) filled

pub record ProgressBar : Type 0 where
  pub cells : List Bool
  pub completed : ℤ
  pub total : ℤ

unfoldable pub print_progress_bar : ℤ → ℤ → ℤ → Outcome ProgressBar
unfolding quotient
print_progress_bar completed total width = do
  filled ← quotient (times completed width) total
  done (record {
    cells = cells_from (pos_part width) 0 filled;
    completed = completed;
    total = total;
  })
