-- ===== src/Logger/Tests.antt =====
-- A progress bar of src/logger.c, and the theorem at it.
use kernel_sim.Base.{◌-◌, ◌*◌, ◌/◌, ◌≡◌, refl, true, false, ◌++◌, [], ◌∷◌, arith}
use kernel_sim.Base.Int.{pos}
use kernel_sim.Base.Array.{replicate}
use kernel_sim.Base.Outcome.{done, Ends, ◌>>=◌}
use kernel_sim.Logger.{print_progress_bar}
use kernel_sim.Logger.Bar.{print_progress_bar-share}

bar_run :
    (print_progress_bar (pos 5) (pos 12) (pos 4) >>= λ bar. done bar.cells)
    ≡ done (true ∷ false ∷ false ∷ false ∷ [])
unfolding print_progress_bar
bar_run = refl

print_progress_bar-share_example :
    Ends
      (λ bar. bar.cells ≡ replicate (5 * 20 / 12) true ++ replicate (20 - 5 * 20 / 12) false)
      (print_progress_bar (pos 5) (pos 12) (pos 20))
print_progress_bar-share_example = print_progress_bar-share 5 11 20 (omega arith)
