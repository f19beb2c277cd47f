-- ===== src/Generator/Kept.antt =====
-- What a tick, the report of completion and the release of memory keep, a whole run keeps.
use kernel_sim.Base.{Bool-cases, inl, inr, List, [], ◌∷◌}
use kernel_sim.Base.Int.{ℤ, ◌==ℤ◌}
use kernel_sim.Base.Outcome.{Ends, ends, Ends-then, Ends-weaken, Ends-branch, ended}
use kernel_sim.Generator.{
  Generator, GeneratorOs, Child, exited_child, signaled_child, clear_resources, complete, released,
  generator_round, handle_children_termination,
}
use kernel_sim.Generator.Launch.{IsSteady}
use kernel_sim.Generator.Tick.{IsReady, Ticked, serve_tick-Ticked}
use kernel_sim.Generator.Run.{Run, run_over, run_round, run_children, Continues, Run-Keeps}

module _ (os : GeneratorOs) (steady : IsSteady os) (P : Generator → Type 0)
    (at_tick : (time : ℤ) (g h : Generator) → IsReady g → Ticked os time g h → P g → P h)
    (at_complete : (g : Generator) → P g → P (complete g))
    (at_release : (g : Generator) (pid now : ℤ) → P g → P (released g pid now)) where
  kept_by_round : (g : Generator) (now : ℤ) → IsReady g → P g → Ends P (generator_round os g now)
  unfolding generator_round
  kept_by_round g now v p =
      Ends-then
        (Ends-branch (now ==ℤ g.last_tick) (λ same_tick. ends p)
          λ new_tick.
            Ends-weaken (serve_tick-Ticked os steady g now v) λ h t. at_tick now g h v t p)
        λ h q. ends (at_complete h q)

  kept_by_children :
      (g : Generator) (scheduler_pid : ℤ) (children : List Child) (now : ℤ)
      → P g
      → Continues P (handle_children_termination g scheduler_pid children now)
  unfolding handle_children_termination clear_resources
  kept_by_children g scheduler_pid [] now p = p
  kept_by_children g scheduler_pid (signaled_child pid ∷ children) now p =
      kept_by_children g scheduler_pid children now p
  kept_by_children g scheduler_pid (exited_child pid ∷ children) now p =
      elim (Bool-cases (pid ==ℤ scheduler_pid)) [
        | inl over ↦ rw over tt
        | inr not_over ↦ rw not_over (
            kept_by_children (released g pid now) scheduler_pid children now
              (at_release g pid now p))
      ]

  pub kept_by_run :
      {scheduler_pid : ℤ} {f g : Generator} → Run os scheduler_pid f g → IsReady f → P f → P g
  kept_by_run run_over v p = p
  kept_by_run (run_round {g = m} now r e) v p =
      ended (rw e at (kept_by_round m now (Run-Keeps os steady r v).inv (kept_by_run r v p)))
  kept_by_run {scheduler_pid = s} (run_children {g = m} now died r e) v p =
      rw e at (kept_by_children m s died now (kept_by_run r v p))
