-- ===== src/Generator/Run.antt =====
-- Runs of the generator: rounds of the loop of `main`, and deaths of children, which the signal
-- handler takes between two rounds.
use mathlib.Core.List.{append-nil}
use mathlib.Core.List.Perm
use kernel_sim.Base.{◌≡◌, refl, Bool-cases, inl, inr, false, List, [], ◌∷◌, Perm, arith}
use kernel_sim.Base.Int.{ℤ, ◌==ℤ◌}
use kernel_sim.Base.Array.{length}
use kernel_sim.Base.Outcome.{done, ended}
use kernel_sim.Queue.Inv.{contents}
use kernel_sim.Memory.{total_memory_size}
use kernel_sim.Memory.Sized.{deallocate_memory-Sized}
use kernel_sim.Generator.{
  Generator, GeneratorOs, Child, exited_child, signaled_child, AfterChildren, going, cleared,
  released, clear_resources, generator_round, handle_children_termination,
}
use kernel_sim.Generator.Launch.{IsSteady}
use kernel_sim.Generator.Rows.{Row, pcb_rows, all_rows}
use kernel_sim.Generator.Tick.{IsReady, Keeps, ArriveInv-move, generator_round-Keeps}

-- What the generator goes on with once its children have been waited for.
abbrev pub Continues : (Generator → Type 0) → AfterChildren → Type 0
Continues P (going g) = P g
Continues P (cleared pq freed) = Unit {0}

released-Keeps :
    (from : List Row) (g : Generator) (pid now : ℤ) → Keeps from g → Keeps from (released g pid now)
released-Keeps from g pid now k = record {
  inv = record {
    arrive =
        ArriveInv-move g _ refl refl
          (deallocate_memory-Sized g.memory_segment pid now total_memory_size k.inv.arrive.sized)
          k.inv.arrive;
    little = k.inv.little;
    complete = k.inv.complete;
  };
  same = k.same;
}

pub handle_children_termination-Keeps :
    (from : List Row) (g : Generator) (scheduler_pid : ℤ) (children : List Child) (now : ℤ)
    → Keeps from g
    → Continues (Keeps from) (handle_children_termination g scheduler_pid children now)
unfolding handle_children_termination clear_resources
handle_children_termination-Keeps from g scheduler_pid [] now k = k
handle_children_termination-Keeps from g scheduler_pid (signaled_child pid ∷ children) now k =
    handle_children_termination-Keeps from g scheduler_pid children now k
handle_children_termination-Keeps from g scheduler_pid (exited_child pid ∷ children) now k =
    elim (Bool-cases (pid ==ℤ scheduler_pid)) [
      | inl over ↦ rw over tt
      | inr not_over ↦ rw not_over (
          handle_children_termination-Keeps from (released g pid now) scheduler_pid children now
            (released-Keeps from g pid now k))
    ]

-- A run from one state to another.
pub data Run (os : GeneratorOs) (scheduler_pid : ℤ) : Generator → Generator → Type 0 where
  run_over : {g : Generator} → Run os scheduler_pid g g
  run_round :
      {f g h : Generator} (now : ℤ)
      → Run os scheduler_pid f g
      → generator_round os g now ≡ done h
      → Run os scheduler_pid f h
  run_children :
      {f g h : Generator} (now : ℤ) (children : List Child)
      → Run os scheduler_pid f g
      → handle_children_termination g scheduler_pid children now ≡ going h
      → Run os scheduler_pid f h

pub no_more : {A : Type 0} (xs : List A) → length xs ≡ 0 → xs ≡ []
no_more [] e = refl
no_more (x ∷ xs) e = absurd (omega (arith, e))

module _ (os : GeneratorOs) (steady : IsSteady os) where
  round-Keeps :
      (from : List Row) (g h : Generator) (now : ℤ)
      → Keeps from g
      → generator_round os g now ≡ done h
      → Keeps from h
  round-Keeps from g h now k e =
      let k' = ended (rw e at (generator_round-Keeps os steady g now k.inv)) in
      record { inv = k'.inv; same = Perm.trans k'.same k.same }

  -- With an operating system whose calls succeed, every run of rounds and deaths of children from
  -- a state of the invariant keeps it, and the rows (id, arrival time, running time, priority,
  -- memory size) of the processes sent, waiting and yet to come are a permutation of what they
  -- were.
  pub Run-Keeps :
      {scheduler_pid : ℤ} {f g : Generator}
      → Run os scheduler_pid f g
      → IsReady f
      → Keeps (all_rows f) g
  Run-Keeps run_over v = record { inv = v; same = Perm.rfl }
  Run-Keeps {f = f} (run_round {g = m} {h = h} now r e) v =
      round-Keeps (all_rows f) m h now (Run-Keeps r v) e
  Run-Keeps {scheduler_pid = s} {f = f} (run_children {g = m} now died r e) v =
      rw e at (handle_children_termination-Keeps (all_rows f) m s died now (Run-Keeps r v))

  all_sent :
      (from : List Row) (g : Generator)
      → Keeps from g
      → g.once ≡ false
      → Perm (pcb_rows g.sent) from
  all_sent from g k reported =
      let nobody = k.inv.complete reported in
      let none_wait : contents g.waiting_queue ≡ [] =
        no_more (contents g.waiting_queue) (omega (arith, nobody)) in
      let none_come : g.pq.size ≡ 0 = omega (arith, nobody) in
      (rw (none_wait, none_come, append-nil (pcb_rows g.sent), append-nil (pcb_rows g.sent)) at
        k.same)

  -- Once completion has been reported, all have been sent.
  pub Run-complete :
      (scheduler_pid : ℤ) (f g : Generator)
      → Run os scheduler_pid f g
      → IsReady f
      → g.once ≡ false
      → Perm (pcb_rows g.sent) (all_rows f)
  Run-complete scheduler_pid f g r v reported = all_sent (all_rows f) g (Run-Keeps r v) reported
