-- ===== src/Generator/Stuck.antt =====
-- A process that asks for more memory than there is never gets it, and completion is never reported.
use mathlib.Core.Logic.Or
use mathlib.Core.List.{
  Mem-prop, mem-cons, mem-cons_self, mem-cons_of_mem, mem-append, mem-append_left, mem-append_right,
  not-mem-nil,
}
use mathlib.Core.List.Perm
use kernel_sim.Base.{
  ℕ, ◌+◌, ◌^◌, ◌≡◌, sym, true, Bool-cases, inl, inr, List, [], ◌∷◌, Mem, arith, ◌&&◌,
}
use kernel_sim.Base.Int
use kernel_sim.Base.Int.{ℤ, pos, ◌≤ℤ◌, ◌<ℤ◌, ◌==ℤ◌}
use kernel_sim.Base.Outcome.{done, ended}
use kernel_sim.Pcb.{Pcb}
use kernel_sim.PriorityQueue
use kernel_sim.PriorityQueue.{Process, PriorityQueue, pq_empty}
use kernel_sim.Queue.{queue_empty}
use kernel_sim.Queue.Inv.{contents}
use kernel_sim.Memory.{MemoryBlock, Reply, allocate_memory, total_memory_size}
use kernel_sim.Memory.Sized.{Sized}
use kernel_sim.Memory.Total.{allocate_memory_any-Sized, update_id-Sized}
use kernel_sim.Memory.Refuse.{allocate_memory_refused}
use kernel_sim.Generator.{Generator, GeneratorOs, complete}
use kernel_sim.Generator.Launch.{IsSteady, Dealt, none_left, granted, refused, launched}
use kernel_sim.Generator.Arrival.{arriving, arriving_all}
use kernel_sim.Generator.Serve.{AllLittle}
use kernel_sim.Generator.WaitingQueue.{Served}
use kernel_sim.Generator.Arrived.{ArriveInv, Arrives}
use kernel_sim.Generator.Tick.{IsReady, left, Ticked, ticked, arriving_all-AllLittle}
use kernel_sim.Generator.Kept.{kept_by_run}
use kernel_sim.Generator.Run.{Run, Run-Keeps, no_more}

-- More than the segment has, and no more than the power of two that is computed can be.
abbrev pub IsTooLarge : ℤ → Type 0
IsTooLarge size = (pos total_memory_size <ℤ size) × (size ≤ℤ pos (2 ^ 30))

not_granted :
    (root : MemoryBlock) (id size time : ℤ) (reply : Reply)
    → IsTooLarge size
    → Sized total_memory_size root
    → allocate_memory root id size time ≡ done reply
    → reply.success ≡ true
    → ⊥
not_granted root id (pos size) time reply (large, small) sized e success =
    let refusal = ended (
      rw e at (
        allocate_memory_refused root id time size (omega (arith, large)) (omega (arith, small))
          sized)) in
    cc (refusal, success)
not_granted root id (Int.negsuc n) time reply (large, small) sized e success =
    absurd (omega (arith, large))

module _ (os : GeneratorOs) where
  -- Of those that ask, one that asks for too much is kept.
  Dealt-kept :
      {time : ℤ} {m m' : MemoryBlock} {n : ℕ} {ps served kept : List Pcb} (p : Pcb)
      → Dealt os time m n ps served kept m'
      → AllLittle ps
      → Sized total_memory_size m
      → IsTooLarge p.memory_size
      → Mem p ps
      → Mem p kept
  Dealt-kept p none_left little sized large m = m
  Dealt-kept {time = time} {m = segment} {n = n} p (granted q reply e success d) (here, little)
        sized large m =
      let s = ended (
        rw e at (allocate_memory_any-Sized segment q.id_from_file q.memory_size time here sized)) in
      Or.elim Mem-prop (mem-cons.0 m)
        (λ same. absurd (
          not_granted segment q.id_from_file q.memory_size time reply (rw (sym same) large) sized e
            success))
        λ there.
          Dealt-kept p d little (update_id-Sized q.id_from_file (launched os n q).pid reply.root s)
            large there
  Dealt-kept {time = time} {m = segment} p (refused q reply e failure d) (here, little) sized large
        m =
      let s = ended (
        rw e at (allocate_memory_any-Sized segment q.id_from_file q.memory_size time here sized)) in
      Or.elim Mem-prop (mem-cons.0 m) (λ same. rw same mem-cons_self)
        λ there. mem-cons_of_mem _ (Dealt-kept p d little s large there)

-- Nobody who waits or is still to come asks for too much.
pub record AllFit (g : Generator) : Type 0 where
  pub waiting : (p : Pcb) → Mem p (contents g.waiting_queue) → ¬ IsTooLarge p.memory_size
  pub to_come : (p : Process) → Mem p (PriorityQueue.contents g.pq) → ¬ IsTooLarge p.memory_size

module _ (os : GeneratorOs) where
  Served-AllFit :
      (time : ℤ) (g h : Generator)
      → AllLittle (contents g.waiting_queue)
      → Sized total_memory_size g.memory_segment
      → Served os time g h
      → AllFit h
      → AllFit g
  Served-AllFit time g h little sized s fit = record {
    waiting = λ p m large.
        fit.waiting p (rw s.waits (Dealt-kept os p s.split little sized large m)) large;
    to_come = rw s.kept_pq at fit.to_come;
  }

  -- One that has arrived has a control block that asks for as much.
  arrived-Mem :
      (p : Process) (n : ℕ) (ps : List Process)
      → Mem p ps
      → ((k : ℕ) → ¬ Mem (arriving os k p) (arriving_all os n ps))
      → ⊥
  arrived-Mem p n [] m none_is = not-mem-nil m
  arrived-Mem p n (q ∷ ps) m none_is =
      Or.elim (λ x y. absurd x) (mem-cons.0 m) (λ same. none_is n (rw same mem-cons_self))
        λ there. arrived-Mem p (n + 1) ps there (λ k at. none_is k (mem-cons_of_mem _ at))

  Arrives-AllFit :
      (time : ℤ) (g h : Generator) → ArriveInv g → Arrives os time g h → AllFit h → AllFit g
  Arrives-AllFit time g h v a fit = record {
    waiting = λ p m large. fit.waiting p (rw a.waits (mem-append_left _ m)) large;
    to_come = λ p m large.
        Or.elim (λ x y. absurd x) (mem-append.0 ((Perm.mem_iff a.taken).1 m))
          (λ came. arrived-Mem p g.arrivals a.arrived came λ k at.
            fit.waiting (arriving os k p)
              (rw a.waits (
                mem-append_right (contents g.waiting_queue) (
                  Dealt-kept os (arriving os k p) a.split
                    (arriving_all-AllLittle os g.arrivals a.arrived
                      (λ q n. v.little q ((Perm.mem_iff a.taken).0 (mem-append_left _ n))))
                    v.sized large at)))
              large)
          (λ not_yet. fit.to_come p not_yet large);
  }

  Ticked-AllFit :
      (time : ℤ) (g h : Generator) → IsReady g → Ticked os time g h → AllFit h → AllFit g
  Ticked-AllFit time g _ v (ticked m h at_m little s a) fit =
      let fit_h : AllFit h = record { waiting = fit.waiting; to_come = fit.to_come } in
      let fit_f : AllFit (record g { last_tick = time }) =
        Served-AllFit time (record g { last_tick = time }) m v.little v.arrive.sized s
          (Arrives-AllFit time m h at_m a fit_h) in
      record { waiting = fit_f.waiting; to_come = fit_f.to_come }

complete-AllFit : (g : Generator) → AllFit (complete g) → AllFit g
complete-AllFit g fit = elim (Bool-cases (pq_empty g.pq && queue_empty g.waiting_queue && g.once)) [
  | inl over ↦
      let fit' = rw over at fit in record { waiting = fit'.waiting; to_come = fit'.to_come }
  | inr not_yet ↦ rw not_yet at fit
]

module _ (os : GeneratorOs) (steady : IsSteady os) where
  Run-AllFit :
      {scheduler_pid : ℤ} {f g : Generator}
      → Run os scheduler_pid f g
      → IsReady f
      → AllFit g
      → AllFit f
  Run-AllFit {f = f} r v =
      kept_by_run os steady (λ h. AllFit h → AllFit f)
        (λ time g h w t back fit. back (Ticked-AllFit os time g h w t fit))
        (λ g back fit. back (complete-AllFit g fit))
        (λ g pid now back fit. back (record { waiting = fit.waiting; to_come = fit.to_come })) r v
        (λ fit. fit)

  left_none : (g : Generator) → left g ≡ 0 → AllFit g
  left_none g nobody =
      let none_wait : contents g.waiting_queue ≡ [] =
        no_more (contents g.waiting_queue) (omega (arith, nobody)) in
      let none_come : g.pq.size ≡ 0 = omega (arith, nobody) in
      record {
        waiting = λ p m. absurd (not-mem-nil (rw none_wait at m));
        to_come = λ p m. absurd (not-mem-nil (rw none_come at m));
      }

  -- With an operating system whose calls succeed: when a process in the arrival queue of a state
  -- of the invariant asks for more bytes than the segment has, but at most 2 ^ 30, then after no
  -- run of rounds and deaths of children has completion been reported.
  pub too_large-waits :
      (scheduler_pid : ℤ) (f g : Generator) (p : Process)
      → Run os scheduler_pid f g
      → IsReady f
      → Mem p (PriorityQueue.contents f.pq)
      → IsTooLarge p.memory_size
      → g.once ≡ true
  too_large-waits scheduler_pid f g p r v m large = elim (Bool-cases g.once) [
    | inl not_reported ↦ not_reported
    | inr reported ↦
        let nobody = (Run-Keeps os steady r v).inv.complete reported in
        absurd ((Run-AllFit r v (left_none g nobody)).to_come p m large)
  ]
