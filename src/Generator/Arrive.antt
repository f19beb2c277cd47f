-- ===== src/Generator/Arrive.antt =====
-- The loop of `main` over the processes that have arrived: each is created and sent, or waits.
use mathlib.Core.List.Perm
use mathlib.Core.List.{append-nil, mem-cons_self, mem-cons_of_mem, not-mem-nil}
use kernel_sim.Base.{
  ℕ, zero, suc, ◌≤◌, ◌<◌, ◌≡◌, refl, sym, ap, ◌∙◌, ◌==◌, [], ◌∷◌, Mem, arith, if◌then◌else◌,
}
use kernel_sim.Base.Int.{ℤ, ◌≤ℤ◌, ◌<ℤ◌, leb_ℤ, -ℤ_parts}
use kernel_sim.Base.Array.{length, length-append}
use kernel_sim.Base.Outcome.{
  done, ◌>>=◌, Ends, ends, Ends-then, Ends-weaken, Ends-branch, Ends-value,
}
use kernel_sim.Heap.Order.{Precedes}
use kernel_sim.PriorityQueue
use kernel_sim.PriorityQueue.{
  Process, PriorityQueue, SortMode, by_arrival_time, by_arrival_then_priority, compare_processes,
  pq_top, pq_pop, pq_empty,
}
use kernel_sim.PriorityQueue.Pop.{Popped, pq_pop-Popped}
use kernel_sim.Queue.Inv.{contents}
use kernel_sim.Memory.Total.{update_id-Sized}
use kernel_sim.Generator.{Generator, GeneratorOs, arrive, arrive_all}
use kernel_sim.Generator.Arrival.{
  OneArrived, admitted_one, postponed_one, arriving, arrive-OneArrived,
}
use kernel_sim.Generator.Launch.{IsSteady, none_left}
use kernel_sim.Generator.Arrived.{ArriveInv, Arrives, admitted_first, postponed_first}

-- Nothing that arrives later precedes, in either sort mode.
Precedes-arrival :
    (mode : SortMode) (a b : Process)
    → Precedes (compare_processes mode) a b
    → a.arrival_time ≤ℤ b.arrival_time
unfolding compare_processes
Precedes-arrival by_arrival_time a b h = omega (arith, h, -ℤ_parts)
Precedes-arrival by_arrival_then_priority a b h =
    ground (arith, h, -ℤ_parts a.arrival_time b.arrival_time)

module _ (os : GeneratorOs) where
  -- Nothing, or nothing more, has arrived.
  none_due :
      (time : ℤ) (g : Generator)
      → ArriveInv g
      → ((p : Process) → Mem p (PriorityQueue.contents g.pq) → time <ℤ p.arrival_time)
      → Arrives os time g g
  none_due time g v later = record {
    arrived = [];
    served = [];
    kept = [];
    split = none_left;
    sent = sym (append-nil g.sent);
    waits = sym (append-nil (contents g.waiting_queue));
    taken = Perm.rfl;
    due = λ p m. absurd (not-mem-nil m);
    later = later;
    pq_valid = v.valid;
    small = v.small;
    sized = v.sized;
    kept_once = refl;
  }

  module _ (steady : IsSteady os) where
    arrive_more :
        (fuel : ℕ) (g : Generator) (time : ℤ) (top : Process) (rest : PriorityQueue)
        → ((h : Generator)
            → h.pq.size < fuel
            → ArriveInv h
            → Ends (Arrives os time h) (arrive_all os fuel h time))
        → g.pq.size ≤ fuel
        → ArriveInv g
        → top.arrival_time ≤ℤ time
        → Popped g.pq top rest
        → (h : Generator) → OneArrived os time g top rest h
        → Ends (Arrives os time g) (arrive_all os fuel h time)
    arrive_more fuel g time top rest ih enough v arrived_top popped _
          (admitted_one reply effects e success sized) =
        Ends-weaken
          (ih _ (omega (arith, popped.one_less)) (record {
            valid = popped.valid;
            small = v.small;
            sized = update_id-Sized top.id (os.forks g.births).pid reply.root sized;
            total = omega (arith, v.total, popped.one_less);
            little = λ p m. v.little p ((Perm.mem_iff popped.same).0 (mem-cons_of_mem _ m));
          }))
          λ h a.
            admitted_first os time g.memory_segment g.births g.arrivals g.sent
              (contents g.waiting_queue) top (PriorityQueue.contents rest)
              (PriorityQueue.contents g.pq) g.once h popped.same arrived_top reply e success a
    arrive_more fuel g time top rest ih enough v arrived_top popped _
          (postponed_one reply effects w e failure sized small more) =
        let size =
          ap length more
          ∙ length-append (contents g.waiting_queue) (arriving os g.arrivals top ∷ []) in
        Ends-weaken
          (ih _ (omega (arith, popped.one_less)) (record {
            valid = popped.valid;
            small = small;
            sized = sized;
            total = omega (arith, v.total, popped.one_less, size);
            little = λ p m. v.little p ((Perm.mem_iff popped.same).0 (mem-cons_of_mem _ m));
          }))
          λ h a.
            postponed_first os time g.memory_segment g.births g.arrivals g.sent
              (contents g.waiting_queue) top (PriorityQueue.contents rest)
              (PriorityQueue.contents g.pq) g.once h popped.same arrived_top reply e failure
              (rw more at a)

    look_at_top :
        (fuel : ℕ) (g : Generator) (time : ℤ) (top : Process) (rest : PriorityQueue)
        → ((h : Generator)
            → h.pq.size < fuel
            → ArriveInv h
            → Ends (Arrives os time h) (arrive_all os fuel h time))
        → g.pq.size ≤ fuel
        → ArriveInv g
        → pq_top g.pq ≡ done top
        → pq_pop g.pq ≡ done rest
        → Popped g.pq top rest
        → Ends (Arrives os time g) (
            pq_top g.pq >>= λ p.
            if leb_ℤ p.arrival_time time
            then (arrive os g time >>= λ h. arrive_all os fuel h time)
            else done g)
    look_at_top fuel g time top rest ih enough v at_top popped p = rw at_top (
        Ends-branch (leb_ℤ top.arrival_time time)
          (λ arrived_top.
            Ends-then
              (arrive-OneArrived os steady g time top rest at_top popped
                (v.little top ((Perm.mem_iff p.same).0 mem-cons_self)) v.sized v.small
                (omega (arith, v.total)))
              λ h a.
                arrive_more fuel g time top rest ih enough v (ground (arith, arrived_top)) p h a)
          λ not_yet. ends (
            none_due time g v (λ q m.
              let after = Precedes-arrival g.pq.sort_mode top q (p.least q m) in
              ground (arith, after, not_yet))))

  -- With an operating system whose calls succeed, valid queues of few processes that ask for at
  -- most 2 ^ 30 bytes, a segment whose sizes halve, and more rounds than processes, the arrival
  -- loop ends: exactly the processes whose time has come leave the queue, each asks for memory
  -- once, those that get it are sent in that order and the others go behind those that wait.
  pub arrive_all-Arrives :
      (fuel : ℕ) (g : Generator) (time : ℤ)
      → IsSteady os
      → g.pq.size < fuel
      → ArriveInv g
      → Ends (Arrives os time g) (arrive_all os fuel g time)
  unfolding arrive_all pq_empty
  arrive_all-Arrives zero g time steady enough v = absurd (omega arith)
  arrive_all-Arrives (suc fuel) g time steady enough v =
      Ends-branch (g.pq.size == 0)
        (λ empty.
          let size : g.pq.size ≡ 0 = ground (arith, empty) in
          ends (none_due time g v (λ p m. absurd (not-mem-nil (rw size at m)))))
        (λ more.
          let (top, at_top, popping) =
            Ends-value (pq_pop-Popped g.pq v.valid (ground (arith, more))) in
          let (rest, popped, p) = Ends-value popping in
          look_at_top steady fuel g time top rest
            (λ h small inv. arrive_all-Arrives fuel h time steady small inv) (omega arith) v at_top
            popped p)
