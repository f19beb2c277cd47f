-- ===== src/Generator/Tick.antt =====
-- A tick of `main`, and a round of its loop: they end, and no process is lost or sent twice.
use mathlib.Core.List.{mem-cons_self, mem-cons_of_mem, mem-append_left, mem-append_right}
use mathlib.Core.List.Perm
use kernel_sim.Base.{
  Bool-cases, inl, inr, ℕ, suc, ◌+◌, ◌^◌, ◌≤◌, ◌≡◌, refl, sym, ap, ◌∙◌, false, List, [], ◌∷◌, ◌++◌,
  Perm, Mem, arith, ◌&&◌,
}
use kernel_sim.Base.Int.{ℤ, pos, ◌≤ℤ◌, ◌==ℤ◌}
use kernel_sim.Base.Array.{length, length-append, length-Perm, length-take}
use kernel_sim.Base.Outcome.{Ends, ends, Ends-then, Ends-weaken, Ends-branch}
use kernel_sim.Pcb.{Pcb}
use kernel_sim.PriorityQueue
use kernel_sim.PriorityQueue.{Process, PriorityQueue, pq_empty}
use kernel_sim.PriorityQueue.Inv
use kernel_sim.Queue.{queue_empty}
use kernel_sim.Queue.Inv.{contents}
use kernel_sim.Queue.Small.{size-contents}
use kernel_sim.Memory.{MemoryBlock, total_memory_size}
use kernel_sim.Memory.Sized.{Sized}
use kernel_sim.Generator.{
  Generator, GeneratorOs, release_scheduler, serve_tick, generator_round, complete,
}
use kernel_sim.Generator.Launch.{IsSteady, Dealt, Dealt-length, none_left, granted, refused}
use kernel_sim.Generator.Serve.{AllLittle}
use kernel_sim.Generator.WaitingQueue.{Served, serve_waiting_queue-Served}
use kernel_sim.Generator.Arrival.{arriving_all}
use kernel_sim.Generator.Arrived.{Arrives, ArriveInv}
use kernel_sim.Generator.Arrive.{arrive_all-Arrives}
use kernel_sim.Generator.Rows.{Row, all_rows, rows-Served, rows-Arrives}

AllLittle-append : (ps qs : List Pcb) → AllLittle ps → AllLittle qs → AllLittle (ps ++ qs)
AllLittle-append [] qs a b = b
AllLittle-append (p ∷ ps) qs (here, a) b = (here, AllLittle-append ps qs a b)

pq_size-contents :
    (pq : PriorityQueue) → Inv.IsValid pq → length (PriorityQueue.contents pq) ≡ pq.size
pq_size-contents pq v = omega (arith, v.storage, v.fits, length-take pq.size pq.elements)

-- The processes that wait or have yet to come.
abbrev pub left : Generator → ℕ
left g = length (contents g.waiting_queue) + g.pq.size

module _ (os : GeneratorOs) where
  Dealt-AllLittle :
      {time : ℤ} {m m' : MemoryBlock} {n : ℕ} {ps served kept : List Pcb}
      → Dealt os time m n ps served kept m'
      → AllLittle ps
      → AllLittle kept
  Dealt-AllLittle none_left a = a
  Dealt-AllLittle (granted p reply e is_ok d) (here, a) = Dealt-AllLittle d a
  Dealt-AllLittle (refused p reply e not_ok d) (here, a) = (here, Dealt-AllLittle d a)

  pub arriving_all-AllLittle :
      (n : ℕ) (ps : List Process)
      → ((p : Process) → Mem p ps → p.memory_size ≤ℤ pos (2 ^ 30))
      → AllLittle (arriving_all os n ps)
  arriving_all-AllLittle n [] all = tt
  arriving_all-AllLittle n (p ∷ ps) all =
      (all p mem-cons_self, arriving_all-AllLittle (n + 1) ps (λ q m. all q (mem-cons_of_mem _ m)))

  length-arriving_all : (n : ℕ) (ps : List Process) → length (arriving_all os n ps) ≡ length ps
  length-arriving_all n [] = refl
  length-arriving_all n (p ∷ ps) = ap suc (length-arriving_all (n + 1) ps)

-- What holds of the generator between two rounds. Once completion is reported, nobody is left.
pub record IsReady (g : Generator) : Type 0 where
  pub arrive : ArriveInv g
  pub little : AllLittle (contents g.waiting_queue)
  pub complete : g.once ≡ false → left g ≡ 0

-- The invariant of the loops is about the queues and the segment only.
pub ArriveInv-move :
    (g h : Generator)
    → h.pq ≡ g.pq
    → h.waiting_queue ≡ g.waiting_queue
    → Sized total_memory_size h.memory_segment
    → ArriveInv g
    → ArriveInv h
ArriveInv-move g h pq queue sized v = record {
  valid = rw pq v.valid;
  small = rw queue v.small;
  sized = sized;
  total = rw (pq, queue) v.total;
  little = rw pq v.little;
}

-- A state that has the processes `from`, in some order.
pub record Keeps (from : List Row) (h : Generator) : Type 0 where
  pub inv : IsReady h
  pub same : Perm (all_rows h) from

-- The state after a tick: `m` is the one between the two loops.
pub data Ticked (os : GeneratorOs) (time : ℤ) (g : Generator) : Generator → Type 0 where
  ticked :
      (m h : Generator)
      → ArriveInv m
      → AllLittle (contents m.waiting_queue)
      → Served os time (record g { last_tick = time }) m
      → Arrives os time m h
      → Ticked os time g (record h { effects = release_scheduler ∷ h.effects })

complete-Keeps : (from : List Row) (g : Generator) → Keeps from g → Keeps from (complete g)
unfolding pq_empty queue_empty
complete-Keeps from g k =
    let over = pq_empty g.pq && queue_empty g.waiting_queue && g.once in
    elim (Bool-cases over) [
      | inl empty ↦ rw empty (record {
        inv = record {
          arrive = ArriveInv-move g _ refl refl k.inv.arrive.sized k.inv.arrive;
          little = k.inv.little;
          complete = λ reported. ground (arith, empty, size-contents g.waiting_queue);
        };
        same = k.same;
      })
      | inr not_yet ↦ rw not_yet k
    ]

module _ (os : GeneratorOs) where
  served-ArriveInv : (time : ℤ) (g h : Generator) → ArriveInv g → Served os time g h → ArriveInv h
  served-ArriveInv time g h v s = record {
    valid = rw s.kept_pq v.valid;
    small = s.small;
    sized = s.sized;
    total = rw s.kept_pq (omega (arith, v.total, ap length s.waits, Dealt-length os s.split));
    little = rw s.kept_pq v.little;
  }

  arrived-fewer : (time : ℤ) (g h : Generator) → ArriveInv g → Arrives os time g h → left h ≤ left g
  arrived-fewer time g h v a = omega (
    arith,
    ap length a.waits,
    length-append (contents g.waiting_queue) a.kept,
    Dealt-length os a.split,
    length-arriving_all os g.arrivals a.arrived,
    length-Perm a.taken,
    length-append a.arrived (PriorityQueue.contents h.pq),
    pq_size-contents g.pq v.valid,
    pq_size-contents h.pq a.pq_valid,
  )

  arrived-ArriveInv : (time : ℤ) (g h : Generator) → ArriveInv g → Arrives os time g h → ArriveInv h
  arrived-ArriveInv time g h v a = record {
    valid = a.pq_valid;
    small = a.small;
    sized = a.sized;
    total = omega (arith, v.total, arrived-fewer time g h v a);
    little = λ p m. v.little p ((Perm.mem_iff a.taken).0 (mem-append_right a.arrived m));
  }

  arrived-AllLittle :
      (time : ℤ) (g h : Generator)
      → ArriveInv g
      → AllLittle (contents g.waiting_queue)
      → Arrives os time g h
      → AllLittle (contents h.waiting_queue)
  arrived-AllLittle time g h v little a = rw a.waits (
      AllLittle-append (contents g.waiting_queue) a.kept little (
        Dealt-AllLittle os a.split (
          arriving_all-AllLittle os g.arrivals a.arrived
            (λ p m. v.little p ((Perm.mem_iff a.taken).0 (mem-append_left _ m))))))

  -- The state between the two loops has the queue and the flag of the one at the start.
  tick-Keeps :
      (time : ℤ) (g m h : Generator)
      → IsReady g
      → Served os time g m
      → Arrives os time m h
      → Keeps (all_rows g) (record h { effects = release_scheduler ∷ h.effects })
  tick-Keeps time g m h v s a =
      let at_m = served-ArriveInv time g m v.arrive s in
      let fewer : left h ≤ left g = omega (
        arith,
        arrived-fewer time m h at_m a,
        ap length s.waits,
        Dealt-length os s.split,
        ap (λ (q : PriorityQueue). q.size) s.kept_pq,
      ) in
      record {
        inv = record {
          arrive =
              ArriveInv-move h (record h { effects = release_scheduler ∷ h.effects }) refl refl
                a.sized (arrived-ArriveInv time m h at_m a);
          little =
              arrived-AllLittle time m h at_m (rw s.waits (Dealt-AllLittle os s.split v.little)) a;
          complete =
              λ over. omega (arith, fewer, v.complete (sym s.kept_once ∙ sym a.kept_once ∙ over));
        };
        same = Perm.trans (rows-Arrives os time m h a) (rows-Served os time g m s);
      }

  module _ (steady : IsSteady os) where
    -- A tick ends, after both of its loops.
    pub serve_tick-Ticked :
        (g : Generator) (time : ℤ) → IsReady g → Ends (Ticked os time g) (serve_tick os g time)
    unfolding serve_tick
    serve_tick-Ticked g time v =
        let f = record g { last_tick = time } in
        let ready = ArriveInv-move g f refl refl v.arrive.sized v.arrive in
        Ends-then
          (serve_waiting_queue-Served os f time steady v.arrive.small
            (omega (arith, v.arrive.total)) v.little v.arrive.sized)
          λ m s.
            let at_m = served-ArriveInv time f m ready s in
            Ends-then (arrive_all-Arrives os (m.pq.size + 1) m time steady (omega arith) at_m)
              λ h a. ends (ticked m h at_m (rw s.waits (Dealt-AllLittle os s.split v.little)) s a)

    Ticked-Keeps :
        (time : ℤ) (g h : Generator) → IsReady g → Ticked os time g h → Keeps (all_rows g) h
    Ticked-Keeps time g _ v (ticked m h at_m little s a) =
        let f = record g { last_tick = time } in
        let ready = ArriveInv-move g f refl refl v.arrive.sized v.arrive in
        tick-Keeps time f m h (record { arrive = ready; little = v.little; complete = v.complete })
          s a

    -- With an operating system whose calls succeed, a round of the loop of main, from a state of
    -- the invariant, ends in one of the invariant, and the rows (id, arrival time, running time,
    -- priority, memory size) of the processes sent, waiting and yet to come are a permutation of
    -- what they were.
    pub generator_round-Keeps :
        (g : Generator) (now : ℤ) → IsReady g → Ends (Keeps (all_rows g)) (generator_round os g now)
    unfolding generator_round
    generator_round-Keeps g now v =
        Ends-then
          (Ends-branch (now ==ℤ g.last_tick)
            (λ same_tick. ends (record { inv = v; same = Perm.rfl }))
            λ ticked. Ends-weaken (serve_tick-Ticked g now v) λ h t. Ticked-Keeps now g h v t)
          λ h k. ends (complete-Keeps (all_rows g) h k)
