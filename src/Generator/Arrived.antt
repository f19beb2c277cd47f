-- ===== src/Generator/Arrived.antt =====
-- What the loop over arrivals is given, and what it ends with.
use mathlib.Core.List.Perm
use mathlib.Core.Logic.Or
use native.Mathlib.Bridge.{le_prop}
use mathlib.Core.List.{append_assoc, mem-cons}
use kernel_sim.Base.{ℕ, ◌+◌, ◌^◌, ◌≤◌, ◌≡◌, Bool, ◌∙◌, true, false, List, [], ◌∷◌, ◌++◌, Mem, Perm}
use kernel_sim.Base.Int.{ℤ, pos, ◌≤ℤ◌, ◌<ℤ◌}
use kernel_sim.Base.Array.{length}
use kernel_sim.Base.Outcome.{done}
use kernel_sim.Pcb.{Pcb}
use kernel_sim.PriorityQueue
use kernel_sim.PriorityQueue.{
  Process, PriorityQueue, SortMode, by_arrival_time, by_arrival_then_priority, compare_processes,
  pq_top, pq_pop, pq_empty,
}
use kernel_sim.PriorityQueue.Inv
use kernel_sim.Queue.Inv.{contents}
use kernel_sim.Queue.Small.{IsSmall}
use kernel_sim.Memory.{MemoryBlock, Reply, allocate_memory, update_id, total_memory_size}
use kernel_sim.Memory.Sized.{Sized}
use kernel_sim.Generator.{Generator, GeneratorOs}
use kernel_sim.Generator.Arrival.{arriving, arriving_all}
use kernel_sim.Generator.Launch.{Dealt, granted, refused, launched, launched_all}

-- What the loop is given.
pub record ArriveInv (g : Generator) : Type 0 where
  pub valid : Inv.IsValid g.pq
  pub small : IsSmall g.waiting_queue
  pub sized : Sized total_memory_size g.memory_segment
  pub total : length (contents g.waiting_queue) + g.pq.size ≤ 2 ^ 60
  pub little : (p : Process) → Mem p (PriorityQueue.contents g.pq) → p.memory_size ≤ℤ pos (2 ^ 30)

module _ (os : GeneratorOs) where
  -- What the loop ends with: `arrived` have come, and their control blocks have been dealt.
  pub record ArrivedFrom (time : ℤ) (segment : MemoryBlock) (births arrivals : ℕ)
      (before waiting : List Pcb) (processes : List Process) (once : Bool) (h : Generator)
      : Type 0 where
    pub arrived : List Process
    pub served : List Pcb
    pub kept : List Pcb
    pub split :
        Dealt os time segment births (arriving_all os arrivals arrived) served kept h.memory_segment
    pub sent : h.sent ≡ before ++ launched_all os births served
    pub waits : contents h.waiting_queue ≡ waiting ++ kept
    pub taken : Perm (arrived ++ PriorityQueue.contents h.pq) processes
    pub due : (p : Process) → Mem p arrived → p.arrival_time ≤ℤ time
    pub later : (p : Process) → Mem p (PriorityQueue.contents h.pq) → time <ℤ p.arrival_time
    pub pq_valid : Inv.IsValid h.pq
    pub small : IsSmall h.waiting_queue
    pub sized : Sized total_memory_size h.memory_segment
    pub kept_once : h.once ≡ once

  module _ (time : ℤ) (segment : MemoryBlock) (births arrivals : ℕ) (before waiting : List Pcb)
      (top : Process) (rest processes : List Process) (once : Bool) (h : Generator)
      (whole : Perm (top ∷ rest) processes) (arrived_top : top.arrival_time ≤ℤ time) (reply : Reply)
      (e : allocate_memory segment top.id top.memory_size time ≡ done reply) where
    due_too :
        (ps : List Process)
        → ((p : Process) → Mem p ps → p.arrival_time ≤ℤ time)
        → (p : Process) → Mem p (top ∷ ps)
        → p.arrival_time ≤ℤ time
    due_too ps all p m =
        Or.elim le_prop (mem-cons.0 m) (λ same. rw same arrived_top) (λ there. all p there)

    pub admitted_first :
        reply.success ≡ true
        → ArrivedFrom time
            (update_id top.id (os.forks births).pid reply.root)
            (births + 1)
            (arrivals + 1)
            (before ++ launched os births (arriving os arrivals top) ∷ [])
            waiting
            rest
            once
            h
        → ArrivedFrom time segment births arrivals before waiting processes once h
    admitted_first success a = record {
      arrived = top ∷ a.arrived;
      served = arriving os arrivals top ∷ a.served;
      kept = a.kept;
      split = granted (arriving os arrivals top) reply e success a.split;
      sent =
          a.sent
          ∙ append_assoc before (launched os births (arriving os arrivals top) ∷ [])
              (launched_all os (births + 1) a.served);
      waits = a.waits;
      taken = Perm.trans (Perm.cons top a.taken) whole;
      due = due_too a.arrived a.due;
      later = a.later;
      pq_valid = a.pq_valid;
      small = a.small;
      sized = a.sized;
      kept_once = a.kept_once;
    }

    pub postponed_first :
        reply.success ≡ false
        → ArrivedFrom time reply.root births
            (arrivals + 1)
            before
            (waiting ++ arriving os arrivals top ∷ [])
            rest
            once
            h
        → ArrivedFrom time segment births arrivals before waiting processes once h
    postponed_first failure a = record {
      arrived = top ∷ a.arrived;
      served = a.served;
      kept = arriving os arrivals top ∷ a.kept;
      split = refused (arriving os arrivals top) reply e failure a.split;
      sent = a.sent;
      waits = a.waits ∙ append_assoc waiting (arriving os arrivals top ∷ []) a.kept;
      taken = Perm.trans (Perm.cons top a.taken) whole;
      due = due_too a.arrived a.due;
      later = a.later;
      pq_valid = a.pq_valid;
      small = a.small;
      sized = a.sized;
      kept_once = a.kept_once;
    }

  -- How the loop ends that is started at `g`.
  abbrev pub Arrives : ℤ → Generator → Generator → Type 0
  Arrives time g h =
      ArrivedFrom time g.memory_segment g.births g.arrivals g.sent (contents g.waiting_queue)
        (PriorityQueue.contents g.pq) g.once h
