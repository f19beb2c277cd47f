-- ===== src/Generator/Arrival.antt =====
-- One process that has arrived, in the loop of `main`: what the round does with it.
use kernel_sim.Base.{ℕ, ◌+◌, ◌^◌, ◌≤◌, ◌≡◌, Bool, true, false, List, [], ◌∷◌, ◌++◌, if◌then◌else◌}
use kernel_sim.Base.Int.{ℤ, pos, ◌+ℤ◌, ◌≤ℤ◌}
use kernel_sim.Base.Array.{length}
use kernel_sim.Base.Outcome.{done, Ends, ends, Ends-then, Ends-branch}
use kernel_sim.Pcb.{Pcb}
use kernel_sim.PriorityQueue.{Process, PriorityQueue, pq_top, pq_pop}
use kernel_sim.Queue.{PcbQueue}
use kernel_sim.Queue.Inv.{contents}
use kernel_sim.Queue.Small.{IsSmall, queue_enqueue-IsSmall}
use kernel_sim.Memory.{Reply, allocate_memory, update_id, total_memory_size}
use kernel_sim.Memory.Sized.{Sized}
use kernel_sim.Generator.{
  chosen, Generator, GeneratorOs, GeneratorEffect, new_semaphore, new_pcb, accept_arrival,
  postpone_arrival, arrive,
}
use kernel_sim.Generator.Launch.{
  new_semaphore-chosen, IsSteady, Asked, asked, request_memory-Asked, launched, launch-done,
  send-done, with_launched,
}

module _ (os : GeneratorOs) where
  -- The control block of the n-th process that arrives.
  abbrev pub arriving : ℕ → Process → Pcb
  arriving n p = new_pcb (os.fresh n) p (chosen (os.semaphores n))

  abbrev pub arriving_all : ℕ → List Process → List Pcb
  arriving_all n [] = []
  arriving_all n (p ∷ ps) = arriving n p ∷ arriving_all (n + 1) ps

  -- What one round does with the process `top`, when `rest` is the queue without it.
  pub data OneArrived (time : ℤ) (g : Generator) (top : Process) (rest : PriorityQueue)
      : Generator → Type 0 where
    admitted_one :
        (reply : Reply) (effects : List GeneratorEffect)
        → allocate_memory g.memory_segment top.id top.memory_size time ≡ done reply
        → reply.success ≡ true
        → Sized total_memory_size reply.root
        → OneArrived time g top rest (record g {
          pq = rest;
          arrivals = g.arrivals + 1;
          births = g.births + 1;
          memory_segment = update_id top.id (os.forks g.births).pid reply.root;
          sent = g.sent ++ launched os g.births (arriving g.arrivals top) ∷ [];
          messages = g.messages + 1;
          process_count = g.process_count +ℤ pos 1;
          effects = effects;
        })
    postponed_one :
        (reply : Reply) (effects : List GeneratorEffect) (waiting : PcbQueue)
        → allocate_memory g.memory_segment top.id top.memory_size time ≡ done reply
        → reply.success ≡ false
        → Sized total_memory_size reply.root
        → IsSmall waiting
        → contents waiting ≡ contents g.waiting_queue ++ arriving g.arrivals top ∷ []
        → OneArrived time g top rest (record g {
          pq = rest;
          arrivals = g.arrivals + 1;
          memory_segment = reply.root;
          waiting_queue = waiting;
          effects = effects;
        })

  module _ (steady : IsSteady os) where
    semaphore_taken : (n : ℕ) → new_semaphore (os.semaphores n) ≡ done (chosen (os.semaphores n))
    semaphore_taken n =
        let (id, e) = steady.semaphore n in
        (new_semaphore-chosen (os.semaphores n) id (steady.semget n) e).0

    arrival_round :
        (g : Generator) (time : ℤ) (top : Process) (rest : PriorityQueue)
        → pq_pop g.pq ≡ done rest
        → IsSmall g.waiting_queue
        → length (contents g.waiting_queue) ≤ 2 ^ 60
        → (r : Bool × Generator)
        → Asked (record g { arrivals = g.arrivals + 1 }) (arriving g.arrivals top) time r
        → Ends (OneArrived time g top rest) (
            if r.0
            then accept_arrival os r.1 (arriving g.arrivals top)
            else postpone_arrival os r.1 (arriving g.arrivals top))
    unfolding accept_arrival postpone_arrival
    arrival_round g time top rest popped small few _ (asked reply effects e s) =
        let new = arriving g.arrivals top in
        let h = record g {
          arrivals = g.arrivals + 1;
          memory_segment = reply.root;
          effects = effects;
        } in
        Ends-branch reply.success
          (λ success.
            rw
              (
                launch-done os steady h new,
                popped,
                send-done os steady (record (with_launched os h new) { pq = rest })
                    (launched os g.births new),
              )
              (ends (admitted_one reply _ e success s)))
          λ failure.
            Ends-then (queue_enqueue-IsSmall os.malloc g.waiting_queue new steady.malloc small few)
              λ w (small_w, more).
                rw popped (ends (postponed_one reply effects w e failure s small_w more))

    pub arrive-OneArrived :
        (g : Generator) (time : ℤ) (top : Process) (rest : PriorityQueue)
        → pq_top g.pq ≡ done top
        → pq_pop g.pq ≡ done rest
        → top.memory_size ≤ℤ pos (2 ^ 30)
        → Sized total_memory_size g.memory_segment
        → IsSmall g.waiting_queue
        → length (contents g.waiting_queue) ≤ 2 ^ 60
        → Ends (OneArrived time g top rest) (arrive os g time)
    unfolding arrive
    arrive-OneArrived g time top rest at_top popped little sized small few =
        rw (at_top, semaphore_taken g.arrivals)
          (Ends-then
            (request_memory-Asked (record g { arrivals = g.arrivals + 1 }) (arriving g.arrivals top)
              time little sized)
            λ r a. arrival_round g time top rest popped small few r a)
