-- ===== src/Queue/Tests.antt =====
-- Runs of the ring of src/DS/Queue.c, and the theorems at concrete rings.
use kernel_sim.Base.{ℕ, ◌≡◌, refl, ◌∷◌, [], ◌++◌, List, arith}
use kernel_sim.Base.Int.{pos}
use kernel_sim.Base.Array
use kernel_sim.Base.Array.{replicate, length-replicate}
use kernel_sim.Base.Outcome.{done, ◌>>=◌, Ends}
use kernel_sim.Pcb.{Pcb, zero_pcb}
use kernel_sim.Queue.{PcbQueue, queue_enqueue, queue_front, queue_dequeue}
use kernel_sim.Queue.Inv.{IsValid, contents, Allocates}
use kernel_sim.Queue.Enqueue.{queue_enqueue-contents}
use kernel_sim.Queue.Refine.{queue_dequeue-contents}

abbrev process : ℕ → Pcb
process pid = record zero_pcb { pid = pos pid }

-- A `malloc` whose memory is all zero.
abbrev zeroed : ℕ → List Pcb
zeroed n = replicate n zero_pcb

zeroed-Allocates : Allocates zeroed
zeroed-Allocates n = length-replicate n zero_pcb

-- A full ring that goes round its end: 71, then 72.
abbrev wrapped : PcbQueue
wrapped = record {
  elements = process 72 ∷ process 71 ∷ [];
  front = 1;
  rear = 1;
  size = 2;
  capacity = 2;
}

abbrev empty : PcbQueue
empty = record wrapped { size = 0 }

wrapped-IsValid : IsValid wrapped
wrapped-IsValid = record {
  storage = refl;
  has_room = omega arith;
  small = omega arith;
  front_in = omega arith;
  fits = omega arith;
  rear_at = refl;
}

enqueue_run :
    (queue_enqueue zeroed wrapped (process 73) >>= λ q. done (contents q))
    ≡ done (process 71 ∷ process 72 ∷ process 73 ∷ [])
unfolding queue_enqueue Array.load Array.store
enqueue_run = refl

queue_enqueue-contents_example :
    Ends
      (λ r. IsValid r × (contents r ≡ contents wrapped ++ process 73 ∷ []))
      (queue_enqueue zeroed wrapped (process 73))
queue_enqueue-contents_example =
    queue_enqueue-contents zeroed wrapped (process 73) zeroed-Allocates wrapped-IsValid
      (omega arith)

queue_dequeue-contents_example :
    (queue_front wrapped ≡ done (process 71))
    × IsValid (queue_dequeue wrapped)
    × (contents (queue_dequeue wrapped) ≡ process 72 ∷ [])
queue_dequeue-contents_example =
    queue_dequeue-contents wrapped (process 71) (process 72 ∷ []) wrapped-IsValid refl
