-- ===== src/PriorityQueue/Tests.antt =====
-- Runs of the process queue of src/DS/priorityQueue.c, and the theorems at concrete queues.
use kernel_sim.Base.{ℕ, zero, suc, ◌≡◌, refl, ◌∷◌, [], List, arith}
use kernel_sim.Base.Int.{pos, ◌-ℤ◌}
use kernel_sim.Base.Array
use kernel_sim.Base.Array.{replicate, length-replicate}
use kernel_sim.Base.Outcome.{done, ◌>>=◌, Ends}
use kernel_sim.Heap.{sift_up, sift_down}
use kernel_sim.Heap.Order.{IsHeap}
use kernel_sim.PriorityQueue.{
  Process, by_arrival_time, by_arrival_then_priority, PriorityQueue, contents, compare_processes,
  pq_push, pq_top, pq_pop, hole_up,
}
use kernel_sim.PriorityQueue.Order.{compare_processes-IsOrder}
use kernel_sim.PriorityQueue.Hole.{hole_up-eq-sift_up}
use kernel_sim.PriorityQueue.Inv.{zero_process, IsValid, Holds, Allocates}
use kernel_sim.PriorityQueue.Push.{pq_push-Holds}
use kernel_sim.PriorityQueue.Pop.{Popped, pq_pop-Popped}

abbrev arrives : ℕ → ℕ → Process
arrives id time = record zero_process { id = pos id; arrival_time = pos time }

abbrev zeroed : ℕ → List Process
zeroed n = replicate n zero_process

zeroed-Allocates : Allocates zeroed
zeroed-Allocates n = length-replicate n zero_process

-- A full queue.
abbrev two : PriorityQueue
two = record {
  elements = arrives 1 2 ∷ arrives 2 6 ∷ [];
  size = 2;
  capacity = 2;
  sort_mode = by_arrival_then_priority;
}

abbrev empty : PriorityQueue
empty = record two { size = 0 }

two_heap : IsHeap (compare_processes by_arrival_then_priority) zero_process two.elements 2
unfolding compare_processes ◌-ℤ◌
two_heap zero p q = absurd (omega arith)
two_heap (suc zero) p q = omega arith
two_heap (suc (suc c)) p q = absurd (omega arith)

two-IsValid : IsValid two
two-IsValid = record {
  storage = refl;
  fits = omega arith;
  has_room = omega arith;
  small = omega arith;
  heap = two_heap;
}

empty-IsValid : IsValid empty
empty-IsValid = record {
  storage = refl;
  fits = omega arith;
  has_room = omega arith;
  small = omega arith;
  heap = λ c p q. absurd (omega arith);
}

push_run :
    (pq_push zeroed two (arrives 3 1) >>= λ q. done (contents q))
    ≡ done (arrives 3 1 ∷ arrives 2 6 ∷ arrives 1 2 ∷ [])
unfolding pq_push compare_processes Array.load Array.store ◌-ℤ◌
push_run = refl

pop_run : (pq_pop two >>= λ q. done (contents q)) ≡ done (arrives 2 6 ∷ [])
unfolding pq_pop sift_down compare_processes Array.load Array.store ◌-ℤ◌
pop_run = refl

hole_up-eq-sift_up_example :
    hole_up (compare_processes by_arrival_time) 2 two.elements 1 (arrives 3 1)
    ≡ sift_up (compare_processes by_arrival_time) 2 (Array.set two.elements 1 (arrives 3 1)) 1
hole_up-eq-sift_up_example =
    hole_up-eq-sift_up (compare_processes by_arrival_time)
      (compare_processes-IsOrder by_arrival_time) zero_process 2 two.elements 1 (arrives 3 1)
      (omega arith) (omega arith)

pq_push-Holds_example :
    Ends (Holds two (arrives 3 1 ∷ contents two)) (pq_push zeroed two (arrives 3 1))
pq_push-Holds_example =
    pq_push-Holds zeroed two (arrives 3 1) zeroed-Allocates two-IsValid (omega arith)

pq_pop-Popped_example : Ends (λ top. Ends (Popped two top) (pq_pop two)) (pq_top two)
pq_pop-Popped_example = pq_pop-Popped two two-IsValid (omega arith)
