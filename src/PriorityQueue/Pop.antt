-- ===== src/PriorityQueue/Pop.antt =====
-- `pq_top` and `pq_pop`.
use mathlib.Core.List.Perm
use kernel_sim.Base.{ℕ, zero, suc, ◌+◌, ◌%◌, ◌-◌, ◌^◌, ◌<◌, ◌≡◌, refl, ◌∙◌, ◌∷◌, Perm, Mem, arith}
use kernel_sim.Base.Array
use kernel_sim.Base.Array.{length, get_or, take, drop}
use kernel_sim.Base.Outcome.{fault, Ends, ends, Ends-then}
use kernel_sim.Heap.{sift_down}
use kernel_sim.Heap.Order.{IsSifted, Precedes, root_least}
use kernel_sim.Heap.Down.{moved-DownInv, moved_perm, sift_down-IsSifted}
use kernel_sim.PriorityQueue.{Process, PriorityQueue, contents, compare_processes, pq_top, pq_pop}
use kernel_sim.PriorityQueue.Order.{compare_processes-IsOrder}
use kernel_sim.PriorityQueue.Inv.{zero_process, IsValid}

-- The top of a queue that is not empty is in it, and no other process precedes it. Popping removes
-- exactly the top.
pub record Popped (pq : PriorityQueue) (top : Process) (rest : PriorityQueue) : Type 0 where
  pub valid : IsValid rest
  pub same : Perm (top ∷ contents rest) (contents pq)
  pub least : (p : Process) → Mem p (contents pq) → Precedes (compare_processes pq.sort_mode) top p
  pub kept_mode : rest.sort_mode ≡ pq.sort_mode
  pub kept_capacity : rest.capacity ≡ pq.capacity
  pub one_less : pq.size ≡ suc rest.size

sift_down-root :
    (pq : PriorityQueue) (n : ℕ)
    → IsValid pq
    → pq.size ≡ suc n
    → let cmp = compare_processes pq.sort_mode in
      let a = Array.set pq.elements 0 (get_or pq.elements n zero_process) in
      Ends (IsSifted cmp zero_process a n) (sift_down cmp (n + 1) a n 0)
unfolding sift_down
sift_down-root pq zero v e =
    ends (record { heap = λ c p q. absurd (omega arith); same = Perm.rfl; size = refl })
sift_down-root pq (suc n) v e =
    let cmp = compare_processes pq.sort_mode in
    let inside : suc n < length pq.elements = omega (arith, v.storage, v.fits) in
    sift_down-IsSifted cmp (compare_processes-IsOrder pq.sort_mode) zero_process _ (suc n) 0
      (moved-DownInv cmp zero_process pq.elements (suc n) inside (rw e at v.heap) (omega arith))

-- On a valid process queue that is not empty the top is a process that no other precedes, and
-- popping leaves a valid queue of exactly the others.
pub pq_pop-Popped :
    (pq : PriorityQueue)
    → IsValid pq
    → 0 < pq.size
    → Ends (λ top. Ends (Popped pq top) (pq_pop pq)) (pq_top pq)
unfolding pq_top pq_pop
pq_pop-Popped pq v some_left =
    let cmp = compare_processes pq.sort_mode in
    let o = compare_processes-IsOrder pq.sort_mode in
    let n = pq.size - 1 in
    let size : pq.size ≡ suc n = omega arith in
    let wrap : (pq.size + 2 ^ 64 - 1) % 2 ^ 64 ≡ n = omega (arith, v.small, v.fits) in
    let inside : n < length pq.elements = omega (arith, v.storage, v.fits) in
    let whole = rw (← size) at (moved_perm cmp zero_process pq.elements n inside) in
    let last = get_or pq.elements n zero_process in
    rw
      (
        wrap,
        Array.load-get_or pq.elements 0 zero_process (omega arith),
        Array.load-get_or pq.elements n zero_process inside,
        Array.store-set pq.elements 0 last (omega arith),
      )
      (ends (
        Ends-then (sift_down-root pq n v size) λ b s. ends (record {
          valid = record {
            storage = s.size ∙ Array.length-set pq.elements 0 last ∙ v.storage;
            fits = omega (arith, v.fits);
            has_room = v.has_room;
            small = v.small;
            heap = s.heap;
          };
          same = Perm.trans (Perm.cons _ s.same) whole;
          least =
              root_least cmp o zero_process pq.elements pq.size v.heap
                (omega (arith, v.storage, v.fits));
          kept_mode = refl;
          kept_capacity = refl;
          one_less = size;
        })))

-- Popping a valid empty process queue wraps its size and reads outside the array.
pub pq_pop_empty : (pq : PriorityQueue) → IsValid pq → pq.size ≡ 0 → pq_pop pq ≡ fault
unfolding pq_pop
pq_pop_empty pq v e = rw (
  e,
  Array.load-fault pq.elements ((0 + 2 ^ 64 - 1) % 2 ^ 64) (omega (arith, v.small, v.storage)),
)
