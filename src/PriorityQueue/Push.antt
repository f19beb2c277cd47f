-- ===== src/PriorityQueue/Push.antt =====
-- `pq_push` and the growth of the array.
use mathlib.Core.List.Perm
use kernel_sim.Base.{
  ◌⊎◌, inl, inr, ℕ, ◌+◌, ◌*◌, ◌%◌, ◌^◌, ◌≤◌, ◌<◌, ◌≡◌, refl, ap, ◌∙◌, List, ◌∷◌, ◌++◌, arith, leb,
  if◌then◌else◌, ◌&&◌,
}
use kernel_sim.Base.Array
use kernel_sim.Base.Array.{length, get_or, take, drop}
use kernel_sim.Base.Outcome.{done, Ends, ends, Ends-then, Ends-weaken, Ends-branch}
use kernel_sim.Heap.Order.{IsHeap-take}
use kernel_sim.Heap.Up.{appended-UpInv, appended_perm, sift_up-IsSifted}
use kernel_sim.PriorityQueue.{
  Process, PriorityQueue, contents, compare_processes, pq_resize, pq_push,
}
use kernel_sim.PriorityQueue.Order.{compare_processes-IsOrder}
use kernel_sim.PriorityQueue.Hole.{hole_up-eq-sift_up}
use kernel_sim.PriorityQueue.Inv.{zero_process, IsValid, Allocates, Holds}

copied_prefix :
    (n : ℕ) (to from : List Process)
    → n ≤ length from
    → take n (take n from ++ drop n to) ≡ take n from
copied_prefix n to from h =
    Array.take-append n (take n from) (drop n to) (omega (arith, Array.length-take n from))

-- Resizing a valid process queue to no smaller a capacity, with an allocator that returns what is
-- asked for, keeps its processes and its heap order.
pub pq_resize-Holds :
    (malloc : ℕ → List Process) (pq : PriorityQueue) (new_capacity : ℕ)
    → Allocates malloc
    → IsValid pq
    → pq.capacity ≤ new_capacity
    → 2 * new_capacity < 2 ^ 64
    → Ends
        (λ pq'. Holds pq (contents pq) pq' × (pq'.capacity ≡ new_capacity) × (pq'.size ≡ pq.size))
        (pq_resize malloc pq new_capacity)
unfolding pq_resize
pq_resize-Holds malloc pq n alloc v larger small =
    let fits : pq.size ≤ length pq.elements = omega (arith, v.storage, v.fits) in
    let copied = copied_prefix pq.size (malloc n) pq.elements fits in
    Ends-then
      (Ends-branch {P = λ b. b ≡ take pq.size pq.elements ++ drop pq.size (malloc n)}
        (leb pq.size (length (malloc n)) && leb pq.size (length pq.elements)) (λ ok. ends refl)
        (λ short. absurd (ground (arith, alloc n, v.fits, v.storage))))
      λ b e. ends (
        record {
          valid = record {
            storage = ground (
              arith,
              e,
              ap length e,
              Array.length-append (take pq.size pq.elements) (drop pq.size (malloc n)),
              Array.length-take pq.size pq.elements,
              Array.length-drop pq.size (malloc n),
              alloc n,
              v.fits,
              v.storage,
            );
            fits = omega (arith, v.fits);
            has_room = omega (arith, v.has_room);
            small = small;
            heap =
                IsHeap-take (compare_processes pq.sort_mode) zero_process pq.elements b pq.size
                  (rw e copied) v.heap;
          };
          same = rw (e, copied) Perm.rfl;
          kept_mode = refl;
        },
        refl,
        refl,
      )

-- The array is as long as it was, or it was full and has grown.
abbrev pub GrownFrom : PriorityQueue → PriorityQueue → Type 0
GrownFrom pq pq' = (pq'.capacity ≡ pq.capacity) ⊎ (pq'.capacity ≡ 2 * pq.size)

-- Before the new process is written: the array has room for it.
Roomy : PriorityQueue → PriorityQueue → Type 0
Roomy pq pq' =
    Holds pq (contents pq) pq' × (pq'.size < pq'.capacity) × (pq'.size ≡ pq.size) × GrownFrom pq pq'

grown-Roomy :
    (malloc : ℕ → List Process) (pq : PriorityQueue)
    → Allocates malloc
    → IsValid pq
    → 4 * pq.capacity < 2 ^ 64
    → Ends (Roomy pq) (
        if leb pq.capacity pq.size then pq_resize malloc pq (pq.capacity * 2 % 2 ^ 64) else done pq)
unfolding Roomy
grown-Roomy malloc pq alloc v small =
    Ends-branch (leb pq.capacity pq.size)
      (λ full.
        Ends-weaken
          (pq_resize-Holds malloc pq (pq.capacity * 2 % 2 ^ 64) alloc v (omega arith) (omega arith))
          λ pq' (holds, c, s). (
            holds,
            omega (arith, c, s, v.has_room, v.fits),
            s,
            inr (ground (arith, full, c, v.fits)),
          ))
      (λ room.
        ends
          (record { valid = v; same = Perm.rfl; kept_mode = refl }, ground arith, refl, inl refl))

pub pq_push-GrownFrom :
    (malloc : ℕ → List Process) (pq : PriorityQueue) (value : Process)
    → Allocates malloc
    → IsValid pq
    → 4 * pq.capacity < 2 ^ 64
    → Ends
        (λ r. Holds pq (value ∷ contents pq) r × (r.size ≡ pq.size + 1) × GrownFrom pq r)
        (pq_push malloc pq value)
unfolding pq_push Roomy
pq_push-GrownFrom malloc pq value alloc v small =
    Ends-then (grown-Roomy malloc pq alloc v small) λ g (holds, room, same_size, grown).
      let cmp = compare_processes g.sort_mode in
      let o = compare_processes-IsOrder g.sort_mode in
      let inside : g.size < length g.elements = omega (arith, holds.valid.storage) in
      let wrap : (g.size + 1) % 2 ^ 64 ≡ g.size + 1 = omega (arith, holds.valid.small) in
      rw
        (
          hole_up-eq-sift_up cmp o zero_process (g.size + 1) g.elements g.size value inside
              (omega arith),
          wrap,
        )
        (Ends-then
          (sift_up-IsSifted cmp o zero_process (Array.set g.elements g.size value) (g.size + 1)
            g.size
            (appended-UpInv cmp zero_process g.elements g.size value inside holds.valid.heap))
          λ b s. ends (
            record {
              valid = record {
                storage = s.size ∙ Array.length-set g.elements g.size value ∙ holds.valid.storage;
                fits = omega arith;
                has_room = holds.valid.has_room;
                small = holds.valid.small;
                heap = s.heap;
              };
              same = Perm.trans s.same (
                  Perm.trans (appended_perm cmp zero_process g.elements g.size value inside)
                    (Perm.cons value holds.same));
              kept_mode = holds.kept_mode;
            },
            omega (arith, same_size),
            grown,
          ))

-- On a valid process queue whose capacity a size_t can hold four times, with an allocator that
-- returns what is asked for, pushing ends with a valid queue of exactly one more process, growing
-- the array if it was full.
pub pq_push-Holds :
    (malloc : ℕ → List Process) (pq : PriorityQueue) (value : Process)
    → Allocates malloc
    → IsValid pq
    → 4 * pq.capacity < 2 ^ 64
    → Ends (Holds pq (value ∷ contents pq)) (pq_push malloc pq value)
pq_push-Holds malloc pq value alloc v small =
    Ends-weaken (pq_push-GrownFrom malloc pq value alloc v small) λ r (holds, _, _). holds
