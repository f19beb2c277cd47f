-- ===== src/MinHeap/Insert.antt =====
-- Insertion into the ready heap.
use mathlib.Core.List.Perm
use kernel_sim.Base.{◌+◌, ◌≤◌, ◌<◌, ◌≡◌, ◌∷◌, arith, leb, ◌∙◌}
use kernel_sim.Base.Array
use kernel_sim.Base.Array.{length, get_or, take}
use kernel_sim.Base.Outcome.{done, Ends, Ends-weaken, Ends-branch}
use kernel_sim.Pcb.{Pcb, zero_pcb}
use kernel_sim.Heap.Up.{appended-UpInv, appended_perm}
use kernel_sim.MinHeap.{MinHeap, contents, insert_process_min_heap}
use kernel_sim.MinHeap.Inv.{IsValid, Holds, Resifted-Holds, heapify_up-Resifted}

-- With room left in a valid heap, insertion ends with a valid heap that holds exactly one more
-- process.
pub insert_process_min_heap-Holds :
    (h : MinHeap) (p : Pcb)
    → IsValid h
    → h.size < h.capacity
    → Ends (Holds h (p ∷ contents h)) (insert_process_min_heap h p)
unfolding insert_process_min_heap
insert_process_min_heap-Holds h p v room =
    let a = Array.set h.processes h.size p in
    let inside : h.size < length h.processes = omega (arith, v.storage) in
    Ends-branch (leb h.capacity h.size) (λ full. absurd (ground arith))
      λ _. rw (Array.store-set h.processes h.size p inside) (
        Ends-weaken
          (heapify_up-Resifted (record h { processes = a; size = h.size + 1 }) h.size v.order
            (appended-UpInv h.cmp zero_pcb h.processes h.size p inside v.heap))
          λ h' r.
            let held =
              Resifted-Holds v.order (Array.length-set h.processes h.size p ∙ v.storage)
                (omega arith) r in
            record {
              valid = held.valid;
              same =
                  Perm.trans held.same (appended_perm h.cmp zero_pcb h.processes h.size p inside);
              kept_cmp = held.kept_cmp;
              kept_capacity = held.kept_capacity;
            })

-- A full heap drops the process: nothing changes.
pub insert_process_min_heap_full :
    (h : MinHeap) (p : Pcb) → h.capacity ≤ h.size → insert_process_min_heap h p ≡ done h
unfolding insert_process_min_heap
insert_process_min_heap_full h p full = ground arith
