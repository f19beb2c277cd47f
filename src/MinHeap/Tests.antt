-- ===== src/MinHeap/Tests.antt =====
-- Runs of the ready heap of src/DS/minHeap.c, and the theorems at concrete heaps.
use kernel_sim.Base.{ℕ, zero, suc, ◌<◌, ◌≡◌, ◌≢◌, refl, ap, ◌∷◌, [], none, arith}
use kernel_sim.Base.Int.{pos, pos_part, ◌-ℤ◌, -ℤ_parts}
use kernel_sim.Base.Array
use kernel_sim.Base.Array.{replicate, length-replicate}
use kernel_sim.Base.Outcome.{done, ◌>>=◌, Ends}
use kernel_sim.Pcb.{Pcb, zero_pcb, compare_priority}
use kernel_sim.Pcb.Order.{compare_priority-IsOrder}
use kernel_sim.Heap.{sift_up, sift_down}
use kernel_sim.Heap.Order.{IsHeap}
use kernel_sim.MinHeap.{
  MinHeap, contents, insert_process_min_heap, extract_min, update_process_in_heap,
}
use kernel_sim.MinHeap.Inv.{IsValid, Holds}
use kernel_sim.MinHeap.Insert.{insert_process_min_heap-Holds, insert_process_min_heap_full}
use kernel_sim.MinHeap.Extract.{Extracted, extract_min-Extracted, extract_min_empty}
use kernel_sim.MinHeap.Update.{changed, update_process_in_heap-Holds}

abbrev with_priority : ℕ → ℕ → Pcb
with_priority pid priority = record zero_pcb { pid = pos pid; priority = pos priority }

abbrev two : MinHeap
two = record {
  capacity = 3;
  size = 2;
  processes = with_priority 71 1 ∷ with_priority 72 4 ∷ zero_pcb ∷ [];
  cmp = compare_priority;
}

abbrev empty : MinHeap
empty = record two { size = 0 }

two_heap : IsHeap compare_priority zero_pcb two.processes 2
unfolding compare_priority
two_heap zero p q = absurd (omega arith)
two_heap (suc zero) p q = omega (arith, -ℤ_parts)
two_heap (suc (suc c)) p q = absurd (omega arith)

two-IsValid : IsValid two
two-IsValid = record {
  order = compare_priority-IsOrder;
  storage = refl;
  fits = omega arith;
  heap = two_heap;
}

-- A process of priority 0 overtakes both.
insert_run :
    (insert_process_min_heap two (with_priority 73 0) >>= λ h. done (contents h))
    ≡ done (with_priority 73 0 ∷ with_priority 72 4 ∷ with_priority 71 1 ∷ [])
unfolding insert_process_min_heap sift_up compare_priority Array.store Array.load ◌-ℤ◌
insert_run = refl

extract_run : (extract_min two >>= λ r. done (contents r.1)) ≡ done (with_priority 72 4 ∷ [])
unfolding extract_min sift_down compare_priority Array.store Array.load ◌-ℤ◌
extract_run = refl

insert_process_min_heap-Holds_example :
    Ends
      (Holds two (with_priority 73 0 ∷ contents two))
      (insert_process_min_heap two (with_priority 73 0))
insert_process_min_heap-Holds_example =
    insert_process_min_heap-Holds two (with_priority 73 0) two-IsValid (omega arith)

insert_process_min_heap_full_example :
    insert_process_min_heap (record two { capacity = 2 }) (with_priority 73 0)
    ≡ done (record two { capacity = 2 })
insert_process_min_heap_full_example =
    insert_process_min_heap_full (record two { capacity = 2 }) (with_priority 73 0) (omega arith)

extract_min-Extracted_example : Ends (Extracted two) (extract_min two)
extract_min-Extracted_example = extract_min-Extracted two two-IsValid (omega arith)

extract_min_empty_example : extract_min empty ≡ done (none, empty)
extract_min_empty_example = extract_min_empty empty refl

other_pid : (j : ℕ) → j < 1 → (Array.get_or two.processes j zero_pcb).pid ≢ pos 72
other_pid zero p e = absurd (omega (arith, ap pos_part e))
other_pid (suc j) p e = absurd (omega arith)

-- The second process, now of priority 0, goes to the root.
update_process_in_heap-Holds_example :
    Ends
      (Holds two (Array.set (contents two) 1 (with_priority 72 0)))
      (update_process_in_heap (changed two 1 (with_priority 72 0)) (pos 72))
update_process_in_heap-Holds_example =
    update_process_in_heap-Holds two 1 (with_priority 72 0) two-IsValid (omega arith) other_pid
