-- ===== src/MinHeap.antt =====
-- src/DS/minHeap.c: the ready heap of the scheduler. The heap owns the control blocks that its
-- pointers name, so an entry of `processes` is the control block itself. Entries from `size` on are
-- what `malloc` or an earlier extraction left there.
pub mod Inv
pub mod Insert
pub mod Extract
pub mod Update
mod Tests
use kernel_sim.Base.{
  ℕ, zero, suc, ◌+◌, ◌-◌, ◌≡◌, Bool, true, false, List, [], ◌∷◌, ◌++◌, Option, none, some, ltb, leb,
  ◌==◌, if◌then◌else◌,
}
use kernel_sim.Base.Int.{ℤ, ◌==ℤ◌}
use kernel_sim.Base.Array.{load, store, take}
use kernel_sim.Base.Outcome.{Outcome, done, ◌>>=◌}
use kernel_sim.Pcb.{Pcb}
use kernel_sim.Heap.{sift_up, sift_down}

abbrev pub max_processes : ℕ
max_processes = 1024

pub record MinHeap : Type 0 where
  pub capacity : ℕ
  pub size : ℕ
  pub processes : List Pcb
  pub cmp : Pcb → Pcb → ℤ

-- The processes in the heap, in array order.
abbrev pub contents : MinHeap → List Pcb
contents h = take h.size h.processes

unfoldable pub heapify_down : MinHeap → ℕ → Outcome MinHeap
heapify_down h i = do
  b ← sift_down h.cmp (h.size + 1) h.processes h.size i
  done (record h { processes = b })

unfoldable pub heapify_up : MinHeap → ℕ → Outcome MinHeap
heapify_up h i = do b ← sift_up h.cmp (i + 1) h.processes i; done (record h { processes = b })

-- The arguments are what the two calls of `malloc` return: whether the first succeeds, and the
-- array of the second. `none` is `exit(1)`.
unfoldable pub create_min_heap : Bool → Option (List Pcb) → (Pcb → Pcb → ℤ) → Option MinHeap
create_min_heap false processes cmp = none
create_min_heap true none cmp = none
create_min_heap true (some fresh) cmp =
    some (record { capacity = max_processes; size = 0; processes = fresh; cmp = cmp })

-- A full heap is left as it was, and the process is in no queue.
unfoldable pub insert_process_min_heap : MinHeap → Pcb → Outcome MinHeap
unfolding heapify_up
insert_process_min_heap h process = if leb h.capacity h.size then done h else do
  b ← store h.processes h.size process
  heapify_up (record h { processes = b; size = h.size + 1 }) h.size

-- The result is `none` for NULL.
unfoldable pub extract_min : MinHeap → Outcome (Option Pcb × MinHeap)
unfolding heapify_down
extract_min h = if h.size == 0 then done (none, h) else do
  min ← load h.processes 0
  last ← load h.processes (h.size - 1)
  b ← store h.processes 0 last
  let h' = record h { processes = b; size = h.size - 1 }
  h'' ← if ltb 0 h'.size then heapify_down h' 0 else done h'
  done (some min, h'')

-- `for (int i = 0; i < size; i++) if (processes[i]->pid == pid)`, with `left` rounds to go.
index_from : MinHeap → ℤ → ℕ → ℕ → Outcome (Option ℕ)
index_from h pid zero i = done none
index_from h pid (suc left) i = do
  p ← load h.processes i
  let next = index_from h pid left (i + 1)
  if p.pid ==ℤ pid then done (some i) else next

unfoldable pub update_process_in_heap : MinHeap → ℤ → Outcome MinHeap
unfolding index_from heapify_up heapify_down
update_process_in_heap h pid = do
  found ← index_from h pid h.size 0
  elim found [ none ↦ done h | some i ↦ heapify_up h i >>= λ h'. heapify_down h' i ]

unfoldable pub find_process_in_heap : MinHeap → ℤ → Outcome (Option Pcb)
unfolding index_from
find_process_in_heap h pid = do
  found ← index_from h pid h.size 0
  elim found [ none ↦ done none | some i ↦ (do p ← load h.processes i; done (some p)) ]

-- The control blocks that `destroy_min_heap` frees, in order.
free_from : MinHeap → ℕ → ℕ → Outcome (List Pcb)
free_from h zero i = done []
free_from h (suc left) i = do
  p ← load h.processes i
  rest ← free_from h left (i + 1)
  done (p ∷ rest)

unfoldable pub destroy_min_heap : Option MinHeap → Outcome (List Pcb)
unfolding free_from
destroy_min_heap none = done []
destroy_min_heap (some h) = free_from h h.size 0
