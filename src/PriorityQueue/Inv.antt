-- ===== src/PriorityQueue/Inv.antt =====
-- The invariant of the process queue.
use kernel_sim.Base.{ℕ, ◌*◌, ◌^◌, ◌≤◌, ◌<◌, ◌≡◌, refl, List, [], Perm, arith}
use kernel_sim.Base.Int.{pos}
use kernel_sim.Base.Array.{length}
use kernel_sim.Heap.Order.{IsHeap}
use kernel_sim.PriorityQueue.{
  Process, SortMode, PriorityQueue, contents, compare_processes, pq_init,
}

abbrev pub zero_process : Process
zero_process = record {
  id = pos 0;
  arrival_time = pos 0;
  execution_time = pos 0;
  priority = pos 0;
  memory_size = pos 0;
  os_pid = pos 0;
  remaining_time = pos 0;
  started = pos 0;
  start_time = pos 0;
}

-- The array has `capacity` processes; a `size_t` can hold twice the capacity.
pub record IsValid (pq : PriorityQueue) : Type 0 where
  pub storage : length pq.elements ≡ pq.capacity
  pub fits : pq.size ≤ pq.capacity
  pub has_room : 0 < pq.capacity
  pub small : 2 * pq.capacity < 2 ^ 64
  pub heap : IsHeap (compare_processes pq.sort_mode) zero_process pq.elements pq.size

-- What is assumed of `malloc`: the array has as many entries as were asked for.
abbrev pub Allocates : (ℕ → List Process) → Type 0
Allocates malloc = (n : ℕ) → length (malloc n) ≡ n

-- The queue `pq'` is valid and holds exactly `ps`, in the same sort mode.
pub record Holds (pq : PriorityQueue) (ps : List Process) (pq' : PriorityQueue) : Type 0 where
  pub valid : IsValid pq'
  pub same : Perm (contents pq') ps
  pub kept_mode : pq'.sort_mode ≡ pq.sort_mode

-- With an allocator that returns what is asked for and a positive capacity that a size_t can hold
-- twice, a new process queue is valid and empty.
pub pq_init-IsValid :
    (malloc : ℕ → List Process) (capacity : ℕ) (mode : SortMode)
    → Allocates malloc
    → 0 < capacity
    → 2 * capacity < 2 ^ 64
    → IsValid (pq_init malloc capacity mode) × (contents (pq_init malloc capacity mode) ≡ [])
unfolding pq_init
pq_init-IsValid malloc capacity mode alloc room small = (
  record {
    storage = alloc capacity;
    fits = omega arith;
    has_room = room;
    small = small;
    heap = λ c p q. absurd (omega arith);
  },
  refl,
)
