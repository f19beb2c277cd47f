-- ===== src/PriorityQueue.antt =====
-- src/DS/priorityQueue.h and src/DS/priorityQueue.c: the queue of processes that have not arrived
-- yet. `size_t` sums wrap at 2 ^ 64. `malloc n` is the array that a call for `n` processes returns,
-- with whatever it holds; the code does not test for a failed allocation.
pub mod Order
pub mod Hole
pub mod Inv
pub mod Push
pub mod Pop
mod Tests
use kernel_sim.Base.{
  ℕ, zero, suc, ◌+◌, ◌-◌, ◌*◌, ◌%◌, ◌^◌, Bool, List, [], ◌++◌, ltb, leb, ◌==◌, if◌then◌else◌, ◌&&◌,
}
use kernel_sim.Base.Int.{ℤ, pos, ◌-ℤ◌, leb_ℤ, ◌==ℤ◌}
use kernel_sim.Base.Array.{length, load, store, take, drop}
use kernel_sim.Base.Outcome.{Outcome, done, fault, exhausted, ◌>>=◌}
use kernel_sim.Heap.{parent, sift_down}

-- `struct process`
pub record Process : Type 0 where
  pub id : ℤ
  pub arrival_time : ℤ
  pub execution_time : ℤ
  pub priority : ℤ
  pub memory_size : ℤ
  pub os_pid : ℤ
  pub remaining_time : ℤ
  pub started : ℤ
  pub start_time : ℤ

pub data SortMode : Type 0 where
  by_arrival_time by_arrival_then_priority : SortMode

-- `elements` is the source's `data`.
pub record PriorityQueue : Type 0 where
  pub elements : List Process
  pub size : ℕ
  pub capacity : ℕ
  pub sort_mode : SortMode

-- The processes in the queue, in array order.
abbrev pub contents : PriorityQueue → List Process
contents pq = take pq.size pq.elements

unfoldable pub compare_processes : SortMode → Process → Process → ℤ
compare_processes by_arrival_time a b = a.arrival_time -ℤ b.arrival_time
compare_processes by_arrival_then_priority a b =
    if a.arrival_time ==ℤ b.arrival_time
    then a.priority -ℤ b.priority
    else a.arrival_time -ℤ b.arrival_time

unfoldable pub pq_init : (ℕ → List Process) → ℕ → SortMode → PriorityQueue
pq_init malloc capacity mode = record {
  elements = malloc capacity;
  size = 0;
  capacity = capacity;
  sort_mode = mode;
}

unfoldable pub pq_free : PriorityQueue → PriorityQueue
pq_free pq = record pq { elements = []; size = 0; capacity = 0 }

unfoldable pub pq_empty : PriorityQueue → Bool
pq_empty pq = pq.size == 0

-- `memcpy(to, from, n * sizeof(Process))`
memcpy : List Process → List Process → ℕ → Outcome (List Process)
memcpy to from n =
    if leb n (length to) && leb n (length from) then done (take n from ++ drop n to) else fault

unfoldable pub pq_resize : (ℕ → List Process) → PriorityQueue → ℕ → Outcome PriorityQueue
unfolding memcpy
pq_resize malloc pq new_capacity = do
  new_data ← memcpy (malloc new_capacity) pq.elements pq.size
  done (record pq { elements = new_data; capacity = new_capacity })

-- The loop of `pq_push`: entries that follow `value` move down into the hole at `i`, and `value` is
-- written into the hole where it stops. The index at least halves in each round.
unfoldable pub hole_up :
    (Process → Process → ℤ) → ℕ → List Process → ℕ → Process → Outcome (List Process)
hole_up cmp zero a i value = exhausted
hole_up cmp (suc fuel) a i value =
    let rise =
      load a (parent i) >>= λ p. store a i p >>= λ b. hole_up cmp fuel b (parent i) value in
    let stop = store a i value in
    let step = load a (parent i) >>= λ p. if leb_ℤ (cmp p value) (pos 0) then stop else rise in
    if ltb 0 i then step else stop

unfoldable pub pq_push : (ℕ → List Process) → PriorityQueue → Process → Outcome PriorityQueue
unfolding hole_up pq_resize
pq_push malloc pq value = do
  grown ←
      if leb pq.capacity pq.size then pq_resize malloc pq (pq.capacity * 2 % 2 ^ 64) else done pq
  b ← hole_up (compare_processes grown.sort_mode) (grown.size + 1) grown.elements grown.size value
  done (record grown { elements = b; size = (grown.size + 1) % 2 ^ 64 })

-- The code does not test for an empty queue.
unfoldable pub pq_top : PriorityQueue → Outcome Process
pq_top pq = load pq.elements 0

unfoldable pub pq_pop : PriorityQueue → Outcome PriorityQueue
pq_pop pq = do
  let size = (pq.size + 2 ^ 64 - 1) % 2 ^ 64
  last ← load pq.elements size
  b ← store pq.elements 0 last
  c ← sift_down (compare_processes pq.sort_mode) (size + 1) b size 0
  done (record pq { elements = c; size = size })
