-- ===== src/Queue.antt =====
-- src/DS/Queue.h and src/DS/Queue.c: the ring of control blocks that serves as round robin's ready
-- queue and as the generator's waiting queue. `size_t` sums wrap at 2 ^ 64. `malloc n` is the array
-- that a call for `n` control blocks returns; the code does not test for a failed allocation.
-- The warnings about semaphore ids are printed only.
pub mod Inv
pub mod Window
pub mod Enqueue
pub mod Refine
pub mod Small
mod Tests
use kernel_sim.Base.{
  ℕ, zero, suc, ◌+◌, ◌-◌, ◌*◌, ◌%◌, ◌^◌, Bool, List, [], ◌∷◌, ltb, ◌==◌, if◌then◌else◌,
}
use kernel_sim.Base.Array.{load, store}
use kernel_sim.Base.Int.{minus_one}
use kernel_sim.Base.Outcome.{Outcome, done, ◌>>=◌}
use kernel_sim.Pcb.{Pcb, zero_pcb}

-- `elements` is the source's `data`.
pub record PcbQueue : Type 0 where
  pub elements : List Pcb
  pub front : ℕ
  pub rear : ℕ
  pub size : ℕ
  pub capacity : ℕ

abbrev pub add_size : ℕ → ℕ → ℕ
add_size a b = (a + b) % 2 ^ 64

unfoldable pub queue_init : (ℕ → List Pcb) → ℕ → PcbQueue
queue_init malloc capacity = record {
  elements = malloc capacity;
  front = 0;
  rear = 0;
  size = 0;
  capacity = capacity;
}

unfoldable pub queue_free : PcbQueue → PcbQueue
queue_free q = record { elements = []; front = 0; rear = 0; size = 0; capacity = 0 }

unfoldable pub queue_empty : PcbQueue → Bool
queue_empty q = q.size == 0

unfoldable pub queue_full : PcbQueue → Bool
queue_full q = q.size == q.capacity

-- `for (i = ...; i < size; i++) new_data[i] = data[(front + i) % capacity]`, with `left` rounds left.
copy_from : PcbQueue → List Pcb → ℕ → ℕ → Outcome (List Pcb)
copy_from q new_data zero i = done new_data
copy_from q new_data (suc left) i = do
  p ← load q.elements (add_size q.front i % q.capacity)
  b ← store new_data i p
  copy_from q b left (i + 1)

unfoldable pub queue_resize : (ℕ → List Pcb) → PcbQueue → ℕ → Outcome PcbQueue
unfolding copy_from
queue_resize malloc q new_capacity = do
  new_data ← copy_from q (malloc new_capacity) q.size 0
  done (record q { elements = new_data; front = 0; rear = q.size; capacity = new_capacity })

unfoldable pub queue_enqueue : (ℕ → List Pcb) → PcbQueue → Pcb → Outcome PcbQueue
unfolding queue_resize queue_full
queue_enqueue malloc q value = do
  r ← if queue_full q then queue_resize malloc q (q.capacity * 2 % 2 ^ 64) else done q
  b ← store r.elements r.rear value
  done (record r { elements = b; rear = add_size r.rear 1 % r.capacity; size = add_size r.size 1 })

-- The front of an empty queue is a zeroed control block with pid -1.
unfoldable pub queue_front : PcbQueue → Outcome Pcb
unfolding queue_empty
queue_front q =
    if queue_empty q then done (record zero_pcb { pid = minus_one }) else load q.elements q.front

unfoldable pub queue_dequeue : PcbQueue → PcbQueue
unfolding queue_empty
queue_dequeue q =
    if queue_empty q
    then q
    else record q { front = add_size q.front 1 % q.capacity; size = q.size - 1 }
