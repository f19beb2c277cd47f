-- ===== src/Queue/Inv.antt =====
-- The invariant of the ring and the list that it holds.
use kernel_sim.Base.{
  ℕ, zero, suc, ◌+◌, ◌*◌, ◌%◌, ◌^◌, ◌≤◌, ◌<◌, ◌≡◌, refl, ap, List, [], ◌∷◌, arith,
}
use kernel_sim.Base.Array.{length, get_or}
use kernel_sim.Pcb.{Pcb, zero_pcb}
use kernel_sim.Queue.{PcbQueue, queue_init}

-- A `size_t` can hold twice the capacity, so no sum of the code wraps.
pub record IsValid (q : PcbQueue) : Type 0 where
  pub storage : length q.elements ≡ q.capacity
  pub has_room : 0 < q.capacity
  pub small : 2 * q.capacity < 2 ^ 64
  pub front_in : q.front < q.capacity
  pub fits : q.size ≤ q.capacity
  pub rear_at : q.rear ≡ (q.front + q.size) % q.capacity

-- The `n` control blocks from index `i` on, going round at `cap`.
abbrev pub ring : List Pcb → ℕ → ℕ → ℕ → List Pcb
ring a cap i zero = []
ring a cap i (suc n) = get_or a (i % cap) zero_pcb ∷ ring a cap (i + 1) n

-- The control blocks in the queue, oldest first.
abbrev pub contents : PcbQueue → List Pcb
contents q = ring q.elements q.capacity q.front q.size

pub length-ring : (a : List Pcb) (cap i n : ℕ) → length (ring a cap i n) ≡ n
length-ring a cap i zero = refl
length-ring a cap i (suc n) = ap suc (length-ring a cap (i + 1) n)

-- What is assumed of `malloc`: the array has as many entries as were asked for.
abbrev pub Allocates : (ℕ → List Pcb) → Type 0
Allocates malloc = (n : ℕ) → length (malloc n) ≡ n

-- With an allocator that returns what is asked for and a positive capacity that a size_t can hold
-- twice, a new ring is valid and empty.
pub queue_init-IsValid :
    (malloc : ℕ → List Pcb) (capacity : ℕ)
    → Allocates malloc
    → 0 < capacity
    → 2 * capacity < 2 ^ 64
    → IsValid (queue_init malloc capacity) × (contents (queue_init malloc capacity) ≡ [])
unfolding queue_init
queue_init-IsValid malloc capacity alloc room small = (
  record {
    storage = alloc capacity;
    has_room = room;
    small = small;
    front_in = room;
    fits = omega arith;
    rear_at = grind arith;
  },
  refl,
)
