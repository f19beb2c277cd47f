-- ===== src/Queue/Small.antt =====
-- Rings that no enqueueing can make too large for `size_t`.
use kernel_sim.Base.{
  ℕ, ◌^◌, ◌≤◌, ◌≡◌, refl, sym, ◌∙◌, true, false, List, [], ◌∷◌, ◌++◌, inl, inr, arith,
}
use kernel_sim.Base.Array.{length}
use kernel_sim.Base.Outcome.{done, Ends, Ends-weaken}
use kernel_sim.Pcb.{Pcb}
use kernel_sim.Queue.{PcbQueue, queue_init, queue_empty, queue_front, queue_dequeue, queue_enqueue}
use kernel_sim.Queue.Inv.{IsValid, contents, Allocates, length-ring, queue_init-IsValid}
use kernel_sim.Queue.Enqueue.{GrownFrom, queue_enqueue-GrownFrom}
use kernel_sim.Queue.Refine.{queue_empty-contents, queue_dequeue-contents}

-- A queue that stays within `size_t` while it holds at most 2 ^ 60 processes.
pub record IsSmall (q : PcbQueue) : Type 0 where
  pub valid : IsValid q
  pub capacity : q.capacity ≤ 2 ^ 61

pub size-contents : (q : PcbQueue) → q.size ≡ length (contents q)
size-contents q = sym (length-ring q.elements q.capacity q.front q.size)

pub queue_enqueue-IsSmall :
    (malloc : ℕ → List Pcb) (q : PcbQueue) (p : Pcb)
    → Allocates malloc
    → IsSmall q
    → length (contents q) ≤ 2 ^ 60
    → Ends (λ r. IsSmall r × (contents r ≡ contents q ++ p ∷ [])) (queue_enqueue malloc q p)
queue_enqueue-IsSmall malloc q p alloc s few =
    Ends-weaken (queue_enqueue-GrownFrom malloc q p alloc s.valid (omega (arith, s.capacity)))
      λ r (valid, more, grown). (record { valid = valid; capacity = grows r grown }, more)
  where
    grows : (r : PcbQueue) → GrownFrom q r → r.capacity ≤ 2 ^ 61
    grows r (inl same) = omega (arith, s.capacity)
    grows r (inr doubled) = omega (arith, size-contents q)

dequeue-capacity : (q : PcbQueue) → (queue_dequeue q).capacity ≡ q.capacity
unfolding queue_dequeue
dequeue-capacity q = ground arith

pub queue_empty-IsSmall : (q : PcbQueue) → contents q ≡ [] → queue_empty q ≡ true
queue_empty-IsSmall q e = queue_empty-contents q ∙ rw e refl

pub queue_init-IsSmall :
    (malloc : ℕ → List Pcb)
    → Allocates malloc
    → IsSmall (queue_init malloc 100) × (contents (queue_init malloc 100) ≡ [])
unfolding queue_init
queue_init-IsSmall malloc alloc =
    let (valid, none_in) = queue_init-IsValid malloc 100 alloc (omega arith) (omega arith) in
    (record { valid = valid; capacity = omega arith }, none_in)

pub queue_dequeue-IsSmall :
    (q : PcbQueue) (p : Pcb) (rest : List Pcb)
    → IsSmall q
    → contents q ≡ p ∷ rest
    → (queue_empty q ≡ false)
      × (queue_front q ≡ done p)
      × IsSmall (queue_dequeue q)
      × (contents (queue_dequeue q) ≡ rest)
queue_dequeue-IsSmall q p rest s e =
    let (front, valid, tail) = queue_dequeue-contents q p rest s.valid e in
    (
      queue_empty-contents q ∙ rw e (ground arith),
      front,
      record { valid = valid; capacity = omega (arith, dequeue-capacity q, s.capacity) },
      tail,
    )
