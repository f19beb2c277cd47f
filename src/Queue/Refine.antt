-- ===== src/Queue/Refine.antt =====
-- The ring as a first-in first-out list.
use native.Mathlib.Nat.{mod-eq_of_lt, mod-lt, mod-add-mod, mod-mod}
use kernel_sim.Base.{
  ℕ, zero, suc, ◌+◌, ◌-◌, ◌%◌, ◌<◌, ◌≡◌, sym, ap, ◌∙◌, List, [], ◌∷◌, arith, ◌==◌, false,
}
use kernel_sim.Base.Array
use kernel_sim.Base.Array.{length, get_or}
use kernel_sim.Base.Int.{minus_one}
use kernel_sim.Base.Outcome.{done}
use kernel_sim.Pcb.{Pcb, zero_pcb}
use kernel_sim.Queue.{PcbQueue, add_size, queue_front, queue_dequeue, queue_empty}
use kernel_sim.Queue.Inv.{IsValid, ring, contents, length-ring}
use kernel_sim.Queue.Window.{ring_mod}

-- The emptiness test is that of the list.
pub queue_empty-contents : (q : PcbQueue) → queue_empty q ≡ (length (contents q) == 0)
unfolding queue_empty
queue_empty-contents q = rw (length-ring q.elements q.capacity q.front q.size)

ring-uncons :
    (a : List Pcb) (capacity i n : ℕ) {p : Pcb} {rest : List Pcb}
    → ring a capacity i n ≡ p ∷ rest
    → (0 < n) × (get_or a (i % capacity) zero_pcb ≡ p) × (ring a capacity (i + 1) (n - 1) ≡ rest)
ring-uncons a capacity i zero e = absurd (cc)
ring-uncons a capacity i (suc n) {rest = rest} e = (
  omega arith,
  ground (arith, e),
  ap (ring a capacity (i + 1)) {y = n} (omega arith) ∙ ground (arith, e),
)

-- On a valid ring that is not empty, queue_front reads the head of its list and queue_dequeue
-- leaves a valid ring of the tail.
pub queue_dequeue-contents :
    (q : PcbQueue) (p : Pcb) (rest : List Pcb)
    → IsValid q
    → contents q ≡ p ∷ rest
    → (queue_front q ≡ done p) × IsValid (queue_dequeue q) × (contents (queue_dequeue q) ≡ rest)
unfolding queue_front queue_dequeue queue_empty
queue_dequeue-contents q p rest v e =
    let (some_left, head, tail) = ring-uncons q.elements q.capacity q.front q.size e in
    let not_empty : (q.size == 0) ≡ false = ground arith in
    let wrap : add_size q.front 1 ≡ q.front + 1 = omega (arith, v.small, v.front_in) in
    rw (not_empty, wrap)
      (
        Array.load-get_or q.elements q.front zero_pcb (omega (arith, v.front_in, v.storage))
            ∙ ap done
                (ap (λ t. get_or q.elements t zero_pcb) (sym (mod-eq_of_lt v.front_in)) ∙ head),
        record {
          storage = v.storage;
          has_room = v.has_room;
          small = v.small;
          front_in = mod-lt (q.front + 1) v.has_room;
          fits = omega (arith, v.fits);
          rear_at =
              v.rear_at
              ∙ ap (λ t. t % q.capacity) (omega arith)
              ∙ sym (mod-add-mod (q.front + 1) q.capacity (q.size - 1));
        },
        ring_mod q.elements q.capacity ((q.front + 1) % q.capacity) (q.front + 1) (q.size - 1)
              (mod-mod (q.front + 1) q.capacity)
            ∙ tail,
      )

-- On a ring with an empty list queue_front returns the control block with pid -1 and
-- queue_dequeue changes nothing.
pub queue_dequeue_empty :
    (q : PcbQueue)
    → contents q ≡ []
    → (queue_front q ≡ done (record zero_pcb { pid = minus_one })) × (queue_dequeue q ≡ q)
unfolding queue_front queue_dequeue queue_empty
queue_dequeue_empty q e =
    let size : q.size ≡ 0 = sym (length-ring q.elements q.capacity q.front q.size) ∙ ap length e in
    ground arith
