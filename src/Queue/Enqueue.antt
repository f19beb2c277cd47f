-- ===== src/Queue/Enqueue.antt =====
-- `queue_enqueue` and the copy that `queue_resize` makes.
use native.Mathlib.Nat.{mod-eq_of_lt, mod-add-mod, zero-add, le_refl}
use native.Mathlib.Numerals.{add-one}
use kernel_sim.Base.{
  ℕ, zero, suc, ◌+◌, ◌*◌, ◌%◌, ◌^◌, ◌≤◌, ◌<◌, ◌≡◌, refl, sym, ap, ◌∙◌, List, [], ◌∷◌, ◌++◌, arith,
  ==_self, if◌then◌else◌,
}
use kernel_sim.Base.Array
use kernel_sim.Base.Array.{length, get_or}
use kernel_sim.Base.Outcome.{done, Ends, ends, Ends-then, Ends-weaken, Ends-branch}
use kernel_sim.Pcb.{Pcb, zero_pcb}
use kernel_sim.Queue.{PcbQueue, add_size, copy_from, queue_resize, queue_enqueue, queue_full}
use kernel_sim.Queue.Inv.{IsValid, ring, contents, Allocates}
use kernel_sim.Queue.Window.{ring-snoc, ring-take, ring-extended}
use kernel_sim.Base.{◌⊎◌, inl, inr}

-- The loop of `queue_resize`: after `i` rounds the new array starts with the first `i` entries.
copy_from-ring :
    (q : PcbQueue) (new_data : List Pcb) (left i : ℕ)
    → IsValid q
    → i + left ≡ q.size
    → q.size ≤ length new_data
    → Array.take i new_data ≡ ring q.elements q.capacity q.front i
    → Ends
        (λ b. (length b ≡ length new_data) × (Array.take q.size b ≡ contents q))
        (copy_from q new_data left i)
unfolding copy_from
copy_from-ring q new_data zero i v e fits done_so_far =
    let e' : i ≡ q.size = omega arith in ends (refl, rw (← e') done_so_far)
copy_from-ring q new_data (suc left) i v e fits done_so_far =
    let at = (q.front + i) % q.capacity in
    let wrap : add_size q.front i ≡ q.front + i = omega (arith, v.small, v.front_in, v.fits) in
    let inside : at < length q.elements = omega (arith, v.storage, v.has_room) in
    let size = Array.length-set new_data i value in
    rw
      (
        wrap,
        Array.load-get_or q.elements at zero_pcb inside,
        Array.store-set new_data i value (omega arith),
      )
      (Ends-weaken
        (copy_from-ring q (Array.set new_data i value) left (i + 1) v (omega arith)
          (omega (arith, size)) next)
        λ b (l, s). (l ∙ size, s))
  where
    value : Pcb
    value = get_or q.elements ((q.front + i) % q.capacity) zero_pcb

    next :
        Array.take (i + 1) (Array.set new_data i value) ≡ ring q.elements q.capacity q.front (i + 1)
    next =
        let inside : i < length new_data = omega arith in
        rw
          (
            add-one,
            Array.take-suc i (Array.set new_data i value) zero_pcb
                (omega (arith, Array.length-set new_data i value)),
            Array.take-set_above i i new_data value (le_refl i),
            Array.get_or-set new_data i i value zero_pcb inside,
            ==_self i,
            done_so_far,
          )
          (sym (ring-snoc q.elements q.capacity q.front i))

-- Resizing a valid ring to a capacity above its size, with an allocator that returns what is
-- asked for, keeps the list that it holds.
pub queue_resize-Holds :
    (malloc : ℕ → List Pcb) (q : PcbQueue) (new_capacity : ℕ)
    → Allocates malloc
    → IsValid q
    → q.size < new_capacity
    → 2 * new_capacity < 2 ^ 64
    → Ends
        (λ r.
          IsValid r × (contents r ≡ contents q) × (r.size ≡ q.size) × (r.capacity ≡ new_capacity))
        (queue_resize malloc q new_capacity)
unfolding queue_resize
queue_resize-Holds malloc q n alloc v larger small =
    Ends-then (copy_from-ring q (malloc n) q.size 0 v (omega arith) (omega (arith, alloc n)) refl)
      λ b (size, copied). ends (
        record {
          storage = size ∙ alloc n;
          has_room = omega arith;
          small = small;
          front_in = omega arith;
          fits = omega arith;
          rear_at = sym (ap (λ t. t % n) (zero-add q.size) ∙ mod-eq_of_lt larger);
        },
        ring-take b n q.size (omega arith) (omega (arith, size, alloc n)) ∙ copied,
        refl,
        refl,
      )

-- The capacity is that of `q`, or it has been doubled when `q` was full.
abbrev pub GrownFrom : PcbQueue → PcbQueue → Type 0
GrownFrom q r = (r.capacity ≡ q.capacity) ⊎ (r.capacity ≡ 2 * q.size)

-- Before the write: the ring is not full.
Roomy : PcbQueue → PcbQueue → Type 0
Roomy q r = IsValid r × (contents r ≡ contents q) × (r.size < r.capacity) × GrownFrom q r

grown-Roomy :
    (malloc : ℕ → List Pcb) (q : PcbQueue)
    → Allocates malloc
    → IsValid q
    → 4 * q.capacity < 2 ^ 64
    → Ends
        (Roomy q)
        (if queue_full q then queue_resize malloc q (q.capacity * 2 % 2 ^ 64) else done q)
unfolding Roomy queue_full
grown-Roomy malloc q alloc v small =
    Ends-branch (queue_full q)
      (λ full.
        Ends-weaken
          (queue_resize-Holds malloc q (q.capacity * 2 % 2 ^ 64) alloc v
            (omega (arith, v.has_room, v.fits)) (omega arith))
          λ r (valid, same, s, c). (
            valid,
            same,
            omega (arith, s, c, v.has_room, v.fits),
            inr (ground (arith, c, full, v.small)),
          ))
      (λ room. ends (v, refl, ground (arith, v.fits), inl refl))

pub queue_enqueue-GrownFrom :
    (malloc : ℕ → List Pcb) (q : PcbQueue) (value : Pcb)
    → Allocates malloc
    → IsValid q
    → 4 * q.capacity < 2 ^ 64
    → Ends
        (λ r. IsValid r × (contents r ≡ contents q ++ value ∷ []) × GrownFrom q r)
        (queue_enqueue malloc q value)
unfolding queue_enqueue Roomy
queue_enqueue-GrownFrom malloc q value alloc v small =
    Ends-then (grown-Roomy malloc q alloc v small) λ r (w, same, room, grown).
      let inside : r.rear < length r.elements = omega (arith, w.rear_at, w.storage, w.has_room) in
      let wrap_size : add_size r.size 1 ≡ suc r.size = omega (arith, w.small) in
      let wrap_rear : add_size r.rear 1 ≡ r.rear + 1 = omega (arith, inside, w.storage, w.small) in
      rw (Array.store-set r.elements r.rear value inside, wrap_size, wrap_rear)
        (ends (
          record {
            storage = Array.length-set r.elements r.rear value ∙ w.storage;
            has_room = w.has_room;
            small = w.small;
            front_in = w.front_in;
            fits = room;
            rear_at =
                ap (λ t. (t + 1) % r.capacity) w.rear_at
                ∙ mod-add-mod (r.front + r.size) r.capacity 1
                ∙ ap (λ t. t % r.capacity) (omega arith);
          },
          ring-extended r.elements r.capacity r.front r.size r.rear value room
                (omega (arith, w.storage)) w.rear_at
              ∙ ap (λ l. l ++ value ∷ []) same,
          grown,
        ))

-- On a valid ring whose capacity a size_t can hold four times, with an allocator that returns
-- what is asked for, enqueueing ends with a valid ring whose list is the old one with the control
-- block at its end, the ring growing if it was full.
pub queue_enqueue-contents :
    (malloc : ℕ → List Pcb) (q : PcbQueue) (value : Pcb)
    → Allocates malloc
    → IsValid q
    → 4 * q.capacity < 2 ^ 64
    → Ends (λ r. IsValid r × (contents r ≡ contents q ++ value ∷ [])) (queue_enqueue malloc q value)
queue_enqueue-contents malloc q value alloc v small =
    Ends-weaken (queue_enqueue-GrownFrom malloc q value alloc v small) λ r (w, same, _). (w, same)
