-- ===== src/MinHeap/Inv.antt =====
-- The invariant of the ready heap.
use kernel_sim.Base.{ℕ, ◌≤◌, ◌≡◌, refl, ◌∙◌, sym, true, List, [], Perm, some, arith}
use kernel_sim.Base.Int.{ℤ}
use kernel_sim.Base.Array
use kernel_sim.Base.Array.{length, get_or, take}
use kernel_sim.Base.Outcome.{Ends, ends, Ends-then}
use kernel_sim.Pcb.{Pcb, zero_pcb}
use kernel_sim.Heap.Order.{IsOrder, IsHeap, IsSifted}
use kernel_sim.Heap.Down.{DownInv, sift_down-IsSifted}
use kernel_sim.Heap.Up.{UpInv, sift_up-IsSifted}
use kernel_sim.MinHeap.{MinHeap, contents, create_min_heap, heapify_up, heapify_down, max_processes}

pub record IsValid (h : MinHeap) : Type 0 where
  pub order : IsOrder h.cmp
  pub storage : length h.processes ≡ h.capacity
  pub fits : h.size ≤ h.capacity
  pub heap : IsHeap h.cmp zero_pcb h.processes h.size

-- The heap `h'` is valid and holds exactly `ps`, under the comparator and capacity of `h`.
pub record Holds (h : MinHeap) (ps : List Pcb) (h' : MinHeap) : Type 0 where
  pub valid : IsValid h'
  pub same : Perm (contents h') ps
  pub kept_cmp : h'.cmp ≡ h.cmp
  pub kept_capacity : h'.capacity ≡ h.capacity

pub length-contents : (h : MinHeap) → IsValid h → length (contents h) ≡ h.size
length-contents h v = omega (arith, Array.length-take h.size h.processes, v.storage, v.fits)

-- With a comparator that is an order and an array of the size asked for, a created heap is valid
-- and empty.
pub create_min_heap-IsValid :
    (fresh : List Pcb) (cmp : Pcb → Pcb → ℤ)
    → IsOrder cmp
    → length fresh ≡ max_processes
    → (h : MinHeap) × (create_min_heap true (some fresh) cmp ≡ some h)
      × IsValid h
      × (contents h ≡ [])
unfolding create_min_heap
create_min_heap-IsValid fresh cmp o size = (
  record { capacity = max_processes; size = 0; processes = fresh; cmp = cmp },
  refl,
  record { order = o; storage = size; fits = omega arith; heap = λ c p q. absurd (omega arith) },
  refl,
)

-- `h'` is `h` with the processes that it holds put in heap order.
pub record Resifted (h h' : MinHeap) : Type 0 where
  pub sifted : IsSifted h.cmp zero_pcb h.processes h.size h'.processes
  pub kept_size : h'.size ≡ h.size
  pub kept_cmp : h'.cmp ≡ h.cmp
  pub kept_capacity : h'.capacity ≡ h.capacity

pub heapify_down-Resifted :
    (h : MinHeap) (i : ℕ)
    → IsOrder h.cmp
    → DownInv h.cmp zero_pcb h.processes h.size i
    → Ends (Resifted h) (heapify_down h i)
unfolding heapify_down
heapify_down-Resifted h i o v =
    Ends-then (sift_down-IsSifted h.cmp o zero_pcb h.processes h.size i v)
      λ b s. ends (record { sifted = s; kept_size = refl; kept_cmp = refl; kept_capacity = refl })

pub heapify_up-Resifted :
    (h : MinHeap) (i : ℕ)
    → IsOrder h.cmp
    → UpInv h.cmp zero_pcb h.processes h.size i
    → Ends (Resifted h) (heapify_up h i)
unfolding heapify_up
heapify_up-Resifted h i o v =
    Ends-then (sift_up-IsSifted h.cmp o zero_pcb h.processes h.size i v)
      λ b s. ends (record { sifted = s; kept_size = refl; kept_cmp = refl; kept_capacity = refl })

-- Putting the first entries in order is all that a heap of the right shape needs.
pub Resifted-Holds :
    {h h' : MinHeap}
    → IsOrder h.cmp
    → length h.processes ≡ h.capacity
    → h.size ≤ h.capacity
    → Resifted h h'
    → Holds h (contents h) h'
Resifted-Holds {h} {h'} o storage fits r = record {
  valid = record {
    order = rw r.kept_cmp o;
    storage = r.sifted.size ∙ storage ∙ sym r.kept_capacity;
    fits = omega (arith, r.kept_size, r.kept_capacity);
    heap = rw (r.kept_size, r.kept_cmp) r.sifted.heap;
  };
  same = rw r.kept_size r.sifted.same;
  kept_cmp = r.kept_cmp;
  kept_capacity = r.kept_capacity;
}
