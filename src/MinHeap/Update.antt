-- ===== src/MinHeap/Update.antt =====
-- Search in the ready heap, and repair after a process in it has changed.
use mathlib.Core.List.Perm
use native.Mathlib.Numerals.{add-one}
use native.Mathlib.Decide.{ℕ_discrete, dec_lt}
use mathlib.Core.List.{append-nil, append_assoc}
use mathlib.Core.HLevel.{¬_prop}
use kernel_sim.Base.{
  ℕ, zero, suc, ◌+◌, ◌≤◌, ◌<◌, ◌≡◌, ◌≢◌, refl, ◌∙◌, ap, sym, ◌++◌, List, arith, Mem, false, none,
  some, Option, [], ◌∷◌,
}
use kernel_sim.Base.Int.{ℤ, ◌==ℤ◌, ==ℤ_sound, ==ℤ_self}
use kernel_sim.Base.Array
use kernel_sim.Base.Array.{length, get_or}
use kernel_sim.Base.Outcome.{
  Ends, ends, Ends-then, Ends-weaken, Ends-branch, Ends-value, ◌>>=◌, done,
}
use kernel_sim.Pcb.{Pcb, zero_pcb}
use kernel_sim.Heap.{parent}
use kernel_sim.Heap.Update.{UpdateInv, HalfSifted, sift_up-HalfSifted}
use kernel_sim.Heap.Order.{IsOrder}
use kernel_sim.MinHeap.{
  MinHeap, contents, heapify_up, heapify_down, index_from, update_process_in_heap,
  find_process_in_heap, free_from, destroy_min_heap,
}
use kernel_sim.MinHeap.Inv.{IsValid, Holds, Resifted, Resifted-Holds, heapify_down-Resifted}

-- What the search for a pid returns: the first index that has it, or nothing if none has.
abbrev FirstAt : MinHeap → ℤ → ℕ → Option ℕ → Type 0
FirstAt h pid i none = (j : ℕ) → i ≤ j → j < h.size → (get_or h.processes j zero_pcb).pid ≢ pid
FirstAt h pid i (some k) =
    (k < h.size)
    × ((get_or h.processes k zero_pcb).pid ≡ pid)
    × ((j : ℕ) → i ≤ j → j < k → (get_or h.processes j zero_pcb).pid ≢ pid)

-- A fact at `i` and at the indices after it up to `n` holds at all from `i` on.
from_next {ℓ} :
    (P : ℕ → Type ℓ) (i n : ℕ)
    → P i
    → ((j : ℕ) → i + 1 ≤ j → j < n → P j)
    → (j : ℕ) → i ≤ j
    → j < n
    → P j
from_next P i n here later j p q = elim (ℕ_discrete i j) [
  | yes e ↦ rw (← e) here
  | no ne ↦ later j (omega arith) q
]

index_from-FirstAt :
    (h : MinHeap) (pid : ℤ) (left i : ℕ)
    → h.size ≤ length h.processes
    → i + left ≡ h.size
    → Ends (FirstAt h pid i) (index_from h pid left i)
unfolding index_from
index_from-FirstAt h pid zero i fits e = ends (λ j p q. absurd (omega arith))
index_from-FirstAt h pid (suc left) i fits e =
    let here = get_or h.processes i zero_pcb in
    rw (Array.load-get_or h.processes i zero_pcb (omega arith)) (
      Ends-branch (here.pid ==ℤ pid)
        (λ hit. ends (omega arith, ==ℤ_sound _ _ hit, λ j p q. absurd (omega arith)))
        (λ miss.
          Ends-weaken (index_from-FirstAt h pid left (i + 1) fits (omega arith))
            (later pid i (ne_of_test here.pid pid miss))))
  where
    ne_of_test : (a b : ℤ) → (a ==ℤ b) ≡ false → a ≢ b
    ne_of_test a b t e = ground (arith, ==ℤ_self b)

    later :
        (pid : ℤ) (i : ℕ)
        → (get_or h.processes i zero_pcb).pid ≢ pid
        → (r : Option ℕ) → FirstAt h pid (i + 1) r
        → FirstAt h pid i r
    later pid i here none f = from_next _ i h.size here f
    later pid i here (some k) (a, b, c) = (a, b, from_next _ i k here c)

-- The search returns the first process with the pid, and NULL only if the heap holds none.
abbrev pub FoundBy : MinHeap → ℤ → Option Pcb → Type 0
FoundBy h pid none = (q : Pcb) → Mem q (contents h) → q.pid ≢ pid
FoundBy h pid (some p) = (p.pid ≡ pid) × Mem p (contents h)

-- In a valid heap the search by pid ends, with a process of the heap that has the pid, or with
-- NULL if none has it.
pub find_process_in_heap-FoundBy :
    (h : MinHeap) (pid : ℤ) → IsValid h → Ends (FoundBy h pid) (find_process_in_heap h pid)
unfolding find_process_in_heap
find_process_in_heap-FoundBy h pid v =
    let fits : h.size ≤ length h.processes = omega (arith, v.storage, v.fits) in
    Ends-then (index_from-FirstAt h pid h.size 0 fits (omega arith)) (elim [
      | none ↦ λ f. ends (
          Array.take-all (λ q. q.pid ≢ pid) (λ q. ¬_prop) h.size h.processes zero_pcb fits
            (λ i p. f i (omega arith) p))
      | some k ↦ λ (inside, hit, first).
          rw (Array.load-get_or h.processes k zero_pcb (omega (arith, fits, inside)))
            (ends (hit, Array.mem-take h.size h.processes k zero_pcb inside fits))
    ])

-- The heap after the process at `i` has been changed into `p`, before the repair.
abbrev pub changed : MinHeap → ℕ → Pcb → MinHeap
changed h i p = record h { processes = Array.set h.processes i p }

changed-UpdateInv :
    (h : MinHeap) (i : ℕ) (p : Pcb)
    → IsValid h
    → i < h.size
    → UpdateInv h.cmp zero_pcb (changed h i p).processes h.size i
changed-UpdateInv h i p v inside =
    let at =
      λ (k : ℕ). Array.get_or-set h.processes i k p zero_pcb (omega (arith, v.storage, v.fits)) in
    record {
      inside = inside;
      fits = omega (arith, Array.length-set h.processes i p, v.storage, v.fits);
      edges = λ c q r e f. ground (arith, at c, at (parent c), v.heap c);
      bridged = λ c q r e f. ground (
        arith,
        at c,
        at (parent i),
        v.heap c,
        v.heap i,
        v.order.trans (get_or h.processes (parent i) zero_pcb) (get_or h.processes i zero_pcb)
            (get_or h.processes c zero_pcb),
      );
    }

heapify_up-half :
    (h : MinHeap) (i : ℕ)
    → IsOrder h.cmp
    → UpdateInv h.cmp zero_pcb h.processes h.size i
    → Ends
        (λ h'.
          (b : List Pcb) × (h' ≡ record h { processes = b })
          × HalfSifted h.cmp zero_pcb h.processes h.size i b)
        (heapify_up h i)
unfolding heapify_up
heapify_up-half h i o v =
    Ends-then (sift_up-HalfSifted h.cmp o zero_pcb h.processes h.size i v) λ b s. ends (b, refl, s)

heapify_both :
    (h : MinHeap) (i : ℕ)
    → IsOrder h.cmp
    → UpdateInv h.cmp zero_pcb h.processes h.size i
    → Ends (Resifted h) (heapify_up h i >>= λ h'. heapify_down h' i)
heapify_both h i o v = Ends-then (heapify_up-half h i o v) λ h' (b, e, s). rw e (
    Ends-weaken (heapify_down-Resifted (record h { processes = b }) i o s.below) λ h'' r. record {
      sifted = record {
        heap = r.sifted.heap;
        same = Perm.trans r.sifted.same s.same;
        size = r.sifted.size ∙ s.size;
      };
      kept_size = r.kept_size;
      kept_cmp = r.kept_cmp;
      kept_capacity = r.kept_capacity;
    })

-- After one process of a valid heap has been changed, the first with its pid,
-- update_process_in_heap ends with a valid heap that holds the changed process in place of the
-- old one.
pub update_process_in_heap-Holds :
    (h : MinHeap) (i : ℕ) (p : Pcb)
    → IsValid h
    → i < h.size
    → ((j : ℕ) → j < i → (get_or h.processes j zero_pcb).pid ≢ p.pid)
    → Ends (Holds h (Array.set (contents h) i p)) (update_process_in_heap (changed h i p) p.pid)
unfolding update_process_in_heap
update_process_in_heap-Holds h i p v inside first =
    let fits : h.size ≤ length (Array.set h.processes i p) =
      omega (arith, Array.length-set h.processes i p, v.storage, v.fits) in
    Ends-then (index_from-FirstAt (changed h i p) p.pid h.size 0 fits (omega arith)) (elim [
      | none ↦ λ f. absurd (f i (omega arith) inside (ap (λ (q : Pcb). q.pid) here))
      | some k ↦ λ (a, b, c).
          let same : k ≡ i = found_at k b c in
          rw same (
            Ends-weaken (heapify_both (changed h i p) i v.order (changed-UpdateInv h i p v inside))
              λ h' r.
                let held =
                  Resifted-Holds {h = changed h i p} v.order
                    (Array.length-set h.processes i p ∙ v.storage) v.fits r in
                record {
                  valid = held.valid;
                  same = rw (← Array.take-set h.size i h.processes p inside) held.same;
                  kept_cmp = held.kept_cmp;
                  kept_capacity = held.kept_capacity;
                })
    ])
  where
    here : get_or (Array.set h.processes i p) i zero_pcb ≡ p
    here =
        ground
          (arith, Array.get_or-set h.processes i i p zero_pcb (omega (arith, v.storage, v.fits)))

    other :
        (k : ℕ)
        → k < i
        → get_or (Array.set h.processes i p) k zero_pcb ≡ get_or h.processes k zero_pcb
    other k lt =
        ground
          (arith, Array.get_or-set h.processes i k p zero_pcb (omega (arith, v.storage, v.fits)))

    found_at :
        (k : ℕ)
        → (get_or (Array.set h.processes i p) k zero_pcb).pid ≡ p.pid
        → ((j : ℕ) → 0 ≤ j → j < k → (get_or (Array.set h.processes i p) j zero_pcb).pid ≢ p.pid)
        → k ≡ i
    found_at k hit before = elim (dec_lt k i) [
      | yes lt ↦ absurd (first k lt (ap (λ (q : Pcb). q.pid) (sym (other k lt)) ∙ hit))
      | no ge ↦ elim (dec_lt i k) [
        | yes gt ↦ absurd (before i (omega arith) gt (ap (λ (q : Pcb). q.pid) here))
        | no le ↦ omega arith
      ]
    ]

-- `destroy_min_heap` frees every process of the heap exactly once.
free_from-contents :
    (h : MinHeap) (left i : ℕ)
    → h.size ≤ length h.processes
    → i + left ≡ h.size
    → Ends (λ ps. Array.take i h.processes ++ ps ≡ contents h) (free_from h left i)
unfolding free_from
free_from-contents h zero i fits e = let e' : i ≡ h.size = omega arith in ends (rw (append-nil, e'))
free_from-contents h (suc left) i fits e =
    rw (Array.load-get_or h.processes i zero_pcb (omega arith)) (
      Ends-then (free_from-contents h left (i + 1) fits (omega arith)) λ ps q. ends (
        rw (← q, add-one, Array.take-suc i h.processes zero_pcb (omega arith))
          (sym (append_assoc (Array.take i h.processes) (get_or h.processes i zero_pcb ∷ []) ps))))

-- Destroying a valid heap frees each process that it holds once, in array order.
pub destroy_min_heap-contents :
    (h : MinHeap) → IsValid h → destroy_min_heap (some h) ≡ done (contents h)
unfolding destroy_min_heap
destroy_min_heap-contents h v =
    let (ps, e, p) =
      Ends-value (free_from-contents h h.size 0 (omega (arith, v.storage, v.fits)) (omega arith)) in
    e ∙ ap done p
