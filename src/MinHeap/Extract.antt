-- ===== src/MinHeap/Extract.antt =====
-- Extraction from the ready heap.
use mathlib.Core.List.Perm
use kernel_sim.Base.{
  ℕ, suc, ◌-◌, ◌<◌, ◌≡◌, refl, List, ◌∷◌, Perm, Mem, Option, none, some, arith, ltb, if◌then◌else◌,
  ◌==◌, ◌∙◌,
}
use kernel_sim.Base.Array
use kernel_sim.Base.Array.{length, get_or, take}
use kernel_sim.Base.Outcome.{done, Ends, ends, Ends-then, Ends-branch}
use kernel_sim.Pcb.{Pcb, zero_pcb}
use kernel_sim.Heap.Order.{Precedes, root_least}
use kernel_sim.Heap.Down.{DownInv, moved-DownInv, moved_perm}
use kernel_sim.MinHeap.{MinHeap, contents, heapify_down, extract_min}
use kernel_sim.MinHeap.Inv.{IsValid, Resifted, Resifted-Holds, heapify_down-Resifted}

-- What a successful extraction returns: a process that no other precedes, and a valid heap of the
-- other processes.
pub record Extracted (h : MinHeap) (r : Option Pcb × MinHeap) : Type 0 where
  pub min : Pcb
  pub result : r.0 ≡ some min
  pub valid : IsValid r.1
  pub same : Perm (min ∷ contents r.1) (contents h)
  pub least : (q : Pcb) → Mem q (contents h) → Precedes h.cmp min q
  pub kept_cmp : r.1.cmp ≡ h.cmp
  pub kept_capacity : r.1.capacity ≡ h.capacity

-- An empty heap yields NULL and does not change.
pub extract_min_empty : (h : MinHeap) → h.size ≡ 0 → extract_min h ≡ done (none, h)
unfolding extract_min
extract_min_empty h e = ground arith

-- From a valid heap that is not empty extract_min ends, returns a process that no other precedes,
-- and leaves a valid heap of exactly the other processes.
pub extract_min-Extracted :
    (h : MinHeap) → IsValid h → 0 < h.size → Ends (Extracted h) (extract_min h)
unfolding extract_min
extract_min-Extracted h v some_left =
    let n = h.size - 1 in
    let size : h.size ≡ suc n = omega arith in
    let inside : n < length h.processes = omega (arith, v.storage, v.fits) in
    let a = Array.set h.processes 0 (get_or h.processes n zero_pcb) in
    let heap = rw size at v.heap in
    let least =
      root_least h.cmp v.order zero_pcb h.processes h.size v.heap
        (omega (arith, v.storage, v.fits)) in
    let whole = rw (← size) at (moved_perm h.cmp zero_pcb h.processes n inside) in
    let length_a = Array.length-set h.processes 0 (get_or h.processes n zero_pcb) in
    Ends-branch (h.size == 0) (λ none_left. absurd (ground arith))
      λ _.
        rw
          (
            Array.load-get_or h.processes 0 zero_pcb (omega (arith, v.storage, v.fits)),
            Array.load-get_or h.processes n zero_pcb inside,
            Array.store-set h.processes 0 (get_or h.processes n zero_pcb)
                (omega (arith, v.storage, v.fits)),
          )
          (Ends-then
            (sunk n a (λ more. moved-DownInv h.cmp zero_pcb h.processes n inside heap more))
            λ h' r.
              let held = Resifted-Holds v.order (length_a ∙ v.storage) (omega (arith, v.fits)) r in
              ends (record {
                min = get_or h.processes 0 zero_pcb;
                result = refl;
                valid = held.valid;
                same = Perm.trans (Perm.cons _ held.same) whole;
                least = least;
                kept_cmp = held.kept_cmp;
                kept_capacity = held.kept_capacity;
              }))
  where
    sunk :
        (n : ℕ) (a : List Pcb)
        → (0 < n → DownInv h.cmp zero_pcb a n 0)
        → let h' = record h { processes = a; size = n } in
          Ends (Resifted h') (if ltb 0 n then heapify_down h' 0 else done h')
    sunk n a inv =
        let h' = record h { processes = a; size = n } in
        Ends-branch (ltb 0 n) (λ more. heapify_down-Resifted h' 0 v.order (inv (ground arith)))
          (λ gone. ends (record {
            sifted = record { heap = λ c p q. absurd (ground arith); same = Perm.rfl; size = refl };
            kept_size = refl;
            kept_cmp = refl;
            kept_capacity = refl;
          }))
