-- ===== src/Queue/Window.antt =====
-- Windows of the ring of src/DS/Queue.c: the entries from an index on, and writes behind them.
use native.Mathlib.Nat.{mod-eq_of_lt, mod-eq-sub-mod, add-zero, mod-add-mod, zero-add}
use mathlib.Core.Path.{ap₂}
use native.Mathlib.Decide.{dec_lt}
use kernel_sim.Base.{
  ℕ, zero, suc, ◌+◌, ◌-◌, ◌%◌, ◌≤◌, ◌<◌, ◌≡◌, ◌≢◌, refl, sym, ap, ◌∙◌, List, [], ◌∷◌, ◌++◌, arith,
  ==_self,
}
use kernel_sim.Base.Array
use kernel_sim.Base.Array.{length, get_or}
use kernel_sim.Pcb.{Pcb, zero_pcb}
use kernel_sim.Queue.Inv.{ring}

-- Fewer than `capacity` steps round the ring do not come back to the start.
mod-ne : (capacity i k : ℕ) → 0 < k → k < capacity → (i + k) % capacity ≢ i % capacity
mod-ne capacity i k pos small e = elim (dec_lt (i % capacity + k) capacity) [
  | yes p ↦ omega (arith, e, mod-add-mod i capacity k, mod-eq_of_lt p)
  | no p ↦ omega (
    arith,
    e,
    mod-add-mod i capacity k,
    mod-eq-sub-mod {n = i % capacity + k} {m = capacity} (omega arith),
    mod-eq_of_lt {n = i % capacity + k - capacity} {m = capacity} (omega arith),
  )
]

-- A write at an index that the window does not reach leaves the window alone.
ring-set :
    (a : List Pcb) (capacity i n j : ℕ) (v : Pcb)
    → j < length a
    → ((k : ℕ) → k < n → (i + k) % capacity ≢ j)
    → ring (Array.set a j v) capacity i n ≡ ring a capacity i n
ring-set a capacity i zero j v inside apart = refl
ring-set a capacity i (suc n) j v inside apart = ap₂ ◌∷◌ kept (
    ring-set a capacity (i + 1) n j v inside
      (λ k p e. apart (suc k) (omega arith) (ap (λ t. t % capacity) (omega arith) ∙ e)))
  where
    kept : get_or (Array.set a j v) (i % capacity) zero_pcb ≡ get_or a (i % capacity) zero_pcb
    kept = ground (
      arith,
      Array.get_or-set a j (i % capacity) v zero_pcb inside,
      apart 0,
      ap (λ t. t % capacity) (add-zero i),
    )

-- The last entry of a window.
pub ring-snoc :
    (a : List Pcb) (capacity i n : ℕ)
    → ring a capacity i (suc n) ≡ ring a capacity i n ++ get_or a ((i + n) % capacity) zero_pcb ∷ []
ring-snoc a capacity i zero = ap (λ t. get_or a (t % capacity) zero_pcb ∷ []) (sym (add-zero i))
ring-snoc a capacity i (suc n) = ap (◌∷◌ (get_or a (i % capacity) zero_pcb)) (
    ring-snoc a capacity (i + 1) n
    ∙ ap (λ t. ring a capacity (i + 1) n ++ get_or a (t % capacity) zero_pcb ∷ []) (omega arith))

-- A window depends on its start only up to the capacity.
pub ring_mod :
    (a : List Pcb) (capacity i j n : ℕ)
    → i % capacity ≡ j % capacity
    → ring a capacity i n ≡ ring a capacity j n
ring_mod a capacity i j zero e = refl
ring_mod a capacity i j (suc n) e =
    ap₂ ◌∷◌ (ap (λ t. get_or a t zero_pcb) e) (ring_mod a capacity (i + 1) (j + 1) n next)
  where
    next : (i + 1) % capacity ≡ (j + 1) % capacity
    next =
        sym (mod-add-mod i capacity 1) ∙ ap (λ t. (t + 1) % capacity) e ∙ mod-add-mod j capacity 1

-- From index 0 the window is a prefix of the array.
pub ring-take :
    (a : List Pcb) (capacity n : ℕ)
    → n ≤ capacity
    → n ≤ length a
    → ring a capacity 0 n ≡ Array.take n a
ring-take a capacity zero h k = refl
ring-take a capacity (suc n) h k =
    ring-snoc a capacity 0 n
    ∙ rw (
      ring-take a capacity n (omega arith) (omega arith),
      Array.take-suc n a zero_pcb k,
      zero-add n,
      mod-eq_of_lt {n = n} {m = capacity} h,
    )

-- Writing just behind a window extends it by that entry.
pub ring-extended :
    (a : List Pcb) (capacity i n j : ℕ) (v : Pcb)
    → n < capacity
    → capacity ≤ length a
    → j ≡ (i + n) % capacity
    → ring (Array.set a j v) capacity i (suc n) ≡ ring a capacity i n ++ v ∷ []
ring-extended a capacity i n j v room fits e =
    let inside : j < length a = omega arith in
    ring-snoc (Array.set a j v) capacity i n
    ∙ rw (
      ring-set a capacity i n j v inside (λ k p same. apart k p (same ∙ e)),
      ← e,
      Array.get_or-set a j j v zero_pcb inside,
      ==_self j,
    )
  where
    apart : (k : ℕ) → k < n → (i + k) % capacity ≢ (i + n) % capacity
    apart k p e =
        mod-ne capacity (i + k) (n - k) (omega arith) (omega arith)
          (ap (λ t. t % capacity) (omega arith) ∙ sym e)
