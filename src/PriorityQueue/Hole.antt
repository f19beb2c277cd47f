-- ===== src/PriorityQueue/Hole.antt =====
-- The loop of `pq_push` does what sifting up by exchanges does.
use kernel_sim.Base.{
  ℕ, zero, suc, ◌<◌, ◌≡◌, refl, ap, List, [], ◌∷◌, true, false, arith, ltb, if◌then◌else◌, inl, inr,
  Bool-cases,
}
use kernel_sim.Base.Int.{ℤ, pos, leb_ℤ, ltb_ℤ}
use kernel_sim.Base.Array
use kernel_sim.Base.Array.{length, get_or, exchanged}
use kernel_sim.Heap.{parent, sift_up}
use kernel_sim.Heap.Order.{IsOrder, precedes-done, swap-done}
use kernel_sim.PriorityQueue.{Process, hole_up}

set-set :
    (a : List Process) (i : ℕ) (x y : Process) → Array.set (Array.set a i x) i y ≡ Array.set a i y
set-set [] i x y = refl
set-set (z ∷ a) zero x y = refl
set-set (z ∷ a) (suc i) x y = ap (◌∷◌ z) (set-set a i x y)

module _ (cmp : Process → Process → ℤ) (o : IsOrder cmp) (d : Process) where
  same_test :
      (x p : Process) → ltb_ℤ (cmp x p) (pos 0) ≡ (if leb_ℤ (cmp p x) (pos 0) then false else true)
  same_test x p = ground (arith, o.flip p x, o.unflip p x)

  -- For a comparison that is an order, an index inside the array and enough fuel, the loop of
  -- pq_push, which moves entries into a hole, ends as writing the value first and sifting it up
  -- by exchanges does.
  pub hole_up-eq-sift_up :
      (fuel : ℕ) (a : List Process) (i : ℕ) (v : Process)
      → i < length a
      → i < fuel
      → hole_up cmp fuel a i v ≡ sift_up cmp fuel (Array.set a i v) i
  unfolding hole_up sift_up
  hole_up-eq-sift_up zero a i v inside f = absurd (omega arith)
  hole_up-eq-sift_up (suc fuel) a i v inside f =
      let size = Array.length-set a i v in
      rw
        (
          Array.load-get_or a (parent i) d (omega arith),
          Array.store-set a i v inside,
          Array.store-set a i (get_or a (parent i) d) inside,
          precedes-done (Array.set a i v) i (parent i) d (omega (arith, size)) (omega (arith, size))
              cmp,
          swap-done (Array.set a i v) i (parent i) d (omega (arith, size)) (omega (arith, size)),
        )
        (elim (Bool-cases (ltb 0 i)) [
          | inl inner ↦
              let p = get_or a (parent i) d in
              let new_at : get_or (Array.set a i v) i d ≡ v =
                ground (arith, Array.get_or-set a i i v d inside) in
              let kept : get_or (Array.set a i v) (parent i) d ≡ p =
                ground (arith, Array.get_or-set a i (parent i) v d inside) in
              let rest =
                hole_up-eq-sift_up fuel (Array.set a i p) (parent i) v
                  (omega (arith, Array.length-set a i p)) (ground arith) in
              rw (inner, new_at, kept, set-set a i v p, ← rest, same_test v p) (ground arith)
          | inr root ↦ rw root
        ])
