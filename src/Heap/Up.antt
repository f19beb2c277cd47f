-- ===== src/Heap/Up.antt =====
-- Sifting up restores the heap order when only the edge above one entry may break it.
use mathlib.Core.List.Perm
use mathlib.Core.List.{perm_append_singleton}
use native.Mathlib.Numerals.{add-one}
use native.Mathlib.Nat.{le_refl}
use kernel_sim.Base.{
  ℕ, zero, suc, ◌+◌, ◌≤◌, ◌<◌, ◌≡◌, ◌≢◌, refl, List, ◌∷◌, ==_self, Perm, arith, ltb,
}
use kernel_sim.Base.Int.{ℤ, pos, ltb_ℤ}
use kernel_sim.Base.Array
use kernel_sim.Base.Array.{length, get_or, exchanged, length-exchanged, get_or-exchanged}
use kernel_sim.Base.Outcome.{Ends, ends, Ends-weaken, Ends-branch}
use kernel_sim.Heap.{parent, sift_up}
use kernel_sim.Heap.Order.{
  IsOrder, Precedes, IsHeap, IsSifted, IsSifted-exchanged, of_not_less, precedes-done, swap-done,
}

module _ {A : Type 0} (cmp : A → A → ℤ) (d : A) where
  -- Only the edge above `i` may be out of order.
  pub record UpInv (a : List A) (n i : ℕ) : Type 0 where
    pub inside : i < n
    pub fits : n ≤ length a
    pub edges :
        (c : ℕ) → 0 < c → c < n → c ≢ i → Precedes cmp (get_or a (parent c) d) (get_or a c d)
    pub bridged :
        (c : ℕ)
        → 0 < c
        → c < n
        → parent c ≡ i
        → 0 < i
        → Precedes cmp (get_or a (parent i) d) (get_or a c d)

module _ {A : Type 0} (cmp : A → A → ℤ) (o : IsOrder cmp) (d : A) where
  exchanged-UpInv :
      (a : List A) (n i : ℕ)
      → UpInv cmp d a n i
      → 0 < i
      → Precedes cmp (get_or a i d) (get_or a (parent i) d)
      → UpInv cmp d (exchanged a i (parent i) d) n (parent i)
  exchanged-UpInv a n i v hi below =
      let at = λ (k : ℕ).
        get_or-exchanged a i (parent i) k d (omega (arith, v.inside, v.fits))
          (omega (arith, v.inside, v.fits)) in
      record {
        inside = omega (arith, v.inside);
        fits = rw (length-exchanged a i (parent i) d) v.fits;
        edges = λ c p q e. ground (
          arith,
          at c,
          at (parent c),
          below,
          v.edges c,
          v.bridged c,
          o.trans (get_or a i d) (get_or a (parent i) d) (get_or a c d) below,
        );
        bridged = λ c p q e r. ground (
          arith,
          at c,
          at (parent (parent i)),
          v.edges (parent i),
          v.edges c,
          o.trans (get_or a (parent (parent i)) d) (get_or a (parent i) d) (get_or a c d),
        );
      }

  sift_up_restores :
      (fuel : ℕ) (a : List A) (n i : ℕ)
      → i < fuel
      → UpInv cmp d a n i
      → Ends (IsSifted cmp d a n) (sift_up cmp fuel a i)
  unfolding sift_up
  sift_up_restores zero a n i f v = absurd (omega arith)
  sift_up_restores (suc fuel) a n i f v =
      let hi : i < length a = omega (arith, v.inside, v.fits) in
      let hp : parent i < length a = omega (arith, hi) in
      let above : parent i < n = omega (arith, v.inside) in
      rw (precedes-done a i (parent i) d hi hp cmp, swap-done a i (parent i) d hi hp)
        (Ends-branch (ltb 0 i)
          (λ inner.
            Ends-branch (ltb_ℤ (cmp (get_or a i d) (get_or a (parent i) d)) (pos 0))
              (λ below.
                Ends-weaken
                  (sift_up_restores fuel (exchanged a i (parent i) d) n (parent i) (ground arith)
                    (exchanged-UpInv a n i v (ground arith) (ground arith)))
                  (IsSifted-exchanged cmp d a n i (parent i) v.inside above v.fits))
              (λ settled. ends (record {
                heap = λ c p q.
                    ground
                      (arith, v.edges c, of_not_less cmp o (get_or a i d) (get_or a (parent i) d));
                same = Perm.rfl;
                size = refl;
              })))
          (λ root. ends (record {
            heap = λ c p q. v.edges c p q (ground arith);
            same = Perm.rfl;
            size = refl;
          })))

  -- One entry too low in the heap: sifting it up makes the first `n` entries a heap.
  pub sift_up-IsSifted :
      (a : List A) (n i : ℕ)
      → UpInv cmp d a n i
      → Ends (IsSifted cmp d a n) (sift_up cmp (i + 1) a i)
  sift_up-IsSifted a n i v = sift_up_restores (i + 1) a n i (omega arith) v

-- A value written behind a heap: only the new entry may be out of order.
module _ {A : Type 0} (cmp : A → A → ℤ) (d : A) (a : List A) (n : ℕ) (x : A)
    (room : n < length a) where
  pub appended-UpInv : IsHeap cmp d a n → UpInv cmp d (Array.set a n x) (n + 1) n
  appended-UpInv heap =
      let at = λ (k : ℕ). Array.get_or-set a n k x d room in
      record {
        inside = omega arith;
        fits = omega (arith, Array.length-set a n x);
        edges = λ c q r e. ground (arith, at c, at (parent c), heap c);
        bridged = λ c q r e t. absurd (omega arith);
      }

  pub appended_perm : Perm (Array.take (n + 1) (Array.set a n x)) (x ∷ Array.take n a)
  appended_perm =
      rw
        (
          add-one,
          Array.take-suc n (Array.set a n x) d (omega (arith, Array.length-set a n x)),
          Array.take-set_above n n a x (le_refl n),
          Array.get_or-set a n n x d room,
          ==_self n,
        )
        (perm_append_singleton x (Array.take n a))
