-- ===== src/Heap/Update.antt =====
-- An entry of a heap with a new key: sifting it up and then down restores the heap order.
use mathlib.Core.List.Perm
use native.Mathlib.Numerals.{add-one}
use kernel_sim.Base.{
  ℕ, zero, suc, ◌+◌, ◌≤◌, ◌<◌, ◌≡◌, ◌≢◌, ◌⊎◌, refl, List, Perm, arith, ltb, inl, inr, Bool-cases,
  false,
}
use kernel_sim.Base.Int.{ℤ, pos, ltb_ℤ}
use kernel_sim.Base.Array
use kernel_sim.Base.Array.{length, get_or}
use kernel_sim.Base.Outcome.{Ends, ends, Ends-weaken, Ends-branch}
use kernel_sim.Heap.{parent, sift_up}
use kernel_sim.Heap.Order.{IsOrder, Precedes, IsHeap, of_not_less, precedes-done}
use kernel_sim.Heap.Up.{UpInv, sift_up-IsSifted}
use kernel_sim.Heap.Down.{DownInv}

module _ {A : Type 0} (cmp : A → A → ℤ) (d : A) where
  -- Only the edges that meet `i` may be out of order.
  pub record UpdateInv (a : List A) (n i : ℕ) : Type 0 where
    pub inside : i < n
    pub fits : n ≤ length a
    pub edges :
        (c : ℕ)
        → 0 < c
        → c < n
        → c ≢ i
        → parent c ≢ i
        → Precedes cmp (get_or a (parent c) d) (get_or a c d)
    pub bridged :
        (c : ℕ)
        → 0 < c
        → c < n
        → parent c ≡ i
        → 0 < i
        → Precedes cmp (get_or a (parent i) d) (get_or a c d)

  -- Between the two sifts: only the edges below `i` may be out of order.
  pub record HalfSifted (a : List A) (n i : ℕ) (b : List A) : Type 0 where
    pub below : DownInv cmp d b n i
    pub same : Perm (Array.take n b) (Array.take n a)
    pub size : length b ≡ length a

module _ {A : Type 0} (cmp : A → A → ℤ) (o : IsOrder cmp) (d : A) where
  rising-UpInv :
      (a : List A) (n i : ℕ)
      → UpdateInv cmp d a n i
      → (0 < i → Precedes cmp (get_or a i d) (get_or a (parent i) d))
      → 0 < i
      → UpInv cmp d a n i
  rising-UpInv a n i v below inner = record {
    inside = v.inside;
    fits = v.fits;
    edges = λ c p q e. ground (
      arith,
      v.edges c,
      v.bridged c,
      o.trans (get_or a i d) (get_or a (parent i) d) (get_or a c d) (below inner),
    );
    bridged = v.bridged;
  }

  heap-DownInv :
      (a : List A) (n i : ℕ) → i < n → n ≤ length a → IsHeap cmp d a n → DownInv cmp d a n i
  heap-DownInv a n i inside fits h = record {
    inside = inside;
    fits = fits;
    edges = λ c p q e. h c p q;
    bridged = λ c p q e r.
        ground (arith, h i, h c, o.trans (get_or a (parent i) d) (get_or a i d) (get_or a c d));
  }

  settled-DownInv :
      (a : List A) (n i : ℕ)
      → UpdateInv cmp d a n i
      → (0 < i → Precedes cmp (get_or a (parent i) d) (get_or a i d))
      → DownInv cmp d a n i
  settled-DownInv a n i v above = record {
    inside = v.inside;
    fits = v.fits;
    edges = λ c p q e. ground (arith, v.edges c, above);
    bridged = v.bridged;
  }

  -- Where nothing is to be moved up, the loop stops at once.
  sift_up-settled :
      (a : List A) (i : ℕ)
      → i < length a
      → (0 < i → ltb_ℤ (cmp (get_or a i d) (get_or a (parent i) d)) (pos 0) ≡ false)
      → Ends (λ b. b ≡ a) (sift_up cmp (i + 1) a i)
  unfolding sift_up
  sift_up-settled a i inside settled =
      rw (add-one, sift_up, precedes-done a i (parent i) d inside (omega arith) cmp)
        (Ends-branch (ltb 0 i) (λ inner. rw (settled (ground arith)) (ends refl))
          (λ root. ends refl))

  moves_up :
      (a : List A) (i : ℕ)
      → ((0 < i) × Precedes cmp (get_or a i d) (get_or a (parent i) d))
        ⊎ (0 < i → ltb_ℤ (cmp (get_or a i d) (get_or a (parent i) d)) (pos 0) ≡ false)
  moves_up a zero = inr λ h. absurd (omega arith)
  moves_up a (suc i) =
      elim (Bool-cases (ltb_ℤ (cmp (get_or a (suc i) d) (get_or a (parent (suc i)) d)) (pos 0))) [
        | inl less ↦ inl (omega arith, ground arith)
        | inr settled ↦ inr λ h. settled
      ]

  pub sift_up-HalfSifted :
      (a : List A) (n i : ℕ)
      → UpdateInv cmp d a n i
      → Ends (HalfSifted cmp d a n i) (sift_up cmp (i + 1) a i)
  sift_up-HalfSifted a n i v = elim (moves_up a i) [
    | inl (inner, below) ↦
        Ends-weaken (sift_up-IsSifted cmp o d a n i (rising-UpInv a n i v (λ h. below) inner))
          λ b s. record {
            below = heap-DownInv b n i v.inside (rw s.size v.fits) s.heap;
            same = s.same;
            size = s.size;
          }
    | inr settled ↦
        Ends-weaken (sift_up-settled a i (omega (arith, v.inside, v.fits)) settled) λ b e.
          rw e (record {
            below =
                settled-DownInv a n i v
                  (λ h. of_not_less cmp o (get_or a i d) (get_or a (parent i) d) (settled h));
            same = Perm.rfl;
            size = refl;
          })
  ]
