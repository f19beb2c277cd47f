-- ===== src/Heap/Down.antt =====
-- Sifting down restores the heap order when only the edges below one entry may break it.
use mathlib.Core.List.Perm
use mathlib.Core.List.{perm_append_singleton}
use kernel_sim.Base.{
  ℕ, zero, suc, ◌+◌, ◌-◌, ◌≤◌, ◌<◌, ◌≡◌, ◌≢◌, ◌⊎◌, refl, List, ◌∷◌, Perm, arith, ltb, ◌==◌, ltb→lt,
}
use kernel_sim.Base.Int.{ℤ}
use kernel_sim.Base.Array
use kernel_sim.Base.Array.{
  length, get_or, exchanged, length-exchanged, get_or-exchanged, take-exchanged-perm,
}
use kernel_sim.Base.Outcome.{Ends, ends, Ends-then, Ends-weaken, Ends-branch}
use kernel_sim.Heap.{parent, left_child, right_child, smaller, smallest_of, sift_down}
use kernel_sim.Heap.Order.{
  IsOrder, Precedes, IsHeap, IsSifted, IsSifted-exchanged, of_not_less, Precedes-self,
  precedes-done, swap-done,
}

module _ {A : Type 0} (cmp : A → A → ℤ) (d : A) where
  -- Only the edges below `i` may be out of order.
  pub record DownInv (a : List A) (n i : ℕ) : Type 0 where
    pub inside : i < n
    pub fits : n ≤ length a
    pub edges :
        (c : ℕ) → 0 < c → c < n → parent c ≢ i → Precedes cmp (get_or a (parent c) d) (get_or a c d)
    pub bridged :
        (c : ℕ)
        → 0 < c
        → c < n
        → parent c ≡ i
        → 0 < i
        → Precedes cmp (get_or a (parent i) d) (get_or a c d)

  -- `s` is `i` or a child of it, and precedes all of them.
  record IsSmallest (a : List A) (n i s : ℕ) : Type 0 where
    inside : s < n
    place : (s ≡ i) ⊎ (s ≡ left_child i) ⊎ (s ≡ right_child i)
    self : Precedes cmp (get_or a s d) (get_or a i d)
    least : (c : ℕ) → 0 < c → c < n → parent c ≡ i → Precedes cmp (get_or a s d) (get_or a c d)

  record IsSmaller (a : List A) (n c s r : ℕ) : Type 0 where
    inside : r < n
    place : (r ≡ s) ⊎ (r ≡ c)
    kept : Precedes cmp (get_or a r d) (get_or a s d)
    least : c < n → Precedes cmp (get_or a r d) (get_or a c d)

module _ {A : Type 0} (cmp : A → A → ℤ) (o : IsOrder cmp) (d : A) where
  smaller-IsSmaller :
      (a : List A) (n c s : ℕ)
      → n ≤ length a
      → s < n
      → Ends (IsSmaller cmp d a n c s) (smaller cmp a n c s)
  unfolding smaller
  smaller-IsSmaller a n c s fits hs =
      let self = Precedes-self cmp o (get_or a s d) in
      let not_less = of_not_less cmp o (get_or a c d) (get_or a s d) in
      Ends-branch (ltb c n)
        (λ inside.
          let hc : c < n = ltb→lt c n inside in
          rw (precedes-done a c s d (omega arith) (omega arith) cmp)
            (ends (ground (arith, self, not_less, Precedes-self cmp o (get_or a c d)))))
        (λ outside. ends (ground (arith, self)))

  smallest_of-IsSmallest :
      (a : List A) (n i : ℕ)
      → n ≤ length a
      → i < n
      → Ends (IsSmallest cmp d a n i) (smallest_of cmp a n i)
  unfolding smallest_of
  smallest_of-IsSmallest a n i fits hi =
      Ends-then (smaller-IsSmaller a n (left_child i) i fits hi) λ l p.
        Ends-weaken (smaller-IsSmaller a n (right_child i) l fits p.inside) λ s q. record {
          inside = q.inside;
          place = ground (arith, p.place, q.place);
          self = o.trans _ (get_or a l d) _ q.kept p.kept;
          least = λ c h r e. ground (
            arith,
            q.least,
            o.trans (get_or a s d) (get_or a l d) (get_or a c d) q.kept,
            p.least,
          );
        }

  exchanged-DownInv :
      (a : List A) (n i s : ℕ)
      → DownInv cmp d a n i
      → IsSmallest cmp d a n i s
      → s ≢ i
      → DownInv cmp d (exchanged a i s d) n s
  exchanged-DownInv a n i s v m moved =
      let fits = v.fits in
      let inside = v.inside in
      let at = λ (k : ℕ).
        get_or-exchanged a i s k d (omega (arith, v.inside, v.fits))
          (omega (arith, m.inside, v.fits)) in
      record {
        inside = m.inside;
        fits = rw (length-exchanged a i s d) v.fits;
        edges = λ c p q e. ground (
          arith,
          at c,
          at (parent c),
          v.edges c,
          m.least c,
          v.bridged c,
          v.bridged s,
          m.self,
          m.place,
        );
        bridged = λ c p q e r. ground (arith, at c, at (parent s), v.edges c, m.place);
      }

  sift_down_restores :
      (fuel : ℕ) (a : List A) (n i : ℕ)
      → n - i < fuel
      → DownInv cmp d a n i
      → Ends (IsSifted cmp d a n) (sift_down cmp fuel a n i)
  unfolding sift_down
  sift_down_restores zero a n i f v = absurd (omega arith)
  sift_down_restores (suc fuel) a n i f v =
      Ends-then (smallest_of-IsSmallest a n i v.fits v.inside) λ s m.
        Ends-branch (s == i)
          (λ stay. ends (record {
            heap = λ c p q. ground (arith, v.edges c, m.least c);
            same = Perm.rfl;
            size = refl;
          }))
          (λ moved.
            let hs : s ≢ i = ground arith in
            let hi : i < length a = omega (arith, v.inside, v.fits) in
            rw (swap-done a i s d hi (omega (arith, m.inside, v.fits))) (
              Ends-weaken
                (sift_down_restores fuel (exchanged a i s d) n s (omega (arith, m.place, m.inside))
                  (exchanged-DownInv a n i s v m hs))
                (IsSifted-exchanged cmp d a n i s v.inside m.inside v.fits)))

  -- One entry too high in the heap: sifting it down makes the first `n` entries a heap.
  pub sift_down-IsSifted :
      (a : List A) (n i : ℕ)
      → DownInv cmp d a n i
      → Ends (IsSifted cmp d a n) (sift_down cmp (n + 1) a n i)
  sift_down-IsSifted a n i v = sift_down_restores (n + 1) a n i (omega (arith, v.inside)) v

-- The last entry moved to the root: only the edges below the root may be out of order.
module _ {A : Type 0} (cmp : A → A → ℤ) (d : A) (a : List A) (n : ℕ) (inside : n < length a) where
  pub moved-DownInv :
      IsHeap cmp d a (suc n) → 0 < n → DownInv cmp d (Array.set a 0 (get_or a n d)) n 0
  moved-DownInv heap more =
      let at = λ (k : ℕ). Array.get_or-set a 0 k (get_or a n d) d (omega arith) in
      record {
        inside = more;
        fits = omega (arith, Array.length-set a 0 (get_or a n d));
        edges = λ c q r e. ground (arith, at c, at (parent c), heap c);
        bridged = λ c q r e t. absurd (omega arith);
      }

  pub moved_perm :
      Perm (get_or a 0 d ∷ Array.take n (Array.set a 0 (get_or a n d))) (Array.take (suc n) a)
  moved_perm =
      Perm.trans (trade n inside)
        (rw (Array.take-suc n a d inside) (Perm.symm (perm_append_singleton _ _)))
    where
      trade :
          (m : ℕ)
          → m < length a
          → Perm
              (get_or a 0 d ∷ Array.take m (Array.set a 0 (get_or a m d)))
              (get_or a m d ∷ Array.take m a)
      trade zero h = Perm.rfl
      trade (suc m) h = rw (Array.take-set (suc m) 0 a (get_or a (suc m) d) (omega arith)) (
          rw (Array.get_or-take (suc m) 0 a d (omega arith)) at (
            Array.set-perm (Array.take (suc m) a) 0 (get_or a (suc m) d) d
              (omega (arith, Array.length-take (suc m) a))))
