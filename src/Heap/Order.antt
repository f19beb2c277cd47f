-- ===== src/Heap/Order.antt =====
-- The order that a comparison function defines, and the heap order of an array.
use mathlib.Core.List.Perm
use native.Mathlib.Bridge.{le_prop}
use kernel_sim.Base.{
  ℕ, zero, suc, ◌≤◌, ◌<◌, ◌≡◌, ◌∙◌, sym, ap, ◌⊎◌, false, List, Perm, Mem, arith, ◌≤◌,
}
use kernel_sim.Base.Int.{ℤ, pos, ◌≤ℤ◌, ltb_ℤ}
use kernel_sim.Base.Array
use kernel_sim.Base.Array.{
  length, get_or, load-get_or, store-set, exchanged, length-set, length-exchanged,
  take-exchanged-perm,
}
use kernel_sim.Base.Outcome.{done}
use kernel_sim.Heap.{parent, swap, precedes}

-- What the heap code relies on: the sign of the comparison is that of a total preorder.
pub record IsOrder {A : Type 0} (cmp : A → A → ℤ) : Type 0 where
  pub flip : (x y : A) → cmp x y ≤ℤ pos 0 → pos 0 ≤ℤ cmp y x
  pub unflip : (x y : A) → pos 0 ≤ℤ cmp y x → cmp x y ≤ℤ pos 0
  pub trans : (x y z : A) → cmp x y ≤ℤ pos 0 → cmp y z ≤ℤ pos 0 → cmp x z ≤ℤ pos 0

module _ {A : Type 0} (cmp : A → A → ℤ) where
  abbrev pub Precedes : A → A → Type 0
  Precedes x y = cmp x y ≤ℤ pos 0

  -- No child precedes its parent among the first `n` entries; `d` stands past the array's end.
  abbrev pub IsHeap : A → List A → ℕ → Type 0
  IsHeap d a n = (c : ℕ) → 0 < c → c < n → Precedes (get_or a (parent c) d) (get_or a c d)

  -- `b` holds the first `n` entries of `a` in heap order, in an array of the same length.
  pub record IsSifted (d : A) (a : List A) (n : ℕ) (b : List A) : Type 0 where
    pub heap : IsHeap d b n
    pub same : Perm (Array.take n b) (Array.take n a)
    pub size : length b ≡ length a

  -- The heap order reads the first `n` entries only.
  pub IsHeap-take :
      (d : A) (a b : List A) (n : ℕ) → Array.take n b ≡ Array.take n a → IsHeap d a n → IsHeap d b n
  IsHeap-take d a b n e h c p q =
      let same = λ (i : ℕ) (inside : i < n).
        sym (Array.get_or-take n i b d inside)
        ∙ ap (λ l. get_or l i d) e
        ∙ Array.get_or-take n i a d inside in
      rw (same (parent c) (omega arith), same c q) (h c p q)

  -- An exchange inside the first `n` entries goes before a sift of them.
  pub IsSifted-exchanged :
      (d : A) (a : List A) (n i j : ℕ)
      → i < n
      → j < n
      → n ≤ length a
      → (b : List A) → IsSifted d (exchanged a i j d) n b
      → IsSifted d a n b
  IsSifted-exchanged d a n i j hi hj fits b s = record {
    heap = s.heap;
    same = Perm.trans s.same (take-exchanged-perm n a i j d hi hj fits);
    size = s.size ∙ length-exchanged a i j d;
  }

  module _ (o : IsOrder cmp) where
    pub Precedes-total : (x y : A) → Precedes x y ⊎ Precedes y x
    Precedes-total x y = ground (arith, o.unflip x y, o.flip y x)

    pub of_not_less : (x y : A) → ltb_ℤ (cmp x y) (pos 0) ≡ false → Precedes y x
    of_not_less x y h = ground (arith, o.unflip y x)

    pub Precedes-self : (x : A) → Precedes x x
    Precedes-self x = ground (arith, Precedes-total x x)

    root-Precedes_below :
        (k : ℕ) (d : A) (a : List A) (n i : ℕ)
        → IsHeap d a n
        → i < k
        → i < n
        → Precedes (get_or a 0 d) (get_or a i d)
    root-Precedes_below zero d a n i h f p = absurd (omega arith)
    root-Precedes_below (suc k) d a n zero h f p = Precedes-self (get_or a 0 d)
    root-Precedes_below (suc k) d a n (suc i) h f p =
        o.trans _ (get_or a (parent (suc i)) d) _
          (root-Precedes_below k d a n (parent (suc i)) h (omega arith) (omega arith))
          (h (suc i) (omega arith) p)

    -- The root of a heap precedes every entry.
    pub root-Precedes :
        (d : A) (a : List A) (n i : ℕ)
        → IsHeap d a n
        → i < n
        → Precedes (get_or a 0 d) (get_or a i d)
    root-Precedes d a n i h p = root-Precedes_below (suc i) d a n i h (omega arith) p

    -- So it precedes every element of the list that the heap holds.
    pub root_least :
        (d : A) (a : List A) (n : ℕ)
        → IsHeap d a n
        → n ≤ length a
        → (x : A) → Mem x (Array.take n a)
        → Precedes (get_or a 0 d) x
    root_least d a n h fits x =
        Array.take-all (λ y. Precedes (get_or a 0 d) y) (λ y. le_prop) n a d fits
          (λ i p. root-Precedes d a n i h p) x

-- Inside the array the two steps of the heap code do not fault.
module _ {A : Type 0} (a : List A) (i j : ℕ) (d : A) (hi : i < length a) (hj : j < length a) where
  pub precedes-done :
      (cmp : A → A → ℤ)
      → precedes cmp a i j ≡ done (ltb_ℤ (cmp (get_or a i d) (get_or a j d)) (pos 0))
  unfolding precedes
  precedes-done cmp = rw (load-get_or a i d hi, load-get_or a j d hj)

  pub swap-done : swap a i j ≡ done (exchanged a i j d)
  unfolding swap
  swap-done =
      rw (load-get_or a i d hi, load-get_or a j d hj, store-set a i (get_or a j d) hi)
        (store-set (Array.set a i (get_or a j d)) j (get_or a i d) (rw length-set hj))
