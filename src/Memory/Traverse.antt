-- ===== src/Memory/Traverse.antt =====
-- The search for a block of the size asked for.
use kernel_sim.Base.{
  ℕ, zero, suc, ◌/◌, ◌<◌, ◌≡◌, refl, true, false, arith, [], ◌∷◌, ◌||◌, Option, none, some, ltb,
}
use kernel_sim.Base.Int.{minus_one, ==ℤ_sound}
use kernel_sim.Base.Outcome.{Outcome, Ends, ends, Ends-then, Ends-branch}
use kernel_sim.Memory.{
  Header, MemoryBlock, null, node, left_child, right_child, Pointer, or_new, Search, from_left,
  from_right, traverse_memory_segment, fits, is_taken,
}
use kernel_sim.Memory.Sized.{Sized, Grows, Grows-self, or_new-Sized, or_new-Grows}

-- The pointer leads past blocks that no process holds to such a block, which fits the request.
abbrev pub Leads : ℕ → Pointer → MemoryBlock → Type 0
Leads needed p null = ⊥
Leads needed [] (node b l r) = (b.process_pid ≡ minus_one) × (fits b l r needed ≡ true)
Leads needed (left_child ∷ p) (node b l r) = (b.process_pid ≡ minus_one) × Leads needed p l
Leads needed (right_child ∷ p) (node b l r) = (b.process_pid ≡ minus_one) × Leads needed p r

abbrev pub FoundIn : ℕ → Option Pointer → MemoryBlock → Type 0
FoundIn needed none t = Unit {0}
FoundIn needed (some p) t = Leads needed p t

-- What the search leaves: the same tree with more blank blocks, of the right sizes.
pub record Searched (needed n : ℕ) (t : MemoryBlock) (r : Search) : Type 0 where
  pub sized : Sized n r.1
  pub grows : Grows t r.1
  pub found : FoundIn needed r.0 r.1

not_taken : (b : Header) → is_taken b ≡ false → b.process_pid ≡ minus_one
not_taken b h = ==ℤ_sound b.process_pid minus_one (ground arith)

-- The search went into the right child after it found nothing in the left one.
from_right-Searched :
    {needed n : ℕ} {b : Header} {l r : MemoryBlock} (l' : MemoryBlock)
    → b.size ≡ n
    → b.process_pid ≡ minus_one
    → Searched needed (n / 2) (or_new l (b.size / 2)) (none, l')
    → (c : Search) → Searched needed (n / 2) (or_new r (b.size / 2)) c
    → Ends (Searched needed n (node b l r)) (from_right b l' c)
from_right-Searched {b = b} {l = l} {r = r} l' e free a (none, r') c = ends (record {
  sized = (e, a.sized, c.sized);
  grows = (refl, or_new-Grows (b.size / 2) l l' a.grows, or_new-Grows (b.size / 2) r r' c.grows);
  found = tt;
})
from_right-Searched {b = b} {l = l} {r = r} l' e free a (some p, r') c = ends (record {
  sized = (e, a.sized, c.sized);
  grows = (refl, or_new-Grows (b.size / 2) l l' a.grows, or_new-Grows (b.size / 2) r r' c.grows);
  found = (free, c.found);
})

from_left-Searched :
    {needed n : ℕ} {b : Header} {l r : MemoryBlock} (try_right : MemoryBlock → Outcome Search)
    → b.size ≡ n
    → b.process_pid ≡ minus_one
    → Sized (n / 2) r
    → ((l' : MemoryBlock)
        → Searched needed (n / 2) (or_new l (b.size / 2)) (none, l')
        → Ends (Searched needed n (node b l r)) (try_right l'))
    → (a : Search) → Searched needed (n / 2) (or_new l (b.size / 2)) a
    → Ends (Searched needed n (node b l r)) (from_left b r try_right a)
from_left-Searched try_right e free sr then_right (none, l') a = then_right l' a
from_left-Searched {b = b} {l = l} {r = r} try_right e free sr then_right (some p, l') a =
    ends (record {
      sized = (e, a.sized, sr);
      grows = (refl, or_new-Grows (b.size / 2) l l' a.grows, Grows-self r);
      found = (free, a.found);
    })

-- For a request of at least one byte and with more rounds than the size of the segment the search
-- ends; it only adds blank blocks where there were none, keeps the sizes, and a pointer that it
-- returns leads past free blocks to a block that fits.
pub traverse_memory_segment-Searched :
    (fuel needed n : ℕ) (t : MemoryBlock)
    → 0 < needed
    → n < fuel
    → Sized n t
    → Ends (Searched needed n t) (traverse_memory_segment fuel needed t)
unfolding traverse_memory_segment
traverse_memory_segment-Searched zero needed n t positive f s = absurd (omega arith)
traverse_memory_segment-Searched (suc fuel) needed n null positive f s =
    ends (record { sized = tt; grows = tt; found = tt })
traverse_memory_segment-Searched (suc fuel) needed n (node b l r) positive f (e, sl, sr) =
    let same = Grows-self (node b l r) in
    Ends-branch (ltb b.size needed || is_taken b)
      (λ refused. ends (record { sized = (e, sl, sr); grows = same; found = tt }))
      (λ open_block.
        let free : b.process_pid ≡ minus_one = not_taken b (ground arith) in
        let less : n / 2 < fuel = ground arith in
        let left_sized : Sized (n / 2) (or_new l (b.size / 2)) = rw e (or_new-Sized (n / 2) l sl) in
        let right_sized : Sized (n / 2) (or_new r (b.size / 2)) =
          rw e (or_new-Sized (n / 2) r sr) in
        Ends-branch (fits b l r needed)
          (λ here. ends (record { sized = (e, sl, sr); grows = same; found = (free, here) }))
          (λ deeper.
            Ends-then
              (traverse_memory_segment-Searched fuel needed (n / 2) (or_new l (b.size / 2)) positive
                less left_sized)
              (from_left-Searched _ e free sr λ l' a.
                Ends-then
                  (traverse_memory_segment-Searched fuel needed (n / 2) (or_new r (b.size / 2))
                    positive less right_sized)
                  (from_right-Searched l' e free a))))
