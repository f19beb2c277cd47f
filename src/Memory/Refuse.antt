-- ===== src/Memory/Refuse.antt =====
-- A request for more than the whole segment.
use kernel_sim.Base.{ℕ, ◌+◌, ◌/◌, ◌^◌, ◌≤◌, ◌<◌, ◌≡◌, refl, false, [], ◌∷◌, some, none, arith}
use kernel_sim.Base.Int.{ℤ, pos}
use kernel_sim.Base.Outcome.{Ends, ends, Ends-then}
use kernel_sim.Memory.{
  MemoryBlock, null, node, left_child, right_child, Pointer, Search, Reply, allocate_in,
  allocate_memory, reply_of, total_memory_size,
}
use kernel_sim.Memory.Sized.{Sized}
use kernel_sim.Memory.Power.{highest_power_of_2-IsLeastPower}
use kernel_sim.Memory.Traverse.{Leads, Searched, traverse_memory_segment-Searched}
use kernel_sim.Memory.Vacancy.{fits_lem}

-- A block that fits is no smaller than what is needed, and no larger than the root.
Leads-needed :
    (needed : ℕ) (p : Pointer) (n : ℕ) (t : MemoryBlock) → Sized n t → Leads needed p t → needed ≤ n
Leads-needed needed [] n null s nowhere = absurd nowhere
Leads-needed needed (left_child ∷ p) n null s nowhere = absurd nowhere
Leads-needed needed (right_child ∷ p) n null s nowhere = absurd nowhere
Leads-needed needed [] n (node b l r) (e, _, _) (_, fit) =
    omega (arith, fits_lem b l r needed fit, e)
Leads-needed needed (left_child ∷ p) n (node b l r) (_, sl, _) (_, there) =
    omega (arith, Leads-needed needed p (n / 2) l sl there)
Leads-needed needed (right_child ∷ p) n (node b l r) (_, _, sr) (_, there) =
    omega (arith, Leads-needed needed p (n / 2) r sr there)

reply_refused :
    (id size time : ℤ) (needed : ℕ) (t : MemoryBlock) (found : Search)
    → total_memory_size < needed
    → Searched needed total_memory_size t found
    → (reply_of id size time found).success ≡ false
reply_refused id size time needed t (none, t') large s = refl
reply_refused id size time needed t (some p, t') large s =
    absurd (omega (arith, large, Leads-needed needed p total_memory_size t' s.sized s.found))

allocate_in_refused :
    (root : MemoryBlock) (id size time : ℤ) (needed : ℕ)
    → total_memory_size < needed
    → Sized total_memory_size root
    → Ends (λ (reply : Reply). reply.success ≡ false) (allocate_in root id size time needed)
unfolding allocate_in
allocate_in_refused root id size time needed large sized =
    Ends-then
      (traverse_memory_segment-Searched (total_memory_size + 1) needed total_memory_size root
        (omega (arith, large)) (omega arith) sized)
      λ found s. ends (reply_refused id size time needed root found large s)

-- A request for more than the segment has is refused, whatever is held.
pub allocate_memory_refused :
    (root : MemoryBlock) (id time : ℤ) (size : ℕ)
    → total_memory_size < size
    → size ≤ 2 ^ 30
    → Sized total_memory_size root
    → Ends (λ (reply : Reply). reply.success ≡ false) (allocate_memory root id (pos size) time)
unfolding allocate_memory
allocate_memory_refused (node b l r) id time size large small sized =
    Ends-then (highest_power_of_2-IsLeastPower size small) λ needed power.
      allocate_in_refused (node b l r) id (pos size) time needed (omega (arith, power.reaches))
        sized
allocate_memory_refused null id time size large small sized =
    Ends-then (highest_power_of_2-IsLeastPower size small) λ needed power.
      Ends-then
        (allocate_in_refused _ id (pos size) time needed (omega (arith, power.reaches))
          (refl, tt, tt))
        λ reply refused. ends refused
