-- ===== src/Memory/Total.antt =====
-- `allocate_memory` on any segment whose sizes halve, whatever is held in it.
use kernel_sim.Base.{
  zero, suc, Option-cases, inl, inr, ◌≡◌, true, ℕ, ◌+◌, ◌^◌, ◌≤◌, ◌<◌, refl, some, none, arith,
}
use kernel_sim.Base.Int.{ℤ, pos, negsuc, minus_one, ◌≤ℤ◌, leb_ℤ}
use kernel_sim.Base.Outcome.{Ends, ends, Ends-then, Ends-weaken}
use kernel_sim.Memory.{
  highest_power_of_2, update_id, allocate_in, get_process_memory_segment, Header, MemoryBlock, null,
  node, Search, allocate_memory, allocated_to, reply_of, total_memory_size, Reply,
}
use kernel_sim.Memory.Power.{highest_power_of_2-IsLeastPower}
use kernel_sim.Memory.Sized.{Sized, update_block-Sized}
use kernel_sim.Memory.Traverse.{traverse_memory_segment-Searched}

reply_of-Sized :
    (id size time : ℤ) (found : Search)
    → Sized total_memory_size found.1
    → Sized total_memory_size (reply_of id size time found).root
reply_of-Sized id size time (none, t) s = s
reply_of-Sized id size time (some p, t) s =
    update_block-Sized p (allocated_to id size) total_memory_size t (λ c. refl) s

allocate_in-Sized :
    (b : Header) (l r : MemoryBlock) (id size time : ℤ) (needed : ℕ)
    → 0 < needed
    → Sized total_memory_size (node b l r)
    → Ends
        (λ (reply : Reply). Sized total_memory_size reply.root)
        (allocate_in (node b l r) id size time needed)
unfolding allocate_in
allocate_in-Sized b l r id size time needed positive sized =
    Ends-then
      (traverse_memory_segment-Searched (total_memory_size + 1) needed total_memory_size
        (node b l r) positive (omega arith) sized)
      λ found s. ends (reply_of-Sized id size time found s.sized)

asks_nothing : (n : ℕ) → leb_ℤ (negsuc n) (pos 0) ≡ true
asks_nothing n = ground arith

-- What is needed is at least one byte, whatever is asked for.
highest_power_of_2-positive :
    (size : ℤ) → size ≤ℤ pos (2 ^ 30) → Ends (λ needed. 0 < needed) (highest_power_of_2 size)
unfolding highest_power_of_2
highest_power_of_2-positive (pos zero) small = ends (omega arith)
highest_power_of_2-positive (pos (suc n)) small =
    Ends-weaken (highest_power_of_2-IsLeastPower (suc n) (omega arith))
      λ needed power. omega (arith, power.reaches)
highest_power_of_2-positive (negsuc n) small = rw (asks_nothing n) (ends (omega arith))

-- Any request up to 2 ^ 30 bytes, also a negative one, and also with a NULL root.
pub allocate_memory_any-Sized :
    (root : MemoryBlock) (id size time : ℤ)
    → size ≤ℤ pos (2 ^ 30)
    → Sized total_memory_size root
    → Ends
        (λ (reply : Reply). Sized total_memory_size reply.root)
        (allocate_memory root id size time)
unfolding allocate_memory
allocate_memory_any-Sized (node b l r) id size time small sized =
    Ends-then (highest_power_of_2-positive size small)
      λ needed positive. allocate_in-Sized b l r id size time needed positive sized
allocate_memory_any-Sized null id size time small sized =
    Ends-then (highest_power_of_2-positive size small) λ needed positive.
      Ends-then (allocate_in-Sized _ null null id size time needed positive (refl, tt, tt))
        λ reply s. ends tt

-- On any segment whose sizes halve, whatever is held in it, an allocation of 1 to 2 ^ 30 bytes
-- ends, and the sizes still halve.
pub allocate_memory-Sized :
    (b : Header) (l r : MemoryBlock) (id time : ℤ) (size : ℕ)
    → 0 < size
    → size ≤ 2 ^ 30
    → Sized total_memory_size (node b l r)
    → Ends
        (λ (reply : Reply). Sized total_memory_size reply.root)
        (allocate_memory (node b l r) id (pos size) time)
unfolding allocate_memory
allocate_memory-Sized b l r id time size positive small sized =
    allocate_memory_any-Sized (node b l r) id (pos size) time (omega arith) sized

pub update_id-Sized :
    (id pid : ℤ) (root : MemoryBlock)
    → Sized total_memory_size root
    → Sized total_memory_size (update_id id pid root)
unfolding update_id
update_id-Sized id pid root s = elim (Option-cases (get_process_memory_segment root id minus_one)) [
  | inl missing ↦ rw (missing, update_id) s
  | inr (p, found) ↦
      rw (found, update_id)
        (update_block-Sized p (λ b. record b { process_pid = pid }) total_memory_size root
          (λ c. refl) s)
]
