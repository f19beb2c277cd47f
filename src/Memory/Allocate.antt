-- ===== src/Memory/Allocate.antt =====
-- What a whole allocation does: the search, the mark and, once the process exists, its pid.
use kernel_sim.Base.{
  ℕ, ◌+◌, ◌<◌, ◌≡◌, refl, true, false, arith, none, some, Perm, ◌⊎◌, inl, inr, ◌∷◌,
}
use kernel_sim.Base.Int.{ℤ, pos, minus_one, ◌==ℤ◌, ◌+ℤ◌, ◌-ℤ◌}
use native.Mathlib.Nat.{zero-add}
use kernel_sim.Base.Outcome.{done, Ends, ends, Ends-then}
use kernel_sim.Memory.{
  Header, MemoryBlock, node, Pointer, is_taken, update_block, update_id, allocate_memory,
  allocated_to, reply_of, Reply, MemoryEvent, total_memory_size, highest_power_of_2, Search,
}
use kernel_sim.Memory.Sized.{Sized, update_block-Sized}
use kernel_sim.Memory.Traverse.{Searched, traverse_memory_segment-Searched}
use kernel_sim.Memory.Occupied.{
  leases, IsSeparate, AllTaken, leases-grown, grown-IsSeparate, grown-AllTaken,
}
use kernel_sim.Memory.Vacancy.{IsCharged, OpenAt, Leads-OpenAt}
use kernel_sim.Memory.Address.{offset, get_block_address-offset}
use kernel_sim.Memory.Grant.{
  IsUnknown, grown-IsUnknown, search_marked, update_twice, taken_perm, taken-IsSeparate,
}

-- The block that a process holds after its allocation.
abbrev pub granted : ℤ → ℤ → ℤ → ℕ → Header
granted id pid size needed = record {
  size = needed;
  allocated = size;
  process_pid = pid;
  id_from_file = id;
}

-- The line that the allocation logs, for a block at `start`.
abbrev pub granted_event : ℤ → ℤ → ℤ → ℕ → ℕ → MemoryEvent
granted_event id size time needed start = record {
  time = time;
  allocate = true;
  bytes = size;
  process_id = id;
  extent = record { start = pos start; end = pos start +ℤ pos needed -ℤ pos 1 };
}

-- Allocation succeeded: the process holds one more block, at the address that was logged.
pub record Granted (root : MemoryBlock) (id pid size time : ℤ) (needed : ℕ) (reply : Reply)
    : Type 0 where
  pub start : ℕ
  pub success : reply.success ≡ true
  pub logged : reply.event ≡ some (granted_event id size time needed start)
  pub lease :
      Perm
        (leases 0 (update_id id pid reply.root))
        ((start, granted id pid size needed) ∷ leases 0 root)
  pub separate : IsSeparate (update_id id pid reply.root)
  pub sized : Sized total_memory_size (update_id id pid reply.root)

-- Allocation failed: every process still holds what it held.
pub record Refused (root : MemoryBlock) (reply : Reply) : Type 0 where
  pub success : reply.success ≡ false
  pub logged : reply.event ≡ none
  pub leases_kept : leases 0 reply.root ≡ leases 0 root
  pub separate : IsSeparate reply.root
  pub sized : Sized total_memory_size reply.root

-- What is asked of the tree before the allocation.
pub record IsReady (id : ℤ) (needed : ℕ) (root : MemoryBlock) : Type 0 where
  pub sized : Sized total_memory_size root
  pub separate : IsSeparate root
  pub charged : AllTaken (IsCharged needed) root
  pub unknown : IsUnknown id root

-- The block that allocation marked is the one that `update_id` gives the pid.
update_id_marked :
    (id pid size : ℤ) (p : Pointer) (b : Header) (t : MemoryBlock)
    → (minus_one ==ℤ id) ≡ false
    → IsUnknown id t
    → OpenAt p b t
    → update_id id pid (update_block p (allocated_to id size) t)
      ≡ update_block p (λ c. record (allocated_to id size c) { process_pid = pid }) t
unfolding update_id
update_id_marked id pid size p b t known unknown o =
    rw (search_marked id p (allocated_to id size) b t known unknown o refl, update_id)
      (update_twice p (allocated_to id size) (λ c. record c { process_pid = pid }) t)

module _ (root : MemoryBlock) (id pid size time : ℤ) (needed : ℕ) where
  found-Granted :
      (p : Pointer) (t : MemoryBlock)
      → IsReady id needed root
      → (minus_one ==ℤ id) ≡ false
      → (pid ==ℤ minus_one) ≡ false
      → 0 < needed
      → Searched needed total_memory_size root (some p, t)
      → Granted root id pid size time needed (reply_of id size time (some p, t))
  found-Granted p t ready known fresh positive s =
      let a = grown-AllTaken (IsCharged needed) root t s.grows ready.charged in
      let (b, size_b, at, o) =
        Leads-OpenAt needed p total_memory_size t positive s.sized a s.found in
      let unknown = grown-IsUnknown id root t known s.grows ready.unknown in
      let after = update_id_marked id pid size p b t known unknown o in
      let mark = λ (c : Header). record (allocated_to id size c) { process_pid = pid } in
      let taken : is_taken (mark b) ≡ true = ground arith in
      let address = get_block_address-offset p t total_memory_size b s.sized at in
      record {
        start = offset p total_memory_size;
        success = refl;
        logged = rw (address, size_b) refl;
        lease =
            rw
              (
                after,
                ← leases-grown 0 root t s.grows,
                ← size_b,
                ← zero-add (offset p total_memory_size),
              )
              (taken_perm mark b taken p 0 total_memory_size t s.sized o);
        separate =
            rw after (
              taken-IsSeparate mark b taken p t (grown-IsSeparate root t s.grows ready.separate) o);
        sized = rw after (update_block-Sized p mark total_memory_size t (λ c. refl) s.sized);
      }

  search_outcome :
      (found : Search)
      → IsReady id needed root
      → (minus_one ==ℤ id) ≡ false
      → (pid ==ℤ minus_one) ≡ false
      → 0 < needed
      → Searched needed total_memory_size root found
      → Refused root (reply_of id size time found)
        ⊎ Granted root id pid size time needed (reply_of id size time found)
  search_outcome (some p, t) ready known fresh positive s =
      inr (found-Granted p t ready known fresh positive s)
  search_outcome (none, t) ready known fresh positive s = inl (record {
    success = refl;
    logged = refl;
    leases_kept = leases-grown 0 root t s.grows;
    separate = grown-IsSeparate root t s.grows ready.separate;
    sized = s.sized;
  })

-- On a well-formed segment in which every holder has asked for at least one byte and holds at
-- least half of what is needed now, for a fresh id, an allocation ends and either fails with
-- every lease kept, or gives the process exactly one more block, of the computed size, at the
-- logged address, under no other held block.
pub allocate_memory_grants :
    (b : Header) (l r : MemoryBlock) (id pid size time : ℤ) (needed : ℕ)
    → highest_power_of_2 size ≡ done needed
    → 0 < needed
    → (minus_one ==ℤ id) ≡ false
    → (pid ==ℤ minus_one) ≡ false
    → IsReady id needed (node b l r)
    → Ends
        (λ reply. Refused (node b l r) reply ⊎ Granted (node b l r) id pid size time needed reply)
        (allocate_memory (node b l r) id size time)
unfolding allocate_memory
allocate_memory_grants b l r id pid size time needed power positive known fresh ready =
    let root = node b l r in
    rw power (
      Ends-then
        (traverse_memory_segment-Searched (total_memory_size + 1) needed total_memory_size root
          positive (omega arith) ready.sized)
        λ found s.
          ends (search_outcome root id pid size time needed found ready known fresh positive s))
