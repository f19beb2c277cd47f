-- ===== src/Memory/Release.antt =====
-- Release: `deallocate_memory` with the merging of free buddies that follows it.
use kernel_sim.Base.{
  ℕ, ◌≡◌, refl, true, false, arith, ◌∷◌, Option-cases, inl, inr, ◌⊎◌, none, some, Perm,
}
use kernel_sim.Base.Int.{ℤ, pos, minus_one, ◌==ℤ◌, ◌+ℤ◌, ◌-ℤ◌}
use native.Mathlib.Nat.{zero-add}
use kernel_sim.Memory.{
  Header, MemoryBlock, Pointer, is_taken, update_block, block_at, get_process_memory_segment, Reply,
  MemoryEvent, total_memory_size, cleared, merge_buddy_blocks, deallocate_memory, freed_event,
}
use kernel_sim.Memory.Sized.{Sized, update_block-Sized, merge_buddy_blocks-Sized}
use kernel_sim.Memory.Occupied.{leases, IsSeparate, AllTaken}
use kernel_sim.Memory.Address.{offset, get_block_address-offset}
use kernel_sim.Memory.Clear.{
  IsBooked, IsOther, found_holds, missing-IsOther, cleared-OpenAt, cleared_perm, cleared-AllTaken,
  cleared-IsSeparate,
}
use kernel_sim.Memory.Merge.{merged_leases, merged-IsSeparate}

-- A process held nothing, and nothing changed.
pub record Missing (root : MemoryBlock) (pid : ℤ) (reply : Reply) : Type 0 where
  pub others : AllTaken (IsOther pid) root
  pub same : reply ≡ record { root = root; success = false; event = none }

-- The line that the release of a block at `start` logs.
abbrev pub released_event : ℤ → Header → ℕ → MemoryEvent
released_event time b start = record {
  time = time;
  allocate = false;
  bytes = b.allocated;
  process_id = b.id_from_file;
  extent = record { start = pos start; end = pos start +ℤ pos b.size -ℤ pos 1 };
}

-- One block of the process is free again; the others are as before.
pub record Released (root : MemoryBlock) (pid time : ℤ) (reply : Reply) : Type 0 where
  pub start : ℕ
  pub block : Header
  pub owner : block.process_pid ≡ pid
  pub success : reply.success ≡ true
  pub logged : reply.event ≡ some (released_event time block start)
  pub lease : Perm (leases 0 root) ((start, block) ∷ leases 0 reply.root)
  pub separate : IsSeparate reply.root
  pub sized : Sized total_memory_size reply.root

module _ (root : MemoryBlock) (pid time : ℤ) (fresh : (pid ==ℤ minus_one) ≡ false) where
  found-Released :
      (p : Pointer) (b : Header)
      → Sized total_memory_size root
      → IsSeparate root
      → AllTaken IsBooked root
      → block_at p root ≡ some b
      → b.process_pid ≡ pid
      → Released root pid time (record {
        root = merge_buddy_blocks p (update_block p cleared root);
        success = true;
        event = freed_event root time p (block_at p root);
      })
  unfolding merge_buddy_blocks freed_event
  found-Released p b sized separate booked at owner =
      let taken : is_taken b ≡ true = ground (arith, owner, fresh) in
      let u = update_block p cleared root in
      let o = cleared-OpenAt b taken p root separate at in
      let a = cleared-AllTaken IsBooked p root booked in
      let ended = cleared_perm b taken p 0 total_memory_size root sized separate at in
      record {
        start = offset p total_memory_size;
        block = b;
        owner = owner;
        success = refl;
        logged = rw (at, get_block_address-offset p root total_memory_size b sized at) refl;
        lease =
            rw (merged_leases (cleared b) p 0 u a o, ← zero-add (offset p total_memory_size)) ended;
        separate = merged-IsSeparate (cleared b) p u o (cleared-IsSeparate p b root o separate);
        sized =
            merge_buddy_blocks-Sized p total_memory_size u
              (update_block-Sized p cleared total_memory_size root (λ c. refl) sized);
      }

-- In a well-formed segment whose holders have all asked for at least one byte, a release finds no
-- block of the process and changes nothing, or ends exactly one lease of the process, logs where
-- its block lies, and leaves a well-formed segment: merging buddies touches no held block.
pub deallocate_memory_releases :
    (root : MemoryBlock) (pid time : ℤ)
    → (pid ==ℤ minus_one) ≡ false
    → Sized total_memory_size root
    → IsSeparate root
    → AllTaken IsBooked root
    → Missing root pid (deallocate_memory root pid time)
      ⊎ Released root pid time (deallocate_memory root pid time)
unfolding deallocate_memory
deallocate_memory_releases root pid time fresh sized separate booked =
    elim (Option-cases (get_process_memory_segment root minus_one pid)) [
      | inl missing ↦ inl (
          rw (missing, deallocate_memory)
            (record { others = missing-IsOther pid fresh root missing; same = refl }))
      | inr (p, found) ↦
          let (b, at, owner) = found_holds pid fresh p root found in
          inr (
            rw (found, deallocate_memory)
              (found-Released root pid time fresh p b sized separate booked at owner))
    ]
