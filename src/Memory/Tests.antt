-- ===== src/Memory/Tests.antt =====
-- Runs of the allocator of src/memory_manager.c, and the theorems at concrete trees.
use kernel_sim.Base.{◌≡◌, refl, ◌∷◌, [], some, none, ◌⊎◌, arith, ℕ}
use kernel_sim.Base.Int.{pos, minus_one, ◌+ℤ◌, ◌-ℤ◌}
use kernel_sim.Base.Outcome.{Outcome, done, ◌>>=◌, Ends}
use kernel_sim.Memory.{
  Header, MemoryBlock, null, node, left_child, Reply, Extent, initialize_memory_block,
  total_memory_size, allocate_memory, update_id, deallocate_memory, highest_power_of_2,
  traverse_memory_segment, get_block_address,
}
use kernel_sim.Memory.Power.{IsLeastPower, highest_power_of_2-IsLeastPower}
use kernel_sim.Memory.Allocate.{Refused, Granted, IsReady, allocate_memory_grants}
use kernel_sim.Memory.Release.{Missing, Released, deallocate_memory_releases}
use kernel_sim.Memory.Traverse.{Searched, traverse_memory_segment-Searched}
use kernel_sim.Memory.Address.{get_block_address-offset}

abbrev extents : Outcome Reply → Outcome Extent
extents m = m >>= λ r. elim r.event [
  | none ↦ done (record { start = minus_one; end = minus_one })
  | some e ↦ done e.extent
]

abbrev segment : MemoryBlock
segment = initialize_memory_block total_memory_size

abbrev leaf : ℕ → MemoryBlock
leaf n = initialize_memory_block n

abbrev free : ℕ → Header
free n = record { size = n; allocated = pos 0; process_pid = minus_one; id_from_file = minus_one }

-- Process 1, with the pid 71, holds 200 bytes in the first quarter.
abbrev held : Header
held = record { size = 256; allocated = pos 200; process_pid = pos 71; id_from_file = pos 1 }

abbrev one_held : MemoryBlock
one_held = node (free 1024) (node (free 512) (node held null null) null) null

-- The first allocation of src/memory.log.
abbrev first_run : Outcome Reply
first_run = allocate_memory segment (pos 1) (pos 200) (pos 1)

first_run_extent : extents first_run ≡ done (record { start = pos 0; end = pos 255 })
unfolding allocate_memory highest_power_of_2 traverse_memory_segment get_block_address update_id
    ◌+ℤ◌ ◌-ℤ◌
first_run_extent = refl

-- The second, once the first process has its pid.
second_run_extent :
    extents (allocate_memory one_held (pos 2) (pos 170) (pos 2))
    ≡ done (record { start = pos 256; end = pos 511 })
unfolding allocate_memory highest_power_of_2 traverse_memory_segment get_block_address update_id
    ◌+ℤ◌ ◌-ℤ◌
second_run_extent = refl

-- A process of 64 bytes is gone and one of 64 bytes beside it remains: its block is below the right
-- child of a left child, where `get_used_space` does not look.
abbrev other : Header
other = record { size = 64; allocated = pos 64; process_pid = pos 72; id_from_file = pos 2 }

abbrev hidden : MemoryBlock
hidden =
    node (free 1024)
      (node (free 512) (node (free 256) (node (free 128) (leaf 64) (node other null null)) null)
        null)
      null

-- The next process of 256 bytes gets a block over it.
overlap_extent :
    extents (allocate_memory hidden (pos 3) (pos 256) (pos 9))
    ≡ done (record { start = pos 0; end = pos 255 })
unfolding allocate_memory highest_power_of_2 traverse_memory_segment get_block_address update_id
    ◌+ℤ◌ ◌-ℤ◌
overlap_extent = refl

highest_power_of_2-IsLeastPower_example : Ends (IsLeastPower 200) (highest_power_of_2 (pos 200))
highest_power_of_2-IsLeastPower_example = highest_power_of_2-IsLeastPower 200 (omega arith)

needed_256 : highest_power_of_2 (pos 170) ≡ done 256
unfolding highest_power_of_2
needed_256 = refl

one_held-IsReady : IsReady (pos 2) 256 one_held
one_held-IsReady = record {
  sized = (refl, (refl, (refl, tt, tt), tt), tt);
  separate = (
    (λ h. absurd (ground arith)),
    ((λ h. absurd (ground arith)), ((λ h. (tt, tt)), tt, tt), tt),
    tt,
  );
  charged = (
    (λ h. absurd (ground arith)),
    (
      (λ h. absurd (ground arith)),
      ((λ h. record { charged = omega arith; large = omega arith }), tt, tt),
      tt,
    ),
    tt,
  );
  unknown = (refl, (refl, (refl, tt, tt), tt), tt);
}

allocate_memory_grants_example :
    Ends
      (λ reply.
        Refused one_held reply ⊎ Granted one_held (pos 2) (pos 72) (pos 170) (pos 2) 256 reply)
      (allocate_memory one_held (pos 2) (pos 170) (pos 2))
allocate_memory_grants_example =
    allocate_memory_grants (free 1024) (node (free 512) (node held null null) null) null (pos 2)
      (pos 72) (pos 170) (pos 2) 256 needed_256 (omega arith) refl refl one_held-IsReady

deallocate_memory_releases_example :
    Missing one_held (pos 71) (deallocate_memory one_held (pos 71) (pos 9))
    ⊎ Released one_held (pos 71) (pos 9) (deallocate_memory one_held (pos 71) (pos 9))
deallocate_memory_releases_example =
    deallocate_memory_releases one_held (pos 71) (pos 9) refl one_held-IsReady.sized
      one_held-IsReady.separate
      (
        (λ h. absurd (ground arith)),
        ((λ h. absurd (ground arith)), ((λ h. omega arith), tt, tt), tt),
        tt,
      )

get_block_address-offset_example :
    get_block_address one_held (left_child ∷ left_child ∷ [])
    ≡ record { start = pos 0; end = pos 0 +ℤ pos 256 -ℤ pos 1 }
get_block_address-offset_example =
    get_block_address-offset (left_child ∷ left_child ∷ []) one_held 1024 held
      one_held-IsReady.sized refl

traverse_memory_segment-Searched_example :
    Ends (Searched 256 1024 one_held) (traverse_memory_segment 1025 256 one_held)
traverse_memory_segment-Searched_example =
    traverse_memory_segment-Searched 1025 256 1024 one_held (omega arith) (omega arith)
      one_held-IsReady.sized
