-- ===== src/Memory/Grant.antt =====
-- Allocation: `allocate_memory`, then `update_id` when the process has been created.
use mathlib.Core.List.Perm
use mathlib.Core.List.{perm_middle}
use kernel_sim.Base.{ℕ, ◌+◌, ◌/◌, ◌≡◌, refl, ap, true, false, arith, [], ◌∷◌, none, some, Perm}
use kernel_sim.Base.Int.{ℤ, minus_one, ◌==ℤ◌, ==ℤ_self}
use native.Mathlib.Nat.{add-zero, add_assoc}
use kernel_sim.Memory.{
  Header, MemoryBlock, null, node, left_child, right_child, Pointer, is_taken, update_block,
  get_process_memory_segment,
}
use kernel_sim.Memory.Sized.{Sized, Grows, IsBlank}
use kernel_sim.Memory.Occupied.{leases, IsSeparate, leases-vacant}
use kernel_sim.Memory.Vacancy.{OpenAt}
use kernel_sim.Memory.Address.{offset}

-- No block carries the id.
abbrev pub IsUnknown : ℤ → MemoryBlock → Type 0
IsUnknown id null = Unit {0}
IsUnknown id (node b l r) = ((b.id_from_file ==ℤ id) ≡ false) × IsUnknown id l × IsUnknown id r

blank-IsUnknown :
    (id : ℤ) (t : MemoryBlock) → (minus_one ==ℤ id) ≡ false → IsBlank t → IsUnknown id t
blank-IsUnknown id null h b = tt
blank-IsUnknown id (node b l r) h ((_, e, _), bl, br) =
    (rw e h, blank-IsUnknown id l h bl, blank-IsUnknown id r h br)

pub grown-IsUnknown :
    (id : ℤ) (t u : MemoryBlock)
    → (minus_one ==ℤ id) ≡ false
    → Grows t u
    → IsUnknown id t
    → IsUnknown id u
grown-IsUnknown id null u h g k = blank-IsUnknown id u h g
grown-IsUnknown id (node b l r) null h g k = absurd g
grown-IsUnknown id (node b l r) (node c l' r') h (e, gl, gr) (k, kl, kr) =
    (rw e k, grown-IsUnknown id l l' h gl kl, grown-IsUnknown id r r' h gr kr)

module _ (id : ℤ) where
  search_unknown :
      (t : MemoryBlock) → IsUnknown id t → get_process_memory_segment t id minus_one ≡ none
  unfolding get_process_memory_segment
  search_unknown null k = refl
  search_unknown (node b l r) (k, kl, kr) =
      rw (search_unknown l kl, search_unknown r kr) (ground arith)

  -- The block that was just given the id is the one that the search by id finds.
  pub search_marked :
      (p : Pointer) (f : Header → Header) (b : Header) (t : MemoryBlock)
      → (minus_one ==ℤ id) ≡ false
      → IsUnknown id t
      → OpenAt p b t
      → (f b).id_from_file ≡ id
      → get_process_memory_segment (update_block p f t) id minus_one ≡ some p
  unfolding get_process_memory_segment update_block
  search_marked p f b null h k o e = absurd o
  search_marked [] f b (node c l r) h (k, kl, kr) (same, _, _, _) e =
      rw (same, e, ==ℤ_self id) (ground arith)
  search_marked (left_child ∷ p) f b (node c l r) h (k, kl, kr) (free, o) e =
      rw (search_marked p f b l h kl o e, k) (ground arith)
  search_marked (right_child ∷ p) f b (node c l r) h (k, kl, kr) (free, o) e =
      rw (search_unknown l kl, search_marked p f b r h kr o e, k) (ground arith)

pub update_twice :
    (p : Pointer) (f g : Header → Header) (t : MemoryBlock)
    → update_block p g (update_block p f t) ≡ update_block p (λ b. g (f b)) t
unfolding update_block
update_twice [] f g null = refl
update_twice (d ∷ p) f g null = refl
update_twice [] f g (node b l r) = refl
update_twice (left_child ∷ p) f g (node b l r) = ap (λ t. node b t r) (update_twice p f g l)
update_twice (right_child ∷ p) f g (node b l r) = ap (node b l) (update_twice p f g r)

module _ (f : Header → Header) (b : Header) (taken : is_taken (f b) ≡ true) where
  -- Taking an open block adds its lease.
  pub taken_perm :
      (p : Pointer) (base n : ℕ) (t : MemoryBlock)
      → Sized n t
      → OpenAt p b t
      → Perm (leases base (update_block p f t)) ((base + offset p n, f b) ∷ leases base t)
  unfolding update_block
  taken_perm p base n null s o = absurd o
  taken_perm [] base n (node c l r) s (same, free, vl, vr) =
      rw
        (
          same,
          taken,
          free,
          leases-vacant base l vl,
          leases-vacant (base + (f b).size / 2) r vr,
          leases-vacant (base + b.size / 2) r vr,
          add-zero,
        )
        Perm.rfl
  taken_perm (left_child ∷ p) base n (node c l r) (e, sl, sr) (free, o) =
      rw free (Perm.append_right _ (taken_perm p base (n / 2) l sl o))
  taken_perm (right_child ∷ p) base n (node c l r) (e, sl, sr) (free, o) =
      rw (free, e, ← add_assoc base (n / 2) (offset p (n / 2)))
        (Perm.trans (Perm.append_left (leases base l) (taken_perm p (base + n / 2) (n / 2) r sr o))
          (perm_middle (leases base l) (leases (base + n / 2) r)))

  pub taken-IsSeparate :
      (p : Pointer) (t : MemoryBlock)
      → IsSeparate t
      → OpenAt p b t
      → IsSeparate (update_block p f t)
  unfolding update_block
  taken-IsSeparate p null s o = absurd o
  taken-IsSeparate [] (node c l r) (s, sl, sr) (same, free, vl, vr) = ((λ h. (vl, vr)), sl, sr)
  taken-IsSeparate (left_child ∷ p) (node c l r) (s, sl, sr) (free, o) =
      ((λ h. absurd (ground arith)), taken-IsSeparate p l sl o, sr)
  taken-IsSeparate (right_child ∷ p) (node c l r) (s, sl, sr) (free, o) =
      ((λ h. absurd (ground arith)), sl, taken-IsSeparate p r sr o)
