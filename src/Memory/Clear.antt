-- ===== src/Memory/Clear.antt =====
-- Clearing the block of a process in `deallocate_memory`, before any buddies are merged.
use mathlib.Core.List.Perm
use mathlib.Core.List.{perm_middle}
use kernel_sim.Base.{
  ℕ, ◌+◌, ◌/◌, ◌≡◌, refl, ap, true, false, Bool, arith, [], ◌∷◌, Bool-cases, inl, inr, ◌⊎◌, Option,
  none, some, if◌then◌else◌, Perm,
}
use kernel_sim.Base.Int.{ℤ, pos, minus_one, ◌==ℤ◌, ==ℤ_sound, ◌≤ℤ◌}
use native.Mathlib.Nat.{add-zero, add_assoc}
use kernel_sim.Memory.{
  Header, MemoryBlock, null, node, left_child, right_child, Pointer, is_taken, update_block,
  block_at, get_process_memory_segment, has_key, first_of_children, cleared,
}
use kernel_sim.Memory.Sized.{Sized}
use kernel_sim.Memory.Occupied.{leases, IsVacant, IsSeparate, AllTaken}
use kernel_sim.Memory.Vacancy.{OpenAt}
use kernel_sim.Memory.Address.{offset}

-- The process that holds the block asked for at least one byte.
abbrev pub IsBooked : Header → Type 0
IsBooked b = pos 1 ≤ℤ b.allocated

abbrev pub IsOther : ℤ → Header → Type 0
IsOther pid b = (b.process_pid ==ℤ pid) ≡ false

-- The three ways in which the search finds a block.
search_cases :
    (k : Bool) (on_left on_right : Option Pointer) (p : Pointer)
    → (if k then some [] else first_of_children on_left on_right) ≡ some p
    → ((k ≡ true) × (p ≡ []))
      ⊎ (((q : Pointer) × (on_left ≡ some q) × (p ≡ left_child ∷ q))
          ⊎ ((q : Pointer) × (on_right ≡ some q) × (p ≡ right_child ∷ q)))
search_cases true a c p e = inl (refl, cc)
search_cases false (some q) c p e = inr (inl (q, refl, cc))
search_cases false none (some q) p e = inr (inr (q, refl, cc))
search_cases false none none p e = cc

search_none :
    (k : Bool) (on_left on_right : Option Pointer)
    → (if k then some [] else first_of_children on_left on_right) ≡ none
    → (k ≡ false) × (on_left ≡ none) × (on_right ≡ none)
search_none true a c e = cc
search_none false (some q) c e = cc
search_none false none (some q) e = cc
search_none false none none e = (refl, refl, refl)

module _ (pid : ℤ) (fresh : (pid ==ℤ minus_one) ≡ false) where
  has_key_pid : (b : Header) → has_key minus_one pid b ≡ true → b.process_pid ≡ pid
  has_key_pid b h = ==ℤ_sound b.process_pid pid (ground (arith, h, fresh))

  pub found_holds :
      (p : Pointer) (t : MemoryBlock)
      → get_process_memory_segment t minus_one pid ≡ some p
      → (b : Header) × (block_at p t ≡ some b) × (b.process_pid ≡ pid)
  unfolding get_process_memory_segment
  found_holds p null e = cc
  found_holds p (node b l r) e =
      elim (search_cases (has_key minus_one pid b) (get_process_memory_segment l minus_one pid)
        (get_process_memory_segment r minus_one pid) p e) [
          | inl (here, at) ↦ rw at (b, refl, has_key_pid b here)
          | inr (inl (q, found, at)) ↦ rw at (found_holds q l found)
          | inr (inr (q, found, at)) ↦ rw at (found_holds q r found)
        ]

  pub missing-IsOther :
      (t : MemoryBlock)
      → get_process_memory_segment t minus_one pid ≡ none
      → AllTaken (IsOther pid) t
  unfolding get_process_memory_segment
  missing-IsOther null e = tt
  missing-IsOther (node b l r) e =
      let (here, on_left, on_right) =
        search_none (has_key minus_one pid b) (get_process_memory_segment l minus_one pid)
          (get_process_memory_segment r minus_one pid) e in
      ((λ h. ground (arith, here, fresh)), missing-IsOther l on_left, missing-IsOther r on_right)

vacant_untaken :
    (p : Pointer) (t : MemoryBlock) {b : Header}
    → IsVacant t
    → block_at p t ≡ some b
    → is_taken b ≡ false
vacant_untaken [] null v e = cc
vacant_untaken (d ∷ p) null v e = cc
vacant_untaken [] (node c l r) {b = b} (free, _, _) e = let same : c ≡ b = cc in rw (← same) free
vacant_untaken (left_child ∷ p) (node c l r) (_, vl, _) e = vacant_untaken p l vl e
vacant_untaken (right_child ∷ p) (node c l r) (_, _, vr) e = vacant_untaken p r vr e

module _ (b : Header) (taken : is_taken b ≡ true) where
  untaken_above :
      (p : Pointer) (c : Header) (l r t : MemoryBlock)
      → (is_taken c ≡ true → IsVacant t)
      → block_at p t ≡ some b
      → is_taken c ≡ false
  untaken_above p c l r t s e = elim (Bool-cases (is_taken c)) [
    | inl above ↦ absurd (ground (arith, vacant_untaken p t (s above) e))
    | inr free ↦ free
  ]

  -- Clearing a held block leaves an open one.
  pub cleared-OpenAt :
      (p : Pointer) (t : MemoryBlock)
      → IsSeparate t
      → block_at p t ≡ some b
      → OpenAt p (cleared b) (update_block p cleared t)
  unfolding update_block
  cleared-OpenAt [] null s e = cc
  cleared-OpenAt (d ∷ p) null s e = cc
  cleared-OpenAt [] (node c l r) (s, _, _) e =
      let same : c ≡ b = cc in let (vl, vr) = s (rw same taken) in (ap cleared same, refl, vl, vr)
  cleared-OpenAt (left_child ∷ p) (node c l r) (s, sl, sr) e =
      (untaken_above p c l r l (λ h. (s h).0) e, cleared-OpenAt p l sl e)
  cleared-OpenAt (right_child ∷ p) (node c l r) (s, sl, sr) e =
      (untaken_above p c l r r (λ h. (s h).1) e, cleared-OpenAt p r sr e)

  -- Clearing a held block ends its lease.
  pub cleared_perm :
      (p : Pointer) (base n : ℕ) (t : MemoryBlock)
      → Sized n t
      → IsSeparate t
      → block_at p t ≡ some b
      → Perm (leases base t) ((base + offset p n, b) ∷ leases base (update_block p cleared t))
  unfolding update_block
  cleared_perm [] base n null s k e = cc
  cleared_perm (d ∷ p) base n null s k e = cc
  cleared_perm [] base n (node c l r) s k e =
      let same : c ≡ b = cc in rw (same, taken, add-zero) Perm.rfl
  cleared_perm (left_child ∷ p) base n (node c l r) (e, sl, sr) (k, kl, kr) at =
      rw (untaken_above p c l r l (λ h. (k h).0) at)
        (Perm.append_right _ (cleared_perm p base (n / 2) l sl kl at))
  cleared_perm (right_child ∷ p) base n (node c l r) (e, sl, sr) (k, kl, kr) at =
      rw (untaken_above p c l r r (λ h. (k h).1) at, e, ← add_assoc base (n / 2) (offset p (n / 2)))
        (Perm.trans
          (Perm.append_left (leases base l) (cleared_perm p (base + n / 2) (n / 2) r sr kr at))
          (perm_middle (leases base l) _))

pub cleared-AllTaken :
    (P : Header → Type 0) (p : Pointer) (t : MemoryBlock)
    → AllTaken P t
    → AllTaken P (update_block p cleared t)
unfolding update_block
cleared-AllTaken P [] null a = a
cleared-AllTaken P (d ∷ p) null a = a
cleared-AllTaken P [] (node c l r) (here, al, ar) = ((λ h. absurd (ground arith)), al, ar)
cleared-AllTaken P (left_child ∷ p) (node c l r) (here, al, ar) =
    (here, cleared-AllTaken P p l al, ar)
cleared-AllTaken P (right_child ∷ p) (node c l r) (here, al, ar) =
    (here, al, cleared-AllTaken P p r ar)

pub cleared-IsSeparate :
    (p : Pointer) (b : Header) (t : MemoryBlock)
    → OpenAt p (cleared b) (update_block p cleared t)
    → IsSeparate t
    → IsSeparate (update_block p cleared t)
unfolding update_block
cleared-IsSeparate p b null o s = s
cleared-IsSeparate [] b (node c l r) o (s, sl, sr) = ((λ h. absurd (ground arith)), sl, sr)
cleared-IsSeparate (left_child ∷ p) b (node c l r) (free, o) (s, sl, sr) =
    ((λ h. absurd (ground arith)), cleared-IsSeparate p b l o sl, sr)
cleared-IsSeparate (right_child ∷ p) b (node c l r) (free, o) (s, sl, sr) =
    ((λ h. absurd (ground arith)), sl, cleared-IsSeparate p b r o sr)
