-- ===== src/Memory/Merge.antt =====
-- Merging free buddies: `merge_buddy_blocks`.
use kernel_sim.Base.{
  ℕ, ◌+◌, ◌/◌, ◌≡◌, refl, true, false, Bool, arith, [], ◌∷◌, ◌&&◌, Bool-cases, inl, inr,
  if◌then◌else◌,
}
use kernel_sim.Memory.{
  Header, MemoryBlock, null, node, left_child, right_child, Pointer, is_free_leaf, merge_from,
}
use kernel_sim.Memory.Occupied.{leases, IsVacant, IsSeparate, AllTaken, leases-vacant}
use kernel_sim.Memory.Vacancy.{OpenAt}
use kernel_sim.Memory.Clear.{IsBooked}

-- A block without children that counts as free is vacant, if holders have asked for something.
free-IsVacant : (t : MemoryBlock) → AllTaken IsBooked t → is_free_leaf t ≡ true → IsVacant t
free-IsVacant null a h = tt
free-IsVacant (node b null null) (here, _, _) h = (ground (arith, here, h), tt, tt)
free-IsVacant (node b (node c l r) s) a h = cc
free-IsVacant (node b null (node c l r)) a h = cc

abbrev merged_or : MemoryBlock → MemoryBlock → Bool → MemoryBlock × Bool
merged_or t u merged = if merged then (t, true) else (u, false)

merged_flag :
    (t u : MemoryBlock) (reached leaf : Bool)
    → (merged_or t u (reached && leaf)).1 ≡ true
    → (reached ≡ true) × (leaf ≡ true)
merged_flag t u true true h = (refl, refl)
merged_flag t u true false h = absurd (ground (arith, h))
merged_flag t u false leaf h = absurd (ground (arith, h))

module _ (b : Header) where
  -- Where the calls have come to, all is vacant.
  reached-IsVacant :
      (p : Pointer) (t : MemoryBlock)
      → AllTaken IsBooked t
      → OpenAt p b t
      → (merge_from p t).1 ≡ true
      → IsVacant t
  unfolding merge_from
  reached-IsVacant p null a o h = absurd o
  reached-IsVacant [] (node c l r) a (same, free, vl, vr) h = (rw same free, vl, vr)
  reached-IsVacant (left_child ∷ p) (node c l r) (_, al, ar) (free, o) h =
      let (reached, leaf) =
        merged_flag (node c null null) (node c (merge_from p l).0 r) (merge_from p l).1
          (is_free_leaf r) h in
      (free, reached-IsVacant p l al o reached, free-IsVacant r ar leaf)
  reached-IsVacant (right_child ∷ p) (node c l r) (_, al, ar) (free, o) h =
      let (reached, leaf) =
        merged_flag (node c null null) (node c l (merge_from p r).0) (merge_from p r).1
          (is_free_leaf l) h in
      (free, free-IsVacant l al leaf, reached-IsVacant p r ar o reached)

  -- Merging frees blocks that nobody holds, so the leases stay.
  pub merged_leases :
      (p : Pointer) (base : ℕ) (t : MemoryBlock)
      → AllTaken IsBooked t
      → OpenAt p b t
      → leases base (merge_from p t).0 ≡ leases base t
  unfolding merge_from
  merged_leases p base null a o = absurd o
  merged_leases [] base (node c l r) a o = refl
  merged_leases (left_child ∷ p) base (node c l r) (here, al, ar) (free, o) =
      elim (Bool-cases ((merge_from p l).1 && is_free_leaf r)) [
        | inl merged ↦ rw (
          merged,
          free,
          leases-vacant base l (reached-IsVacant p l al o (ground (arith, merged))),
          leases-vacant (base + c.size / 2) r (free-IsVacant r ar (ground (arith, merged))),
        )
        | inr split ↦ rw (split, free, merged_leases p base l al o)
      ]
  merged_leases (right_child ∷ p) base (node c l r) (here, al, ar) (free, o) =
      elim (Bool-cases ((merge_from p r).1 && is_free_leaf l)) [
        | inl merged ↦ rw (
          merged,
          free,
          leases-vacant base l (free-IsVacant l al (ground (arith, merged))),
          leases-vacant (base + c.size / 2) r (reached-IsVacant p r ar o (ground (arith, merged))),
        )
        | inr split ↦ rw (split, free, merged_leases p (base + c.size / 2) r ar o)
      ]

  pub merged-IsSeparate :
      (p : Pointer) (t : MemoryBlock) → OpenAt p b t → IsSeparate t → IsSeparate (merge_from p t).0
  unfolding merge_from
  merged-IsSeparate p null o s = absurd o
  merged-IsSeparate [] (node c l r) o s = s
  merged-IsSeparate (left_child ∷ p) (node c l r) (free, o) (s, sl, sr) =
      elim (Bool-cases ((merge_from p l).1 && is_free_leaf r)) [
        | inl merged ↦ rw merged ((λ h. (tt, tt)), tt, tt)
        | inr split ↦ rw split ((λ h. absurd (ground arith)), merged-IsSeparate p l o sl, sr)
      ]
  merged-IsSeparate (right_child ∷ p) (node c l r) (free, o) (s, sl, sr) =
      elim (Bool-cases ((merge_from p r).1 && is_free_leaf l)) [
        | inl merged ↦ rw merged ((λ h. (tt, tt)), tt, tt)
        | inr split ↦ rw split ((λ h. absurd (ground arith)), sl, merged-IsSeparate p r o sr)
      ]
