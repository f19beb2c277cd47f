-- ===== src/Memory/Vacancy.antt =====
-- When the test of `traverse_MemorySegment` guarantees that no process holds a block below.
use kernel_sim.Base.{
  ℕ, ◌*◌, ◌/◌, ◌≤◌, ◌<◌, ◌≡◌, refl, true, false, arith, [], ◌∷◌, Bool-cases, inl, inr, ◌⊎◌, some,
  if◌then◌else◌,
}
use kernel_sim.Base.Int.{pos, ◌≤ℤ◌, ◌+ℤ◌, +ℤ_parts, -ℤ_parts}
use kernel_sim.Memory.{
  Header, MemoryBlock, null, node, left_child, right_child, Pointer, is_taken, left_used,
  right_used, get_used_space, fits, block_at,
}
use kernel_sim.Memory.Sized.{Sized}
use kernel_sim.Memory.Traverse.{Leads}
use kernel_sim.Memory.Occupied.{IsVacant, AllTaken}

-- The process that holds the block asked for at least one byte, and the block has at least half of
-- the size that is needed now.
pub record IsCharged (needed : ℕ) (b : Header) : Type 0 where
  pub charged : pos 1 ≤ℤ b.allocated
  pub large : needed ≤ 2 * b.size

module _ (needed : ℕ) where
  small-IsVacant :
      (n : ℕ) (t : MemoryBlock)
      → Sized n t
      → 2 * n < needed
      → AllTaken (IsCharged needed) t
      → IsVacant t
  small-IsVacant n null s h a = tt
  small-IsVacant n (node b l r) (e, sl, sr) h (here, al, ar) = (
    free (Bool-cases (is_taken b)),
    small-IsVacant (n / 2) l sl (omega arith) al,
    small-IsVacant (n / 2) r sr (omega arith) ar,
  )
    where
      free : (is_taken b ≡ true) ⊎ (is_taken b ≡ false) → is_taken b ≡ false
      free (inl taken) = absurd (omega (arith, here taken, e, h))
      free (inr f) = f

  left_used_nonneg : (t : MemoryBlock) → AllTaken (IsCharged needed) t → pos 0 ≤ℤ left_used t
  unfolding left_used
  left_used_nonneg null a = omega arith
  left_used_nonneg (node b l r) (here, al, ar) = ground (
    arith,
    here,
    left_used_nonneg l al,
    +ℤ_parts (if is_taken b then b.allocated else pos 0) (left_used l),
  )

  right_used_nonneg : (t : MemoryBlock) → AllTaken (IsCharged needed) t → pos 0 ≤ℤ right_used t
  unfolding right_used
  right_used_nonneg null a = omega arith
  right_used_nonneg (node b l r) (here, al, ar) = ground (
    arith,
    here,
    right_used_nonneg r ar,
    +ℤ_parts (if is_taken b then b.allocated else pos 0) (right_used r),
  )

  left-IsVacant :
      (n : ℕ) (t : MemoryBlock)
      → 0 < needed
      → n ≡ needed / 2
      → Sized n t
      → AllTaken (IsCharged needed) t
      → left_used t ≤ℤ pos 0
      → IsVacant t
  unfolding left_used
  left-IsVacant n null p q s a used = tt
  left-IsVacant n (node b l r) p q (e, sl, sr) (here, al, ar) used = (
    ground (
      arith,
      here,
      left_used_nonneg l al,
      +ℤ_parts (if is_taken b then b.allocated else pos 0) (left_used l),
    ),
    small-IsVacant (n / 2) l sl (omega arith) al,
    small-IsVacant (n / 2) r sr (omega arith) ar,
  )

  right-IsVacant :
      (n : ℕ) (t : MemoryBlock)
      → 0 < needed
      → n ≡ needed / 2
      → Sized n t
      → AllTaken (IsCharged needed) t
      → right_used t ≤ℤ pos 0
      → IsVacant t
  unfolding right_used
  right-IsVacant n null p q s a used = tt
  right-IsVacant n (node b l r) p q (e, sl, sr) (here, al, ar) used = (
    ground (
      arith,
      here,
      right_used_nonneg r ar,
      +ℤ_parts (if is_taken b then b.allocated else pos 0) (right_used r),
    ),
    small-IsVacant (n / 2) l sl (omega arith) al,
    small-IsVacant (n / 2) r sr (omega arith) ar,
  )

-- The pointer leads past free blocks to the free block `b`, below which all is free.
abbrev pub OpenAt : Pointer → Header → MemoryBlock → Type 0
OpenAt p b null = ⊥
OpenAt [] b (node c l r) = (c ≡ b) × (is_taken b ≡ false) × IsVacant l × IsVacant r
OpenAt (left_child ∷ p) b (node c l r) = (is_taken c ≡ false) × OpenAt p b l
OpenAt (right_child ∷ p) b (node c l r) = (is_taken c ≡ false) × OpenAt p b r

pub fits_lem :
    (b : Header) (l r : MemoryBlock) (needed : ℕ)
    → fits b l r needed ≡ true
    → (b.size ≡ needed) × (left_used l +ℤ right_used r ≤ℤ pos 0)
unfolding fits get_used_space
fits_lem b l r needed h = ground (arith, h, -ℤ_parts (pos b.size) (left_used l +ℤ right_used r))

pub Leads-OpenAt :
    (needed : ℕ) (p : Pointer) (n : ℕ) (t : MemoryBlock)
    → 0 < needed
    → Sized n t
    → AllTaken (IsCharged needed) t
    → Leads needed p t
    → (b : Header) × (b.size ≡ needed) × (block_at p t ≡ some b) × OpenAt p b t
Leads-OpenAt needed p n null h s a leads = absurd leads
Leads-OpenAt needed [] n (node b l r) h (e, sl, sr) (here, al, ar) (free, fit) =
    let (size, used) = fits_lem b l r needed fit in
    let le = left_used_nonneg needed l al in
    let re = right_used_nonneg needed r ar in
    let half : n / 2 ≡ needed / 2 = omega arith in
    (
      b,
      size,
      refl,
      (
        refl,
        rw free,
        left-IsVacant needed (n / 2) l h half sl al (omega (arith, used, le, re, +ℤ_parts)),
        right-IsVacant needed (n / 2) r h half sr ar (omega (arith, used, le, re, +ℤ_parts)),
      ),
    )
Leads-OpenAt needed (left_child ∷ p) n (node c l r) h (e, sl, sr) (here, al, ar) (free, leads) =
    let (b, size, at, found) = Leads-OpenAt needed p (n / 2) l h sl al leads in
    (b, size, at, (rw free, found))
Leads-OpenAt needed (right_child ∷ p) n (node c l r) h (e, sl, sr) (here, al, ar) (free, leads) =
    let (b, size, at, found) = Leads-OpenAt needed p (n / 2) r h sr ar leads in
    (b, size, at, (rw free, found))
