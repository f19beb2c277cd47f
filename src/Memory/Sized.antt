-- ===== src/Memory/Sized.antt =====
-- The sizes in the tree: each child has half the size of its parent.
use kernel_sim.Base.{ℕ, ◌/◌, ◌≡◌, refl, arith, Option-cases, [], ◌∷◌, ◌&&◌, Bool-cases, inl, inr}
use kernel_sim.Base.Int.{ℤ, pos, minus_one}
use kernel_sim.Memory.{
  Header, MemoryBlock, null, node, left_child, right_child, Pointer, or_new, update_block,
  merge_from, merge_buddy_blocks, initialize_memory_block, is_free_leaf, cleared, deallocate_memory,
  get_process_memory_segment,
}

abbrev pub Sized : ℕ → MemoryBlock → Type 0
Sized n null = Unit {0}
Sized n (node b l r) = (b.size ≡ n) × Sized (n / 2) l × Sized (n / 2) r

pub or_new-Sized : (n : ℕ) (t : MemoryBlock) → Sized n t → Sized n (or_new t n)
or_new-Sized n null s = (refl, tt, tt)
or_new-Sized n (node b l r) s = s

-- A block that nobody has been given, with all below it.
abbrev pub IsBlank : MemoryBlock → Type 0
IsBlank null = Unit {0}
IsBlank (node b l r) =
    ((b.process_pid ≡ minus_one) × (b.id_from_file ≡ minus_one) × (b.allocated ≡ pos 0))
    × IsBlank l
    × IsBlank r

-- `u` is `t` with blank blocks where `t` has none.
abbrev pub Grows : MemoryBlock → MemoryBlock → Type 0
Grows null u = IsBlank u
Grows (node b l r) null = ⊥
Grows (node b l r) (node c l' r') = (c ≡ b) × Grows l l' × Grows r r'

pub Grows-self : (t : MemoryBlock) → Grows t t
Grows-self null = tt
Grows-self (node b l r) = (refl, Grows-self l, Grows-self r)

grown-IsBlank : (t u : MemoryBlock) → IsBlank t → Grows t u → IsBlank u
grown-IsBlank null u b g = g
grown-IsBlank (node b l r) null s g = absurd g
grown-IsBlank (node b l r) (node c l' r') (s, sl, sr) (e, gl, gr) =
    (rw e s, grown-IsBlank l l' sl gl, grown-IsBlank r r' sr gr)

pub or_new-Grows : (n : ℕ) (t u : MemoryBlock) → Grows (or_new t n) u → Grows t u
or_new-Grows n null u g = grown-IsBlank (initialize_memory_block n) u ((refl, refl, refl), tt, tt) g
or_new-Grows n (node b l r) u g = g

-- Changing a block but not its size keeps the sizes.
pub update_block-Sized :
    (p : Pointer) (f : Header → Header) (n : ℕ) (t : MemoryBlock)
    → ((b : Header) → (f b).size ≡ b.size)
    → Sized n t
    → Sized n (update_block p f t)
unfolding update_block
update_block-Sized [] f n null keep s = s
update_block-Sized (d ∷ p) f n null keep s = s
update_block-Sized [] f n (node b l r) keep (e, sl, sr) = (ground (arith, keep b), sl, sr)
update_block-Sized (left_child ∷ p) f n (node b l r) keep (e, sl, sr) =
    (e, update_block-Sized p f (n / 2) l keep sl, sr)
update_block-Sized (right_child ∷ p) f n (node b l r) keep (e, sl, sr) =
    (e, sl, update_block-Sized p f (n / 2) r keep sr)

merge_from-Sized : (p : Pointer) (n : ℕ) (t : MemoryBlock) → Sized n t → Sized n (merge_from p t).0
unfolding merge_from
merge_from-Sized [] n null s = s
merge_from-Sized (d ∷ p) n null s = s
merge_from-Sized [] n (node b l r) s = s
merge_from-Sized (left_child ∷ p) n (node b l r) (e, sl, sr) =
    elim (Bool-cases ((merge_from p l).1 && is_free_leaf r)) [
      | inl merged ↦ rw merged (e, tt, tt)
      | inr split ↦ rw split (e, merge_from-Sized p (n / 2) l sl, sr)
    ]
merge_from-Sized (right_child ∷ p) n (node b l r) (e, sl, sr) =
    elim (Bool-cases ((merge_from p r).1 && is_free_leaf l)) [
      | inl merged ↦ rw merged (e, tt, tt)
      | inr split ↦ rw split (e, sl, merge_from-Sized p (n / 2) r sr)
    ]

pub merge_buddy_blocks-Sized :
    (p : Pointer) (n : ℕ) (t : MemoryBlock) → Sized n t → Sized n (merge_buddy_blocks p t)
unfolding merge_buddy_blocks
merge_buddy_blocks-Sized p n t s = merge_from-Sized p n t s

pub deallocate_memory-Sized :
    (root : MemoryBlock) (pid time : ℤ) (n : ℕ)
    → Sized n root
    → Sized n (deallocate_memory root pid time).root
unfolding deallocate_memory
deallocate_memory-Sized root pid time n sized =
    elim (Option-cases (get_process_memory_segment root minus_one pid)) [
      | inl missing ↦ rw (missing, deallocate_memory) sized
      | inr (p, found) ↦
          rw (found, deallocate_memory)
            (merge_buddy_blocks-Sized p n (update_block p cleared root)
              (update_block-Sized p cleared n root (λ c. refl) sized))
    ]
