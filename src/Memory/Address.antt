-- ===== src/Memory/Address.antt =====
-- The address that `get_block_address` computes is where the path leads.
use kernel_sim.Base.{ℕ, ◌+◌, ◌/◌, ◌≡◌, refl, ap, ◌∙◌, true, false, arith, [], ◌∷◌, none, some}
use native.Mathlib.Nat.{zero-add}
use kernel_sim.Base.Int.{pos, ◌+ℤ◌, ◌-ℤ◌}
use kernel_sim.Memory.{
  Header, MemoryBlock, null, node, left_child, right_child, Pointer, block_at, is_in_subtree,
  base_from, get_block_address,
}
use kernel_sim.Memory.Sized.{Sized}

-- The distance from the start of a block of size `n` to the block that a path below it leads to.
abbrev pub offset : Pointer → ℕ → ℕ
offset [] n = 0
offset (left_child ∷ p) n = offset p (n / 2)
offset (right_child ∷ p) n = n / 2 + offset p (n / 2)

elsewhere : (t : MemoryBlock) → is_in_subtree t none ≡ false
unfolding is_in_subtree
elsewhere null = refl
elsewhere (node b l r) = rw (elsewhere l, elsewhere r)

below :
    (p : Pointer) (t : MemoryBlock) {b : Header}
    → block_at p t ≡ some b
    → is_in_subtree t (some p) ≡ true
unfolding is_in_subtree
below [] null e = cc
below (d ∷ p) null e = cc
below [] (node c l r) e = refl
below (left_child ∷ p) (node c l r) e = rw (below p l e)
below (right_child ∷ p) (node c l r) e = rw (elsewhere l, below p r e)

base_from-offset :
    (p : Pointer) (t : MemoryBlock) (base n : ℕ) {b : Header}
    → block_at p t ≡ some b
    → base_from t (some p) base n ≡ some (base + offset p n)
unfolding base_from
base_from-offset [] null base n e = cc
base_from-offset (d ∷ p) null base n e = cc
base_from-offset [] (node c l r) base n e = ap some (omega arith)
base_from-offset (left_child ∷ p) (node c l r) base n e =
    rw (below p l e) (base_from-offset p l base (n / 2) e)
base_from-offset (right_child ∷ p) (node c l r) base n e =
    rw (elsewhere l, below p r e)
      (base_from-offset p r (base + n / 2) (n / 2) e ∙ ap some (omega arith))

-- In a segment whose sizes halve, the address computed for a block by searching subtrees is the
-- sum of the halves to the left of its path, and its end is its size less one further.
pub get_block_address-offset :
    (p : Pointer) (t : MemoryBlock) (n : ℕ) (b : Header)
    → Sized n t
    → block_at p t ≡ some b
    → get_block_address t p
      ≡ record { start = pos (offset p n); end = pos (offset p n) +ℤ pos b.size -ℤ pos 1 }
unfolding get_block_address
get_block_address-offset p null n b s e = cc
get_block_address-offset p (node c l r) n b (size, _, _) e =
    rw (e, size, base_from-offset p (node c l r) 0 n e, zero-add)
