-- ===== src/Base/Interleaves.antt =====
-- A list dealt into two, each part in the order of the whole.
use mathlib.Core.List.{List, [], ◌∷◌, ◌++◌, Perm, perm_middle}
use mathlib.Core.List.Perm

pub data Interleaves {A : Type 0} : List A → List A → List A → Type 0 where
  none_left : Interleaves [] [] []
  to_first : (x : A) {xs ys zs : List A} → Interleaves xs ys zs → Interleaves (x ∷ xs) ys (x ∷ zs)
  to_second : (y : A) {xs ys zs : List A} → Interleaves xs ys zs → Interleaves xs (y ∷ ys) (y ∷ zs)

pub Interleaves_perm : {A : Type 0} {xs ys zs : List A} → Interleaves xs ys zs → Perm (xs ++ ys) zs
Interleaves_perm none_left = Perm.rfl
Interleaves_perm (to_first x i) = Perm.cons x (Interleaves_perm i)
Interleaves_perm {xs = xs} (to_second y {ys = ys} i) =
    Perm.trans (perm_middle xs ys) (Perm.cons y (Interleaves_perm i))
