-- ===== src/Base/Array.antt =====
-- C arrays as lists under native indices. A read or a write outside the array is a fault.
use Prim.Native.Nat.{ℕ, zero, suc, ◌+◌, ◌-◌, ◌≤◌, ◌<◌, min}
use mathlib.Core.Path.{◌≡◌, refl, ap}
use mathlib.Core.List.{
  List, [], ◌∷◌, ◌++◌, Mem, Perm, foldr, mem-cons, mem-cons_self, mem-cons_of_mem, not-mem-nil,
}
use mathlib.Core.Logic.Or
use mathlib.Core.List.Perm
use mathlib.Core.Option.{Option, none, some}
use native.Mathlib.Nat.{ℕ_set}
use native.Mathlib.Omega.{arith}
use kernel_sim.Base.Tests.{ltb, ◌==◌, if◌then◌else◌, lt→ltb}
use kernel_sim.Base.Outcome.{Outcome, done, fault}

module _ {ℓ} {A : Type ℓ} where
  abbrev pub length : List A → ℕ
  length [] = 0
  length (x ∷ xs) = suc (length xs)

  abbrev pub get_elem? : List A → ℕ → Option A
  get_elem? [] _ = none
  get_elem? (x ∷ _) zero = some x
  get_elem? (x ∷ xs) (suc i) = get_elem? xs i

  abbrev pub get_or : List A → ℕ → A → A
  get_or [] _ d = d
  get_or (x ∷ _) zero _ = x
  get_or (_ ∷ xs) (suc i) d = get_or xs i d

  abbrev pub set : List A → ℕ → A → List A
  set [] _ _ = []
  set (_ ∷ xs) zero v = v ∷ xs
  set (x ∷ xs) (suc i) v = x ∷ set xs i v

  abbrev pub take : ℕ → List A → List A
  take zero _ = []
  take (suc n) [] = []
  take (suc n) (x ∷ xs) = x ∷ take n xs

  abbrev pub drop : ℕ → List A → List A
  drop zero xs = xs
  drop (suc n) [] = []
  drop (suc n) (_ ∷ xs) = drop n xs

  -- `a[i]` as a value, and `a[i] = v`
  unfoldable pub load : List A → ℕ → Outcome A
  load a i = elim (get_elem? a i) [ none ↦ fault | some x ↦ done x ]

  unfoldable pub store : List A → ℕ → A → Outcome (List A)
  store a i v = if ltb i (length a) then done (set a i v) else fault

  pub length-append : (xs ys : List A) → length (xs ++ ys) ≡ length xs + length ys
  length-append [] ys = omega arith
  length-append (x ∷ xs) ys = omega (arith, length-append xs ys)

  count-foldr : (xs : List A) → foldr (λ _ n. suc n) 0 xs ≡ length xs
  count-foldr [] = refl
  count-foldr (x ∷ xs) = ap suc (count-foldr xs)

  pub length-Perm : {xs ys : List A} → Perm xs ys → length xs ≡ length ys
  length-Perm {xs = xs} {ys = ys} p =
      rw (← count-foldr xs, ← count-foldr ys)
        (Perm.foldr-eq ℕ_set (λ _ n. suc n) (λ a b n. refl) p 0)

  pub length-set : (xs : List A) (i : ℕ) (v : A) → length (set xs i v) ≡ length xs
  length-set [] i v = refl
  length-set (x ∷ xs) zero v = refl
  length-set (x ∷ xs) (suc i) v = ap suc (length-set xs i v)

  pub length-take : (n : ℕ) (xs : List A) → length (take n xs) ≡ min n (length xs)
  length-take zero xs = omega arith
  length-take (suc n) [] = omega arith
  length-take (suc n) (x ∷ xs) = omega (arith, length-take n xs)

  pub length-drop : (n : ℕ) (xs : List A) → length (drop n xs) ≡ length xs - n
  length-drop zero xs = omega arith
  length-drop (suc n) [] = omega arith
  length-drop (suc n) (x ∷ xs) = omega (arith, length-drop n xs)

  pub take-append : (n : ℕ) (xs ys : List A) → length xs ≡ n → take n (xs ++ ys) ≡ xs
  take-append zero [] ys h = refl
  take-append zero (x ∷ xs) ys h = absurd (omega arith)
  take-append (suc n) [] ys h = absurd (omega arith)
  take-append (suc n) (x ∷ xs) ys h = ap (◌∷◌ x) (take-append n xs ys (omega arith))

  pub load-get_or : (xs : List A) (i : ℕ) (d : A) → i < length xs → load xs i ≡ done (get_or xs i d)
  unfolding load
  load-get_or [] i d h = absurd (omega arith)
  load-get_or (x ∷ xs) zero d h = refl
  load-get_or (x ∷ xs) (suc i) d h = load-get_or xs i d (omega arith)

  pub load-fault : (xs : List A) (i : ℕ) → length xs ≤ i → load xs i ≡ fault
  unfolding load
  load-fault [] i h = refl
  load-fault (x ∷ xs) zero h = absurd (omega arith)
  load-fault (x ∷ xs) (suc i) h = load-fault xs i (omega arith)

  pub store-set : (xs : List A) (i : ℕ) (v : A) → i < length xs → store xs i v ≡ done (set xs i v)
  unfolding store
  store-set xs i v h = rw (lt→ltb i (length xs) h)

  pub get_or-set :
      (xs : List A) (i j : ℕ) (v d : A)
      → i < length xs
      → get_or (set xs i v) j d ≡ (if i == j then v else get_or xs j d)
  get_or-set [] i j v d h = absurd (omega arith)
  get_or-set (x ∷ xs) zero zero v d h = refl
  get_or-set (x ∷ xs) (suc i) (suc j) v d h = ground (arith, get_or-set xs i j v d)
  get_or-set (x ∷ xs) i j v d h = ground arith

  pub get_or-set_same :
      (xs : List A) (i : ℕ) (v d : A) → i < length xs → get_or (set xs i v) i d ≡ v
  get_or-set_same xs i v d h = ground (arith, get_or-set xs i i v d h)

  pub get_or-set_other :
      (xs : List A) (i j : ℕ) (v d : A)
      → i < length xs
      → j < i
      → get_or (set xs i v) j d ≡ get_or xs j d
  get_or-set_other xs i j v d h apart = ground (arith, get_or-set xs i j v d h)

  pub get_or-take : (n i : ℕ) (xs : List A) (d : A) → i < n → get_or (take n xs) i d ≡ get_or xs i d
  get_or-take zero i xs d h = absurd (omega arith)
  get_or-take (suc n) i [] d h = refl
  get_or-take (suc n) zero (x ∷ xs) d h = refl
  get_or-take (suc n) (suc i) (x ∷ xs) d h = get_or-take n i xs d (omega arith)

  -- Writing inside the first `n` entries writes inside their list.
  pub take-set : (n i : ℕ) (xs : List A) (v : A) → i < n → take n (set xs i v) ≡ set (take n xs) i v
  take-set zero i xs v h = absurd (omega arith)
  take-set (suc n) i [] v h = refl
  take-set (suc n) zero (x ∷ xs) v h = refl
  take-set (suc n) (suc i) (x ∷ xs) v h = ap (◌∷◌ x) (take-set n i xs v (omega arith))

  -- The first `n + 1` entries are the first `n` and the entry at `n`.
  pub take-suc :
      (n : ℕ) (xs : List A) (d : A)
      → n < length xs
      → take (suc n) xs ≡ take n xs ++ get_or xs n d ∷ []
  take-suc n [] d h = absurd (omega arith)
  take-suc zero (x ∷ xs) d h = refl
  take-suc (suc n) (x ∷ xs) d h = ap (◌∷◌ x) (take-suc n xs d (omega arith))

  -- Writing past the first `n` entries leaves them alone.
  pub take-set_above : (n i : ℕ) (xs : List A) (v : A) → n ≤ i → take n (set xs i v) ≡ take n xs
  take-set_above zero i xs v h = refl
  take-set_above (suc n) i [] v h = refl
  take-set_above (suc n) zero (x ∷ xs) v h = absurd (omega arith)
  take-set_above (suc n) (suc i) (x ∷ xs) v h = ap (◌∷◌ x) (take-set_above n i xs v (omega arith))

  -- A write trades the entry that it replaces for the one that it stores.
  pub set-perm :
      (xs : List A) (i : ℕ) (v d : A) → i < length xs → Perm (get_or xs i d ∷ set xs i v) (v ∷ xs)
  set-perm [] i v d h = absurd (omega arith)
  set-perm (x ∷ xs) zero v d h = Perm.swap v x xs
  set-perm (x ∷ xs) (suc i) v d h =
      Perm.trans (Perm.swap x _ _)
        (Perm.trans (Perm.cons x (set-perm xs i v d (omega arith))) (Perm.swap v x xs))

-- What holds at each of the first `n` entries holds of each member of their list.
pub take-all {ℓ κ} :
    {A : Type ℓ} (P : A → Type κ)
    → ((x : A) → IsProp (P x))
    → (n : ℕ) (xs : List A) (d : A) → n ≤ length xs
    → ((i : ℕ) → i < n → P (get_or xs i d))
    → (x : A) → Mem x (take n xs)
    → P x
take-all P prop zero xs d h all x m = absurd (not-mem-nil m)
take-all P prop (suc n) [] d h all x m = absurd (not-mem-nil m)
take-all P prop (suc n) (y ∷ xs) d h all x m =
    Or.elim (prop x) (mem-cons.0 m) (λ e. rw e (all 0 (omega arith)))
      (take-all P prop n xs d (omega arith) (λ i p. all (suc i) (omega arith)) x)

pub mem-take {ℓ} :
    {A : Type ℓ} (n : ℕ) (xs : List A) (i : ℕ) (d : A)
    → i < n
    → n ≤ length xs
    → Mem (get_or xs i d) (take n xs)
mem-take zero xs i d p h = absurd (omega arith)
mem-take (suc n) [] i d p h = absurd (omega arith)
mem-take (suc n) (x ∷ xs) zero d p h = mem-cons_self
mem-take (suc n) (x ∷ xs) (suc i) d p h =
    mem-cons_of_mem x (mem-take n xs i d (omega arith) (omega arith))

-- The entries `i` and `j` exchanged, and the C function that does it.
module _ {ℓ} {A : Type ℓ} where
  abbrev pub exchanged : List A → ℕ → ℕ → A → List A
  exchanged xs i j d = set (set xs i (get_or xs j d)) j (get_or xs i d)

  pub length-exchanged : (xs : List A) (i j : ℕ) (d : A) → length (exchanged xs i j d) ≡ length xs
  length-exchanged xs i j d = simp length-set

  pub get_or-exchanged :
      (xs : List A) (i j k : ℕ) (d : A)
      → i < length xs
      → j < length xs
      → get_or (exchanged xs i j d) k d
        ≡ (if j == k then get_or xs i d else if i == k then get_or xs j d else get_or xs k d)
  get_or-exchanged xs i j k d hi hj = rw (
    get_or-set (set xs i (get_or xs j d)) j k (get_or xs i d) d (rw length-set hj),
    get_or-set xs i k (get_or xs j d) d hi,
  )

  exchanged_perm :
      (xs : List A) (i j : ℕ) (d : A) → i < length xs → j < length xs → Perm (exchanged xs i j d) xs
  exchanged_perm xs i j d hi hj =
      let mid = set xs i (get_or xs j d) in
      let same : get_or mid j d ≡ get_or xs j d =
        ground (arith, get_or-set xs i j (get_or xs j d) d) in
      Perm.cons_inv (
        Perm.trans (rw same at (set-perm mid j (get_or xs i d) d (rw length-set hj)))
          (set-perm xs i (get_or xs j d) d hi))

  -- Exchanging two of the first `n` entries permutes them.
  pub take-exchanged-perm :
      (n : ℕ) (xs : List A) (i j : ℕ) (d : A)
      → i < n
      → j < n
      → n ≤ length xs
      → Perm (take n (exchanged xs i j d)) (take n xs)
  take-exchanged-perm n xs i j d hi hj hn =
      let size = length-take n xs in
      rw
        (
          take-set n j (set xs i (get_or xs j d)) (get_or xs i d) hj,
          take-set n i xs (get_or xs j d) hi,
          ← get_or-take n i xs d hi,
          ← get_or-take n j xs d hj,
        )
        (exchanged_perm (take n xs) i j d (omega arith) (omega arith))

-- An array of `n` equal entries.
abbrev pub replicate {ℓ} : {A : Type ℓ} → ℕ → A → List A
replicate zero x = []
replicate (suc n) x = x ∷ replicate n x

pub length-replicate {ℓ} : {A : Type ℓ} (n : ℕ) (x : A) → length (replicate n x) ≡ n
length-replicate zero x = refl
length-replicate (suc n) x = ap suc (length-replicate n x)
