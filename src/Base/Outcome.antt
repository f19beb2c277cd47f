-- ===== src/Base/Outcome.antt =====
-- How a piece of C code ends: with a value, with a memory access outside its array or another
-- undefined operation, with `exit` and a status of failure, or, in the model only, with a loop that
-- has used up its fuel.
use mathlib.Core.Path.{◌≡◌, refl}
use mathlib.Core.Bool.{Bool, true, false}
use kernel_sim.Base.Tests.{if◌then◌else◌}

pub data Outcome {ℓ} (A : Type ℓ) : Type ℓ where
  done : A → Outcome A
  fault exited exhausted : Outcome A

infixl 5 ◌>>=◌
abbrev pub ◌>>=◌ {ℓ κ} : {A : Type ℓ} {B : Type κ} → Outcome A → (A → Outcome B) → Outcome B
done a >>= f = f a
fault >>= f = fault
exited >>= f = exited
exhausted >>= f = exhausted

-- The code ends normally, and its value satisfies `P`.
pub data Ends {ℓ κ} {A : Type ℓ} (P : A → Type κ) : Outcome A → Type (ℓ ⊔ κ) where
  ends : {a : A} → P a → Ends P (done a)

module _ {ℓ κ} {A : Type ℓ} {P : A → Type κ} where
  pub Ends-then {ℓ' κ'} :
      {B : Type ℓ'} {Q : B → Type κ'} {m : Outcome A} {f : A → Outcome B}
      → Ends P m
      → ((a : A) → P a → Ends Q (f a))
      → Ends Q (m >>= f)
  Ends-then (ends p) rest = rest _ p

  pub Ends-weaken {κ'} :
      {Q : A → Type κ'} {m : Outcome A} → Ends P m → ((a : A) → P a → Q a) → Ends Q m
  Ends-weaken (ends p) f = ends (f _ p)

  pub Ends-branch :
      {x y : Outcome A} (b : Bool)
      → (b ≡ true → Ends P x)
      → (b ≡ false → Ends P y)
      → Ends P (if b then x else y)
  Ends-branch true yes_case no_case = yes_case refl
  Ends-branch false yes_case no_case = no_case refl

  pub Ends-value : {m : Outcome A} → Ends P m → (a : A) × (m ≡ done a) × P a
  Ends-value (ends p) = (_, refl, p)

  pub Ends-both {κ'} :
      {Q : A → Type κ'} {m : Outcome A} → Ends P m → Ends Q m → Ends (λ a. P a × Q a) m
  Ends-both (ends p) (ends q) = ends (p, q)

  pub ended : {a : A} → Ends P (done a) → P a
  ended (ends p) = p

-- A sequence that ends with a value goes through a value of its first part.
pub done_through {ℓ κ} :
    {A : Type ℓ} {B : Type κ} (m : Outcome A) (f : A → Outcome B) {b : B}
    → (m >>= f) ≡ done b
    → (a : A) × (m ≡ done a) × (f a ≡ done b)
done_through (done a) f e = (a, refl, e)
done_through fault f e = cc
done_through exited f e = cc
done_through exhausted f e = cc

pub done_value {ℓ} : {A : Type ℓ} {a b : A} → done a ≡ done b → a ≡ b
done_value e = cc

-- When a sequence ends well, so does its first part, and its second part on the value of the first.
pub Ends-first {ℓ κ κ' κ''} :
    {A : Type ℓ} {B : Type κ} {C : Type ℓ} {P : B → Type κ'} {Q : C → Type κ''} (m : Outcome A)
    (f : A → Outcome B) (k : A → Outcome C)
    → Ends P (m >>= f)
    → ((a : A) → Ends P (f a) → Ends Q (k a))
    → Ends Q (m >>= k)
Ends-first (done a) f k e rest = rest a e
Ends-first fault f k e rest = elim e [ ]
Ends-first exited f k e rest = elim e [ ]
Ends-first exhausted f k e rest = elim e [ ]
