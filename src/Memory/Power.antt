-- ===== src/Memory/Power.antt =====
-- `highestPowerOf2` is the least power of two that is not below its argument.
use native.Mathlib.Nat.{pow-suc, pow-le-pow_right}
use kernel_sim.Base.{
  ℕ, zero, suc, ◌+◌, ◌*◌, ◌^◌, ◌≤◌, ◌<◌, ◌≡◌, refl, ◌⊎◌, inl, inr, false, arith, ltb, ltb→lt,
  lt→ltb, le→ltb, Bool-cases, ◌∙◌, ap, sym,
}
use kernel_sim.Base.Int.{pos, leb_ℤ}
use native.Mathlib.Decide.{dec_lt}
use kernel_sim.Base.Outcome.{Ends, ends, fault}
use kernel_sim.Memory.{power_from, highest_power_of_2}

abbrev pub IsPowerOf2 : ℕ → Type 0
IsPowerOf2 p = (k : ℕ) × (p ≡ 2 ^ k)

-- `p` is a power of two, not below `x`, and its half is below `x`.
pub record IsLeastPower (x p : ℕ) : Type 0 where
  pub power : IsPowerOf2 p
  pub reaches : x ≤ p
  pub least : (p ≡ 1) ⊎ (p < 2 * x)

double-IsPowerOf2 : (p : ℕ) → IsPowerOf2 p → IsPowerOf2 (p * 2)
double-IsPowerOf2 p (k, e) = (suc k, ap (λ t. t * 2) e ∙ sym (pow-suc 2 k))

stop : (power x : ℕ) → x ≤ power → ltb power x ≡ false
stop power x h = le→ltb power x h

power_from-IsLeastPower :
    (fuel power x : ℕ)
    → IsPowerOf2 power
    → (power ≡ 1) ⊎ (power < 2 * x)
    → x ≤ 2 ^ 30
    → x ≤ power * 2 ^ fuel
    → Ends (IsLeastPower x) (power_from (suc fuel) power x)
unfolding power_from
power_from-IsLeastPower zero power x k least small enough =
    rw (stop power x (omega arith))
      (ends (record { power = k; reaches = omega arith; least = least }))
power_from-IsLeastPower (suc fuel) power x k least small enough = elim (Bool-cases (ltb power x)) [
  | inr done_now ↦ rw done_now (ends (record { power = k; reaches = ground arith; least = least }))
  | inl more ↦
      let below : power < x = ltb→lt power x more in
      rw (more, lt→ltb (power * 2) (2 ^ 31) (omega arith))
        (power_from-IsLeastPower fuel (power * 2) x (double-IsPowerOf2 power k) (inr (omega arith))
          small (omega (arith, ap (λ t. power * t) (pow-suc 2 fuel))))
]

unsigned : (x : ℕ) → leb_ℤ (pos (suc x)) (pos 0) ≡ false
unsigned x = ground arith

-- For at most 2 ^ 30 bytes highestPowerOf2 ends with a power of two that is not below the request
-- and is 1 or less than twice the request.
pub highest_power_of_2-IsLeastPower :
    (x : ℕ) → x ≤ 2 ^ 30 → Ends (IsLeastPower x) (highest_power_of_2 (pos x))
unfolding highest_power_of_2
highest_power_of_2-IsLeastPower zero h =
    ends (record { power = (0, refl); reaches = omega arith; least = inl refl })
highest_power_of_2-IsLeastPower (suc x) h =
    rw (unsigned x) (power_from-IsLeastPower 31 1 (suc x) (0, refl) (inl refl) h (omega arith))

power_from-fault :
    (fuel k x : ℕ) → k ≤ 30 → 31 ≤ k + fuel → 2 ^ 30 < x → power_from fuel (2 ^ k) x ≡ fault
unfolding power_from
power_from-fault zero k x e f h = absurd (omega arith)
power_from-fault (suc fuel) k x e f h =
    let below : 2 ^ k < x = omega (arith, pow-le-pow_right {n = 2} (omega arith) e) in
    rw (lt→ltb (2 ^ k) x below) (elim (dec_lt k 30) [
      | yes more ↦
          let next : suc k ≤ 30 = omega arith in
          let small : 2 ^ k * 2 < 2 ^ 31 =
            omega (arith, pow-suc 2 k, pow-le-pow_right {n = 2} (omega arith) next) in
          rw (lt→ltb (2 ^ k * 2) (2 ^ 31) small, ← pow-suc 2 k)
            (power_from-fault fuel (suc k) x more (omega arith) h)
      | no last ↦ let end : k ≡ 30 = omega arith in rw end refl
    ])

-- For more than 2 ^ 30 bytes the doubling in highestPowerOf2 leaves the range of an int.
pub highest_power_of_2-fault : (x : ℕ) → 2 ^ 30 < x → highest_power_of_2 (pos x) ≡ fault
unfolding highest_power_of_2
highest_power_of_2-fault zero h = absurd (omega arith)
highest_power_of_2-fault (suc x) h =
    rw (unsigned x) (power_from-fault 32 0 (suc x) (omega arith) (omega arith) h)
