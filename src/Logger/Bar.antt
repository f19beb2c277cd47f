-- ===== src/Logger/Bar.antt =====
-- The progress bar shows the share that is done.
use native.Mathlib.Nat
use kernel_sim.Base.{ℕ, zero, suc, ◌+◌, ◌-◌, ◌*◌, ◌/◌, ◌≤◌, ◌≡◌, refl, true, false, ◌++◌, arith}
use kernel_sim.Base.Int.{ℤ, pos, negsuc, ◌==ℤ◌, pos_part}
use kernel_sim.Base.Array.{replicate}
use kernel_sim.Base.Outcome.{Ends, ends, done}
use kernel_sim.Logger.{ProgressBar, times, cells_from, print_progress_bar, quotient}

none_filled : (n i f : ℕ) → f ≤ i → cells_from n i (pos f) ≡ replicate n false
none_filled zero i f h = refl
none_filled (suc n) i f h = ground (arith, none_filled n (i + 1) f (omega (arith, h)))

-- `k` of the `n` cells are to be filled.
cells_from_filled :
    (n k i f : ℕ)
    → k ≤ n
    → f ≡ i + k
    → cells_from n i (pos f) ≡ replicate k true ++ replicate (n - k) false
cells_from_filled zero zero i f few e = refl
cells_from_filled zero (suc k) i f few e = absurd (omega arith)
cells_from_filled (suc n) zero i f few e =
    ground (arith, none_filled (suc n) i f (omega (arith, e)))
cells_from_filled (suc n) (suc k) i f few e =
    let rest = cells_from_filled n k (i + 1) f (omega arith) (omega (arith, e)) in
    ground (arith, e, rest)

share_bounded :
    (completed total width : ℕ) → completed ≤ suc total → (completed * width) / suc total ≤ width
share_bounded completed total width h =
    Nat.div-le_of_le-mul (suc total) (Nat.mul-le-mul_right width h)

quotient-ends : (a b : ℤ) → (b ==ℤ pos 0) ≡ false → (q : ℤ) × (quotient a b ≡ done q)
unfolding quotient
quotient-ends a (pos zero) e = absurd (ground arith)
quotient-ends (pos a) (pos (suc b)) e = (_, refl)
quotient-ends (pos a) (negsuc b) e = (_, refl)
quotient-ends (negsuc a) (pos (suc b)) e = (_, refl)
quotient-ends (negsuc a) (negsuc b) e = (_, refl)

-- The bar is drawn for every total but 0.
pub print_progress_bar-ends :
    (completed total width : ℤ)
    → (total ==ℤ pos 0) ≡ false
    → (bar : ProgressBar) × (print_progress_bar completed total width ≡ done bar)
unfolding print_progress_bar
print_progress_bar-ends completed total width e =
    let (filled, divided) = quotient-ends (times completed width) total e in
    (
      record { cells = cells_from (pos_part width) 0 filled; completed = completed; total = total },
      rw divided refl,
    )

-- For a positive total and no more completed than that, the progress bar is drawn with the share
-- of its width that is completed, rounded down, filled from the left.
pub print_progress_bar-share :
    (completed total width : ℕ)
    → completed ≤ suc total
    → Ends
        (λ bar.
          bar.cells
          ≡ replicate ((completed * width) / suc total) true
            ++ replicate (width - (completed * width) / suc total) false)
        (print_progress_bar (pos completed) (pos (suc total)) (pos width))
unfolding print_progress_bar quotient
print_progress_bar-share completed total width part =
    let product : times (pos completed) (pos width) ≡ pos (completed * width) = ground arith in
    rw product (
      ends (
        cells_from_filled width ((completed * width) / suc total) 0
          ((completed * width) / suc total) (share_bounded completed total width part)
          (omega arith)))
