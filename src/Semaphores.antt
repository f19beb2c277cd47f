-- ===== src/Semaphores.antt =====
-- src/semaphores.c: what its four functions make of the answer of `semop`.
use kernel_sim.Base.Int.{ℤ, pos, negsuc, minus_one}
use kernel_sim.Base.Outcome.{Outcome, done, exited}

-- `semop` has changed the semaphore, cannot do so now (EAGAIN), or has failed.
pub data Semop : Type 0 where
  changed again failed : Semop

unfoldable pub down : Semop → Outcome (Unit {0})
down changed = done tt
down again = exited
down failed = exited

unfoldable pub up : Semop → Outcome (Unit {0})
up changed = done tt
up again = exited
up failed = exited

abbrev pub down_nb : Semop → ℤ
down_nb changed = pos 0
down_nb again = minus_one
down_nb failed = negsuc 1

abbrev pub up_nb : Semop → ℤ
up_nb changed = pos 0
up_nb again = minus_one
up_nb failed = minus_one
