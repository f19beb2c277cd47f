-- ===== src/Clock.antt =====
-- src/clk.c: the clock, an integer in shared memory that one process raises and all others read.
-- Each process has its own global `shmaddr`.
mod Tests
use kernel_sim.Base.{
  ℕ, zero, suc, ◌+◌, ◌≤◌, ◌≡◌, refl, Bool, true, false, not, Bool-cases, inl, inr, List, [], ◌∷◌,
  if◌then◌else◌, arith,
}
use kernel_sim.Base.Int.{ℤ, pos, ◌+ℤ◌}
use kernel_sim.Base.Outcome.{Outcome, done, fault, exited, exhausted, ◌>>=◌, Ends, ends, Ends-then}

-- What `shmaddr` holds: NULL, the clock, or what no access may go through.
pub data ClockAddress : Type 0 where
  null_address clock_address invalid_address : ClockAddress

-- Whether there is a segment under the key of the clock, and what it holds.
pub record ClockMemory : Type 0 where
  pub present : Bool
  pub clk : ℤ

pub data ClockEffect : Type 0 where
  shmdt : ClockAddress → ClockEffect
  killpg : ClockEffect

-- Whether `shmget` and `shmat` succeed. The address goes into a local variable that hides the global
-- one, which stays as it is.
unfoldable pub init_clk :
    Bool → Bool → ClockAddress → ClockMemory → Outcome (ClockAddress × ClockMemory)
init_clk shmget shmat shmaddr m =
    if not shmget
    then exited
    else if not shmat
    then exited
    else done (shmaddr, record { present = true; clk = pos 0 })

unfoldable pub get_clk : ClockAddress → ClockMemory → Outcome ℤ
get_clk clock_address m = done m.clk
get_clk null_address m = fault
get_clk invalid_address m = fault

-- So many rounds of the loop of `run_clk`.
unfoldable pub run_clk : ℕ → ClockAddress → ClockMemory → Outcome ClockMemory
run_clk zero shmaddr m = done m
run_clk (suc rounds) clock_address m =
    run_clk rounds clock_address (record m { clk = m.clk +ℤ pos 1 })
run_clk (suc rounds) null_address m = fault
run_clk (suc rounds) invalid_address m = fault

-- `shmget i` tells whether the call number `i` finds the segment.
unfoldable pub sync_from : ℕ → (ℕ → Bool) → Bool → ℕ → Outcome ClockAddress
sync_from zero shmget shmat i = exhausted
sync_from (suc fuel) shmget shmat i =
    let again = sync_from fuel shmget shmat (i + 1) in
    if not (shmget i) then again else done (if shmat then clock_address else invalid_address)

unfoldable pub sync_clk : ℕ → (ℕ → Bool) → Bool → Outcome ClockAddress
unfolding sync_from
sync_clk fuel shmget shmat = sync_from fuel shmget shmat 0

-- The address can no longer be used.
unfoldable pub destroy_clk : Bool → ClockAddress → ClockAddress × List ClockEffect
destroy_clk terminate_all shmaddr =
    (invalid_address, shmdt shmaddr ∷ (if terminate_all then killpg ∷ [] else []))

-- The handler of SIGINT of the clock, before it exits.
unfoldable pub cleanup : ClockMemory → ClockMemory
cleanup m = record m { present = false }

-- The first call that finds the segment ends the wait.
sync_from-found :
    (fuel wait i : ℕ) (shmget : ℕ → Bool) (shmat : Bool)
    → wait ≤ fuel
    → shmget (i + wait) ≡ true
    → sync_from (suc fuel) shmget shmat i ≡ done (if shmat then clock_address else invalid_address)
unfolding sync_from
sync_from-found fuel zero i shmget shmat enough found =
    let here : i + 0 ≡ i = omega arith in
    let now : shmget i ≡ true = rw here at found in rw now refl
sync_from-found zero (suc wait) i shmget shmat enough found = absurd (omega arith)
sync_from-found (suc fuel) (suc wait) i shmget shmat enough found = elim (Bool-cases (shmget i)) [
  | inl now ↦ rw now refl
  | inr not_yet ↦
      let shift : i + suc wait ≡ i + 1 + wait = omega arith in
      rw not_yet (sync_from-found fuel wait (i + 1) shmget shmat (omega arith) (rw shift at found))
]

-- Once a call finds the segment, the wait ends.
pub sync_clk-found :
    (fuel wait : ℕ) (shmget : ℕ → Bool)
    → wait ≤ fuel
    → shmget wait ≡ true
    → sync_clk (suc fuel) shmget true ≡ done clock_address
unfolding sync_clk
sync_clk-found fuel wait shmget enough found =
    let start : 0 + wait ≡ wait = omega arith in
    sync_from-found fuel wait 0 shmget true enough (rw start found)

run_clk-counts :
    (rounds n : ℕ)
    → run_clk rounds clock_address (record { present = true; clk = pos n })
      ≡ done (record { present = true; clk = pos (n + rounds) })
unfolding run_clk ◌+ℤ◌
run_clk-counts zero n = let same : n + 0 ≡ n = omega arith in rw same refl
run_clk-counts (suc rounds) n =
    let next : pos n +ℤ pos 1 ≡ pos (n + 1) = ground arith in
    let sum : n + 1 + rounds ≡ n + suc rounds = omega arith in
    rw next (rw sum at (run_clk-counts rounds (n + 1)))

-- What the process of the clock does: it makes the segment, waits until it can attach it as every
-- other process does, and counts.
abbrev pub clock_process : (ℕ → Bool) → ℕ → ℕ → ClockMemory → Outcome ClockMemory
clock_process shmget fuel rounds m = do
  r ← init_clk true true null_address m
  shmaddr ← sync_clk fuel shmget true
  run_clk rounds shmaddr r.1

-- When the system calls of the clock succeed, and the clock and a client each find its segment in
-- the end: the wait in sync_clk ends for both, and after so many rounds of run_clk in the process
-- of the clock, the client reads that number.
pub get_clk-clock_process :
    (shmget clients : ℕ → Bool) (fuel wait client_fuel client_wait rounds : ℕ) (m : ClockMemory)
    → wait ≤ fuel
    → shmget wait ≡ true
    → client_wait ≤ client_fuel
    → clients client_wait ≡ true
    → (do
      t ← clock_process shmget (suc fuel) rounds m
      shmaddr ← sync_clk (suc client_fuel) clients true
      get_clk shmaddr t)
      ≡ done (pos rounds)
unfolding init_clk get_clk
get_clk-clock_process shmget clients fuel wait client_fuel client_wait rounds m enough found
      client_enough client_found =
    let sum : 0 + rounds ≡ rounds = omega arith in
    rw
      (
        sync_clk-found fuel wait shmget enough found,
        run_clk-counts rounds 0,
        sync_clk-found client_fuel client_wait clients client_enough client_found,
        sum,
      )
      refl
