-- ===== src/Clock/Tests.antt =====
-- The theorems about src/clk.c for a clock that others find at the third look.
use kernel_sim.Base.{ℕ, ◌≡◌, refl, Bool, true, false, leb, arith}
use kernel_sim.Base.Int.{pos, minus_one}
use kernel_sim.Base.Outcome.{done, fault, ◌>>=◌}
use kernel_sim.Clock.{
  ClockMemory, null_address, init_clk, get_clk, run_clk, sync_clk, clock_process, clock_address,
  destroy_clk, cleanup, get_clk-clock_process,
}

abbrev at_once : ℕ → Bool
at_once i = true

abbrev third : ℕ → Bool
third i = leb 2 i

abbrev unused : ClockMemory
unused = record { present = false; clk = minus_one }

get_clk-clock_process_example :
    (do t ← clock_process at_once 1 60 unused; shmaddr ← sync_clk 5 third true; get_clk shmaddr t)
    ≡ done (pos 60)
get_clk-clock_process_example =
    get_clk-clock_process at_once third 0 0 4 2 60 unused (omega arith) refl (omega arith) refl

-- Without `sync_clk` the global address is still NULL.
unsynced_run : (do r ← init_clk true true null_address unused; run_clk 3 r.0 r.1) ≡ fault
unfolding init_clk run_clk
unsynced_run = refl

-- After `destroy_clk` the clock cannot be read.
destroyed_read : get_clk (destroy_clk false clock_address).0 unused ≡ fault
unfolding destroy_clk get_clk
destroyed_read = refl

-- A clock that is interrupted leaves no segment under its key.
interrupted : (cleanup (record { present = true; clk = pos 4 })).present ≡ false
unfolding cleanup
interrupted = refl
