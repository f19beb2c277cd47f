-- ===== src/Arguments/Tests.antt =====
-- The arguments of a run, and the theorems at them. Here a number is printed as so many signs.
use Prim.Native.Char.{code}
use Prim.Native.String.{String, [] as []ₛ, ◌∷◌ as ◌∷ₛ◌}
use kernel_sim.Base.{ℕ, zero, suc, ◌≡◌, refl, ap, List, [], ◌∷◌, some, ◌==◌, arith, if◌then◌else◌}
use kernel_sim.Base.Int.{ℤ, pos, negsuc}
use kernel_sim.Base.Array.{replicate}
use kernel_sim.Base.Outcome.{done, ◌>>=◌}
use kernel_sim.Pcb.{Pcb, zero_pcb}
use kernel_sim.Scheduler.{rr}
use kernel_sim.Arguments.{
  SchedulingParams, no_params, parse_args, checked, process_arguments, process_start,
}
use kernel_sim.Arguments.Parse.{
  Flag, algorithm_flag, file_flag, quantum_flag, named_rr, typed, applied, parse_args-typed,
}
use kernel_sim.Arguments.Pass.{Reads, process_start-passed}

abbrev ones : ℕ → String
ones zero = []ₛ
ones (suc n) = "1" ∷ₛ ones n

abbrev signs : String → ℕ
signs []ₛ = 0
signs (c ∷ₛ s) = suc (signs s)

abbrev pub printed : ℤ → String
printed (pos n) = ones n
printed (negsuc n) = "-" ∷ₛ ones n

abbrev pub atoi : String → ℤ
atoi []ₛ = pos 0
atoi (c ∷ₛ s) = if code c == b'-' then negsuc (signs s) else pos (suc (signs s))

signs-ones : (n : ℕ) → signs (ones n) ≡ n
signs-ones zero = refl
signs-ones (suc n) = ap suc (signs-ones n)

pub atoi-Reads : Reads atoi printed
atoi-Reads (pos zero) = refl
atoi-Reads (pos (suc n)) = ap (λ k. pos (suc k)) (signs-ones n)
atoi-Reads (negsuc n) = ap negsuc (signs-ones n)

abbrev flags : List Flag
flags = quantum_flag "111" ∷ algorithm_flag named_rr ∷ file_flag "processes.txt" ∷ []

abbrev params : SchedulingParams
params = record { algorithm = rr; quantum = pos 3; filename = some "processes.txt" }

parse_args-typed_example :
    parse_args atoi ("os-sim" ∷ typed flags) ≡ checked (some (applied atoi flags no_params))
parse_args-typed_example = parse_args-typed atoi "os-sim" flags (omega arith)

parse_run : parse_args atoi ("os-sim" ∷ typed flags) ≡ some params
unfolding parse_args
parse_run = refl

abbrev zeroed : ℕ → List Pcb
zeroed n = replicate n zero_pcb

abbrev process : Pcb
process = record zero_pcb { remaining_time = pos 7; sync_semid = pos 5 }

process_start-passed_example :
    (process_arguments printed process (pos 6) (pos 8) >>= process_start atoi)
    ≡ done (record { runtime = pos 7; shared_mem_id = pos 6; scheduler_pid = pos 8; semid = pos 5 })
process_start-passed_example =
    process_start-passed atoi printed atoi-Reads process (pos 6) (pos 8) (omega arith) (omega arith)
      (omega arith) (omega arith)
