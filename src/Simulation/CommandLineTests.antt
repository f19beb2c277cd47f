-- ===== src/Simulation/CommandLineTests.antt =====
-- The simulation of Simulation/Tests from its command line on, and the theorems at it.
use Prim.Native.String.{String}
use text.Mathlib.Text.{◌==◌ as ◌==ₛ◌}
use kernel_sim.Base.{Option, ◌≡◌, refl, true, List, [], ◌∷◌, none, some, Perm, arith, if◌then◌else◌}
use kernel_sim.Base.Int.{pos}
use kernel_sim.Base.Array
use kernel_sim.Base.Array.{replicate, length-replicate, length}
use kernel_sim.Base.Outcome.{done, Ends}
use kernel_sim.Pcb.{zero_pcb}
use kernel_sim.PriorityQueue.Inv.{zero_process}
use kernel_sim.Generator.Rows.{process_ids, process_rows}
use kernel_sim.Generator.Input.{rows}
use kernel_sim.Generator.Run.{run_over, run_round}
use kernel_sim.Generator.Tests as GeneratorTests
use kernel_sim.Generator.InputTests.{
  scan, zeroed, zeroed-Allocates, file, little, work, loaded, finished, round_run, finished_once,
}
use kernel_sim.Generator.ReadProcesses.{push_lines, generator_start}
use kernel_sim.PriorityQueue.{pq_init, pq_push}
use kernel_sim.Scheduler.{rr}
use kernel_sim.Scheduler.Account.{finished_ids}
use kernel_sim.Arguments.{SchedulingParams, parse_args, scheduler_arguments, scheduler_start}
use kernel_sim.Simulation.Setup.{
  SetupCalls, SetUp, initialize_ipc, scheduler_semaphore, generator_setup, IsSetUp,
  generator_setup-IsSetUp,
}
use kernel_sim.Simulation.CommandLine.{command_line_over}
use kernel_sim.Arguments.Tests.{atoi, printed, atoi-Reads}
use kernel_sim.Simulation.Tests.{
  os, argv, pcbs, start, start_made, first, first_made, three, over, pcbs-Allocates, os-Allocates,
  run_three,
}

abbrev files : String → Option (List String)
files name = if name ==ₛ "processes.txt" then some ("#id" ∷ file) else none

abbrev command_line : List String
command_line = "os-sim" ∷ "-s" ∷ "rr" ∷ "-f" ∷ "processes.txt" ∷ "-q" ∷ "1111111" ∷ []

abbrev params : SchedulingParams
params = record { algorithm = rr; quantum = pos 7; filename = some "processes.txt" }

parsed : parse_args atoi command_line ≡ some params
unfolding parse_args
parsed = refl

abbrev calls : SetupCalls
calls = record {
  msgq_key = pos 1;
  msgq_id = pos 2;
  semid = pos 7;
  semctl = pos 0;
  scheduler_pid = pos 60;
}

abbrev set_up : SetUp
set_up = record {
  generator = loaded;
  msgq_id = pos 2;
  semid = pos 7;
  scheduler_pid = pos 60;
  scheduler_argv = argv;
}

setup_run :
    generator_setup scan zero_process zeroed GeneratorTests.os atoi printed calls files command_line
    ≡ done set_up
unfolding generator_setup initialize_ipc scheduler_semaphore scheduler_arguments parse_args
    generator_start push_lines pq_push pq_init Array.store
setup_run = refl

generator_setup-IsSetUp_example :
    Ends
      (IsSetUp
        (process_rows (rows scan zero_process file))
        params
        calls
        (scheduler_start atoi true (some (pcbs 1024)) pcbs))
      (generator_setup scan zero_process zeroed GeneratorTests.os atoi printed calls files
        command_line)
generator_setup-IsSetUp_example =
    generator_setup-IsSetUp scan zero_process zeroed zeroed-Allocates GeneratorTests.os
      GeneratorTests.os-IsSteady atoi printed atoi-Reads (pcbs 1024) pcbs calls files command_line
      params "processes.txt" "#id" file parsed refl refl (omega arith) little refl refl refl refl
      (omega arith) (omega arith) (omega arith)

command_line_over_example :
    Perm (finished_ids three.effects) (process_ids (rows scan zero_process file))
    × (three.finished_processes ≡ length (rows scan zero_process file))
    × (start.algorithm ≡ params.algorithm)
command_line_over_example =
    command_line_over scan zero_process zeroed zeroed-Allocates GeneratorTests.os
      GeneratorTests.os-IsSteady atoi printed atoi-Reads (pcbs 1024) pcbs
      (length-replicate 1024 zero_pcb) pcbs-Allocates os os-Allocates calls files command_line
      params "processes.txt" "#id" file set_up finished start (pos 3) first three 3 parsed refl refl
      (omega arith) (omega arith) little work (omega arith) (omega arith) (omega arith) setup_run
      (run_round (pos 4) run_over round_run) finished_once start_made first_made run_three over
