-- ===== src/Simulation/Setup.antt =====
-- `main` of src/process_generator.c up to its loop: the command line, the file, the message queue,
-- the semaphore of the scheduler, and the scheduler that it starts.
use Prim.Native.String.{String, len}
use kernel_sim.Base.{
  ℕ, ◌^◌, ◌≤◌, ◌<◌, ◌≡◌, refl, true, false, List, ◌∷◌, Option, none, some, Mem, if◌then◌else◌,
}
use kernel_sim.Base.Int.{ℤ, pos, minus_one, ◌==ℤ◌, ◌≤ℤ◌}
use kernel_sim.Base.Array.{length}
use kernel_sim.Base.Outcome.{Outcome, done, fault, exited, ◌>>=◌, Ends, ends, Ends-then, Ends-first}
use kernel_sim.Pcb.{Pcb}
use kernel_sim.PriorityQueue.{Process}
use kernel_sim.PriorityQueue.Inv as Arrivals
use kernel_sim.Generator.{Generator, GeneratorOs}
use kernel_sim.Generator.ReadProcesses.{generator_start}
use kernel_sim.Generator.Rows.{Row, process_rows}
use kernel_sim.Generator.Launch.{IsSteady}
use kernel_sim.Generator.Tick.{Keeps}
use kernel_sim.Generator.Input.{rows, generator_start-Keeps}
use kernel_sim.Arguments.{
  SchedulingParams, SchedulerStart, algorithm_number, parse_args, scheduler_arguments,
  scheduler_start,
}
use kernel_sim.Arguments.Pass.{Reads, Passed, scheduler_start-Passed}

-- What `ftok`, `msgget`, `semget`, `semctl` and `fork` return.
pub record SetupCalls : Type 0 where
  pub msgq_key : ℤ
  pub msgq_id : ℤ
  pub semid : ℤ
  pub semctl : ℤ
  pub scheduler_pid : ℤ

-- What the loop of `main` begins with, and the arguments of the scheduler.
pub record SetUp : Type 0 where
  pub generator : Generator
  pub msgq_id : ℤ
  pub semid : ℤ
  pub scheduler_pid : ℤ
  pub scheduler_argv : List String

unfoldable pub initialize_ipc : SetupCalls → Outcome ℤ
initialize_ipc calls =
    if calls.msgq_key ==ℤ minus_one
    then exited
    else if calls.msgq_id ==ℤ minus_one
    then exited
    else done calls.msgq_id

unfoldable pub scheduler_semaphore : SetupCalls → Outcome ℤ
scheduler_semaphore calls =
    if calls.semid ==ℤ minus_one
    then exited
    else if calls.semctl ==ℤ minus_one
    then exited
    else done calls.semid

abbrev pub exit_failure : Option SchedulingParams → Outcome SchedulingParams
exit_failure none = exited
exit_failure (some params) = done params

-- `files` has the lines of the files that can be opened. A missing name would be a null pointer.
abbrev pub opened : (String → Option (List String)) → Option String → Outcome (Option (List String))
opened files none = fault
opened files (some name) = done (files name)

module _ (sscanf : String → List ℤ) (fresh : Process) (slots : ℕ → List Process) (os : GeneratorOs)
    (atoi : String → ℤ) (printed : ℤ → String) where
  unfoldable pub generator_setup :
      SetupCalls → (String → Option (List String)) → List String → Outcome SetUp
  unfolding initialize_ipc scheduler_semaphore
  generator_setup calls files argv = do
    params ← exit_failure (parse_args atoi argv)
    file ← opened files params.filename
    g ← generator_start sscanf fresh slots os file
    msgq_id ← initialize_ipc calls
    semid ← scheduler_semaphore calls
    scheduler_argv ← scheduler_arguments printed params semid
    done (record {
      generator = g;
      msgq_id = msgq_id;
      semid = semid;
      scheduler_pid = calls.scheduler_pid;
      scheduler_argv = scheduler_argv;
    })

  -- Without parameters there is no setup.
  generator_setup_unparsed :
      (calls : SetupCalls) (files : String → Option (List String)) (argv : List String)
      → parse_args atoi argv ≡ none
      → generator_setup calls files argv ≡ exited
  unfolding generator_setup
  generator_setup_unparsed calls files argv e = rw e refl

-- The generator has the processes of the file, and the scheduler that is started with these
-- arguments ends its own setup with what was asked for.
pub record IsSetUp (rows : List Row) (params : SchedulingParams) (calls : SetupCalls)
    (start : List String → Outcome SchedulerStart) (u : SetUp) : Type 0 where
  pub keeps : Keeps rows u.generator
  pub passed : Ends (Passed params calls.semid) (start u.scheduler_argv)
  pub msgq_id : u.msgq_id ≡ calls.msgq_id
  pub semid : u.semid ≡ calls.semid

module _ (sscanf : String → List ℤ) (fresh : Process) (slots : ℕ → List Process)
    (slots_alloc : Arrivals.Allocates slots) (os : GeneratorOs) (steady : IsSteady os)
    (atoi : String → ℤ) (printed : ℤ → String) (reads : Reads atoi printed) (processes : List Pcb)
    (malloc : ℕ → List Pcb) where
  -- When the system calls succeed, atoi reads what sprintf prints and the numbers fit their
  -- arrays: for an accepted command line and its file of at most 2 ^ 59 lines after the first,
  -- none of which asks for more than 2 ^ 30 bytes, the setup of the generator ends, its processes
  -- have, in some order and each as often, the id, arrival time, running time, priority and
  -- memory size of the rows of the file, and the scheduler started with the arguments that it
  -- writes ends its own setup with the same algorithm and semaphore id and, under round robin,
  -- the same quantum, which is positive.
  pub generator_setup-IsSetUp :
      (calls : SetupCalls) (files : String → Option (List String)) (argv : List String)
      (params : SchedulingParams) (name header : String) (lines : List String)
      → parse_args atoi argv ≡ some params
      → params.filename ≡ some name
      → files name ≡ some (header ∷ lines)
      → length lines ≤ 2 ^ 59
      → ((p : Process) → Mem p (rows sscanf fresh lines) → p.memory_size ≤ℤ pos (2 ^ 30))
      → (calls.msgq_key ==ℤ minus_one) ≡ false
      → (calls.msgq_id ==ℤ minus_one) ≡ false
      → (calls.semid ==ℤ minus_one) ≡ false
      → (calls.semctl ==ℤ minus_one) ≡ false
      → len (printed (algorithm_number params.algorithm)) < 10
      → len (printed calls.semid) < 10
      → len (printed params.quantum) < 10
      → Ends
          (IsSetUp
            (process_rows (rows sscanf fresh lines))
            params
            calls
            (scheduler_start atoi true (some processes) malloc))
          (generator_setup sscanf fresh slots os atoi printed calls files argv)
  unfolding generator_setup initialize_ipc scheduler_semaphore
  generator_setup-IsSetUp calls files argv params name header lines parsed named there few little
        key queue semaphore set a_fits s_fits q_fits =
      let passed =
        scheduler_start-Passed atoi printed reads params calls.semid processes malloc argv parsed
          a_fits s_fits q_fits in
      let read : opened files params.filename ≡ done (some (header ∷ lines)) =
        rw (named, there) refl in
      rw (parsed, read, key, queue, semaphore, set)
        (Ends-then
          (generator_start-Keeps sscanf fresh slots slots_alloc os steady header lines few little)
          λ g keeps.
            Ends-first (scheduler_arguments printed params calls.semid)
              (scheduler_start atoi true (some processes) malloc) _ passed
              λ argv p. ends (record { keeps = keeps; passed = p; msgq_id = refl; semid = refl }))
