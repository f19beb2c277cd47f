-- ===== src/Simulation/CommandLine.antt =====
-- A whole simulation, from the command line of src/process_generator.c to the end of the loop of
-- src/scheduler.c.
use Prim.Native.String.{String, len}
use kernel_sim.Base.{
  ℕ, ◌^◌, ◌≤◌, ◌<◌, ◌≡◌, refl, sym, ap, ◌∙◌, true, false, List, ◌∷◌, Option, some, Bool-cases, inl,
  inr, Mem, Perm,
}
use kernel_sim.Base.Int.{ℤ, pos, minus_one, ◌==ℤ◌, ◌≤ℤ◌}
use kernel_sim.Base.Array.{length}
use kernel_sim.Base.Outcome.{done, ended, done_through, done_value}
use kernel_sim.Pcb.{Pcb}
use kernel_sim.MinHeap.{max_processes}
use kernel_sim.PriorityQueue.{Process}
use kernel_sim.PriorityQueue.Inv as Arrivals
use kernel_sim.Queue.Inv.{Allocates}
use kernel_sim.Generator.{Generator, GeneratorOs}
use kernel_sim.Generator.ReadProcesses.{generator_start}
use kernel_sim.Generator.Rows.{process_ids}
use kernel_sim.Generator.Launch.{IsSteady}
use kernel_sim.Generator.Run as G
use kernel_sim.Generator.Input.{rows}
use kernel_sim.Scheduler.{Os, Scheduler}
use kernel_sim.Scheduler.Complete.{is_over}
use kernel_sim.Scheduler.Account.{finished_ids}
use kernel_sim.Scheduler.Run as R
use kernel_sim.Arguments.{
  SchedulingParams, SchedulerStart, algorithm_number, parse_args, scheduler_arguments,
  scheduler_start,
}
use kernel_sim.Arguments.Known.{parse_args-known}
use kernel_sim.Arguments.Pass.{Reads, scheduler_start-Passed}
use kernel_sim.Simulation.{scheduler_state}
use kernel_sim.Simulation.Setup.{
  SetupCalls, SetUp, opened, initialize_ipc, scheduler_semaphore, generator_setup,
}
use kernel_sim.Simulation.Whole.{HasWork, simulation_over}

scheduler_semaphore-same :
    (calls : SetupCalls) (id : ℤ) → scheduler_semaphore calls ≡ done id → calls.semid ≡ id
unfolding scheduler_semaphore
scheduler_semaphore-same calls id e = elim (Bool-cases (calls.semid ==ℤ minus_one)) [
  | inl missing ↦ let e' = rw missing at e in absurd cc
  | inr there ↦ elim (Bool-cases (calls.semctl ==ℤ minus_one)) [
    | inl failed ↦ let e' = rw (there, failed) at e in absurd cc
    | inr set ↦ done_value (rw (there, set) at e)
  ]
]

module _ (sscanf : String → List ℤ) (fresh : Process) (slots : ℕ → List Process)
    (generator_os : GeneratorOs) (atoi : String → ℤ) (printed : ℤ → String) where
  -- A setup that ends has loaded the file and has written the arguments of the scheduler.
  setup_parts :
      (calls : SetupCalls) (files : String → Option (List String)) (argv : List String)
      (params : SchedulingParams) (name : String) (file : List String) (u : SetUp)
      → parse_args atoi argv ≡ some params
      → params.filename ≡ some name
      → files name ≡ some file
      → generator_setup sscanf fresh slots generator_os atoi printed calls files argv ≡ done u
      → (generator_start sscanf fresh slots generator_os (some file) ≡ done u.generator)
        × (scheduler_arguments printed params calls.semid ≡ done u.scheduler_argv)
  unfolding generator_setup
  setup_parts calls files argv params name file u parsed named there e =
      let read : opened files params.filename ≡ done (some file) = rw (named, there) refl in
      let (g, loaded, e₁) =
        done_through (generator_start sscanf fresh slots generator_os (some file)) _
          (rw (parsed, read) at e) in
      let (queue, made, e₂) = done_through (initialize_ipc calls) _ e₁ in
      let (semid, semaphore, e₃) = done_through (scheduler_semaphore calls) _ e₂ in
      let (arguments, written, e₄) = done_through (scheduler_arguments printed params semid) _ e₃ in
      let same = done_value e₄ in
      let same_generator : g ≡ u.generator = ap (λ x. x.generator) same in
      let same_argv : arguments ≡ u.scheduler_argv = ap (λ x. x.scheduler_argv) same in
      let same_id = scheduler_semaphore-same calls semid semaphore in
      (
        loaded ∙ ap done same_generator,
        ap (scheduler_arguments printed params) same_id ∙ written ∙ ap done same_argv,
      )

module _ (sscanf : String → List ℤ) (fresh : Process) (slots : ℕ → List Process)
    (slots_alloc : Arrivals.Allocates slots) (generator_os : GeneratorOs)
    (steady : IsSteady generator_os) (atoi : String → ℤ) (printed : ℤ → String)
    (reads : Reads atoi printed) (processes : List Pcb) (malloc : ℕ → List Pcb)
    (size : length processes ≡ max_processes) (alloc : Allocates malloc) (os : ℕ → Os)
    (allocates : (k : ℕ) → Allocates (os k).malloc) where
  -- When no call of the generator to the operating system fails (malloc, shmget, shmat, fork,
  -- semctl, msgsnd, and semget, which returns no less than -1 and gives ids that main accepts),
  -- the mallocs of the scheduler succeed, atoi reads what sprintf prints and the numbers fit
  -- their arrays: for an accepted command line whose file has at most 2 ^ 59 lines and at most
  -- 100 rows, none of which asks for more than 2 ^ 30 bytes or has a running time of 0: if the
  -- setup of the generator ends, a run of it has reported completion, the scheduler started with
  -- the arguments that it writes has received in a run exactly what was sent, in order, and
  -- leaves its loop, then the ids whose end is in its log are, in some order and each as often,
  -- those of the rows of the file, finished_processes is their number, and the algorithm was the
  -- one asked for.
  pub command_line_over :
      (calls : SetupCalls) (files : String → Option (List String)) (argv : List String)
      (params : SchedulingParams) (name header : String) (lines : List String) (u : SetUp)
      (h : Generator) (start : SchedulerStart) (now : ℤ) (first s : Scheduler) (steps : ℕ)
      → parse_args atoi argv ≡ some params
      → params.filename ≡ some name
      → files name ≡ some (header ∷ lines)
      → length lines ≤ 2 ^ 59
      → length (rows sscanf fresh lines) ≤ 100
      → ((p : Process) → Mem p (rows sscanf fresh lines) → p.memory_size ≤ℤ pos (2 ^ 30))
      → ((p : Process) → Mem p (rows sscanf fresh lines) → HasWork p)
      → len (printed (algorithm_number params.algorithm)) < 10
      → len (printed calls.semid) < 10
      → len (printed params.quantum) < 10
      → generator_setup sscanf fresh slots generator_os atoi printed calls files argv ≡ done u
      → G.Run generator_os u.scheduler_pid u.generator h
      → h.once ≡ false
      → scheduler_start atoi true (some processes) malloc u.scheduler_argv ≡ done start
      → scheduler_state start now ≡ some first
      → R.Run os 0 first steps h.sent s
      → is_over s ≡ true
      → Perm (finished_ids s.effects) (process_ids (rows sscanf fresh lines))
        × (s.finished_processes ≡ length (rows sscanf fresh lines))
        × (start.algorithm ≡ params.algorithm)
  command_line_over calls files argv params name header lines u h start now first s steps parsed
        named there few hundred little work a_fits s_fits q_fits set_up sent reported started began
        run over =
      let (loaded, written) =
        setup_parts sscanf fresh slots generator_os atoi printed calls files argv params name
          (header ∷ lines) u parsed named there set_up in
      let passed =
        scheduler_start-Passed atoi printed reads params calls.semid processes malloc argv parsed
          a_fits s_fits q_fits in
      let p = ended (rw (written, started) at passed) in
      let (all, count) =
        simulation_over sscanf fresh slots slots_alloc generator_os steady atoi processes malloc
          size alloc os allocates header lines u.scheduler_pid u.generator h u.scheduler_argv start
          now first s steps few hundred little work loaded sent reported started
          (λ e. parse_args-known atoi argv params parsed (sym p.algorithm ∙ e)) began run over in
      (all, count, p.algorithm)
