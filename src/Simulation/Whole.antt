-- ===== src/Simulation/Whole.antt =====
-- A whole simulation: src/process_generator.c reads the file and sends its processes, and
-- src/scheduler.c receives and runs them.
use mathlib.Core.List.{
  not-mem-nil, mem-cons_self, mem-cons_of_mem, mem-map_of_mem, exists_of_mem-map,
}
use mathlib.Core.List.Perm
use mathlib.Core.Logic.{∥∥₁_elim}
use Prim.Native.String.{String}
use kernel_sim.Base.{
  ℕ, ap, ◌^◌, ◌≤◌, ◌≡◌, ◌≢◌, refl, ◌∙◌, true, false, List, [], ◌∷◌, some, Mem, Perm, arith,
}
use kernel_sim.Base.Int.{ℤ, pos, ◌≤ℤ◌, ◌==ℤ◌}
use kernel_sim.Base.Array
use kernel_sim.Base.Array.{length}
use kernel_sim.Base.Outcome.{done, ended}
use kernel_sim.Pcb.{Pcb}
use kernel_sim.MinHeap.{max_processes}
use kernel_sim.PriorityQueue.{Process}
use kernel_sim.PriorityQueue.Inv as Arrivals
use kernel_sim.Queue.Inv.{Allocates}
use kernel_sim.Generator.{Generator, GeneratorOs}
use kernel_sim.Generator.ReadProcesses.{generator_start}
use kernel_sim.Generator.Rows.{Row, pcb_row, pcb_rows, process_rows, process_ids, rows-process_ids}
use kernel_sim.Generator.Launch.{IsSteady}
use kernel_sim.Generator.Run as G
use kernel_sim.Generator.Fresh.{AllFresh, Run-HasFresh, generator_start-HasFresh}
use kernel_sim.Generator.Input.{rows, generator_start-Keeps, complete-sent}
use kernel_sim.Scheduler.{Os, Scheduler, other}
use kernel_sim.Scheduler.Complete.{is_over}
use kernel_sim.Scheduler.Stop.{HasRunningTime}
use kernel_sim.Scheduler.Account.{ids, length-ids, finished_ids, AllCanStart, AllCanStart-cons}
use kernel_sim.Scheduler.Run as R
use kernel_sim.Scheduler.Finish.{Finished, Run-Finished}
use kernel_sim.Arguments.{SchedulerStart, scheduler_start}
use kernel_sim.Simulation.{scheduler_state}
use kernel_sim.Simulation.Start.{scheduler_state-Accounts}

-- The running time of a row is not 0.
abbrev pub HasWork : Process → Type 0
HasWork p = (p.execution_time ==ℤ pos 0) ≡ false

-- What is sent has the running time of a row.
sent_running_time :
    (sent : List Pcb) (named : List Process)
    → Perm (pcb_rows sent) (process_rows named)
    → ((q : Process) → Mem q named → HasWork q)
    → (p : Pcb) → Mem p sent
    → HasRunningTime p
sent_running_time sent named same work p m =
    let prop : IsProp (HasRunningTime p) = hlevel in
    let row = (Perm.mem_iff same).0 (mem-map_of_mem pcb_row m) in
    ∥∥₁_elim (exists_of_mem-map row) prop
      (λ (q, there, e). rw (← ap (λ (r : Row). r.execution_time) e) (work q there))

fresh-CanStart :
    (ps : List Pcb) → AllFresh ps → ((p : Pcb) → Mem p ps → HasRunningTime p) → AllCanStart ps
fresh-CanStart [] a times = λ p m. absurd (not-mem-nil m)
fresh-CanStart (p ∷ ps) (here, a) times =
    AllCanStart-cons p ps (ground (arith, here.semaphore), times p mem-cons_self)
      (fresh-CanStart ps a (λ q m. times q (mem-cons_of_mem p m)))

length-process_ids : (ps : List Process) → length (process_ids ps) ≡ length ps
length-process_ids [] = refl
length-process_ids (p ∷ ps) = omega (arith, length-process_ids ps)

-- What the generator gets from the operating system and the C library, and what the scheduler gets.
module _ (sscanf : String → List ℤ) (fresh : Process) (slots : ℕ → List Process)
    (slots_alloc : Arrivals.Allocates slots) (generator_os : GeneratorOs)
    (steady : IsSteady generator_os) (atoi : String → ℤ) (processes : List Pcb)
    (malloc : ℕ → List Pcb) (size : length processes ≡ max_processes) (alloc : Allocates malloc)
    (os : ℕ → Os) (allocates : (k : ℕ) → Allocates (os k).malloc) where
  -- The scheduler may rely on what the generator has sent: all have semaphores and running times,
  -- and they are as many as the rows of the file.
  sent_fit :
      (header : String) (lines : List String) (scheduler_pid : ℤ) (g h : Generator)
      → length lines ≤ 2 ^ 59
      → ((p : Process) → Mem p (rows sscanf fresh lines) → p.memory_size ≤ℤ pos (2 ^ 30))
      → ((p : Process) → Mem p (rows sscanf fresh lines) → HasWork p)
      → generator_start sscanf fresh slots generator_os (some (header ∷ lines)) ≡ done g
      → G.Run generator_os scheduler_pid g h
      → h.once ≡ false
      → AllCanStart h.sent
        × Perm (ids h.sent) (process_ids (rows sscanf fresh lines))
        × (length h.sent ≡ length (rows sscanf fresh lines))
  sent_fit header lines scheduler_pid g h few little work loaded run reported =
      let k = ended (
        rw loaded at (
          generator_start-Keeps sscanf fresh slots slots_alloc generator_os steady header lines few
            little)) in
      let started =
        generator_start-HasFresh sscanf fresh slots generator_os (some (header ∷ lines)) g
          steady.malloc loaded in
      let all =
        complete-sent sscanf fresh slots slots_alloc generator_os steady header lines scheduler_pid
          g h few little loaded run reported in
      let same = rows-process_ids h.sent (rows sscanf fresh lines) all in
      (
        fresh-CanStart h.sent
            (Run-HasFresh generator_os steady scheduler_pid g h run k.inv started).sent
            (sent_running_time h.sent (rows sscanf fresh lines) all work),
        same,
        omega (
          arith,
          Array.length-Perm same,
          length-ids h.sent,
          length-process_ids (rows sscanf fresh lines),
        ),
      )

  -- When the calls of the operating system succeed, for a file of at most 2 ^ 59 lines with at most
  -- 100 rows, none of which asks for more than 2 ^ 30 bytes or has a running time of 0: if a run of
  -- the generator from the state that main sets up has reported completion, and a run of the
  -- scheduler, started with one of the three algorithms, has received exactly what was sent, in
  -- order, and leaves its loop, then the ids whose end is in its log are, in some order and each as
  -- often, those of the rows of the file, and finished_processes is their number.
  pub simulation_over :
      (header : String) (lines : List String) (scheduler_pid : ℤ) (g h : Generator)
      (argv : List String) (start : SchedulerStart) (now : ℤ) (first s : Scheduler) (steps : ℕ)
      → length lines ≤ 2 ^ 59
      → length (rows sscanf fresh lines) ≤ 100
      → ((p : Process) → Mem p (rows sscanf fresh lines) → p.memory_size ≤ℤ pos (2 ^ 30))
      → ((p : Process) → Mem p (rows sscanf fresh lines) → HasWork p)
      → generator_start sscanf fresh slots generator_os (some (header ∷ lines)) ≡ done g
      → G.Run generator_os scheduler_pid g h
      → h.once ≡ false
      → scheduler_start atoi true (some processes) malloc argv ≡ done start
      → start.algorithm ≢ other
      → scheduler_state start now ≡ some first
      → R.Run os 0 first steps h.sent s
      → is_over s ≡ true
      → Perm (finished_ids s.effects) (process_ids (rows sscanf fresh lines))
        × (s.finished_processes ≡ length (rows sscanf fresh lines))
  simulation_over header lines scheduler_pid g h argv start now first s steps few hundred little
        work loaded sent reported prepared known began run over =
      let (semaphores, same, number) =
        sent_fit header lines scheduler_pid g h few little work loaded sent reported in
      let (f, is_first, a) =
        scheduler_state-Accounts atoi processes malloc size alloc argv start now prepared known in
      let same_first : f ≡ first = cc in
      let (all, count) =
        R.Run_over os allocates 100 0 first (rw same_first at a) (omega arith) semaphores run
          over in
      (Perm.trans all same, count ∙ number)

  -- When the calls of the operating system succeed, for a file of at most 2 ^ 59 lines with at
  -- most 100 rows, none of which asks for more than 2 ^ 30 bytes or has a running time of 0: if a
  -- run of the generator from the state that main sets up has reported completion, and a run of
  -- the scheduler, started with one of the three algorithms, has received exactly what was sent,
  -- in order, and has heard of the end of the generator, then from its last state on there is a
  -- run that receives nothing more, in which current processes end and the clock moves, that
  -- leaves the loop of main with the ids of exactly the rows of the file in the log.
  pub simulation_finishes :
      (header : String) (lines : List String) (scheduler_pid : ℤ) (g h : Generator)
      (argv : List String) (start : SchedulerStart) (now : ℤ) (first s : Scheduler) (steps : ℕ)
      → length lines ≤ 2 ^ 59
      → length (rows sscanf fresh lines) ≤ 100
      → ((p : Process) → Mem p (rows sscanf fresh lines) → p.memory_size ≤ℤ pos (2 ^ 30))
      → ((p : Process) → Mem p (rows sscanf fresh lines) → HasWork p)
      → generator_start sscanf fresh slots generator_os (some (header ∷ lines)) ≡ done g
      → G.Run generator_os scheduler_pid g h
      → h.once ≡ false
      → scheduler_start atoi true (some processes) malloc argv ≡ done start
      → start.algorithm ≢ other
      → scheduler_state start now ≡ some first
      → R.Run os 0 first steps h.sent s
      → s.generator_finished ≡ true
      → Finished os steps s (process_ids (rows sscanf fresh lines))
  simulation_finishes header lines scheduler_pid g h argv start now first s steps few hundred little
        work loaded sent reported prepared known began run finished =
      let (semaphores, same, number) =
        sent_fit header lines scheduler_pid g h few little work loaded sent reported in
      let (t, is_first, a) =
        scheduler_state-Accounts atoi processes malloc size alloc argv start now prepared known in
      let same_first : t ≡ first = cc in
      let f =
        Run-Finished os allocates 100 0 first (rw same_first at a) (omega arith) semaphores run
          finished in
      record {
        steps = f.steps;
        last = f.last;
        run = f.run;
        over = f.over;
        all = Perm.trans f.all same;
      }
