-- ===== src/Arguments/Pass.antt =====
-- What the generator passes to the programs that it starts is what they read.
use Prim.Native.String.{String, len}
use kernel_sim.Base.{
  Bool-cases, inl, inr, ℕ, ◌<◌, ◌≡◌, refl, true, false, lt→ltb, List, [], ◌∷◌, some,
}
use kernel_sim.Base.Int.{ℤ, pos, ◌<ℤ◌}
use kernel_sim.Base.Array.{load}
use kernel_sim.Base.Outcome.{done, ◌>>=◌, Ends, ends, Ends-then}
use kernel_sim.Pcb.{Pcb}
use kernel_sim.MinHeap.{create_min_heap}
use kernel_sim.Scheduler.{SchedulingAlgorithm, hpf, srtn, rr, other}
use kernel_sim.Arguments.{
  SchedulingParams, SchedulerStart, algorithm_number, numbered, is_rr, sprintf_d,
  scheduler_arguments, scheduler_start, prepare, process_arguments, process_start, parse_args,
}
use kernel_sim.Arguments.Parse.{parse_args-IsUsable}

-- `atoi` reads what `sprintf` prints.
abbrev pub Reads : (String → ℤ) → (ℤ → String) → Type 0
Reads atoi printed = (n : ℤ) → atoi (printed n) ≡ n

numbered-algorithm_number : (a : SchedulingAlgorithm) → numbered (algorithm_number a) ≡ a
numbered-algorithm_number hpf = refl
numbered-algorithm_number srtn = refl
numbered-algorithm_number rr = refl
numbered-algorithm_number other = refl

sliced : (a : SchedulingAlgorithm) → is_rr a ≡ true → a ≡ rr
sliced rr e = refl
sliced hpf e = cc
sliced srtn e = cc
sliced other e = cc

not_sliced : {a : SchedulingAlgorithm} → a ≡ rr → is_rr a ≡ false → ⊥
not_sliced e not_rr = let e' = rw e at not_rr in cc

-- The scheduler has what the generator was told.
pub record Passed (params : SchedulingParams) (id : ℤ) (s : SchedulerStart) : Type 0 where
  pub algorithm : s.algorithm ≡ params.algorithm
  pub semid : s.semid ≡ id
  pub quantum : params.algorithm ≡ rr → s.quantum ≡ params.quantum
  pub positive : params.algorithm ≡ rr → pos 0 <ℤ s.quantum

module _ (atoi : String → ℤ) (printed : ℤ → String) (reads : Reads atoi printed) where
  sprintf_d-done :
      (size : ℕ) (n : ℤ) → len (printed n) < size → sprintf_d printed size n ≡ done (printed n)
  unfolding sprintf_d
  sprintf_d-done size n fits = rw (lt→ltb (len (printed n)) size fits) refl

  module _ (params : SchedulingParams) (semid : ℤ) (processes : List Pcb)
      (malloc : ℕ → List Pcb) where
    prepare-Ends :
        (program a id : String) (algorithm : SchedulingAlgorithm)
        → is_rr algorithm ≡ false
        → Ends
            (λ _. Unit {0})
            (prepare atoi true (some processes) malloc (program ∷ a ∷ id ∷ []) algorithm)
    unfolding prepare create_min_heap
    prepare-Ends program a id hpf not_rr = ends tt
    prepare-Ends program a id srtn not_rr = ends tt
    prepare-Ends program a id rr not_rr = cc
    prepare-Ends program a id other not_rr = ends tt

    without_quantum-Passed :
        is_rr params.algorithm ≡ false
        → len (printed (algorithm_number params.algorithm)) < 10
        → len (printed semid) < 10
        → Ends (Passed params semid) (
            scheduler_arguments printed params semid
            >>= scheduler_start atoi true (some processes) malloc)
    unfolding scheduler_arguments scheduler_start load
    without_quantum-Passed not_rr a_fits s_fits =
        let number = algorithm_number params.algorithm in
        rw
          (
            sprintf_d-done 10 number a_fits,
            sprintf_d-done 10 semid s_fits,
            not_rr,
            reads number,
            numbered-algorithm_number params.algorithm,
          )
          (Ends-then
            (prepare-Ends "scheduler" (printed number) (printed semid) params.algorithm not_rr)
            λ r _. ends (record {
              algorithm = refl;
              semid = reads semid;
              quantum = λ e. absurd (not_sliced e not_rr);
              positive = λ e. absurd (not_sliced e not_rr);
            }))

    quantum-Passed :
        is_rr params.algorithm ≡ true
        → (params.algorithm ≡ rr → pos 0 <ℤ params.quantum)
        → len (printed (algorithm_number params.algorithm)) < 10
        → len (printed semid) < 10
        → len (printed params.quantum) < 10
        → Ends (Passed params semid) (
            scheduler_arguments printed params semid
            >>= scheduler_start atoi true (some processes) malloc)
    unfolding scheduler_arguments scheduler_start prepare load
    quantum-Passed at_rr positive a_fits s_fits q_fits =
        let number = algorithm_number params.algorithm in
        let e = sliced params.algorithm at_rr in
        rw
          (
            sprintf_d-done 10 number a_fits,
            sprintf_d-done 10 semid s_fits,
            at_rr,
            sprintf_d-done 10 params.quantum q_fits,
            reads number,
            numbered-algorithm_number params.algorithm,
            e,
          )
          (ends (record {
            algorithm = refl;
            semid = reads semid;
            quantum = λ _. reads params.quantum;
            positive = λ _. rw (reads params.quantum) (positive e);
          }))

    -- When atoi reads what sprintf prints, the numbers fit their arrays and malloc succeeds: for
    -- every command line that parse_args accepts, the scheduler started with the arguments that
    -- the generator writes ends its setup with the same algorithm and semaphore id and, under
    -- round robin, the same quantum, which is positive.
    pub scheduler_start-Passed :
        (argv : List String)
        → parse_args atoi argv ≡ some params
        → len (printed (algorithm_number params.algorithm)) < 10
        → len (printed semid) < 10
        → len (printed params.quantum) < 10
        → Ends (Passed params semid) (
            scheduler_arguments printed params semid
            >>= scheduler_start atoi true (some processes) malloc)
    scheduler_start-Passed argv parsed a_fits s_fits q_fits =
        elim (Bool-cases (is_rr params.algorithm)) [
          | inl at_rr ↦
              quantum-Passed at_rr (parse_args-IsUsable atoi argv params parsed).quantum a_fits
                s_fits q_fits
          | inr not_rr ↦ without_quantum-Passed not_rr a_fits s_fits
        ]

  -- When atoi reads what sprintf prints and the numbers fit their arrays, a process reads from
  -- its arguments the remaining time, shared memory, scheduler and semaphore that createProcess
  -- wrote.
  pub process_start-passed :
      (process : Pcb) (shmid scheduler_pid : ℤ)
      → len (printed process.remaining_time) < 10
      → len (printed shmid) < 20
      → len (printed scheduler_pid) < 20
      → len (printed process.sync_semid) < 20
      → (process_arguments printed process shmid scheduler_pid >>= process_start atoi)
        ≡ done (record {
          runtime = process.remaining_time;
          shared_mem_id = shmid;
          scheduler_pid = scheduler_pid;
          semid = process.sync_semid;
        })
  unfolding process_arguments process_start load
  process_start-passed process shmid scheduler_pid r i p s =
      rw
        (
          sprintf_d-done 10 process.remaining_time r,
          sprintf_d-done 20 shmid i,
          sprintf_d-done 20 scheduler_pid p,
          sprintf_d-done 20 process.sync_semid s,
          reads process.remaining_time,
          reads shmid,
          reads scheduler_pid,
          reads process.sync_semid,
        )
        refl
