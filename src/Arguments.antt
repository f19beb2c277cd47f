-- ===== src/Arguments.antt =====
-- How the three programs read their arguments, and write those of the programs that they start:
-- `main` and `parse_args` of src/process_generator.c, and `main` of src/scheduler.c and
-- src/process.c. `atoi` and the text that `sprintf` prints of an int are the C library's. `argv` ends
-- with a null pointer, and `atoi` of it is undefined, so an argument that is missing is a fault.
pub mod Parse
pub mod Pass
pub mod Known
pub mod Tests
use Prim.Native.String.{String, len}
use text.Mathlib.Text.{◌==◌ as ◌==ₛ◌}
use kernel_sim.Base.{
  ℕ, Bool, true, false, ◌&&◌, List, [], ◌∷◌, Option, none, some, ltb, if◌then◌else◌,
}
use kernel_sim.Base.Int.{ℤ, pos, ◌==ℤ◌, leb_ℤ}
use kernel_sim.Base.Array.{length, load}
use kernel_sim.Base.Outcome.{Outcome, done, fault, exited, ◌>>=◌}
use kernel_sim.Pcb.{Pcb, compare_remaining_time, compare_priority}
use kernel_sim.MinHeap.{MinHeap, create_min_heap}
use kernel_sim.Queue.{PcbQueue, queue_init}
use kernel_sim.Scheduler.{SchedulingAlgorithm, hpf, srtn, rr, other}

pub record SchedulingParams : Type 0 where
  pub algorithm : SchedulingAlgorithm
  pub quantum : ℤ
  pub filename : Option String

abbrev pub no_params : SchedulingParams
no_params = record { algorithm = hpf; quantum = pos 0; filename = none }

abbrev pub algorithm_of : String → Option SchedulingAlgorithm
algorithm_of name =
    if name ==ₛ "rr"
    then some rr
    else if name ==ₛ "hpf"
    then some hpf
    else if name ==ₛ "srtn"
    then some srtn
    else none

-- The numbers of the enumeration; 3 stands for those that name no algorithm.
abbrev pub algorithm_number : SchedulingAlgorithm → ℤ
algorithm_number hpf = pos 0
algorithm_number srtn = pos 1
algorithm_number rr = pos 2
algorithm_number other = pos 3

abbrev pub numbered : ℤ → SchedulingAlgorithm
numbered n =
    if n ==ℤ pos 1 then srtn else if n ==ℤ pos 0 then hpf else if n ==ℤ pos 2 then rr else other

abbrev pub is_rr : SchedulingAlgorithm → Bool
is_rr rr = true
is_rr hpf = false
is_rr srtn = false
is_rr other = false

-- The tests after the loop.
abbrev pub checked : Option SchedulingParams → Option SchedulingParams
checked none = none
checked (some p) = elim p.filename [
  | none ↦ none
  | some f ↦ if is_rr p.algorithm && leb_ℤ p.quantum (pos 0) then none else some p
]

-- What the scheduler keeps its ready processes in.
pub data ReadyProcesses : Type 0 where
  in_heap : MinHeap → ReadyProcesses
  in_ring : PcbQueue → ReadyProcesses
  nowhere : ReadyProcesses

pub record SchedulerStart : Type 0 where
  pub algorithm : SchedulingAlgorithm
  pub quantum : ℤ
  pub semid : ℤ
  pub ready : ReadyProcesses

pub record ProcessStart : Type 0 where
  pub runtime : ℤ
  pub shared_mem_id : ℤ
  pub scheduler_pid : ℤ
  pub semid : ℤ

abbrev heap_of : Option MinHeap → Outcome ReadyProcesses
heap_of none = exited
heap_of (some h) = done (in_heap h)

module _ (atoi : String → ℤ) where
  -- The loop, from some argument on.
  unfoldable pub parse_from : List String → SchedulingParams → Option SchedulingParams
  parse_from [] params = some params
  parse_from (flag ∷ []) params = some params
  parse_from (flag ∷ value ∷ rest) params =
      let skipped = parse_from (value ∷ rest) params in
      let named : Option SchedulingParams = elim (algorithm_of value) [
        | none ↦ none
        | some a ↦ parse_from rest (record params { algorithm = a })
      ] in
      let read = parse_from rest (record params { filename = some value }) in
      let sliced = parse_from rest (record params { quantum = atoi value }) in
      if flag ==ₛ "-s"
      then named
      else if flag ==ₛ "-f"
      then read
      else if flag ==ₛ "-q"
      then sliced
      else skipped

  unfoldable pub parse_args : List String → Option SchedulingParams
  unfolding parse_from
  parse_args [] = none
  parse_args (program ∷ arguments) =
      if ltb (length (program ∷ arguments)) 5
      then none
      else checked (parse_from arguments no_params)

  -- The structure that `main` of the scheduler makes, and the quantum. `heap` and `processes` are
  -- what the calls of `malloc` for a heap return.
  unfoldable pub prepare :
      Bool
      → Option (List Pcb)
      → (ℕ → List Pcb)
      → List String
      → SchedulingAlgorithm
      → Outcome (ℤ × ReadyProcesses)
  unfolding create_min_heap queue_init load
  prepare heap processes malloc argv srtn =
      heap_of (create_min_heap heap processes compare_remaining_time) >>= λ r. done (pos 0, r)
  prepare heap processes malloc argv hpf =
      heap_of (create_min_heap heap processes compare_priority) >>= λ r. done (pos 0, r)
  prepare heap processes malloc argv rr =
      if ltb (length argv) 4
      then exited
      else (load argv 3 >>= λ q. done (atoi q, in_ring (queue_init malloc 100)))
  prepare heap processes malloc argv other =
      if ltb (length argv) 3 then exited else done (pos 0, nowhere)

  unfoldable pub scheduler_start :
      Bool → Option (List Pcb) → (ℕ → List Pcb) → List String → Outcome SchedulerStart
  unfolding prepare load
  scheduler_start heap processes malloc argv =
      let start = do
        a ← load argv 1
        let algorithm = numbered (atoi a)
        r ← prepare heap processes malloc argv algorithm
        s ← load argv 2
        done (record { algorithm = algorithm; quantum = r.0; semid = atoi s; ready = r.1 })
      in if ltb (length argv) 2 then exited else start

  unfoldable pub process_start : List String → Outcome ProcessStart
  unfolding load
  process_start argv =
      let start = do
        runtime ← load argv 1
        id ← load argv 2
        pid ← load argv 3
        semid ← load argv 4
        done (record {
          runtime = atoi runtime;
          shared_mem_id = atoi id;
          scheduler_pid = atoi pid;
          semid = atoi semid;
        })
      in if ltb (length argv) 4 then exited else start

module _ (printed : ℤ → String) where
  -- `sprintf(s, "%d", n)` for an array `s` of some size, which also holds the end of the text.
  unfoldable pub sprintf_d : ℕ → ℤ → Outcome String
  sprintf_d size n = if ltb (len (printed n)) size then done (printed n) else fault

  -- The arguments of the scheduler.
  unfoldable pub scheduler_arguments : SchedulingParams → ℤ → Outcome (List String)
  unfolding sprintf_d
  scheduler_arguments params semid = do
    a ← sprintf_d 10 (algorithm_number params.algorithm)
    s ← sprintf_d 10 semid
    let sliced = sprintf_d 10 params.quantum >>= λ q. done ("scheduler" ∷ a ∷ s ∷ q ∷ [])
    if is_rr params.algorithm then sliced else done ("scheduler" ∷ a ∷ s ∷ [])

  -- The arguments of a process.
  unfoldable pub process_arguments : Pcb → ℤ → ℤ → Outcome (List String)
  unfolding sprintf_d
  process_arguments process shmid scheduler_pid = do
    r ← sprintf_d 10 process.remaining_time
    i ← sprintf_d 20 shmid
    p ← sprintf_d 20 scheduler_pid
    s ← sprintf_d 20 process.sync_semid
    done ("process.out" ∷ r ∷ i ∷ p ∷ s ∷ [])
