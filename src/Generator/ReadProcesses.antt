-- ===== src/Generator/ReadProcesses.antt =====
-- `read_processes`, and what `main` sets up before its loop. What `sscanf` reads from a line is an
-- argument: the ints it has converted. So is the file, as the lines that `fgets` returns.
use Prim.Native.Char.{code}
use Prim.Native.String.{String, [] as []ₛ, ◌∷◌ as ◌∷ₛ◌}
use kernel_sim.Base.{ℕ, Bool, true, false, List, [], ◌∷◌, Option, some, none, ◌==◌, if◌then◌else◌}
use kernel_sim.Base.Int.{ℤ, pos, minus_one}
use kernel_sim.Base.Outcome.{Outcome, done, exited, ◌>>=◌}
use kernel_sim.PriorityQueue.{Process, PriorityQueue, by_arrival_time, pq_init, pq_push}
use kernel_sim.Queue.{queue_init}
use kernel_sim.Memory.{total_memory_size, initialize_memory_block}
use kernel_sim.Generator.{Generator, GeneratorOs}

-- A line that starts with '#'
abbrev pub is_comment : String → Bool
is_comment []ₛ = false
is_comment (c ∷ₛ line) = code c == b'#'

-- The process of a line of five numbers; `fresh` is what the others fields of the local variable hold.
abbrev pub row : Process → List ℤ → Option Process
row fresh (id ∷ arrival_time ∷ execution_time ∷ priority ∷ memory_size ∷ []) = some (record fresh {
  id = id;
  arrival_time = arrival_time;
  execution_time = execution_time;
  priority = priority;
  memory_size = memory_size;
})
row fresh _ = none

module _ (sscanf : String → List ℤ) (fresh : Process) (malloc : ℕ → List Process) where
  unfoldable pub push_lines : List String → PriorityQueue → Outcome PriorityQueue
  push_lines [] pq = done pq
  push_lines (line ∷ lines) pq =
      let skip = push_lines lines pq in
      let read : Outcome PriorityQueue = elim (row fresh (sscanf line)) [
        | none ↦ push_lines lines pq
        | some p ↦ pq_push malloc pq p >>= λ q. push_lines lines q
      ] in
      if is_comment line then skip else read

  -- `none` stands for a file that cannot be opened. The first line is not looked at.
  unfoldable pub read_processes : Option (List String) → PriorityQueue → Outcome PriorityQueue
  unfolding push_lines
  read_processes none pq = exited
  read_processes (some []) pq = done pq
  read_processes (some (header ∷ lines)) pq = push_lines lines pq

  -- The state of `main` when its loop begins.
  unfoldable pub generator_start : GeneratorOs → Option (List String) → Outcome Generator
  unfolding read_processes
  generator_start os file = do
    pq ← read_processes file (pq_init malloc 20 by_arrival_time)
    done (record {
      pq = pq;
      waiting_queue = queue_init os.malloc 100;
      memory_segment = initialize_memory_block total_memory_size;
      sent = [];
      births = 0;
      arrivals = 0;
      messages = 0;
      process_count = pos 0;
      last_tick = minus_one;
      once = true;
      effects = [];
    })
