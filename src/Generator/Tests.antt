-- ===== src/Generator/Tests.antt =====
-- The theorems about the process generator at concrete states.
use mathlib.Core.Logic.Or
use native.Mathlib.Bridge.{le_prop}
use mathlib.Core.List.{mem-cons, not-mem-nil}
use kernel_sim.Base.{Mem, ℕ, zero, suc, ◌+◌, ◌^◌, ◌≡◌, refl, true, List, [], ◌∷◌, arith}
use kernel_sim.Base.Int
use kernel_sim.Base.Int.{ℤ, pos, minus_one, ◌==ℤ◌, leb_ℤ, ◌≤ℤ◌}
use kernel_sim.Base.Array
use kernel_sim.Base.Array.{replicate, length-replicate}
use kernel_sim.Base.Outcome.{done, Ends, ◌>>=◌}
use kernel_sim.Pcb.{Pcb, zero_pcb}
use kernel_sim.Heap.Order.{IsHeap}
use kernel_sim.PriorityQueue
use kernel_sim.PriorityQueue.{
  Process, PriorityQueue, SortMode, by_arrival_time, compare_processes, pq_top, pq_pop, pq_empty,
}
use kernel_sim.PriorityQueue.Inv.{zero_process, IsValid}
use kernel_sim.Queue.{PcbQueue, queue_init, queue_empty, queue_front, queue_dequeue, queue_enqueue}
use kernel_sim.Queue.Inv.{contents}
use kernel_sim.Queue.Small.{IsSmall}
use kernel_sim.Memory.{
  initialize_memory_block, total_memory_size, allocate_memory, update_id, highest_power_of_2,
  traverse_memory_segment, get_block_address,
}
use kernel_sim.Memory.Sized.{Sized}
use kernel_sim.Generator.{
  new_semaphore, Generator, GeneratorOs, serve_waiting_queue, arrive_all, generator_round,
}
use kernel_sim.Generator.Rows.{all_rows}
use kernel_sim.Generator.Tick.{IsReady, Keeps, generator_round-Keeps}
use kernel_sim.Generator.Launch.{IsSteady}
use kernel_sim.Generator.WaitingQueue.{Served, serve_waiting_queue-Served}
use kernel_sim.Generator.Arrived.{Arrives, ArriveInv}
use kernel_sim.Generator.Arrive.{arrive_all-Arrives}

abbrev pub os : GeneratorOs
os = record {
  malloc = λ n. replicate n zero_pcb;
  fresh = λ n. zero_pcb;
  forks = λ n. record { shmid = pos 7; attached = true; pid = pos (90 + n) };
  semaphores = λ n. record { first = pos 0; second = pos 6; set = true };
  msgsnd = λ n. true;
}

pub os-IsSteady : IsSteady os
unfolding new_semaphore
os-IsSteady = record {
  malloc = λ n. length-replicate n zero_pcb;
  shmid = λ n. refl;
  attached = λ n. refl;
  pid = λ n. ground arith;
  semget = λ n. ground arith;
  semaphore = λ n. (pos 6, refl);
  msgsnd = λ n. refl;
}

abbrev waiting_process : ℕ → Pcb
waiting_process size = record zero_pcb { id_from_file = pos 3; memory_size = pos size }

-- Two processes wait, one of which asks for more than there is.
abbrev pub ring : PcbQueue
ring = record {
  elements = waiting_process 2000 ∷ waiting_process 100 ∷ [];
  front = 0;
  rear = 0;
  size = 2;
  capacity = 2;
}

ring-IsSmall : IsSmall ring
ring-IsSmall = record {
  valid = record {
    storage = refl;
    has_room = omega arith;
    small = omega arith;
    front_in = omega arith;
    fits = omega arith;
    rear_at = refl;
  };
  capacity = omega arith;
}

-- Process 1 arrives at 1, and process 2 at 6.
abbrev pub arrives : ℕ → ℕ → Process
arrives id time = record zero_process {
  id = pos id;
  arrival_time = pos time;
  memory_size = pos 200;
}

abbrev pub queue : PriorityQueue
queue = record {
  elements = arrives 1 1 ∷ arrives 2 6 ∷ [];
  size = 2;
  capacity = 2;
  sort_mode = by_arrival_time;
}

queue_heap : IsHeap (compare_processes by_arrival_time) zero_process queue.elements 2
unfolding compare_processes Int.◌-ℤ◌
queue_heap zero p q = absurd (omega arith)
queue_heap (suc zero) p q = omega arith
queue_heap (suc (suc c)) p q = absurd (omega arith)

queue-IsValid : IsValid queue
queue-IsValid = record {
  storage = refl;
  fits = omega arith;
  has_room = omega arith;
  small = omega arith;
  heap = queue_heap;
}

abbrev pub start : Generator
start = record {
  pq = queue;
  waiting_queue = ring;
  memory_segment = initialize_memory_block total_memory_size;
  sent = [];
  births = 0;
  arrivals = 0;
  messages = 0;
  process_count = pos 0;
  last_tick = minus_one;
  once = true;
  effects = [];
}

pub start-Sized : Sized total_memory_size start.memory_segment
start-Sized = (refl, tt, tt)

abbrev served_and_waiting : Generator → List Pcb × List Pcb
served_and_waiting g = (g.sent, contents g.waiting_queue)

-- The second process is sent, and the first waits on.
serve_run :
    (serve_waiting_queue os start (pos 4) >>= λ h. done (served_and_waiting h))
    ≡ done (
      record (waiting_process 100) { shm_id = pos 7; pid = pos 90 } ∷ [],
      waiting_process 2000 ∷ [],
    )
unfolding serve_waiting_queue allocate_memory update_id queue_enqueue Array.load Array.store
    highest_power_of_2 traverse_memory_segment get_block_address Int.◌+ℤ◌ Int.◌-ℤ◌ queue_empty
    queue_front queue_init queue_dequeue
serve_run = refl

serve_waiting_queue-Served_example :
    Ends (Served os (pos 4) start) (serve_waiting_queue os start (pos 4))
serve_waiting_queue-Served_example =
    serve_waiting_queue-Served os start (pos 4) os-IsSteady ring-IsSmall (omega arith)
      (omega arith, omega arith) start-Sized

little : (p : Process) → Mem p (PriorityQueue.contents queue) → p.memory_size ≤ℤ pos (2 ^ 30)
little p m =
    Or.elim le_prop (mem-cons.0 m) (λ same. rw same (omega arith))
      λ there.
        Or.elim le_prop (mem-cons.0 there) (λ same. rw same (omega arith))
          (λ none. absurd (not-mem-nil none))

start-ArriveInv : ArriveInv start
start-ArriveInv = record {
  valid = queue-IsValid;
  small = ring-IsSmall;
  sized = start-Sized;
  total = omega arith;
  little = little;
}

arrive_all-Arrives_example : Ends (Arrives os (pos 3) start) (arrive_all os 3 start (pos 3))
arrive_all-Arrives_example =
    arrive_all-Arrives os 3 start (pos 3) os-IsSteady (omega arith) start-ArriveInv

start-IsReady : IsReady start
start-IsReady = record {
  arrive = start-ArriveInv;
  little = (omega arith, omega arith);
  complete = λ over. ground (arith, over);
}

generator_round-Keeps_example : Ends (Keeps (all_rows start)) (generator_round os start (pos 4))
generator_round-Keeps_example = generator_round-Keeps os os-IsSteady start (pos 4) start-IsReady
