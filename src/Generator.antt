-- ===== src/Generator.antt =====
-- src/process_generator.c: the process that reads the input, gives each arriving process its memory,
-- starts it and tells the scheduler. What the system calls return is an argument: for the n-th
-- process that is created, for the n-th semaphore and for the n-th message. What they change is a
-- list of effects, newest first.
pub mod Launch
pub mod ReadProcesses
pub mod Serve
pub mod WaitingQueue
pub mod Arrival
pub mod Arrived
pub mod Arrive
pub mod Rows
pub mod Tick
pub mod Run
pub mod Kept
pub mod Fresh
pub mod Input
pub mod Stuck
pub mod Tests
mod RunTests
pub mod InputTests
use kernel_sim.Base.{
  ℕ, zero, suc, ◌+◌, Bool, true, false, not, ◌&&◌, ◌||◌, List, [], ◌∷◌, ◌++◌, Option, none, some,
  if◌then◌else◌,
}
use kernel_sim.Base.Int.{ℤ, pos, minus_one, ◌+ℤ◌, ◌==ℤ◌, leb_ℤ}
use kernel_sim.Base.Outcome.{Outcome, done, exited, exhausted, ◌>>=◌}
use kernel_sim.Pcb.{Pcb}
use kernel_sim.PriorityQueue.{Process, PriorityQueue, pq_top, pq_pop, pq_empty, pq_free}
use kernel_sim.Queue.{PcbQueue, queue_init, queue_empty, queue_front, queue_dequeue, queue_enqueue}
use kernel_sim.Memory.{
  MemoryBlock, Header, MemoryEvent, allocate_memory, update_id, deallocate_memory,
  destroy_memory_segment,
}

-- What `createProcess` gets: the id of the shared memory, whether it can be attached, and the pid.
pub record Fork : Type 0 where
  pub shmid : ℤ
  pub attached : Bool
  pub pid : ℤ

-- What the two calls of `semget` return for an arriving process, and whether `semctl` succeeds.
pub record Semget : Type 0 where
  pub first : ℤ
  pub second : ℤ
  pub set : Bool

-- `fresh` is what `malloc` leaves in the control block of an arriving process.
pub record GeneratorOs : Type 0 where
  pub malloc : ℕ → List Pcb
  pub fresh : ℕ → Pcb
  pub forks : ℕ → Fork
  pub semaphores : ℕ → Semget
  pub msgsnd : ℕ → Bool

pub data GeneratorEffect : Type 0 where
  log_memory_event : MemoryEvent → GeneratorEffect
  store_remaining_time : ℤ → ℤ → GeneratorEffect
  stop_process : ℤ → GeneratorEffect
  release_scheduler generation_complete : GeneratorEffect

-- `sent` is what went into the message queue, oldest first. `births`, `arrivals` and the length of
-- `sent` count the calls that the operating system has answered.
pub record Generator : Type 0 where
  pub pq : PriorityQueue
  pub waiting_queue : PcbQueue
  pub memory_segment : MemoryBlock
  pub sent : List Pcb
  pub births : ℕ
  pub arrivals : ℕ
  pub messages : ℕ
  pub process_count : ℤ
  pub last_tick : ℤ
  pub once : Bool
  pub effects : List GeneratorEffect

unfoldable pub create_process : Fork → Pcb → Outcome Pcb
create_process f process =
    if f.shmid ==ℤ minus_one || not f.attached || f.pid ==ℤ minus_one
    then exited
    else done (record process { shm_id = f.shmid; pid = f.pid })

abbrev logged : Option MemoryEvent → List GeneratorEffect
logged none = []
logged (some e) = log_memory_event e ∷ []

-- The call of `allocate_memory`, with its answer.
unfoldable pub request_memory : Generator → Pcb → ℤ → Outcome (Bool × Generator)
request_memory g p time = do
  reply ← allocate_memory g.memory_segment p.id_from_file p.memory_size time
  done (
    reply.success,
    record g { memory_segment = reply.root; effects = logged reply.event ++ g.effects },
  )

-- The semaphore of an arriving process: the id 0 is not taken, and `semget` is called again.
abbrev pub chosen : Semget → ℤ
chosen a = if a.first ==ℤ pos 0 then a.second else a.first

unfoldable pub new_semaphore : Semget → Outcome ℤ
new_semaphore a =
    let failed = if a.first ==ℤ pos 0 then leb_ℤ a.second (pos 0) else a.first ==ℤ minus_one in
    if failed || not a.set then exited else done (chosen a)

abbrev pub new_pcb : Pcb → Process → ℤ → Pcb
new_pcb fresh p semid = record fresh {
  id_from_file = p.id;
  arrival_time = p.arrival_time;
  execution_time = p.execution_time;
  priority = p.priority;
  waiting_time = pos 0;
  start_time = minus_one;
  remaining_time = p.execution_time;
  memory_size = p.memory_size;
  sync_semid = semid;
}

-- The report that all processes have been sent, once.
abbrev pub complete : Generator → Generator
complete g =
    if pq_empty g.pq && queue_empty g.waiting_queue && g.once
    then record g { effects = generation_complete ∷ g.effects; once = false }
    else g

module _ (os : GeneratorOs) where
  -- `createProcess` and `update_id`
  unfoldable pub launch : Generator → Pcb → Outcome (Pcb × Generator)
  unfolding create_process
  launch g process = do
    p ← create_process (os.forks g.births) process
    done (
      p,
      record g {
        births = g.births + 1;
        memory_segment = update_id p.id_from_file p.pid g.memory_segment;
        effects = stop_process p.pid ∷ store_remaining_time p.shm_id p.remaining_time ∷ g.effects;
      },
    )

  unfoldable pub send : Generator → Pcb → Outcome Generator
  send g p =
      if os.msgsnd g.messages
      then done (record g { sent = g.sent ++ p ∷ []; messages = g.messages + 1 })
      else exited

  unfoldable pub admit : Generator → Pcb → Outcome Generator
  unfolding launch send
  admit g process = launch g process >>= λ r. send r.1 r.0

  -- The first loop of `serve_waiting_queue`. A round takes one process off the queue.
  unfoldable pub serve_from : ℕ → ℤ → Generator → PcbQueue → Outcome (Generator × PcbQueue)
  unfolding admit request_memory
  serve_from zero time g temp = exhausted
  serve_from (suc fuel) time g temp =
      let round = do
        p ← queue_front g.waiting_queue
        r ← request_memory (record g { waiting_queue = queue_dequeue g.waiting_queue }) p time
        let accept = admit r.1 p >>= λ h. serve_from fuel time h temp
        let postpone = queue_enqueue os.malloc temp p >>= λ t. serve_from fuel time r.1 t
        if r.0 then accept else postpone
      in if queue_empty g.waiting_queue then done (g, temp) else round

  -- The second loop.
  unfoldable pub move_back : ℕ → Generator → PcbQueue → Outcome Generator
  move_back zero g temp = exhausted
  move_back (suc fuel) g temp =
      let round = do
        p ← queue_front temp
        w ← queue_enqueue os.malloc g.waiting_queue p
        move_back fuel (record g { waiting_queue = w }) (queue_dequeue temp)
      in if queue_empty temp then done g else round

  unfoldable pub serve_waiting_queue : Generator → ℤ → Outcome Generator
  unfolding serve_from move_back
  serve_waiting_queue g time = do
    r ← serve_from (g.waiting_queue.size + 1) time g (queue_init os.malloc 100)
    move_back (r.1.size + 1) r.0 r.1

  -- The process at the top of the queue got its memory.
  unfoldable pub accept_arrival : Generator → Pcb → Outcome Generator
  unfolding launch send
  accept_arrival g new = do
    l ← launch g new
    pq ← pq_pop l.1.pq
    h ← send (record l.1 { pq = pq }) l.0
    done (record h { process_count = h.process_count +ℤ pos 1 })

  -- It did not.
  unfoldable pub postpone_arrival : Generator → Pcb → Outcome Generator
  postpone_arrival g new = do
    w ← queue_enqueue os.malloc g.waiting_queue new
    pq ← pq_pop g.pq
    done (record g { waiting_queue = w; pq = pq })

  -- One round of the loop over the processes that have arrived.
  unfoldable pub arrive : Generator → ℤ → Outcome Generator
  unfolding accept_arrival postpone_arrival request_memory new_semaphore
  arrive g time = do
    p ← pq_top g.pq
    semid ← new_semaphore (os.semaphores g.arrivals)
    let new = new_pcb (os.fresh g.arrivals) p semid
    r ← request_memory (record g { arrivals = g.arrivals + 1 }) new time
    if r.0 then accept_arrival r.1 new else postpone_arrival r.1 new

  -- `while (!pq_empty(&pq) && pq_top(&pq).arrival_time <= current_time)`
  unfoldable pub arrive_all : ℕ → Generator → ℤ → Outcome Generator
  unfolding arrive
  arrive_all zero g time = exhausted
  arrive_all (suc fuel) g time =
      let next = arrive g time >>= λ h. arrive_all fuel h time in
      let look = pq_top g.pq >>= λ p. if leb_ℤ p.arrival_time time then next else done g in
      if pq_empty g.pq then done g else look

  -- What `main` does when the clock has ticked.
  unfoldable pub serve_tick : Generator → ℤ → Outcome Generator
  unfolding serve_waiting_queue arrive_all
  serve_tick g time = do
    s ← serve_waiting_queue (record g { last_tick = time }) time
    a ← arrive_all (s.pq.size + 1) s time
    done (record a { effects = release_scheduler ∷ a.effects })

  -- One round of the loop of `main`.
  unfoldable pub generator_round : Generator → ℤ → Outcome Generator
  unfolding serve_tick
  generator_round g now = do
    h ← if now ==ℤ g.last_tick then done g else serve_tick g now
    done (complete h)

-- What `waitpid` reports of a child: its end by `exit`, or by a signal.
pub data Child : Type 0 where
  exited_child signaled_child : ℤ → Child

-- The generator goes on, or `clear_resources` has ended it; the blocks freed then are in order.
pub data AfterChildren : Type 0 where
  going : Generator → AfterChildren
  cleared : PriorityQueue → List Header → AfterChildren

unfoldable pub clear_resources : Generator → AfterChildren
clear_resources g = cleared (pq_free g.pq) (destroy_memory_segment g.memory_segment)

abbrev released : Generator → ℤ → ℤ → Generator
released g pid now =
    let reply = deallocate_memory g.memory_segment pid now in
    record g { memory_segment = reply.root; effects = logged reply.event ++ g.effects }

unfoldable pub handle_children_termination : Generator → ℤ → List Child → ℤ → AfterChildren
unfolding clear_resources
handle_children_termination g scheduler_pid [] now = going g
handle_children_termination g scheduler_pid (signaled_child pid ∷ children) now =
    handle_children_termination g scheduler_pid children now
handle_children_termination g scheduler_pid (exited_child pid ∷ children) now =
    if pid ==ℤ scheduler_pid
    then clear_resources g
    else handle_children_termination (released g pid now) scheduler_pid children now
