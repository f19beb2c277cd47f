-- ===== src/Scheduler/Dispatch.antt =====
-- The choice of the next process in src/scheduler.c under the algorithms that use the heap.
use mathlib.Core.List.Perm
use mathlib.Core.List.{mem-cons_self}
use kernel_sim.Base.{
  ◌<◌, ◌≡◌, refl, ap, ◌∙◌, Bool, true, false, List, ◌∷◌, none, some, Bool-cases, inl, inr,
  if◌then◌else◌, Mem, Perm, arith,
}
use kernel_sim.Base.Int.{ℤ, pos, minus_one, ◌-ℤ◌, ◌==ℤ◌, leb_ℤ}
use kernel_sim.Base.Outcome.{Ends, ends, Ends-then}
use kernel_sim.Pcb.{Pcb, running}
use kernel_sim.MinHeap.{MinHeap, contents}
use kernel_sim.Queue.{PcbQueue}
use kernel_sim.MinHeap.Inv.{IsValid, Holds}
use kernel_sim.MinHeap.Insert.{insert_process_min_heap-Holds}
use kernel_sim.MinHeap.Extract.{Extracted, extract_min-Extracted}
use kernel_sim.Heap.Order.{Precedes}
use kernel_sim.Scheduler.Stop.{
  HasRunningTime, preempted, signal_stop_kept, preempt_process-signal_stop,
}
use kernel_sim.Scheduler.{
  Os, Scheduler, is_rr, start_process, resume_process, signal_stop, ready_up, take_next, run_next,
  switch_to_next, stop_current,
}

-- The process has a semaphore.
abbrev pub HasSemaphore : Pcb → Type 0
HasSemaphore p = leb_ℤ p.sync_semid (pos 0) ≡ false

-- `p` runs, and is `next` but for its state and its times.
pub record Runs (next p : Pcb) : Type 0 where
  pub pid : p.pid ≡ next.pid
  pub id_from_file : p.id_from_file ≡ next.id_from_file
  pub remaining_time : p.remaining_time ≡ next.remaining_time
  pub state : p.state ≡ running
  pub sync_semid : p.sync_semid ≡ next.sync_semid
  pub shm_id : p.shm_id ≡ next.shm_id
  pub execution_time : p.execution_time ≡ next.execution_time

-- One of the processes `ps` runs, one that none of them precedes; the others are in the heap.
pub record Dispatched (cmp : Pcb → Pcb → ℤ) (ps : List Pcb) (s : Scheduler) : Type 0 where
  pub next : Pcb
  pub current : Pcb
  pub same : Perm (next ∷ contents s.ready_heap) ps
  pub least : (q : Pcb) → Mem q ps → Precedes cmp next q
  pub runs : s.current_process ≡ some current
  pub is_next : Runs next current
  pub valid : IsValid s.ready_heap

-- What `run_next` leaves: the process runs, and the heap and the ring are untouched.
pub record Running (next : Pcb) (h : MinHeap) (q : PcbQueue) (s' : Scheduler) : Type 0 where
  pub current : Pcb
  pub runs : s'.current_process ≡ some current
  pub is_next : Runs next current
  pub heap : s'.ready_heap ≡ h
  pub queue : s'.rr_queue ≡ q

next-Runs :
    (next current : Pcb) (s : Scheduler)
    → s.current_process ≡ some current
    → Runs next current
    → Running next s.ready_heap s.rr_queue s
next-Runs next current s e r = record {
  current = current;
  runs = e;
  is_next = r;
  heap = refl;
  queue = refl;
}

-- The guards of `run_next`, for a process that has a semaphore.
run_guards :
    {next : Pcb} {h : MinHeap} {q : PcbQueue} (skipped begun gone_on : Scheduler) (skip new : Bool)
    → skip ≡ false
    → Running next h q begun
    → Running next h q gone_on
    → Running next h q (if skip then skipped else if new then begun else gone_on)
run_guards z x y true new e b g = absurd (ground arith)
run_guards z x y false true e b g = b
run_guards z x y false false e b g = g

module _ (os : Os) where
  start_process-Running :
      (s : Scheduler) (p : Pcb)
      → HasSemaphore p
      → Running p s.ready_heap s.rr_queue (start_process os s p)
  unfolding start_process
  start_process-Running s p h = rw h (elim (Bool-cases (os.kill p.pid)) [
    | inl sent ↦ rw sent (next-Runs p _ _ refl self)
    | inr lost ↦ rw lost (next-Runs p _ _ refl self)
  ])
    where
      self : Runs p (record p {
        state = running;
        start_time = s.clock_value;
        waiting_time = s.clock_value -ℤ p.arrival_time;
      })
      self = record {
        pid = refl;
        id_from_file = refl;
        remaining_time = refl;
        state = refl;
        sync_semid = refl;
        shm_id = refl;
        execution_time = refl;
      }

  resume_process-Running :
      (s : Scheduler) (p : Pcb) → Running p s.ready_heap s.rr_queue (resume_process os s p)
  unfolding resume_process
  resume_process-Running s p = elim (Bool-cases (os.kill p.pid)) [
    | inl sent ↦ rw (sent, resume_process) (next-Runs p _ _ refl self)
    | inr lost ↦ rw (lost, resume_process) (next-Runs p _ _ refl self)
  ]
    where
      self : {t : ℤ} → Runs p (record p { state = running; waiting_time = t })
      self = record {
        pid = refl;
        id_from_file = refl;
        remaining_time = refl;
        state = refl;
        sync_semid = refl;
        shm_id = refl;
        execution_time = refl;
      }

  pub run_next-Running :
      (s : Scheduler) (p : Pcb)
      → HasSemaphore p
      → Running p s.ready_heap s.rr_queue (run_next os (some p, s))
  unfolding run_next start_process resume_process
  run_next-Running s p h =
      let s' = record s { current_process = some p } in
      run_guards (record s { current_process = none }) (start_process os s' p)
        (resume_process os s' p) (leb_ℤ p.sync_semid (pos 0)) (p.start_time ==ℤ minus_one) h
        (start_process-Running s' p h) (resume_process-Running s' p)

  take_next-Extracted :
      (s : Scheduler)
      → is_rr s.algorithm ≡ false
      → IsValid s.ready_heap
      → 0 < s.ready_heap.size
      → Ends (λ r. Extracted s.ready_heap (r.0, r.1.ready_heap)) (take_next os s)
  unfolding take_next
  take_next-Extracted s heap v some_left =
      rw heap (Ends-then (extract_min-Extracted s.ready_heap v some_left) λ r x. ends x)

  pub switch_to_next-Dispatched :
      (s : Scheduler) (ps : List Pcb)
      → is_rr s.algorithm ≡ false
      → IsValid s.ready_heap
      → 0 < s.ready_heap.size
      → Perm (contents s.ready_heap) ps
      → ((q : Pcb) → Mem q ps → HasSemaphore q)
      → Ends (Dispatched s.ready_heap.cmp ps) (switch_to_next os s)
  unfolding switch_to_next
  switch_to_next-Dispatched s ps heap v some_left same sem =
      Ends-then (take_next-Extracted s heap v some_left) λ (o, t) x.
        let all = Perm.trans x.same same in
        let held = sem x.min ((Perm.mem_iff all).0 (mem-cons_self)) in
        let r = run_next-Running t x.min held in
        rw x.result (
          ends (record {
            next = x.min;
            current = r.current;
            same = rw r.heap all;
            least = λ q m. x.least q ((Perm.mem_iff same).1 m);
            runs = r.runs;
            is_next = r.is_next;
            valid = rw r.heap x.valid;
          }))

  pub stop_current-Holds :
      (s : Scheduler) (p : Pcb)
      → HasRunningTime p
      → is_rr s.algorithm ≡ false
      → IsValid s.ready_heap
      → s.ready_heap.size < s.ready_heap.capacity
      → Ends
          (λ t.
            Holds s.ready_heap (preempted os s p ∷ contents s.ready_heap) t.ready_heap
            × (is_rr t.algorithm ≡ false))
          (stop_current os s p)
  unfolding stop_current ready_up
  stop_current-Holds s p time heap v room =
      let (same_heap, same_algorithm, same_queue) = signal_stop_kept os s p in
      let still : is_rr (signal_stop os s p).1.algorithm ≡ false = ap is_rr same_algorithm ∙ heap in
      rw (preempt_process-signal_stop os s p time, still, same_heap)
        (Ends-then (insert_process_min_heap-Holds s.ready_heap (preempted os s p) v room)
          λ h holds. ends (holds, still))
