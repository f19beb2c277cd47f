-- ===== src/Scheduler/Turn.antt =====
-- `context_switching` of src/scheduler.c under any algorithm: no process is lost.
use mathlib.Core.List.{not-mem-nil, mem-cons_self, mem-cons_of_mem, perm_append_singleton}
use mathlib.Core.List.Perm
use mathlib.Core.Bool.{true≢false}
use kernel_sim.Base.{
  ℕ, ◌<◌, ◌≡◌, refl, sym, ap, ◌∙◌, true, false, ◌==◌, List, [], ◌∷◌, Bool, if◌then◌else◌, Option,
  none, some, Perm, arith,
}
use kernel_sim.Base.Int.{ℤ, pos, minus_one, ◌==ℤ◌, leb_ℤ}
use kernel_sim.Base.Array
use kernel_sim.Base.Array.{length}
use kernel_sim.Base.Outcome.{Ends, ends, Ends-then}
use kernel_sim.Pcb.{Pcb}
use kernel_sim.MinHeap
use kernel_sim.MinHeap.Inv.{length-contents}
use kernel_sim.MinHeap.Insert.{insert_process_min_heap-Holds}
use kernel_sim.MinHeap.Extract.{extract_min-Extracted, extract_min_empty}
use kernel_sim.Queue.Inv
use kernel_sim.Queue.Small.{queue_enqueue-IsSmall, queue_dequeue-IsSmall, size-contents}
use kernel_sim.Scheduler.{
  Os, Scheduler, start_process, resume_process, ready_up, take_next, run_next, switch_to_next,
}
use kernel_sim.Scheduler.Dispatch.{Runs, run_next-Running}
use kernel_sim.Scheduler.RoundRobin.{not_empty, ring-cons}
use kernel_sim.Scheduler.Complete.{is_idle}
use kernel_sim.Scheduler.Account.{
  by_ring, by_heap, HoldsReady, AllCanStart, CanStart, CanRun, Books, SameBooks, same_books,
  SameBooks-trans, Accounts, Settled, none_waits, Accounts-moved,
}

-- Nothing is ready, or one of the ready processes is taken.
pub data Taken (n : ℕ) (ps : List Pcb) (s : Scheduler) : Option Pcb × Scheduler → Type 0 where
  nothing : {t : Scheduler} → ps ≡ [] → HoldsReady n t [] → SameBooks s t → Taken n ps s (none, t)
  one :
      {t : Scheduler} (p : Pcb) (rest : List Pcb)
      → Perm (p ∷ rest) ps
      → HoldsReady n t rest
      → SameBooks s t
      → Taken n ps s (some p, t)

pub HoldsReady-moved :
    {n : ℕ} {ps : List Pcb} (s t : Scheduler)
    → HoldsReady n s ps
    → t.algorithm ≡ s.algorithm
    → t.rr_queue ≡ s.rr_queue
    → t.ready_heap ≡ s.ready_heap
    → HoldsReady n t ps
HoldsReady-moved s t holds a q h = rw (a, q, h) holds

Runs-CanRun : {next p : Pcb} → Runs next p → CanStart next → CanRun p
Runs-CanRun r held = record {
  semaphore = rw r.sync_semid held.0;
  running_time = rw r.execution_time held.1;
  alive = rw r.state refl;
}

pub SameBooks-if :
    {s t u : Scheduler} (b : Bool)
    → SameBooks s t
    → SameBooks s u
    → SameBooks s (if b then t else u)
SameBooks-if true x y = x
SameBooks-if false x y = y

module _ (os : Os) (alloc : Inv.Allocates os.malloc) where
  pub ready_up-HoldsReady :
      (n : ℕ) (s : Scheduler) (p : Pcb) (ps : List Pcb)
      → HoldsReady n s ps
      → length ps < n
      → Ends
          (λ t. HoldsReady n t (p ∷ ps) × SameBooks s t × (t.current_process ≡ s.current_process))
          (ready_up os s p)
  unfolding ready_up
  ready_up-HoldsReady n s p ps (by_ring r small room same) few = rw r (
      Ends-then
        (queue_enqueue-IsSmall os.malloc s.rr_queue p alloc small
          (omega (arith, Array.length-Perm same)))
        λ q (small', more). ends {a = record s { rr_queue = q }} (
          by_ring r small' room
              (rw more (Perm.trans (perm_append_singleton p _) (Perm.cons p same))),
          same_books refl refl refl refl refl refl refl,
          refl,
        ))
  ready_up-HoldsReady n s p ps (by_heap r valid room same) few = rw r (
      Ends-then
        (insert_process_min_heap-Holds s.ready_heap p valid
          (omega (arith, Array.length-Perm same, length-contents s.ready_heap valid)))
        λ h held. ends {a = record s { ready_heap = h }} (
          by_heap r held.valid (omega (arith, held.kept_capacity))
              (Perm.trans held.same (Perm.cons p same)),
          same_books refl refl refl refl refl refl refl,
          refl,
        ))

  take_next-Taken :
      (n : ℕ) (s : Scheduler) (ps : List Pcb)
      → HoldsReady n s ps
      → AllCanStart ps
      → Ends (Taken n ps s) (take_next os s)
  unfolding take_next
  take_next-Taken n s [] (by_ring r small room same) sem =
      let empty = Perm.eq-nil same in
      let size : (s.rr_queue.size == 0) ≡ true =
        ground (arith, size-contents s.rr_queue, ap length empty) in
      rw (r, size)
        (ends (
          nothing refl (by_ring r small room same) (same_books refl refl refl refl refl refl refl)))
  take_next-Taken n s (p ∷ ps) (by_ring r small room same) sem =
      let ring_of = s.rr_queue in
      let some_left : 0 < ring_of.size =
        omega (arith, size-contents ring_of, Array.length-Perm same) in
      let (q, rest, e) =
        ring-cons ring_of.elements ring_of.capacity ring_of.front ring_of.size some_left in
      let (_, front, small', tail) = queue_dequeue-IsSmall s.rr_queue q rest small e in
      let held = sem q ((Perm.mem_iff same).0 (rw e mem-cons_self)) in
      rw (r, not_empty s.rr_queue e, front, held.0, front)
        (ends (
          one q rest (rw e at same) (by_ring r small' room (rw tail Perm.rfl))
            (same_books refl refl refl refl refl refl refl)))
  take_next-Taken n s [] (by_heap r valid room same) sem =
      let empty = Perm.eq-nil same in
      let size : s.ready_heap.size ≡ 0 =
        omega (arith, length-contents s.ready_heap valid, ap length empty) in
      rw (r, extract_min_empty s.ready_heap size)
        (ends (
          nothing refl (by_heap r valid room same) (same_books refl refl refl refl refl refl refl)))
  take_next-Taken n s (p ∷ ps) (by_heap r valid room same) sem = rw r (
      Ends-then
        (extract_min-Extracted s.ready_heap valid
          (omega (arith, length-contents s.ready_heap valid, Array.length-Perm same)))
        λ (o, h) x. rw x.result (
          ends (
            one x.min (MinHeap.contents h) (Perm.trans x.same same)
              (by_heap r x.valid (omega (arith, x.kept_capacity)) Perm.rfl)
              (same_books refl refl refl refl refl refl refl))))

  start_process-SameBooks : (s : Scheduler) (p : Pcb) → SameBooks s (start_process os s p)
  unfolding start_process
  start_process-SameBooks s p =
      SameBooks-if (leb_ℤ p.sync_semid (pos 0)) (same_books refl refl refl refl refl refl refl) (
        SameBooks-if (os.kill p.pid) (same_books refl refl refl refl refl refl refl)
          (same_books refl refl refl refl refl refl refl))

  resume_process-SameBooks : (s : Scheduler) (p : Pcb) → SameBooks s (resume_process os s p)
  unfolding resume_process
  resume_process-SameBooks s p =
      SameBooks-if (os.kill p.pid) (same_books refl refl refl refl refl refl refl)
        (same_books refl refl refl refl refl refl refl)

  pub run_next-SameBooks : (s : Scheduler) (p : Pcb) → SameBooks s (run_next os (some p, s))
  unfolding run_next
  run_next-SameBooks s p =
      let s' = record s { current_process = some p } in
      let moved : SameBooks s s' = same_books refl refl refl refl refl refl refl in
      SameBooks-if (leb_ℤ p.sync_semid (pos 0)) (same_books refl refl refl refl refl refl refl) (
        SameBooks-if (p.start_time ==ℤ minus_one)
          (SameBooks-trans moved (start_process-SameBooks s' p))
          (SameBooks-trans moved (resume_process-SameBooks s' p)))

  run_next-Settled :
      (n : ℕ) (g : Books) (received : List ℤ) (s : Scheduler)
      (a : Accounts n g received (record s { current_process = none })) (r : Option Pcb × Scheduler)
      → Taken n a.waiting s r
      → Settled n g received (run_next os r)
  unfolding run_next
  run_next-Settled n g received s a (none, t) (nothing empty holds books) =
      let moved : SameBooks (record s { current_process = none })
          (record t { current_process = none }) =
        same_books books.algorithm books.generator books.finished books.count books.turnaround
          books.wait books.processes in
      record {
        accounts =
            Accounts-moved [] a moved holds (λ p m. absurd (not-mem-nil m)) tt (rw empty Perm.rfl);
        busy = λ _. none_waits n (record t { current_process = none }) holds;
      }
  run_next-Settled n g received s a (some p, t) (one p' rest same holds books) =
      let sem : AllCanStart (p ∷ rest) = λ q m. a.semaphores q ((Perm.mem_iff same).0 m) in
      let r = run_next-Running os t p (sem p mem-cons_self).0 in
      let same_next = run_next-SameBooks t p in
      let moved : SameBooks (record s { current_process = none }) (run_next os (some p, t)) =
        same_books (same_next.algorithm ∙ books.algorithm) (same_next.generator ∙ books.generator)
          (same_next.finished ∙ books.finished) (same_next.count ∙ books.count)
          (same_next.turnaround ∙ books.turnaround) (same_next.wait ∙ books.wait)
          (same_next.processes ∙ books.processes) in
      record {
        accounts =
            Accounts-moved rest a moved
              (HoldsReady-moved t (run_next os (some p, t)) holds same_next.algorithm r.queue
                r.heap)
              (λ q m. sem q (mem-cons_of_mem p m))
              (rw r.runs (Runs-CanRun r.is_next (sem p mem-cons_self)))
              (rw (r.runs, r.is_next.id_from_file) (Perm.map (λ q. q.id_from_file) same));
        busy = λ idle. absurd (true≢false (sym idle ∙ ap is_idle r.runs));
      }

  -- Once no process is current, a ready one becomes current if there is one.
  pub switch_to_next-Settled :
      (n : ℕ) (g : Books) (received : List ℤ) (s : Scheduler)
      → Accounts n g received (record s { current_process = none })
      → Ends (Settled n g received) (switch_to_next os s)
  unfolding switch_to_next
  switch_to_next-Settled n g received s a =
      Ends-then (take_next-Taken n s a.waiting a.holds a.semaphores)
        λ r taken. ends (run_next-Settled n g received s a r taken)
