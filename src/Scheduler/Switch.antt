-- ===== src/Scheduler/Switch.antt =====
-- Whole switches of src/scheduler.c under the algorithms that use the heap: `context_switching`,
-- `run_HPF_Algorithm` and `run_SRTN_Algorithm`.
use mathlib.Core.List.Perm
use mathlib.Core.List.{mem-cons_self, not-mem-nil}
use mathlib.Core.Path.{subst}
use kernel_sim.Base.{
  ℕ, zero, suc, ◌<◌, ◌≡◌, refl, sym, ap, ◌∙◌, false, List, [], ◌∷◌, none, some, Bool-cases,
  Option-cases, ◌⊎◌, inl, inr, ltb, ltb→lt, ◌≢◌, Mem, arith,
}
use kernel_sim.Base.Int.{ℤ, pos, minus_one, ◌==ℤ◌, ◌≤ℤ◌, ◌<ℤ◌, ltb_ℤ, -ℤ_parts}
use kernel_sim.Base.Array
use kernel_sim.Base.Array.{get_or, load-get_or}
use kernel_sim.Base.Outcome.{◌>>=◌, Ends, ends, Ends-then, Ends-weaken, Ends-branch}
use kernel_sim.Pcb.{Pcb, zero_pcb, compare_remaining_time}
use kernel_sim.MinHeap.{contents}
use kernel_sim.MinHeap.Inv.{IsValid}
use kernel_sim.Heap.Order.{root_least}
use kernel_sim.Scheduler.{
  Os, Scheduler, is_rr, is_terminated, switch_to_next, stop_current, context_switching,
  update_process_remaining_time, run_hpf_algorithm, run_srtn_algorithm,
}
use kernel_sim.Scheduler.Dispatch.{
  HasSemaphore, Dispatched, switch_to_next-Dispatched, stop_current-Holds,
}
use kernel_sim.Scheduler.Stop.{HasRunningTime, preempted}

inside : (n : ℕ) (xs : List Pcb) {p : Pcb} → Mem p (Array.take n xs) → 0 < n
inside zero xs m = absurd (not-mem-nil m)
inside (suc n) xs m = omega arith

pub update_twice_lem :
    (os : Os) (p : Pcb)
    → update_process_remaining_time os (update_process_remaining_time os p)
      ≡ update_process_remaining_time os p
unfolding update_process_remaining_time
update_twice_lem os p = elim (Bool-cases (p.shm_id ==ℤ minus_one)) [
  | inl gone ↦
      let same : update_process_remaining_time os p ≡ p = rw gone refl in
      ap (update_process_remaining_time os) same
  | inr there ↦ elim (Option-cases (os.shm p.shm_id)) [
    | inl failed ↦
        let same : update_process_remaining_time os p ≡ p = rw (there, failed) refl in
        ap (update_process_remaining_time os) same
    | inr (t, e) ↦
        let p' = record p { remaining_time = t } in
        let once : update_process_remaining_time os p ≡ p' = rw (there, e) refl in
        let again : update_process_remaining_time os p' ≡ p' = rw (there, e) refl in
        ap (update_process_remaining_time os) once ∙ again ∙ sym once
  ]
]

-- When the scheduler may switch away from the current process `p`, whose control block is up to
-- date: the process is not done and has a running time, the heap has room for it, and all have
-- semaphores.
pub record CanStop (os : Os) (s : Scheduler) (p : Pcb) : Type 0 where
  pub running_time : HasRunningTime p
  pub unfinished : (p.remaining_time ==ℤ pos 0) ≡ false
  pub alive : is_terminated p.state ≡ false
  pub room : s.ready_heap.size < s.ready_heap.capacity
  pub semaphores : (q : Pcb) → Mem q (preempted os s p ∷ contents s.ready_heap) → HasSemaphore q

module _ (os : Os) where
  switch_away :
      (s : Scheduler) (p : Pcb)
      → is_rr s.algorithm ≡ false
      → IsValid s.ready_heap
      → CanStop os s p
      → Ends
          (Dispatched s.ready_heap.cmp (preempted os s p ∷ contents s.ready_heap))
          (stop_current os s p >>= λ t. switch_to_next os t)
  switch_away s p heap v c =
      Ends-then (stop_current-Holds os s p c.running_time heap v c.room) λ t (holds, still).
        let held = (Perm.mem_iff holds.same).1 (mem-cons_self) in
        Ends-weaken
          (switch_to_next-Dispatched os t _ still holds.valid
            (inside t.ready_heap.size t.ready_heap.processes held) holds.same c.semaphores)
          λ u d. rw holds.kept_cmp at d

  -- Under an algorithm that uses the heap, with room in a valid heap and semaphores for all,
  -- switching away from a live process that is not done and has a running time other than 0 ends
  -- and loses no process: a process that none of all precedes runs, and the others, the stopped
  -- one included, are in a valid heap.
  pub context_switching-Dispatched :
      (s : Scheduler) (process : Pcb)
      → is_rr s.algorithm ≡ false
      → IsValid s.ready_heap
      → s.current_process ≡ some process
      → let p = update_process_remaining_time os process in
        let s' = record s { current_process = some p } in
        CanStop os s' p
        → Ends
            (Dispatched s.ready_heap.cmp (preempted os s' p ∷ contents s.ready_heap))
            (context_switching os s)
  unfolding context_switching
  context_switching-Dispatched s process heap v runs c =
      rw (runs, c.unfinished, c.alive)
        (switch_away
          (record s { current_process = some (update_process_remaining_time os process) })
          (update_process_remaining_time os process) heap v c)

  -- The same, when the control block is already up to date.
  fresh-Dispatched :
      (s : Scheduler) (p : Pcb)
      → is_rr s.algorithm ≡ false
      → IsValid s.ready_heap
      → update_process_remaining_time os p ≡ p
      → let s' = record s { current_process = some p } in
        CanStop os s' p
        → Ends
            (Dispatched s.ready_heap.cmp (preempted os s' p ∷ contents s.ready_heap))
            (context_switching os s')
  fresh-Dispatched s p heap v fresh =
      let s' = record s { current_process = some p } in
      subst
        (λ x.
          let t = record s { current_process = some x } in
          CanStop os t x
          → Ends (Dispatched s.ready_heap.cmp (preempted os t x ∷ contents s.ready_heap))
              (context_switching os s'))
        fresh (context_switching-Dispatched s' p heap v refl)

  -- An idle processor with a ready process: the best one runs next.
  idle-Dispatched :
      (s : Scheduler)
      → is_rr s.algorithm ≡ false
      → IsValid s.ready_heap
      → s.current_process ≡ none
      → 0 < s.ready_heap.size
      → ((q : Pcb) → Mem q (contents s.ready_heap) → HasSemaphore q)
      → Ends (Dispatched s.ready_heap.cmp (contents s.ready_heap)) (context_switching os s)
  unfolding context_switching
  idle-Dispatched s heap v idle some_left sem =
      simp (idle, context_switching)
        (switch_to_next-Dispatched os (record s { current_process = none }) _ heap v some_left
          Perm.rfl sem)

  -- What a tick of HPF does: with a process running or none ready, nothing; else the process of the
  -- highest priority runs.
  abbrev pub HpfStep : Scheduler → Scheduler → Type 0
  HpfStep s s' =
      ((s' ≡ s) × ((s.current_process ≢ none) ⊎ (contents s.ready_heap ≡ [])))
      ⊎ ((s.current_process ≡ none) × Dispatched s.ready_heap.cmp (contents s.ready_heap) s')

  -- With a valid heap of processes that have semaphores, a tick of HPF ends: either a process
  -- runs or none is ready, and nothing changes, or no process runs, and then a ready one that no
  -- ready one precedes is started and the others stay ready.
  pub run_hpf_algorithm-HpfStep :
      (s : Scheduler)
      → is_rr s.algorithm ≡ false
      → IsValid s.ready_heap
      → ((q : Pcb) → Mem q (contents s.ready_heap) → HasSemaphore q)
      → Ends (HpfStep s) (run_hpf_algorithm os s)
  unfolding run_hpf_algorithm
  run_hpf_algorithm-HpfStep s heap v sem = elim (Option-cases s.current_process) [
    | inr (p, busy) ↦ simp (busy, run_hpf_algorithm) (ends (inl (refl, inl (λ e. cc))))
    | inl idle ↦
        let next =
          Ends-branch (ltb 0 s.ready_heap.size)
            (λ more.
              Ends-weaken (idle-Dispatched s heap v idle (ltb→lt 0 s.ready_heap.size more) sem)
                λ t d. inr (idle, d))
            (λ done_all.
              let none_left : s.ready_heap.size ≡ 0 = ground (arith, done_all) in
              ends (inl (refl, inr (rw none_left)))) in
        simp (idle, run_hpf_algorithm) next
  ]

  -- What a tick of SRTN does while `p` runs.
  abbrev pub SrtnStep : Scheduler → Pcb → Scheduler → Type 0
  SrtnStep s p s' =
      ((s' ≡ s)
        × ((q : Pcb) → Mem q (contents s.ready_heap) → p.remaining_time ≤ℤ q.remaining_time))
      ⊎ (((q : Pcb) × Mem q (contents s.ready_heap) × (q.remaining_time <ℤ p.remaining_time))
          × Dispatched s.ready_heap.cmp (preempted os s p ∷ contents s.ready_heap) s')

  -- While a live process runs that is not done and has a running time other than 0, with a valid
  -- heap ordered by remaining time that has room, and semaphores for all, a tick of SRTN ends: it
  -- reads the remaining time of the process and either no ready process needs less than that and
  -- nothing else changes, or a ready process needs less, and then a process that none of all
  -- precedes runs and the rest, with the stopped one, is in the valid heap.
  pub run_srtn_algorithm-SrtnStep :
      (s : Scheduler) (process : Pcb)
      → is_rr s.algorithm ≡ false
      → s.ready_heap.cmp ≡ compare_remaining_time
      → IsValid s.ready_heap
      → s.current_process ≡ some process
      → let p = update_process_remaining_time os process in
        let s' = record s { current_process = some p } in
        CanStop os s' p → Ends (SrtnStep s' p) (run_srtn_algorithm os s)
  unfolding run_srtn_algorithm compare_remaining_time
  run_srtn_algorithm-SrtnStep s process heap by_time v runs c =
      let p = update_process_remaining_time os process in
      let s' = record s { current_process = some p } in
      rw runs (
        Ends-branch (ltb 0 s.ready_heap.size)
          (λ more.
            let some_left : 0 < s.ready_heap.size = ltb→lt 0 s.ready_heap.size more in
            let shortest = get_or s.ready_heap.processes 0 zero_pcb in
            let first_ready : Mem shortest (contents s.ready_heap) =
              Array.mem-take s.ready_heap.size s.ready_heap.processes 0 zero_pcb some_left
                (omega (arith, v.storage, v.fits)) in
            rw (load-get_or s.ready_heap.processes 0 zero_pcb (omega (arith, v.storage, v.fits))) (
              Ends-branch (ltb_ℤ shortest.remaining_time p.remaining_time)
                (λ longer.
                  Ends-weaken (fresh-Dispatched s p heap v (update_twice_lem os process) c)
                    λ t d. inr ((shortest, first_ready, ground (arith, longer)), d))
                (λ not_longer. ends (
                  inl (
                    refl,
                    λ q m.
                        let first =
                          root_least s.ready_heap.cmp v.order zero_pcb s.ready_heap.processes
                            s.ready_heap.size v.heap (omega (arith, v.storage, v.fits)) q m in
                        let as_difference = ap (λ (f : Pcb → Pcb → ℤ). f shortest q) by_time in
                        let less : compare_remaining_time shortest q ≤ℤ pos 0 =
                          rw (← as_difference) first in
                        ground (
                          arith,
                          less,
                          not_longer,
                          -ℤ_parts shortest.remaining_time q.remaining_time,
                        ),
                  )))))
          (λ done_all.
            let none_left : s.ready_heap.size ≡ 0 = ground (arith, done_all) in
            ends (inl (refl, λ q m. absurd (not-mem-nil (rw none_left at m))))))
