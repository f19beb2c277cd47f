-- ===== src/Scheduler/Find.antt =====
-- Two small functions of src/scheduler.c: `find_process_by_pid`, which nothing calls, and
-- `handle_message_queue`.
use kernel_sim.Base.{
  ℕ, zero, suc, ◌+◌, ◌%◌, ◌≤◌, ◌<◌, ◌≡◌, refl, Bool, Bool-cases, inl, inr, true, List, [], ◌∷◌,
  Option, none, some, if◌then◌else◌, arith,
}
use kernel_sim.Base.Int.{ℤ, minus_one, ◌==ℤ◌}
use kernel_sim.Base.Array.{length, load, get_or, load-get_or}
use kernel_sim.Base.Outcome.{Outcome, done, exited, ◌>>=◌}
use kernel_sim.Pcb.{Pcb, zero_pcb}
use kernel_sim.MinHeap.{MinHeap}
use kernel_sim.Queue.{PcbQueue, add_size}
use kernel_sim.Queue.Inv.{IsValid, contents, ring}
use kernel_sim.Scheduler.{Scheduler, is_rr}

unfoldable find_in_ring : PcbQueue → ℤ → ℕ → ℕ → Outcome (Option Pcb)
find_in_ring q pid zero i = done none
find_in_ring q pid (suc left) i = do
  p ← load q.elements (add_size q.front i % q.capacity)
  let rest = find_in_ring q pid left (i + 1)
  if p.pid ==ℤ pid then done (some p) else rest

unfoldable find_in_heap : MinHeap → ℤ → ℕ → ℕ → Outcome (Option Pcb)
find_in_heap h pid zero i = done none
find_in_heap h pid (suc left) i = do
  p ← load h.processes i
  let rest = find_in_heap h pid left (i + 1)
  if p.pid ==ℤ pid then done (some p) else rest

unfoldable find_process_by_pid : Scheduler → ℤ → Outcome (Option Pcb)
unfolding find_in_ring find_in_heap
find_process_by_pid s pid =
    if is_rr s.algorithm
    then find_in_ring s.rr_queue pid s.rr_queue.size 0
    else find_in_heap s.ready_heap pid s.ready_heap.size 0

-- `msgq_id` is what `msgget` returns.
unfoldable handle_message_queue : ℤ → Bool → Outcome ℤ
handle_message_queue msgq_id exit_on_error =
    if msgq_id ==ℤ minus_one then (if exit_on_error then exited else done msgq_id) else done msgq_id

-- The first of a list with a pid.
abbrev first_with : ℤ → List Pcb → Option Pcb
first_with pid [] = none
first_with pid (p ∷ ps) = if p.pid ==ℤ pid then some p else first_with pid ps

find_in_ring-first_with :
    (q : PcbQueue) (pid : ℤ) (left i : ℕ)
    → IsValid q
    → i + left ≤ q.size
    → find_in_ring q pid left i
      ≡ done (first_with pid (ring q.elements q.capacity (q.front + i) left))
unfolding find_in_ring
find_in_ring-first_with q pid zero i v inside = refl
find_in_ring-first_with q pid (suc left) i v inside =
    let at = (q.front + i) % q.capacity in
    let found = get_or q.elements at zero_pcb in
    let no_wrap : add_size q.front i ≡ q.front + i = omega (arith, v.small, v.front_in, v.fits) in
    let stored : at < length q.elements = grind (arith, v.storage, v.has_room) in
    let shift : q.front + (i + 1) ≡ q.front + i + 1 = omega arith in
    let rest = rw shift at (find_in_ring-first_with q pid left (i + 1) v (omega arith)) in
    elim (Bool-cases (found.pid ==ℤ pid)) [
      | inl same ↦ rw (no_wrap, load-get_or q.elements at zero_pcb stored, same) refl
      | inr differs ↦ rw (no_wrap, load-get_or q.elements at zero_pcb stored, differs) rest
    ]

-- Under round robin, in a valid ring, the search returns the oldest process with the pid.
find_process_by_pid-first_with :
    (s : Scheduler) (pid : ℤ)
    → is_rr s.algorithm ≡ true
    → IsValid s.rr_queue
    → find_process_by_pid s pid ≡ done (first_with pid (contents s.rr_queue))
unfolding find_process_by_pid
find_process_by_pid-first_with s pid by_turns v =
    let q = s.rr_queue in
    let start : q.front + 0 ≡ q.front = omega arith in
    rw by_turns (rw start at (find_in_ring-first_with q pid q.size 0 v (omega arith)))
