-- ===== src/Generator/Rows.antt =====
-- The rows of the processes that are sent, that wait and that have not arrived.
use mathlib.Core.List.{map, map-append, map-map, append_assoc, perm_append_comm}
use mathlib.Core.List.Perm
use kernel_sim.Base.{ℕ, ◌+◌, ◌≡◌, refl, sym, ap, List, [], ◌∷◌, ◌++◌, Perm}
use kernel_sim.Base.Int.{ℤ}
use kernel_sim.Base.Interleaves.{Interleaves_perm}
use kernel_sim.Pcb.{Pcb}
use kernel_sim.PriorityQueue
use kernel_sim.PriorityQueue.{Process, PriorityQueue}
use kernel_sim.Queue.Inv.{contents}
use kernel_sim.Memory.{MemoryBlock}
use kernel_sim.Generator.{Generator, GeneratorOs}
use kernel_sim.Generator.Launch.{Dealt, Dealt-Interleaves, launched_all}
use kernel_sim.Generator.WaitingQueue.{Served}
use kernel_sim.Generator.Arrival.{arriving_all}
use kernel_sim.Generator.Arrived.{Arrives}

-- The numbers of a row of the file.
pub record Row : Type 0 where
  pub id : ℤ
  pub arrival_time : ℤ
  pub execution_time : ℤ
  pub priority : ℤ
  pub memory_size : ℤ

abbrev pub pcb_row : Pcb → Row
pcb_row p = record {
  id = p.id_from_file;
  arrival_time = p.arrival_time;
  execution_time = p.execution_time;
  priority = p.priority;
  memory_size = p.memory_size;
}

abbrev pub process_row : Process → Row
process_row p = record {
  id = p.id;
  arrival_time = p.arrival_time;
  execution_time = p.execution_time;
  priority = p.priority;
  memory_size = p.memory_size;
}

abbrev pub pcb_rows : List Pcb → List Row
pcb_rows ps = map pcb_row ps

abbrev pub process_rows : List Process → List Row
process_rows ps = map process_row ps

abbrev pub process_ids : List Process → List ℤ
process_ids ps = map (λ p. p.id) ps

-- The processes sent, those that wait, and those that have not arrived.
abbrev pub all_rows : Generator → List Row
all_rows g =
    (pcb_rows g.sent ++ pcb_rows (contents g.waiting_queue))
    ++ process_rows (PriorityQueue.contents g.pq)

-- The ids of equal rows are equal.
pub rows-process_ids :
    (ps : List Pcb) (qs : List Process)
    → Perm (pcb_rows ps) (process_rows qs)
    → Perm (map (λ p. p.id_from_file) ps) (process_ids qs)
rows-process_ids ps qs same =
    let of_row : Row → ℤ = λ r. r.id in
    let mapped = Perm.map of_row same in
    rw (map-map of_row pcb_row ps, map-map of_row process_row qs) at mapped

module _ {A : Type 0} where
  -- Of those that wait, some are sent.
  some_sent :
      (sent served kept waiting later : List A)
      → Perm (served ++ kept) waiting
      → Perm (((sent ++ served) ++ kept) ++ later) ((sent ++ waiting) ++ later)
  some_sent sent served kept waiting later p =
      rw (append_assoc sent served kept) (Perm.append_right later (Perm.append_left sent p))

  -- Of those that come, some are sent and the others wait.
  some_come :
      (sent served waiting kept came later before : List A)
      → Perm (served ++ kept) came
      → Perm (came ++ later) before
      → Perm (((sent ++ served) ++ (waiting ++ kept)) ++ later) ((sent ++ waiting) ++ before)
  some_come sent served waiting kept came later before p q =
      let swapped : Perm ((sent ++ served) ++ (waiting ++ kept))
          ((sent ++ waiting) ++ (served ++ kept)) =
        rw
          (
            append_assoc sent served (waiting ++ kept),
            append_assoc sent waiting (served ++ kept),
            sym (append_assoc served waiting kept),
            sym (append_assoc waiting served kept),
          )
          (Perm.append_left sent (Perm.append_right kept (perm_append_comm served waiting))) in
      Perm.trans (Perm.append_right later swapped) (
        rw (append_assoc (sent ++ waiting) (served ++ kept) later)
          (Perm.append_left (sent ++ waiting) (Perm.trans (Perm.append_right later p) q)))

pcb_rows-append : (ps qs : List Pcb) → pcb_rows (ps ++ qs) ≡ pcb_rows ps ++ pcb_rows qs
pcb_rows-append ps qs = map-append pcb_row ps qs

module _ (os : GeneratorOs) where
  pcb_rows-launched_all : (n : ℕ) (ps : List Pcb) → pcb_rows (launched_all os n ps) ≡ pcb_rows ps
  pcb_rows-launched_all n [] = refl
  pcb_rows-launched_all n (p ∷ ps) = ap (λ l. pcb_row p ∷ l) (pcb_rows-launched_all (n + 1) ps)

  pcb_rows-arriving_all :
      (n : ℕ) (ps : List Process) → pcb_rows (arriving_all os n ps) ≡ process_rows ps
  pcb_rows-arriving_all n [] = refl
  pcb_rows-arriving_all n (p ∷ ps) = ap (λ l. process_row p ∷ l) (pcb_rows-arriving_all (n + 1) ps)

  pcb_rows-Dealt :
      {time : ℤ} {m m' : MemoryBlock} {n : ℕ} {ps served kept : List Pcb}
      → Dealt os time m n ps served kept m'
      → Perm (pcb_rows served ++ pcb_rows kept) (pcb_rows ps)
  pcb_rows-Dealt {served = served} {kept = kept} d =
      rw (sym (pcb_rows-append served kept))
        (Perm.map pcb_row (Interleaves_perm (Dealt-Interleaves os d)))

  pub rows-Served :
      (time : ℤ) (g h : Generator) → Served os time g h → Perm (all_rows h) (all_rows g)
  rows-Served time g h s =
      rw
        (
          s.sent,
          s.waits,
          s.kept_pq,
          pcb_rows-append g.sent (launched_all os g.births s.served),
          pcb_rows-launched_all g.births s.served,
        )
        (some_sent (pcb_rows g.sent) (pcb_rows s.served) (pcb_rows s.kept)
          (pcb_rows (contents g.waiting_queue)) (process_rows (PriorityQueue.contents g.pq))
          (pcb_rows-Dealt s.split))

  pub rows-Arrives :
      (time : ℤ) (g h : Generator) → Arrives os time g h → Perm (all_rows h) (all_rows g)
  rows-Arrives time g h a =
      rw
        (
          a.sent,
          a.waits,
          pcb_rows-append g.sent (launched_all os g.births a.served),
          pcb_rows-append (contents g.waiting_queue) a.kept,
          pcb_rows-launched_all g.births a.served,
        )
        (some_come (pcb_rows g.sent) (pcb_rows a.served) (pcb_rows (contents g.waiting_queue))
          (pcb_rows a.kept) (process_rows a.arrived) (process_rows (PriorityQueue.contents h.pq))
          (process_rows (PriorityQueue.contents g.pq))
          (rw (sym (pcb_rows-arriving_all g.arrivals a.arrived)) (pcb_rows-Dealt a.split))
          (rw (sym (map-append process_row a.arrived (PriorityQueue.contents h.pq)))
            (Perm.map process_row a.taken)))
