-- ===== src/Generator/Input.antt =====
-- What the generator starts with: the processes that the file names, and nothing else.
use mathlib.Core.List.{append-nil, perm_middle}
use mathlib.Core.List.Perm
use Prim.Native.String.{String}
use kernel_sim.Base.{
  ℕ, ◌+◌, ◌^◌, ◌≤◌, ◌≡◌, refl, false, Bool-cases, Option-cases, inl, inr, List, [], ◌∷◌, ◌++◌,
  Option, some, none, Mem, Perm, ap, arith, if◌then◌else◌,
}
use kernel_sim.Base.Int.{ℤ, pos, ◌≤ℤ◌}
use kernel_sim.Base.Array.{length}
use kernel_sim.Base.Outcome.{Outcome, done, Ends, ends, Ends-then, Ends-weaken, ended}
use kernel_sim.PriorityQueue
use kernel_sim.PriorityQueue.{Process, PriorityQueue, by_arrival_time, pq_init, pq_push}
use kernel_sim.PriorityQueue.Inv
use kernel_sim.PriorityQueue.Inv.{pq_init-IsValid}
use kernel_sim.PriorityQueue.Push.{pq_push-GrownFrom}
use kernel_sim.Queue.Small.{queue_init-IsSmall}
use kernel_sim.Generator.{Generator, GeneratorOs}
use kernel_sim.Generator.ReadProcesses.{
  is_comment, row, push_lines, read_processes, generator_start,
}
use kernel_sim.Generator.Rows.{process_row, pcb_rows, process_rows}
use kernel_sim.Generator.Launch.{IsSteady}
use kernel_sim.Generator.Tick.{Keeps}
use kernel_sim.Generator.Run.{Run, Run-complete}

module _ (sscanf : String → List ℤ) (fresh : Process) where
  -- The process that a line names.
  abbrev pub named : String → Option Process
  named line = if is_comment line then none else row fresh (sscanf line)

  -- The processes that the lines name, in order.
  abbrev pub rows : List String → List Process
  rows [] = []
  rows (line ∷ lines) = elim (named line) [ none ↦ rows lines | some p ↦ p ∷ rows lines ]

  rows_skip :
      (line : String) (lines : List String) → named line ≡ none → rows (line ∷ lines) ≡ rows lines
  rows_skip line lines e = rw (e, rows) refl

  rows_next :
      (line : String) (lines : List String) (p : Process)
      → named line ≡ some p
      → rows (line ∷ lines) ≡ p ∷ rows lines
  rows_next line lines p e = rw (e, rows) refl

  module _ (malloc : ℕ → List Process) (alloc : Inv.Allocates malloc) where
    -- The queue `q` holds `ps`, and at most `n` processes.
    record Loaded (ps : List Process) (n : ℕ) (q : PriorityQueue) : Type 0 where
      valid : Inv.IsValid q
      same : Perm (PriorityQueue.contents q) ps
      few : q.size ≤ n

    skipped-Loaded :
        (line : String) (lines : List String) (pq : PriorityQueue) {m : Outcome PriorityQueue}
        → named line ≡ none
        → Ends (Loaded (rows lines ++ PriorityQueue.contents pq) (pq.size + length lines)) m
        → Ends
            (Loaded
              (rows (line ∷ lines) ++ PriorityQueue.contents pq)
              (pq.size + length (line ∷ lines)))
            m
    skipped-Loaded line lines pq e others = Ends-weaken others λ q l. record {
      valid = l.valid;
      same = rw (rows_skip line lines e) l.same;
      few = omega (arith, l.few);
    }

    push_lines-Loaded :
        (lines : List String) (pq : PriorityQueue)
        → Inv.IsValid pq
        → pq.capacity ≤ 2 ^ 61
        → pq.size + length lines ≤ 2 ^ 60
        → Ends
            (Loaded (rows lines ++ PriorityQueue.contents pq) (pq.size + length lines))
            (push_lines sscanf fresh malloc lines pq)
    unfolding push_lines
    push_lines-Loaded [] pq v small few =
        ends (record { valid = v; same = Perm.rfl; few = omega arith })
    push_lines-Loaded (line ∷ lines) pq v small few =
        let others = push_lines-Loaded lines pq v small (omega (arith, few)) in
        elim (Bool-cases (is_comment line)) [
          | inl comment ↦ rw comment (skipped-Loaded line lines pq (rw comment refl) others)
          | inr not_comment ↦ elim (Option-cases (row fresh (sscanf line))) [
            | inl not_row ↦
                rw (not_comment, not_row)
                  (skipped-Loaded line lines pq (rw not_comment not_row) others)
            | inr (p, is_row) ↦
                rw (not_comment, is_row)
                  (Ends-then (pq_push-GrownFrom malloc pq p alloc v (omega (arith, small)))
                    λ r (holds, more, grown).
                      Ends-weaken
                        (push_lines-Loaded lines r holds.valid (ground (arith, grown, small, few))
                          (omega (arith, more, few)))
                        λ q l. record {
                          valid = l.valid;
                          same = rw (rows_next line lines p (rw not_comment is_row)) (
                              Perm.trans l.same (
                                Perm.trans (Perm.append_left (rows lines) holds.same)
                                  (perm_middle (rows lines) (PriorityQueue.contents pq))));
                          few = omega (arith, l.few, more);
                        })
          ]
        ]

    module _ (os : GeneratorOs) (steady : IsSteady os) where
      -- With an operating system whose calls succeed, for a file of at most 2 ^ 59 lines after
      -- the first, none of which asks for more than 2 ^ 30 bytes, what main sets up ends in a
      -- state of the invariant whose processes are, in some order, those of the rows: the lines
      -- that are no comment and have five numbers.
      pub generator_start-Keeps :
          (header : String) (lines : List String)
          → length lines ≤ 2 ^ 59
          → ((p : Process) → Mem p (rows lines) → p.memory_size ≤ℤ pos (2 ^ 30))
          → Ends
              (Keeps (process_rows (rows lines)))
              (generator_start sscanf fresh malloc os (some (header ∷ lines)))
      unfolding generator_start read_processes pq_init
      generator_start-Keeps header lines few little =
          let (valid, none_in) =
            pq_init-IsValid malloc 20 by_arrival_time alloc (omega arith) (omega arith) in
          let (waiting, none_wait) = queue_init-IsSmall os.malloc steady.malloc in
          Ends-then
            (push_lines-Loaded lines (pq_init malloc 20 by_arrival_time) valid (omega arith)
              (omega (arith, few)))
            λ pq l.
              let same : Perm (PriorityQueue.contents pq) (rows lines) =
                (rw (none_in, append-nil (rows lines)) at l.same) in
              ends (record {
                inv = record {
                  arrive = record {
                    valid = l.valid;
                    small = waiting;
                    sized = (refl, tt, tt);
                    total = omega (arith, ap length none_wait, l.few, few);
                    little = λ p m. little p ((Perm.mem_iff same).0 m);
                  };
                  little = rw none_wait tt;
                  complete = λ over. ground (arith, over);
                };
                same = rw none_wait (Perm.map process_row same);
              })

      -- With an operating system whose calls succeed, for a file of at most 2 ^ 59 lines none of
      -- which asks for more than 2 ^ 30 bytes: after any run of rounds and deaths of children
      -- from the state that main sets up, once completion has been reported, the processes sent
      -- to the scheduler have, in some order and each as often, the id, arrival time, running
      -- time, priority and memory size of the rows of the file.
      pub complete-sent :
          (header : String) (lines : List String) (scheduler_pid : ℤ) (g h : Generator)
          → length lines ≤ 2 ^ 59
          → ((p : Process) → Mem p (rows lines) → p.memory_size ≤ℤ pos (2 ^ 30))
          → generator_start sscanf fresh malloc os (some (header ∷ lines)) ≡ done g
          → Run os scheduler_pid g h
          → h.once ≡ false
          → Perm (pcb_rows h.sent) (process_rows (rows lines))
      complete-sent header lines scheduler_pid g h few little start r reported =
          let k = ended (rw start at (generator_start-Keeps header lines few little)) in
          Perm.trans (Run-complete os steady scheduler_pid g h r k.inv reported) k.same
