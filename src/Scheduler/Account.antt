-- ===== src/Scheduler/Account.antt =====
-- What the scheduler of src/scheduler.c owes to the processes that it has received: each of them
-- has its end in the log, is the current process, or waits in the ready structure of the algorithm.
use mathlib.Core.List.{map, mem-cons}
use mathlib.Core.Logic.Or
use mathlib.Core.List.Perm
use mathlib.Core.Bool.{true≢false}
use kernel_sim.Base.{
  ℕ, suc, ◌+◌, ◌^◌, ◌≤◌, ◌≡◌, ◌≢◌, refl, sym, ap, ◌∙◌, Bool, true, false, ◌==◌, List, [], ◌∷◌, ◌++◌,
  Option, none, some, Mem, Perm, arith,
}
use kernel_sim.Base.Int.{ℤ, pos}
use kernel_sim.Base.Array
use kernel_sim.Base.Array.{length}
use kernel_sim.Pcb.{Pcb}
use kernel_sim.MinHeap
use kernel_sim.MinHeap.{MinHeap}
use kernel_sim.MinHeap.Inv.{IsValid, length-contents}
use kernel_sim.Queue.{PcbQueue}
use kernel_sim.Queue.Inv
use kernel_sim.Queue.Small.{IsSmall, size-contents}
use kernel_sim.Scheduler.{
  Scheduler, Effect, log_process_event, finished, other, is_rr, is_terminated,
}
use kernel_sim.Scheduler.Complete.{is_idle, nothing_ready}
use kernel_sim.Scheduler.Dispatch.{HasSemaphore}
use kernel_sim.Scheduler.Stop.{HasRunningTime}

abbrev pub ids : List Pcb → List ℤ
ids ps = map (λ p. p.id_from_file) ps

-- The ids of the processes whose end is in the log, the last end first.
abbrev pub finished_ids : List Effect → List ℤ
finished_ids [] = []
finished_ids (log_process_event finished p t ∷ es) = p.id_from_file ∷ finished_ids es
finished_ids (_ ∷ es) = finished_ids es

abbrev pub current_ids : Option Pcb → List ℤ
current_ids none = []
current_ids (some p) = p.id_from_file ∷ []

-- The ready structure of the algorithm, the ring or the heap, holds exactly `ps`, and `n` processes
-- fit.
pub data Holds (n : ℕ) (by_turns : Bool) (q : PcbQueue) (h : MinHeap) (ps : List Pcb) : Type 0 where
  by_ring :
      by_turns ≡ true → IsSmall q → n ≤ 2 ^ 60 → Perm (Inv.contents q) ps → Holds n by_turns q h ps
  by_heap :
      by_turns ≡ false
      → IsValid h
      → n ≤ h.capacity
      → Perm (MinHeap.contents h) ps
      → Holds n by_turns q h ps

abbrev pub HoldsReady : ℕ → Scheduler → List Pcb → Type 0
HoldsReady n s ps = Holds n (is_rr s.algorithm) s.rr_queue s.ready_heap ps

-- A process that is ready has a semaphore and a running time.
abbrev pub CanStart : Pcb → Type 0
CanStart p = HasSemaphore p × HasRunningTime p

abbrev pub AllCanStart : List Pcb → Type 0
AllCanStart ps = (p : Pcb) → Mem p ps → CanStart p

pub AllCanStart-cons :
    (p : Pcb) (ps : List Pcb) → CanStart p → AllCanStart ps → AllCanStart (p ∷ ps)
AllCanStart-cons p ps here there q m =
    let prop : IsProp (CanStart q) = hlevel in
    Or.elim prop (mem-cons.0 m) (λ e. rw e here) (λ n. there q n)

-- The process can go on when the scheduler wants it to.
pub record CanRun (p : Pcb) : Type 0 where
  pub semaphore : HasSemaphore p
  pub running_time : HasRunningTime p
  pub alive : is_terminated p.state ≡ false

abbrev pub CurrentCanRun : Option Pcb → Type 0
CurrentCanRun none = Unit {0}
CurrentCanRun (some p) = CanRun p

-- Whether the generator has reported its end, and the ids whose end is in the log.
pub record Books : Type 0 where
  pub generator_finished : Bool
  pub finished : List ℤ

abbrev pub books_of : Scheduler → Books
books_of s = record { generator_finished = s.generator_finished; finished = finished_ids s.effects }

-- The books of `t`, the ends in the log, the counts and the statistics, are those of `s`.
pub record SameBooks (s t : Scheduler) : Type 0 where
  pub algorithm : t.algorithm ≡ s.algorithm
  pub generator : t.generator_finished ≡ s.generator_finished
  pub finished : finished_ids t.effects ≡ finished_ids s.effects
  pub count : t.finished_processes ≡ s.finished_processes
  pub turnaround : t.turnaround_times ≡ s.turnaround_times
  pub wait : t.wait_times ≡ s.wait_times
  pub processes : t.process_count ≡ s.process_count

-- The scheduler accounts for the received ids: each is that of a process that has finished, of the
-- current one, or of one that is ready, as often as it was received. There is room for `n` processes
-- in the ready structure and in the statistics, the algorithm is one of the three, `g` is
-- on the books, and `process_count` is how many were received.
pub record Accounts (n : ℕ) (g : Books) (received : List ℤ) (s : Scheduler) : Type 0 where
  pub waiting : List Pcb
  pub holds : HoldsReady n s waiting
  pub semaphores : AllCanStart waiting
  pub current : CurrentCanRun s.current_process
  pub all : Perm (finished_ids s.effects ++ (current_ids s.current_process ++ ids waiting)) received
  pub known : s.algorithm ≢ other
  pub generator : s.generator_finished ≡ g.generator_finished
  pub finished : finished_ids s.effects ≡ g.finished
  pub count : s.finished_processes ≡ length (finished_ids s.effects)
  pub turnaround : n ≤ length s.turnaround_times
  pub wait : n ≤ length s.wait_times
  pub processes : s.process_count ≡ pos (length received)

pub same_books :
    {s t : Scheduler}
    → t.algorithm ≡ s.algorithm
    → t.generator_finished ≡ s.generator_finished
    → finished_ids t.effects ≡ finished_ids s.effects
    → t.finished_processes ≡ s.finished_processes
    → t.turnaround_times ≡ s.turnaround_times
    → t.wait_times ≡ s.wait_times
    → t.process_count ≡ s.process_count
    → SameBooks s t
same_books a d f c ta w p = record {
  algorithm = a;
  generator = d;
  finished = f;
  count = c;
  turnaround = ta;
  wait = w;
  processes = p;
}

pub SameBooks-trans : {r s t : Scheduler} → SameBooks r s → SameBooks s t → SameBooks r t
SameBooks-trans a b = record {
  algorithm = b.algorithm ∙ a.algorithm;
  generator = b.generator ∙ a.generator;
  finished = b.finished ∙ a.finished;
  count = b.count ∙ a.count;
  turnaround = b.turnaround ∙ a.turnaround;
  wait = b.wait ∙ a.wait;
  processes = b.processes ∙ a.processes;
}

-- With the same books, it is enough to find the current and the ready processes again.
pub Accounts-moved :
    {n : ℕ} {g : Books} {received : List ℤ} {s t : Scheduler} (ps : List Pcb)
    (a : Accounts n g received s)
    → SameBooks s t
    → HoldsReady n t ps
    → AllCanStart ps
    → CurrentCanRun t.current_process
    → Perm
        (current_ids t.current_process ++ ids ps)
        (current_ids s.current_process ++ ids a.waiting)
    → Accounts n g received t
Accounts-moved {s = s} {t = t} ps a books holds sem current same = record {
  waiting = ps;
  holds = holds;
  semaphores = sem;
  current = current;
  all = Perm.trans (rw books.finished (Perm.append_left (finished_ids s.effects) same)) a.all;
  known = λ e. a.known (sym books.algorithm ∙ e);
  generator = books.generator ∙ a.generator;
  finished = books.finished ∙ a.finished;
  count = books.count ∙ a.count ∙ ap length (sym books.finished);
  turnaround = rw books.turnaround a.turnaround;
  wait = rw books.wait a.wait;
  processes = books.processes ∙ a.processes;
}

pub Accounts-Perm :
    {n : ℕ} {g : Books} {received ids : List ℤ} {s : Scheduler}
    → Perm received ids
    → Accounts n g received s
    → Accounts n g ids s
Accounts-Perm same a = record {
  waiting = a.waiting;
  holds = a.holds;
  semaphores = a.semaphores;
  current = a.current;
  all = Perm.trans a.all same;
  known = a.known;
  generator = a.generator;
  finished = a.finished;
  count = a.count;
  turnaround = a.turnaround;
  wait = a.wait;
  processes = a.processes ∙ ap (λ k. pos k) (Array.length-Perm same);
}

pub length-ids : (ps : List Pcb) → length (ids ps) ≡ length ps
length-ids [] = refl
length-ids (p ∷ ps) = ap suc (length-ids ps)

-- Every received process takes one place.
pub Accounts-length :
    {n : ℕ} {g : Books} {received : List ℤ} {s : Scheduler} (a : Accounts n g received s)
    → s.finished_processes + (length (current_ids s.current_process) + length a.waiting)
      ≡ length received
Accounts-length {s = s} a = omega (
  arith,
  Array.length-Perm a.all,
  Array.length-append (finished_ids s.effects) (current_ids s.current_process ++ ids a.waiting),
  Array.length-append (current_ids s.current_process) (ids a.waiting),
  length-ids a.waiting,
  a.count,
)

-- Moreover a process is current unless none is ready.
pub record Settled (n : ℕ) (g : Books) (received : List ℤ) (s : Scheduler) : Type 0 where
  pub accounts : Accounts n g received s
  pub busy : is_idle s.current_process ≡ true → nothing_ready s ≡ true

pub nothing_waits :
    (n : ℕ) (s : Scheduler) (ps : List Pcb) → HoldsReady n s ps → nothing_ready s ≡ true → ps ≡ []
nothing_waits n s [] holds none_ready = refl
nothing_waits n s (p ∷ ps) (by_ring r small room same) none_ready =
    let size : (s.rr_queue.size == 0) ≡ true = rw r at none_ready in
    absurd (ground (arith, size, size-contents s.rr_queue, Array.length-Perm same))
nothing_waits n s (p ∷ ps) (by_heap r valid room same) none_ready =
    let size : (s.ready_heap.size == 0) ≡ true = rw r at none_ready in
    absurd (ground (arith, size, length-contents s.ready_heap valid, Array.length-Perm same))

pub none_waits : (n : ℕ) (s : Scheduler) → HoldsReady n s [] → nothing_ready s ≡ true
none_waits n s (by_ring r small room same) =
    rw r (ground (arith, size-contents s.rr_queue, Array.length-Perm same))
none_waits n s (by_heap r valid room same) =
    rw r (ground (arith, length-contents s.ready_heap valid, Array.length-Perm same))

pub settled :
    {n : ℕ} {g : Books} {received : List ℤ} {s : Scheduler}
    → Accounts n g received s
    → is_idle s.current_process ≡ false
    → Settled n g received s
settled a busy = record { accounts = a; busy = λ idle. absurd (true≢false (sym idle ∙ busy)) }
