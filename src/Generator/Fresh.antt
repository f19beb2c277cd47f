-- ===== src/Generator/Fresh.antt =====
-- What the scheduler may rely on: every process that is sent has a semaphore, has not started, and
-- has all its work ahead.
use kernel_sim.Base.{Option, ap, ℕ, ◌+◌, ◌≡◌, refl, Bool-cases, inl, inr, List, [], ◌∷◌, ◌++◌, ◌&&◌}
use kernel_sim.Base.Int.{ℤ, pos, minus_one, ◌<ℤ◌}
use kernel_sim.Pcb.{Pcb}
use kernel_sim.PriorityQueue.{Process, pq_empty, pq_init, by_arrival_time}
use kernel_sim.Queue.{queue_empty, queue_init}
use Prim.Native.String.{String}
use kernel_sim.Queue.Inv.{contents, Allocates}
use kernel_sim.Queue.Small.{queue_init-IsSmall}
use kernel_sim.Base.Outcome.{done, done_through, done_value}
use kernel_sim.Generator.ReadProcesses.{read_processes, generator_start}
use kernel_sim.Memory.{MemoryBlock}
use kernel_sim.Generator.{chosen, Generator, GeneratorOs, complete}
use kernel_sim.Generator.Launch.{
  new_semaphore-chosen, IsSteady, Dealt, none_left, granted, refused, launched_all,
}
use kernel_sim.Generator.WaitingQueue.{Served}
use kernel_sim.Generator.Arrival.{arriving_all}
use kernel_sim.Generator.Arrived.{Arrives}
use kernel_sim.Generator.Tick.{IsReady, Ticked, ticked}
use kernel_sim.Generator.Run.{Run}
use kernel_sim.Generator.Kept.{kept_by_run}

pub record IsFresh (p : Pcb) : Type 0 where
  pub semaphore : pos 0 <ℤ p.sync_semid
  pub not_started : p.start_time ≡ minus_one
  pub all_ahead : p.remaining_time ≡ p.execution_time

abbrev pub AllFresh : List Pcb → Type 0
AllFresh [] = Unit {0}
AllFresh (p ∷ ps) = IsFresh p × AllFresh ps

AllFresh-append : (ps qs : List Pcb) → AllFresh ps → AllFresh qs → AllFresh (ps ++ qs)
AllFresh-append [] qs a b = b
AllFresh-append (p ∷ ps) qs (here, a) b = (here, AllFresh-append ps qs a b)

-- Those sent, and those that wait.
pub record HasFresh (g : Generator) : Type 0 where
  pub sent : AllFresh g.sent
  pub waiting : AllFresh (contents g.waiting_queue)

complete-HasFresh : (g : Generator) → HasFresh g → HasFresh (complete g)
complete-HasFresh g fresh =
    elim (Bool-cases (pq_empty g.pq && queue_empty g.waiting_queue && g.once)) [
      | inl over ↦ rw over (record { sent = fresh.sent; waiting = fresh.waiting })
      | inr not_yet ↦ rw not_yet fresh
    ]

module _ (os : GeneratorOs) where
  Dealt-AllFresh :
      {time : ℤ} {m m' : MemoryBlock} {n : ℕ} {ps served kept : List Pcb}
      → Dealt os time m n ps served kept m'
      → AllFresh ps
      → AllFresh served × AllFresh kept
  Dealt-AllFresh none_left a = (tt, tt)
  Dealt-AllFresh (granted p reply e success d) (here, a) =
      let (served, kept) = Dealt-AllFresh d a in ((here, served), kept)
  Dealt-AllFresh (refused p reply e failure d) (here, a) =
      let (served, kept) = Dealt-AllFresh d a in (served, (here, kept))

  launched_all-AllFresh : (n : ℕ) (ps : List Pcb) → AllFresh ps → AllFresh (launched_all os n ps)
  launched_all-AllFresh n [] a = tt
  launched_all-AllFresh n (p ∷ ps) (here, a) = (
    record {
      semaphore = here.semaphore;
      not_started = here.not_started;
      all_ahead = here.all_ahead;
    },
    launched_all-AllFresh (n + 1) ps a,
  )

  Served-HasFresh : (time : ℤ) (g h : Generator) → Served os time g h → HasFresh g → HasFresh h
  Served-HasFresh time g h s fresh =
      let (served, kept) = Dealt-AllFresh s.split fresh.waiting in
      record {
        sent = rw s.sent (
            AllFresh-append g.sent (launched_all os g.births s.served) fresh.sent
              (launched_all-AllFresh g.births s.served served));
        waiting = rw s.waits kept;
      }

  module _ (steady : IsSteady os) where
    usable : (n : ℕ) → pos 0 <ℤ chosen (os.semaphores n)
    usable n =
        let (id, e) = steady.semaphore n in
        (new_semaphore-chosen (os.semaphores n) id (steady.semget n) e).1

    arriving_all-AllFresh : (n : ℕ) (ps : List Process) → AllFresh (arriving_all os n ps)
    arriving_all-AllFresh n [] = tt
    arriving_all-AllFresh n (p ∷ ps) = (
      record { semaphore = usable n; not_started = refl; all_ahead = refl },
      arriving_all-AllFresh (n + 1) ps,
    )

    Arrives-HasFresh : (time : ℤ) (g h : Generator) → Arrives os time g h → HasFresh g → HasFresh h
    Arrives-HasFresh time g h a fresh =
        let (served, kept) = Dealt-AllFresh a.split (arriving_all-AllFresh g.arrivals a.arrived) in
        record {
          sent = rw a.sent (
              AllFresh-append g.sent (launched_all os g.births a.served) fresh.sent
                (launched_all-AllFresh g.births a.served served));
          waiting =
              rw a.waits (AllFresh-append (contents g.waiting_queue) a.kept fresh.waiting kept);
        }

    Ticked-HasFresh :
        (time : ℤ) (g h : Generator) → IsReady g → Ticked os time g h → HasFresh g → HasFresh h
    Ticked-HasFresh time g _ v (ticked m h at_m little s a) fresh =
        let f : Generator = record g { last_tick = time } in
        let fresh_f : HasFresh f = record { sent = fresh.sent; waiting = fresh.waiting } in
        let fresh_h = Arrives-HasFresh time m h a (Served-HasFresh time f m s fresh_f) in
        record { sent = fresh_h.sent; waiting = fresh_h.waiting }

    -- With an operating system whose calls succeed, where semget returns no less than -1 and no
    -- semaphore makes main exit, from a state of the invariant, every run of rounds and deaths of
    -- children keeps what the scheduler relies on: every process that is sent or waits has a
    -- positive semaphore id, has not started and has all its work ahead.
    pub Run-HasFresh :
        (scheduler_pid : ℤ) (f g : Generator)
        → Run os scheduler_pid f g
        → IsReady f
        → HasFresh f
        → HasFresh g
    Run-HasFresh scheduler_pid f g r v fresh =
        kept_by_run os steady HasFresh Ticked-HasFresh complete-HasFresh
          (λ g pid now kept. record { sent = kept.sent; waiting = kept.waiting }) r v fresh

-- What `main` sets up has sent nothing, and nobody waits.
pub generator_start-HasFresh :
    (sscanf : String → List ℤ) (fresh : Process) (malloc : ℕ → List Process) (os : GeneratorOs)
    (file : Option (List String)) (g : Generator)
    → Allocates os.malloc
    → generator_start sscanf fresh malloc os file ≡ done g
    → HasFresh g
unfolding generator_start
generator_start-HasFresh sscanf fresh malloc os file g alloc e =
    let (pq, read, made) =
      done_through (read_processes sscanf fresh malloc file (pq_init malloc 20 by_arrival_time)) _
        e in
    let (small, empty) = queue_init-IsSmall os.malloc alloc in
    let same = done_value made in
    let queue : queue_init os.malloc 100 ≡ g.waiting_queue = ap (λ x. x.waiting_queue) same in
    let sent : [] ≡ g.sent = ap (λ x. x.sent) same in
    record { sent = rw (← sent) tt; waiting = rw (← queue, empty) tt }
