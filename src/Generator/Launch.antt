-- ===== src/Generator/Launch.antt =====
-- What one request for memory and one admission of a process do to the generator, while the
-- operating system answers well.
use kernel_sim.Base.{
  ◌||◌, not, if◌then◌else◌, Bool-cases, inl, inr, arith, ℕ, ◌+◌, ◌^◌, ◌≡◌, refl, Bool, true, false,
  List, [], ◌∷◌, ◌++◌,
}
use kernel_sim.Base.Int.{ℤ, pos, minus_one, ◌==ℤ◌, ◌≤ℤ◌, leb_ℤ, ◌<ℤ◌}
use kernel_sim.Base.Outcome.{done, Ends, ends, Ends-value}
use kernel_sim.Base.Array.{length}
use kernel_sim.Base.Interleaves.{Interleaves, to_first, to_second}
use kernel_sim.Pcb.{Pcb}
use kernel_sim.Queue.Inv.{Allocates}
use kernel_sim.Memory.{MemoryBlock, Reply, allocate_memory, total_memory_size, update_id}
use kernel_sim.Memory.Sized.{Sized}
use kernel_sim.Memory.Total.{allocate_memory_any-Sized}
use kernel_sim.Generator.{
  Semget, new_semaphore, chosen, Generator, GeneratorOs, GeneratorEffect, stop_process,
  store_remaining_time, request_memory, create_process, launch, send, admit, logged,
}

-- No system call fails, and the code finds the semaphores that it makes usable; `semget` returns an
-- id, which is not negative, or -1.
pub record IsSteady (os : GeneratorOs) : Type 0 where
  pub malloc : Allocates os.malloc
  pub shmid : (n : ℕ) → ((os.forks n).shmid ==ℤ minus_one) ≡ false
  pub attached : (n : ℕ) → (os.forks n).attached ≡ true
  pub pid : (n : ℕ) → ((os.forks n).pid ==ℤ minus_one) ≡ false
  pub semget : (n : ℕ) → minus_one ≤ℤ (os.semaphores n).first
  pub semaphore : (n : ℕ) → (id : ℤ) × (new_semaphore (os.semaphores n) ≡ done id)
  pub msgsnd : (n : ℕ) → os.msgsnd n ≡ true

-- A semaphore that passes the guards has a positive id, and is the chosen one.
pub new_semaphore-chosen :
    (a : Semget) (id : ℤ)
    → minus_one ≤ℤ a.first
    → new_semaphore a ≡ done id
    → (new_semaphore a ≡ done (chosen a)) × (pos 0 <ℤ chosen a)
unfolding new_semaphore
new_semaphore-chosen a id range e =
    let failed =
      (if a.first ==ℤ pos 0 then leb_ℤ a.second (pos 0) else a.first ==ℤ minus_one) || not a.set in
    elim (Bool-cases failed) [
      | inl failure ↦ let e' = rw failure at e in absurd cc
      | inr success ↦ (rw success refl, ground (arith, success, range))
    ]

-- The process asks for at most 2 ^ 30 bytes.
abbrev pub AsksLittle : Pcb → Type 0
AsksLittle p = p.memory_size ≤ℤ pos (2 ^ 30)

-- The answer to the request of `p`, and the state after it.
pub data Asked (g : Generator) (p : Pcb) (time : ℤ) : Bool × Generator → Type 0 where
  asked :
      (reply : Reply) (effects : List GeneratorEffect)
      → allocate_memory g.memory_segment p.id_from_file p.memory_size time ≡ done reply
      → Sized total_memory_size reply.root
      → Asked g p time (reply.success, record g { memory_segment = reply.root; effects = effects })

pub request_memory-Asked :
    (g : Generator) (p : Pcb) (time : ℤ)
    → AsksLittle p
    → Sized total_memory_size g.memory_segment
    → Ends (Asked g p time) (request_memory g p time)
unfolding request_memory
request_memory-Asked g p time little sized =
    let (reply, e, s) =
      Ends-value (
        allocate_memory_any-Sized g.memory_segment p.id_from_file p.memory_size time little
          sized) in
    rw e (ends (asked reply (logged reply.event ++ g.effects) e s))

module _ (os : GeneratorOs) where
  -- The control block of the n-th process that is created.
  abbrev pub launched : ℕ → Pcb → Pcb
  launched n p = record p { shm_id = (os.forks n).shmid; pid = (os.forks n).pid }

  abbrev pub launched_all : ℕ → List Pcb → List Pcb
  launched_all n [] = []
  launched_all n (p ∷ ps) = launched n p ∷ launched_all (n + 1) ps

  abbrev pub with_launched : Generator → Pcb → Generator
  with_launched g p =
      let q = launched g.births p in
      record g {
        births = g.births + 1;
        memory_segment = update_id q.id_from_file q.pid g.memory_segment;
        effects = stop_process q.pid ∷ store_remaining_time q.shm_id q.remaining_time ∷ g.effects;
      }

  abbrev pub with_sent : Generator → Pcb → Generator
  with_sent g q = record g { sent = g.sent ++ q ∷ []; messages = g.messages + 1 }

  -- What the requests of waiting processes come to, made one after the other from a segment: those
  -- that are granted, those that are refused, and the segment at the end.
  pub data Dealt (time : ℤ)
      : MemoryBlock → ℕ → List Pcb → List Pcb → List Pcb → MemoryBlock → Type 0 where
    none_left : {m : MemoryBlock} {n : ℕ} → Dealt time m n [] [] [] m
    granted :
        {m m' : MemoryBlock} {n : ℕ} {ps served kept : List Pcb} (p : Pcb) (reply : Reply)
        → allocate_memory m p.id_from_file p.memory_size time ≡ done reply
        → reply.success ≡ true
        → Dealt time
            (update_id p.id_from_file (launched n p).pid reply.root)
            (n + 1)
            ps
            served
            kept
            m'
        → Dealt time m n (p ∷ ps) (p ∷ served) kept m'
    refused :
        {m m' : MemoryBlock} {n : ℕ} {ps served kept : List Pcb} (p : Pcb) (reply : Reply)
        → allocate_memory m p.id_from_file p.memory_size time ≡ done reply
        → reply.success ≡ false
        → Dealt time reply.root n ps served kept m'
        → Dealt time m n (p ∷ ps) served (p ∷ kept) m'

  -- Nobody is lost, and both parts stay in order.
  pub Dealt-Interleaves :
      {time : ℤ} {m m' : MemoryBlock} {n : ℕ} {ps served kept : List Pcb}
      → Dealt time m n ps served kept m'
      → Interleaves served kept ps
  Dealt-Interleaves none_left = Interleaves.none_left
  Dealt-Interleaves (granted p reply e is_ok d) = to_first p (Dealt-Interleaves d)
  Dealt-Interleaves (refused p reply e not_ok d) = to_second p (Dealt-Interleaves d)

  pub Dealt-length :
      {time : ℤ} {m m' : MemoryBlock} {n : ℕ} {ps served kept : List Pcb}
      → Dealt time m n ps served kept m'
      → length served + length kept ≡ length ps
  Dealt-length none_left = refl
  Dealt-length (granted p reply e is_ok d) = omega (arith, Dealt-length d)
  Dealt-length (refused p reply e not_ok d) = omega (arith, Dealt-length d)

  module _ (steady : IsSteady os) where
    pub launch-done :
        (g : Generator) (p : Pcb) → launch os g p ≡ done (launched g.births p, with_launched g p)
    unfolding launch create_process
    launch-done g p = rw (steady.shmid g.births, steady.attached g.births, steady.pid g.births) refl

    pub send-done : (g : Generator) (p : Pcb) → send os g p ≡ done (with_sent g p)
    unfolding send
    send-done g p = rw (steady.msgsnd g.messages) refl

    pub admit-done :
        (g : Generator) (p : Pcb)
        → admit os g p ≡ done (with_sent (with_launched g p) (launched g.births p))
    unfolding admit
    admit-done g p = rw (launch-done g p) (send-done (with_launched g p) (launched g.births p))
