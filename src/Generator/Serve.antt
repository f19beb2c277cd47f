-- ===== src/Generator/Serve.antt =====
-- The first loop of `serve_waiting_queue`: each waiting process is sent, or put off.
use mathlib.Core.List.{append-nil, append_assoc}
use kernel_sim.Base.{
  ℕ, zero, suc, ◌+◌, ◌^◌, ◌≤◌, ◌<◌, ◌≡◌, refl, sym, ap, ◌∙◌, Bool, true, false, List, [], ◌∷◌, ◌++◌,
  arith, if◌then◌else◌,
}
use kernel_sim.Base.Int.{ℤ}
use kernel_sim.Base.Array.{length, length-append}
use kernel_sim.Base.Outcome.{done, ◌>>=◌, Ends, ends, Ends-then, Ends-weaken, Ends-branch}
use kernel_sim.Pcb.{Pcb}
use kernel_sim.PriorityQueue.{PriorityQueue}
use kernel_sim.Queue.{PcbQueue, queue_dequeue, queue_enqueue}
use kernel_sim.Queue.Inv.{contents}
use kernel_sim.Queue.Small.{
  IsSmall, queue_empty-IsSmall, queue_enqueue-IsSmall, queue_dequeue-IsSmall,
}
use kernel_sim.Memory.{MemoryBlock, Reply, allocate_memory, update_id, total_memory_size}
use kernel_sim.Memory.Sized.{Sized}
use kernel_sim.Memory.Total.{update_id-Sized}
use kernel_sim.Generator.{Generator, GeneratorOs, admit, serve_from}
use kernel_sim.Generator.Launch.{
  IsSteady, AsksLittle, Asked, asked, Dealt, none_left, granted, refused, request_memory-Asked,
  launched, launched_all, with_launched, with_sent, admit-done,
}

-- Each process of the list asks for at most 2 ^ 30 bytes.
abbrev pub AllLittle : List Pcb → Type 0
AllLittle [] = Unit {0}
AllLittle (p ∷ ps) = AsksLittle p × AllLittle ps

-- What `serve_from` is given: the processes `ps` wait, `temp` holds those already put off.
pub record ServeInv (ps : List Pcb) (g : Generator) (temp : PcbQueue) : Type 0 where
  pub waiting : IsSmall g.waiting_queue
  pub holds : contents g.waiting_queue ≡ ps
  pub sized : Sized total_memory_size g.memory_segment
  pub temp_small : IsSmall temp
  pub total : length (contents temp) + length ps ≤ 2 ^ 60
  pub little : AllLittle ps

module _ (os : GeneratorOs) where
  -- What `serve_from` ends with: those served have been created and sent, in order, and those kept
  -- stand behind the ones put off before.
  pub record ServedFrom (ps : List Pcb) (time : ℤ) (segment : MemoryBlock) (births : ℕ)
      (before put_off_before : List Pcb) (pq : PriorityQueue) (once : Bool)
      (r : Generator × PcbQueue) : Type 0 where
    pub served : List Pcb
    pub kept : List Pcb
    pub split : Dealt os time segment births ps served kept r.0.memory_segment
    pub sent : r.0.sent ≡ before ++ launched_all os births served
    pub put_off : contents r.1 ≡ put_off_before ++ kept
    pub temp_small : IsSmall r.1
    pub empty : contents r.0.waiting_queue ≡ []
    pub waiting : IsSmall r.0.waiting_queue
    pub sized : Sized total_memory_size r.0.memory_segment
    pub kept_pq : r.0.pq ≡ pq
    pub kept_once : r.0.once ≡ once

  module _ (p : Pcb) (ps : List Pcb) (time : ℤ) (segment : MemoryBlock) (births : ℕ)
      (before put_off_before : List Pcb) (pq : PriorityQueue) (once : Bool)
      (r : Generator × PcbQueue) (reply : Reply)
      (e : allocate_memory segment p.id_from_file p.memory_size time ≡ done reply) where
    served_first :
        reply.success ≡ true
        → ServedFrom ps time
            (update_id p.id_from_file (launched os births p).pid reply.root)
            (births + 1)
            (before ++ launched os births p ∷ [])
            put_off_before
            pq
            once
            r
        → ServedFrom (p ∷ ps) time segment births before put_off_before pq once r
    served_first success s = record {
      served = p ∷ s.served;
      kept = s.kept;
      split = granted p reply e success s.split;
      sent =
          s.sent
          ∙ append_assoc before (launched os births p ∷ []) (launched_all os (births + 1) s.served);
      put_off = s.put_off;
      temp_small = s.temp_small;
      empty = s.empty;
      waiting = s.waiting;
      sized = s.sized;
      kept_pq = s.kept_pq;
      kept_once = s.kept_once;
    }

    kept_first :
        reply.success ≡ false
        → ServedFrom ps time reply.root births before (put_off_before ++ p ∷ []) pq once r
        → ServedFrom (p ∷ ps) time segment births before put_off_before pq once r
    kept_first failure s = record {
      served = s.served;
      kept = p ∷ s.kept;
      split = refused p reply e failure s.split;
      sent = s.sent;
      put_off = s.put_off ∙ append_assoc put_off_before (p ∷ []) s.kept;
      temp_small = s.temp_small;
      empty = s.empty;
      waiting = s.waiting;
      sized = s.sized;
      kept_pq = s.kept_pq;
      kept_once = s.kept_once;
    }

  -- How the loop ends that is started at `g` with `temp`.
  abbrev pub Serves : List Pcb → ℤ → Generator → PcbQueue → Generator × PcbQueue → Type 0
  Serves ps time g temp r =
      ServedFrom ps time g.memory_segment g.births g.sent (contents temp) g.pq g.once r

  -- One process asks for memory, and the loop goes on with the others.
  serve_round :
      (fuel : ℕ) (time : ℤ) (p : Pcb) (ps : List Pcb) (g : Generator) (temp : PcbQueue)
      → IsSteady os
      → ((h : Generator) (t : PcbQueue)
          → ServeInv ps h t
          → Ends (Serves ps time h t) (serve_from os fuel time h t))
      → ServeInv (p ∷ ps) g temp
      → (r : Bool × Generator)
      → Asked (record g { waiting_queue = queue_dequeue g.waiting_queue }) p time r
      → Ends (Serves (p ∷ ps) time g temp) (
          if r.0
          then (admit os r.1 p >>= λ h. serve_from os fuel time h temp)
          else (queue_enqueue os.malloc temp p >>= λ t. serve_from os fuel time r.1 t))
  serve_round fuel time p ps g temp steady ih v _ (asked reply effects e sized) =
      let h = record g {
        waiting_queue = queue_dequeue g.waiting_queue;
        memory_segment = reply.root;
        effects = effects;
      } in
      let (_, _, waiting, holds) = queue_dequeue-IsSmall g.waiting_queue p ps v.waiting v.holds in
      Ends-branch reply.success
        (λ success. rw (admit-done os steady h p) (
          Ends-weaken
            (ih (with_sent os (with_launched os h p) (launched os h.births p)) temp (record {
              waiting = waiting;
              holds = holds;
              sized = update_id-Sized p.id_from_file (launched os h.births p).pid reply.root sized;
              temp_small = v.temp_small;
              total = omega (arith, v.total);
              little = v.little.1;
            }))
            λ r s.
              served_first p ps time g.memory_segment g.births g.sent (contents temp) g.pq g.once r
                reply e success s))
        λ failure.
          Ends-then
            (queue_enqueue-IsSmall os.malloc temp p steady.malloc v.temp_small
              (omega (arith, v.total)))
            λ t (small, more).
              Ends-weaken
                (ih h t (record {
                  waiting = waiting;
                  holds = holds;
                  sized = sized;
                  temp_small = small;
                  total =
                      omega
                        (arith, v.total, ap length more, length-append (contents temp) (p ∷ []));
                  little = v.little.1;
                }))
                λ r s.
                  kept_first p ps time g.memory_segment g.births g.sent (contents temp) g.pq g.once
                    r reply e failure (rw more at s)

  -- With a round for each waiting process and one more, the loop ends.
  pub serve_from-Serves :
      (fuel : ℕ) (time : ℤ) (ps : List Pcb) (g : Generator) (temp : PcbQueue)
      → IsSteady os
      → length ps < fuel
      → ServeInv ps g temp
      → Ends (Serves ps time g temp) (serve_from os fuel time g temp)
  unfolding serve_from
  serve_from-Serves zero time ps g temp steady enough v = absurd (omega arith)
  serve_from-Serves (suc fuel) time [] g temp steady enough v =
      rw (queue_empty-IsSmall g.waiting_queue v.holds) (
        ends (record {
          served = [];
          kept = [];
          split = none_left;
          sent = sym (append-nil g.sent);
          put_off = sym (append-nil (contents temp));
          temp_small = v.temp_small;
          empty = v.holds;
          waiting = v.waiting;
          sized = v.sized;
          kept_pq = refl;
          kept_once = refl;
        }))
  serve_from-Serves (suc fuel) time (p ∷ ps) g temp steady enough v =
      let (more, front, _, _) = queue_dequeue-IsSmall g.waiting_queue p ps v.waiting v.holds in
      rw (more, front)
        (Ends-then
          (request_memory-Asked (record g { waiting_queue = queue_dequeue g.waiting_queue }) p time
            v.little.0 v.sized)
          λ r a.
            serve_round fuel time p ps g temp steady
              (λ h t inv. serve_from-Serves fuel time ps h t steady (omega arith) inv) v r a)
