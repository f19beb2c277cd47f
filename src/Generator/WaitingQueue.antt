-- ===== src/Generator/WaitingQueue.antt =====
-- `serve_waiting_queue`: every waiting process is sent, or waits on.
use mathlib.Core.List.{append-nil, append_assoc}
use kernel_sim.Base.{
  ℕ, zero, suc, ◌+◌, ◌^◌, ◌≤◌, ◌<◌, ◌≡◌, refl, sym, ap, ◌∙◌, List, [], ◌∷◌, ◌++◌, arith,
}
use kernel_sim.Base.Int.{ℤ}
use kernel_sim.Base.Array.{length, length-append}
use kernel_sim.Base.Outcome.{Ends, ends, Ends-then, Ends-weaken}
use kernel_sim.Pcb.{Pcb}
use kernel_sim.Queue.{PcbQueue, queue_init, queue_dequeue}
use kernel_sim.Queue.Inv.{contents}
use kernel_sim.Queue.Small.{
  IsSmall, size-contents, queue_empty-IsSmall, queue_init-IsSmall, queue_enqueue-IsSmall,
  queue_dequeue-IsSmall,
}
use kernel_sim.Memory.{total_memory_size}
use kernel_sim.Memory.Sized.{Sized}
use kernel_sim.Generator.{Generator, GeneratorOs, move_back, serve_waiting_queue}
use kernel_sim.Generator.Launch.{IsSteady, Dealt, Dealt-length, launched_all}
use kernel_sim.Generator.Serve.{AllLittle, serve_from-Serves}

module _ (os : GeneratorOs) where
  -- The queue is that of before, with the processes of `temp` behind it.
  pub record MovedBack (ps : List Pcb) (g h : Generator) : Type 0 where
    pub waiting : IsSmall h.waiting_queue
    pub holds : contents h.waiting_queue ≡ ps
    pub sent : h.sent ≡ g.sent
    pub segment : h.memory_segment ≡ g.memory_segment
    pub kept_pq : h.pq ≡ g.pq
    pub kept_once : h.once ≡ g.once

  move_back-MovedBack :
      (fuel : ℕ) (ps : List Pcb) (g : Generator) (temp : PcbQueue)
      → IsSteady os
      → length ps < fuel
      → IsSmall g.waiting_queue
      → IsSmall temp
      → contents temp ≡ ps
      → length (contents g.waiting_queue) + length ps ≤ 2 ^ 60
      → Ends (MovedBack (contents g.waiting_queue ++ ps) g) (move_back os fuel g temp)
  unfolding move_back
  move_back-MovedBack zero ps g temp steady enough s t e few = absurd (omega arith)
  move_back-MovedBack (suc fuel) [] g temp steady enough s t e few =
      rw (queue_empty-IsSmall temp e) (
        ends (record {
          waiting = s;
          holds = sym (append-nil (contents g.waiting_queue));
          sent = refl;
          segment = refl;
          kept_pq = refl;
          kept_once = refl;
        }))
  move_back-MovedBack (suc fuel) (p ∷ ps) g temp steady enough s t e few =
      let (more, front, small, rest) = queue_dequeue-IsSmall temp p ps t e in
      rw (more, front)
        (Ends-then (queue_enqueue-IsSmall os.malloc g.waiting_queue p steady.malloc s (omega arith))
          λ w (small_w, longer).
            let size = ap length longer ∙ length-append (contents g.waiting_queue) (p ∷ []) in
            Ends-weaken
              (move_back-MovedBack fuel ps (record g { waiting_queue = w }) (queue_dequeue temp)
                steady (omega arith) small_w small rest (omega (arith, size)))
              λ h m. record {
                waiting = m.waiting;
                holds =
                    m.holds
                    ∙ ap (λ l. l ++ ps) longer
                    ∙ append_assoc (contents g.waiting_queue) (p ∷ []) ps;
                sent = m.sent;
                segment = m.segment;
                kept_pq = m.kept_pq;
                kept_once = m.kept_once;
              })

  -- After `serve_waiting_queue`, `served` have been created and sent, and `kept` wait as before.
  pub record Served (time : ℤ) (g h : Generator) : Type 0 where
    pub served : List Pcb
    pub kept : List Pcb
    pub split :
        Dealt os time g.memory_segment g.births
          (contents g.waiting_queue)
          served
          kept
          h.memory_segment
    pub sent : h.sent ≡ g.sent ++ launched_all os g.births served
    pub waits : contents h.waiting_queue ≡ kept
    pub small : IsSmall h.waiting_queue
    pub sized : Sized total_memory_size h.memory_segment
    pub kept_pq : h.pq ≡ g.pq
    pub kept_once : h.once ≡ g.once

  -- With an operating system whose calls succeed, a small waiting ring whose processes ask for at
  -- most 2 ^ 30 bytes, and a segment whose sizes halve, serve_waiting_queue ends: in the order of
  -- the ring each process asks for memory once; those that get it are created and sent in that
  -- order, the others wait as before, and the arrival queue is untouched.
  pub serve_waiting_queue-Served :
      (g : Generator) (time : ℤ)
      → IsSteady os
      → IsSmall g.waiting_queue
      → length (contents g.waiting_queue) ≤ 2 ^ 60
      → AllLittle (contents g.waiting_queue)
      → Sized total_memory_size g.memory_segment
      → Ends (Served time g) (serve_waiting_queue os g time)
  unfolding serve_waiting_queue
  serve_waiting_queue-Served g time steady s few little sized =
      let (temp_small, none_yet) = queue_init-IsSmall os.malloc steady.malloc in
      let start = queue_init os.malloc 100 in
      Ends-then
        (serve_from-Serves os (g.waiting_queue.size + 1) time (contents g.waiting_queue) g start
          steady (omega (arith, size-contents g.waiting_queue))
          (record {
            waiting = s;
            holds = refl;
            sized = sized;
            temp_small = temp_small;
            total = omega (arith, few, ap length none_yet);
            little = little;
          }))
        λ r f.
          let put_off : contents r.1 ≡ f.kept = f.put_off ∙ ap (λ l. l ++ f.kept) none_yet in
          Ends-weaken
            (move_back-MovedBack (r.1.size + 1) f.kept r.0 r.1 steady
              (omega (arith, size-contents r.1, ap length put_off)) f.waiting f.temp_small put_off
              (omega (arith, few, ap length f.empty, Dealt-length os f.split)))
            λ h m. record {
              served = f.served;
              kept = f.kept;
              split = rw m.segment f.split;
              sent = m.sent ∙ f.sent;
              waits = m.holds ∙ ap (λ l. l ++ f.kept) f.empty;
              small = m.waiting;
              sized = rw m.segment f.sized;
              kept_pq = m.kept_pq ∙ f.kept_pq;
              kept_once = m.kept_once ∙ f.kept_once;
            }
