-- ===== src/Pcb.antt =====
-- src/pcb.h and src/pcb.c: the process control block and its states, and
-- src/DS/comparators.c: the orders on control blocks.
pub mod Order
use kernel_sim.Base.{ℕ}
use kernel_sim.Base.Int.{ℤ, pos, ◌-ℤ◌}

pub data ProcessState : Type 0 where
  waiting ready running stopped terminated : ProcessState

-- `struct PCB`
pub record Pcb : Type 0 where
  pub pid : ℤ
  pub id_from_file : ℤ
  pub arrival_time : ℤ
  pub start_time : ℤ
  pub remaining_time : ℤ
  pub finish_time : ℤ
  pub priority : ℤ
  pub waiting_time : ℤ
  pub execution_time : ℤ
  pub child_pid : ℤ
  pub last_prempt_time : ℤ
  pub shm_id : ℤ
  pub memory_size : ℤ
  pub sync_semid : ℤ
  pub state : ProcessState

-- `PCB p = {0}`
abbrev pub zero_pcb : Pcb
zero_pcb = record {
  pid = pos 0;
  id_from_file = pos 0;
  arrival_time = pos 0;
  start_time = pos 0;
  remaining_time = pos 0;
  finish_time = pos 0;
  priority = pos 0;
  waiting_time = pos 0;
  execution_time = pos 0;
  child_pid = pos 0;
  last_prempt_time = pos 0;
  shm_id = pos 0;
  memory_size = pos 0;
  sync_semid = pos 0;
  state = waiting;
}

unfoldable pub compare_remaining_time : Pcb → Pcb → ℤ
compare_remaining_time a b = a.remaining_time -ℤ b.remaining_time

unfoldable pub compare_priority : Pcb → Pcb → ℤ
compare_priority a b = a.priority -ℤ b.priority

unfoldable pub compare_arrival_time : Pcb → Pcb → ℤ
compare_arrival_time a b = a.arrival_time -ℤ b.arrival_time
