-- ===== src/Pcb/Order.antt =====
-- The comparators of src/DS/comparators.c are orders.
use kernel_sim.Base.{arith}
use kernel_sim.Base.Int.{ -ℤ_parts}
use kernel_sim.Heap.Order.{IsOrder}
use kernel_sim.Pcb.{compare_remaining_time, compare_priority, compare_arrival_time}

-- The sign of compare_remaining_time is that of a total preorder, as SRTN needs.
pub compare_remaining_time-IsOrder : IsOrder compare_remaining_time
unfolding compare_remaining_time
compare_remaining_time-IsOrder = grind (arith, -ℤ_parts)

-- The sign of compare_priority is that of a total preorder, as HPF needs.
pub compare_priority-IsOrder : IsOrder compare_priority
unfolding compare_priority
compare_priority-IsOrder = record {
  flip = λ x y h. omega (arith, -ℤ_parts);
  unflip = λ x y h. omega (arith, -ℤ_parts);
  trans = λ x y z h k. omega (arith, -ℤ_parts);
}

-- The comparison by arrival time is a total preorder.
pub compare_arrival_time-IsOrder : IsOrder compare_arrival_time
unfolding compare_arrival_time
compare_arrival_time-IsOrder = grind (arith, -ℤ_parts)
