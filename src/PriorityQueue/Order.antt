-- ===== src/PriorityQueue/Order.antt =====
-- `compare_processes` is an order under either sort mode.
use kernel_sim.Base.{arith}
use kernel_sim.Base.Int.{ -ℤ_parts}
use kernel_sim.Heap.Order.{IsOrder}
use kernel_sim.PriorityQueue.{
  SortMode, by_arrival_time, by_arrival_then_priority, compare_processes,
}

-- In either sort mode the sign of compare_processes is that of a total preorder.
pub compare_processes-IsOrder : (mode : SortMode) → IsOrder (compare_processes mode)
unfolding compare_processes
compare_processes-IsOrder by_arrival_time = record {
  flip = λ x y h. omega (arith, -ℤ_parts);
  unflip = λ x y h. omega (arith, -ℤ_parts);
  trans = λ x y z h k. omega (arith, -ℤ_parts);
}
compare_processes-IsOrder by_arrival_then_priority = record {
  flip = λ x y h. grind (arith, -ℤ_parts);
  unflip = λ x y h. grind (arith, -ℤ_parts);
  trans = λ x y z h k. grind (arith, -ℤ_parts);
}
