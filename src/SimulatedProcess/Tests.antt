-- ===== src/SimulatedProcess/Tests.antt =====
-- A run of the process of src/process.c, and the theorems at concrete answers.
use kernel_sim.Base.{◌≡◌, true, List, [], ◌∷◌, arith}
use kernel_sim.Base.Int.{pos}
use kernel_sim.Base.Outcome.{fault, Ends}
use kernel_sim.Semaphores.{Semop, changed, again, failed}
use kernel_sim.SimulatedProcess.{run_process}
use kernel_sim.SimulatedProcess.Work.{AfterTicks, taken, run_process-AfterTicks, run_process_zero}

-- The semaphore is taken twice.
abbrev answers : List Semop
answers = again ∷ changed ∷ failed ∷ again ∷ changed ∷ []

run_process-AfterTicks_example :
    Ends (AfterTicks 3 (taken answers)) (run_process true (pos 3) (pos 60) changed answers)
run_process-AfterTicks_example = run_process-AfterTicks 2 (pos 60) answers (omega arith)

run_process_zero_example : run_process true (pos 0) (pos 60) changed answers ≡ fault
run_process_zero_example = run_process_zero (pos 60) changed answers (omega arith)
