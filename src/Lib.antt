-- ===== src/Lib.antt =====
-- The OS scheduler simulator: its data structures, its buddy allocator, its scheduler, the generator
-- that starts the processes, and the processes.
--
-- The program reads processes from a file (src/process_generator.c) into a priority queue by
-- arrival time (src/DS/priorityQueue.c), gives each arriving process memory from a buddy tree
-- (src/memory_manager.c) or puts it into a waiting ring (src/DS/Queue.c), and sends it to the
-- scheduler (src/scheduler.c), which keeps the ready processes in a binary heap
-- (src/DS/minHeap.c, ordered by src/DS/comparators.c) or, for round robin, in a ring. A process
-- (src/process.c) counts its remaining time down in shared memory, a tick whenever the scheduler has
-- raised its semaphore, and signals its end to the scheduler; the generator then gets its memory back.
--
-- The files:
--   Base           Tests on numbers, signed integers, arrays, and how C code ends (Outcome).
--   Clock          src/clk.c: init_clk, run_clk, get_clk, sync_clk, destroy_clk.
--   Pcb            src/pcb.h and src/DS/comparators.c; Pcb/Order: the comparators.
--   Heap           The steps that the two binary heaps share; Heap/Order, Down, Up and Update: the
--                  heap order and the sifts that restore it.
--   MinHeap        src/DS/minHeap.c, a function for each of its functions: create_min_heap,
--                  insert_process_min_heap, extract_min, update_process_in_heap,
--                  find_process_in_heap, destroy_min_heap, heapify_up, heapify_down.
--   PriorityQueue  src/DS/priorityQueue.c: pq_init, pq_free, pq_empty, pq_resize, pq_push, pq_top,
--                  pq_pop, compare_processes; the loop of pq_push is hole_up.
--   Queue          src/DS/Queue.c: queue_init, queue_free, queue_empty, queue_full, queue_resize,
--                  queue_enqueue, queue_front, queue_dequeue; Queue/Refine: the ring as a list.
--   Memory         src/memory_manager.c. The tree of blocks is a data type, a pointer to a block is
--                  the path to it, and each function that changes blocks returns the new tree.
--                  Memory/Occupied: the blocks that processes hold (leases).
--   Scheduler      src/scheduler.c: its globals as a record, its handlers and algorithms as
--                  functions from state to state; Scheduler/Stop, Dispatch, Switch and RoundRobin:
--                  how a process is stopped and the next one is chosen; Scheduler/Arrive and
--                  Scheduler/Complete: arrivals, ends of processes and a clock tick of main.
--                  Scheduler/Account: what is received is logged as ended, current or ready;
--                  Turn, Keep, Algorithms, Receive and Round: the parts of the loop of main
--                  account for it; Run and Finish: whole runs; Fair: turns under round robin;
--                  Find: find_process_by_pid, which nothing calls.
--   Generator      src/process_generator.c: its globals as a record. A round of the loop of main is
--                  generator_round, with serve_waiting_queue (serve_from and move_back are its loops)
--                  and arrive_all, the loop over arrivals; createProcess is create_process. The
--                  handler of SIGCHLD is handle_children_termination. Generator/ReadProcesses:
--                  read_processes and the state before the loop; Generator/WaitingQueue and Arrive:
--                  the two loops; Generator/Tick and Run: rounds, and runs as a step relation;
--                  Generator/Rows: the rows of the file that its processes have;
--                  Generator/Kept: what a run keeps; Generator/Fresh: what is sent; Generator/Input
--                  and Stuck: whole runs from a file, and of a process that asks for too much.
--   Arguments      The arguments of the three programs: parse_args and the calls of execl in
--                  src/process_generator.c, the heads of main in src/scheduler.c and src/process.c.
--   Simulation     The generator and the scheduler together: main of src/process_generator.c up to its
--                  loop (Simulation/Setup), the state in which the scheduler begins
--                  (Simulation/Start), and whole runs from the file (Simulation/Whole) or from the
--                  command line on (Simulation/CommandLine).
--   SimulatedProcess  src/process.c: run_process, whose loop is work_from.
--   Logger         src/logger.c: print_progress_bar.
--   Semaphores     src/semaphores.c: down, up, down_nb and up_nb on an answer of semop.
--
-- Arrays are lists, and an access outside an array is the outcome `fault`. A C `int` is an exact
-- integer, except in highestPowerOf2, where leaving its range is a fault; `size_t` sums wrap at
-- 2 ^ 64. Loops run on fuel, and running out of it is the outcome `exhausted`. The fuel is one more
-- than the index for sifting up (it at least halves), one more than the size for sifting down (the
-- index grows), 32 for the doubling power, and one more than the total size for the search in the
-- tree (the size halves), one more than the number of processes in the queue for each loop of the
-- generator; the theorems show that these are enough.
--
-- What the operating system does is an argument: the arrays of malloc, whether kill succeeds, what
-- shared memory holds, the clock, the messages in the queue. malloc is taken to succeed where the
-- code does not test it. `exit` with a status of failure is the outcome `exited`. The generator gets
-- the answers of its system calls from functions of how many processes, semaphores and messages there
-- have been, so that a run is determined; atoi, sscanf and sprintf are functions on texts, and a file is
-- the list of lines that fgets returns. Signals are handled between calls: a run of the generator is a
-- sequence of rounds and of deaths of children, and one of the scheduler a sequence of rounds and of the
-- signals of ended processes and of the generator, where the operating system may answer differently in
-- every step. The statistics have room for 100 processes, so the simulation is taken with at most 100.
--
-- Not modelled: test_generator.c, which writes random input; the printing functions, except for the
-- progress bars, which divide; the float statistics of scheduler.c.
pub mod Base
pub mod Clock
pub mod Pcb
pub mod Heap
pub mod MinHeap
pub mod PriorityQueue
pub mod Queue
pub mod Memory
pub mod Scheduler
pub mod Generator
pub mod Arguments
pub mod Simulation
pub mod Semaphores
pub mod Logger
pub mod SimulatedProcess
