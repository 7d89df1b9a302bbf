-- ===== src/Lib.antt =====
-- The lottery scheduler of SOA-P1-GrupoCU: up to 25 worker threads compute terms of a series, one
-- thread at a time, as a lottery over the tickets of their tasks decides. `main` reads the options,
-- loads a CSV file of tasks, starts a worker per task, runs the scheduler's main loop, and joins.
--
-- The parts, and where they are modelled (paths from the repository's root):
--
-- - src/rng.c: Rng. `xorshift` is the three shifts, on 32 bits; `rng_seed` is passed explicitly.
-- - src/task.c, include/task.h: Task has `task_t`, its life cycle and the operations of the
--   scheduler on it; Task.Work has the work of a dispatch, from `task_do_one_working_unit` to a
--   round of `task_do_work_unit`.
-- - src/scheduler.c: Lottery has the sum of the tickets, the random ticket and the winner;
--   Scheduler the main loop, with the lines of the log as events, Scheduler.Lines their texts,
--   Scheduler.Configure the slices of the modes, Scheduler.Init the start. In the main loop the
--   wait for the RUNNING task is the round of that task's worker.
-- - src/task.c and src/scheduler.c together: Threads has the workers and the scheduler thread as a
--   step relation, a step being a critical section of the mutex or a work unit outside it.
--   Threads.Machine puts the scheduler's own functions among the workers: the main loop with its
--   draw and its log lines, in steps between which the workers move; Threads.Condition adds who
--   waits on `state_cond` and whom a broadcast wakes.
-- - src/parser.c: Parser.Load has `parser_load`, Parser.Options the command line. The loader uses
--   `dll_find_node` of src/double_linked_list.c on the list that it builds. Parser.Heap has the
--   loader in memory, with the calls of src/double_linked_list.c and `task_create`, and the clean-up
--   on an error.
-- - src/double_linked_list.c: LinkedList, on a heap of its own, with LinkedList.Unlink and
--   LinkedList.Walk for the removal; but for Parser.Heap the other parts see a `List`.
-- - src/logger.c, include/logger.h: Logger, over the interface of Logger.Files to the files of the
--   system. The parser gives it the two paths, the main loop its events, and the tasks at the end
--   are the rows of the summary.
-- - src/main.c: Program, the order of the calls and the exit status, and Program.Files, the calls
--   of the logger among them.
-- - Base: the shared names, tests on numbers, lists, exclusive or, and the parameters of the
--   floating point arithmetic. Tests: concrete inputs.
--
-- State is passed explicitly: a task is a record, the list of tasks a `List` in the order of
-- `next`, the scheduler's variables the record `Sched`. Machine integers are ℕ with `% 2 ^ 32` or
-- `% 2 ^ 64` written out where the program computes in them.
--
-- Code that is not the repository's is an argument. `float` and `double` are the instance
-- `Floats`, and `IsIeee` names the few facts of IEEE 754 that proofs rely on; `Converges` says
-- that neither the term nor the partial sum overflows a `double` in any of the first 2^32 steps of
-- the series, which are all that 32-bit numbers of work units ask for, and under it a unit never
-- fails. Likewise the lines that `fgets` gives (a line of more than 511 bytes comes in pieces),
-- what `sscanf`, `strtoul`, `strtof`, `stat` and `getopt_long` answer, and whether `malloc`,
-- `pthread_create` and `pthread_join` succeed. Tests.Fixed has decimals that satisfy `IsIeee` and
-- `Converges`. The files are the record `FileSystem`, with `mkdir`, `fopen` and `fprintf`;
-- `IsFileSystem` says what is relied on of them, and Tests.Disk has a disk in memory that meets
-- it. Two paths may name one file, as `out.csv` and `./out.csv` do: `IsFileSystem` has a relation
-- `Apart` of paths that name different files, and says of no other paths that a call leaves them
-- alone. What is printed is a piece with its arguments; Base.Decimal has the decimals of `printf`,
-- the time and the other formats are the C library's. A file is taken to hold what is printed at
-- once, since the program flushes or closes it after each line.
--
-- Fuel: `main_loop` runs on fuel, a unit per turn; the bound is the work units of the file, since a
-- dispatch does one at least. The walks over LinkedList run on fuel, a unit per node, and the bound
-- is the length; Parser.Heap has fuel for more than the 25 nodes that the loader allows. The other
-- loops are recursions on the list, or on the units that a dispatch may
-- run.
--
-- Not modelled: the texts of messages to the terminal and of the help; `task_wait_for_state_change`
-- and `task_broadcast_signal_to_wake_threads`, which the program does not call; the order in which
-- threads get the mutex, which is any. In Threads and Threads.Machine a waiting thread may test its
-- condition at any time, in Threads.Condition only after a broadcast.
pub mod Base
pub mod Rng
pub mod Task
pub mod Parser
pub mod Lottery
pub mod Scheduler
pub mod Logger
pub mod Threads
pub mod LinkedList
pub mod Program
pub mod Tests
