-- ===== src/Lib.antt =====
-- Verification of the programs of an operating-systems course, each in a directory of its own
-- and each with a state in global variables.
--
-- Banker (Project-6/banker.c): the banker's algorithm for five customers and four resources.
--   `Bank` is the four global arrays. `is_leq`, `is_safe`, `request_resources` and
--   `release_resources` have the source's names; their loops are the functions that end in
--   `_from` or `_rounds`, or start with `rollback`. `Banker.Session` has `init`, the wrappers
--   (`exec`) and the loop of `main` (`run`).
-- Allocator (Project-7/memory_allocator.c): first, best and worst fit on a list of blocks.
--   `Memory` is the list from `mem`, and `request_memory`, `release_memory` and
--   `compact_memory` have the source's names. `Allocator.Session` has `init` and the loop of `main`.
-- Pager (Project-8/vm_manager.c): a TLB and a page table over FIFO frames. `Vm` is the global
--   variables. `Pager.Session` has `init` and the loop of `main`.
-- Scheduler (Project-4/list.c, driver.c, schedule_fcfs.c, schedule_sjf.c, schedule_priority.c and
--   CPU.c): `insert`, `delete`, `add`, `run`, `schedule` and `main` have the source's names, with
--   `pickNextTask` as an argument: `pick_fcfs`, `pick_sjf` or `pick_priority`. The task list is a
--   list, and a trace is what `run` prints. `main_file` of `Scheduler.Driver` is `main` from the text of
--   the file: `read_line` of `Scheduler.Fields` is the calls of `strsep`, with `atoi` as an argument, and
--   `none` is a null pointer or an undefined `free`. `main`, there and in RoundRobin, starts from the
--   tasks that have been read.
-- Sort (Project-3-1/multithreaded_sort.c): `cmp`, `runner`, `main` and `merge_array` with its loops
--   `merge_from` and `copy_from`. The array is a function of the index, and `result` the list of what
--   is written to it. `qsort` is an argument, and `IsQsort` is what the program relies on.
--   `Sort.Session` has `init_array`, `print_array` and the whole of `main`, from what is typed.
-- Ring, Buffer, Pool (Project-5-2/buffer.c and main.c, Project-5-1/threadpool.c and client.c): Ring
--   is the circular array with its mutex, which both programs have. In Buffer and Pool, `step` is one
--   statement of a thread, or `none` where the thread waits, and `run` is any interleaving, as the
--   list of the threads that are picked. The lists `added`, `taken` and `executed` record what has
--   happened, and no step reads them.
-- Closing (`pool_shutdown` of Project-5-1/threadpool.c, the end of `main` of Project-5-2/main.c): one
--   thread cancels, joins and destroys, as `close`; a cancelled thread ends by `end`, at a cancellation
--   point only. `Crew` is what each program gives to it, as `bees` of `Pool.Shutdown` and `workers` of
--   `Buffer.Shutdown`, and `IsCrew` the laws that both satisfy.
-- Shell (Project-2-1/simple_shell.c): `args` is a function of the index and `none` a null pointer; a
--   line that is longer than its copy, or an argument that is written behind the end of `args`, is `none`.
--   `init_args`, `refresh_args`, `parse_input` and `get_input` are in Shell, `check_ampersand`,
--   `check_redirection` and `detect_pipe` in `Shell.Command`, `run_command` in `Shell.Launch`, and the loop of `main` in
--   `Shell.Session`. `run_command` gives the processes that are started, with arguments
--   and files, and apart from them the ones that crash because `execvp` gets a null pointer; its system
--   calls succeed. In `run_on` of `Shell.System` they may fail, as an `Os` says. That a process reads
--   from a pipe or writes to one is not noted in it.
-- RoundRobin (Project-4/schedule_rr.c, schedule_priority_rr.c and list.c): the nodes of the list are
--   numbered, and `Heap` keeps their pointers, since `next_node` points into the list. `insert`, `delete`, `pick_next_task`, `schedule`
--   and `main` are the source's functions; those of `RoundRobin.Priority` are for the lists by
--   priority.
-- Kernel (Project-1/jiffies_module.c, Project-1/seconds_module.c, Project-2-2/pid_module.c): the
--   functions `read_` are `proc_read` of the three modules, `init_seconds` is `proc_init`, `write_pid` is
--   `proc_write`. `completed` is the static variable of `proc_read`.
-- Base is the names of the library that all parts use, integers over the native numbers, arrays
--   as functions with their bounded sums, and lemmas on lists.
--
-- Bounds. Every loop that runs over an array is a recursion on the number of rounds that are
-- left, with the constant of the source. The loop of `schedule` has fuel for one round more
-- than there are tasks, since each round unlinks one task, and that of `merge_array` one round
-- more than there are entries, since each round writes one. `parse_input` has fuel for each
-- character of the line, `check_redirection` for each argument, and round robin for a bound on
-- the turns of each task, one for every 10 units of its burst. An `int` is an unbounded
-- integer, since its overflow is undefined behaviour, which `cmp` of the sort shows as `none`;
-- a `size_t` and a `uint32_t` wrap around as in the source. An access outside an array, or a
-- pointer that is left dangling, is `none`.
--
-- Not modelled: printing, the reading of arguments and of files (their values are arguments of
-- the model), and the release of storage at the end. `malloc` is taken to succeed. The backing
-- file of the pager is the parameter `store`. A thread that sleeps is only delayed. `close_file` of
-- the shell, which gives descriptors back, and `traverse` of Project-4/list.c, which prints, are left
-- out, and so is the second sort, which is in Go.
pub mod Base
pub mod Banker
pub mod Allocator
pub mod Pager
pub mod Scheduler
pub mod Sort
pub mod Ring
pub mod Closing
pub mod Buffer
pub mod Pool
pub mod Shell
pub mod RoundRobin
pub mod Kernel
