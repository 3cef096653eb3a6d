-- ===== src/Lib.antt =====
-- Four programs of an operating systems course: user-level threads, a hierarchical virtual memory,
-- a MapReduce framework, and a client with several servers. They share no code.
--
-- Uthreads_Library/uthreads.cpp is modelled by Uthreads.
--   * Uthreads/Machine: `thread` is `Thread`, the global variables are the record `Globals`, `block`
--     and `unblock` set the signal mask. A function is a state passing function into `Outcome`: it
--     returns, exits with a status, is undefined (a read through an invalid pointer, `front` of an
--     empty queue, `num_quantums + 1` of the greatest `int`, a thread that frees its own stack), or
--     hands over to another thread and never returns, as a thread does that terminates itself. The
--     heap of `thread` objects is a partial function on addresses. A stack is freed with the object
--     of its thread: a second deletion is a fault at the object, and is not looked for at the stack.
--   * Uthreads/Containers: `std::map<int, T>` as a list of entries in the order of the keys.
--   * Uthreads/Scheduler: `delete_thread` and `schedule_handler`. A loop over a container is a
--     structural recursion over its contents. `siglongjmp` ends the step: control goes on in the
--     thread that `running_thread` points to. A thread that blocks itself or sleeps goes on when it
--     runs again; the result of its call is what it gets then.
--   * Uthreads/Api: `setTimer`, `addthread` and the calls of uthreads.h, by their own names.
--   * Uthreads/Invariant: what holds between the calls (`Inv`), and below it one file for each part
--     of the argument; Uthreads/Starting, Lifetime and Safety state it for the calls.
--   * Uthreads/RoundRobin: the order in which the handler runs the ready threads.
--   * Uthreads/Samples and Witnesses: concrete runs.
-- The only loop that does not follow a container is the one of `addthread`: it gets 100 values of
-- `i` to go, as the code's bound MAX_THREAD_NUM says.
--
-- Hierarchical_Virtual_Memory_System/ is modelled by Memory: Memory/Physical is PhysicalMemory.cpp
-- (RAM, swap file, assertions as `none`) with MemoryConstants.h, the other files are
-- VirtualMemory.cpp: Distance (`cyclic_distance`), Traversal (`tree_traversal`), Frames
-- (`emptyFrame`, `clearMemory`, `findEmptyCell`) and Virtual (`extractPhysicalAdd`, `VMwrite`,
-- `VMread`). Their child files Physical/RoundTrip, Distance/Farthest, Traversal/Reached, Entries
-- and Search, Frames/Choice and Virtual/Mapped are about what they compute. Words are integers,
-- addresses are numbers below 2 ^ 64 with the wrap-around of `uint64_t` written out.
-- `tree_traversal` recurses on the levels that are left, TABLES_DEPTH (4) at the root, and a loop
-- on the entries or frames that are left.
--
-- MapReduce_Framework/ is modelled by MapReduce: MapReduce/Barrier is Barrier.cpp, the other files are
-- MapReduceFramework.cpp.
--   * MapReduce/Framework: `JobContext`, the merge of the vectors, the groups of `shuffle_stage`;
--     its child files Merge and Groups are about these two.
--   * MapReduce/Threads: `job_ToDo` as steps, one for each critical section, call of the barrier and
--     atomic increment; `Reach` has the states that the threads reach in any order of their steps.
--     Threads/Invariant and the files below it are the invariant and its preservation by each step;
--     Threads/Correct, Measure, Halting, Deadlock, Sorted and Counters use it. Threads/Thrown has a
--     weaker invariant, which asks nothing of std::sort.
--   * MapReduce/Progress: `getJobState`; a percentage is kept as the two numbers that are
--     divided, where the divisor is not 0: 0 by 0 is not a number.
--   * MapReduce/Handle: `waitForJob`, `closeJobHandle` and the objects that are allocated.
--   * MapReduce/Samples and Witnesses: a concrete job.
-- `merge_vectors` gets a bound on its calls, the number of vectors, which is enough as every call
-- but the last halves it. The code merges into the vectors of the threads, which nobody reads
-- afterwards; the model leaves them as they were. The client's calls of `emit2` and `emit3` are
-- the list of what it emits; the counter of `shuffle_stage` is raised at once.
--
-- Linux_Multi_Server_Ipc/ is modelled by Ipc: Ipc/Globals is globals.h, Ipc/Messages the bytes in the
-- shared memory and from a socket (RoundTrip below it), Ipc/Server is server.cpp (Releases below it)
-- and Ipc/Client client.cpp (Sockets, Listing and Counting below it). The id or descriptor -1 is
-- `none`; a text is a list of its bytes; an info file is its four fields. The end of the process is
-- a result (`exits`, or `killed` for SIGPIPE), as are a write behind the shared memory and, in the
-- client, a loop over a socket that never gives an end (`hangs`). A directory has finitely many
-- entries. Ipc/Witnesses has concrete runs.
--
-- Parameters: the records `Os` and `ServerOs` of Ipc have what the system calls answer;
-- `GivesClosed` and `Behaves` say that they give descriptors that are not open, `Behaves` also
-- that a segment can be removed. The record `Client` of MapReduce has the client's `map` and
-- `reduce`, the order of its keys, and what std::sort does with it; `Sorts` says that it sorts and
-- keeps its entries, `IsOrder` that the keys have a strict weak order. The record `Os` of Uthreads
-- has what `sigprocmask`, `sigaction`, `setitimer`, the allocation of a stack and
-- `translate_address` (inline assembly) answer; `Works` says that `sigprocmask` succeeds on valid
-- arguments.
--
-- Not modelled: the code that threads run between the calls; the overflow of the `int` counters
-- `quantums_number` and `quantum` (they are numbers without a bound here); failures of pthread functions and of `new`, which
-- end the process; a wake-up of `pthread_cond_wait` without a broadcast; the sample client; the printing
-- and parsing of texts and the attachments of shared memory in Linux_Multi_Server_Ipc/.
pub mod Base
pub mod Uthreads
pub mod Memory
pub mod MapReduce
pub mod Ipc
