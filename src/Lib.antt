-- ===== src/Lib.antt =====
-- Models of the four exercises of an operating-systems course that the repository holds, and what is
-- proved of them. The exercises are independent programs; each has a folder.
--
-- Uthreads: ex2/uthreads.cpp, a library of user-level threads.
--   Ids is `struct unique_id`. Machine has the global variables as the record State (`uthreads`, `ready`,
--   `tids`, `current_thread`, `total_quantum`, `env`, `timer`, `sa` and the signal mask) and
--   `switch_threads` in the parts that its branches are. Calls and Calls.Waiting have the functions of
--   uthreads.h, from `uthread_init` to `uthread_get_quantums`. An identifier is an `int`, as ℤ, and
--   undefined behaviour is a result of its own. Whether a system call fails is an argument. A switch ends
--   the caller's turn: a result says which thread goes on. Invariant has what holds whenever a thread
--   runs; Dispatch, Switch, Blocking, Sync, Release, Terminate and Spawn show that the calls keep it, and
--   Run joins them to a transition system whose steps are calls and timer signals. Rejected, Dangling,
--   Wakeup, Schedule and Timing are about single behaviours. Lifecycle has the states of threads and the
--   moves between them, and its child modules show that each event makes only such moves; Accounts does
--   the same for the counters of quantums, and Outcomes has the ways that a call may take for both. There
--   signals come between calls; Interrupted and Interrupted.Ending have the one that comes inside
--   `uthread_block` and `uthread_terminate`, once they have let signals in again. Exit has
--   `uthreads_exit`. States has concrete states for the tests. Stacks, the translation of addresses and
--   the messages on standard error are left out.
--
-- Whatsapp: ex4, a chat server and its clients.
--   Text has byte strings and the parts of the C library that the parser uses. Command.Parse is
--   `parseCommand` of ex4/whatsappio.cpp. Framing.Wire is `send_data` and `read_data` of
--   ex4/whatsappCommon.h; the numbers of bytes that `write` and `read` take are lists. A text that is
--   longer than the buffer of `send_data` is undefined behaviour wherever the server or a client sends
--   it; Framing.Fits is about the texts that a frame holds. Names has the operations on `std::map` and
--   `std::vector` that ex4/whatsappServer.h uses. Server.State has the tables of `WhatsappServer` and the
--   handlers of ex4/whatsappServer.cpp, `createGroup`, `send`, `who`, `clientExit`, `connectNewClient`
--   and `handleClientRequest`; Server.Main has the loop of its `main`, with `serverStdInput` and
--   `serverExit`, where what `select` reports is an argument. Server.Rounds is about that loop.
--   Server.Greeting, Server.Answers, Server.Messages (with Server.Readers), Server.Listing and
--   Server.Shutdown are about clients and the server together, and the other modules of Server are about
--   the handlers; Server.Chat has a server for the tests. Client.Commands has the commands of
--   ex4/whatsappClient.cpp, Client.Session its `initialization` and what it does with what the server
--   sends, Client.Main the loop of its `main` with what it prints; Client.Checked, Client.Causes and
--   Client.Ending are about them. Port has `toUnsignedShort`, with `strtol` as the C standard describes
--   it, and Printing has the lines that are printed; Server.Printed has those of the server's handlers,
--   which Server.State leaves out, and Server.Journal compares them with what the clients tell their
--   users. Server.Start has `establish` and the server's `main`. What `socket`, `bind`, `listen`,
--   `connect`, `accept` and `select` give is an argument; `printError`, what goes to standard error and
--   the addresses are left out.
--
-- Memory: ex5, a library of virtual memory that the repository holds unfinished.
--   Physical is ex5/PhysicalMemory.cpp with the constants of ex5/MemoryConstants.h: the frames and the
--   swap file are functions, and a failed `assert` is `none`. Distance has the addresses and
--   `calc_cyclic_min`, Tables has `clearTable`, `isFrameEmpty`, `createTable` and `VMinitialize`, and
--   Tables.Search has `findEmptyTable` and `findFreeFrame`, all of ex5/VirtualMemory.cpp.
--   `find_frameToEvict` and `frameEvicter` take an array of references, which is no type of C++, and
--   `findPysicalAdd` reads through an uninitialised pointer: they are not modelled. `VMread` and
--   `VMwrite` are stubs.
--
-- MapReduce: ex3/MapReduceFramework.cpp and ex3/Barrier.cpp.
--   The threads are step relations, so that a theorem is about every interleaving. Barrier has the class
--   of ex3/Barrier.cpp; Barrier.Rounds is about its use without spurious wake-ups, Barrier.Spurious with
--   them. Mapping has `mapPhase` over the shared index, `emit2` and `sortPhase`. Shuffle is
--   `shufflePhase` with its comparisons up to the groups it makes. Reducing has the queue of groups, the
--   semaphore and the flag that `shufflePhase` and `reducePhase` share, and Framework joins the phases as
--   `singleThread` does. System has the phases of all threads with the barrier between them:
--   System.Invariant is what holds of every order of their steps, and System.Complete what the threads
--   have done at the end. The client's `map` is an argument, its `reduce` is the step that takes a group.
--   Output is `emit3` under its mutex, apart from the rest. Launch is `runMapReduceFramework`, which
--   creates and joins the threads, with the exits of the caller's own thread and of the barrier's
--   destructor; elsewhere the calls of pthread that fail, which end the process, are left out. A thread
--   may wake up by itself at the barrier: Reach of System counts these steps, which the results on the
--   phases exclude. `std::sort` is an insertion sort, which stands for it where the order of the keys is
--   a strict weak one. Schedule runs given steps for the tests.
--
-- Bounds: loops over arrays count down the entries that are left, and the search of ex5 the levels of
-- tables. The loops of ex4 run over the replies of the system; the one over the tokens of a line has a
-- round for each byte of the line, and each token uses up a byte. The fuel of `shufflePhase` is the number
-- of pairs, of which each round takes at least one. The steps of the threads of ex3 are counted, and the
-- bounds on their number stand among the results.
--
-- Common has the names and the lemmas that all of them share.
mod Common
pub mod Uthreads
pub mod MapReduce
pub mod Memory
pub mod Whatsapp
