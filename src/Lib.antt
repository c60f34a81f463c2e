-- ===== src/Lib.antt =====
-- Verification of the programs of a course on operating systems: a library of user-level threads with
-- its synchronizers, monitors over POSIX threads, a thread pool, a channel over shared memory, and
-- echo servers.
--
-- Parts, and the files that model them.
--
-- EntryList: the intrusive circular list, 15-uthread-synch/uthreads/include/list.h. The copies in
-- 17-pthreads-monitors, 18-thread-pool and 20-net-sockets are the same text. `Links` is the memory:
-- the fields `next` and `prev` by the address of an entry. `Ring` says which sequence of entries a
-- memory stands for, `Insert` and `Remove` prove the operations, `Flink` has the older version of
-- 14-uthread-scheduling/list.h.
--
-- Uthread: the scheduler of 15-uthread-synch/uthreads/uthread/uthread.c. `State` has its globals and
-- the fields of the thread descriptors. `Context` models the assembly routines of ctxswitch.s and the
-- contexts that are built for new threads, in the versions of 13-uthread-ctxsw, 14-uthread-scheduling
-- and 15-uthread-synch; words of memory at different addresses are taken not to overlap. `Spec` is the
-- abstract scheduler, `Refine`, `Lifecycle` and `Rotate` relate the code to it. `SimpleTest` is test 1
-- of 15-uthread-synch/uthreads/tests/simpletest.c, whose threads run on this scheduler up to their
-- next switch; `rand` is a parameter, and 101 turns of each thread are enough fuel. `Handover` is the
-- program of 13-uthread-ctxsw/uthread.c over the processor of `Context`, in seven stretches of code
-- between switches; what the compiler keeps in a function's own frame is left out. `Older` is the
-- scheduler of 14-uthread-scheduling/uthread.c and ctxsw.s, which `Older.Program` relates to the same
-- abstract one.
--
-- Synch: events and semaphores, 15-uthread-synch/uthreads/uthread/event.c and semaphore.c. They use
-- the lists and the scheduler. A wait block stands at the address that its thread's stack gives it;
-- what it may not overlap is the record `FreshBlock`. The loops take fuel, and one round more than
-- there are waiting threads is shown to be enough. `int` is a 32-bit integer that wraps around.
--
-- Monitor: the queues of 17-pthreads-monitors and 18-thread-pool/queue.c, and the latch of
-- 17-pthreads-monitors/03-countdownlatch. A stretch of code between lock and unlock is one function,
-- and `Queue.Consumers` and `Latch.Waiters` interleave such stretches in any order. Of the POSIX
-- functions the steps assume what their documentation says: mutual exclusion, at least one thread
-- woken by a signal, all by a broadcast, and threads that may wake up without cause.
--
-- ThreadPool: 18-thread-pool/thread_pool.c, over the sequence of its work items. Clients call the pool
-- one at a time; the workers run in any order.
--
-- Adder: the sequential and the parallel sum of 18-thread-pool/adder.c. `Partition` is about the
-- regions, `Parallel` about the tasks, which may end in any order; `Program` has `main` with its two
-- tests, which use the stopwatch.
--
-- Chrono: the stopwatch of 18-thread-pool/chrono.c and chrono.h. The reading of the clock is a
-- parameter; `Elapsed` assumes that its nanoseconds are below a second.
--
-- Counter: the threads of 16-pthreads that count in one variable, pthreads03.c with a lock (`Locked`)
-- and pthreads02.c without (`Racing`). The threads run in any order, and an increment is a load and a
-- store of a 32-bit word.
--
-- MemChannel: 19-ipc/memchannel.c, the ring of items in shared memory. `Ring` is about the slots,
-- `Traffic` has any number of processes inside `mc_put` and `mc_get` and counts them, `Fifo` follows
-- the items. The semaphores and the lock are assumed to do what POSIX says, the items to fit in the
-- block, and the capacity to be less than 2^31, so that `sem_init` takes it as it is. `Numbers` is
-- 19-ipc/test_memchannel_srv.c with any number of clients, over `Traffic`. `Lifecycle` has the block
-- and the name of a channel, over SharedMemory.
--
-- SharedMemory: 19-ipc/shmem.c over a table of named blocks. What the calls of the system answer is
-- the record `Answers`; that `shm_open` with O_EXCL fails on a name in use and `mmap` on a length of 0
-- is taken from their manuals. `Programs` has the two programs of 10-mmap that hand over a string,
-- with the bytes of the blocks.
--
-- MessageService: 19-ipc/echo-server.c, echo-client.c and echo-term.c as processes that run in any
-- order over channels; a channel is the queue of its messages, whose details MemChannel has. A step
-- runs a process up to its next call on a channel.
--
-- Posix: the descriptors of a process and the calls on them. `Kernel` decides what each call gives;
-- that a call that opens a file gives a descriptor that is not in use is the hypothesis `IsLawful`. A
-- call on a descriptor of the wrong kind is counted in `misuses`. `Owns` says which descriptors a
-- server holds.
--
-- EchoServer: the sessions and the servers of 20-net-sockets, 21-async and 22-ipc-uds. The parent
-- module has what a server does with one client: the results of `read` and `write` are the input of a
-- session; `Buffer` is about the shared buffer, `Session` states each session without it, `Client` is
-- the client of 22-ipc-uds/echo-client.c: `Talk` a line and its answer, `Process` the whole of `main`
-- over `Posix`. The other modules have `main` as a state machine over `Posix`, whose turns run in any
-- order: `Setup` the calls up to `listen`, which the servers have in common; `Basic`
-- 20-net-sockets/01-basic; `Threads` 02-multithreaded and 22-ipc-uds; `Pool` 03-thread-pool over
-- ThreadPool; `Poll` 21-async/01-poll, whose loop over the ready clients takes fuel, one more than the
-- clients, which is shown to be enough; `Epoll` 02-epoll; `Uv` the callbacks of 03-libuv with the
-- memory that they allocate, called as the manual of libuv says, and in `Echo` with the bytes that are
-- read and written. A full read of the poll and epoll servers stores a byte behind the buffer, which is
-- taken to belong to no other variable. When a process exits by an error its descriptors are no longer
-- looked at, but for the exits in the loop of the poll server and after a failed `read` of the epoll
-- server. In each of these,
-- `Descriptors` (`Rounds` for the poll server, `Events` for the epoll server) is about what the server
-- holds in the states that it reaches. `Errors` of the epoll server is about the events on the standard
-- input and the socket that are only an error, `Retained` about the clients that an event leaves.
--
-- Examples holds the theorems at concrete inputs.
--
-- What the code gets from outside is an argument: the addresses that `malloc` and `mmap` return, the
-- return addresses of the calls that switch contexts, the client's functions, the results of system
-- calls, the readings of the clock, and the bytes that a stack held before.
--
-- Not modelled: the arguments of the programs and most of the text that they print, libuv itself, the
-- other test programs, and the small demonstration programs that only call the system and print
-- (03-fork-exec, 04-pipe-signal, 12-dll-so-pic, the rest of 10-mmap and pthreads01.c of 16-pthreads).
pub mod Adder
pub mod Base
pub mod Chrono
pub mod Counter
pub mod EchoServer
pub mod EntryList
pub mod Examples
pub mod MemChannel
pub mod MessageService
pub mod Monitor
pub mod Posix
pub mod SharedMemory
pub mod Synch
pub mod ThreadPool
pub mod Uthread
