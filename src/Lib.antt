-- ===== src/Lib.antt =====
-- Cinder's power arbiter: the daemon that hands out energy reserves to the processes of a user.
--
-- The daemon (CinderUserspace/PowerArbiter) keeps a database from uids to the parameters of a tap.
-- Clients, such as the controller program, connect over a Unix socket; for each a thread reads
-- requests and answers them. The first request of a uid for its reserve makes the kernel create a
-- reserve and a tap that feeds it, and every such request exposes the reserve to the client's
-- process. A uid that is removed has its record moved to a dead list, which a reaper thread passes
-- over once a second.
--
-- Parts, files and sources:
--   Base            natural numbers, Booleans, lists, signed integers, texts and C's conversions
--   Os              the calls of the program (pthreads, malloc, Cinder's system calls, sockets) as
--                   events of a trace. What they return, and what the copied uthash.h and list.h
--                   do, is a parameter, `Env`, with the laws that the code relies on
--   Os/Ledger       what a trace says: reserves, taps and locks held, bytes sent, puts, failures
--   Store           the state shared by the threads (PowerArbiter/dbase.h) and commands over it; a
--                   failed assert or a bad access is the outcome `fault`
--   Syscall         PowerArbiter/syscall.c
--   Record          the records, PowerArbiter/dbase.c (reserveRecord*)
--   Dbase           the database, PowerArbiter/dbase.c (reserveDataDB*): Invariant, View (the
--                   partial map that is its abstract view), Add, Remove, Clear, Steady
--   Context         PAContext and the numbers of PowerArbiter/protocol.h
--   Controller      PowerArbiter/controller.c: Get, Set, Add, Stat, Ledger, Locks, Success, Safe,
--                   Silent, Names
--   Sock            streamsock_read and streamsock_send of PowerArbiter/sock.c: Read, Send, Calls,
--                   Count, Arrived
--   Wire            the structures of PowerArbiter/protocol.h as bytes, in the layout of 32-bit ARM
--   Sock/Listen     the rest of PowerArbiter/sock.c: Leaks
--   Client          the handlers and the session loop of PowerArbiter/client.c: Responses, Safe,
--                   Answers, Session
--   Client/Accept   handle_remote_client of client.c, the receiver of PowerArbiter/main.c: Sockets
--   Reaper          the reaper of PowerArbiter/main.c: Shutdown, Quit
--   Init            powerArbiterInitialize of PowerArbiter/init.c: Started, Vacant
--   Stop            powerArbiterDestroy of PowerArbiter/init.c: Empty
--   Stdin           the lines and the numbers that the programs read, and chomp of
--                   PAController/util.c: Lines, Chomp, Numbers
--   Console         the controller program, PAController: Prompts, Reserves (util.c), Requests
--                   (client.c), Commands (main.c); Sent, Requested, Typed, Arrival, Ends, Closed,
--                   Accepted, Listed, Reported, Granted
--   Daemon          main of PowerArbiter/main.c and its handler of SIGTERM: Stops
--   Validation      the test programs of cinder_validation: Ledger (the taps that a trace made,
--                   the rates that it set, its forks), Double (the arithmetic of doubles: Rounding)
--   Validation/Subdivide  reserve_tap_test/test2_subdivide_thread.c: Shares, Flows, Ends,
--                         Threads
--   Validation/Fork       reserve_tap_test/test1_fork.c: Polls, Ends
--   Validation/Plumbing   plumbing_test/cinder_ptest.c: Reserves, Taps, Commands, Calls, Ends, Agrees
--   Validation/Feeding    feed.c, starve.c and loop.c of plumbing_test
--   History         sequences of requests and passes of the reaper as a step relation, and the map
--                   that they specify: Effect, Refines, Grants
--   Example         a concrete environment, states that requests lead to, and runs
--
-- Correspondence. A C function keeps its name without the prefix of its type: record_lock is
-- reserveRecordLock, add_entry is reserveDataDBAddEntry, stat_reserve is statReserve. A part of a
-- function up to a goto label is a function with `_locked`, `_record` or `_loop` in its name. What
-- a function stores through a pointer is an Option behind the error that it returns; `none` means
-- that nothing is stored. An address is a number, NULL is 0; a variable that is not initialised
-- reads as a value that the environment chooses. A request or a pass of the reaper runs from its
-- first step to its last with no step of another thread between: what it does to the database
-- stands between a lock of dbase_lock and its unlock. Whole requests and passes follow one another
-- in any order (History).
--
-- Fuel. The socket loops run with one round for each byte to move and one for the last test: a call
-- that moves no byte ends the loop. The session loop runs with one round for each byte of the
-- client and one for the end. The loops of the receiver, the reaper and the shutdown run with one
-- for each round, and end when another thread tells them to; the wait for the reaper runs out of
-- fuel where the reaper was not signalled, since nothing posts its semaphore then. The loop of the
-- controller program runs with one round for each byte of its input and one for the end, since
-- every command is read with its line; so does that of cinder_ptest. The child of test1_fork counts
-- by recursion on the rounds that are left. A double is scaled by at most 84 doublings and 64
-- halvings, which serve every quotient of two ints and its product with 100.
--
-- Not modelled: messages to the console and the log, but for the reports of a response and the
-- lines of a list that the controller program prints, and the texts of cinder_ptest; interleavings
-- within a request; the sockets of the clients while main waits for SIGTERM, where the other
-- threads are a list of requests and passes; the times and the totals that test1_fork and
-- test2_subdivide_thread print, and a thread of the latter that ends the process; uthash.h and
-- list.h, copies of other projects' libraries, whose use is a parameter.
pub mod Base
pub mod Os
pub mod Store
pub mod Syscall
pub mod Record
pub mod Dbase
pub mod Context
pub mod Controller
pub mod Example
pub mod Sock
pub mod Wire
pub mod Client
pub mod Reaper
pub mod Init
pub mod Stop
pub mod Daemon
pub mod Stdin
pub mod Console
pub mod History
pub mod Validation
