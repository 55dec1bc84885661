-- ===== src/Lib.antt =====
-- acached, a cache server with the memcached text protocol. Communication threads (threadComm.cpp)
-- read a request line, parse it (aConnParse.cpp) and post a message per key (aConnReq.cpp) to the
-- threads that own the hash table (threadKVdata.cpp, ahashtable.cpp); these queue the replies on the
-- connection (aConnReply.cpp). Messages and connections come from pools (acacheSGA.cpp) made of
-- shared queues (adapt/).
--
-- Files and the code that each models:
--   Prelude   shared names, Boolean tests, lists measured by native numbers, and bitwise and.
--   Atomic    platform.cpp: the atomic operations, with their 32-bit wrap-around. Slots: what
--             concurrent callers get from them, in whatever order the calls take effect.
--   Queue     adapt/adaptQ (Queue), adapt/adaptSharedQ (Shared), adapt/adaptFBQ (FreeBusy/Plain),
--             adapt/adaptFBSharedQ and adapt/adaptFBPSharedQ (FreeBusy/Shared), where a call that
--             waits for a mutex is `none`; adapt/adaptThreadedSharedQ (Threaded).
--   Pool      acacheSGA.cpp: allocation and release of messages and connections. Interleave has
--             the critical sections of all threads as a step relation, in which a release of what
--             is not in use is a kind of its own.
--   Table     ahashtable.cpp: the constructor, `set` (set_entry) and `get` (get_entry) on a heap of
--             doubly linked records (Memory). Chain is the abstract view, a list of entries per
--             bucket; Refinement relates the two.
--   Parse     aConnParse.cpp: the tokenizer (Tokens), the search for the line end (Line),
--             `SetCommandType` (Command) and `ProcessHeader` (Header); aUtil.cpp: `safe_strtoul`
--             (Number) and the other parsers of numbers (Number/Wide).
--   Receive   aConnParse.cpp: `ProcessDataRecv` (process_data_recv), one function per state and
--             branch, with what `read` and `malloc` give as an input of each call. Body, Start and
--             Pieces follow a body into its buffer; Lost and Misplaced have the reads that miss it;
--             Version has a version line with more behind it.
--   Conn      aConn.cpp and aConn.h: the record of a connection, its constructor, `Init`, `Reset`,
--             its counter, its flags and its errors.
--   Reply     aConnReply.cpp: `CheckIOVTotalWritten` (check_iov_total_written) and `WriteIOVReply`
--             (write_iov_reply), on the table of reply entries, with the answers of `sendmsg` as a
--             list. Written and Progress have the proofs. Once: `WriteAllOnce` and
--             `WriteAllOnceIMM`, with `wait_for_io_or_timeout` of aUtil.cpp. Queued: `AddIOVReply`
--             and `QReply`.
--   Store     threadKVdata.cpp: the handling of a set message (handle_set). Layout has the record's
--             bytes from the message to the reply, Handled the whole handler on the table. Gets: the
--             handling of a gets message (handle_gets), to the write of the whole answer (Gets/Last,
--             Gets/Single). Ending: how the threads find the last reply of a command, as a step
--             relation on the counts of requests and replies.
--   Global    acacheSGA.cpp: the constructor's sizes, the queues of the store threads (kvdata_queues)
--             and the choice among them (kvdata_index). Start: the constructor as a whole, with the
--             constructors of the threads in adapt/, and what it leaves behind.
--   Message   aMsg.cpp: the messages and what fills them.
--   Request   aConnReq.cpp: the `Post2KVdata` calls on a world of messages, connections, pools and
--             store queues, and `closeConnection` of threadComm.cpp. Order, Keys and Stuck have the
--             proofs; Notify is the handover between the threads as a step relation, in which the
--             early look of a store thread and a notification of a busy connection are kinds of
--             their own.
--   Comm      threadComm.cpp: the callback of a connection (comm_read), with its loop over
--             `ProcessDataRecv` (recv_loop), and that of the thread's pipe (comm_read_main,
--             process_new_fd), with `CheckPendingCmdQ` of aConn.cpp. Opened and Notified are about the
--             messages of the pipe, Failed and Endless about reads that bring nothing, Pipelined
--             about a line with more behind it, and Stuck about a gets line without a key.
--   Accept    acached.cpp: the accept loop of `main` (accept_all) and `sendall`.
--   Tests     runs and instances of the theorems.
--
-- State is passed explicitly: a table and a heap for the hash table, a queue or a pair of queues for
-- the pools, the contents of a variable for an atomic operation. Pointers are numbers and 0 is NULL;
-- a heap gives the record at an address, and a read of a freed or unknown address is a fault, `none`.
-- A string is the list of its bytes. The memory of a record from `data` on is the list of its bytes
-- to the end of the allocation, so that a comparison past that end is a fault, too.
--
-- Fuel: the loops of `set` and `get` take as fuel the number of records that they may visit, and the
-- theorems hold for every fuel of at least the chain's length (one more where a record was added).
-- The retry of `aMsgAllocate` takes the number of rounds; two are enough when the refill is not
-- empty.
--
-- The refill of the pool in `allocate` takes two rounds for the same reason. A `memory` is what can be
-- read from a pointer on, and the contents of fresh memory are arbitrary.
--
-- How the parts meet: Accept and Store put messages into the pipe that Comm reads; Comm runs Receive
-- for each read and Request for each complete command; Request posts to the queues whose messages
-- Store handles, on the connection whose replies are those of Reply. The loops of `recv_loop`,
-- `send_all_loop` and `write_batches` are over lists of what the calls of the operating system give,
-- and say so where the list ends before the loop does.
--
-- Not modelled: the calls of libevent, the start of threads and the listening socket
-- (threadComm.cpp, acached.cpp), and the client thread (threadClient.cpp), which is not started. The
-- hash function (hash.cpp, a copy of a public one) is an argument. Also left out are logging, the
-- printing operations, sockets and CPU affinity. The logarithms of the table's constructor are
-- taken by halving, which is exact for powers of two. The atomic operations are atomic, and a mutex
-- excludes other holders, by assumption. A write to a pipe succeeds, by assumption too. `sent` of a
-- `Worker` is what the kernel has taken from `WriteAllOnce` and `WriteAllOnceIMM` alone: the writes
-- of `QReply` before the end of a reply are followed by Reply.
pub mod Prelude
pub mod Atomic
pub mod Queue
pub mod Pool
pub mod Table
pub mod Global
pub mod Parse
pub mod Reply
pub mod Conn
pub mod Receive
pub mod Message
pub mod Request
pub mod Store
pub mod Comm
pub mod Accept
pub mod Tests
