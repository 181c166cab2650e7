-- ===== src/Lib.antt =====
-- LogBridge carries log lines from files on client machines to a server. The client numbers each
-- line, writes it to a write-ahead log, and sends batches over TCP; the server processes a batch,
-- records the highest id per client, and answers with a cumulative ACK, upon which the client drops
-- the confirmed messages from its log. This library models the parts on which the delivery rests
-- and proves what they promise each other.
--
-- The parts, with the files that model them and the code that they translate:
--
--   * Base holds what the others share: Boolean tests on native numbers (Base/Tests), lists
--     measured by them (Base/Lists), the exceptions of the program and the result of a function
--     that may throw (Base/Results), shifts with or (Base/Bits), signed numbers (Base/Int).
--   * Message is include/LogMessage.h. A string is the list of its bytes. IsTyped says that the
--     fields are in the range of their C++ types.
--   * Protocol is src/Protocol.cpp with include/Protocol.h. Protocol/Format has the constants and
--     types, Protocol/Write the append functions and logRecordSize, Protocol/Read the read
--     functions with their moving offset (Protocol/Reader), Protocol/Codec the public functions
--     under their own names. The others are proofs: Words, Ints and Cursor for the integers and
--     readers, Record and Frame for a record and a frame, Single, Batch, BatchFrame and Ack for the
--     three kinds of frame, Errors for what is thrown.
--   * Storage is src/Persistence.cpp. Storage/World is the operating system that it calls: files,
--     the history of all states that they went through, and a schedule of the answers of the calls.
--     Storage/Persistence has writeAll, syncAndClose, syncParentDirectory, readFile, appendDurably
--     and writeAtomically. Storage/Triples and Storage/Writing are the rules for reasoning on them,
--     Storage/Append and Storage/Atomic what the two ways of writing promise.
--   * Network is src/SocketIO.cpp (Network/Socket) and the calls of src/TcpClient.cpp and
--     src/TcpServer.cpp on a connected socket (Network/Peers). A socket is the bytes to come, the
--     bytes sent, and two schedules that say how many bytes a call moves and which calls fail.
--     Receiving and Framing are on receiveExact and receiveFrame, Sending on sendAll, Exchange and
--     Acknowledged on a batch and its ACK. Network/Stopping is acceptClient and stop of
--     src/TcpServer.cpp, whose atomic operations and system calls two threads take in turns; its
--     Accounts and Steps follow each descriptor, and Closed says where they end.
--
--   * Dedup is src/DedupStore.cpp: the watermark of each client (Dedup/Store) and the text of their
--     file (Dedup/Text). Dedup/Load is the constructor with load, on the streams of the standard
--     library. Lookup is on the map, Durable on the map and its file, Decimal, RoundTrip and
--     Restart on what load reads back, Errors on any other text.
--
--   * Numbers is std::stoull and std::stoul of the standard library, ClientState is
--     src/ClientState.cpp with its state file. Its Load is on the text of the file, Durable on the
--     methods that write it, Open and Correct on what the constructor corrects, Reopen on the whole
--     constructor, and Lives on any number of runs of the client over one file.
--
--   * Client is src/main.cpp: parsePort (Client/Port), deliverWithRetry and the lambda sendMessages
--     (Client/Sending), where what other threads and the network decide is read from a list of
--     rounds. Retry is on the delays, Settled on the log when a delivery ends, Batches on what is
--     cut from the messages. Client/Producer is a round of the producer, and Numbering on what it
--     leaves.
--
--   * Delivery puts the parts together: the append, confirm and start of a client's log over its
--     disk, batches on the network, and the server's handling of them, as steps of one system.
--     Members is on membership, Moments on what the calls do to the file, Invariant on what holds
--     at every moment, and Client, Confirm, Append, Restart and Server keep it; Front is on the two
--     ends of a log; Lossless is the result.
--
--   * Server is the loops of main in src/ServerMain.cpp (Server/Loop): one round receives a batch,
--     prints what the client's watermark does not cover, confirms, and acknowledges; what is
--     printed of a message is the message in the output. Batch is on one batch, Once on any number
--     of them, Resend on a batch that comes again. Server/Sessions has the two loops around it,
--     over sessions that say what acceptClient returns and when running is cleared; Received,
--     Witnessed and Served are on what they do, whatever bytes come.
--
--   * Queue is include/BoundedBlockingQueue.h: what each method does under the mutex
--     (Queue/Operations), and the interleavings of these steps of producers and a consumer
--     (Queue/System). A thread that waits may take its step when its predicate holds. Order is on
--     what comes out.
--
--   * Tail is src/FileTailReader.cpp (Tail/Reader) on files as they are at the moment of a call.
--     Lines is on splitting into lines, Synced on reading a file that grows.
--
--   * WriteAheadLog is src/WriteAheadLog.cpp: the constructor with load, append, confirm, pending,
--     maxMessageId and pendingCount, over Protocol and Storage. Load, Sound and Errors are on load,
--     Confirm on the messages kept, Crash and Restart on the log and its file together.
--
-- A function that may throw returns a Result, ok with the value or err with the exception. A method
-- that changes an object takes it and returns it. A process that dies is a state of the history: a
-- theorem on every entry of the history is one on every moment at which the process may be killed,
-- and a theorem over all worlds is one over all answers of the system, since these are read from
-- the schedule of the world. In the step relations of ClientState/Lives and Delivery each call
-- starts with an empty history, so that its moments are its own.
--
-- Numbers are native. A word of w bits keeps its wrap-around: the 32-bit casts of lengths, the
-- shifts and the subtraction of sizes in std::size_t are taken modulo 2 ^ w. The loop of
-- WriteAheadLog's load runs on fuel, one round more than the file has bytes, and each round that
-- goes on consumes a header at least; that of DedupStore's load runs on as much, and each round
-- that adds an entry consumes its client id at least; writeAll, sendAll, receiveExact and the loop
-- over pread consume an answer of the schedule in each round, and a schedule that has ended answers
-- with success, receiveExact's with one byte at a time. sendMessages runs on one round more than
-- there are messages, and each round takes one at least. deliverWithRetry and the server's loops
-- take a round or a session of a list, which says what other threads and the network decide; a
-- delivery that has used up its list is still trying. A client id has the 32 digits of its loop.
-- Decimal text has twenty digits at most, as a std::uint64_t. Other loops are structural.
--
-- Not modelled: mutexes and notifications, since what a method does under its mutex is one step of
-- its object; the file mode and the texts of exceptions, which are constructors here; directories,
-- which hold no data; loss of data that was not flushed, since a file is what was written to it;
-- how sockets are opened, bound and connected, and their timeouts, which show as failed calls; what
-- the programs print besides messages; signals, and the threads that wait for them.
pub mod Base
pub mod Message
pub mod Protocol
pub mod Storage
pub mod WriteAheadLog
pub mod Network
pub mod Dedup
pub mod Numbers
pub mod ClientState
pub mod Client
pub mod Server
pub mod Delivery
pub mod Queue
pub mod Tail
