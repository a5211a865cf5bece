-- ===== src/Lib.antt =====
-- dwframe: a C++ framework of fibers, timers, descriptors, streams, byte buffers and HTTP servlets.
--
-- ByteArray (dwframe/bytearray.h, bytearray.cc, endian.h) is a buffer of linked blocks with a
-- cursor, and typed reads and writes on it. ByteArray models the chain, `write`, `read`,
-- `setPosition`, `addCapacity`, `clear`, `toString` and `toHexString`; ByteArray/Fixed the integers
-- and floats of fixed width, ByteArray/Varint zigzag and variable-length integers, ByteArray/Text the
-- strings, ByteArray/Scatter `getReadBuffers` and `getWriteBuffers`, ByteArray/Files `writeToFile`.
-- ByteArray/Invariant says when a buffer is valid.
-- TimerManager (dwframe/timer.h, timer.cc) keeps timers in a set by their time. TimerManager models
-- the heap of timers, the set with its comparator, and the operations of `Timer` and `TimerManager`
-- but `addConditionTimer`.
-- IOManager (dwframe/IoManager.h, IoManager.cc) has a context of events for each descriptor and hands
-- fibers and callbacks to schedulers. IoManager models `addEvent`, `delEvent`, `cancelEvent`,
-- `cancelALL` and the handling of one kernel event in `idle`.
-- FdManager (dwframe/fd_manager.h, fd_manager.cc) knows of each descriptor whether it is a socket,
-- whether it blocks, and its timeouts; FdManager models it.
-- Hook (dwframe/hook.cc) replaces system calls so that a fiber waits in place of its thread, by
-- FdManager, the timers and IOManager. Hook models `do_io` and `connect_with_timeout`,
-- Hook/Descriptors `fcntl`, `ioctl`, `setsockopt`, `socket`, `accept` and `close`.
-- Scheduler (dwframe/scheduler.h, scheduler.cc, with the states of dwframe/fiber.h and fiber.cc) runs
-- fibers and callbacks from a queue. Scheduler models the queue and a round of the loop of `run`; its
-- child modules are Queue, Settling (what a `swapIn` and the steps around it keep) and Running.
-- Stream (dwframe/stream.h, stream.cc) reads and writes a whole length by calls that move less.
-- SocketStream (dwframe/socket_stream.h, socket_stream.cc) is a stream on a socket, over memory and over
-- a ByteArray.
-- Servlet (dwframe/http/servlet.h, servlet.cc) chooses the servlet for the path of a request.
-- Http (dwframe/http/http.h, http.cc, http_parser.cc, http_session.cc, http_server.cc) has the
-- messages and the server. Http/Method and Http/Status model the tables, Http/Fields the map of
-- headers, Http/Request and Http/Response the messages, Http/Dump the texts that are sent, Http/Parser
-- the callbacks and `execute` (Http/Parser/Steps has each callback as a step), Http/Session
-- `recvRequest` and `sendResponse` over Stream (Http/Session/Turns has the turns of its loop), and
-- Http/Server `handleClient`, which chooses servlets by Servlet.
-- Log (dwframe/log.h, log.cc) writes events to appenders. Log/Level models the names of levels,
-- Log/Pattern the parsing of a pattern, Log/Format the items and what they print, and Log/Loggers the
-- appenders, loggers and their manager.
-- Base has the names, tests and lemmas that these share; Tests applies the theorems to concrete values.
--
-- Numbers are natural numbers, and the wraps of machine integers are written out where the source
-- has them: 32 bits for the time of a timer, 64 bits for sizes that are subtracted, two's complement
-- patterns for signed values. Loops follow the blocks, the list or the bytes they run over. The loops
-- of Stream have fuel, the number of bytes left, which is enough since each turn moves a byte; those
-- of `do_io` have fuel for the turns, as a peer may never be ready. The loops of `recvRequest` and
-- `handleClient` have fuel, and more than the bytes that the peer feeds is enough: each turn takes
-- one. The loop of a pattern has the length of the pattern. The kernel, the C library, whether a
-- string can be as long as asked for, the code of fibers and virtual functions are parameters. An
-- operation that takes a lock is one step.
-- Not modelled: the context switch of fibers, threads and locks as such, the epoll wait, what the
-- code writes to its own loggers, configuration, addresses, the socket calls under a stream, reading a
-- buffer from a file, and the machines of the HTTP parsers, which are a copy of another project's and
-- a parameter of Http/Parser.
pub mod Base
pub mod ByteArray
pub mod TimerManager
pub mod IoManager
pub mod FdManager
pub mod Stream
pub mod Servlet
pub mod Scheduler
pub mod Hook
pub mod Http
pub mod Log
pub mod SocketStream
pub mod Tests
