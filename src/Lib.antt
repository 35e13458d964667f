-- ===== src/Lib.antt =====
-- The network library muduo under linux_multithread_server/muduo: bytes in and out of sockets, the
-- connections they belong to, and the HTTP parser on top. Each fault of an `assert`, and a vector that
-- would outgrow its limit, is a value (`Result`), so that a theorem can say that none occurs.
--
-- A poller tells the channels of a loop which events came; a channel calls back its owner; a TcpConnection
-- owns a channel and two buffers, and hands the input to the user's callback, here the HTTP parser. A
-- Connector makes the sockets of clients, and a TcpServer has the connections that it accepted. A TimerQueue
-- calls back what is due.
--
--   Prelude      names and lemmas that all share: tests on numbers, lists, machine words, faults
--   Buffer       net/Buffer.h, net/Buffer.cc, net/Endian.h: a record of the vector and its two indices;
--                each method is a function of the same name. `size_t` arithmetic keeps its modulus 2 ^ 64
--   Http         net/http/HttpRequest.h, HttpContext.h, HttpContext.cc: the request as it is collected,
--                and the parser as a step for each round of its loop
--   Channel      net/Channel.h, net/Channel.cc: the events waited for, and the dispatch of those that came
--   TcpConnection  net/TcpConnection.h, net/TcpConnection.cc: the connection; what a handler asks of the
--                loop, the socket or the callbacks is a list of effects, in the order of the code
--   Connector    net/Connector.h, net/Connector.cc: connecting without blocking, with retries
--   EPollPoller  net/poller/EPollPoller.h, EPollPoller.cc, net/Poller.h: the table of channels and the
--                calls of `epoll_ctl`
--   PollPoller   net/poller/PollPoller.h, PollPoller.cc: the array of poll(2), and each channel's index in it
--   TcpServer    net/TcpServer.h, TcpServer.cc: the connections of a server by name
--   TimerQueue   net/TimerQueue.h, TimerQueue.cc, Timer.h, Timer.cc, TimerId.h: the timers of a loop, on a
--                heap of addresses; Prelude/PairSet has the sets of pairs
--   EventLoop    net/EventLoop.h, net/EventLoop.cc: the loop cut where other threads can come between;
--                a call by another thread is a list of atomic actions
--   EventLoopThreadPool  net/EventLoopThreadPool.h, EventLoopThreadPool.cc: which loop is next
--   Http/Server  net/http/HttpResponse.h, HttpResponse.cc, HttpServer.cc: the answer to a request
--   ProtobufCodecLite  net/protobuf/ProtobufCodecLite.h, ProtobufCodecLite.cc: framed messages
--   LogStream    base/LogStream.h, LogStream.cc: text in a buffer of fixed size, integers as text
--   AsyncLogging  base/AsyncLogging.h, AsyncLogging.cc: the exchange of buffers with the writing thread
--   Date         base/Date.h, Date.cc: Julian day numbers; Date/Bounds tells how far `int` is enough
--   TimeZone     base/TimeZone.h, TimeZone.cc: the offset at a time, UTC fields and back
--   ThreadPool   base/ThreadPool.h, base/ThreadPool.cc: the queue of tasks, and who waits for it; each
--                critical section is one step
--
-- Fuel: `parse_request` takes one unit for each round of the loop; a round that goes on takes at least two
-- bytes from the buffer, so the number of readable bytes and one more is enough, as proved.
--
-- The loop of the codec's `on_message` needs a unit for each readable byte and one more, since each round
-- takes a whole frame; the loops that write digits have one unit for each digit that 64 bits can have.
--
-- Bounds: a vector has at most 2 ^ 63 - 1 bytes; a theorem that lets a buffer grow asks that the
-- bytes fit. The length of a StringPiece is an `int`, so a text appended as one stays below 2 ^ 31 bytes.
-- Plain numbers stand for the `int`s of Date and TimeZone, where the theorems bound them.
--
-- System calls (`readv`, `write`, `connect`, `epoll_wait`, SO_ERROR) are arguments: a function from what is
-- asked to the answer, or the answer itself, with hypotheses where the code relies on more, such as
-- that `write` returns at most what was offered. The clock that is read when the timers' descriptor is
-- set is a function of how often it was set.
--
-- Not modelled: the checks of the calling thread, logging, and the life time of shared objects. The
-- Acceptor and the client of TCP, and the rest of the base library are not yet; nor are floating
-- point numbers in log text.
pub mod PollPoller
pub mod TimerQueue
pub mod TcpServer
pub mod TimeZone
pub mod AsyncLogging
pub mod Prelude
pub mod Buffer
pub mod EventLoop
pub mod EventLoopThreadPool
pub mod Http
pub mod Channel
pub mod LogStream
pub mod ProtobufCodecLite
pub mod TcpConnection
pub mod ThreadPool
pub mod Connector
pub mod Date
pub mod EPollPoller
