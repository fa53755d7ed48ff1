-- ===== src/Lib.antt =====
-- linux-C-study: a collection of network, thread and process programs in C. Modelled are programs that
-- keep state of their own:
--
--   httpService/http_service.c, a web server over epoll: Http and the modules below it.
--     Http.Codec       strencode, strdecode, hexit (Hex, Decode and RoundTrip: the theorems)
--     Http.Mime        get_mime_type
--     Http.Header      send_header (Header.Decimal and Header.Laws: the theorems)
--     Http.Reader      char_read and readLine (Laws: what they store; Ends: that they return)
--     Http.Request     the sscanf of the request line, and the path that is taken from it
--     Http.Service     send_file, getDirstr, http_service (Sent: what
--                      respond sends; Laws: that http_service returns; Named: a file by its name)
--     Http.Main        main: the setup, one event of the loop (Shared: one object for all clients)
--   linux-network/wrap.c, wrappers of the socket calls: Wrap.
--     Wrap             Read, Write, Readn, Writen, my_read, Readline
--     Wrap.Counted     theorems on Readn, Wrap.Written on Writen, Wrap.Buffer, Wrap.Progress and
--                      Wrap.Answered on my_read, Wrap.Stored and Lines on Readline
--     Wrap.Connect     Accept, Bind, Connect, Listen, Socket, Close, perr_exit, tcp4bind
--   linux-UDPandThreadPool/threadpool.c and threadpool.h, a pool of threads: ThreadPool.
--     ThreadPool       the queue: create_threadpool, one pass of thrRun, addtask, destroy_threadpool
--     ThreadPool.Queue the invariant; ThreadPool.Order the order of the tasks
--     ThreadPool.System  the threads with their two conditions, as a step relation (Sleep; Served and
--                      Fifo: what the workers run)
--   linux-network/select.c, a server over select: SelectServer.
--     SelectServer     the table, the descriptor set, a round of the loop
--     SelectServer.Table, Rounds, Scan, Replies  the theorems
--   linux-network/poll.c, a server over poll: PollServer.
--     PollServer       the array and a round of the loop; PollServer.Cover and Replies the theorems
--   linux-network/mutl-thread.c, a server with a thread for each connection: ThreadServer.
--     ThreadServer     the table and the steps of main and the threads; ThreadServer.Leak
--                      and Owners the theorems
--   libevent/serverEvent.c, an echo server over libevent: EventServer.
--     EventServer      the table and the callbacks; EventServer.Lifetime and Replies the theorems
--   linux-network/epoll-advance.c, a server with a table of events: Reactor.
--     Reactor          the table, the tree of epoll, the callbacks, the loop
--     Reactor.Earlier  epoll-advance1.c, the version before it (Single and Once: the theorems)
--     Reactor.Invariant, Callbacks, Dispatch, Writes, Dispatched, Sweep, Apart, Echo and Idle: the
--                      theorems
--
--   linux-network/epoll.c, epoll-lt.c, epoll-et.c and epollEL-loop.c, echo servers over epoll: EpollEcho.
--     EpollEcho        the setup, the events and the loops
--     EpollEcho.Connection  one client under epoll (Level, and Edge for the loop of epollEL-loop.c: what is read of it)
--     EpollEcho.Descriptors what whole runs do to the descriptors; EpollEcho.Replies what each client
--                      is sent
--   linux08/thread_lock.c, a counter under a mutex: Counter.
--     Counter          the steps of the threads, and main; Moves, Exclusion and Runs the theorems
--   linux08/thread_readLock.c, a number under a read-write lock: RwCounter (Moves, Invariant
--     and Safety: the theorems).
--   linux08/thread_cond.c, a list under a mutex and a condition: CondList.
--     CondList         the steps of the two threads; NodeList the list in memory
--     CondList.Moves, Safety, Refine, Late  the theorems
--   linux08/thread_sem.c, a list under two semaphores: SemList (Credits, Race: the theorems).
--   linux-network/mutl-process.c, linux-UDPandThreadPool/localService.c and UdpService.c, servers that
--     answer in capitals: UpperServer (Replies: the theorems).
--   libevent/bufferevent-client.c, a client over libevent: BufferClient (Freed: the theorem).
--   libevent/hellow-libevent.c, a server over bufferevents: HelloServer (Echo: the theorem).
--   linux-UDPandThreadPool/localClient.c, a client of localService.c: LocalClient (Conversation: the
--     theorem on both), and UdpClient.c, a client of UdpService.c: UdpClient (Clients: likewise).
--   linux07/sigset.c, two signals that are blocked: SigSet (Handled: the theorem).
--   linux03/sum.c, an addition in a loop: Sum (Bounds: the theorem).
--   linux-network/socketCon.c and socketService.c, a client and a server: SocketPair (Greeting: the
--     theorems on both).
--   linux07/sigchild.c and sigchildReally.c, the reaping of children: SigChild.
--     SigChild         the loop over fork, the handlers, the signal; SigChild.Reaped the theorems
--
-- Kernel has what the system calls may answer; Search the loops that look for an entry of a table;
-- Prelude passes on the library's names and adds lists, tests and integers on the native numbers.
-- http_service.c and wrap.c share the same buffered reader,
-- written twice in C; Http.Reader uses the one of Wrap.
--
-- The kernel is an argument. A stream is a World: the bytes that the peer has sent up to its end of
-- file, and a list of turns, one for each call: an error, or how many bytes the call moves at most. A
-- program that still waits when the turns are used up returns `none`. A descriptor `serves` when its
-- turns are interruptions and calls that move at least a byte. Bytes are numbers, memory a function of
-- the address where a program writes in place (strdecode) and a list elsewhere. A write beyond an
-- array is kept as the bytes that were to be written; an index of -1 is an Option.
--
-- Fuel: strdecode takes one round for each byte of the string and one for its end; draining a request
-- takes one round more than there are bytes left, since every round uses up a byte; the loops of
-- readLine and Readline run over the size of the buffer. Sizes and lengths are unbounded numbers,
-- except st_size, which is cut to an int as the call does, and ports of 16 bits.
--
-- The interleavings of threads are lists of choices that a run follows (Counter, RwCounter) or step
-- relations with their reachability (ThreadPool.System, ThreadServer, CondList, SemList, SigChild,
-- HelloServer, LocalClient); a
-- thread's step is one access of what is shared, or what it does under its lock. The answers of epoll
-- to a client are in EpollEcho.Connection, where `settle` takes one report for each byte and one for
-- the end of file at most. SigChild.reap_all takes one round more than there are ended children, and
-- the inner loop of epollEL-loop.c one read more than there are bytes.
--
-- Not modelled: printing, the signal disposition of the web server, the addresses of peers, memory
-- that malloc does not give, spurious wake-ups in the thread pool, the joins of
-- destroy_threadpool and the memory that it frees, and the results of the writes of http_service.c, whose
-- descriptors do not block: what is kept are the calls and the bytes that they are given. The exercises on single system calls (linux01, linux03, linux06,
-- linux-progress, mysql-connect, the others of linux07 and linux08) and the copy of libevent are left out.
pub mod Prelude
pub mod Kernel
pub mod Search
pub mod Wrap
pub mod HelloServer
pub mod Http
pub mod SocketPair
pub mod Sum
pub mod ThreadPool
pub mod Reactor
pub mod EventServer
pub mod SelectServer
pub mod PollServer
pub mod ThreadServer
pub mod Counter
pub mod SigChild
pub mod SigSet
pub mod EpollEcho
pub mod LocalClient
pub mod NodeList
pub mod CondList
pub mod RwCounter
pub mod SemList
pub mod UdpClient
pub mod UpperServer
pub mod BufferClient
