-- ===== src/Lib.antt =====
-- A model of sctp_sandbox_c: sockets of seven protocols that keep a table of peers, the network tasks
-- that own them, and the chat that carries text from the input to the tasks.
--
-- The parts, and how they interact. A network task (src/NetworkTask.c) creates a socket, connects it,
-- and then in each round runs the scheduled tasks that are due, receives, and sends what the chat
-- holds. The socket (src/Socket.c) calls the code of its protocol (src/SocketTcp.c, SocketDccp.c,
-- SocketUdp.c, SocketSctp.c, SocketUnix.c, SocketUnixForked.c), which adds and removes entries of the
-- table of peers and schedules tasks. Addresses (src/IPSocket.c), sets of descriptors (src/FDSet.c),
-- options (src/SocketConfiguration.c) and checks of results (src/SocketErrorChecks.c) serve them all.
--
-- Files. A name of C is spelled in snake case: `handleCommLostTcp` is `handle_comm_lost_tcp`. A part of
-- a function that is a definition of its own, such as a loop, has a name like it: `connect_each_tcp`.
--   Base          numbers, tests and lists that all others use
--   Errors        src/SocketErrorChecks.c; Errors/Classes: what a result that passes can be relied on for
--   Protocol      src/NetworkProtocol.c, src/SocketIO.c
--   Os            the calls and their replies, undefined behaviour, the sequencing of calls;
--                 Os/Ensures: partial correctness of a run; Os/Laws: what is asked of tools_c;
--                 Os/Calls: which calls a run makes; Os/Scheduled, Os/Safe: what it hands to the
--                 scheduler, and is called with
--   IpSocket      src/IPSocket.c, with the bytes of an array of addresses; IpSocket/RoundTrip
--   FdSet         src/FDSet.c; FdSet/Select
--   Configuration src/SocketConfiguration.c
--   Bind          src/SctpGetAddrs.c and the parts of src/Socket.c that configure, bind and listen;
--                 Bind/Packed: arrays of addresses
--   Peers         src/Socket.h and the operations of src/Socket.c on a peer; Peers/Table: the shape of the
--                 table; Peers/Find, Peers/Present, Peers/Matching, Peers/Message, Peers/Remove:
--                 its laws; Peers/Found: the entry that a search gives; Peers/Retries: the connections that are
--                 scheduled; Peers/Agrees: runs beside those of what a socket stands for;
--                 Peers/Within: what leaves the buffer of a message alone
--   Tcp, Dccp, Udp, UnixSocket, Sctp, Forked: the file of each protocol; X/Table: it keeps the shape
--                 of the table; X/Kept: it keeps the descriptors of the others; X/Laws: what it does;
--                 Udp/NotNull: pointers to peers; X/Scheduled, also of Bind, Peers and Dispatch: the
--                 calls made, and what is handed to the scheduler; Udp/Calls, Dispatch/Calls: the
--                 calls of every protocol; Dispatch/Safe: stream protocols;
--                 Tcp/Overflow: the end of a message behind the buffer; Sctp/Associations, Tcp/Connections, UnixSocket/Paths: what such a socket is to its callers;
--                 Forked/Setup: what is made before the fork; Forked/Pairs: the ends after it;
--                 Forked/Traffic: what a child sends over them; Forked/Sends, Forked/Ways:
--                 what goes with a message, and on which way
--   Dispatch      src/Socket.c; Dispatch/Table, Dispatch/Stream, Dispatch/CleanUp, Dispatch/Relay;
--                 Dispatch/Directory: what a UDP socket is to its callers
--   Arguments     src/NetworkConfiguration.c; Arguments/Bounds, Arguments/Addresses
--   Main          src/main.c; Main/Startup: from the arguments to the tasks
--   Network       src/NetworkTask.c, src/StartTask.c; Network/Table; Network/Stream: a task on a stream
--                 protocol, over its whole life; Network/Polls, Network/Calls,
--                 Network/Rounds, Network/Ends: how a task of any protocol comes to its end;
--                 Network/Relay: texts that it passes on
--   Chat          src/Chat.c; Chat/Mutex: the steps of threads in `chat`; Chat/Atomic, Chat/FirstCalls:
--                 their interleavings with the mutex made, and before
--   Io            src/IoTask.c; Io/Posts: what it posts
--   Tests         a machine on which the program runs, and runs
--
-- How it is modelled. An operation on a socket is a function of the socket (and of `Env`) that gives
-- back the socket; `M` threads the list of calls made so far, the latest first, and ends a run with a
-- result, with exit, or with undefined behaviour (`Fault`). The kernel, libsctp, the scheduler and the
-- functions of tools_c, whose code is not in the repository, are the parameter `Env`: a call is
-- answered by any function of the call and the history. `IsLawful` states what the program relies on:
-- a check returns exactly if the result is no failure, and the string tests test what their names say.
-- `SelectNarrows` and `CallsScheduled` state it of select and of the scheduler: neither makes up a
-- descriptor or a task. `ReceivesAtMost` states that recv gives no more bytes than it is asked for, and
-- `Shuffles` that shuffledIndexes gives each index once. An int has 32 bits and a Size 64.
-- Descriptors and results are integers; a pointer into the table is an index or none.
--
-- Bounds and fuel. The table has ten entries, a set of ready descriptors ten, a message buffer 65536
-- bytes and a line of the input 4096, as in the code. All loops are structural recursion, over a list or
-- up to a bound, except the loop of a network task, which runs until it is told to quit or its lifetime
-- is over, and that of the input task: they are on fuel, and `none` is a task that still runs. A theorem on what a network task
-- avoids holds for all amounts of fuel; those on the end of a task say how much is enough.
--
-- Not modelled. Logging, except for the calls that it makes and the names that it prints; a single
-- struct of the kernel is a record, and only arrays of them are bytes; the delivery of signals;
-- of a parent and its child one is followed, and what the other does is in the answers of the calls; the
-- start, the names and the join of threads, whose interleaving matters in Chat only; the platform headers and the build files.
pub mod Base
pub mod Errors
pub mod Protocol
pub mod Os
pub mod IpSocket
pub mod FdSet
pub mod Configuration
pub mod Peers
pub mod Bind
pub mod Tcp
pub mod Dccp
pub mod Udp
pub mod UnixSocket
pub mod Sctp
pub mod Forked
pub mod Dispatch
pub mod Arguments
pub mod Network
pub mod Io
pub mod Main
pub mod Chat
pub mod Tests
