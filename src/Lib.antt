-- ===== src/Lib.antt =====
-- SinboHA, a library that keeps two nodes in the roles active and standby. All source paths are
-- relative to src/SinbohaSolution/ of the repository.
--
-- A process has one object, SinbohaImp, behind `GetSinbohaIf()`. It owns the status of the node
-- (SinbohaStatusRep), an RPC service (SinbohaNetService) that answers the peer, two heartbeats
-- (SinbohaSync, over a primary and a secondary address) that ask the peer whether this node may be
-- active, and a check (SinbohaBrainSplit) that activates the node when the peer has been silent. A
-- heartbeat asks through a connection (SinbohaNetClient); at the peer, SinbohaRPCHandler passes the
-- question on to the status there.
--
-- Files and what they model:
--   Types         the enumerations of Sinboha/SinboHA.h, and their casts on the wire
--   Chrono        time points and milliseconds, as they are converted in SinbohaNetClient.cpp,
--                 SinbohaRPCHandler.h and SinbohaBrainSplit.cpp
--   StatusRep     SinbohaStatusRep of Sinboha/SinbohaImp.cpp, one function per method, with
--                 `if_allow_peer_activate` for IfAllowPeerActivate, and so on
--   RpcHandler    CanYouActivateMe and SyncData of Sinboha/SinbohaRPCHandler.h; the factories of
--                 handlers and processors, there and in Sinboha/gen-cpp/SinbohaRPC.cpp, are in
--                 RpcHandler/Factory
--   NetClient     Sinboha/SinbohaNetClient.cpp
--   Launch        the outcomes of `std::async` in the three Start methods
--   BrainSplit    Sinboha/SinbohaBrainSplit.cpp, Start, Stop and the thread
--   Sync          Sinboha/SinbohaSync.cpp, Start, Stop, SyncData and the thread; Sync/Restart is a
--                 Start while a Stop waits
--   NetService    Sinboha/SinbohaNetService.cpp, Start, Stop and the thread
--   Imp           SinbohaImp of Sinboha/SinbohaImp.cpp: Initialize, Release and SyncData; the methods
--                 that pass their call on to the status, and the constructor, are in Imp/Interface,
--                 and several callers of Initialize at once in Imp/Callers
--   Process       the whole process of a node: the threads, the requests of the peer and the callers
--                 of the interface of Sinboha/SinboHA.h as events in any order. Methods reads off the
--                 calls of SinbohaStatusRep, Changes asks what changed the status, Soundness and
--                 Lifetime relate flags and threads, Failover is about a silent peer, Crossing
--                 about an Initialize and a Release at once, and SecondRelease about two of the
--                 latter
--   Demo          the demonstration program TestSinboha/Source.cpp
--   Pair          two nodes that ask each other: whole heartbeats one after the other; the single
--                 steps of overlapping heartbeats (Pair/Interleaving) as a step relation, also with
--                 manual switches and checks among them; and the heartbeat threads of both nodes
--                 (Pair/Threads) and their whole processes (Pair/Processes) on a network that loses
--                 messages: from their constructors on (StartUp), step by step of the heartbeat
--                 threads (Turns, Settle, Recoverable, Progress), and cut off from each other
--                 (CutOff)
--   Helper        ToString of Sinboha/SinbohaHelper.cpp
--   Rpc           the code that Thrift generated, Sinboha/gen-cpp/SinbohaRPC.cpp: what is read and
--                 written (Structs), the client, the processor, also with an event handler
--                 (Events), and a call from one to the other; structs with other fields (Last);
--                 callers that share a connection (Concurrent); arguments and results as values
--                 (Values, Same); several handlers behind one (Many);
--                 Rpc/Service puts SinbohaRPCHandler behind it
--   Prelude       numbers, integers of 16, 32 and 64 bits, lists and options
--   Tests         the theorems at concrete inputs, and runs of the code
--
-- State is passed explicitly. A method that holds its object's lock from beginning to end is one
-- function. A thread is a machine that moves from one access to shared state to the next, with the
-- local variables that are live there, and lists of turns say what happens between its steps. A
-- `Stop` is two functions, up to its wait and after it; the second has no result as long as the
-- thread has not returned. The loops of the threads are the steps of the machines, without fuel,
-- and the theorems on `Stop` and `Release` say how many steps are enough. The loop of a generated
-- reader has at most so many rounds as an argument says; one more than the message has fields is
-- enough. A stream writes a 64-bit number with at most 19 digits, and the loop that finds them
-- (Helper) has 19 rounds. In the process, `Release` is a caller that moves from one `Stop` to the next,
-- and `Initialize` is one event, apart from Imp/Callers and Process/Crossing, where it moves from one
-- `Start` to the next; as one event it does not happen inside a `Release`, nor while the thread of a
-- service still runs whose server did not take its `stop()`: the library would wait for that thread.
-- As one function (Imp/Release), `Release` waits for one part after the other, and the threads of the
-- parts that are not awaited stand still; all interleavings are in Process. `Start` of a heartbeat is
-- one function where no old thread runs; otherwise it waits, in Sync/Restart.
--
-- Parameters, for code that is not in the repository: every reading of the system clock, and the
-- number of its ticks in a millisecond; the Thrift library and the network (`Remote` in NetClient),
-- which may change the world and may throw; below it, the protocol object that the generated code
-- reads from (`Protocol` in Rpc; `Delivers` in Rpc/Delivery is what a call needs of it), and its
-- object that numbers the calls of a shared connection (`SyncInfo` in Rpc/Concurrent, `KeepsBegun`
-- in Rpc/Concurrent/Rounds); whether the C++ library starts a thread (Launch); when the Thrift
-- server's `serve()` and `stop()` return or throw (NetService); the memory that a constructor
-- leaves as it is; date and time of day as the C library writes them (Helper); which connections
-- come to the server and end, and whether they are sockets (RpcHandler/Factory); what an event
-- handler gives as its context (Rpc/Events); the keys that `_getch` gives, and what `atoi` makes of
-- the command line (Demo). A callback object is its identity, and the calls that it gets are results.
--
-- Not modelled: log lines and the library spdlog, with the settings of the log in the constructor of
-- SinbohaImp and under the flag Debug: spdlog is a copy of another project; the generated
-- singleton factory, constants, types and skeleton, which nothing uses (the classes of constants and
-- types are empty, and the functions of the skeleton return nothing); byte counts in the generated
-- code, which nothing reads; the destructor of a connection that a new `Start` replaces, which closes
-- a transport that is still open; what a callback other than that of the demonstration program does, in
-- particular if it calls back into the object, whose lock is held.
mod Prelude
pub mod Types
pub mod Chrono
pub mod Helper
pub mod StatusRep
pub mod RpcHandler
pub mod NetClient
mod Launch
pub mod BrainSplit
pub mod Sync
pub mod Pair
pub mod NetService
pub mod Imp
pub mod Process
pub mod Demo
pub mod Rpc
mod Tests
