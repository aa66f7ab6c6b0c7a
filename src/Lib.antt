-- ===== src/Lib.antt =====
-- Rollbaccine: a client mounts a file system whose writes are replicated to confidential replicas.
--
-- The program. client/client_fuse.cpp serves FUSE calls from a local directory and broadcasts each
-- write, numbered, to the replicas; `client_fsync` blocks until a quorum has acknowledged.
-- replica/replica_fuse.cpp redoes the writes in the order of their numbers, holds back those that come
-- early, and acknowledges fsyncs. Before that, client/main.cpp takes a ballot from the matchmaker and
-- runs a leader election with the replicas: p1a and p1b, the copy of a disk, p2a and p2b. The two
-- processes talk by shared/fuse_messages.hpp over shared/tls.cpp; certificates and configurations come
-- from CCF by shared/ccf_network.cpp.
--
-- The files.
--   Prelude: what all share. `int` is the type ℤ of integers over the native numbers (Prelude/Int);
--   `std::string` and `std::vector<char>` are lists of bytes (Prelude/Text, and Prelude/Scan for
--   reading them); `Outcome` is how a function that returns nothing ends (Prelude/Results).
--   Shared/Ballot, Shared/Messages: shared/fuse_messages.hpp; the constructors of `ClientMsg` and
--   `ReplicaMsg` are the alternatives of the two variants.
--   Shared/IntMap: `std::map<int, V>`, and `std::set` of a struct that is ordered by its id.
--   Shared/NetworkConfig: shared/network_config.cpp. Shared/Convert: the conversions between `int` and
--   `uint64_t` that file handles go through.
--   Shared/Os: the calls of the operating system that the source makes, with an interpreter of them as
--   a parameter. Shared/Transport: the connections as the client and the replica see them, an
--   interface with laws. Shared/Tls: shared/tls.hpp and .cpp; reads, writes and handshakes that block
--   take their fuel as a parameter. Shared/Tls/Carrier fills the interface with them; a broadcast that
--   does not return leaves a state there in which no later call does anything. Shared/StrMap:
--   `std::map<std::string, V>`. Shared/Ccf: the requests of shared/ccf_network.cpp, over a JSON
--   library that is a parameter.
--   Matchmaker: the endpoints of ccf/src/matchmaker.js.
--   Replica/State, Replica/Store, Replica/Protocol, Replica/Buffer: replica/replica_fuse.hpp and .cpp.
--   The handlers of writes are functions on the part of the state that they touch (Store).
--   Client/State, Client/Votes, Client/Receive, Client/Calls: client/client_fuse.hpp and .cpp.
--   Client/Matchmake, Client/Main: client/main.cpp. What the event loop will find is an argument, and
--   where that ends the loop blocks.
--   Replica/Main, Replica/Start: replica/main.cpp.
--   Replica/Replay, Client/Trace: schedules and histories. A history (`Call`) is of the calls that
--   change the file system, of `client_fsync` with what the event loop finds while it waits, and of messages in between.
--   Shared/Messages/Stream: the writes and fsyncs of a client as one stream.
--   Replica/Kept, Client/Kept, Replica/Fencing, Replica/Holes, Replica/Ends, Replica/Serving, Replica/Handles, Replica/Answers, Client/Acks,
--   Client/Reports, Client/Backed, Client/Durable, Client/Steady, Client/Waiting, Client/Listing,
--   Client/Election, Client/Quorums, Client/Main (but for Disks), Shared/Tls/Streams, Writing, Bounds,
--   Framing, Fifo, Delivered, Broadcasts, Erasing, Passes and Maps, Matchmaker/Laws and System
--   hold proofs, and Tests instances of the theorems at concrete states.
--
-- Bounds. An `int` does not wrap: signed overflow is undefined in C++, and a number here counts the
-- writes of one mount. File handles keep their conversions (`% 2 ^ 32`). The loop of
-- `processPendingMessages` takes one more round of fuel than there are pending writes, which is enough
-- since each round erases one. The loop of the CCF requests takes its fuel as a parameter, and
-- `client_fsync` the messages that the event loop finds: both may wait forever in the source.
--
-- Not modelled: OpenSSL, the sockets and the serialisation library, which are parameters of
-- Shared/Tls; the parsers of the command lines, the wrapper client/Fuse.hpp (a copy of Fusepp), and
-- the scripts. Printing and sleeping have no part in the state.
mod Prelude
pub mod Shared
pub mod Replica
pub mod Matchmaker
pub mod Client
pub mod System
mod Tests
