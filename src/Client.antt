-- ===== src/Client.antt =====
-- client/: the file system that the client mounts.
pub mod State
pub mod Votes
pub mod Election
pub mod Quorums
pub mod Receive
pub mod Calls
pub mod Trace
pub mod Kept
pub mod Acks
pub mod Steady
pub mod Waiting
pub mod Reports
pub mod Backed
pub mod Durable
pub mod Listing
pub mod Matchmake
pub mod Main
