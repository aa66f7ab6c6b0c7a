-- ===== src/Replica.antt =====
-- replica/: the replica process.
pub mod Store
pub mod State
pub mod Protocol
pub mod Buffer
pub mod Replay
pub mod Main
pub mod Start
pub mod Kept
pub mod Fencing
pub mod Holes
pub mod Ends
pub mod Serving
pub mod Handles
pub mod Answers
