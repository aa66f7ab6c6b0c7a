-- ===== src/Tests.antt =====
-- Witnesses of the theorems, at concrete states.
mod World
mod Replay
mod Commits
mod Fences
mod Mirrors
mod Ends
mod Nodes
mod Ballots
mod Elections
mod Pipe
mod Lines
mod Connections
mod Sockets
mod Listings
mod Serves
mod Promises
mod Delivery
