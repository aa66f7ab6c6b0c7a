-- ===== src/System.antt =====
-- The client and one replica together.
pub mod Replication
pub mod Mirror
pub mod Matchmaking
pub mod Election
pub mod Delivery
