-- ===== src/Shared.antt =====
-- shared/: what the client and the replica have in common.
pub mod Ballot
pub mod Convert
pub mod IntMap
pub mod NetworkConfig
pub mod Os
pub mod Messages
pub mod Transport
pub mod StrMap
pub mod Tls
pub mod Ccf
