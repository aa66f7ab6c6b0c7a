-- ===== src/Client/Calls.antt =====
-- client/client_fuse.cpp: the FUSE calls, in three groups.
pub mod Common
pub mod Paths
pub mod Files
pub mod Fsync
pub mod Local
pub mod Directories
