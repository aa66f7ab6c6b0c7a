-- ===== src/Shared/Messages.antt =====
-- shared/fuse_messages.hpp: the messages from the client to a replica, and back.
pub mod Kind
pub mod Stream
use disk_tees.Prelude.{ℕ, ℤ, Bool, Bytes, List, ltb_ℤ}
use disk_tees.Shared.Ballot.{Ballot}
use disk_tees.Shared.NetworkConfig.{NetworkConfig}
use disk_tees.Shared.Os.{Timespec}

pub record FuseFileInfoLite : Type 0 where
  pub flags : ℤ
  -- a `uint64_t`
  pub fh : ℕ

pub record MknodParams : Type 0 where
  pub seq : ℤ
  pub r : Ballot
  pub path : Bytes
  pub mode : ℕ
  pub rdev : ℕ

pub record MkdirParams : Type 0 where
  pub seq : ℤ
  pub r : Ballot
  pub path : Bytes
  pub mode : ℕ

pub record SymlinkParams : Type 0 where
  pub seq : ℤ
  pub r : Ballot
  pub target : Bytes
  pub linkpath : Bytes

pub record UnlinkParams : Type 0 where
  pub seq : ℤ
  pub r : Ballot
  pub path : Bytes

pub record RmdirParams : Type 0 where
  pub seq : ℤ
  pub r : Ballot
  pub path : Bytes

pub record RenameParams : Type 0 where
  pub seq : ℤ
  pub r : Ballot
  pub oldpath : Bytes
  pub newpath : Bytes

pub record LinkParams : Type 0 where
  pub seq : ℤ
  pub r : Ballot
  pub oldpath : Bytes
  pub newpath : Bytes

pub record ChmodParams : Type 0 where
  pub seq : ℤ
  pub r : Ballot
  pub path : Bytes
  pub mode : ℕ
  pub fi : FuseFileInfoLite
  pub has_fi : Bool

pub record ChownParams : Type 0 where
  pub seq : ℤ
  pub r : Ballot
  pub path : Bytes
  pub uid : ℕ
  pub gid : ℕ
  pub fi : FuseFileInfoLite
  pub has_fi : Bool

pub record TruncateParams : Type 0 where
  pub seq : ℤ
  pub r : Ballot
  pub path : Bytes
  pub size : ℤ
  pub fi : FuseFileInfoLite
  pub has_fi : Bool

pub record UtimensParams : Type 0 where
  pub seq : ℤ
  pub r : Ballot
  pub path : Bytes
  pub tv0 : Timespec
  pub tv1 : Timespec
  pub fi : FuseFileInfoLite
  pub has_fi : Bool

pub record CreateParams : Type 0 where
  pub seq : ℤ
  pub r : Ballot
  pub path : Bytes
  pub mode : ℕ
  pub fi : FuseFileInfoLite

pub record OpenParams : Type 0 where
  pub seq : ℤ
  pub r : Ballot
  pub path : Bytes
  pub fi : FuseFileInfoLite

pub record WriteBufParams : Type 0 where
  pub seq : ℤ
  pub r : Ballot
  pub offset : ℤ
  pub buf : Bytes
  pub fi : FuseFileInfoLite

pub record ReleaseParams : Type 0 where
  pub seq : ℤ
  pub r : Ballot
  pub fi : FuseFileInfoLite

pub record FallocateParams : Type 0 where
  pub seq : ℤ
  pub r : Ballot
  pub offset : ℤ
  pub length : ℤ
  pub fi : FuseFileInfoLite

pub record SetxattrParams : Type 0 where
  pub seq : ℤ
  pub r : Ballot
  pub path : Bytes
  pub name : Bytes
  pub value : Bytes
  pub flags : ℤ

pub record RemovexattrParams : Type 0 where
  pub seq : ℤ
  pub r : Ballot
  pub path : Bytes
  pub name : Bytes

pub record CopyFileRangeParams : Type 0 where
  pub seq : ℤ
  pub r : Ballot
  pub fi_in : FuseFileInfoLite
  pub off_in : ℤ
  pub fi_out : FuseFileInfoLite
  pub off_out : ℤ
  pub len : ℕ
  pub flags : ℤ

pub record FsyncParams : Type 0 where
  pub seq : ℤ
  pub r : Ballot
  pub fi : FuseFileInfoLite

pub record P1a : Type 0 where
  pub seq : ℤ
  pub r : Ballot
  pub net_conf : NetworkConfig

pub record DiskReq : Type 0 where
  pub seq : ℤ
  pub id : ℤ
  pub r : Ballot

pub record P2a : Type 0 where
  pub seq : ℤ
  pub r : Ballot
  pub written : ℤ
  pub disk_replica_name : Bytes
  pub disk_checksum : Bytes

-- The alternatives of the variant, in its order.
pub data ClientMsg : Type 0 where
  mknod : MknodParams → ClientMsg
  mkdir : MkdirParams → ClientMsg
  symlink : SymlinkParams → ClientMsg
  unlink : UnlinkParams → ClientMsg
  rmdir : RmdirParams → ClientMsg
  rename : RenameParams → ClientMsg
  link : LinkParams → ClientMsg
  chmod : ChmodParams → ClientMsg
  chown : ChownParams → ClientMsg
  truncate : TruncateParams → ClientMsg
  utimens : UtimensParams → ClientMsg
  create : CreateParams → ClientMsg
  open_file : OpenParams → ClientMsg
  write_buf : WriteBufParams → ClientMsg
  release : ReleaseParams → ClientMsg
  fallocate : FallocateParams → ClientMsg
  setxattr : SetxattrParams → ClientMsg
  removexattr : RemovexattrParams → ClientMsg
  copy_file_range : CopyFileRangeParams → ClientMsg
  fsync : FsyncParams → ClientMsg
  p1a : P1a → ClientMsg
  disk_req : DiskReq → ClientMsg
  p2a : P2a → ClientMsg

pub record P1b : Type 0 where
  pub id : ℤ
  pub client_ballot : Ballot
  pub written : ℤ
  pub normal_ballot : Ballot
  pub highest_ballot : Ballot

pub record Disk : Type 0 where
  pub id : ℤ
  pub client_ballot : Ballot
  pub written : ℤ
  pub disk_checksum : Bytes

pub record P2b : Type 0 where
  pub id : ℤ
  pub client_ballot : Ballot
  pub highest_ballot : Ballot

pub record FsyncMissing : Type 0 where
  pub id : ℤ
  pub r : Ballot
  pub fsync_seq : ℤ
  pub holes : List ℤ

pub record FsyncAck : Type 0 where
  pub id : ℤ
  pub written : ℤ
  pub r : Ballot

pub data ReplicaMsg : Type 0 where
  p1b : P1b → ReplicaMsg
  disk : Disk → ReplicaMsg
  p2b : P2b → ReplicaMsg
  fsync_missing : FsyncMissing → ReplicaMsg
  fsync_ack : FsyncAck → ReplicaMsg
