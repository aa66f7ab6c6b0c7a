-- ===== src/Client/Trace.antt =====
-- client/client_fuse.cpp: a history of the mounted client. FUSE calls, one at a time (libfuse runs with `-s`), each of
-- those that change the file system or ask the replicas for something (fsync), and messages that the event loop finds
-- in between. (The calls that only read send nothing and change
-- nothing but the world and the measured times.)
pub mod Writes
pub mod Log
pub mod Carried
use disk_tees.Prelude.{ℕ, ℤ, Bool, Option, List, [], ◌∷◌, Bytes, Outcome, ok, if◌then◌else◌}
use disk_tees.Shared.Os.{Os, Syscall, Timespec}
use disk_tees.Shared.Transport.{Transport}
use disk_tees.Shared.Messages.{ClientMsg, ReplicaMsg}
use disk_tees.Client.State.{Client}
use disk_tees.Client.Receive.{run_event_loop_once}
use disk_tees.Client.Calls.Common.{FuseFileInfo}
use disk_tees.Client.Calls.Paths.{
  client_mknod, client_mkdir, client_symlink, client_unlink, client_rmdir, client_rename,
  client_link, client_setxattr, client_removexattr, client_chmod, client_chown, client_truncate,
  client_utimens,
}
use disk_tees.Client.Calls.Files.{
  FuseBufvec, client_create, client_open, client_write_buf, client_release, client_fallocate,
  client_copy_file_range,
}
use disk_tees.Client.Calls.Fsync.{Rounds, broadcast_fsync, client_fsync}
use disk_tees.Shared.Convert.{narrow}

pub data Call : Type 0 where
  mknod : (path : Bytes) (mode rdev : ℕ) → Call
  mkdir : (path : Bytes) (mode : ℕ) → Call
  symlink : (target linkpath : Bytes) → Call
  unlink : (path : Bytes) → Call
  rmdir : (path : Bytes) → Call
  rename : (oldpath newpath : Bytes) (flags : ℕ) → Call
  link : (oldpath newpath : Bytes) → Call
  setxattr : (path name value : Bytes) (flags : ℤ) → Call
  removexattr : (path name : Bytes) → Call
  chmod : (path : Bytes) (mode : ℕ) (fi : Option FuseFileInfo) → Call
  chown : (path : Bytes) (uid gid : ℕ) (fi : Option FuseFileInfo) → Call
  truncate : (path : Bytes) (size : ℤ) (fi : Option FuseFileInfo) → Call
  utimens : (path : Bytes) (tv0 tv1 : Timespec) (fi : Option FuseFileInfo) → Call
  create : (path : Bytes) (mode : ℕ) (fi : FuseFileInfo) → Call
  open_file : (path : Bytes) (fi : FuseFileInfo) → Call
  write_buf : (start end : ℕ) (buf : FuseBufvec) (offset : ℤ) (fi : FuseFileInfo) → Call
  release : (fi : FuseFileInfo) → Call
  fallocate : (offset length : ℤ) (fi : FuseFileInfo) → Call
  copy_file_range :
      (fi_in : FuseFileInfo) (off_in : ℤ) (fi_out : FuseFileInfo) (off_out : ℤ) (len : ℕ)
      (flags : ℤ)
      → Call
  -- with what the event loop finds while the call waits for the acknowledgements
  fsync : (isdatasync : Bool) (fi : FuseFileInfo) (start end : ℕ) (rounds : Rounds) → Call
  -- no call: the event loop runs once and finds these messages
  messages : List (Bytes × ReplicaMsg) → Call

module _ {W N : Type 0} (os : Os W) (tls : Transport ClientMsg N) where
  -- The client that waits in `client_fsync`, behind the local fsync and the broadcast.
  unfoldable pub asked : Bool → FuseFileInfo → Client W N → Client W N
  unfolding broadcast_fsync
  asked isdatasync fi c = broadcast_fsync tls fi (record c {
    world =
        (os.sys
          (if isdatasync then Syscall.fdatasync (narrow fi.fh) else Syscall.fsync (narrow fi.fh))
          c.world).1;
  })

  unfoldable pub hear_all : Rounds → Client W N → Client W N
  unfolding run_event_loop_once
  hear_all [] c = c
  hear_all (ms ∷ rounds) c = hear_all rounds (run_event_loop_once tls ms c)

  -- Where the rounds do not let an fsync return, the client is still in its loop when they have passed. (No call can
  -- follow then; a history in which one does is more than the program can do.)
  unfoldable pub perform_fsync :
      Bool → FuseFileInfo → (start end : ℕ) → Rounds → Client W N → Client W N
  unfolding asked hear_all client_fsync
  perform_fsync isdatasync fi start end rounds c =
      elim (client_fsync os tls isdatasync fi start end rounds c) [
        | ok r ↦ r.1
        | _ ↦ hear_all rounds (asked isdatasync fi c)
      ]

  unfoldable pub perform : Call → Client W N → Client W N
  unfolding perform_fsync
  perform (mknod path mode rdev) c = (client_mknod os tls path mode rdev c).1
  perform (mkdir path mode) c = (client_mkdir os tls path mode c).1
  perform (symlink target linkpath) c = (client_symlink os tls target linkpath c).1
  perform (unlink path) c = (client_unlink os tls path c).1
  perform (rmdir path) c = (client_rmdir os tls path c).1
  perform (rename oldpath newpath flags) c = (client_rename os tls oldpath newpath flags c).1
  perform (link oldpath newpath) c = (client_link os tls oldpath newpath c).1
  perform (setxattr path name value flags) c = (client_setxattr os tls path name value flags c).1
  perform (removexattr path name) c = (client_removexattr os tls path name c).1
  perform (chmod path mode fi) c = (client_chmod os tls path mode fi c).1
  perform (chown path uid gid fi) c = (client_chown os tls path uid gid fi c).1
  perform (truncate path size fi) c = (client_truncate os tls path size fi c).1
  perform (utimens path tv0 tv1 fi) c = (client_utimens os tls path tv0 tv1 fi c).1
  perform (create path mode fi) c = (client_create os tls path mode fi c).2
  perform (open_file path fi) c = (client_open os tls path fi c).2
  perform (write_buf start end buf offset fi) c =
      (client_write_buf os tls start end buf offset fi c).1
  perform (release fi) c = (client_release os tls fi c).1
  perform (fallocate offset length fi) c = (client_fallocate os tls offset length fi c).1
  perform (copy_file_range fi_in off_in fi_out off_out len flags) c =
      (client_copy_file_range os tls fi_in off_in fi_out off_out len flags c).1
  perform (fsync isdatasync fi start end rounds) c = perform_fsync isdatasync fi start end rounds c
  perform (messages ms) c = run_event_loop_once tls ms c

  unfoldable pub perform_all : List Call → Client W N → Client W N
  unfolding perform
  perform_all [] c = c
  perform_all (call ∷ calls) c = perform_all calls (perform call c)
