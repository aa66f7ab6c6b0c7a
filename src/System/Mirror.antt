-- ===== src/System/Mirror.antt =====
-- client/client_fuse.cpp and replica/replica_fuse.cpp: the two sides of a call, against one description of the
-- system call that it comes to.
pub mod Issues
use disk_tees.Prelude.{
  ℕ, ℤ, pos, minus_one, ◌+ℤ◌, ◌==ℤ◌, ◌≡◌, refl, sym, ◌∙◌, Bool, true, false, Option, none, some,
  ◌++◌, Bytes, Outcome, ok, exited, arith, if◌then◌else◌,
}
use disk_tees.Shared.Convert.{narrow}
use disk_tees.Shared.Ballot.{Ballot}
use disk_tees.Shared.IntMap.{find}
use disk_tees.Shared.Os.{Os, Syscall}
use disk_tees.Shared.Transport.{Transport}
use disk_tees.Shared.Messages.{ClientMsg, FuseFileInfoLite}
use disk_tees.Replica.Store.{
  Store, prepend_path as replica_path, call as replica_call, with_fd, or_exit, or_exit_fh,
  map_handle, forget_handle, do_mknod, do_mkdir, do_symlink, do_unlink, do_rmdir, do_rename,
  do_link, do_chmod, do_chown, do_truncate, do_utimens, do_create, do_open, do_release,
  do_fallocate, do_setxattr, do_removexattr,
}
use disk_tees.Replica.Buffer.{redo}
use disk_tees.Client.State.{Client, call, prepend_path}
use disk_tees.Client.Calls.Common.{
  FuseFileInfo, make_lite, lite_or_empty, path_unless, by_handle, replicate, or_errno,
}
use disk_tees.Client.Calls.Paths.{
  client_mknod, client_mkdir, client_symlink, client_unlink, client_rmdir, client_rename,
  client_link, client_setxattr, client_removexattr, client_chmod, client_chown, client_truncate,
  client_utimens,
}
use disk_tees.Client.Calls.Files.{client_create, client_open, client_release, client_fallocate}
use disk_tees.Client.Trace.{Call, perform}
use disk_tees.System.Mirror.Issues.{by_either, issues, handle_of}

if_ap :
    {A B : Type 0} (f : A → B) (b : Bool) (x y : A)
    → (if b then f x else f y) ≡ f (if b then x else y)
if_ap f true x y = refl
if_ap f false x y = refl

unless : {A : Type 0} (b : Bool) (x y : A) → b ≡ false → (if b then x else y) ≡ y
unless b x y h = rw h refl

with_fd_lem :
    {W : Type 0} (fi : FuseFileInfoLite) (s : Store W) (fd : ℤ) (k : ℤ → Outcome (Store W))
    → find (narrow fi.fh) s.file_handle_converter ≡ some fd
    → with_fd fi s k ≡ k fd
unfolding with_fd
with_fd_lem fi s fd k h = rw (with_fd, h) refl

module _ {W N : Type 0} (os : Os W) (tls : Transport ClientMsg N) (c : Client W N)
    (s : Store W) where
  -- The client's own call, one message, and the same call at a replica that redoes it.
  pub record Mirrored (here there : Syscall) (d : Client W N) : Type 0 where
    pub msg : ClientMsg
    pub done : d.world ≡ (os.sys here c.world).1
    pub sent : d.net ≡ tls.broadcast msg c.replicas c.net
    pub t : Store W
    pub redone : redo os msg s ≡ ok t
    pub world : t.world ≡ (os.sys there s.world).1

  -- Neither call fails.
  pub record Succeeds (here there : Syscall) : Type 0 where
    pub local : ((os.sys here c.world).0.ret ==ℤ minus_one) ≡ false
    pub remote : ((os.sys there s.world).0.ret ==ℤ minus_one) ≡ false

  replicate-Mirrored :
      (here there : Syscall) (msg : ℤ → Ballot → ClientMsg) (t : Store W)
      → c.network ≡ true
      → redo os (msg (c.written +ℤ pos 1) c.r) s ≡ ok t
      → t.world ≡ (os.sys there s.world).1
      → Mirrored here there (replicate tls msg (call os here c).1)
  unfolding replicate call
  replicate-Mirrored here there msg t on redone world = rw on (record {
    msg = msg (c.written +ℤ pos 1) c.r;
    done = refl;
    sent = refl;
    t = t;
    redone = redone;
    world = world;
  })

  or_errno-Mirrored :
      (here there : Syscall) (msg : ℤ → Ballot → ClientMsg) (t : Store W)
      → c.network ≡ true
      → Succeeds here there
      → redo os (msg (c.written +ℤ pos 1) c.r) s ≡ ok t
      → t.world ≡ (os.sys there s.world).1
      → Mirrored here there (or_errno tls (call os here c) msg).1
  unfolding or_errno replicate call
  or_errno-Mirrored here there msg t on good redone world = rw good.local (
      rw on (record {
        msg = msg (c.written +ℤ pos 1) c.r;
        done = refl;
        sent = refl;
        t = t;
        redone = redone;
        world = world;
      }))

  -- The handle of a call is mapped to the replica's own descriptor.
  abbrev pub Maps : (ℕ → ℤ) → Option FuseFileInfo → Type 0
  Maps local none = Unit
  Maps local (some fi) = find (narrow fi.fh) s.file_handle_converter ≡ some (local fi.fh)

  abbrev Both : Option Syscall → Option Syscall → Client W N → Type 0
  Both (some here) (some there) d = Succeeds here there → Mirrored here there d
  Both _ _ d = Unit

  core :
      (local : ℕ → ℤ) (k : Call)
      → c.network ≡ true
      → Maps local (handle_of k)
      → Both
          (issues os c.redirect_point narrow k)
          (issues os s.directory local k)
          (perform os tls k c)
  unfolding issues by_either handle_of perform redo client_mknod client_mkdir client_symlink
      client_unlink client_rmdir client_rename client_link client_setxattr client_removexattr
      client_chmod client_chown client_truncate client_utimens client_create client_open
      client_release client_fallocate call prepend_path by_handle lite_or_empty path_unless
      make_lite do_mknod do_mkdir do_symlink do_unlink do_rmdir do_rename do_link do_chmod do_chown
      do_truncate do_utimens do_create do_open do_release do_fallocate do_setxattr do_removexattr
      replica_path replica_call or_exit or_exit_fh map_handle forget_handle
  core local (Call.mkdir path mode) on h =
      λ good. or_errno-Mirrored _ _ _ _ on good (unless _ exited _ good.remote) refl
  core local (Call.symlink target linkpath) on h =
      λ good. or_errno-Mirrored _ _ _ _ on good (unless _ exited _ good.remote) refl
  core local (Call.unlink path) on h =
      λ good. or_errno-Mirrored _ _ _ _ on good (unless _ exited _ good.remote) refl
  core local (Call.rmdir path) on h =
      λ good. or_errno-Mirrored _ _ _ _ on good (unless _ exited _ good.remote) refl
  core local (Call.rename oldpath newpath flags) on h =
      λ good. or_errno-Mirrored _ _ _ _ on good (unless _ exited _ good.remote) refl
  core local (Call.link oldpath newpath) on h =
      λ good. or_errno-Mirrored _ _ _ _ on good (unless _ exited _ good.remote) refl
  core local (Call.setxattr path name value flags) on h =
      λ good. or_errno-Mirrored _ _ _ _ on good (unless _ exited _ good.remote) refl
  core local (Call.removexattr path name) on h =
      λ good. or_errno-Mirrored _ _ _ _ on good (unless _ exited _ good.remote) refl
  core local (Call.create path mode fi) on h =
      λ good. or_errno-Mirrored _ _ _ _ on good (unless _ exited _ good.remote) refl
  core local (Call.open_file path fi) on h =
      λ good. or_errno-Mirrored _ _ _ _ on good (unless _ exited _ good.remote) refl
  core local (Call.mknod path mode rdev) on h = λ good.
      or_errno-Mirrored _ _ _ _ on good
        (if_ap (λ sc. or_exit (replica_call os sc s)) (os.s_isfifo mode) _ _
          ∙ unless _ exited _ good.remote)
        refl
  core local (Call.chmod path mode none) on h =
      λ good. or_errno-Mirrored _ _ _ _ on good (unless _ _ _ good.remote) refl
  core local (Call.chmod path mode (some fi)) on h = λ good.
      or_errno-Mirrored _ _ _ _ on good
        (with_fd_lem (make_lite fi) s (local fi.fh) _ h ∙ unless _ _ _ good.remote) refl
  core local (Call.chown path uid gid none) on h =
      λ good. or_errno-Mirrored _ _ _ _ on good (unless _ _ _ good.remote) refl
  core local (Call.chown path uid gid (some fi)) on h = λ good.
      or_errno-Mirrored _ _ _ _ on good
        (with_fd_lem (make_lite fi) s (local fi.fh) _ h ∙ unless _ _ _ good.remote) refl
  core local (Call.truncate path size none) on h =
      λ good. or_errno-Mirrored _ _ _ _ on good (unless _ _ _ good.remote) refl
  core local (Call.truncate path size (some fi)) on h = λ good.
      or_errno-Mirrored _ _ _ _ on good
        (with_fd_lem (make_lite fi) s (local fi.fh) _ h ∙ unless _ _ _ good.remote) refl
  core local (Call.utimens path tv0 tv1 none) on h =
      λ good. or_errno-Mirrored _ _ _ _ on good (unless _ _ _ good.remote) refl
  core local (Call.utimens path tv0 tv1 (some fi)) on h = λ good.
      or_errno-Mirrored _ _ _ _ on good
        (with_fd_lem (make_lite fi) s (local fi.fh) _ h ∙ unless _ _ _ good.remote) refl
  core local (Call.release fi) on h = λ good.
      replicate-Mirrored _ _ _ _ on
        (with_fd_lem (make_lite fi) s (local fi.fh) _ h ∙ unless _ exited _ good.remote) refl
  core local (Call.fallocate offset length fi) on h =
      λ good. replicate-Mirrored _ _ _ _ on (with_fd_lem (make_lite fi) s (local fi.fh) _ h) refl
  core local (Call.write_buf start end buf offset fi) on h = tt
  core local (Call.copy_file_range fi_in off_in fi_out off_out len flags) on h = tt
  core local (Call.fsync isdatasync fi start end rounds) on h = tt
  core local (Call.messages ms) on h = tt

  choose :
      (o p : Option Syscall) (here there : Syscall) (d : Client W N)
      → Both o p d
      → o ≡ some here
      → p ≡ some there
      → Succeeds here there
      → Mirrored here there d
  choose none p here there d h e f = cc
  choose (some x) none here there d h e f = cc
  choose (some x) (some y) here there d h e f =
      let ex : x ≡ here = ground arith in let ey : y ≡ there = ground arith in rw (sym ex, sym ey) h

-- Let a networked client serve a call that is described (each of `Call` but `write_buf`, `copy_file_range` and `fsync`),
-- let a replica map the handle that the call works on, if any, to its descriptor `local`, and let neither the system
-- call that the client makes nor that which the replica makes in its directory and with its descriptors fail. Then the
-- client makes its call, broadcasts one message, and the replica that redoes the message ends well behind its call.
pub mirrored :
    {W N : Type 0} (os : Os W) (tls : Transport ClientMsg N) (c : Client W N) (s : Store W)
    (local : ℕ → ℤ) (k : Call) (here there : Syscall)
    → issues os c.redirect_point narrow k ≡ some here
    → issues os s.directory local k ≡ some there
    → c.network ≡ true
    → Maps os tls c s local (handle_of k)
    → Succeeds os tls c s here there
    → Mirrored os tls c s here there (perform os tls k c)
mirrored os tls c s local k here there e f on h good =
    choose os tls c s _ _ here there (perform os tls k c) (core os tls c s local k on h) e f good
