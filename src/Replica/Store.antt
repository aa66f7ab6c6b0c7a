-- ===== src/Replica/Store.antt =====
-- replica/replica_fuse.cpp: the handlers that redo a file operation of the client. They touch only the
-- world outside and `fileHandleConverter`, so they are functions on that part of the state.
use disk_tees.Prelude.{
  ℤ, minus_one, ◌==ℤ◌, none, some, ◌++◌, Bytes, Outcome, ok, threw, exited, if◌then◌else◌,
}
use disk_tees.Shared.Convert.{narrow}
use disk_tees.Shared.IntMap.{IntMap, find, put, erase}
use disk_tees.Shared.Os.{Os, Syscall, Ret}
use disk_tees.Shared.Messages.{
  FuseFileInfoLite, MknodParams, MkdirParams, SymlinkParams, UnlinkParams, RmdirParams,
  RenameParams, LinkParams, ChmodParams, ChownParams, TruncateParams, UtimensParams, CreateParams,
  OpenParams, WriteBufParams, ReleaseParams, FallocateParams, SetxattrParams, RemovexattrParams,
  CopyFileRangeParams,
}

pub record Store (W : Type 0) : Type 0 where
  pub directory : Bytes
  pub file_handle_converter : IntMap ℤ
  pub world : W

module _ {W : Type 0} where
  -- `REPLICA_PREPEND_PATH`
  unfoldable pub prepend_path : Store W → Bytes → Bytes
  prepend_path s path = s.directory ++ path

  -- `fileHandleConverter.at(params.fi.fh)`; where the key is missing the exception leaves the handler
  unfoldable pub with_fd : FuseFileInfoLite → Store W → (ℤ → Outcome (Store W)) → Outcome (Store W)
  with_fd fi s k = elim (find (narrow fi.fh) s.file_handle_converter) [
    | none ↦ threw s
    | some fd ↦ k fd
  ]

  unfoldable pub or_exit : Ret × Store W → Outcome (Store W)
  or_exit (ret, s) = if ret.ret ==ℤ minus_one then exited else ok s

  -- The handlers that take a path or a handle print the local handle before they exit.
  unfoldable pub or_exit_fh : FuseFileInfoLite → Ret × Store W → Outcome (Store W)
  unfolding with_fd
  or_exit_fh fi (ret, s) = if ret.ret ==ℤ minus_one then with_fd fi s (λ _. exited) else ok s

module _ {W : Type 0} (os : Os W) where
  unfoldable pub call : Syscall → Store W → Ret × Store W
  call c s = let (ret, w) = os.sys c s.world in (ret, record s { world = w })

  unfoldable pub do_mknod : MknodParams → Store W → Outcome (Store W)
  unfolding call prepend_path or_exit
  do_mknod p s =
      if os.s_isfifo p.mode
      then or_exit (call (Syscall.mkfifo (prepend_path s p.path) p.mode) s)
      else or_exit (call (Syscall.mknod (prepend_path s p.path) p.mode p.rdev) s)

  unfoldable pub do_mkdir : MkdirParams → Store W → Outcome (Store W)
  unfolding call prepend_path or_exit
  do_mkdir p s = or_exit (call (Syscall.mkdir (prepend_path s p.path) p.mode) s)

  unfoldable pub do_symlink : SymlinkParams → Store W → Outcome (Store W)
  unfolding call prepend_path or_exit
  do_symlink p s = or_exit (call (Syscall.symlink p.target (prepend_path s p.linkpath)) s)

  unfoldable pub do_unlink : UnlinkParams → Store W → Outcome (Store W)
  unfolding call prepend_path or_exit
  do_unlink p s = or_exit (call (Syscall.unlink (prepend_path s p.path)) s)

  unfoldable pub do_rmdir : RmdirParams → Store W → Outcome (Store W)
  unfolding call prepend_path or_exit
  do_rmdir p s = or_exit (call (Syscall.rmdir (prepend_path s p.path)) s)

  unfoldable pub do_rename : RenameParams → Store W → Outcome (Store W)
  unfolding call prepend_path or_exit
  do_rename p s =
      or_exit (call (Syscall.rename (prepend_path s p.oldpath) (prepend_path s p.newpath)) s)

  unfoldable pub do_link : LinkParams → Store W → Outcome (Store W)
  unfolding call prepend_path or_exit
  do_link p s =
      or_exit (call (Syscall.link (prepend_path s p.oldpath) (prepend_path s p.newpath)) s)

  unfoldable pub do_chmod : ChmodParams → Store W → Outcome (Store W)
  unfolding call prepend_path with_fd or_exit_fh
  do_chmod p s =
      if p.has_fi
      then with_fd p.fi s (λ fd. or_exit_fh p.fi (call (Syscall.fchmod fd p.mode) s))
      else or_exit_fh p.fi (call (Syscall.chmod (prepend_path s p.path) p.mode) s)

  unfoldable pub do_chown : ChownParams → Store W → Outcome (Store W)
  unfolding call prepend_path with_fd or_exit_fh
  do_chown p s =
      if p.has_fi
      then with_fd p.fi s (λ fd. or_exit_fh p.fi (call (Syscall.fchown fd p.uid p.gid) s))
      else or_exit_fh p.fi (call (Syscall.lchown (prepend_path s p.path) p.uid p.gid) s)

  unfoldable pub do_truncate : TruncateParams → Store W → Outcome (Store W)
  unfolding call prepend_path with_fd or_exit_fh
  do_truncate p s =
      if p.has_fi
      then with_fd p.fi s (λ fd. or_exit_fh p.fi (call (Syscall.ftruncate fd p.size) s))
      else or_exit_fh p.fi (call (Syscall.truncate (prepend_path s p.path) p.size) s)

  unfoldable pub do_utimens : UtimensParams → Store W → Outcome (Store W)
  unfolding call prepend_path with_fd or_exit_fh
  do_utimens p s =
      if p.has_fi
      then with_fd p.fi s (λ fd. or_exit_fh p.fi (call (Syscall.futimens fd p.tv0 p.tv1) s))
      else or_exit_fh p.fi (call (Syscall.utimensat (prepend_path s p.path) p.tv0 p.tv1) s)

  -- `localFd == -1` exits, and otherwise the client's handle is mapped to the local one.
  unfoldable pub map_handle : FuseFileInfoLite → Ret × Store W → Outcome (Store W)
  map_handle fi (ret, s) =
      if ret.ret ==ℤ minus_one
      then exited
      else ok
          (record s { file_handle_converter = put (narrow fi.fh) ret.ret s.file_handle_converter })

  unfoldable pub do_create : CreateParams → Store W → Outcome (Store W)
  unfolding call prepend_path map_handle
  do_create p s =
      map_handle p.fi (call (Syscall.open_mode (prepend_path s p.path) p.fi.flags p.mode) s)

  unfoldable pub do_open : OpenParams → Store W → Outcome (Store W)
  unfolding call prepend_path map_handle
  do_open p s = map_handle p.fi (call (Syscall.open_file (prepend_path s p.path) p.fi.flags) s)

  unfoldable pub do_write_buf : WriteBufParams → Store W → Outcome (Store W)
  unfolding call with_fd or_exit_fh
  do_write_buf p s =
      with_fd p.fi s (λ fd. or_exit_fh p.fi (call (Syscall.pwrite fd p.buf p.offset) s))

  unfoldable pub forget_handle : FuseFileInfoLite → Store W → Store W
  forget_handle fi s = record s {
    file_handle_converter = erase (narrow fi.fh) s.file_handle_converter;
  }

  unfoldable pub do_release : ReleaseParams → Store W → Outcome (Store W)
  unfolding call with_fd forget_handle
  do_release p s = with_fd p.fi s (λ fd.
      let (ret, s') = call (Syscall.close fd) s in
      if ret.ret ==ℤ minus_one then exited else ok (forget_handle p.fi s'))

  -- The result of `posix_fallocate` is not looked at.
  unfoldable pub do_fallocate : FallocateParams → Store W → Outcome (Store W)
  unfolding call with_fd
  do_fallocate p s =
      with_fd p.fi s (λ fd. ok (call (Syscall.posix_fallocate fd p.offset p.length) s).1)

  unfoldable pub do_setxattr : SetxattrParams → Store W → Outcome (Store W)
  unfolding call prepend_path or_exit
  do_setxattr p s =
      or_exit (call (Syscall.lsetxattr (prepend_path s p.path) p.name p.value p.flags) s)

  unfoldable pub do_removexattr : RemovexattrParams → Store W → Outcome (Store W)
  unfolding call prepend_path or_exit
  do_removexattr p s = or_exit (call (Syscall.lremovexattr (prepend_path s p.path) p.name) s)

  unfoldable pub do_copy_file_range : CopyFileRangeParams → Store W → Outcome (Store W)
  unfolding call with_fd or_exit
  do_copy_file_range p s = with_fd p.fi_in s (λ fd_in. with_fd p.fi_out s (λ fd_out.
      or_exit (call (Syscall.copy_file_range fd_in p.off_in fd_out p.off_out p.len p.flags) s)))
