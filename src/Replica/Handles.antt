-- ===== src/Replica/Handles.antt =====
-- replica/replica_fuse.cpp: `fileHandleConverter` over the writes that are redone.
use disk_tees.Prelude.{ℤ, ◌==ℤ◌, ◌≡◌, none, some, Option, ok, arith, if◌then◌else◌}
use disk_tees.Shared.Convert.{narrow}
use disk_tees.Shared.IntMap.{find, find-put, find-erase}
use disk_tees.Shared.Os.{Os, Syscall}
use disk_tees.Shared.Messages.{ClientMsg}
use disk_tees.Replica.Store.{
  Store, call, prepend_path, with_fd, or_exit, or_exit_fh, map_handle, forget_handle, do_mknod,
  do_mkdir, do_symlink, do_unlink, do_rmdir, do_rename, do_link, do_chmod, do_chown, do_truncate,
  do_utimens, do_create, do_open, do_write_buf, do_release, do_fallocate, do_setxattr,
  do_removexattr, do_copy_file_range,
}
use disk_tees.Replica.Buffer.{redo}

-- The descriptor that handle `j` stands for behind a message.
pub fd_after : {W : Type 0} → Os W → ClientMsg → Store W → ℤ → Option ℤ
fd_after os (ClientMsg.create p) s j =
    if narrow p.fi.fh ==ℤ j
    then some (os.sys (Syscall.open_mode (prepend_path s p.path) p.fi.flags p.mode) s.world).0.ret
    else find j s.file_handle_converter
fd_after os (ClientMsg.open_file p) s j =
    if narrow p.fi.fh ==ℤ j
    then some (os.sys (Syscall.open_file (prepend_path s p.path) p.fi.flags) s.world).0.ret
    else find j s.file_handle_converter
fd_after os (ClientMsg.release p) s j =
    if narrow p.fi.fh ==ℤ j then none else find j s.file_handle_converter
fd_after os other s j = find j s.file_handle_converter

-- A write that is redone leaves the handles as they were, but for create and open, behind which the client's handle
-- stands for the descriptor that the local open returned, and release, behind which it stands for none.
pub handles_tracked :
    {W : Type 0} (os : Os W) (m : ClientMsg) (s t : Store W) (j : ℤ)
    → redo os m s ≡ ok t
    → find j t.file_handle_converter ≡ fd_after os m s j
unfolding redo fd_after do_mknod do_mkdir do_symlink do_unlink do_rmdir do_rename do_link do_chmod
    do_chown do_truncate do_utimens do_create do_open do_write_buf do_release do_fallocate
    do_setxattr do_removexattr do_copy_file_range with_fd or_exit or_exit_fh map_handle
    forget_handle call
handles_tracked os (ClientMsg.create p) s t j e =
    let fd = (os.sys (Syscall.open_mode (prepend_path s p.path) p.fi.flags p.mode) s.world).0.ret in
    ground (arith, find-put (narrow p.fi.fh) j fd s.file_handle_converter)
handles_tracked os (ClientMsg.open_file p) s t j e =
    let fd = (os.sys (Syscall.open_file (prepend_path s p.path) p.fi.flags) s.world).0.ret in
    ground (arith, find-put (narrow p.fi.fh) j fd s.file_handle_converter)
handles_tracked os (ClientMsg.release p) s t j e =
    ground (arith, find-erase (narrow p.fi.fh) j s.file_handle_converter)
handles_tracked os m s t j e = ground arith
