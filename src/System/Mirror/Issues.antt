-- ===== src/System/Mirror/Issues.antt =====
-- The system call that a call of the client makes, in its directory and with its descriptors.
use disk_tees.Prelude.{ℕ, ℤ, Option, none, some, ◌++◌, Bytes, if◌then◌else◌}
use disk_tees.Shared.Os.{Os, Syscall}
use disk_tees.Client.Calls.Common.{FuseFileInfo}
use disk_tees.Client.Trace.{Call}

-- A call that works on the handle if it has one, and on the path otherwise.
unfoldable pub by_either : (ℕ → ℤ) → Option FuseFileInfo → (ℤ → Syscall) → Syscall → Syscall
by_either handle none on_fd on_path = on_path
by_either handle (some fi) on_fd on_path = on_fd (handle fi.fh)

-- The system call that a file system under `root` makes of a FUSE call, where `handle` turns the handles of
-- FUSE into descriptors. The last four are not described: the bytes of a write come by another way to the
-- local file, `copy_file_range` does not send what it was given, a replica makes no call for an fsync, and `messages` is
-- no call.
unfoldable pub issues : {W : Type 0} → Os W → Bytes → (ℕ → ℤ) → Call → Option Syscall
unfolding by_either
issues os root handle (Call.mknod path mode rdev) = some (
    if os.s_isfifo mode
    then Syscall.mkfifo (root ++ path) mode
    else Syscall.mknod (root ++ path) mode rdev)
issues os root handle (Call.mkdir path mode) = some (Syscall.mkdir (root ++ path) mode)
issues os root handle (Call.symlink target linkpath) =
    some (Syscall.symlink target (root ++ linkpath))
issues os root handle (Call.unlink path) = some (Syscall.unlink (root ++ path))
issues os root handle (Call.rmdir path) = some (Syscall.rmdir (root ++ path))
issues os root handle (Call.rename oldpath newpath flags) =
    some (Syscall.rename (root ++ oldpath) (root ++ newpath))
issues os root handle (Call.link oldpath newpath) =
    some (Syscall.link (root ++ oldpath) (root ++ newpath))
issues os root handle (Call.setxattr path name value flags) =
    some (Syscall.lsetxattr (root ++ path) name value flags)
issues os root handle (Call.removexattr path name) = some (Syscall.lremovexattr (root ++ path) name)
issues os root handle (Call.chmod path mode fi) =
    some (by_either handle fi (λ fd. Syscall.fchmod fd mode) (Syscall.chmod (root ++ path) mode))
issues os root handle (Call.chown path uid gid fi) =
    some (
      by_either handle fi (λ fd. Syscall.fchown fd uid gid) (Syscall.lchown (root ++ path) uid gid))
issues os root handle (Call.truncate path size fi) =
    some
      (by_either handle fi (λ fd. Syscall.ftruncate fd size) (Syscall.truncate (root ++ path) size))
issues os root handle (Call.utimens path tv0 tv1 fi) = some (
    by_either handle fi (λ fd. Syscall.futimens fd tv0 tv1)
      (Syscall.utimensat (root ++ path) tv0 tv1))
issues os root handle (Call.create path mode fi) =
    some (Syscall.open_mode (root ++ path) fi.flags mode)
issues os root handle (Call.open_file path fi) = some (Syscall.open_file (root ++ path) fi.flags)
issues os root handle (Call.release fi) = some (Syscall.close (handle fi.fh))
issues os root handle (Call.fallocate offset length fi) =
    some (Syscall.posix_fallocate (handle fi.fh) offset length)
issues os root handle (Call.write_buf start end buf offset fi) = none
issues os root handle (Call.copy_file_range fi_in off_in fi_out off_out len flags) = none
issues os root handle (Call.fsync isdatasync fi start end rounds) = none
issues os root handle (Call.messages ms) = none

-- The handle that a call works on.
unfoldable pub handle_of : Call → Option FuseFileInfo
handle_of (Call.chmod path mode fi) = fi
handle_of (Call.chown path uid gid fi) = fi
handle_of (Call.truncate path size fi) = fi
handle_of (Call.utimens path tv0 tv1 fi) = fi
handle_of (Call.release fi) = some fi
handle_of (Call.fallocate offset length fi) = some fi
handle_of other = none
