-- ===== src/Client/Calls/Paths.antt =====
-- client/client_fuse.cpp: the replicated calls that name files by their paths.
use disk_tees.Prelude.{ℕ, ℤ, Option, Bytes, if◌then◌else◌}
use disk_tees.Shared.Os.{Os, Syscall, Timespec}
use disk_tees.Shared.Transport.{Transport}
use disk_tees.Shared.Messages.{ClientMsg}
use disk_tees.Client.State.{Client, call, prepend_path}
use disk_tees.Client.Calls.Common.{
  FuseFileInfo, lite_or_empty, has_fi, path_unless, by_handle, or_errno,
}

module _ {W N : Type 0} (os : Os W) (tls : Transport ClientMsg N) where
  unfoldable pub client_mknod : Bytes → ℕ → ℕ → Client W N → ℤ × Client W N
  unfolding call prepend_path
  client_mknod path mode rdev c =
      or_errno tls
        (call os
          (if os.s_isfifo mode
            then Syscall.mkfifo (prepend_path c path) mode
            else Syscall.mknod (prepend_path c path) mode rdev)
          c)
        (λ seq r.
          ClientMsg.mknod (record { seq = seq; r = r; path = path; mode = mode; rdev = rdev }))

  unfoldable pub client_mkdir : Bytes → ℕ → Client W N → ℤ × Client W N
  unfolding call prepend_path
  client_mkdir path mode c =
      or_errno tls (call os (Syscall.mkdir (prepend_path c path) mode) c)
        (λ seq r. ClientMsg.mkdir (record { seq = seq; r = r; path = path; mode = mode }))

  -- Only `linkpath` is redirected.
  unfoldable pub client_symlink : Bytes → Bytes → Client W N → ℤ × Client W N
  unfolding call prepend_path
  client_symlink target linkpath c =
      or_errno tls (call os (Syscall.symlink target (prepend_path c linkpath)) c) (λ seq r.
        ClientMsg.symlink (record { seq = seq; r = r; target = target; linkpath = linkpath }))

  unfoldable pub client_unlink : Bytes → Client W N → ℤ × Client W N
  unfolding call prepend_path
  client_unlink path c =
      or_errno tls (call os (Syscall.unlink (prepend_path c path)) c)
        (λ seq r. ClientMsg.unlink (record { seq = seq; r = r; path = path }))

  unfoldable pub client_rmdir : Bytes → Client W N → ℤ × Client W N
  unfolding call prepend_path
  client_rmdir path c =
      or_errno tls (call os (Syscall.rmdir (prepend_path c path)) c)
        (λ seq r. ClientMsg.rmdir (record { seq = seq; r = r; path = path }))

  -- `flags` is not used.
  unfoldable pub client_rename : Bytes → Bytes → ℕ → Client W N → ℤ × Client W N
  unfolding call prepend_path
  client_rename oldpath newpath flags c =
      or_errno tls (call os (Syscall.rename (prepend_path c oldpath) (prepend_path c newpath)) c)
        (λ seq r.
          ClientMsg.rename (record { seq = seq; r = r; oldpath = oldpath; newpath = newpath }))

  unfoldable pub client_link : Bytes → Bytes → Client W N → ℤ × Client W N
  unfolding call prepend_path
  client_link oldpath newpath c =
      or_errno tls (call os (Syscall.link (prepend_path c oldpath) (prepend_path c newpath)) c)
        (λ seq r.
          ClientMsg.link (record { seq = seq; r = r; oldpath = oldpath; newpath = newpath }))

  unfoldable pub client_setxattr : Bytes → Bytes → Bytes → ℤ → Client W N → ℤ × Client W N
  unfolding call prepend_path
  client_setxattr path name value flags c =
      or_errno tls (call os (Syscall.lsetxattr (prepend_path c path) name value flags) c) (λ seq r.
        ClientMsg.setxattr
          (record { seq = seq; r = r; path = path; name = name; value = value; flags = flags }))

  unfoldable pub client_removexattr : Bytes → Bytes → Client W N → ℤ × Client W N
  unfolding call prepend_path
  client_removexattr path name c =
      or_errno tls (call os (Syscall.lremovexattr (prepend_path c path) name) c)
        (λ seq r. ClientMsg.removexattr (record { seq = seq; r = r; path = path; name = name }))

  unfoldable pub client_chmod : Bytes → ℕ → Option FuseFileInfo → Client W N → ℤ × Client W N
  unfolding call prepend_path by_handle
  client_chmod path mode fi c =
      or_errno tls
        (call os
          (by_handle fi (λ fd. Syscall.fchmod fd mode) (Syscall.chmod (prepend_path c path) mode))
          c)
        (λ seq r. ClientMsg.chmod (record {
          seq = seq;
          r = r;
          path = path_unless fi path;
          mode = mode;
          fi = lite_or_empty fi;
          has_fi = has_fi fi;
        }))

  unfoldable pub client_chown : Bytes → ℕ → ℕ → Option FuseFileInfo → Client W N → ℤ × Client W N
  unfolding call prepend_path by_handle
  client_chown path uid gid fi c =
      or_errno tls
        (call os
          (by_handle fi (λ fd. Syscall.fchown fd uid gid)
            (Syscall.lchown (prepend_path c path) uid gid))
          c)
        (λ seq r. ClientMsg.chown (record {
          seq = seq;
          r = r;
          path = path_unless fi path;
          uid = uid;
          gid = gid;
          fi = lite_or_empty fi;
          has_fi = has_fi fi;
        }))

  unfoldable pub client_truncate : Bytes → ℤ → Option FuseFileInfo → Client W N → ℤ × Client W N
  unfolding call prepend_path by_handle
  client_truncate path size fi c =
      or_errno tls
        (call os
          (by_handle fi (λ fd. Syscall.ftruncate fd size)
            (Syscall.truncate (prepend_path c path) size))
          c)
        (λ seq r. ClientMsg.truncate (record {
          seq = seq;
          r = r;
          path = path_unless fi path;
          size = size;
          fi = lite_or_empty fi;
          has_fi = has_fi fi;
        }))

  unfoldable pub client_utimens :
      Bytes → Timespec → Timespec → Option FuseFileInfo → Client W N → ℤ × Client W N
  unfolding call prepend_path by_handle
  client_utimens path tv0 tv1 fi c =
      or_errno tls
        (call os
          (by_handle fi (λ fd. Syscall.futimens fd tv0 tv1)
            (Syscall.utimensat (prepend_path c path) tv0 tv1))
          c)
        (λ seq r. ClientMsg.utimens (record {
          seq = seq;
          r = r;
          path = path_unless fi path;
          tv0 = tv0;
          tv1 = tv1;
          fi = lite_or_empty fi;
          has_fi = has_fi fi;
        }))
