-- ===== src/Client/Calls/Local.antt =====
-- client/client_fuse.cpp: the calls that are served from the local directory alone.
use disk_tees.Prelude.{
  ℕ, ◌-◌, ◌^◌, ◌==◌, ℤ, pos, minus_one, pos_part, ◌==ℤ◌, neg, Option, [], ◌∷◌, ◌++◌, Bytes, take,
  if◌then◌else◌,
}
use disk_tees.Shared.Convert.{narrow, widen}
use disk_tees.Shared.Os.{Os, Syscall, Ret}
use disk_tees.Client.State.{Client, call, prepend_path}
use disk_tees.Client.Calls.Common.{FuseFileInfo, by_handle}

-- The buffer that `client_read_buf` describes: FUSE reads the bytes from the descriptor itself.
pub record ReadBuf : Type 0 where
  pub size : ℕ
  pub fd : ℤ
  pub pos : ℤ

pub client_read_buf : ℕ → ℤ → FuseFileInfo → ℤ × ReadBuf
client_read_buf size offset fi = (ℤ.pos 0, record { size = size; fd = narrow fi.fh; pos = offset })

module _ {W N : Type 0} where
  -- `if (res == -1) return -errno; return 0;`, with what the call left in the buffer
  pub zero_or_errno : Ret × Client W N → ℤ × Bytes × Client W N
  zero_or_errno (ret, c) =
      if ret.ret ==ℤ minus_one then (neg ret.errno, ret.out, c) else (pos 0, ret.out, c)

  -- The same with `return res;`
  pub ret_or_errno : Ret × Client W N → ℤ × Bytes × Client W N
  ret_or_errno (ret, c) =
      if ret.ret ==ℤ minus_one then (neg ret.errno, ret.out, c) else (ret.ret, ret.out, c)

module _ {W N : Type 0} (os : Os W) where
  pub client_getattr : Bytes → Option FuseFileInfo → Client W N → ℤ × Bytes × Client W N
  unfolding call prepend_path zero_or_errno
  client_getattr path fi c =
      zero_or_errno
        (call os (by_handle fi (λ fd. Syscall.fstat fd) (Syscall.lstat (prepend_path c path))) c)

  pub client_access : Bytes → ℤ → Client W N → ℤ × Bytes × Client W N
  unfolding call prepend_path zero_or_errno
  client_access path mask c = zero_or_errno (call os (Syscall.access (prepend_path c path) mask) c)

  -- `buf[res] = '\0'`: the bytes that the call wrote, and the terminator behind them. `size - 1` is
  -- unsigned, so a `size` of 0 wraps.
  pub client_readlink : Bytes → ℕ → Client W N → ℤ × Bytes × Client W N
  unfolding call prepend_path
  client_readlink path size c =
      let asked = if size == 0 then 2 ^ 64 - 1 else size - 1 in
      let (ret, d) = call os (Syscall.readlink (prepend_path c path) asked) c in
      if ret.ret ==ℤ minus_one
      then (neg ret.errno, ret.out, d)
      else (pos 0, take (pos_part ret.ret) ret.out ++ 0 ∷ [], d)

  pub client_statfs : Bytes → Client W N → ℤ × Bytes × Client W N
  unfolding call prepend_path zero_or_errno
  client_statfs path c = zero_or_errno (call os (Syscall.statvfs (prepend_path c path)) c)

  -- `close(dup(fi->fh))`
  pub client_flush : FuseFileInfo → Client W N → ℤ × Bytes × Client W N
  unfolding call zero_or_errno
  client_flush fi c =
      let (dup, d) = call os (Syscall.dup (narrow fi.fh)) c in
      zero_or_errno (call os (Syscall.close dup.ret) d)

  pub client_getxattr : Bytes → Bytes → ℕ → Client W N → ℤ × Bytes × Client W N
  unfolding call prepend_path ret_or_errno
  client_getxattr path name size c =
      ret_or_errno (call os (Syscall.lgetxattr (prepend_path c path) name size) c)

  pub client_listxattr : Bytes → ℕ → Client W N → ℤ × Bytes × Client W N
  unfolding call prepend_path ret_or_errno
  client_listxattr path size c =
      ret_or_errno (call os (Syscall.llistxattr (prepend_path c path) size) c)

  pub client_flock : FuseFileInfo → ℤ → Client W N → ℤ × Bytes × Client W N
  unfolding call zero_or_errno
  client_flock fi op c = zero_or_errno (call os (Syscall.flock (narrow fi.fh) op) c)

  -- `int res = lseek(…)`: the offset is cut to an `int`.
  pub client_lseek : ℤ → ℤ → FuseFileInfo → Client W N → ℤ × Bytes × Client W N
  unfolding call ret_or_errno
  client_lseek off whence fi c =
      let (ret, d) = call os (Syscall.lseek (narrow fi.fh) off whence) c in
      ret_or_errno (record ret { ret = narrow (widen ret.ret) }, d)
