-- ===== src/Client/Calls/Files.antt =====
-- client/client_fuse.cpp: the replicated calls that name files by their handles.
use disk_tees.Prelude.{
  ℕ, ◌-◌, ◌/◌, ℤ, pos, minus_one, ◌+ℤ◌, ◌==ℤ◌, neg, halve, ◌&&◌, Bytes, take, drop, if◌then◌else◌,
}
use disk_tees.Shared.Convert.{narrow, widen}
use disk_tees.Shared.Os.{Os, Syscall}
use disk_tees.Shared.Transport.{Transport}
use disk_tees.Shared.Messages.{ClientMsg}
use disk_tees.Client.State.{Client, call, prepend_path}
use disk_tees.Client.Calls.Common.{FuseFileInfo, make_lite, replicate, or_errno}

-- The one buffer of memory of a `fuse_bufvec`: `buf[idx].mem`, `off`, and `fuse_buf_size`.
pub record FuseBufvec : Type 0 where
  pub mem : Bytes
  pub off : ℕ
  pub size : ℕ

-- `mem.insert(mem.end(), bufStart, bufStart + bufSize - buf->off)`
pub buffer_bytes : FuseBufvec → Bytes
buffer_bytes buf = take (buf.size - buf.off) (drop buf.off buf.mem)

-- The time from `start` to `end` in whole microseconds, as an `int`.
unfoldable pub elapsed_micro_sec : ℕ → ℕ → ℤ
elapsed_micro_sec start end = narrow ((end - start) / 1000)

unfoldable pub running_mean : ℤ → ℤ → ℤ
running_mean mean elapsed = if mean ==ℤ minus_one then elapsed else halve (mean +ℤ elapsed)

-- The mean time of a write, with the two readings of the clock.
unfoldable pub measure_write : {W N : Type 0} → ℕ → ℕ → Client W N → Client W N
unfolding running_mean elapsed_micro_sec
measure_write start end c =
    if c.network && c.metrics_on
    then record c {
      mean_write_micro_sec = running_mean c.mean_write_micro_sec (elapsed_micro_sec start end);
    }
    else c

module _ {W N : Type 0} (os : Os W) (tls : Transport ClientMsg N) where
  -- `open`, `fi->fh = fd`, and the message that carries the new handle
  unfoldable pub client_create :
      Bytes → ℕ → FuseFileInfo → Client W N → ℤ × FuseFileInfo × Client W N
  unfolding call prepend_path
  client_create path mode fi c =
      let (ret, d) = call os (Syscall.open_mode (prepend_path c path) fi.flags mode) c in
      let opened = record fi { fh = widen ret.ret } in
      let (res, e) =
        or_errno tls (ret, d)
          (λ seq r.
            ClientMsg.create
              (record { seq = seq; r = r; path = path; mode = mode; fi = make_lite opened })) in
      (res, if ret.ret ==ℤ minus_one then fi else opened, e)

  unfoldable pub client_open : Bytes → FuseFileInfo → Client W N → ℤ × FuseFileInfo × Client W N
  unfolding call prepend_path
  client_open path fi c =
      let (ret, d) = call os (Syscall.open_file (prepend_path c path) fi.flags) c in
      let opened = record fi { fh = widen ret.ret } in
      let (res, e) =
        or_errno tls (ret, d)
          (λ seq r.
            ClientMsg.open_file
              (record { seq = seq; r = r; path = path; fi = make_lite opened })) in
      (res, if ret.ret ==ℤ minus_one then fi else opened, e)

  -- The replicas get the bytes before the local write is tried.
  unfoldable pub client_write_buf :
      ℕ → ℕ → FuseBufvec → ℤ → FuseFileInfo → Client W N → ℤ × Client W N
  unfolding call measure_write
  client_write_buf start end buf offset fi c =
      let sent =
        replicate tls
          (λ seq r. ClientMsg.write_buf (record {
            seq = seq;
            r = r;
            offset = offset;
            buf = buffer_bytes buf;
            fi = make_lite fi;
          }))
          c in
      let (ret, d) =
        call os (Syscall.fuse_buf_copy buf.mem buf.off buf.size (narrow fi.fh) offset)
          (measure_write start end sent) in
      (ret.ret, d)

  -- The result of `close` is not looked at.
  unfoldable pub client_release : FuseFileInfo → Client W N → ℤ × Client W N
  unfolding call
  client_release fi c =
      let (_, d) = call os (Syscall.close (narrow fi.fh)) c in
      (
        pos 0,
        replicate tls (λ seq r. ClientMsg.release (record { seq = seq; r = r; fi = make_lite fi }))
            d,
      )

  -- The replicas are told whether it succeeded here or not.
  unfoldable pub client_fallocate : ℤ → ℤ → FuseFileInfo → Client W N → ℤ × Client W N
  unfolding call
  client_fallocate offset length fi c =
      let (ret, d) = call os (Syscall.posix_fallocate (narrow fi.fh) offset length) c in
      (
        neg ret.ret,
        replicate tls
            (λ seq r.
              ClientMsg.fallocate
                (record { seq = seq; r = r; offset = offset; length = length; fi = make_lite fi }))
            d,
      )

  -- The call moves `off_in` and `off_out` on, and the message carries what it leaves in them.
  unfoldable pub client_copy_file_range :
      FuseFileInfo → ℤ → FuseFileInfo → ℤ → ℕ → ℤ → Client W N → ℤ × Client W N
  unfolding call
  client_copy_file_range fi_in off_in fi_out off_out len flags c =
      let (ret, d) =
        call os
          (Syscall.copy_file_range (narrow fi_in.fh) off_in (narrow fi_out.fh) off_out len flags)
          c in
      or_errno tls (ret, d)
        (λ seq r. ClientMsg.copy_file_range (record {
          seq = seq;
          r = r;
          fi_in = make_lite fi_in;
          off_in = ret.off_in;
          fi_out = make_lite fi_out;
          off_out = ret.off_out;
          len = len;
          flags = flags;
        }))
