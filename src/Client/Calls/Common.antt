-- ===== src/Client/Calls/Common.antt =====
-- What the FUSE calls of client/client_fuse.cpp have in common.
use disk_tees.Prelude.{
  ℕ, ℤ, pos, minus_one, ◌+ℤ◌, ◌==ℤ◌, neg, Bool, true, false, Option, none, some, Bytes, [],
  if◌then◌else◌,
}
use disk_tees.Shared.Convert.{narrow}
use disk_tees.Shared.Ballot.{Ballot}
use disk_tees.Shared.Os.{Syscall, Ret}
use disk_tees.Shared.Transport.{Transport}
use disk_tees.Shared.Messages.{ClientMsg, FuseFileInfoLite}
use disk_tees.Client.State.{Client}

-- libfuse's `fuse_file_info`: the fields that the source reads or writes.
pub record FuseFileInfo : Type 0 where
  pub flags : ℤ
  pub fh : ℕ

unfoldable pub make_lite : FuseFileInfo → FuseFileInfoLite
make_lite fi = record { flags = fi.flags; fh = fi.fh }

-- `hasFi ? make_lite(fi) : fuse_file_info_lite()`
unfoldable pub lite_or_empty : Option FuseFileInfo → FuseFileInfoLite
unfolding make_lite
lite_or_empty none = record { flags = pos 0; fh = 0 }
lite_or_empty (some fi) = make_lite fi

abbrev pub has_fi : Option FuseFileInfo → Bool
has_fi none = false
has_fi (some fi) = true

-- `hasFi ? "" : std::string(path)`
unfoldable pub path_unless : Option FuseFileInfo → Bytes → Bytes
path_unless none path = path
path_unless (some fi) path = []

-- The call that takes a handle if there is one, and a path otherwise.
unfoldable pub by_handle : Option FuseFileInfo → (ℤ → Syscall) → Syscall → Syscall
by_handle none on_fd on_path = on_path
by_handle (some fi) on_fd on_path = on_fd (narrow fi.fh)

module _ {W N : Type 0} (tls : Transport ClientMsg N) where
  -- `if (network) { written += 1; replicaTLS->broadcast<clientMsg>(…, replicas); }`, where the message is
  -- made of the new `written` and of `r`
  unfoldable pub replicate : (ℤ → Ballot → ClientMsg) → Client W N → Client W N
  replicate msg c =
      if c.network
      then record c {
        written = c.written +ℤ pos 1;
        net = tls.broadcast (msg (c.written +ℤ pos 1) c.r) c.replicas c.net;
      }
      else c

  -- `if (res == -1) return -errno;`, then replicate and return 0
  unfoldable pub or_errno : Ret × Client W N → (ℤ → Ballot → ClientMsg) → ℤ × Client W N
  or_errno (ret, c) msg =
      if ret.ret ==ℤ minus_one then (neg ret.errno, c) else (pos 0, replicate msg c)
