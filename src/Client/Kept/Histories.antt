-- ===== src/Client/Kept/Histories.antt =====
-- client/client_fuse.cpp: a property that survives each change of a client survives every history.
use disk_tees.Prelude.{List, [], ◌∷◌, Bytes, arith}
use disk_tees.Shared.Os.{Os}
use disk_tees.Shared.Transport.{Transport}
use disk_tees.Shared.Messages.{ClientMsg, ReplicaMsg}
use disk_tees.Shared.Messages.Kind.{get_client_msg_type, get_seq, get_ballot}
use disk_tees.Client.State.{Client, call}
use disk_tees.Client.Calls.Paths.{
  client_mknod, client_mkdir, client_symlink, client_unlink, client_rmdir, client_rename,
  client_link, client_setxattr, client_removexattr, client_chmod, client_chown, client_truncate,
  client_utimens,
}
use disk_tees.Client.Calls.Files.{
  client_create, client_open, client_write_buf, client_release, client_fallocate,
  client_copy_file_range,
}
use disk_tees.Client.Trace.{Call, perform, perform_all}
use disk_tees.Client.Kept.{
  IsKept, Allowed, AllowedIn, call-Kept, measure_write-Kept, run_event_loop_once-Kept,
}
use disk_tees.Client.Kept.Sync.{perform_fsync-Kept}

module _ {W N : Type 0} (tls : Transport ClientMsg N) (H : Bytes × ReplicaMsg → Type 0)
    (P : Client W N → Type 0) (k : IsKept tls H P) where
  perform-Kept :
      (os : Os W) (x : Call) (c : Client W N) → AllowedIn H x → P c → P (perform os tls x c)
  unfolding perform client_mknod client_mkdir client_symlink client_unlink client_rmdir
      client_rename client_link client_setxattr client_removexattr client_chmod client_chown
      client_truncate client_utimens client_create client_open client_write_buf client_release
      client_fallocate client_copy_file_range call get_seq get_ballot get_client_msg_type
  perform-Kept os (Call.mknod path mode rdev) c h v = call-Kept tls H P k _ _ _ c v (ground arith)
  perform-Kept os (Call.mkdir path mode) c h v = call-Kept tls H P k _ _ _ c v (ground arith)
  perform-Kept os (Call.symlink target linkpath) c h v =
      call-Kept tls H P k _ _ _ c v (ground arith)
  perform-Kept os (Call.unlink path) c h v = call-Kept tls H P k _ _ _ c v (ground arith)
  perform-Kept os (Call.rmdir path) c h v = call-Kept tls H P k _ _ _ c v (ground arith)
  perform-Kept os (Call.rename oldpath newpath flags) c h v =
      call-Kept tls H P k _ _ _ c v (ground arith)
  perform-Kept os (Call.link oldpath newpath) c h v = call-Kept tls H P k _ _ _ c v (ground arith)
  perform-Kept os (Call.setxattr path name value flags) c h v =
      call-Kept tls H P k _ _ _ c v (ground arith)
  perform-Kept os (Call.removexattr path name) c h v = call-Kept tls H P k _ _ _ c v (ground arith)
  perform-Kept os (Call.chmod path mode fi) c h v = call-Kept tls H P k _ _ _ c v (ground arith)
  perform-Kept os (Call.chown path uid gid fi) c h v = call-Kept tls H P k _ _ _ c v (ground arith)
  perform-Kept os (Call.truncate path size fi) c h v = call-Kept tls H P k _ _ _ c v (ground arith)
  perform-Kept os (Call.utimens path tv0 tv1 fi) c h v =
      call-Kept tls H P k _ _ _ c v (ground arith)
  perform-Kept os (Call.create path mode fi) c h v = call-Kept tls H P k _ _ _ c v (ground arith)
  perform-Kept os (Call.open_file path fi) c h v = call-Kept tls H P k _ _ _ c v (ground arith)
  perform-Kept os (Call.copy_file_range fi_in off_in fi_out off_out len flags) c h v =
      call-Kept tls H P k _ _ _ c v (ground arith)
  perform-Kept os (Call.write_buf start end buf offset fi) c h v =
      k.called _ _ (measure_write-Kept tls H P k start end _ (k.replicated _ c (ground arith) v))
  perform-Kept os (Call.release fi) c h v = k.replicated _ _ (ground arith) (k.called c _ v)
  perform-Kept os (Call.fallocate offset length fi) c h v =
      k.replicated _ _ (ground arith) (k.called c _ v)
  perform-Kept os (Call.fsync isdatasync fi start end rounds) c h v =
      perform_fsync-Kept tls H P k os isdatasync fi start end rounds c h v
  perform-Kept os (Call.messages ms) c h v = run_event_loop_once-Kept tls H P k ms c h v

  pub perform_all-Kept :
      (os : Os W) (xs : List Call) (c : Client W N)
      → Allowed H xs
      → P c
      → P (perform_all os tls xs c)
  unfolding perform_all
  perform_all-Kept os [] c h v = v
  perform_all-Kept os (x ∷ xs) c (h, hs) v =
      perform_all-Kept os xs (perform os tls x c) hs (perform-Kept os x c h v)
