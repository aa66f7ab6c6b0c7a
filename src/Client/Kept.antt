-- ===== src/Client/Kept.antt =====
-- client/client_fuse.cpp: what a property must survive to hold whatever calls a client serves and whatever messages it
-- hears, and that it then survives every history.
pub mod Sync
pub mod Histories
use disk_tees.Prelude.{
  All, All-intro, ℤ, minus_one, ◌==ℤ◌, ◌≡◌, inl, inr, ◌&&◌, ℕ, List, [], ◌∷◌, Bytes, arith,
  Bool-cases, Bool, true, false, if◌then◌else◌, neg, pos, ltb_ℤ, Outcome, ok, threw, exited,
  out_of_fuel, undefined, Leaves, Leaves-if,
}
use disk_tees.Shared.Ballot.{Ballot}
use disk_tees.Shared.Os.{Os, Ret, Syscall}
use disk_tees.Shared.Convert.{narrow}
use disk_tees.Shared.Transport.{Transport}
use disk_tees.Shared.Messages.{ClientMsg, ReplicaMsg}
use disk_tees.Shared.Messages.Kind.{get_client_msg_type, get_seq, get_ballot, ClientMsgType}
use disk_tees.Client.State.{Client, call}
use disk_tees.Client.Receive.{receive, run_event_loop_once}
use disk_tees.Client.Calls.Common.{FuseFileInfo, replicate, or_errno}
use disk_tees.Client.Calls.Paths.{
  client_mknod, client_mkdir, client_symlink, client_unlink, client_rmdir, client_rename,
  client_link, client_setxattr, client_removexattr, client_chmod, client_chown, client_truncate,
  client_utimens,
}
use disk_tees.Client.Calls.Files.{
  client_create, client_open, measure_write, client_write_buf, client_release, client_fallocate,
  client_copy_file_range,
}
use disk_tees.Client.Calls.Fsync.{
  Rounds, wait_committed, broadcast_fsync, measure_fsync, client_fsync,
}
use disk_tees.Client.Trace.{Call, asked, hear_all, perform_fsync, perform, perform_all}

-- A message made of a number and a ballot that is a write, and carries both.
pub record IsWrite (msg : ℤ → Ballot → ClientMsg) : Type 0 where
  pub seq : (n : ℤ) (r : Ballot) → get_seq (msg n r) ≡ n
  pub ballot : (n : ℤ) (r : Ballot) → get_ballot (msg n r) ≡ r
  pub kind : (n : ℤ) (r : Ballot) → get_client_msg_type (msg n r) ≡ ClientMsgType.write

-- `H` holds of the messages of a history.
abbrev pub AllowedIn : (Bytes × ReplicaMsg → Type 0) → Call → Type 0
AllowedIn H (Call.messages ms) = All H ms
AllowedIn H (Call.fsync isdatasync fi start end rounds) = All (All H) rounds
AllowedIn H other = Unit

abbrev pub Allowed : (Bytes × ReplicaMsg → Type 0) → List Call → Type 0
Allowed H xs = All (AllowedIn H) xs

pub any-Allowed :
    (H : Bytes × ReplicaMsg → Type 0)
    → ((m : Bytes × ReplicaMsg) → H m)
    → (xs : List Call) → Allowed H xs
any-Allowed H h [] = tt
any-Allowed H h (Call.messages ms ∷ xs) = (All-intro H h ms, any-Allowed H h xs)
any-Allowed H h (Call.fsync isdatasync fi start end rounds ∷ xs) =
    (All-intro (All H) (λ ms. All-intro H h ms) rounds, any-Allowed H h xs)
any-Allowed H h (other ∷ xs) = (tt, any-Allowed H h xs)

-- `P` holds on through each change that a history makes of the client, where `H` holds of each message that it hears.
pub record IsKept {W N : Type 0} (tls : Transport ClientMsg N) (H : Bytes × ReplicaMsg → Type 0)
    (P : Client W N → Type 0) : Type 0 where
  pub called : (c : Client W N) (w : W) → P c → P (record c { world = w })
  pub measured : (c : Client W N) (n : ℤ) → P c → P (record c { mean_write_micro_sec = n })
  pub waited : (c : Client W N) (n : ℤ) → P c → P (record c { mean_fsync_wait_micro_sec = n })
  pub synced : (fi : FuseFileInfo) (c : Client W N) → P c → P (broadcast_fsync tls fi c)
  pub replicated :
      (msg : ℤ → Ballot → ClientMsg) (c : Client W N) → IsWrite msg → P c → P (replicate tls msg c)
  pub heard : (m : Bytes × ReplicaMsg) (c : Client W N) → H m → P c → P (receive tls m c)

module _ {W N : Type 0} (tls : Transport ClientMsg N) (H : Bytes × ReplicaMsg → Type 0)
    (P : Client W N → Type 0) (k : IsKept tls H P) where
  -- A call that fails sends nothing, and one that succeeds its message.
  pub call-Kept :
      (msg : ℤ → Ballot → ClientMsg) (ret : Ret) (w : W) (c : Client W N)
      → P c
      → IsWrite msg
      → P (or_errno tls (ret, record c { world = w }) msg).1
  unfolding or_errno
  call-Kept msg ret w c v i = elim (Bool-cases (ret.ret ==ℤ minus_one)) [
    | inl failed ↦ rw failed (k.called c w v)
    | inr done ↦ rw done (k.replicated msg (record c { world = w }) i (k.called c w v))
  ]

  pub measure_write-Kept : (start end : ℕ) (c : Client W N) → P c → P (measure_write start end c)
  unfolding measure_write
  measure_write-Kept start end c v = elim (Bool-cases (c.network && c.metrics_on)) [
    | inl on ↦ simp on (k.measured c _ v)
    | inr off ↦ simp off v
  ]

  pub run_event_loop_once-Kept :
      (ms : List (Bytes × ReplicaMsg)) (c : Client W N)
      → All H ms
      → P c
      → P (run_event_loop_once tls ms c)
  unfolding run_event_loop_once
  run_event_loop_once-Kept [] c h v = v
  run_event_loop_once-Kept (m ∷ ms) c (h, hs) v =
      run_event_loop_once-Kept ms (receive tls m c) hs (k.heard m c h v)
