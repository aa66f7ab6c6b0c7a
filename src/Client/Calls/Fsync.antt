-- ===== src/Client/Calls/Fsync.antt =====
-- client/client_fuse.cpp: `client_fsync`, which blocks until a quorum has acknowledged.
use disk_tees.Prelude.{
  ℕ, ℤ, pos, minus_one, ◌==ℤ◌, ltb_ℤ, neg, Bool, List, [], ◌∷◌, Bytes, Outcome, ok, out_of_fuel,
  if◌then◌else◌,
}
use disk_tees.Shared.Convert.{narrow}
use disk_tees.Shared.Os.{Os, Syscall}
use disk_tees.Shared.Transport.{Transport}
use disk_tees.Shared.Messages.{ClientMsg, ReplicaMsg}
use disk_tees.Client.State.{Client, call}
use disk_tees.Client.Receive.{run_event_loop_once}
use disk_tees.Client.Calls.Common.{FuseFileInfo, make_lite}
use disk_tees.Client.Calls.Files.{running_mean, elapsed_micro_sec}

-- The messages that the rounds of the event loop find, one list for each call of `runEventLoopOnce`.
abbrev pub Rounds : Type 0
Rounds = List (List (Bytes × ReplicaMsg))

module _ {W N : Type 0} (tls : Transport ClientMsg N) where
  -- `while (replicasCommitted < written) replicaTLS->runEventLoopOnce(-1);` It blocks for as long as no
  -- more messages come: the rounds are the fuel.
  unfoldable pub wait_committed : Rounds → Client W N → Outcome (Client W N)
  unfolding run_event_loop_once
  wait_committed [] c = if ltb_ℤ c.replicas_committed c.written then out_of_fuel else ok c
  wait_committed (msgs ∷ rounds) c =
      let rest = wait_committed rounds (run_event_loop_once tls msgs c) in
      if ltb_ℤ c.replicas_committed c.written then rest else ok c

  -- An fsync does not increase `written`.
  unfoldable pub broadcast_fsync : FuseFileInfo → Client W N → Client W N
  unfolding make_lite
  broadcast_fsync fi c = record c {
    net =
        tls.broadcast (ClientMsg.fsync (record { seq = c.written; r = c.r; fi = make_lite fi }))
          c.replicas c.net;
  }

unfoldable pub measure_fsync : {W N : Type 0} → ℕ → ℕ → Client W N → Client W N
unfolding running_mean elapsed_micro_sec
measure_fsync start end c =
    if c.metrics_on
    then record c {
      mean_fsync_wait_micro_sec =
          running_mean c.mean_fsync_wait_micro_sec (elapsed_micro_sec start end);
    }
    else c

module _ {W N : Type 0} (os : Os W) (tls : Transport ClientMsg N) where
  unfoldable pub client_fsync :
      Bool → FuseFileInfo → (start end : ℕ) → Rounds → Client W N → Outcome (ℤ × Client W N)
  unfolding call wait_committed broadcast_fsync measure_fsync
  client_fsync isdatasync fi start end rounds c =
      let (ret, d) =
        call os
          (if isdatasync then Syscall.fdatasync (narrow fi.fh) else Syscall.fsync (narrow fi.fh))
          c in
      if ret.ret ==ℤ minus_one
      then ok (neg ret.errno, d)
      else if d.network
      then (elim (wait_committed tls rounds (broadcast_fsync tls fi d)) [
        | ok e ↦ ok (pos 0, measure_fsync start end e)
        | _ ↦ out_of_fuel
      ])
      else ok (pos 0, d)
