-- ===== src/Client/Durable.antt =====
-- client/client_fuse.cpp: what fsync promises, against what the replicas have acknowledged.
use disk_tees.Prelude.{
  ℕ, ℤ, pos, map, ◌++◌, ◌≤ℤ◌, ◌≡◌, refl, inl, true, Bool, List, Bytes, arith, ok,
}
use disk_tees.Shared.Ballot.{Ballot}
use disk_tees.Shared.NetworkConfig.{Addresses}
use disk_tees.Shared.Os.{Os}
use disk_tees.Shared.Transport.{Transport}
use disk_tees.Shared.Messages.{ClientMsg}
use disk_tees.Client.State.{Client, new_client}
use disk_tees.Client.Calls.Common.{FuseFileInfo}
use disk_tees.Client.Trace.{Call, asked, perform_all}
use disk_tees.Client.Kept.Histories.{perform_all-Kept}
use disk_tees.Client.Waiting.{IsFine, fsync_ends, fsync_waits}
use disk_tees.Client.Calls.Fsync.{Rounds, broadcast_fsync, client_fsync}
use disk_tees.Client.Reports.{
  IsSorted, Acked, IsBacked, Acked-before, Acked-behind, Says, all-Allowed, rounds-All,
}
use disk_tees.Client.Backed.{Backed, same-Backed, Backed-IsKept, wait-Backed}

module _ {W N : Type 0} (os : Os W) (tls : Transport ClientMsg N) (network metrics_on : Bool)
    (r : Ballot) (redirect_point : Bytes) (quorum : ℤ) (replicas : Addresses) (w : W) (n : N) where
  history-Backed :
      (Q : ℤ → ℤ → Type 0) (ks : List Call)
      → ((id x : ℤ) → Acked ks id x → Q id x)
      → Backed Q quorum (
          perform_all os tls ks
            (new_client network metrics_on r redirect_point quorum replicas w n))
  unfolding new_client IsBacked IsSorted
  history-Backed Q ks h =
      perform_all-Kept tls (Says Q) (Backed Q quorum) (Backed-IsKept Q quorum tls) os ks
        (new_client network metrics_on r redirect_point quorum replicas w n) (all-Allowed Q ks h)
        (record {
          kept = refl;
          needs = refl;
          natural = omega arith;
          report = record { sorted = tt; acked = tt };
          backed = inl refl;
        })

  -- Whatever calls of `Call` a new client has served and whatever messages it has heard, it takes nothing for
  -- committed, or a number such that each of a quorum of different replicas has acknowledged it or a higher one.
  pub commits-IsBacked :
      (ks : List Call)
      → IsBacked
          (Acked ks)
          quorum
          (perform_all os tls ks
            (new_client network metrics_on r redirect_point quorum replicas w n)).replicas_committed
  commits-IsBacked ks = (history-Backed (Acked ks) ks (λ id x h. h)).backed

  -- Where a client has served any calls of `Call`, earlier fsyncs among them, and heard any messages since it was
  -- constructed with the network, a `client_fsync` that returns, and whose local fsync does not fail, returns 0, and
  -- what was written before is not above a number that is 0, or that each of a quorum of different replicas has
  -- acknowledged or a higher one, before the call or while it waited.
  pub fsync-IsBacked :
      (ks : List Call) (isdatasync : Bool) (fi : FuseFileInfo) (start end : ℕ) (rounds : Rounds)
      → let c =
          perform_all os tls ks
            (new_client network metrics_on r redirect_point quorum replicas w n) in
        c.network ≡ true
        → IsFine os tls isdatasync fi c
        → (result : ℤ) (d : Client W N)
        → client_fsync os tls isdatasync fi start end rounds c ≡ ok (result, d)
        → (result ≡ pos 0)
          × (c.written ≤ℤ d.replicas_committed)
          × IsBacked (Acked (ks ++ map Call.messages rounds)) quorum d.replicas_committed
  unfolding broadcast_fsync asked
  fsync-IsBacked ks isdatasync fi start end rounds on fine result d e =
      let c =
        perform_all os tls ks
          (new_client network metrics_on r redirect_point quorum replicas w n) in
      let Q = Acked (ks ++ map Call.messages rounds) in
      let v = history-Backed Q ks (λ id x h. Acked-before ks (map Call.messages rounds) id x h) in
      let (f, waited, zero, _, committed) =
        fsync_ends os tls isdatasync fi start end rounds c on fine result d e in
      let u =
        wait-Backed Q quorum tls rounds (asked os tls isdatasync fi c) f
          (rounds-All Q rounds (λ id x h. Acked-behind ks (map Call.messages rounds) id x h)) waited
          (same-Backed Q quorum c (asked os tls isdatasync fi c) refl refl refl refl v) in
      let (_, _, all, _) =
        fsync_waits os tls isdatasync fi start end rounds c on v.kept fine result d e in
      (zero, all, rw committed (u.backed))
