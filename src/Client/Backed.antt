-- ===== src/Client/Backed.antt =====
-- client/client_fuse.cpp: what a client takes for committed, against what it has heard.
use disk_tees.Prelude.{
  ℤ, pos, ◌≤ℤ◌, ltb_ℤ, ◌≡◌, refl, sym, ◌∙◌, inl, inr, [], ◌∷◌, Bytes, All, arith, Bool-cases, ok,
}
use disk_tees.Shared.Ballot.{Ballot}
use disk_tees.Shared.IntMap.{put}
use disk_tees.Shared.Transport.{Transport}
use disk_tees.Shared.Messages.{
  ClientMsg, ReplicaMsg, FsyncAck, p1b, disk, p2b, fsync_missing, fsync_ack,
}
use disk_tees.Client.State.{Client}
use disk_tees.Client.Receive.{
  on_p1b, on_disk, on_p2b, on_fsync_ack, on_fsync_missing, visit, settle, receive,
  run_event_loop_once,
}
use disk_tees.Client.Calls.Common.{replicate}
use disk_tees.Client.Kept.{IsWrite, IsKept, run_event_loop_once-Kept}
use disk_tees.Client.Acks.{on_fsync_ack_commits}
use disk_tees.Client.Steady.{resend_none}
use disk_tees.Client.Calls.Fsync.{Rounds, wait_committed, broadcast_fsync}
use disk_tees.Client.Reports.{
  All-put_entry, put-IsSorted, IsReport, IsBacked, report-IsBacked, Says,
}

module _ {W N : Type 0} (Q : ℤ → ℤ → Type 0) (quorum : ℤ) where
  pub record Backed (c : Client W N) : Type 0 where
    pub kept : c.uncommitted_writes ≡ []
    pub needs : c.quorum ≡ quorum
    pub natural : pos 0 ≤ℤ c.replicas_committed
    pub report : IsReport Q c.replica_written
    pub backed : IsBacked Q quorum c.replicas_committed

  -- A state that differs in nothing of this.
  pub same-Backed :
      (c d : Client W N)
      → d.uncommitted_writes ≡ c.uncommitted_writes
      → d.quorum ≡ c.quorum
      → d.replicas_committed ≡ c.replicas_committed
      → d.replica_written ≡ c.replica_written
      → Backed c
      → Backed d
  same-Backed c d e1 e2 e3 e4 v = record {
    kept = e1 ∙ v.kept;
    needs = e2 ∙ v.needs;
    natural = rw e3 (v.natural);
    report = rw e4 (v.report);
    backed = rw e3 (v.backed);
  }

  ack-kept :
      (a : FsyncAck) (c : Client W N)
      → c.uncommitted_writes ≡ []
      → (on_fsync_ack a c).uncommitted_writes ≡ []
  unfolding on_fsync_ack
  ack-kept a c h = ground arith

  ack-quorum : (a : FsyncAck) (c : Client W N) → (on_fsync_ack a c).quorum ≡ c.quorum
  unfolding on_fsync_ack
  ack-quorum a c = ground arith

  ack-Backed :
      (a : FsyncAck) (c : Client W N) → Q a.id a.written → Backed c → Backed (on_fsync_ack a c)
  ack-Backed a c q v =
      let (entries, grows, commits, _, _) = on_fsync_ack_commits a c v.natural in
      let all = put a.id a.written c.replica_written in
      let report : IsReport Q all = record {
        sorted = put-IsSorted a.id a.written c.replica_written v.report.sorted;
        acked = All-put_entry (λ e. Q e.0 e.1) a.id a.written c.replica_written q v.report.acked;
      } in
      record {
        kept = ack-kept a c v.kept;
        needs = ack-quorum a c ∙ v.needs;
        natural = omega (arith, v.natural, grows);
        report = rw entries report;
        backed = elim commits [
          | inl same ↦ rw same (v.backed)
          | inr (enough, _) ↦ report-IsBacked Q _ _ _ _ _ v.needs entries report enough
        ];
      }

  module _ (tls : Transport ClientMsg N) where
    visit-Backed :
        (addr : Bytes) (m : ReplicaMsg) (c : Client W N)
        → Says Q (addr, m)
        → Backed c
        → (d : Client W N) × (visit tls m c ≡ ok d) × Backed d
    unfolding visit on_p1b on_disk on_p2b on_fsync_missing Says
    visit-Backed addr (p1b msg) c h v =
        (_, refl, same-Backed c _ (ground arith) (ground arith) (ground arith) (ground arith) v)
    visit-Backed addr (disk msg) c h v =
        (_, refl, same-Backed c _ (ground arith) (ground arith) (ground arith) (ground arith) v)
    visit-Backed addr (p2b msg) c h v =
        (_, refl, same-Backed c _ (ground arith) (ground arith) (ground arith) (ground arith) v)
    visit-Backed addr (fsync_missing msg) c h v = (c, resend_none tls msg.holes c v.kept, v)
    visit-Backed addr (fsync_ack msg) c h v = (_, refl, ack-Backed msg c h v)

    receive-Backed :
        (m : Bytes × ReplicaMsg) (c : Client W N) → Says Q m → Backed c → Backed (receive tls m c)
    unfolding receive settle
    receive-Backed (addr, msg) c h v =
        let b = same-Backed c (record c { sender = addr }) refl refl refl refl v in
        let (d, e, u) = visit-Backed addr msg (record c { sender = addr }) h b in rw e u

    replicate-Backed :
        (msg : ℤ → Ballot → ClientMsg) (c : Client W N)
        → IsWrite msg
        → Backed c
        → Backed (replicate tls msg c)
    unfolding replicate
    replicate-Backed msg c i v =
        same-Backed c _ (ground arith) (ground arith) (ground arith) (ground arith) v

    pub Backed-IsKept : IsKept tls (Says Q) Backed
    unfolding broadcast_fsync
    Backed-IsKept = record {
      called = λ c w v. same-Backed c _ refl refl refl refl v;
      measured = λ c n v. same-Backed c _ refl refl refl refl v;
      waited = λ c n v. same-Backed c _ refl refl refl refl v;
      synced = λ fi c v. same-Backed c (broadcast_fsync tls fi c) refl refl refl refl v;
      replicated = replicate-Backed;
      heard = receive-Backed;
    }

    pub wait-Backed :
        (rounds : Rounds) (c d : Client W N)
        → All (All (Says Q)) rounds
        → wait_committed tls rounds c ≡ ok d
        → Backed c
        → Backed d
    unfolding wait_committed
    wait-Backed [] c d hs e v = let same : c ≡ d = ground arith in rw (sym same) v
    wait-Backed (ms ∷ rounds) c d (h, hs) e v =
        elim (Bool-cases (ltb_ℤ c.replicas_committed c.written)) [
          | inl more ↦
              wait-Backed rounds (run_event_loop_once tls ms c) d hs (rw more at e)
                (run_event_loop_once-Kept tls (Says Q) Backed Backed-IsKept ms c h v)
          | inr done ↦ let same : c ≡ d = ground arith in rw (sym same) v
        ]
