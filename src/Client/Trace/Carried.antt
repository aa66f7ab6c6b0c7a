-- ===== src/Client/Trace/Carried.antt =====
-- client/client_fuse.cpp: what a client does to its connections.
use disk_tees.Prelude.{
  ℤ, pos, minus_one, ◌+ℤ◌, ◌≡◌, refl, sym, ap, ◌∙◌, inl, inr, Bool, List, [], Bytes, Bool-cases,
}
use disk_tees.Shared.Ballot.{Ballot}
use disk_tees.Shared.NetworkConfig.{Addresses}
use disk_tees.Shared.Os.{Os}
use disk_tees.Shared.Transport.{Transport, IsTransport, broadcast_all, broadcast_all-snoc}
use disk_tees.Shared.Messages.{ClientMsg, ReplicaMsg}
use disk_tees.Shared.Messages.Stream.{IsStream, IsNextWrite, IsSync, write-IsStream, sync-IsStream}
use disk_tees.Client.State.{Client, new_client}
use disk_tees.Client.Receive.{receive}
use disk_tees.Client.Calls.Common.{FuseFileInfo, make_lite, replicate}
use disk_tees.Client.Calls.Fsync.{broadcast_fsync}
use disk_tees.Client.Trace.{Call, perform_all}
use disk_tees.Client.Trace.Writes.{messages_of, messages_of-broadcast}
use disk_tees.Client.Kept.{IsWrite, IsKept, any-Allowed}
use disk_tees.Client.Kept.Histories.{perform_all-Kept}
use disk_tees.Client.Steady.{receive-Steady}

module _ {W N : Type 0} (tls : Transport ClientMsg N) (h : IsTransport tls) (b : Ballot) (base : ℤ)
    (rs : Addresses) (n0 : N) where
  -- What was broadcast is a stream up to `written`, and nothing else was done to the connections.
  record IsCarried (c : Client W N) : Type 0 where
    kept : c.uncommitted_writes ≡ []
    mine : c.r ≡ b
    to : c.replicas ≡ rs
    stream : IsStream b base (messages_of (tls.broadcasts c.net)) c.written
    carried : c.net ≡ broadcast_all tls (messages_of (tls.broadcasts c.net)) rs n0

  heard_lem : (m : Bytes × ReplicaMsg) (c : Client W N) → IsCarried c → IsCarried (receive tls m c)
  heard_lem m c v =
      let s = receive-Steady tls m c v.kept in
      record {
        kept = s.kept;
        mine = s.ballot_same ∙ v.mine;
        to = s.replicas_same ∙ v.to;
        stream = rw (s.net_same, s.written) (v.stream);
        carried = rw (s.net_same) (v.carried);
      }

  -- One more broadcast to the replicas.
  one_more :
      (m : ClientMsg) (c : Client W N)
      → IsCarried c
      → tls.broadcast m c.replicas c.net
        ≡ broadcast_all tls (messages_of (tls.broadcasts (tls.broadcast m c.replicas c.net))) rs n0
  one_more m c v =
      ap (λ ds. tls.broadcast m ds c.net) v.to
      ∙ ap (tls.broadcast m rs) v.carried
      ∙ sym (broadcast_all-snoc tls (messages_of (tls.broadcasts c.net)) m rs n0)
      ∙ ap (λ ms. broadcast_all tls ms rs n0) (sym (messages_of-broadcast tls h m c.replicas c.net))

  replicated_lem :
      (msg : ℤ → Ballot → ClientMsg) (c : Client W N)
      → IsWrite msg
      → IsCarried c
      → IsCarried (replicate tls msg c)
  unfolding replicate
  replicated_lem msg c i v = elim (Bool-cases c.network) [
    | inr off ↦
        rw off (record {
          kept = v.kept;
          mine = v.mine;
          to = v.to;
          stream = v.stream;
          carried = v.carried;
        })
    | inl on ↦
        let m = msg (c.written +ℤ pos 1) c.r in
        let next : IsNextWrite b c.written m = record {
          kind = i.kind _ c.r;
          seq = i.seq _ c.r;
          ballot = i.ballot _ c.r ∙ v.mine;
        } in
        rw on (record {
          kept = v.kept;
          mine = v.mine;
          to = v.to;
          stream =
              rw (messages_of-broadcast tls h m c.replicas c.net)
                (write-IsStream b base c.written _ m v.stream next);
          carried = one_more m c v;
        })
  ]

  synced_lem :
      (fi : FuseFileInfo) (c : Client W N) → IsCarried c → IsCarried (broadcast_fsync tls fi c)
  unfolding broadcast_fsync IsSync
  synced_lem fi c v =
      let m = ClientMsg.fsync (record { seq = c.written; r = c.r; fi = make_lite fi }) in
      let sync : IsSync b c.written m = (make_lite fi, rw (v.mine) refl) in
      record {
        kept = v.kept;
        mine = v.mine;
        to = v.to;
        stream =
            rw (messages_of-broadcast tls h m c.replicas c.net)
              (sync-IsStream b base c.written _ m v.stream sync);
        carried = one_more m c v;
      }

  same :
      (c d : Client W N)
      → d.uncommitted_writes ≡ c.uncommitted_writes
      → d.r ≡ c.r
      → d.replicas ≡ c.replicas
      → d.net ≡ c.net
      → d.written ≡ c.written
      → IsCarried c
      → IsCarried d
  same c d k r to n w v = record {
    kept = k ∙ v.kept;
    mine = r ∙ v.mine;
    to = to ∙ v.to;
    stream = rw (n, w) (v.stream);
    carried = rw n (v.carried);
  }

  IsCarried-IsKept : IsKept tls (λ m. Unit) IsCarried
  IsCarried-IsKept = record {
    called = λ c w v. same c _ refl refl refl refl refl v;
    measured = λ c n v. same c _ refl refl refl refl refl v;
    waited = λ c n v. same c _ refl refl refl refl refl v;
    synced = synced_lem;
    replicated = replicated_lem;
    heard = λ m c h v. heard_lem m c v;
  }

-- Whatever calls of `Call` a new client with no broadcast behind it has served, fsyncs among them, and whatever
-- messages it has heard, what it has done to its connections is to broadcast messages, one after the other, to its
-- replicas: writes of its ballot numbered 0, 1, 2, … up to `written` without a gap, and in between fsyncs, each with
-- the number of the last write before it.
pub broadcasts_only :
    {W N : Type 0} (os : Os W) (tls : Transport ClientMsg N)
    → IsTransport tls
    → (network metrics_on : Bool) (r : Ballot) (redirect_point : Bytes) (quorum : ℤ)
      (replicas : Addresses) (w : W) (n : N) (ks : List Call)
    → tls.broadcasts n ≡ []
    → let c =
        perform_all os tls ks
          (new_client network metrics_on r redirect_point quorum replicas w n) in
      (c.net ≡ broadcast_all tls (messages_of (tls.broadcasts c.net)) replicas n)
      × IsStream r minus_one (messages_of (tls.broadcasts c.net)) c.written
unfolding new_client broadcast_all IsStream
broadcasts_only os tls h network metrics_on r redirect_point quorum replicas w n ks none_sent =
    let v =
      perform_all-Kept tls _ _ (IsCarried-IsKept tls h r minus_one replicas n) os ks
        (new_client network metrics_on r redirect_point quorum replicas w n)
        (any-Allowed _ (λ m. tt) ks)
        (record {
          kept = refl;
          mine = refl;
          to = refl;
          stream = rw none_sent refl;
          carried = rw none_sent refl;
        }) in
    (v.carried, v.stream)
