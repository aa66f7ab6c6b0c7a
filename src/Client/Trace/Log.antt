-- ===== src/Client/Trace/Log.antt =====
-- The writes that the client broadcasts make a log: one ballot, numbered without a gap.
use disk_tees.Prelude.{
  suc, ℤ, pos, minus_one, ◌+ℤ◌, ◌≡◌, refl, sym, ap, ◌∙◌, inl, inr, Bool, true, Option, none, some,
  List, [], ◌∷◌, ◌++◌, Bytes, Outcome, ok, threw, exited, out_of_fuel, undefined, length, arith,
  +ℤ-suc, +ℤ-zero, length-append, Bool-cases, Leaves, Leaves-map, Leaves-intro, >>=-Leaves, Leaves,
}
use disk_tees.Shared.Ballot.{Ballot}
use disk_tees.Shared.NetworkConfig.{Addresses}
use disk_tees.Shared.IntMap.{find}
use disk_tees.Shared.Os.{Os}
use disk_tees.Shared.Transport.{Transport, IsTransport}
use disk_tees.Shared.Messages.{ClientMsg, ReplicaMsg, p1b, disk, p2b, fsync_missing, fsync_ack}
use disk_tees.Replica.Replay.{IsLog}
use disk_tees.Client.State.{Client, new_client}
use disk_tees.Client.Receive.{
  on_p1b, on_disk, on_p2b, on_fsync_ack, on_fsync_missing, resend_one, resend, visit, settle,
  receive,
}
use disk_tees.Client.Calls.Common.{FuseFileInfo, make_lite, replicate}
use disk_tees.Client.Calls.Fsync.{broadcast_fsync}
use disk_tees.Client.Trace.{Call, perform_all}
use disk_tees.Client.Kept.{IsWrite, IsKept, any-Allowed}
use disk_tees.Client.Kept.Histories.{perform_all-Kept}
use disk_tees.Client.Trace.Writes.{
  writes_of, IsLog-snoc, empty-IsLog, writes_of-broadcast, writes_of-fsync,
}

module _ {W N : Type 0} (tls : Transport ClientMsg N) (laws : IsTransport tls) (b : Ballot)
    (base : ℤ) where
  pub sent_writes : Client W N → List ClientMsg
  unfolding writes_of
  sent_writes c = writes_of (tls.broadcasts c.net)

  -- What the client of ballot `b` has broadcast is a log of it behind `base`, up to `written`.
  pub record IsSent (c : Client W N) : Type 0 where
    pub mine : c.r ≡ b
    pub is_log : IsLog b base (writes_of (tls.broadcasts c.net))
    pub count : c.written ≡ base +ℤ pos (length (writes_of (tls.broadcasts c.net)))

  -- A state whose broadcasts are the same.
  same_broadcasts :
      (c d : Client W N)
      → d.r ≡ c.r
      → d.written ≡ c.written
      → tls.broadcasts d.net ≡ tls.broadcasts c.net
      → IsSent c
      → IsSent d
  same_broadcasts c d r w e v = record {
    mine = r ∙ v.mine;
    is_log = rw e v.is_log;
    count = rw (w, e) v.count;
  }

  one_more :
      (msg : ℤ → Ballot → ClientMsg) (c : Client W N)
      → IsWrite msg
      → writes_of (tls.broadcasts (tls.broadcast (msg (c.written +ℤ pos 1) c.r) c.replicas c.net))
        ≡ writes_of (tls.broadcasts c.net) ++ msg (c.written +ℤ pos 1) c.r ∷ []
  one_more msg c w = writes_of-broadcast tls laws _ c.replicas c.net (w.kind _ c.r)

  next_number :
      (c : Client W N)
      → IsSent c
      → c.written +ℤ pos 1 ≡ base +ℤ pos (suc (length (writes_of (tls.broadcasts c.net))))
  next_number c v =
      ap (λ n. n +ℤ pos 1) v.count ∙ +ℤ-suc base (length (writes_of (tls.broadcasts c.net)))

  replicate-IsSent :
      (msg : ℤ → Ballot → ClientMsg) (c : Client W N)
      → IsSent c
      → IsWrite msg
      → IsSent (replicate tls msg c)
  unfolding replicate
  replicate-IsSent msg c v w = elim (Bool-cases c.network) [
    | inl on ↦ rw on (record {
      mine = v.mine;
      is_log = rw (one_more msg c w) (
          IsLog-snoc b base _ _ v.is_log (w.seq _ c.r ∙ next_number c v) (w.ballot _ c.r ∙ v.mine)
            (w.kind _ c.r));
      count =
          rw (one_more msg c w, length-append)
            (next_number c v ∙ ap (λ n. base +ℤ pos n) (omega arith));
    })
    | inr off ↦ rw off (record { mine = v.mine; is_log = v.is_log; count = v.count })
  ]

  -- The handlers of the replicas' messages broadcast nothing.
  same_net :
      (c : Client W N) (n : N)
      → IsSent c
      → tls.broadcasts n ≡ tls.broadcasts c.net
      → IsSent (record c { net = n })
  same_net c n v e = record { mine = v.mine; is_log = rw e v.is_log; count = rw e v.count }

  resend_one-IsSent :
      (o : Option ClientMsg) (c : Client W N) → IsSent c → Leaves IsSent (resend_one tls o c)
  unfolding resend_one
  resend_one-IsSent none c v = v
  resend_one-IsSent (some m) c v = Leaves-map IsSent _ (tls.send m c.sender c.net) (
      Leaves-intro _ (tls.send m c.sender c.net)
        (λ n e. same_net c n v (laws.broadcasts-send m c.sender c.net n e))
        (λ n e. same_net c n v (laws.broadcasts-throw m c.sender c.net n e)))

  resend-IsSent : (holes : List ℤ) (c : Client W N) → IsSent c → Leaves IsSent (resend tls holes c)
  unfolding resend
  resend-IsSent [] c v = v
  resend-IsSent (hole ∷ holes) c v =
      >>=-Leaves IsSent (resend_one tls (find hole c.uncommitted_writes) c) _
        (resend_one-IsSent (find hole c.uncommitted_writes) c v) (resend-IsSent holes)

  -- A handler that changes only the votes and the acknowledgements.
  handler-IsSent :
      (c d : Client W N) → d.r ≡ c.r → d.written ≡ c.written → d.net ≡ c.net → IsSent c → IsSent d
  handler-IsSent c d r w n v = same_broadcasts c d r w (ap tls.broadcasts n) v

  visit-IsSent : (m : ReplicaMsg) (c : Client W N) → IsSent c → Leaves IsSent (visit tls m c)
  unfolding visit on_p1b on_disk on_p2b on_fsync_ack on_fsync_missing
  visit-IsSent (p1b msg) c v = handler-IsSent c _ (ground arith) (ground arith) (ground arith) v
  visit-IsSent (disk msg) c v = handler-IsSent c _ (ground arith) (ground arith) (ground arith) v
  visit-IsSent (p2b msg) c v = handler-IsSent c _ (ground arith) (ground arith) (ground arith) v
  visit-IsSent (fsync_missing msg) c v = resend-IsSent msg.holes c v
  visit-IsSent (fsync_ack msg) c v =
      handler-IsSent c _ (ground arith) (ground arith) (ground arith) v

  settle-IsSent :
      (addr : Bytes) (c : Client W N) (m : Outcome (Client W N))
      → IsSent c
      → Leaves IsSent m
      → IsSent (settle tls addr c m)
  unfolding settle
  settle-IsSent addr c (ok d) v w = w
  settle-IsSent addr c (threw d) v w = same_net d _ w (laws.broadcasts-close_socket addr d.net)
  settle-IsSent addr c exited v w = v
  settle-IsSent addr c out_of_fuel v w = v
  settle-IsSent addr c undefined v w = v

  receive-IsSent : (m : Bytes × ReplicaMsg) (c : Client W N) → IsSent c → IsSent (receive tls m c)
  unfolding receive
  receive-IsSent (addr, msg) c v =
      let d : IsSent (record c { sender = addr }) = handler-IsSent c _ refl refl refl v in
      settle-IsSent addr _ (visit tls msg (record c { sender = addr })) d (visit-IsSent msg _ d)

  synced_lem : (fi : FuseFileInfo) (c : Client W N) → IsSent c → IsSent (broadcast_fsync tls fi c)
  unfolding broadcast_fsync
  synced_lem fi c v =
      let same =
        writes_of-fsync tls laws (record { seq = c.written; r = c.r; fi = make_lite fi }) c.replicas
          c.net in
      record { mine = v.mine; is_log = rw same v.is_log; count = rw same v.count }

  IsSent-IsKept : IsKept tls (λ m. Unit) IsSent
  IsSent-IsKept = record {
    called = λ c w v. record { mine = v.mine; is_log = v.is_log; count = v.count };
    measured = λ c n v. record { mine = v.mine; is_log = v.is_log; count = v.count };
    waited = λ c n v. record { mine = v.mine; is_log = v.is_log; count = v.count };
    synced = synced_lem;
    replicated = λ msg c i v. replicate-IsSent msg c v i;
    heard = λ m c h v. receive-IsSent m c v;
  }

-- A client with the network that starts with no broadcast behind it, and then serves any calls of `Call`, fsyncs among
-- them, and hears any messages in between, has broadcast writes of its own ballot only, numbered 0, 1, 2, … without a
-- gap or a repetition, and `written` is the last of these numbers (-1 if there is none).
pub sent_in_order :
    {W N : Type 0} (os : Os W) (tls : Transport ClientMsg N)
    → IsTransport tls
    → (metrics_on : Bool) (r : Ballot) (redirect_point : Bytes) (quorum : ℤ) (replicas : Addresses)
      (w : W) (n : N) (ks : List Call)
    → tls.broadcasts n ≡ []
    → let c =
        perform_all os tls ks (new_client true metrics_on r redirect_point quorum replicas w n) in
      IsLog r minus_one (writes_of (tls.broadcasts c.net))
      × (c.written ≡ minus_one +ℤ pos (length (writes_of (tls.broadcasts c.net))))
unfolding new_client writes_of
sent_in_order os tls laws metrics_on r redirect_point quorum replicas w n ks none_sent =
    let start = new_client true metrics_on r redirect_point quorum replicas w n in
    let v =
      perform_all-Kept tls _ _ (IsSent-IsKept tls laws r minus_one) os ks start
        (any-Allowed _ (λ m. tt) ks)
        (record {
          mine = refl;
          is_log = rw none_sent (empty-IsLog r minus_one);
          count = rw none_sent (sym (+ℤ-zero minus_one));
        }) in
    (v.is_log, v.count)
