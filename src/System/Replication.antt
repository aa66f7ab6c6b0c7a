-- ===== src/System/Replication.antt =====
-- client/client_fuse.cpp and replica/replica_fuse.cpp together: what the client broadcasts is what a
-- replica redoes, whatever the network does with the order.
use disk_tees.Prelude.{
  ℕ, ◌<◌, ℤ, pos, ◌+ℤ◌, ◌≤ℤ◌, +ℤ-≤ℤ, minus_one, Bool, true, ◌≡◌, ◌∙◌, sym, List, [], ◌∷◌, ◌++◌,
  Bytes, ok, length,
}
use disk_tees.Shared.Ballot.{Ballot}
use disk_tees.Shared.NetworkConfig.{Addresses}
use disk_tees.Shared.Os.{Os}
use disk_tees.Shared.Transport.{Transport, IsTransport}
use disk_tees.Shared.Messages.{ClientMsg, ReplicaMsg}
use disk_tees.Replica.Store.{Store}
use disk_tees.Replica.State.{Replica}
use disk_tees.Replica.Replay.{redo_all, Event, process, run, Arrives}
use disk_tees.Replica.Replay.Order.{IsReady, run_in_order}
use disk_tees.Replica.Replay.Arrived.{arrived, arrived_are_redone, length-arrived}
use disk_tees.Client.State.{new_client}
use disk_tees.Client.Trace.{Call, perform_all}
use disk_tees.Client.Trace.Log.{sent_in_order}
use disk_tees.Client.Trace.Writes.{writes_of}

-- Let a new client with the network and with no broadcast behind it serve any calls of `Call`, fsyncs among them,
-- hear any messages, and let `log` be the writes that it has broadcast by then. Let a replica be ready for the
-- client's ballot with nothing written, and let redoing `log` in its order on the replica's store end well in
-- `final`. Then every schedule (of the writes alone, fsync messages are not in it) by which each message of `log`
-- arrives at least once, in any order, and which ends in `processPendingMessages`, ends well, with the replica's
-- store at `final` and its `written` equal to the client's.
pub replicated_in_order :
    {V W M N : Type 0} (fuel : ℕ) (client_os : Os V) (client_tls : Transport ClientMsg M)
    (os : Os W) (tls : Transport ReplicaMsg N) (metrics_on : Bool) (b : Ballot)
    (redirect_point : Bytes) (quorum : ℤ) (replicas : Addresses) (v : V) (m : M) (ks : List Call)
    (final : Store W) (es : List Event) (s : Replica W N)
    → IsTransport client_tls
    → client_tls.broadcasts m ≡ []
    → IsReady b minus_one s
    → let c =
        perform_all client_os client_tls ks
          (new_client true metrics_on b redirect_point quorum replicas v m) in
      let log = writes_of (client_tls.broadcasts c.net) in
      redo_all os log s.store ≡ ok final
      → ((i : ℕ) → i < length log → Arrives i es)
      → (t : Replica W N) × (run fuel os tls log (es ++ process ∷ []) s ≡ ok t)
        × (t.store ≡ final)
        × (t.written ≡ c.written)
replicated_in_order fuel client_os client_tls os tls metrics_on b redirect_point quorum replicas v m
      ks final es s laws none_sent ready redone all =
    let sent =
      sent_in_order client_os client_tls laws metrics_on b redirect_point quorum replicas v m ks
        none_sent in
    let (t, ends, same, at) =
      run_in_order fuel os tls b minus_one _ final es s sent.0 ready redone all in
    (t, ends, same, at ∙ sym sent.1)

-- Let the client and the replica be as above, and let redoing `log` in its order on the replica's store end well.
-- Then every schedule that ends in `processPendingMessages`, whichever messages of `log` it delivers, in any order
-- and any number of times, ends well, with the replica's store as the writes before the first that has not arrived
-- make it, and with its `written` at the last of these, which is never above the client's.
pub prefix_replicated :
    {V W M N : Type 0} (fuel : ℕ) (client_os : Os V) (client_tls : Transport ClientMsg M)
    (os : Os W) (tls : Transport ReplicaMsg N) (metrics_on : Bool) (b : Ballot)
    (redirect_point : Bytes) (quorum : ℤ) (replicas : Addresses) (v : V) (m : M) (ks : List Call)
    (final : Store W) (es : List Event) (s : Replica W N)
    → IsTransport client_tls
    → client_tls.broadcasts m ≡ []
    → IsReady b minus_one s
    → let c =
        perform_all client_os client_tls ks
          (new_client true metrics_on b redirect_point quorum replicas v m) in
      let log = writes_of (client_tls.broadcasts c.net) in
      redo_all os log s.store ≡ ok final
      → (t : Replica W N) × (run fuel os tls log (es ++ process ∷ []) s ≡ ok t)
        × (redo_all os (arrived es log) s.store ≡ ok t.store)
        × (t.written ≡ minus_one +ℤ pos (length (arrived es log)))
        × (t.written ≤ℤ c.written)
prefix_replicated fuel client_os client_tls os tls metrics_on b redirect_point quorum replicas v m
      ks final es s laws none_sent ready redone =
    let sent =
      sent_in_order client_os client_tls laws metrics_on b redirect_point quorum replicas v m ks
        none_sent in
    let (t, ends, same, at) =
      arrived_are_redone fuel os tls b minus_one _ final es s sent.0 ready redone in
    (t, ends, same, at, rw (at, sent.1) (+ℤ-≤ℤ minus_one _ _ (length-arrived es _)))
