-- ===== src/Client/Receive.antt =====
-- client/client_fuse.cpp: the handlers of the messages of the replicas, and the event loop around them.
use disk_tees.Prelude.{
  ℤ, pos, minus_one, ◌+ℤ◌, ltb_ℤ, leb_ℤ, Option, none, some, List, [], ◌∷◌, Bytes, Outcome, ok,
  threw, ◌>>=◌, map_outcome, if◌then◌else◌,
}
use disk_tees.Shared.Ballot.{eqb_ballot}
use disk_tees.Shared.IntMap.{IntMap, find, put, emplace}
use disk_tees.Shared.Transport.{Transport}
use disk_tees.Shared.Messages.{
  ClientMsg, ReplicaMsg, P1b, Disk, P2b, FsyncMissing, FsyncAck, p1b, disk, p2b, fsync_missing,
  fsync_ack,
}
use disk_tees.Client.State.{Client}

-- `numWritten`: how many of the entries have written at least `written`
unfoldable pub num_written : ℤ → IntMap ℤ → ℤ → ℤ
num_written written [] n = n
num_written written ((_, other_written) ∷ others) n =
    num_written written others (if leb_ℤ written other_written then n +ℤ pos 1 else n)

-- The outer loop of `fsyncAck`, over the entries that are left.
unfoldable pub largest_quorum_from : ℤ → IntMap ℤ → IntMap ℤ → ℤ → ℤ
unfolding num_written
largest_quorum_from quorum all [] largest = largest
largest_quorum_from quorum all ((_, written) ∷ entries) largest =
    largest_quorum_from quorum all entries (
      if leb_ℤ written largest
      then largest
      else if leb_ℤ quorum (num_written written all (pos 0))
      then written
      else largest)

unfoldable pub largest_quorum_written : ℤ → IntMap ℤ → ℤ
unfolding largest_quorum_from
largest_quorum_written quorum all = largest_quorum_from quorum all all minus_one

module _ {W N : Type 0} where
  unfoldable pub on_p1b : P1b → Client W N → Client W N
  on_p1b msg c =
      if eqb_ballot msg.highest_ballot c.r
      then record c { successful_p1bs = emplace msg.id msg c.successful_p1bs }
      else c

  unfoldable pub on_disk : Disk → Client W N → Client W N
  on_disk msg c =
      if eqb_ballot msg.client_ballot c.r
      then record c { disk_checksums = emplace msg.id msg c.disk_checksums }
      else c

  unfoldable pub on_p2b : P2b → Client W N → Client W N
  on_p2b msg c =
      if eqb_ballot msg.highest_ballot c.r
      then record c { successful_p2bs = emplace msg.id msg c.successful_p2bs }
      else c

  unfoldable pub on_fsync_ack : FsyncAck → Client W N → Client W N
  unfolding largest_quorum_written
  on_fsync_ack msg c =
      let acked = record c { replica_written = put msg.id msg.written c.replica_written } in
      if leb_ℤ msg.written c.replicas_committed
      then acked
      else let largest = largest_quorum_written c.quorum acked.replica_written in
        if ltb_ℤ c.replicas_committed largest
        then record acked { replicas_committed = largest; uncommitted_writes = [] }
        else acked

module _ {W N : Type 0} (tls : Transport ClientMsg N) where
  -- `if (uncommittedWrites.contains(hole)) replicaTLS->send(…, sender);`
  unfoldable pub resend_one : Option ClientMsg → Client W N → Outcome (Client W N)
  resend_one none c = ok c
  resend_one (some msg) c = map_outcome (λ n. record c { net = n }) (tls.send msg c.sender c.net)

  unfoldable pub resend : List ℤ → Client W N → Outcome (Client W N)
  unfolding resend_one
  resend [] c = ok c
  resend (hole ∷ holes) c = resend_one (find hole c.uncommitted_writes) c >>= λ d. resend holes d

  unfoldable pub on_fsync_missing : FsyncMissing → Client W N → Outcome (Client W N)
  unfolding resend
  on_fsync_missing msg c = resend msg.holes c

  -- `std::visit(fuse, payload)`
  unfoldable pub visit : ReplicaMsg → Client W N → Outcome (Client W N)
  unfolding on_p1b on_disk on_p2b on_fsync_missing on_fsync_ack
  visit (p1b msg) c = ok (on_p1b msg c)
  visit (disk msg) c = ok (on_disk msg c)
  visit (p2b msg) c = ok (on_p2b msg c)
  visit (fsync_missing msg) c = on_fsync_missing msg c
  visit (fsync_ack msg) c = ok (on_fsync_ack msg c)

  -- What the event loop of shared/tls.cpp makes of the end of a handler: an exception closes the
  -- connection that the message came by. (No handler exits.)
  unfoldable pub settle : Bytes → Client W N → Outcome (Client W N) → Client W N
  settle addr c (ok d) = d
  settle addr c (threw d) = record d { net = tls.close_socket addr (d.net) }
  settle addr c other = c

  -- The callback of client/main.cpp.
  unfoldable pub receive : Bytes × ReplicaMsg → Client W N → Client W N
  unfolding visit settle
  receive (addr, msg) c = let d = record c { sender = addr } in settle addr d (visit msg d)

  -- The messages that one call of `runEventLoopOnce` finds.
  unfoldable pub run_event_loop_once : List (Bytes × ReplicaMsg) → Client W N → Client W N
  unfolding receive
  run_event_loop_once [] c = c
  run_event_loop_once (m ∷ ms) c = run_event_loop_once ms (receive m c)
