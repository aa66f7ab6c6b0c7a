-- ===== src/Tests/Replay.antt =====
-- Two directories that the client makes, and that reach the replica in the wrong order.
use disk_tees.Prelude.{
  ltb_ℤ, false, ℕ, zero, suc, ◌<◌, pos, minus_one, ◌+ℤ◌, ◌≤ℤ◌, ◌==ℤ◌, leb_ℤ, true, ◌≡◌, refl, inl,
  inr, some, List, [], ◌∷◌, ◌++◌, Bytes, codes, ok, get_elem?, length, arith,
}
use disk_tees.Shared.Os.{Syscall}
use disk_tees.Shared.Messages.{ClientMsg, ReplicaMsg}
use disk_tees.Shared.Messages.Kind.{get_seq, get_ballot, get_client_msg_type, ClientMsgType}
use disk_tees.Replica.Store.{Store, do_mkdir, call, prepend_path, or_exit}
use disk_tees.Replica.State.{Replica}
use disk_tees.Replica.Buffer.{redo}
use disk_tees.Replica.Replay.{redo_all, IsLog, Event, deliver, process, run, Arrives}
use disk_tees.Replica.Replay.Order.{IsReady, run_in_order}
use disk_tees.Replica.Replay.Arrived.{arrived, arrived_are_redone}
use disk_tees.Shared.Convert.{narrow}
use disk_tees.Shared.Messages.Stream.{IsStream}
use disk_tees.Client.Calls.Fsync.{client_fsync, broadcast_fsync, wait_committed, measure_fsync}
use disk_tees.Client.Trace.{Call, perform_all}
use disk_tees.Client.Trace.Log.{sent_in_order}
use disk_tees.Client.Trace.Writes.{messages_of, writes_of}
use disk_tees.Client.Trace.Carried.{broadcasts_only}
use disk_tees.Shared.Transport.{broadcast_all}
use disk_tees.Client.State.{Client, new_client, call as client_call, prepend_path as client_path}
use disk_tees.Client.Receive.{run_event_loop_once}
use disk_tees.Client.Calls.Common.{make_lite, replicate, or_errno}
use disk_tees.Client.Calls.Paths.{client_mkdir}
use disk_tees.System.Replication.{replicated_in_order, prefix_replicated}
use disk_tees.Tests.World.{
  logging_os, Wire, quiet, wire, wire-IsTransport, ballot_one, ready_replica,
}

abbrev make : ℕ → Bytes → ClientMsg
make seq path =
    ClientMsg.mkdir (record { seq = pos seq; r = ballot_one; path = path; mode = 0o755 })

abbrev two_directories : List ClientMsg
two_directories = make 0 (codes "/a") ∷ make 1 (codes "/a/b") ∷ []

two_directories-IsLog : IsLog ballot_one minus_one two_directories
unfolding get_seq get_ballot get_client_msg_type ◌+ℤ◌
two_directories-IsLog = record { numbered = numbered; voted = voted; writes = writes }
  where
    numbered :
        (i : ℕ) (m : ClientMsg)
        → get_elem? two_directories i ≡ some m
        → get_seq m ≡ minus_one +ℤ pos (suc i)
    numbered zero m e = ground arith
    numbered (suc zero) m e = ground arith
    numbered (suc (suc i)) m e = cc

    voted :
        (i : ℕ) (m : ClientMsg) → get_elem? two_directories i ≡ some m → get_ballot m ≡ ballot_one
    voted zero m e = ground arith
    voted (suc zero) m e = ground arith
    voted (suc (suc i)) m e = cc

    writes :
        (i : ℕ) (m : ClientMsg)
        → get_elem? two_directories i ≡ some m
        → get_client_msg_type m ≡ ClientMsgType.write
    writes zero m e = ground arith
    writes (suc zero) m e = ground arith
    writes (suc (suc i)) m e = cc

abbrev made : Store (List Syscall)
made = record {
  directory = codes "/b/s";
  file_handle_converter = [];
  world = Syscall.mkdir (codes "/b/s/a") 0o755 ∷ Syscall.mkdir (codes "/b/s/a/b") 0o755 ∷ [];
}

abbrev swapped : List Event
swapped = deliver 5 (codes "c:1") 1 ∷ deliver 6 (codes "c:1") 0 ∷ deliver 7 (codes "c:1") 1 ∷ []

pub ready_replica-IsReady : IsReady ballot_one minus_one ready_replica
unfolding leb_ℤ
ready_replica-IsReady = record {
  at = refl;
  highest = refl;
  normal = refl;
  idle = refl;
  empty = refl;
}

made_in_order : redo_all logging_os two_directories ready_replica.store ≡ ok made
unfolding redo_all redo do_mkdir call prepend_path or_exit ◌==ℤ◌
made_in_order = refl

swapped-Arrives : (i : ℕ) → i < 2 → Arrives i swapped
swapped-Arrives zero h = inr (inl refl)
swapped-Arrives (suc zero) h = inl refl
swapped-Arrives (suc (suc i)) h = absurd (omega arith)

run_in_order_example :
    (t : Replica (List Syscall) (Wire ReplicaMsg)) × (run 0 logging_os wire two_directories
        (swapped ++ process ∷ [])
        ready_replica
      ≡ ok t)
    × (t.store ≡ made)
    × (t.written ≡ minus_one +ℤ pos 2)
run_in_order_example =
    run_in_order 0 logging_os wire ballot_one minus_one two_directories made swapped ready_replica
      two_directories-IsLog ready_replica-IsReady made_in_order swapped-Arrives

abbrev make_both : List Call
make_both =
    Call.mkdir (codes "/a") 0o755
    ∷ Call.messages []
    ∷ Call.fsync false (record { flags = pos 0; fh = 4 }) 0 0 []
    ∷ Call.mkdir (codes "/a/b") 0o755
    ∷ []

abbrev both_made : Client (List Syscall) (Wire ClientMsg)
both_made =
    perform_all logging_os wire make_both
      (new_client true true ballot_one (codes "/c") (pos 1) [] [] quiet)

abbrev both_sent : List ClientMsg
both_sent = writes_of (wire.broadcasts both_made.net)

sent_in_order_example :
    IsLog ballot_one minus_one both_sent × (both_made.written ≡ minus_one +ℤ pos (length both_sent))
sent_in_order_example =
    sent_in_order logging_os wire wire-IsTransport true ballot_one (codes "/c") (pos 1) [] [] quiet
      make_both refl

both_sent_lem : both_sent ≡ two_directories
unfolding perform_all client_mkdir or_errno replicate run_event_loop_once new_client writes_of
    get_client_msg_type client_fsync broadcast_fsync wait_committed measure_fsync make_lite ltb_ℤ
    narrow ◌==ℤ◌ ◌+ℤ◌ client_path client_call
both_sent_lem = refl

replicated_in_order_example :
    (t : Replica (List Syscall) (Wire ReplicaMsg)) × (run 0 logging_os wire both_sent
        (swapped ++ process ∷ [])
        ready_replica
      ≡ ok t)
    × (t.store ≡ made)
    × (t.written ≡ both_made.written)
replicated_in_order_example =
    replicated_in_order 0 logging_os wire logging_os wire true ballot_one (codes "/c") (pos 1) [] []
      quiet make_both made swapped ready_replica wire-IsTransport refl ready_replica-IsReady
      (rw both_sent_lem made_in_order) (rw both_sent_lem swapped-Arrives)

-- Of the two directories only the second has arrived, twice.
abbrev late : List Event
late = deliver 5 (codes "c:1") 1 ∷ deliver 7 (codes "c:1") 1 ∷ []

-- The first has arrived, and the second has not.
abbrev early : List Event
early = deliver 5 (codes "c:1") 0 ∷ deliver 7 (codes "c:1") 9 ∷ []

nothing_yet : arrived late two_directories ≡ []
unfolding arrived
nothing_yet = refl

first_only : arrived early two_directories ≡ make 0 (codes "/a") ∷ []
unfolding arrived
first_only = refl

arrived_are_redone_example :
    (t : Replica (List Syscall) (Wire ReplicaMsg)) × (run 0 logging_os wire two_directories
        (early ++ process ∷ [])
        ready_replica
      ≡ ok t)
    × (redo_all logging_os (arrived early two_directories) ready_replica.store ≡ ok t.store)
    × (t.written ≡ minus_one +ℤ pos (length (arrived early two_directories)))
arrived_are_redone_example =
    arrived_are_redone 0 logging_os wire ballot_one minus_one two_directories made early
      ready_replica two_directories-IsLog ready_replica-IsReady made_in_order

prefix_replicated_example :
    (t : Replica (List Syscall) (Wire ReplicaMsg)) × (run 0 logging_os wire both_sent
        (early ++ process ∷ [])
        ready_replica
      ≡ ok t)
    × (redo_all logging_os (arrived early both_sent) ready_replica.store ≡ ok t.store)
    × (t.written ≡ minus_one +ℤ pos (length (arrived early both_sent)))
    × (t.written ≤ℤ both_made.written)
prefix_replicated_example =
    prefix_replicated 0 logging_os wire logging_os wire true ballot_one (codes "/c") (pos 1) [] []
      quiet make_both made early ready_replica wire-IsTransport refl ready_replica-IsReady
      (rw both_sent_lem made_in_order)

broadcasts_only_example :
    (both_made.net ≡ broadcast_all wire (messages_of (wire.broadcasts both_made.net)) [] quiet)
    × IsStream ballot_one minus_one (messages_of (wire.broadcasts both_made.net)) both_made.written
broadcasts_only_example =
    broadcasts_only logging_os wire wire-IsTransport true true ballot_one (codes "/c") (pos 1) [] []
      quiet make_both refl
