-- ===== src/Tests/Delivery.antt =====
-- A client that removes two files with an fsync in between, and the bytes of its messages on the way to one of two
-- replicas.
use disk_tees.Prelude.{
  pos, ◌∙◌, inl, false, ltb_ℤ, All, ◌+ℤ◌, ◌==ℤ◌, true, ◌≡◌, ◌≢◌, refl, sym, some, List, [], ◌∷◌,
  ◌++◌, Bytes, codes, eqb_str, ok, arith,
}
use disk_tees.Shared.NetworkConfig.{NodeType}
use disk_tees.Shared.StrMap.{find_str}
use disk_tees.Shared.Os.{Syscall}
use disk_tees.Shared.Messages.{ClientMsg, ReplicaMsg}
use disk_tees.Shared.Messages.Kind.{get_client_msg_type}
use disk_tees.Shared.Messages.Stream.{writes_in}
use disk_tees.Shared.Convert.{narrow}
use disk_tees.Shared.Tls.{Tls, Options, zeros}
use disk_tees.Shared.Tls.Fifo.{Fits, frames, recv_many}
use disk_tees.Shared.Tls.Carrier.{Network, tls_transport}
use disk_tees.Replica.Store.{Store, do_unlink, call, prepend_path, or_exit}
use disk_tees.Replica.State.{Replica}
use disk_tees.Replica.Main.{Round, serve}
use disk_tees.Replica.Replay.Streamed.{heard}
use disk_tees.Replica.Replay.Taking.{IsAnswering}
use disk_tees.Replica.Buffer.{redo}
use disk_tees.Replica.Replay.{redo_all}
use disk_tees.Client.State.{Client, new_client, call as client_call, prepend_path as client_path}
use disk_tees.Client.Trace.{Call, perform_all}
use disk_tees.Client.Trace.Writes.{messages_of}
use disk_tees.Client.Calls.Common.{FuseFileInfo, make_lite, replicate, or_errno}
use disk_tees.Client.Calls.Fsync.{broadcast_fsync, client_fsync, wait_committed, measure_fsync}
use disk_tees.Client.Calls.Paths.{client_unlink}
use disk_tees.System.Delivery.{client_over, delivered}
use disk_tees.Tests.World.{logging_os, Wire, wire, ballot_one, ready_replica}
use disk_tees.Tests.Pipe.{still, plain, plain-IsPlatform, whole}
use disk_tees.Tests.Lines.{
  Lines, lines, lines-IsWriting, lines-IsReading, lines-IsHealthy, unlinks, unlinks-IsCodec,
  serialize,
}
use disk_tees.Tests.Replay.{ready_replica-IsReady}

abbrev two_lines : Tls Lines
two_lines = record {
  read_buffer = zeros 8192;
  open_sockets = pos 3 ∷ pos 4 ∷ [];
  server_socket = pos 0;
  ssl_from_addr = (codes "a", 1) ∷ (codes "b", 2) ∷ [];
  ssl_from_socket = (pos 3, 1) ∷ (pos 4, 2) ∷ [];
  addr_from_socket = (pos 3, codes "a") ∷ (pos 4, codes "b") ∷ [];
  socket_from_addr = (codes "a", pos 3) ∷ (codes "b", pos 4) ∷ [];
  round_robin_index = 0;
  world = record { inbox = []; outbox = λ ssl. [] };
}

abbrev options : Options
options = record {
  id = pos 1;
  name = codes "client1";
  own_type = NodeType.client;
  path = codes "/c";
}

abbrev removal : ClientMsg
removal = ClientMsg.unlink (record { seq = pos 0; r = ballot_one; path = codes "/a" })

abbrev second : ClientMsg
second = ClientMsg.unlink (record { seq = pos 1; r = ballot_one; path = codes "/b" })

abbrev opened : FuseFileInfo
opened = record { flags = pos 2; fh = 4 }

abbrev sync : ClientMsg
sync =
    ClientMsg.fsync (record { seq = pos 0; r = ballot_one; fi = record { flags = pos 2; fh = 4 } })

abbrev ballot_data : Bytes
ballot_data = 0 ∷ 0 ∷ 1 ∷ 0 ∷ 0 ∷ 0 ∷ []

abbrev carried : List (ClientMsg × Bytes)
carried =
    (removal, 0 ∷ 0 ∷ 0 ∷ ballot_data ++ 2 ∷ codes "/a")
    ∷ (sync, 1 ∷ 0 ∷ 0 ∷ ballot_data ++ 2 ∷ 0 ∷ 4 ∷ [])
    ∷ (second, 0 ∷ 1 ∷ 0 ∷ ballot_data ++ 2 ∷ codes "/b")
    ∷ []

abbrev frames_carried : List Bytes
frames_carried = frames lines still plain unlinks 3 whole carried

abbrev reader : Tls Lines
reader = record two_lines { world = record { inbox = frames_carried ++ []; outbox = λ ssl. [] } }

abbrev two_removals : List Call
two_removals =
    Call.unlink (codes "/a") ∷ Call.fsync false opened 0 0 [] ∷ Call.unlink (codes "/b") ∷ []

abbrev remover : Client (List Syscall) (Network Lines ClientMsg)
remover =
    client_over lines still plain unlinks options 1 logging_os true ballot_one (codes "/c") (pos 1)
      (codes "a" ∷ codes "b" ∷ []) [] two_lines two_removals

-- One message in each round, and a round with none.
abbrev found : List Round
found =
    record { arrivals = record { now = 5; msg = removal; addr = codes "c:1" } ∷ []; now = 6 }
    ∷ record { arrivals = []; now = 7 }
    ∷ record { arrivals = record { now = 8; msg = sync; addr = codes "c:1" } ∷ []; now = 9 }
    ∷ record { arrivals = record { now = 10; msg = second; addr = codes "c:1" } ∷ []; now = 11 }
    ∷ []

abbrev removed : Store (List Syscall)
removed = record {
  directory = codes "/b/s";
  file_handle_converter = [];
  world = Syscall.unlink (codes "/b/s/a") ∷ Syscall.unlink (codes "/b/s/b") ∷ [];
}

remover_sends : messages_of remover.net.to_all ≡ removal ∷ sync ∷ second ∷ []
unfolding perform_all client_unlink or_errno replicate new_client tls_transport client_fsync
    broadcast_fsync wait_committed measure_fsync make_lite ltb_ℤ narrow get_client_msg_type ◌==ℤ◌
    ◌+ℤ◌ client_path client_call
remover_sends = refl

found_lem : heard found ≡ removal ∷ sync ∷ second ∷ []
unfolding heard
found_lem = refl

wire-IsAnswering : IsAnswering (wire {M = ReplicaMsg})
unfolding IsAnswering
wire-IsAnswering m d n = (_, inl refl)

removed_in_order :
    redo_all logging_os (writes_in (removal ∷ sync ∷ second ∷ [])) ready_replica.store ≡ ok removed
unfolding writes_in get_client_msg_type redo_all redo do_unlink call prepend_path or_exit ◌==ℤ◌
removed_in_order = refl

carried-Fits : All (Fits lines still plain unlinks 3 whole) carried
unfolding Fits serialize whole
carried-Fits = (
  (refl, omega arith, omega arith),
  ((refl, omega arith, omega arith), ((refl, omega arith, omega arith), tt)),
)

other_line : find_str (codes "b") two_lines.ssl_from_addr ≢ some 1
unfolding find_str eqb_str
other_line e = cc

first_line : find_str (codes "a") two_lines.ssl_from_addr ≡ some 1
unfolding find_str eqb_str
first_line = refl

first_socket : find_str (codes "a") two_lines.socket_from_addr ≡ some (pos 3)
unfolding find_str eqb_str
first_socket = refl

delivered_example :
    (w : Lines) × (u' : Tls Lines) × (r : Replica (List Syscall) (Wire ReplicaMsg))
    × (remover.net.live ≡ ok (record two_lines { world = w }))
    × (w.outbox 1 ≡ [] ++ frames_carried)
    × (recv_many lines still plain unlinks 3 3 (pos 3) 1 reader
        ≡ ok (messages_of remover.net.to_all, u'))
    × (serve 0 logging_os wire 1 found ready_replica ≡ ok r)
    × (r.store ≡ removed)
    × (r.written ≡ remover.written)
delivered_example =
    delivered lines still plain unlinks options 0 3 (λ ssl l. l.outbox ssl) whole lines-IsWriting
      plain-IsPlatform lines-IsHealthy (λ ssl l. l.inbox) logging_os logging_os wire 0 0 true
      ballot_one (codes "/c") (pos 1) [] (codes "b" ∷ []) (codes "a") [] two_lines reader
      two_removals 1 1 (pos 3) (pos 3) carried [] removed found ready_replica lines-IsReading
      unlinks-IsCodec wire-IsAnswering (first_line, first_socket, tt, (other_line, tt))
      (sym remover_sends) carried-Fits refl (found_lem ∙ sym remover_sends) ready_replica-IsReady
      (rw remover_sends removed_in_order)
