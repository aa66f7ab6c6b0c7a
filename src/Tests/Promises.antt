-- ===== src/Tests/Promises.antt =====
-- A replica that changes from one client to the next: it promises, hears from the old client, and accepts.
use disk_tees.Prelude.{
  pos, minus_one, ◌+ℤ◌, ◌==ℤ◌, ltb_ℤ, leb_ℤ, true, false, ◌≡◌, refl, List, [], ◌∷◌, codes, ok,
  arith,
}
use disk_tees.Shared.Ballot.{Ballot, ltb_ballot, eqb_ballot}
use disk_tees.Shared.IntMap.{find, contains, put, emplace, erase}
use disk_tees.Shared.NetworkConfig.{NetworkConfig, config_to_addrs}
use disk_tees.Shared.Os.{Syscall}
use disk_tees.Shared.Messages.{ClientMsg, ReplicaMsg, P1a, P2a, P1b, P2b, FsyncAck, p1b, p2b}
use disk_tees.Shared.Messages.Kind.{get_ballot, get_client_msg_type}
use disk_tees.Replica.State.{Replica, ballot_is_valid}
use disk_tees.Replica.Protocol.{
  raise_highest, adopt_config, reset_state, promise, reply, accept_ballot, join_config, unzip_disk,
  close_all, on_p1a, on_p2a,
}
use disk_tees.Replica.Buffer.{buffer_msg, process_pending_messages, check_fsync_timeout}
use disk_tees.Replica.Main.{Round, serve}
use disk_tees.Replica.Replay.Order.{IsReady}
use disk_tees.Client.State.{Client, new_client}
use disk_tees.Client.Receive.{on_p1b, on_p2b, on_fsync_ack}
use disk_tees.Client.Votes.{p1b_quorum}
use disk_tees.Client.Quorums.{quorums_miss}
use disk_tees.Client.Main.{quorum}
use disk_tees.System.Election.{CountsP1b, CountsP2b, promise_binds, accepted-IsReady}
use disk_tees.Tests.World.{
  logging_os, Wire, quiet, wire, wire-IsTransport, ballot_one, ready_replica,
}

abbrev ballot_two : Ballot
ballot_two = record { ballot_num = pos 1; client_id = pos 2; config_num = pos 0 }

abbrev next_client : Client (List Syscall) (Wire ClientMsg)
next_client = new_client true false ballot_two (codes "/d") (pos 1) (codes "r:0" ∷ []) [] quiet

abbrev asked : P1a
asked = record { seq = pos 0; r = ballot_two; net_conf = [] }

abbrev promised : P1b
promised = record {
  id = pos 0;
  client_ballot = ballot_two;
  written = minus_one;
  normal_ballot = ballot_one;
  highest_ballot = ballot_two;
}

abbrev joined : Replica (List Syscall) (Wire ReplicaMsg)
joined = record ready_replica {
  highest_ballot = ballot_two;
  net = record { to_all = []; to_one = (p1b promised, codes "c:1") ∷ [] };
}

abbrev from_old : ClientMsg
from_old = ClientMsg.mkdir (record { seq = pos 0; r = ballot_one; path = codes "/a"; mode = 0o755 })

abbrev one_round : List Round
one_round =
    record { arrivals = record { now = 5; msg = from_old; addr = codes "c:9" } ∷ []; now = 6 } ∷ []

abbrev fenced_off : Replica (List Syscall) (Wire ReplicaMsg)
fenced_off = record joined { sender = codes "c:9" }

on_p1a_ends : on_p1a 0 logging_os wire asked ready_replica ≡ ok joined
unfolding on_p1a raise_highest reply promise join_config adopt_config config_to_addrs erase
    ltb_ballot ltb_ℤ ◌==ℤ◌
on_p1a_ends = refl

serve_fenced : serve 0 logging_os wire 1 one_round joined ≡ ok fenced_off
unfolding serve buffer_msg process_pending_messages check_fsync_timeout get_ballot
    get_client_msg_type ballot_is_valid ltb_ballot eqb_ballot ◌+ℤ◌ ◌==ℤ◌ ltb_ℤ leb_ℤ find
serve_fenced = refl

promised_counts : CountsP1b promised next_client
unfolding on_p1b new_client find emplace put eqb_ballot ◌==ℤ◌
promised_counts = (refl, refl)

promise_binds_example :
    (promised.written ≡ ready_replica.written)
    × (promised.normal_ballot ≡ ready_replica.normal_ballot)
    × (ltb_ballot fenced_off.highest_ballot next_client.r ≡ false)
    × (buffer_msg 0 logging_os wire 7 from_old (codes "c:8") fenced_off
        ≡ ok (record fenced_off { sender = codes "c:8" }))
unfolding new_client get_ballot ltb_ballot ltb_ℤ ◌==ℤ◌
promise_binds_example =
    promise_binds 0 logging_os wire 1 one_round asked promised next_client (codes "c:1")
      ready_replica joined fenced_off wire-IsTransport on_p1a_ends refl promised_counts serve_fenced
      7 from_old (codes "c:8") refl

abbrev proposed : P2a
proposed = record {
  seq = pos 0;
  r = ballot_two;
  written = minus_one;
  disk_replica_name = [];
  disk_checksum = [];
}

abbrev accepted : P2b
accepted = record { id = pos 0; client_ballot = ballot_two; highest_ballot = ballot_two }

abbrev changed : Replica (List Syscall) (Wire ReplicaMsg)
changed = record joined {
  normal_ballot = ballot_two;
  net = record {
    to_all = [];
    to_one = (p1b promised, codes "c:1") ∷ (p2b accepted, codes "c:1") ∷ [];
  };
}

on_p2a_ends : on_p2a logging_os wire proposed joined ≡ ok changed
unfolding on_p2a close_all unzip_disk reset_state accept_ballot reply ltb_ballot ltb_ℤ ◌==ℤ◌
on_p2a_ends = refl

accepted_counts : CountsP2b accepted next_client
unfolding on_p2b new_client find emplace put eqb_ballot ◌==ℤ◌
accepted_counts = (refl, refl)

accepted-IsReady_example : IsReady next_client.r proposed.written changed
unfolding new_client
accepted-IsReady_example =
    accepted-IsReady logging_os wire proposed accepted next_client (codes "c:1") joined changed
      wire-IsTransport on_p2a_ends refl refl (omega arith) accepted_counts

abbrev two_replicas : NetworkConfig
two_replicas = (pos 0, codes "10.0.0.2") ∷ (pos 1, codes "10.0.0.3") ∷ []

abbrev five_written : FsyncAck
five_written = record { id = pos 1; written = pos 5; r = ballot_one }

abbrev fresh : Ballot → Client (List Syscall) (Wire ClientMsg)
fresh b = new_client true false b (codes "/c") quorum [] [] quiet

quorums_miss_example :
    ((on_fsync_ack five_written (fresh ballot_one)).replicas_committed ≡ pos 5)
    × (p1b_quorum (λ i. pos 0) (two_replicas ∷ []) (on_p1b promised (fresh ballot_two)) ≡ true)
    × (contains (pos 1) (on_p1b promised (fresh ballot_two)).successful_p1bs ≡ false)
unfolding contains ◌==ℤ◌
quorums_miss_example =
    quorums_miss ballot_one ballot_two false false (codes "/c") (codes "/c") [] [] [] [] quiet quiet
      two_replicas five_written promised (omega arith) refl (λ e. cc) refl
