-- ===== src/Tests/Serves.antt =====
-- A replica that is started and receives its second write first.
use disk_tees.Prelude.{
  pos, ◌==ℤ◌, ◌+ℤ◌, ltb_ℤ, leb_ℤ, ◌≡◌, ◌≢◌, refl, List, [], ◌∷◌, codes, ok, out_of_fuel, arith,
}
use disk_tees.Shared.IntMap.{find, put}
use disk_tees.Shared.Ballot.{zero_ballot, ltb_ballot, eqb_ballot}
use disk_tees.Shared.Os.{Syscall}
use disk_tees.Shared.Messages.{ClientMsg, ReplicaMsg}
use disk_tees.Shared.Messages.Kind.{get_client_msg_type, get_seq, get_ballot}
use disk_tees.Replica.State.{Config, Replica, new_replica, ballot_is_valid}
use disk_tees.Replica.Buffer.{
  drain, ready, buffer_write, buffer_msg, process_pending_messages, ack_fsync, check_fsync_timeout,
}
use disk_tees.Replica.Main.{Round, caught, take_all, serve_round, serve}
use disk_tees.Replica.Start.{start}
use disk_tees.Replica.Ends.{PendingWrites}
use disk_tees.Replica.Serving.{serving_ends}
use disk_tees.Tests.World.{logging_os, Wire, quiet, wire}

abbrev conf : Config
conf = record { id = pos 0; trusted_mode = codes "local"; username = codes "u" }

abbrev second : ClientMsg
second = ClientMsg.mkdir (record { seq = pos 1; r = zero_ballot; path = codes "/a"; mode = 0o755 })

abbrev one_round : List Round
one_round =
    record { arrivals = record { now = 5; msg = second; addr = codes "c:1" } ∷ []; now = 6 } ∷ []

abbrev waiting : Replica (List Syscall) (Wire ReplicaMsg)
waiting = record (start conf [] [] quiet) {
  sender = codes "c:1";
  pending_writes = (pos 1, second) ∷ [];
}

served : serve 0 logging_os wire 2 one_round (start conf [] [] quiet) ≡ ok waiting
unfolding serve serve_round take_all caught buffer_msg buffer_write process_pending_messages drain
    ready ack_fsync check_fsync_timeout ballot_is_valid start new_replica get_client_msg_type
    get_seq get_ballot find put ltb_ballot eqb_ballot ltb_ℤ leb_ℤ ◌==ℤ◌ ◌+ℤ◌
served = refl

serving_ends_example : PendingWrites waiting × (drain 0 logging_os wire 2 waiting ≢ out_of_fuel)
serving_ends_example =
    serving_ends 0 logging_os wire conf [] [] quiet 2 2 one_round waiting served (omega arith)
