-- ===== src/Tests/Fences.antt =====
-- A replica that hears a client of a lower ballot, and one that waits for a write before an fsync.
use disk_tees.Prelude.{
  ℤ, pos, ◌+ℤ◌, ◌==ℤ◌, ltb_ℤ, leb_ℤ, false, ◌≡◌, ◌⊎◌, refl, List, [], ◌∷◌, codes, ok,
}
use disk_tees.Shared.Ballot.{zero_ballot, ltb_ballot, eqb_ballot}
use disk_tees.Shared.Os.{Syscall}
use disk_tees.Shared.Messages.{ClientMsg, ReplicaMsg, fsync_missing}
use disk_tees.Shared.Messages.Kind.{get_ballot, get_seq, get_client_msg_type}
use disk_tees.Shared.IntMap.{find, contains}
use disk_tees.Replica.State.{Replica, ballot_is_valid}
use disk_tees.Replica.Store.{do_mkdir, call, prepend_path, or_exit}
use disk_tees.Replica.Buffer.{
  redo, buffer_msg, process_pending_messages, check_fsync_timeout, find_holes,
}
use disk_tees.Replica.Protocol.{reply}
use disk_tees.Replica.Main.{Round, serve}
use disk_tees.Replica.Fencing.{fenced}
use disk_tees.Replica.Holes.{Reported, timeout_reports}
use disk_tees.Tests.World.{logging_os, Wire, wire, wire-IsTransport, ballot_one, ready_replica}

abbrev mkdir_at : ℤ → ClientMsg
mkdir_at seq =
    ClientMsg.mkdir (record { seq = seq; r = ballot_one; path = codes "/a"; mode = 0o755 })

abbrev stale : ClientMsg
stale = ClientMsg.mkdir (record { seq = pos 0; r = zero_ballot; path = codes "/a"; mode = 0o755 })

abbrev rounds : List Round
rounds =
    record {
      arrivals = record { now = 5; msg = mkdir_at (pos 0); addr = codes "c:1" } ∷ [];
      now = 6;
    }
    ∷ []

abbrev served : Replica (List Syscall) (Wire ReplicaMsg)
served = record ready_replica {
  written = pos 0;
  store = record (ready_replica.store) { world = Syscall.mkdir (codes "/b/s/a") 0o755 ∷ [] };
}

serve_ends : serve 0 logging_os wire 1 rounds ready_replica ≡ ok served
unfolding serve buffer_msg process_pending_messages check_fsync_timeout redo do_mkdir call
    prepend_path or_exit get_ballot get_seq get_client_msg_type ballot_is_valid ltb_ballot
    eqb_ballot ◌+ℤ◌ ◌==ℤ◌ ltb_ℤ leb_ℤ find contains
serve_ends = refl

fenced_example :
    (ltb_ballot served.highest_ballot ready_replica.highest_ballot ≡ false)
    × (buffer_msg 0 logging_os wire 7 stale (codes "c:0") served
        ≡ ok (record served { sender = codes "c:0" }))
unfolding ltb_ballot ltb_ℤ ◌==ℤ◌ get_ballot
fenced_example =
    fenced 0 logging_os wire 1 rounds ready_replica served serve_ends 7 stale (codes "c:0") refl

-- An fsync behind write 2 came at time 1; write 1 is here, and writes 0 and 2 are not.
abbrev waiting : Replica (List Syscall) (Wire ReplicaMsg)
waiting = record ready_replica {
  last_fsync = record { seq = pos 2; r = ballot_one; fi = record { flags = pos 0; fh = 4 } };
  fsync_recv_time = 1;
  pending_writes = (pos 1, mkdir_at (pos 1)) ∷ [];
}

abbrev reported : Replica (List Syscall) (Wire ReplicaMsg)
reported = record waiting {
  fsync_recv_time = 0;
  net = record {
    to_all = [];
    to_one =
        (
          fsync_missing (record {
            id = pos 0;
            r = ballot_one;
            fsync_seq = pos 2;
            holes = pos 0 ∷ pos 2 ∷ [];
          }),
          codes "c:1",
        )
        ∷ [];
  };
}

check_reports : check_fsync_timeout wire 60000000001 waiting ≡ ok reported
unfolding check_fsync_timeout reply find_holes ballot_is_valid ltb_ballot eqb_ballot ◌+ℤ◌ ◌==ℤ◌
    ltb_ℤ leb_ℤ find contains
check_reports = refl

timeout_reports_example : (reported ≡ waiting) ⊎ Reported wire 60000000001 waiting reported
timeout_reports_example =
    timeout_reports wire wire-IsTransport 60000000001 waiting reported check_reports
