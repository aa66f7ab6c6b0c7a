-- ===== src/Tests/Ends.antt =====
-- One write that waits, one file that is opened, and three ballots.
use disk_tees.Prelude.{pos, ◌==ℤ◌, ◌≡◌, ◌≢◌, refl, List, [], ◌∷◌, codes, ok, out_of_fuel, arith}
use disk_tees.Shared.Convert.{narrow}
use disk_tees.Shared.IntMap.{find, put}
use disk_tees.Shared.Ballot.{Ballot}
use disk_tees.Shared.Os.{Syscall}
use disk_tees.Shared.Messages.{ClientMsg, ReplicaMsg}
use disk_tees.Shared.Messages.Kind.{get_client_msg_type}
use disk_tees.Replica.State.{Replica}
use disk_tees.Replica.Store.{Store, do_open, call, prepend_path, map_handle}
use disk_tees.Replica.Buffer.{redo, drain}
use disk_tees.Replica.Ends.{PendingWrites, drain_ends}
use disk_tees.Replica.Handles.{fd_after, handles_tracked}
use disk_tees.Tests.World.{logging_os, Wire, wire, ballot_one, ready_replica}

abbrev one_waits : Replica (List Syscall) (Wire ReplicaMsg)
one_waits = record ready_replica {
  pending_writes =
      (
        pos 0,
        ClientMsg.mkdir (record { seq = pos 0; r = ballot_one; path = codes "/a"; mode = 0o755 }),
      )
      ∷ [];
}

one_waits-PendingWrites : PendingWrites one_waits
unfolding PendingWrites find get_client_msg_type
one_waits-PendingWrites k m e = ground arith

drain_ends_example : drain 0 logging_os wire 2 one_waits ≢ out_of_fuel
drain_ends_example = drain_ends 0 logging_os wire 2 one_waits one_waits-PendingWrites (omega arith)

abbrev empty : Store (List Syscall)
empty = record { directory = codes "/b/s"; file_handle_converter = []; world = [] }

abbrev open_a : ClientMsg
open_a = ClientMsg.open_file (record {
  seq = pos 0;
  r = ballot_one;
  path = codes "/a";
  fi = record { flags = pos 0; fh = 4 };
})

abbrev opened : Store (List Syscall)
opened = record {
  directory = codes "/b/s";
  file_handle_converter = (pos 4, pos 0) ∷ [];
  world = Syscall.open_file (codes "/b/s/a") (pos 0) ∷ [];
}

open_redone : redo logging_os open_a empty ≡ ok opened
unfolding redo do_open call prepend_path map_handle narrow put ◌==ℤ◌
open_redone = refl

handles_tracked_example :
    find (pos 4) opened.file_handle_converter ≡ fd_after logging_os open_a empty (pos 4)
handles_tracked_example = handles_tracked logging_os open_a empty opened (pos 4) open_redone

abbrev ballot_two : Ballot
ballot_two = record { ballot_num = pos 1; client_id = pos 0; config_num = pos 0 }
