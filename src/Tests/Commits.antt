-- ===== src/Tests/Commits.antt =====
-- A client with one write behind it, and the acknowledgements that it waits for.
use disk_tees.Prelude.{
  pos, ◌+ℤ◌, ◌==ℤ◌, ◌+ℤ◌, ◌≤ℤ◌, ltb_ℤ, leb_ℤ, true, false, ◌≡◌, ◌⊎◌, ◌↔◌, refl, List, [], ◌∷◌, ◌++◌,
  map, codes, ok, All, arith,
}
use disk_tees.Shared.IntMap.{put}
use disk_tees.Shared.Ballot.{zero_ballot}
use disk_tees.Shared.Convert.{narrow}
use disk_tees.Shared.Os.{Syscall}
use disk_tees.Shared.Messages.{ClientMsg, P1b, FsyncAck, FsyncMissing, fsync_ack}
use disk_tees.Client.State.{Client, new_client, call as client_call, prepend_path as client_path}
use disk_tees.Client.Votes.{p1b_quorum, highest_ranking_p1b, no_p1b}
use disk_tees.Client.Election.{EachHasQuorum, OneOf, RanksAbove, p1b_quorum_iff, highest_is_maximal}
use disk_tees.Client.Receive.{on_fsync_ack, on_fsync_missing, run_event_loop_once}
use disk_tees.Client.Acks.{HasQuorum, Entry, on_fsync_ack_commits}
use disk_tees.Client.Calls.Common.{FuseFileInfo, replicate, or_errno}
use disk_tees.Client.Calls.Fsync.{
  Rounds, client_fsync, wait_committed, broadcast_fsync, measure_fsync,
}
use disk_tees.Client.Trace.{Call, perform_all}
use disk_tees.Client.Reports.{Acked, IsBacked}
use disk_tees.Client.Durable.{fsync-IsBacked}
use disk_tees.Client.Calls.Paths.{client_mkdir}
use disk_tees.Client.Waiting.{never_resends}
use disk_tees.Tests.World.{logging_os, Wire, quiet, wire, ballot_one}

abbrev Mounted : Type 0
Mounted = Client (List Syscall) (Wire ClientMsg)

abbrev fresh : Mounted
fresh = new_client true false ballot_one (codes "/c") (pos 1) [] [] quiet

-- It has written two messages.
abbrev ahead : Mounted
ahead = record fresh { written = pos 1 }

abbrev ack : FsyncAck
ack = record { id = pos 0; written = pos 1; r = ballot_one }

on_fsync_ack_commits_example :
    ((on_fsync_ack ack ahead).replica_written ≡ put (pos 0) (pos 1) [])
    × (ahead.replicas_committed ≤ℤ (on_fsync_ack ack ahead).replicas_committed)
    × (((on_fsync_ack ack ahead).replicas_committed ≡ ahead.replicas_committed)
        ⊎ (HasQuorum
              (pos 1)
              (on_fsync_ack ack ahead).replica_written
              (on_fsync_ack ack ahead).replicas_committed
            × All
                (Entry
                  (pos 1)
                  (on_fsync_ack ack ahead).replica_written
                  (on_fsync_ack ack ahead).replicas_committed)
                (on_fsync_ack ack ahead).replica_written))
    × ((on_fsync_ack ack ahead).written ≡ ahead.written)
    × ((on_fsync_ack ack ahead).net ≡ ahead.net)
unfolding new_client
on_fsync_ack_commits_example = on_fsync_ack_commits ack ahead (omega arith)

abbrev missing : FsyncMissing
missing = record { id = pos 0; r = ballot_one; fsync_seq = pos 0; holes = pos 0 ∷ [] }

abbrev one_call : List Call
one_call =
    Call.mkdir (codes "/a") 0o755 ∷ Call.fsync false (record { flags = pos 0; fh = 4 }) 0 0 [] ∷ []

never_resends_example :
    on_fsync_missing wire missing (perform_all logging_os wire one_call fresh)
    ≡ ok (perform_all logging_os wire one_call fresh)
never_resends_example =
    never_resends logging_os wire true false ballot_one (codes "/c") (pos 1) [] [] quiet one_call
      missing

abbrev opened : FuseFileInfo
opened = record { flags = pos 0; fh = 4 }

abbrev promised : P1b
promised = record {
  id = pos 0;
  client_ballot = ballot_one;
  written = pos 3;
  normal_ballot = zero_ballot;
  highest_ballot = ballot_one;
}

abbrev behind : P1b
behind = record promised { id = pos 1; written = pos 2 }

abbrev voted : Mounted
voted = record fresh { successful_p1bs = (pos 0, promised) ∷ (pos 1, behind) ∷ [] }

p1b_quorum_iff_example :
    (p1b_quorum (λ i. pos 0) (((pos 0, codes "a") ∷ (pos 1, codes "b") ∷ []) ∷ []) voted ≡ true)
    ↔ EachHasQuorum (λ i. pos 0) 0 (((pos 0, codes "a") ∷ (pos 1, codes "b") ∷ []) ∷ []) voted
p1b_quorum_iff_example =
    p1b_quorum_iff (λ i. pos 0) (((pos 0, codes "a") ∷ (pos 1, codes "b") ∷ []) ∷ []) voted

highest_is_maximal_example :
    ((highest_ranking_p1b voted ≡ no_p1b) ⊎ OneOf voted.successful_p1bs (highest_ranking_p1b voted))
    × All (λ e. ¬ RanksAbove e.1 (highest_ranking_p1b voted)) voted.successful_p1bs
highest_is_maximal_example = highest_is_maximal voted

-- Two directories, and an fsync that waits until one replica has both.
abbrev two_calls : List Call
two_calls = Call.mkdir (codes "/a") 0o755 ∷ Call.mkdir (codes "/b") 0o755 ∷ []

abbrev busy : Mounted
busy = perform_all logging_os wire two_calls fresh

abbrev acks_of_both : Rounds
acks_of_both = [] ∷ ((codes "r:0", fsync_ack (record ack { written = pos 1 })) ∷ []) ∷ []

abbrev durable : Mounted
durable =
    run_event_loop_once wire ((codes "r:0", fsync_ack (record ack { written = pos 1 })) ∷ []) (
      broadcast_fsync wire opened
        (record busy { world = busy.world ++ Syscall.fsync (pos 4) ∷ [] }))

busy_fsync_returns :
    client_fsync logging_os wire false opened 0 0 acks_of_both busy ≡ ok (pos 0, durable)
unfolding client_fsync wait_committed broadcast_fsync measure_fsync run_event_loop_once new_client
    perform_all client_mkdir or_errno replicate client_path client_call ltb_ℤ leb_ℤ ◌==ℤ◌ ◌+ℤ◌ put
    narrow
busy_fsync_returns = refl

busy_network : busy.network ≡ true
unfolding new_client perform_all client_mkdir or_errno replicate client_call ◌==ℤ◌
busy_network = refl

fsync-IsBacked_example :
    (pos 0 ≡ pos 0)
    × (busy.written ≤ℤ durable.replicas_committed)
    × IsBacked
        (Acked (two_calls ++ map Call.messages acks_of_both))
        (pos 1)
        durable.replicas_committed
unfolding ◌==ℤ◌
fsync-IsBacked_example =
    fsync-IsBacked logging_os wire true false ballot_one (codes "/c") (pos 1) [] [] quiet two_calls
      false opened 0 0 acks_of_both busy_network refl (pos 0) durable busy_fsync_returns
