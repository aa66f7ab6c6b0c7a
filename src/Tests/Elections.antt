-- ===== src/Tests/Elections.antt =====
-- A client that one replica promises and accepts, with nothing written before.
use disk_tees.Prelude.{
  pos, minus_one, ◌≡◌, ◌≤◌, refl, true, false, List, [], ◌∷◌, ◌++◌, codes, length, ltb_ℤ, ◌==ℤ◌,
  ◌+ℤ◌, ok, out_of_fuel,
}
use disk_tees.Shared.Ballot.{zero_ballot, ltb_ballot, eqb_ballot}
use disk_tees.Shared.IntMap.{put, emplace}
use disk_tees.Shared.NetworkConfig.{NetworkConfig, NodeType, config_to_addrs, Addresses}
use disk_tees.Shared.Os.{Syscall}
use disk_tees.Shared.Messages.{ClientMsg, P1b, P2b, Disk, p1b, p2b}
use disk_tees.Client.State.{new_client}
use disk_tees.Client.Receive.{run_event_loop_once}
use disk_tees.Client.Votes.{p1b_quorum, highest_ranking_p1b}
use disk_tees.Client.Main.Disks.{Options, Leader, Stack, wait_until, choose_disk, no_disk}
use disk_tees.Client.Main.Elected.{OwnVotes}
use disk_tees.Client.Main.Ended.{empty_p2a, elected}
use disk_tees.Client.Main.Stuck.{stuck}
use disk_tees.Client.Main.{quorum, ask, p2b_quorum, propose, rebroadcast, elect}
use disk_tees.Tests.World.{logging_os, Wire, quiet, wire, wire-IsTransport, ballot_one}

abbrev options : Options
options = record {
  id = pos 1;
  network = true;
  metrics_on = false;
  trusted_mode = codes "local";
  username = codes "u";
}

abbrev conf : NetworkConfig
conf = (pos 0, codes "10.0.0.2") ∷ []

abbrev promise : P1b
promise = record {
  id = pos 0;
  client_ballot = ballot_one;
  written = minus_one;
  normal_ballot = zero_ballot;
  highest_ballot = ballot_one;
}

abbrev acceptance : P2b
acceptance = record { id = pos 0; client_ballot = ballot_one; highest_ballot = ballot_one }

abbrev candidate : Leader (List Syscall) (Wire ClientMsg)
candidate = record {
  fuse = new_client true false ballot_one (codes "/c") quorum (codes "r:0" ∷ []) [] quiet;
  feed =
      record { msgs = (codes "r:0", p1b promise) ∷ []; late = false }
      ∷ record { msgs = (codes "r:0", p2b acceptance) ∷ []; late = false }
      ∷ [];
  all_conf = conf;
  disk_msg = no_disk;
  no_prior_state = false;
}

abbrev clean : Stack (List Syscall) (Wire ClientMsg)
clean c i = pos 0

abbrev leader : Leader (List Syscall) (Wire ClientMsg)
leader = record {
  fuse = record (candidate.fuse) {
    sender = codes "r:0";
    successful_p2bs = (pos 0, acceptance) ∷ [];
    net = record {
      to_all =
          (
            ClientMsg.p1a (record { seq = pos 0; r = ballot_one; net_conf = conf }),
            config_to_addrs NodeType.replica conf,
          )
          ∷ empty_p2a (candidate.fuse)
          ∷ [];
      to_one = [];
    };
  };
  feed = [];
  all_conf = conf;
  disk_msg = no_disk;
  no_prior_state = true;
}

elect_ends : elect 9 logging_os wire options clean (conf ∷ []) conf candidate ≡ ok leader
unfolding elect ask wait_until choose_disk propose rebroadcast p2b_quorum p1b_quorum
    highest_ranking_p1b run_event_loop_once new_client config_to_addrs ltb_ℤ ltb_ballot eqb_ballot
    ◌==ℤ◌ ◌+ℤ◌ put emplace
elect_ends = refl

elected_example :
    (1 ≤ length leader.fuse.successful_p2bs)
    × OwnVotes leader.fuse
    × (leader.fuse.r ≡ candidate.fuse.r)
    × (before : List (ClientMsg × Addresses)) × (leader.fuse.net.to_all
        ≡ before ++ empty_p2a leader.fuse ∷ [])
unfolding new_client
elected_example =
    elected 9 logging_os wire wire-IsTransport options clean (conf ∷ []) conf candidate leader refl
      elect_ends

-- A disk has been announced.
abbrev copied : Disk
copied = record {
  id = pos 0;
  client_ballot = ballot_one;
  written = pos 0;
  disk_checksum = codes "sum";
}

abbrev restoring : Leader (List Syscall) (Wire ClientMsg)
restoring = record candidate {
  fuse = record (candidate.fuse) {
    successful_p1bs = (pos 0, record promise { written = pos 3 }) ∷ [];
    disk_checksums = (pos 0, copied) ∷ [];
  };
}

stuck_example : choose_disk 5 logging_os wire options clean (conf ∷ []) 4 restoring ≡ out_of_fuel
unfolding highest_ranking_p1b ltb_ℤ ltb_ballot eqb_ballot ◌==ℤ◌
stuck_example =
    stuck 4 logging_os wire options clean (conf ∷ []) (λ m d n. (_, refl)) (λ s w. refl) 4 restoring
      (pos 0, copied, [], refl) refl
