-- ===== src/Replica/Serving.antt =====
-- replica/main.cpp and replica/replica_fuse.cpp: what waits at a replica, from its start on.
use disk_tees.Prelude.{ℕ, ◌<◌, ◌≡◌, ◌≢◌, List, ok, out_of_fuel, length, arith, Bool-cases, inl, inr}
use disk_tees.Shared.IntMap.{find, find-put, find-erase}
use disk_tees.Shared.Ballot.{Ballot, ltb_ballot}
use disk_tees.Shared.NetworkConfig.{NetworkConfig}
use disk_tees.Shared.Os.{Os}
use disk_tees.Shared.Transport.{Transport}
use disk_tees.Shared.Messages.{ReplicaMsg}
use disk_tees.Shared.Messages.Kind.{get_seq}
use disk_tees.Replica.State.{Config, Replica, new_replica}
use disk_tees.Replica.Protocol.{raise_highest, adopt_config, reset_state}
use disk_tees.Replica.Buffer.{drain}
use disk_tees.Replica.Main.{Round, serve}
use disk_tees.Replica.Start.{start}
use disk_tees.Replica.Kept.{IsKept}
use disk_tees.Replica.Kept.Rounds.{serve-Kept}
use disk_tees.Replica.Ends.{PendingWrites, drain_ends}

module _ {W N : Type 0} where
  raise-PendingWrites :
      (b : Ballot) (s : Replica W N) → PendingWrites s → PendingWrites (raise_highest b s)
  unfolding raise_highest PendingWrites
  raise-PendingWrites b s h = elim (Bool-cases (ltb_ballot s.highest_ballot b)) [
    | inl up ↦ rw up h
    | inr same ↦ rw same h
  ]

  PendingWrites-IsKept : IsKept (PendingWrites {W = W} {N = N})
  unfolding PendingWrites adopt_config reset_state find
  PendingWrites-IsKept = record {
    net = λ s n h. h;
    stored = λ s t h. h;
    from = λ s addr h. h;
    raised = raise-PendingWrites;
    adopted = λ msg s h. h;
    joined = λ s t addr h. h;
    reset = λ msg s h j m e. cc;
    counted = λ s n h. h;
    waits = λ msg s w h j m e. ground (arith, find-put (get_seq msg) j msg s.pending_writes, h j m);
    done = λ s n h j m e. h j m (ground (arith, find-erase n j s.pending_writes));
    remembered = λ s p now h. h;
    acked = λ s n h. h;
    reported = λ s now h. h;
  }

  start-PendingWrites :
      (conf : Config) (ccf_conf : NetworkConfig) (w : W) (n : N)
      → PendingWrites (start conf ccf_conf w n)
  unfolding start new_replica PendingWrites find
  start-PendingWrites conf ccf_conf w n j m e = cc

  -- However many rounds a replica has served since its start, whatever has arrived, only writes wait, and the loop of
  -- `processPendingMessages` ends within one round more than there are of them.
  pub serving_ends :
      (fuel : ℕ) (os : Os W) (tls : Transport ReplicaMsg N) (conf : Config)
      (ccf_conf : NetworkConfig) (w : W) (n : N) (upto rounds : ℕ) (xs : List Round)
      (s : Replica W N)
      → serve fuel os tls upto xs (start conf ccf_conf w n) ≡ ok s
      → length s.pending_writes < rounds
      → PendingWrites s × (drain fuel os tls rounds s ≢ out_of_fuel)
  serving_ends fuel os tls conf ccf_conf w n upto rounds xs s e enough =
      let only : PendingWrites s = rw e at (
        serve-Kept PendingWrites PendingWrites-IsKept fuel os tls upto xs (start conf ccf_conf w n)
          (start-PendingWrites conf ccf_conf w n)) in
      (only, drain_ends fuel os tls rounds s only enough)
