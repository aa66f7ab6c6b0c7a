-- ===== src/Replica/Fencing.antt =====
-- replica/replica_fuse.cpp: the highest ballot as a fence, over everything that can happen to a replica.
use disk_tees.Prelude.{ℕ, ◌≡◌, refl, true, false, List, Bytes, ok, arith, Bool-cases, inl, inr}
use disk_tees.Shared.Ballot.{Ballot, ltb_ballot}
use disk_tees.Shared.Ballot.Order.{ltb_ballot_irrefl, not_lt_trans, not_lt_of_lt}
use disk_tees.Shared.Os.{Os}
use disk_tees.Shared.Transport.{Transport}
use disk_tees.Shared.Messages.{ClientMsg, ReplicaMsg}
use disk_tees.Shared.Messages.Kind.{get_ballot}
use disk_tees.Replica.State.{Replica}
use disk_tees.Replica.Protocol.{raise_highest, adopt_config, reset_state}
use disk_tees.Replica.Main.{Round, serve}
use disk_tees.Replica.Buffer.{buffer_msg}
use disk_tees.Replica.Kept.{IsKept}
use disk_tees.Replica.Kept.Rounds.{serve-Kept}

module _ {W N : Type 0} (r : Ballot) where
  -- The highest ballot that was seen is `r` or above.
  Above : Replica W N → Type 0
  Above s = ltb_ballot s.highest_ballot r ≡ false

  raise_highest-Above : (b : Ballot) (s : Replica W N) → Above s → Above (raise_highest b s)
  unfolding raise_highest Above
  raise_highest-Above b s h = elim (Bool-cases (ltb_ballot s.highest_ballot b)) [
    | inl up ↦ rw up (not_lt_trans b s.highest_ballot r (not_lt_of_lt _ _ up) h)
    | inr same ↦ rw same h
  ]

  Above-IsKept : IsKept Above
  unfolding Above adopt_config reset_state
  Above-IsKept = record {
    net = λ s n h. h;
    stored = λ s t h. h;
    from = λ s addr h. h;
    raised = raise_highest-Above;
    adopted = λ msg s h. h;
    joined = λ s t addr h. h;
    reset = λ msg s h. h;
    counted = λ s n h. h;
    waits = λ msg s e h. h;
    done = λ s n h. h;
    remembered = λ s p now h. h;
    acked = λ s n h. h;
    reported = λ s now h. h;
  }

-- A replica that has seen a ballot is closed to every lower one for good: wherever its main loop has
-- come since, through whatever messages, exceptions, pending writes and timeouts, its highest ballot is
-- no lower, and of a message of a lower ballot it takes note of the sender only.
pub fenced :
    {W N : Type 0} (fuel : ℕ) (os : Os W) (tls : Transport ReplicaMsg N) (rounds : ℕ)
    (xs : List Round) (s t : Replica W N)
    → serve fuel os tls rounds xs s ≡ ok t
    → (now : ℕ) (msg : ClientMsg) (addr : Bytes)
    → ltb_ballot (get_ballot msg) s.highest_ballot ≡ true
    → (ltb_ballot t.highest_ballot s.highest_ballot ≡ false)
      × (buffer_msg fuel os tls now msg addr t ≡ ok (record t { sender = addr }))
unfolding buffer_msg Above
fenced fuel os tls rounds xs s t e now msg addr low =
    let above : ltb_ballot t.highest_ballot s.highest_ballot ≡ false = rw e at (
      serve-Kept (Above s.highest_ballot) (Above-IsKept s.highest_ballot) fuel os tls rounds xs s
        (ltb_ballot_irrefl s.highest_ballot)) in
    let closed : ltb_ballot (get_ballot msg) t.highest_ballot ≡ true =
      ground (arith, not_lt_trans (get_ballot msg) t.highest_ballot s.highest_ballot) in
    (above, rw closed refl)
