-- ===== src/Client/Quorums.antt =====
-- client/main.cpp and client/client_fuse.cpp: a quorum of one replica, for what is committed and for who leads.
use disk_tees.Prelude.{
  ℤ, pos, ◌+ℤ◌, ◌<ℤ◌, ltb_ℤ, leb_ℤ, ltb_ℤ_iff, eqb_ℤ_iff, Bool, true, false, ◌≡◌, ◌≢◌, refl, [],
  ◌∷◌, Bytes, arith,
}
use disk_tees.Shared.Ballot.{Ballot}
use disk_tees.Shared.Ballot.Order.{eqb_ballot_iff}
use disk_tees.Shared.IntMap.{contains, put, emplace}
use disk_tees.Shared.NetworkConfig.{NetworkConfig, Addresses}
use disk_tees.Shared.Messages.{P1b, FsyncAck}
use disk_tees.Client.State.{Client, new_client}
use disk_tees.Client.Receive.{
  num_written, largest_quorum_from, largest_quorum_written, on_p1b, on_fsync_ack,
}
use disk_tees.Client.Votes.{p1b_quorum, p1b_quorum_from, count_p1bs}
use disk_tees.Client.Main.{quorum}

-- What one entry alone commits.
one_entry : (id w : ℤ) → pos 0 <ℤ w → largest_quorum_written quorum ((id, w) ∷ []) ≡ w
unfolding largest_quorum_written largest_quorum_from num_written ltb_ℤ leb_ℤ ◌+ℤ◌
one_entry id w above = ground arith

no_other : (j k : ℤ) (p : P1b) → j ≢ k → contains k ((j, p) ∷ []) ≡ false
unfolding contains
no_other j k p other = ground (arith, eqb_ℤ_iff j k)

module _ {W N : Type 0} where
  -- The first acknowledgement that a client hears commits what it reports.
  one_ack_commits :
      (ack : FsyncAck) (c : Client W N)
      → c.quorum ≡ quorum
      → c.replica_written ≡ []
      → c.replicas_committed ≡ pos 0
      → pos 0 <ℤ ack.written
      → (on_fsync_ack ack c).replicas_committed ≡ ack.written
  unfolding on_fsync_ack put
  one_ack_commits ack c q fresh none above =
      let more : leb_ℤ ack.written (pos 0) ≡ false = unfold leb_ℤ in ground arith in
      let up : ltb_ℤ (pos 0) ack.written ≡ true = (ltb_ℤ_iff (pos 0) ack.written).1 above in
      rw (none, more, fresh, q, one_entry ack.id ack.written above, up) refl

  one_promise_leads :
      (p : P1b) (config : NetworkConfig) (c : Client W N)
      → c.quorum ≡ quorum
      → c.successful_p1bs ≡ (p.id, p) ∷ []
      → contains p.id config ≡ true
      → p1b_quorum (λ i. pos 0) (config ∷ []) c ≡ true
  unfolding p1b_quorum p1b_quorum_from count_p1bs ltb_ℤ ◌+ℤ◌
  one_promise_leads p config c q only there = rw (only, there, q) refl

  promise_alone :
      (p : P1b) (c : Client W N)
      → p.highest_ballot ≡ c.r
      → c.successful_p1bs ≡ []
      → (on_p1b p c).successful_p1bs ≡ (p.id, p) ∷ []
  unfolding on_p1b emplace contains put
  promise_alone p c own fresh =
      let same = (eqb_ballot_iff p.highest_ballot c.r).1 own in rw (same, fresh) refl

  on_p1b-quorum : (p : P1b) (c : Client W N) → (on_p1b p c).quorum ≡ c.quorum
  unfolding on_p1b
  on_p1b-quorum p c = ground arith

  -- Let a new client hear first of all that one replica has written a number above 0, and let the next client of a
  -- configuration hear the promise of another replica of it for its own ballot. Then the first client takes that number
  -- for committed, and the second has its quorum of promises, with counters that start at 0, and none from the replica
  -- that acknowledged.
  pub quorums_miss :
      (b b' : Ballot) (metrics metrics' : Bool) (point point' : Bytes) (rs rs' : Addresses)
      (w w' : W) (n n' : N) (config : NetworkConfig) (ack : FsyncAck) (p : P1b)
      → pos 0 <ℤ ack.written
      → contains p.id config ≡ true
      → p.id ≢ ack.id
      → p.highest_ballot ≡ b'
      → let c = on_fsync_ack ack (new_client true metrics b point quorum rs w n) in
        let d = on_p1b p (new_client true metrics' b' point' quorum rs' w' n') in
        (c.replicas_committed ≡ ack.written)
        × (p1b_quorum (λ i. pos 0) (config ∷ []) d ≡ true)
        × (contains ack.id d.successful_p1bs ≡ false)
  unfolding new_client
  quorums_miss b b' metrics metrics' point point' rs rs' w w' n n' config ack p above there other
        own =
      let d = new_client true metrics' b' point' quorum rs' w' n' in
      let only = promise_alone p d own refl in
      (
        one_ack_commits ack (new_client true metrics b point quorum rs w n) refl refl refl above,
        one_promise_leads p config (on_p1b p d) (on_p1b-quorum p d) only there,
        rw only (no_other p.id ack.id p other),
      )
