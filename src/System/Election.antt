-- ===== src/System/Election.antt =====
-- client/client_fuse.cpp and replica/replica_fuse.cpp together: what it says of a replica that the client counts its
-- p1b or its p2b.
use disk_tees.Prelude.{
  ℕ, minus_one, ◌≤ℤ◌, leb_ℤ_iff, true, false, ◌≡◌, refl, sym, ap, ◌∙◌, inl, inr, none, some, List,
  [], ◌∷◌, ◌++◌, Bytes, ok, Bool-cases,
}
use disk_tees.Shared.Ballot.{ltb_ballot, eqb_ballot}
use disk_tees.Shared.Ballot.Order.{eqb_ballot_iff}
use disk_tees.Shared.IntMap.{find}
use disk_tees.Shared.Os.{Os}
use disk_tees.Shared.Transport.{Transport, IsTransport}
use disk_tees.Shared.Messages.{ClientMsg, ReplicaMsg, P1a, P2a, P1b, P2b, p1b, p2b}
use disk_tees.Shared.Messages.Kind.{get_ballot}
use disk_tees.Replica.State.{Replica}
use disk_tees.Replica.Protocol.{reset_state, promise, on_p1a, on_p2a}
use disk_tees.Replica.Main.{Round, serve}
use disk_tees.Replica.Buffer.{buffer_msg}
use disk_tees.Replica.Fencing.{fenced}
use disk_tees.Replica.Replay.Order.{IsReady}
use disk_tees.Client.State.{Client}
use disk_tees.Client.Receive.{on_p1b, on_p2b}
use disk_tees.Replica.Answers.{
  last_sent, p1b-injective, raise_highest_lem, on_p1a_lem, p2a_answered,
}

-- The client had no p1b of this replica, and keeps this one.
abbrev pub CountsP1b : {V M : Type 0} → P1b → Client V M → Type 0
CountsP1b p c =
    (find p.id c.successful_p1bs ≡ none) × (find p.id (on_p1b p c).successful_p1bs ≡ some p)

abbrev pub CountsP2b : {V M : Type 0} → P2b → Client V M → Type 0
CountsP2b p c =
    (find p.id c.successful_p2bs ≡ none) × (find p.id (on_p2b p c).successful_p2bs ≡ some p)

module _ {V M : Type 0} where
  counted_p1b : (p : P1b) (c : Client V M) → CountsP1b p c → p.highest_ballot ≡ c.r
  unfolding on_p1b
  counted_p1b p c (before, after) = elim (Bool-cases (eqb_ballot p.highest_ballot c.r)) [
    | inl same ↦ (eqb_ballot_iff p.highest_ballot c.r).0 same
    | inr other ↦ let kept = rw other at after in cc
  ]

  counted_p2b : (p : P2b) (c : Client V M) → CountsP2b p c → p.highest_ballot ≡ c.r
  unfolding on_p2b
  counted_p2b p c (before, after) = elim (Bool-cases (eqb_ballot p.highest_ballot c.r)) [
    | inl same ↦ (eqb_ballot_iff p.highest_ballot c.r).0 same
    | inr other ↦ let kept = rw other at after in cc
  ]

module _ {W N : Type 0} (fuel : ℕ) (os : Os W) (tls : Transport ReplicaMsg N) where
  -- Let a replica answer the p1a of a client with a p1b, and let the client count it. Then the p1b says what the
  -- replica had written and in which ballot, and wherever the replica's main loop has come since, its highest ballot
  -- is no lower than the client's, and of a message of a ballot below the client's it takes note of the sender only.
  pub promise_binds :
      {V M : Type 0} (rounds : ℕ) (xs : List Round) (msg : P1a) (p : P1b) (c : Client V M)
      (addr : Bytes) (s u t : Replica W N)
      → IsTransport tls
      → on_p1a fuel os tls msg s ≡ ok u
      → tls.sends u.net ≡ tls.sends s.net ++ (p1b p, addr) ∷ []
      → CountsP1b p c
      → serve fuel os tls rounds xs u ≡ ok t
      → (now : ℕ) (old : ClientMsg) (from : Bytes) → ltb_ballot (get_ballot old) c.r ≡ true
      → (p.written ≡ s.written)
        × (p.normal_ballot ≡ s.normal_ballot)
        × (ltb_ballot t.highest_ballot c.r ≡ false)
        × (buffer_msg fuel os tls now old from t ≡ ok (record t { sender = from }))
  unfolding promise
  promise_binds rounds xs msg p c addr s u t h answered sent counts served now old from low =
      let (highest, sent') = on_p1a_lem fuel os tls msg s u h answered in
      let raised = raise_highest_lem fuel os tls msg.r s in
      let same = ap (λ x. x.0) (last_sent (tls.sends s.net) _ _ (tls.sends u.net) sent' sent) in
      let says = p1b-injective _ p same in
      let bound : u.highest_ballot ≡ c.r =
        highest ∙ ap (λ x. x.highest_ballot) says ∙ counted_p1b p c counts in
      let (above, closed) = fenced fuel os tls rounds xs u t served now old from (rw bound low) in
      (
        sym (ap (λ x. x.written) says) ∙ ap (λ x. x.written) raised,
        sym (ap (λ x. x.normal_ballot) says) ∙ ap (λ x. x.normal_ballot) raised,
        rw bound at above,
        closed,
      )

module _ {W N : Type 0} (os : Os W) (tls : Transport ReplicaMsg N) where
  -- Let a replica answer the p2a of a client with a p2b, and let the client count it. Then the replica is ready for
  -- the writes of the client's ballot behind the number that the p2a has: it has seen no other ballot since, and holds
  -- nothing back.
  pub accepted-IsReady :
      {V M : Type 0} (msg : P2a) (p : P2b) (c : Client V M) (addr : Bytes) (s u : Replica W N)
      → IsTransport tls
      → on_p2a os tls msg s ≡ ok u
      → tls.sends u.net ≡ tls.sends s.net ++ (p2b p, addr) ∷ []
      → msg.r ≡ c.r
      → minus_one ≤ℤ msg.written
      → CountsP2b p c
      → IsReady c.r msg.written u
  unfolding reset_state
  accepted-IsReady msg p c addr s u h e sent own natural counts =
      let (v, n, same, seen) = p2a_answered os tls msg p addr s u h e sent in
      rw same (record {
        at = refl;
        highest = sym seen ∙ counted_p2b p c counts;
        normal = own;
        idle = (leb_ℤ_iff minus_one msg.written).1 natural;
        empty = refl;
      })
