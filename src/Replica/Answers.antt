-- ===== src/Replica/Answers.antt =====
-- replica/replica_fuse.cpp: what a replica sends when it answers p1a and p2a, and what it is then.
use disk_tees.Prelude.{
  ℕ, ◌≡◌, refl, sym, ap, ◌∙◌, inl, inr, List, [], ◌∷◌, ◌++◌, Bytes, if◌then◌else◌, length,
  length-append, ok, >>=-eq-ok, map_outcome-eq-ok, if-eq-ok, arith, Bool-cases,
}
use mathlib.Core.List.{append_cancel_left}
use disk_tees.Shared.Ballot.{Ballot, ltb_ballot}
use disk_tees.Shared.Os.{Os}
use disk_tees.Shared.Transport.{Transport, IsTransport}
use disk_tees.Shared.Messages.{ReplicaMsg, P1a, P2a, P1b, P2b, p1b, p2b}
use disk_tees.Replica.State.{Replica}
use disk_tees.Replica.Protocol.{
  raise_highest, adopt_config, reset_state, promise, reply, accept_ballot, join_config, unzip_disk,
  close_all, on_p1a, on_p2a,
}

-- What was sent last.
pub last_sent :
    {A : Type 0} (xs : List A) (x y : A) (zs : List A)
    → zs ≡ xs ++ x ∷ []
    → zs ≡ xs ++ y ∷ []
    → x ≡ y
last_sent xs x y zs e k =
    let same : x ∷ [] ≡ y ∷ [] = append_cancel_left xs _ _ (sym e ∙ k) in ground arith

pub p1b-injective : (a b : P1b) → p1b a ≡ p1b b → a ≡ b
p1b-injective a b e = ground arith

p2b-injective : (a b : P2b) → p2b a ≡ p2b b → a ≡ b
p2b-injective a b e = ground arith

sent_something : {A : Type 0} (xs : List A) (x : A) → xs ≡ xs ++ x ∷ [] → ⊥
sent_something xs x e = absurd (omega (arith, ap length e, length-append xs (x ∷ [])))

module _ {W N : Type 0} (tls : Transport ReplicaMsg N) (h : IsTransport tls) where
  reply_lem :
      (m : ReplicaMsg) (addr : Bytes) (s u : Replica W N)
      → reply tls m addr s ≡ ok u
      → (n : N) × (u ≡ record s { net = n }) × (tls.sends n ≡ tls.sends s.net ++ (m, addr) ∷ [])
  unfolding reply
  reply_lem m addr s u e =
      let (n, sent, same) = map_outcome-eq-ok _ (tls.send m addr s.net) u e in
      (n, sym same, h.sends-send m addr s.net n sent)

  accept_ballot_lem :
      (msg : P2a) (s u : Replica W N)
      → accept_ballot tls msg s ≡ ok u
      → (n : N) × (u ≡ record s { net = n })
        × (tls.sends n
            ≡ tls.sends s.net
              ++ (
                p2b (record {
                  id = s.conf.id;
                  client_ballot = msg.r;
                  highest_ballot = s.highest_ballot;
                }),
                s.sender,
              )
                ∷ [])
  unfolding accept_ballot
  accept_ballot_lem msg s u e =
      let (t, connected, answered) = >>=-eq-ok _ _ e in
      let (n, new, same) =
        map_outcome-eq-ok (λ n. record s { net = n }) (tls.new_network s.new_connections s.net) t
          connected in
      let (n', same', sent) =
        reply_lem _ s.sender (record s { net = n }) u (rw (sym same) at answered) in
      (n', same', rw (h.sends-new_network s.new_connections s.net n new) at sent)

module _ {W N : Type 0} (fuel : ℕ) (os : Os W) (tls : Transport ReplicaMsg N) where
  join_config_lem :
      (msg : P1a) (s u : Replica W N)
      → join_config fuel os tls msg s ≡ ok u
      → (u.highest_ballot ≡ s.highest_ballot) × (u.net ≡ s.net)
  unfolding join_config adopt_config
  join_config_lem msg s u e =
      let (c, _, same) = map_outcome-eq-ok _ _ u e in
      (sym (ap (λ t. t.highest_ballot) same), sym (ap (λ t. t.net) same))

  pub raise_highest_lem :
      (r : Ballot) (s : Replica W N)
      → raise_highest r s ≡ record s { highest_ballot = (raise_highest r s).highest_ballot }
  unfolding raise_highest
  raise_highest_lem r s = elim (Bool-cases (ltb_ballot s.highest_ballot r)) [
    | inl up ↦ rw up refl
    | inr same ↦ rw same refl
  ]

  p1a_ends :
      (msg : P1a) (v u : Replica W N)
      → (if ltb_ballot msg.r v.highest_ballot then ok v else join_config fuel os tls msg v) ≡ ok u
      → (u.highest_ballot ≡ v.highest_ballot) × (u.net ≡ v.net)
  p1a_ends msg v u e = elim (Bool-cases (ltb_ballot msg.r v.highest_ballot)) [
    | inl old ↦
        let done : ok v ≡ ok u = rw old at e in
        let same : v ≡ u = ground arith in
        (ap (λ t. t.highest_ballot) (sym same), ap (λ t. t.net) (sym same))
    | inr current ↦ join_config_lem msg v u (rw current at e)
  ]

  -- What p1a does to the highest ballot, and what it answers.
  pub on_p1a_lem :
      (msg : P1a) (s u : Replica W N)
      → IsTransport tls
      → on_p1a fuel os tls msg s ≡ ok u
      → (u.highest_ballot ≡ (raise_highest msg.r s).highest_ballot)
        × (tls.sends u.net
            ≡ tls.sends s.net ++ (promise msg (raise_highest msg.r s), s.sender) ∷ [])
  unfolding on_p1a
  on_p1a_lem msg s u h e =
      let t = raise_highest msg.r s in
      let raised = raise_highest_lem msg.r s in
      let (v, answered, joined) = >>=-eq-ok (reply tls (promise msg t) t.sender t) _ e in
      let (n, same, sent) = reply_lem tls h (promise msg t) t.sender t v answered in
      let (highest, net) = p1a_ends msg v u joined in
      let to : t.sender ≡ s.sender = ap (λ x. x.sender) raised in
      let from : t.net ≡ s.net = ap (λ x. x.net) raised in
      (
        highest ∙ ap (λ x. x.highest_ballot) same,
        ap tls.sends (net ∙ ap (λ x. x.net) same)
            ∙ sent
            ∙ ap (λ x. tls.sends x ++ (promise msg t, t.sender) ∷ []) from
            ∙ ap (λ x. tls.sends s.net ++ (promise msg t, x) ∷ []) to,
      )

module _ {W N : Type 0} (os : Os W) (tls : Transport ReplicaMsg N) where
  -- Where p2a is answered, the state has been reset.
  pub p2a_answered :
      (msg : P2a) (p : P2b) (addr : Bytes) (s u : Replica W N)
      → IsTransport tls
      → on_p2a os tls msg s ≡ ok u
      → tls.sends u.net ≡ tls.sends s.net ++ (p2b p, addr) ∷ []
      → (v : Replica W N) × (n : N) × (u ≡ record (reset_state msg v) { net = n })
        × (p.highest_ballot ≡ v.highest_ballot)
  unfolding on_p2a reset_state
  p2a_answered msg p addr s u h e sent =
      let (unzipped, store) =
        unzip_disk os msg s (close_all os s.store.file_handle_converter s.store) in
      let t = record s { store = store } in
      elim (if-eq-ok (ltb_ballot msg.r s.highest_ballot) (ok s) _ u e) [
        | inl (_, e1) ↦ absurd (nothing_sent s (ok-injective s u e1) refl)
        | inr (_, e1) ↦
            elim (if-eq-ok unzipped (accept_ballot tls msg (reset_state msg t)) (ok t) u e1) [
              | inr (_, e2) ↦ absurd (nothing_sent t (ok-injective t u e2) refl)
              | inl (_, e2) ↦
                  let (n, same, sent') = accept_ballot_lem tls h msg (reset_state msg t) u e2 in
                  let answer =
                    ap (λ x. x.0)
                      (last_sent (tls.sends s.net) _ _ (tls.sends u.net)
                        (ap (λ x. tls.sends x.net) same ∙ sent') sent) in
                  (t, n, same, ap (λ x. x.highest_ballot) (sym (p2b-injective _ p answer)))
            ]
      ]
    where
      ok-injective : (a b : Replica W N) → ok a ≡ ok b → a ≡ b
      ok-injective a b x = ground arith

      nothing_sent : (a : Replica W N) → a ≡ u → a.net ≡ s.net → ⊥
      nothing_sent a x y =
          sent_something (tls.sends s.net) (p2b p, addr)
            (sym (ap tls.sends (ap (λ v. v.net) (sym x) ∙ y)) ∙ sent)
