-- ===== src/Client/Main/Elected.antt =====
-- client/main.cpp: the state in which the leader election ends.
use disk_tees.Prelude.{
  ℤ, ◌≡◌, refl, ◌∙◌, inl, inr, true, Option, none, some, List, [], ◌∷◌, Bytes, All, Outcome, ok,
  threw, exited, undefined, out_of_fuel, arith, Bool-cases, Leaves, >>=-Leaves, Leaves-map,
  Leaves-intro,
}
use disk_tees.Shared.Ballot.{eqb_ballot}
use disk_tees.Shared.IntMap.{All-emplace, find}
use disk_tees.Shared.Transport.{Transport, IsTransport}
use disk_tees.Shared.Messages.{ClientMsg, ReplicaMsg, P2b, p1b, disk, p2b, fsync_missing, fsync_ack}
use disk_tees.Client.State.{Client}
use disk_tees.Client.Receive.{
  on_p1b, on_disk, on_p2b, on_fsync_ack, on_fsync_missing, resend_one, resend, visit, settle,
  receive, run_event_loop_once,
}

-- Every stored p2b is for the client's own ballot.
unfoldable pub OwnVotes : {W N : Type 0} → Client W N → Type 0
OwnVotes c = All (λ e. eqb_ballot e.1.highest_ballot c.r ≡ true) c.successful_p2bs

-- A later state of the same client.
pub record Follows {W N : Type 0} (c d : Client W N) : Type 0 where
  pub ballot_kept : d.r ≡ c.r
  pub replicas_kept : d.replicas ≡ c.replicas
  pub own_kept : OwnVotes c → OwnVotes d

-- One that has written and broadcast nothing since.
pub record Listens {W N : Type 0} (tls : Transport ClientMsg N) (c d : Client W N) : Type 0 where
  pub follows : Follows c d
  pub written_kept : d.written ≡ c.written
  pub broadcasts_kept : tls.broadcasts d.net ≡ tls.broadcasts c.net

module _ {W N : Type 0} where
  pub Follows-refl : (c : Client W N) → Follows c c
  Follows-refl c = record { ballot_kept = refl; replicas_kept = refl; own_kept = λ h. h }

  pub Follows-trans : {c d e : Client W N} → Follows c d → Follows d e → Follows c e
  Follows-trans v u = record {
    ballot_kept = u.ballot_kept ∙ v.ballot_kept;
    replicas_kept = u.replicas_kept ∙ v.replicas_kept;
    own_kept = λ h. u.own_kept (v.own_kept h);
  }

  pub Follows-same :
      (c d : Client W N)
      → d.r ≡ c.r
      → d.replicas ≡ c.replicas
      → d.successful_p2bs ≡ c.successful_p2bs
      → Follows c d
  unfolding OwnVotes
  Follows-same c d e1 e2 e3 = record {
    ballot_kept = e1;
    replicas_kept = e2;
    own_kept = λ own. rw (e1, e3) own;
  }

module _ {W N : Type 0} (tls : Transport ClientMsg N) (h : IsTransport tls) where
  pub Listens-refl : (c : Client W N) → Listens tls c c
  Listens-refl c = record { follows = Follows-refl c; written_kept = refl; broadcasts_kept = refl }

  pub Listens-trans : {c d e : Client W N} → Listens tls c d → Listens tls d e → Listens tls c e
  Listens-trans v u = record {
    follows = Follows-trans v.follows u.follows;
    written_kept = u.written_kept ∙ v.written_kept;
    broadcasts_kept = u.broadcasts_kept ∙ v.broadcasts_kept;
  }

  -- A step that touches none of the fields in question.
  Listens-same :
      (c d : Client W N)
      → d.r ≡ c.r
      → d.replicas ≡ c.replicas
      → d.successful_p2bs ≡ c.successful_p2bs
      → d.written ≡ c.written
      → tls.broadcasts d.net ≡ tls.broadcasts c.net
      → Listens tls c d
  Listens-same c d e1 e2 e3 e4 e5 = record {
    follows = Follows-same c d e1 e2 e3;
    written_kept = e4;
    broadcasts_kept = e5;
  }

  resend_one-Listens :
      (msg : Option ClientMsg) (b c : Client W N)
      → Listens tls b c
      → Leaves (Listens tls b) (resend_one tls msg c)
  unfolding resend_one
  resend_one-Listens none b c v = v
  resend_one-Listens (some msg) b c v =
      let sent : (n : N)
          → tls.broadcasts n ≡ tls.broadcasts c.net
          → Listens tls b (record c { net = n }) =
        λ n e. Listens-trans v (Listens-same c (record c { net = n }) refl refl refl refl e) in
      Leaves-map (Listens tls b) (λ n. record c { net = n }) (tls.send msg c.sender c.net)
        (Leaves-intro _ (tls.send msg c.sender c.net)
          (λ n e. sent n (h.broadcasts-send msg c.sender c.net n e))
          (λ n e. sent n (h.broadcasts-throw msg c.sender c.net n e)))

  resend-Listens :
      (holes : List ℤ) (b c : Client W N)
      → Listens tls b c
      → Leaves (Listens tls b) (resend tls holes c)
  unfolding resend
  resend-Listens [] b c v = v
  resend-Listens (hole ∷ holes) b c v =
      >>=-Leaves (Listens tls b) (resend_one tls (find hole c.uncommitted_writes) c)
        (λ d. resend tls holes d) (resend_one-Listens (find hole c.uncommitted_writes) b c v)
        (λ d u. resend-Listens holes b d u)

  vote-Listens : (msg : P2b) (c : Client W N) → Listens tls c (on_p2b msg c)
  unfolding on_p2b OwnVotes
  vote-Listens msg c = elim (Bool-cases (eqb_ballot msg.highest_ballot c.r)) [
    | inl e ↦ rw e (record {
      follows = record {
        ballot_kept = refl;
        replicas_kept = refl;
        own_kept = λ own.
            All-emplace (λ v. eqb_ballot v.highest_ballot c.r ≡ true) msg.id msg c.successful_p2bs e
              own;
      };
      written_kept = refl;
      broadcasts_kept = refl;
    })
    | inr e ↦ rw e (Listens-refl c)
  ]

  visit-Listens : (m : ReplicaMsg) (c : Client W N) → Leaves (Listens tls c) (visit tls m c)
  unfolding visit on_p1b on_disk on_fsync_ack on_fsync_missing
  visit-Listens (p1b msg) c =
      Listens-same c _ (ground arith) (ground arith) (ground arith) (ground arith) (ground arith)
  visit-Listens (disk msg) c =
      Listens-same c _ (ground arith) (ground arith) (ground arith) (ground arith) (ground arith)
  visit-Listens (p2b msg) c = vote-Listens msg c
  visit-Listens (fsync_missing msg) c = resend-Listens msg.holes c c (Listens-refl c)
  visit-Listens (fsync_ack msg) c =
      Listens-same c _ (ground arith) (ground arith) (ground arith) (ground arith) (ground arith)

  settle-Listens :
      (addr : Bytes) (c : Client W N) (o : Outcome (Client W N))
      → Leaves (Listens tls c) o
      → Listens tls c (settle tls addr c o)
  unfolding settle
  settle-Listens addr c (ok d) v = v
  settle-Listens addr c (threw d) v =
      Listens-trans v (Listens-same d _ refl refl refl refl (h.broadcasts-close_socket addr d.net))
  settle-Listens addr c exited v = Listens-refl c
  settle-Listens addr c out_of_fuel v = Listens-refl c
  settle-Listens addr c undefined v = Listens-refl c

  pub run_event_loop_once-Listens :
      (ms : List (Bytes × ReplicaMsg)) (c : Client W N)
      → Listens tls c (run_event_loop_once tls ms c)
  unfolding run_event_loop_once receive
  run_event_loop_once-Listens [] c = Listens-refl c
  run_event_loop_once-Listens ((addr, m) ∷ ms) c =
      let d = record c { sender = addr } in
      Listens-trans (Listens-same c d refl refl refl refl refl) (
        Listens-trans (settle-Listens addr d (visit tls m d) (visit-Listens m d))
          (run_event_loop_once-Listens ms (receive tls (addr, m) c)))
