-- ===== src/Client/Steady.antt =====
-- client/client_fuse.cpp: what a message, a round of the event loop and the loop of fsync leave alone at a client that
-- keeps no write for resending.
use disk_tees.Prelude.{
  ℤ, ltb_ℤ, ◌≤ℤ◌, ltb_ℤ_iff, ◌≡◌, refl, sym, ap, ◌∙◌, inl, inr, none, List, [], ◌∷◌, Bytes, ok,
  arith, Bool-cases, ◌>>=◌,
}
use disk_tees.Shared.IntMap.{find, put}
use disk_tees.Shared.Transport.{Transport}
use disk_tees.Shared.Messages.{
  ClientMsg, ReplicaMsg, FsyncAck, p1b, disk, p2b, fsync_missing, fsync_ack,
}
use disk_tees.Client.State.{Client}
use disk_tees.Client.Receive.{
  largest_quorum_written, on_p1b, on_disk, on_p2b, on_fsync_ack, on_fsync_missing, resend_one,
  resend, visit, settle, receive, run_event_loop_once,
}
use disk_tees.Client.Calls.Fsync.{Rounds, wait_committed}

-- A later state of the same client: nothing was written or kept, and no commit was taken back.
pub record Steady {W N : Type 0} (c d : Client W N) : Type 0 where
  pub written : d.written ≡ c.written
  pub kept : d.uncommitted_writes ≡ []
  pub grows : c.replicas_committed ≤ℤ d.replicas_committed
  pub net_same : d.net ≡ c.net
  pub replicas_same : d.replicas ≡ c.replicas
  pub ballot_same : d.r ≡ c.r

module _ {W N : Type 0} (tls : Transport ClientMsg N) where
  none_found :
      (hole : ℤ) (c : Client W N)
      → c.uncommitted_writes ≡ []
      → find hole c.uncommitted_writes ≡ none
  unfolding find
  none_found hole c h = rw h refl

  -- With nothing kept there is nothing to resend.
  pub resend_none :
      (holes : List ℤ) (c : Client W N) → c.uncommitted_writes ≡ [] → resend tls holes c ≡ ok c
  unfolding resend resend_one find
  resend_none [] c h = refl
  resend_none (hole ∷ holes) c h =
      ap (λ o. resend_one tls o c >>= λ d. resend tls holes d) (none_found hole c h)
      ∙ resend_none holes c h

  commit_grows :
      (msg : FsyncAck) (c : Client W N)
      → c.replicas_committed ≤ℤ (on_fsync_ack msg c).replicas_committed
  unfolding on_fsync_ack
  commit_grows msg c = ground (
    arith,
    ltb_ℤ_iff c.replicas_committed
        (largest_quorum_written c.quorum (put msg.id msg.written c.replica_written)),
  )

  visit-Steady :
      (m : ReplicaMsg) (c : Client W N)
      → c.uncommitted_writes ≡ []
      → (d : Client W N) × (visit tls m c ≡ ok d) × Steady c d
  unfolding visit on_p1b on_disk on_p2b on_fsync_ack on_fsync_missing
  visit-Steady (p1b msg) c h = (
    _,
    refl,
    record {
      written = ground arith;
      kept = ground arith;
      grows = ground arith;
      net_same = ground arith;
      replicas_same = ground arith;
      ballot_same = ground arith;
    },
  )
  visit-Steady (disk msg) c h = (
    _,
    refl,
    record {
      written = ground arith;
      kept = ground arith;
      grows = ground arith;
      net_same = ground arith;
      replicas_same = ground arith;
      ballot_same = ground arith;
    },
  )
  visit-Steady (p2b msg) c h = (
    _,
    refl,
    record {
      written = ground arith;
      kept = ground arith;
      grows = ground arith;
      net_same = ground arith;
      replicas_same = ground arith;
      ballot_same = ground arith;
    },
  )
  visit-Steady (fsync_missing msg) c h = (
    c,
    resend_none msg.holes c h,
    record {
      written = refl;
      kept = h;
      grows = omega arith;
      net_same = refl;
      replicas_same = refl;
      ballot_same = refl;
    },
  )
  visit-Steady (fsync_ack msg) c h = (
    _,
    refl,
    record {
      written = ground arith;
      kept = ground arith;
      grows = commit_grows msg c;
      net_same = ground arith;
      replicas_same = ground arith;
      ballot_same = ground arith;
    },
  )

  pub receive-Steady :
      (m : Bytes × ReplicaMsg) (c : Client W N)
      → c.uncommitted_writes ≡ []
      → Steady c (receive tls m c)
  unfolding receive settle
  receive-Steady (addr, msg) c h =
      let (d, e, v) = visit-Steady msg (record c { sender = addr }) h in
      rw e (record {
        written = v.written;
        kept = v.kept;
        grows = v.grows;
        net_same = v.net_same;
        replicas_same = v.replicas_same;
        ballot_same = v.ballot_same;
      })

  round-Steady :
      (ms : List (Bytes × ReplicaMsg)) (c : Client W N)
      → c.uncommitted_writes ≡ []
      → Steady c (run_event_loop_once tls ms c)
  unfolding run_event_loop_once
  round-Steady [] c h = record {
    written = refl;
    kept = h;
    grows = omega arith;
    net_same = refl;
    replicas_same = refl;
    ballot_same = refl;
  }
  round-Steady (m ∷ ms) c h =
      let v = receive-Steady m c h in
      let u = round-Steady ms (receive tls m c) v.kept in
      record {
        written = u.written ∙ v.written;
        kept = u.kept;
        grows = omega (arith, u.grows, v.grows);
        net_same = u.net_same ∙ v.net_same;
        replicas_same = u.replicas_same ∙ v.replicas_same;
        ballot_same = u.ballot_same ∙ v.ballot_same;
      }

  same : (c d : Client W N) → c.uncommitted_writes ≡ [] → c ≡ d → Steady c d
  same c d h e = record {
    written = ap (λ x. x.written) (sym e);
    kept = ap (λ x. x.uncommitted_writes) (sym e) ∙ h;
    grows = rw⁻¹ e (omega arith);
    net_same = ap (λ x. x.net) (sym e);
    replicas_same = ap (λ x. x.replicas) (sym e);
    ballot_same = ap (λ x. x.r) (sym e);
  }

  pub wait-Steady :
      (rounds : Rounds) (c d : Client W N)
      → c.uncommitted_writes ≡ []
      → wait_committed tls rounds c ≡ ok d
      → Steady c d
  unfolding wait_committed
  wait-Steady [] c d h e = same c d h (ground arith)
  wait-Steady (msgs ∷ rounds) c d h e = elim (Bool-cases (ltb_ℤ c.replicas_committed c.written)) [
    | inl more ↦
        let v = round-Steady msgs c h in
        let u = wait-Steady rounds (run_event_loop_once tls msgs c) d v.kept (rw more at e) in
        record {
          written = u.written ∙ v.written;
          kept = u.kept;
          grows = omega (arith, u.grows, v.grows);
          net_same = u.net_same ∙ v.net_same;
          replicas_same = u.replicas_same ∙ v.replicas_same;
          ballot_same = u.ballot_same ∙ v.ballot_same;
        }
    | inr done ↦ same c d h (ground arith)
  ]
