-- ===== src/Replica/Replay/Taking.antt =====
-- replica/replica_fuse.cpp: what a replica that is ready for a ballot does with the next write, and with an fsync.
use disk_tees.Prelude.{
  ℕ, suc, ℤ, pos, ◌+ℤ◌, leb_ℤ, leb_ℤ_iff, eqb_ℤ_iff, ◌≡◌, refl, sym, ap, ◌∙◌, ◌⊎◌, inl, inr, true,
  false, none, Bytes, ok, threw, arith,
}
use disk_tees.Shared.Ballot.{Ballot, ltb_ballot, eqb_ballot}
use disk_tees.Shared.Ballot.Order.{ltb_ballot_irrefl, eqb_ballot_iff}
use disk_tees.Shared.IntMap.{find}
use disk_tees.Shared.Os.{Os}
use disk_tees.Shared.Transport.{Transport}
use disk_tees.Shared.Messages.{ClientMsg, ReplicaMsg, FsyncParams, fsync_ack}
use disk_tees.Shared.Messages.Kind.{get_client_msg_type, get_seq, get_ballot}
use disk_tees.Shared.Messages.Stream.{IsNextWrite}
use disk_tees.Replica.Store.{Store}
use disk_tees.Replica.State.{Replica, ballot_is_valid}
use disk_tees.Replica.Protocol.{reply, on_fsync}
use disk_tees.Replica.Buffer.{
  redo, ready, visit, visit_next, buffer_write, buffer_fsync, buffer_msg, drain,
  process_pending_messages, check_fsync_timeout,
}
use disk_tees.Replica.Main.{caught}
use disk_tees.Replica.Replay.Invariant.{visit-write}
use disk_tees.Replica.Replay.Drain.{ack_fsync-idle}
use disk_tees.Replica.Replay.Order.{IsReady}

-- A send ends: it returns, or it throws.
unfoldable pub IsAnswering : {N : Type 0} → Transport ReplicaMsg N → Type 0
IsAnswering {N} tls =
    (m : ReplicaMsg) (d : Bytes) (n : N)
    → (n' : N) × ((tls.send m d n ≡ ok n') ⊎ (tls.send m d n ≡ threw n'))

module _ {W N : Type 0} (fuel : ℕ) (os : Os W) (tls : Transport ReplicaMsg N) (b : Ballot) where
  current : (n : ℤ) (s : Replica W N) → IsReady b n s → ballot_is_valid s b ≡ true
  unfolding ballot_is_valid
  current n s v = rw (v.highest, v.normal) (ground (arith, ltb_ballot_irrefl b, eqb_ballot_iff b b))

  from_sender :
      (n : ℤ) (s : Replica W N) (addr : Bytes)
      → IsReady b n s
      → IsReady b n (record s { sender = addr })
  from_sender n s addr v = record {
    at = v.at;
    highest = v.highest;
    normal = v.normal;
    idle = v.idle;
    empty = v.empty;
  }

  not_below :
      (n : ℤ) (s : Replica W N) (r : Ballot)
      → IsReady b n s
      → r ≡ b
      → ltb_ballot r s.highest_ballot ≡ false
  not_below n s r v e = rw (e, v.highest) (ltb_ballot_irrefl b)

  -- Nothing is pending and no fsync waits.
  nothing_found : (n : ℤ) (s : Replica W N) → IsReady b n s → ready s ≡ none
  unfolding ready find
  nothing_found n s v = rw (v.empty) refl

  pub quiet :
      (rounds : ℕ) (n : ℤ) (s : Replica W N)
      → IsReady b n s
      → process_pending_messages fuel os tls (suc rounds) s ≡ ok s
  unfolding process_pending_messages drain
  quiet rounds n s v =
      let none_next = nothing_found n s v in
      rw (drain, none_next) (ack_fsync-idle fuel os tls s v.idle)

  pub no_timeout :
      (now : ℕ) (n : ℤ) (s : Replica W N) → IsReady b n s → check_fsync_timeout tls now s ≡ ok s
  unfolding check_fsync_timeout
  no_timeout now n s v = rw (v.idle) refl

  -- The next write is redone when it arrives.
  write_branch :
      (m : ClientMsg) (n : ℤ) (s : Replica W N) (u : Store W)
      → IsReady b n s
      → IsNextWrite b n m
      → redo os m s.store ≡ ok u
      → buffer_write fuel os tls m s ≡ ok (record s { store = u; written = s.written +ℤ pos 1 })
  unfolding buffer_write visit_next
  write_branch m n s u v i e =
      let seq : get_seq m ≡ s.written +ℤ pos 1 = i.seq ∙ ap (λ k. k +ℤ pos 1) (sym v.at) in
      let next = (eqb_ℤ_iff (get_seq m) (s.written +ℤ pos 1)).1 seq in
      rw (i.ballot, current n s v, next, visit-write fuel os tls m s i.kind, e) refl

  pub write_taken :
      (now : ℕ) (addr : Bytes) (m : ClientMsg) (n : ℤ) (s : Replica W N) (u : Store W)
      → IsReady b n s
      → IsNextWrite b n m
      → redo os m s.store ≡ ok u
      → buffer_msg fuel os tls now m addr s
        ≡ ok (record s { sender = addr; store = u; written = s.written +ℤ pos 1 })
  unfolding buffer_msg
  write_taken now addr m n s u v i e =
      rw (not_below n s (get_ballot m) v i.ballot, i.kind)
        (write_branch m n (record s { sender = addr }) u (from_sender n s addr v) i e)

  -- An fsync of what is written is answered when it arrives.
  pub fsync_arrives :
      (now : ℕ) (addr : Bytes) (p : FsyncParams) (n : ℤ) (s : Replica W N)
      → IsReady b n s
      → p.seq ≡ n
      → p.r ≡ b
      → buffer_msg fuel os tls now (ClientMsg.fsync p) addr s
        ≡ on_fsync tls p (record s { sender = addr })
  unfolding buffer_msg buffer_fsync visit get_ballot get_seq get_client_msg_type ballot_is_valid
  fsync_arrives now addr p n s v e r =
      let all : leb_ℤ p.seq s.written ≡ true = rw (e, v.at) (ground (arith, leb_ℤ_iff n n)) in
      let mine : eqb_ballot p.r s.normal_ballot ≡ true =
        rw (r, v.normal) (ground (arith, eqb_ballot_iff b b)) in
      rw (not_below n s p.r v r, all, mine) refl

  pub answered :
      (addr : Bytes) (p : FsyncParams) (s : Replica W N)
      → IsAnswering tls
      → (k : N) × (caught fuel os tls addr (on_fsync tls p s) ≡ ok (record s { net = k }))
  unfolding caught on_fsync reply IsAnswering
  answered addr p s h =
      let (k, e) =
        h (fsync_ack (record { id = s.conf.id; written = s.written; r = p.r })) s.client s.net in
      elim e [ inl back ↦ (k, rw back refl) | inr lost ↦ (tls.close_socket addr k, rw lost refl) ]
