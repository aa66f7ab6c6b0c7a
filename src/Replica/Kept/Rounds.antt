-- ===== src/Replica/Kept/Rounds.antt =====
-- replica/replica_fuse.cpp and replica/main.cpp: a property that is kept holds whatever the main loop does.
use disk_tees.Prelude.{
  ℕ, zero, suc, pos, ◌+ℤ◌, ◌≡◌, ◌&&◌, List, [], ◌∷◌, Bytes, Outcome, ok, threw, exited, out_of_fuel,
  undefined, ◌>>=◌, Leaves, Leaves-if, >>=-Leaves, Bool-cases, if◌then◌else◌, leb_ℤ, ltb_ℤ, ◌==ℤ◌,
  ◌==◌, ◌-◌, ◌*◌, ◌/◌, ltb, not, inl, inr,
}
use disk_tees.Shared.Ballot.{ltb_ballot}
use disk_tees.Shared.IntMap.{put}
use disk_tees.Shared.Os.{Os}
use disk_tees.Shared.Transport.{Transport}
use disk_tees.Shared.Messages.{ClientMsg, ReplicaMsg, fsync_missing}
use disk_tees.Shared.Messages.Kind.{ClientMsgType, get_client_msg_type, get_seq, get_ballot}
use disk_tees.Replica.State.{Replica, ballot_is_valid}
use disk_tees.Replica.Protocol.{reply, on_fsync}
use disk_tees.Replica.Main.{Arrival, Round, caught, take_all, serve_round, serve}
use disk_tees.Replica.Buffer.{
  next_write, ready, visit, visit_next, buffer_write, remember_fsync, buffer_fsync, buffer_msg,
  redo_pending, drain, ack_fsync, process_pending_messages, check_fsync_timeout, find_holes,
}
use disk_tees.Replica.Kept.{
  IsKept, Leaves-kind, Leaves-option, reply-Kept, on_fsync-Kept, visit-Kept,
}

module _ {W N : Type 0} (P : Replica W N → Type 0) (k : IsKept P) where
  module _ (fuel : ℕ) (os : Os W) (tls : Transport ReplicaMsg N) where
    visit_next-Kept :
        (m : ClientMsg) (s : Replica W N) → P s → Leaves P (visit_next fuel os tls m s)
    unfolding visit_next
    visit_next-Kept m s h =
        >>=-Leaves P (visit fuel os tls m s) _ (visit-Kept P k fuel os tls m s h)
          (λ t v. k.counted t (t.written +ℤ pos 1) v)

    buffer_write-Kept :
        (m : ClientMsg) (s : Replica W N)
        → get_client_msg_type m ≡ ClientMsgType.write
        → P s
        → Leaves P (buffer_write fuel os tls m s)
    unfolding buffer_write
    buffer_write-Kept m s w h =
        let keep = record s { pending_writes = put (get_seq m) m s.pending_writes } in
        let later = if ltb_ℤ s.written (get_seq m) then ok keep else ok s in
        Leaves-if P (get_seq m ==ℤ next_write s && ballot_is_valid s (get_ballot m))
          (visit_next fuel os tls m s) later (visit_next-Kept m s h)
          (Leaves-if P (ltb_ℤ s.written (get_seq m)) (ok keep) (ok s) (k.waits m s w h) h)

    remember_fsync-Kept :
        (now : ℕ) (m : ClientMsg) (s : Replica W N)
        → P s
        → Leaves P (remember_fsync fuel os tls now m s)
    unfolding remember_fsync
    remember_fsync-Kept now (ClientMsg.fsync p) s h = k.remembered s p now h
    remember_fsync-Kept now other s h = h

    buffer_fsync-Kept :
        (now : ℕ) (m : ClientMsg) (s : Replica W N)
        → P s
        → Leaves P (buffer_fsync fuel os tls now m s)
    unfolding buffer_fsync
    buffer_fsync-Kept now m t h =
        Leaves-if P (leb_ℤ (get_seq m) t.written && ballot_is_valid t (get_ballot m))
          (visit fuel os tls m t) (remember_fsync fuel os tls now m t)
          (visit-Kept P k fuel os tls m t h) (remember_fsync-Kept now m t h)

    buffer_msg-Kept :
        (now : ℕ) (m : ClientMsg) (addr : Bytes) (s : Replica W N)
        → P s
        → Leaves P (buffer_msg fuel os tls now m addr s)
    unfolding buffer_msg
    buffer_msg-Kept now m addr s h =
        let t = record s { sender = addr } in
        elim (Bool-cases (ltb_ballot (get_ballot m) s.highest_ballot)) [
          | inl old ↦ rw old (k.from s addr h)
          | inr current ↦ rw current (
              Leaves-kind P (get_client_msg_type m) (buffer_write fuel os tls m t)
                (buffer_fsync fuel os tls now m t) (visit fuel os tls m t)
                (λ w. buffer_write-Kept m t w (k.from s addr h))
                (buffer_fsync-Kept now m t (k.from s addr h))
                (visit-Kept P k fuel os tls m t (k.from s addr h)))
        ]

    redo_pending-Kept :
        (m : ClientMsg) (s : Replica W N) → P s → Leaves P (redo_pending fuel os tls m s)
    unfolding redo_pending
    redo_pending-Kept m s h =
        >>=-Leaves P (visit_next fuel os tls m s) _ (visit_next-Kept m s h)
          (λ t v. k.done t (next_write s) v)

    drain-Kept : (rounds : ℕ) (s : Replica W N) → P s → Leaves P (drain fuel os tls rounds s)
    unfolding drain
    drain-Kept zero s h = tt
    drain-Kept (suc rounds) s h =
        Leaves-option P (ready s) (ok s)
          (λ m. redo_pending fuel os tls m s >>= λ t. drain fuel os tls rounds t) h
          (λ m.
            >>=-Leaves P (redo_pending fuel os tls m s) _ (redo_pending-Kept m s h)
              (λ t v. drain-Kept rounds t v))

    ack_fsync-Kept : (s : Replica W N) → P s → Leaves P (ack_fsync fuel os tls s)
    unfolding ack_fsync
    ack_fsync-Kept s h =
        let acked =
          on_fsync tls s.last_fsync s >>= λ t. ok (record t { last_acked_write = t.written }) in
        Leaves-if P
          (leb_ℤ s.last_fsync.seq s.written
            && ltb_ℤ s.last_acked_write s.last_fsync.seq
            && ballot_is_valid s s.last_fsync.r)
          acked (ok s)
          (>>=-Leaves P (on_fsync tls s.last_fsync s) _ (on_fsync-Kept P k tls s.last_fsync s h)
            (λ t v. k.acked t t.written v))
          h

    timeout-Kept : (now : ℕ) (s : Replica W N) → P s → Leaves P (check_fsync_timeout tls now s)
    unfolding check_fsync_timeout
    timeout-Kept now s h =
        let report =
          reply tls
            (fsync_missing (record {
              id = s.conf.id;
              r = s.last_fsync.r;
              fsync_seq = s.last_fsync.seq;
              holes = find_holes tls s;
            }))
            s.client s in
        let send = report >>= λ t. ok (record t { fsync_recv_time = 0 }) in
        let early = ltb ((now - s.fsync_recv_time) / (60 * 1000000000)) 1 in
        let never = s.fsync_recv_time == 0 in
        let invalid = not (ballot_is_valid s s.last_fsync.r) in
        Leaves-if P (leb_ℤ s.last_fsync.seq s.last_acked_write) (ok s)
          (if invalid then ok s else if never then ok s else if early then ok s else send) h
          (Leaves-if P invalid (ok s) (if never then ok s else if early then ok s else send) h (
            Leaves-if P never (ok s) (if early then ok s else send) h (
              Leaves-if P early (ok s) send h (
                >>=-Leaves P report _ (reply-Kept P k tls _ s.client s h)
                  (λ t v. k.reported t 0 v)))))

    caught-Kept :
        (addr : Bytes) (m : Outcome (Replica W N))
        → Leaves P m
        → Leaves P (caught fuel os tls addr m)
    unfolding caught
    caught-Kept addr (ok t) h = h
    caught-Kept addr (threw t) h = k.net t (tls.close_socket addr t.net) h
    caught-Kept addr exited h = tt
    caught-Kept addr out_of_fuel h = tt
    caught-Kept addr undefined h = tt

    take_all-Kept :
        (xs : List Arrival) (s : Replica W N) → P s → Leaves P (take_all fuel os tls xs s)
    unfolding take_all
    take_all-Kept [] s h = h
    take_all-Kept (a ∷ xs) s h =
        let m = buffer_msg fuel os tls a.now a.msg a.addr s in
        >>=-Leaves P (caught fuel os tls a.addr m) _
          (caught-Kept a.addr m (buffer_msg-Kept a.now a.msg a.addr s h)) (take_all-Kept xs)

    serve_round-Kept :
        (rounds : ℕ) (x : Round) (s : Replica W N)
        → P s
        → Leaves P (serve_round fuel os tls rounds x s)
    unfolding serve_round process_pending_messages
    serve_round-Kept rounds x s h =
        >>=-Leaves P (take_all fuel os tls x.arrivals s) _ (take_all-Kept x.arrivals s h) (λ t v.
          >>=-Leaves P (process_pending_messages fuel os tls rounds t) _
            (>>=-Leaves P (drain fuel os tls rounds t) _ (drain-Kept rounds t v) ack_fsync-Kept)
            (timeout-Kept x.now))

    pub serve-Kept :
        (rounds : ℕ) (xs : List Round) (s : Replica W N)
        → P s
        → Leaves P (serve fuel os tls rounds xs s)
    unfolding serve
    serve-Kept rounds [] s h = h
    serve-Kept rounds (x ∷ xs) s h =
        >>=-Leaves P (serve_round fuel os tls rounds x s) _ (serve_round-Kept rounds x s h)
          (serve-Kept rounds xs)
