-- ===== src/Replica/Buffer.antt =====
-- replica/replica_fuse.cpp: `bufferMsg`, `processPendingMessages` and `checkFsyncTimeout`. Each reads the
-- clock at most once, so the time of that reading is an argument.
use disk_tees.Prelude.{
  ℕ, zero, suc, ◌+◌, ◌-◌, ◌*◌, ◌/◌, ℤ, pos, pos_part, neg_part, ◌+ℤ◌, ◌==ℤ◌, ltb_ℤ, leb_ℤ, not,
  ◌&&◌, Option, none, some, List, [], ◌∷◌, Bytes, Outcome, ok, threw, out_of_fuel, ◌>>=◌,
  map_outcome, ltb, ◌==◌, if◌then◌else◌,
}
use disk_tees.Shared.Ballot.{ltb_ballot}
use disk_tees.Shared.IntMap.{IntMap, contains, find, put, erase}
use disk_tees.Shared.Os.{Os}
use disk_tees.Shared.Transport.{Transport}
use disk_tees.Shared.Messages.{ClientMsg, ReplicaMsg, fsync_missing}
use disk_tees.Shared.Messages.Kind.{get_client_msg_type, get_seq, get_ballot, ClientMsgType}
use disk_tees.Replica.Store.{
  Store, do_mknod, do_mkdir, do_symlink, do_unlink, do_rmdir, do_rename, do_link, do_chmod,
  do_chown, do_truncate, do_utimens, do_create, do_open, do_write_buf, do_release, do_fallocate,
  do_setxattr, do_removexattr, do_copy_file_range,
}
use disk_tees.Replica.State.{Replica, ballot_is_valid}
use disk_tees.Replica.Protocol.{reply, on_fsync, on_p1a, on_disk_req, on_p2a}

-- The overloads of `operator()` for the messages that `getClientMsgType` calls writes. (`std::visit`
-- never hands it one of the others here.)
unfoldable pub redo : {W : Type 0} → Os W → ClientMsg → Store W → Outcome (Store W)
redo os (ClientMsg.mknod p) s = do_mknod os p s
redo os (ClientMsg.mkdir p) s = do_mkdir os p s
redo os (ClientMsg.symlink p) s = do_symlink os p s
redo os (ClientMsg.unlink p) s = do_unlink os p s
redo os (ClientMsg.rmdir p) s = do_rmdir os p s
redo os (ClientMsg.rename p) s = do_rename os p s
redo os (ClientMsg.link p) s = do_link os p s
redo os (ClientMsg.chmod p) s = do_chmod os p s
redo os (ClientMsg.chown p) s = do_chown os p s
redo os (ClientMsg.truncate p) s = do_truncate os p s
redo os (ClientMsg.utimens p) s = do_utimens os p s
redo os (ClientMsg.create p) s = do_create os p s
redo os (ClientMsg.open_file p) s = do_open os p s
redo os (ClientMsg.write_buf p) s = do_write_buf os p s
redo os (ClientMsg.release p) s = do_release os p s
redo os (ClientMsg.fallocate p) s = do_fallocate os p s
redo os (ClientMsg.setxattr p) s = do_setxattr os p s
redo os (ClientMsg.removexattr p) s = do_removexattr os p s
redo os (ClientMsg.copy_file_range p) s = do_copy_file_range os p s
redo os other s = ok s

-- `nextWrite`
abbrev pub next_write : {W N : Type 0} → Replica W N → ℤ
next_write s = s.written +ℤ pos 1

-- The pending write that may be redone next.
unfoldable pub ready : {W N : Type 0} → Replica W N → Option ClientMsg
unfolding ballot_is_valid
ready s = elim (find (next_write s) s.pending_writes) [
  | none ↦ none
  | some msg ↦ if ballot_is_valid s (get_ballot msg) then some msg else none
]

module _ {W N : Type 0} (fuel : ℕ) (os : Os W) (tls : Transport ReplicaMsg N) where
  -- `std::visit(*this, msg)`
  unfoldable pub visit : ClientMsg → Replica W N → Outcome (Replica W N)
  visit (ClientMsg.fsync p) s = on_fsync tls p s
  visit (ClientMsg.p1a msg) s = on_p1a fuel os tls msg s
  visit (ClientMsg.disk_req msg) s = on_disk_req os tls msg s
  visit (ClientMsg.p2a msg) s = on_p2a os tls msg s
  visit write s = map_outcome (λ t. record s { store = t }) (redo os write s.store)

  -- `std::visit(*this, msg); written += 1;`
  unfoldable pub visit_next : ClientMsg → Replica W N → Outcome (Replica W N)
  unfolding visit
  visit_next msg s = visit msg s >>= λ t. ok (record t { written = t.written +ℤ pos 1 })

  unfoldable pub buffer_write : ClientMsg → Replica W N → Outcome (Replica W N)
  unfolding visit_next ballot_is_valid
  buffer_write msg s =
      if get_seq msg ==ℤ next_write s && ballot_is_valid s (get_ballot msg)
      then visit_next msg s
      else if ltb_ℤ s.written (get_seq msg)
      then ok (record s { pending_writes = put (get_seq msg) msg s.pending_writes })
      else ok s

  -- `std::get<fsyncParams>(msg)` of a message that is an fsync
  unfoldable pub remember_fsync : ℕ → ClientMsg → Replica W N → Outcome (Replica W N)
  remember_fsync now (ClientMsg.fsync p) s = ok (record s { last_fsync = p; fsync_recv_time = now })
  remember_fsync now other s = threw s

  unfoldable pub buffer_fsync : ℕ → ClientMsg → Replica W N → Outcome (Replica W N)
  unfolding visit ballot_is_valid remember_fsync
  buffer_fsync now msg s =
      if leb_ℤ (get_seq msg) s.written && ballot_is_valid s (get_ballot msg)
      then visit msg s
      else remember_fsync now msg s

  unfoldable pub buffer_msg : ℕ → ClientMsg → Bytes → Replica W N → Outcome (Replica W N)
  unfolding buffer_write buffer_fsync
  buffer_msg now msg addr s =
      let t = record s { sender = addr } in
      if ltb_ballot (get_ballot msg) t.highest_ballot
      then ok t
      else elim (get_client_msg_type msg) [
        | ClientMsgType.write ↦ buffer_write msg t
        | ClientMsgType.fsync_type ↦ buffer_fsync now msg t
        | ClientMsgType.protocol ↦ visit msg t
      ]

  -- The body of the loop behind its two tests: `nextWrite` is read before `written` grows.
  unfoldable pub redo_pending : ClientMsg → Replica W N → Outcome (Replica W N)
  unfolding visit_next
  redo_pending msg s = visit_next msg s >>= λ t.
      ok (record t { pending_writes = erase (next_write s) t.pending_writes })

  -- The `while (true)` loop; `rounds` is its fuel.
  unfoldable pub drain : ℕ → Replica W N → Outcome (Replica W N)
  unfolding ready redo_pending
  drain zero s = out_of_fuel
  drain (suc rounds) s = elim (ready s) [
    | none ↦ ok s
    | some msg ↦ redo_pending msg s >>= λ t. drain rounds t
  ]

  unfoldable pub ack_fsync : Replica W N → Outcome (Replica W N)
  unfolding ballot_is_valid
  ack_fsync s =
      if leb_ℤ s.last_fsync.seq s.written
        && ltb_ℤ s.last_acked_write s.last_fsync.seq
        && ballot_is_valid s s.last_fsync.r
      then (on_fsync tls s.last_fsync s >>= λ t. ok (record t { last_acked_write = t.written }))
      else ok s

  unfoldable pub process_pending_messages : ℕ → Replica W N → Outcome (Replica W N)
  unfolding drain ack_fsync
  process_pending_messages rounds s = drain rounds s >>= λ t. ack_fsync t

-- How often the loop from `from` to `upto` runs.
unfoldable pub rounds_between : ℤ → ℤ → ℕ
rounds_between from upto = pos_part upto + neg_part from + 1 - (pos_part from + neg_part upto)

-- `for (int i = from; i <= lastFsync.seq; i++)`
unfoldable pub collect_holes : ℕ → ℤ → IntMap ClientMsg → List ℤ
collect_holes zero i pending = []
collect_holes (suc n) i pending =
    let rest = collect_holes n (i +ℤ pos 1) pending in if contains i pending then rest else i ∷ rest

-- A minute in nanoseconds; `duration_cast<minutes>` truncates.
abbrev minute : ℕ
minute = 60 * 1000000000

module _ {W N : Type 0} (tls : Transport ReplicaMsg N) where
  unfoldable pub find_holes : Replica W N → List ℤ
  unfolding rounds_between collect_holes
  find_holes s =
      collect_holes (rounds_between (s.written +ℤ pos 1) s.last_fsync.seq) (s.written +ℤ pos 1)
        s.pending_writes

  unfoldable pub check_fsync_timeout : ℕ → Replica W N → Outcome (Replica W N)
  unfolding ballot_is_valid reply find_holes
  check_fsync_timeout now s =
      if leb_ℤ s.last_fsync.seq s.last_acked_write
      then ok s
      else if not (ballot_is_valid s s.last_fsync.r)
      then ok s
      else if s.fsync_recv_time == 0
      then ok s
      else if ltb ((now - s.fsync_recv_time) / minute) 1
      then ok s
      else (reply tls
            (fsync_missing (record {
              id = s.conf.id;
              r = s.last_fsync.r;
              fsync_seq = s.last_fsync.seq;
              holes = find_holes s;
            }))
            s.client s
          >>= λ t. ok (record t { fsync_recv_time = 0 }))
