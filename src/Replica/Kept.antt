-- ===== src/Replica/Kept.antt =====
-- replica/replica_fuse.cpp: what a property must survive to hold whatever happens to a replica, and that it then
-- survives the handlers of the messages.
pub mod Rounds
use disk_tees.Prelude.{
  ℕ, ℤ, pos, ◌≡◌, refl, false, Option, none, some, Bytes, codes, ◌++◌, Outcome, ok, map_outcome,
  Leaves, Leaves-map, Leaves-if, Leaves-all, >>=-Leaves, Bool-cases, if◌then◌else◌, inl, inr,
}
use disk_tees.Shared.Ballot.{Ballot, ltb_ballot}
use disk_tees.Shared.Ballot.Order.{not_lt_trans, not_lt_of_lt}
use disk_tees.Shared.Os.{Os}
use disk_tees.Shared.Transport.{Transport}
use disk_tees.Shared.Messages.{ClientMsg, ReplicaMsg, FsyncParams, P1a, DiskReq, P2a, disk}
use disk_tees.Shared.Messages.Kind.{ClientMsgType, get_client_msg_type, get_seq}
use disk_tees.Shared.IntMap.{put, erase}
use disk_tees.Replica.Store.{Store}
use disk_tees.Replica.State.{Replica}
use disk_tees.Replica.Protocol.{
  raise_highest, adopt_config, reset_state, reply, on_fsync, accept_ballot, join_config, promise,
  on_p1a, on_disk_req, on_p2a, unzip_disk, close_all, remove, system, zipped_storage,
  send_disk_command,
}
use disk_tees.Replica.Buffer.{redo, visit}

pub Leaves-kind :
    {S : Type 0} (P : S → Type 0) (k : ClientMsgType) (x y z : Outcome S)
    → (k ≡ ClientMsgType.write → Leaves P x)
    → Leaves P y
    → Leaves P z
    → Leaves P (elim k [
      | ClientMsgType.write ↦ x
      | ClientMsgType.fsync_type ↦ y
      | ClientMsgType.protocol ↦ z
    ])
Leaves-kind P ClientMsgType.write x y z hx hy hz = hx refl
Leaves-kind P ClientMsgType.fsync_type x y z hx hy hz = hy
Leaves-kind P ClientMsgType.protocol x y z hx hy hz = hz

pub Leaves-option :
    {A S : Type 0} (P : S → Type 0) (o : Option A) (x : Outcome S) (f : A → Outcome S)
    → Leaves P x
    → ((a : A) → Leaves P (f a))
    → Leaves P (elim o [ none ↦ x | some a ↦ f a ])
Leaves-option P none x f hx hf = hx
Leaves-option P (some a) x f hx hf = hf a

-- `P` holds on through each change that a replica makes of its state.
pub record IsKept {W N : Type 0} (P : Replica W N → Type 0) : Type 0 where
  pub net : (s : Replica W N) (n : N) → P s → P (record s { net = n })
  pub stored : (s : Replica W N) (t : Store W) → P s → P (record s { store = t })
  pub from : (s : Replica W N) (addr : Bytes) → P s → P (record s { sender = addr })
  pub raised : (r : Ballot) (s : Replica W N) → P s → P (raise_highest r s)
  pub adopted : (msg : P1a) (s : Replica W N) → P s → P (adopt_config msg s)
  pub joined :
      (s : Replica W N) (t : Store W) (addr : Bytes)
      → P s
      → P (record s { store = t; client = addr })
  pub reset : (msg : P2a) (s : Replica W N) → P s → P (reset_state msg s)
  pub counted : (s : Replica W N) (n : ℤ) → P s → P (record s { written = n })
  pub waits :
      (msg : ClientMsg) (s : Replica W N)
      → get_client_msg_type msg ≡ ClientMsgType.write
      → P s
      → P (record s { pending_writes = put (get_seq msg) msg s.pending_writes })
  pub done :
      (s : Replica W N) (n : ℤ) → P s → P (record s { pending_writes = erase n s.pending_writes })
  pub remembered :
      (s : Replica W N) (p : FsyncParams) (now : ℕ)
      → P s
      → P (record s { last_fsync = p; fsync_recv_time = now })
  pub acked : (s : Replica W N) (n : ℤ) → P s → P (record s { last_acked_write = n })
  pub reported : (s : Replica W N) (now : ℕ) → P s → P (record s { fsync_recv_time = now })

module _ {W N : Type 0} (P : Replica W N → Type 0) (k : IsKept P) where
  module _ (tls : Transport ReplicaMsg N) where
    pub reply-Kept :
        (m : ReplicaMsg) (addr : Bytes) (s : Replica W N) → P s → Leaves P (reply tls m addr s)
    unfolding reply
    reply-Kept m addr s h =
        Leaves-map P _ (tls.send m addr s.net)
          (Leaves-all _ (tls.send m addr s.net) (λ n. k.net s n h))

    pub on_fsync-Kept : (p : FsyncParams) (s : Replica W N) → P s → Leaves P (on_fsync tls p s)
    unfolding on_fsync
    on_fsync-Kept p s h = reply-Kept _ s.client s h

    accept_ballot-Kept : (msg : P2a) (s : Replica W N) → P s → Leaves P (accept_ballot tls msg s)
    unfolding accept_ballot
    accept_ballot-Kept msg s h =
        >>=-Leaves P
          (map_outcome (λ n. record s { net = n }) (tls.new_network s.new_connections s.net)) _
          (Leaves-map P _ (tls.new_network s.new_connections s.net)
            (Leaves-all _ (tls.new_network s.new_connections s.net) (λ n. k.net s n h)))
          (λ t v. reply-Kept _ t.sender t v)

  module _ (fuel : ℕ) (os : Os W) (tls : Transport ReplicaMsg N) where
    join_config-Kept :
        (msg : P1a) (s : Replica W N) → P s → Leaves P (join_config fuel os tls msg s)
    unfolding join_config
    join_config-Kept msg s h =
        let t = adopt_config msg s in
        Leaves-map P _ _ (
          Leaves-all _ _
            (λ c. k.joined t (record (t.store) { world = c.1 }) t.sender (k.adopted msg s h)))

    on_p1a-Kept : (msg : P1a) (s : Replica W N) → P s → Leaves P (on_p1a fuel os tls msg s)
    unfolding on_p1a
    on_p1a-Kept msg s h =
        let t = raise_highest msg.r s in
        >>=-Leaves P (reply tls (promise msg t) t.sender t) _
          (reply-Kept tls (promise msg t) t.sender t (k.raised msg.r s h))
          (λ u v. elim (Bool-cases (ltb_ballot msg.r u.highest_ballot)) [
            | inl old ↦ rw old v
            | inr current ↦ rw current (join_config-Kept msg u v)
          ])

    on_disk_req-Kept : (msg : DiskReq) (s : Replica W N) → P s → Leaves P (on_disk_req os tls msg s)
    unfolding on_disk_req
    on_disk_req-Kept msg s h =
        let cleaned =
          remove os (zipped_storage s s.name) (system os (send_disk_command msg s) s.store).1 in
        elim (Bool-cases (ltb_ballot msg.r s.highest_ballot)) [
          | inl old ↦ rw old h
          | inr current ↦ rw current (
              Leaves-option P (os.read_line (zipped_storage s s.name ++ codes ".md5") cleaned.world)
                (ok (record s { store = cleaned }))
                (λ sum.
                  reply tls
                    (disk (record {
                      id = s.conf.id;
                      client_ballot = msg.r;
                      written = pos 0;
                      disk_checksum = sum;
                    }))
                    s.sender (record s { store = cleaned }))
                (k.stored s cleaned h)
                (λ sum.
                  reply-Kept tls _ s.sender (record s { store = cleaned }) (k.stored s cleaned h)))
        ]

    on_p2a-Kept : (msg : P2a) (s : Replica W N) → P s → Leaves P (on_p2a os tls msg s)
    unfolding on_p2a
    on_p2a-Kept msg s h =
        let u = unzip_disk os msg s (close_all os s.store.file_handle_converter s.store) in
        let t = record s { store = u.1 } in
        Leaves-if P (ltb_ballot msg.r s.highest_ballot) (ok s)
          (if u.0 then accept_ballot tls msg (reset_state msg t) else ok t) h
          (Leaves-if P u.0 (accept_ballot tls msg (reset_state msg t)) (ok t)
            (accept_ballot-Kept tls msg (reset_state msg t) (k.reset msg t (k.stored s u.1 h)))
            (k.stored s u.1 h))

    pub visit-Kept : (m : ClientMsg) (s : Replica W N) → P s → Leaves P (visit fuel os tls m s)
    unfolding visit
    visit-Kept (ClientMsg.fsync p) s h = on_fsync-Kept tls p s h
    visit-Kept (ClientMsg.p1a msg) s h = on_p1a-Kept msg s h
    visit-Kept (ClientMsg.disk_req msg) s h = on_disk_req-Kept msg s h
    visit-Kept (ClientMsg.p2a msg) s h = on_p2a-Kept msg s h
    visit-Kept write s h =
        Leaves-map P _ (redo os write s.store)
          (Leaves-all _ (redo os write s.store) (λ t. k.stored s t h))
