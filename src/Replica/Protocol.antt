-- ===== src/Replica/Protocol.antt =====
-- replica/replica_fuse.cpp: the handlers of fsync and of the leader election.
use disk_tees.Prelude.{
  ℕ, ℤ, pos, ◌==ℤ◌, Bool, true, false, none, some, [], ◌∷◌, ◌++◌, Bytes, codes, to_string, Outcome,
  ok, ◌>>=◌, map_outcome, if◌then◌else◌,
}
use disk_tees.Shared.Ballot.{Ballot, ltb_ballot}
use disk_tees.Shared.IntMap.{IntMap, contains, put, erase}
use disk_tees.Shared.NetworkConfig.{NetworkConfig, NodeType, get_port, config_to_addrs}
use disk_tees.Shared.Os.{Os, Syscall}
use disk_tees.Shared.Transport.{Transport}
use disk_tees.Shared.Ccf.{CcfNetwork, new_ccf, get_cert}
use disk_tees.Shared.Messages.{
  FsyncParams, P1a, DiskReq, P2a, ReplicaMsg, p1b, disk, p2b, fsync_ack,
}
use disk_tees.Replica.Store.{Store, call}
use disk_tees.Replica.State.{Replica, no_fsync}

-- `newConnections`: the peers that were not in the configuration before
pub find_new_connections : NetworkConfig → NetworkConfig → NetworkConfig → NetworkConfig
find_new_connections old [] new = new
find_new_connections old ((peer_id, addr) ∷ conf) new =
    find_new_connections old conf (if contains peer_id old then new else put peer_id addr new)

module _ {W N : Type 0} where
  -- `if (highestBallot < msg.r) highestBallot = msg.r;`
  unfoldable pub raise_highest : Ballot → Replica W N → Replica W N
  raise_highest r s = if ltb_ballot s.highest_ballot r then record s { highest_ballot = r } else s

  -- Steps 1, 2 and 4 of `p1a`: the new configuration, and the client that proposes it.
  unfoldable pub adopt_config : P1a → Replica W N → Replica W N
  unfolding find_new_connections
  adopt_config msg s =
      let without_self = erase s.conf.id msg.net_conf in
      record s {
        replicas = config_to_addrs NodeType.replica without_self;
        new_connections = find_new_connections s.replicas_net_conf without_self [];
        replicas_net_conf = without_self;
      }

  -- The state that `p2a` resets.
  unfoldable pub reset_state : P2a → Replica W N → Replica W N
  reset_state msg s = record s {
    normal_ballot = msg.r;
    written = msg.written;
    pending_writes = [];
    last_acked_write = msg.written;
    last_fsync = no_fsync;
    fsync_recv_time = 0;
    store = record (s.store) { file_handle_converter = [] };
  }

  unfoldable pub promise : P1a → Replica W N → ReplicaMsg
  promise msg s = p1b (record {
    id = s.conf.id;
    client_ballot = msg.r;
    written = s.written;
    normal_ballot = s.normal_ballot;
    highest_ballot = s.highest_ballot;
  })

  pub send_disk_command : DiskReq → Replica W N → Bytes
  send_disk_command msg s =
      s.path
      ++ codes "/../../cloud_scripts/send_disk.sh"
      ++ codes " -s "
      ++ s.name
      ++ codes " -d client"
      ++ to_string msg.id
      ++ codes " -a "
      ++ s.sender
      ++ codes ":"
      ++ to_string (get_port NodeType.client msg.id)
      ++ codes " -t "
      ++ s.conf.trusted_mode
      ++ codes " -u "
      ++ s.conf.username
      ++ codes " -z"

  pub zipped_storage : Replica W N → Bytes → Bytes
  zipped_storage s replica_name =
      s.path ++ codes "/zipped-storage/" ++ replica_name ++ codes ".tar.gz"

  pub unzip_command : P2a → Replica W N → Bytes
  unzip_command msg s =
      s.path
      ++ codes "/../../cloud_scripts/unzip_disk.sh"
      ++ codes " -s "
      ++ msg.disk_replica_name
      ++ codes " -d "
      ++ s.name
      ++ codes " -c "
      ++ msg.disk_checksum
      ++ codes " -u "
      ++ s.conf.username

module _ {W : Type 0} (os : Os W) where
  -- Errors of `close` are ignored.
  unfoldable pub close_all : IntMap ℤ → Store W → Store W
  close_all [] s = s
  close_all ((fh, local_fh) ∷ handles) s = close_all handles (call os (Syscall.close local_fh) s).1

  pub system : Bytes → Store W → ℤ × Store W
  system command s = let (ret, s') = call os (Syscall.system command) s in (ret.ret, s')

  pub remove : Bytes → Store W → Store W
  remove file s = (call os (Syscall.remove file) s).1

  -- Step 3 of `p1a`: one certificate after the other. The fuel is that of each `getCert`.
  pub get_certs : ℕ → NetworkConfig → CcfNetwork × W → Outcome (CcfNetwork × W)
  get_certs fuel [] c = ok c
  get_certs fuel ((peer_id, addr) ∷ conns) c =
      get_cert os fuel peer_id (codes "replica" ++ to_string peer_id) (codes "replica") c >>= λ c'.
      get_certs fuel conns c'

module _ {W N : Type 0} (os : Os W) where
  -- Whether the disk is there, and the store behind the attempt to unzip it.
  unfoldable pub unzip_disk : P2a → Replica W N → Store W → Bool × Store W
  unfolding system remove zipped_storage
  unzip_disk msg s opened = elim msg.disk_checksum [
    | [] ↦ (true, opened)
    | c ∷ cs ↦
        let (error_code, unzipped) = system os (unzip_command msg s) opened in
        if error_code ==ℤ pos 0
        then (true, remove os (zipped_storage s msg.disk_replica_name) unzipped)
        else (false, unzipped)
  ]

module _ {W N : Type 0} (tls : Transport ReplicaMsg N) where
  unfoldable pub reply : ReplicaMsg → Bytes → Replica W N → Outcome (Replica W N)
  reply msg addr s = map_outcome (λ n. record s { net = n }) (tls.send msg addr s.net)

  unfoldable pub on_fsync : FsyncParams → Replica W N → Outcome (Replica W N)
  unfolding reply
  on_fsync p s =
      reply (fsync_ack (record { id = s.conf.id; written = s.written; r = p.r })) s.client s

  -- Connect to the new replicas, then answer.
  unfoldable pub accept_ballot : P2a → Replica W N → Outcome (Replica W N)
  unfolding reply
  accept_ballot msg s =
      map_outcome (λ n. record s { net = n }) (tls.new_network s.new_connections s.net) >>= λ t.
      reply
        (p2b (record { id = t.conf.id; client_ballot = msg.r; highest_ballot = t.highest_ballot }))
        t.sender t

module _ {W N : Type 0} (fuel : ℕ) (os : Os W) (tls : Transport ReplicaMsg N) where
  -- Steps 1 to 4 of `p1a`.
  unfoldable pub join_config : P1a → Replica W N → Outcome (Replica W N)
  unfolding adopt_config get_certs
  join_config msg s =
      let t = adopt_config msg s in
      map_outcome (λ c. record t { store = record (t.store) { world = c.1 }; client = t.sender })
        (get_certs os fuel t.new_connections (new_ccf t.path t.ccf, t.store.world))

  unfoldable pub on_p1a : P1a → Replica W N → Outcome (Replica W N)
  unfolding raise_highest reply promise
  on_p1a msg s =
      let t = raise_highest msg.r s in
      reply tls (promise msg t) t.sender t >>= λ u.
      if ltb_ballot msg.r u.highest_ballot then ok u else join_config msg u

module _ {W N : Type 0} (os : Os W) (tls : Transport ReplicaMsg N) where
  unfoldable pub on_disk_req : DiskReq → Replica W N → Outcome (Replica W N)
  unfolding system remove reply zipped_storage
  on_disk_req msg s =
      if ltb_ballot msg.r s.highest_ballot
      then ok s
      else let (error_code, sent) = system os (send_disk_command msg s) s.store in
        let cleaned = remove os (zipped_storage s s.name) sent in
        let t = record s { store = cleaned } in
        elim (os.read_line (zipped_storage s s.name ++ codes ".md5") cleaned.world) [
          | none ↦ ok t
          -- `written` is not among the designated initialisers, so it is 0.
          | some checksum ↦
              reply tls
                (disk (record {
                  id = s.conf.id;
                  client_ballot = msg.r;
                  written = pos 0;
                  disk_checksum = checksum;
                }))
                s.sender t
        ]

  unfoldable pub on_p2a : P2a → Replica W N → Outcome (Replica W N)
  unfolding close_all unzip_disk reset_state accept_ballot
  on_p2a msg s =
      if ltb_ballot msg.r s.highest_ballot
      then ok s
      else let closed = close_all os s.store.file_handle_converter s.store in
        let (unzipped, store) = unzip_disk os msg s closed in
        let t = record s { store = store } in
        if unzipped then accept_ballot tls msg (reset_state msg t) else ok t
