-- ===== src/Replica/State.antt =====
-- replica/replica_fuse.hpp: the state of `ReplicaFuse`.
use disk_tees.Prelude.{ℕ, ℤ, pos, minus_one, Bytes, [], Bool, not, ◌&&◌}
use disk_tees.Shared.Ballot.{Ballot, zero_ballot, eqb_ballot, ltb_ballot}
use disk_tees.Shared.IntMap.{IntMap}
use disk_tees.Shared.NetworkConfig.{NetworkConfig, Addresses}
use disk_tees.Shared.Messages.{ClientMsg, FsyncParams}
use disk_tees.Replica.Store.{Store}

pub record Config : Type 0 where
  pub id : ℤ
  pub trusted_mode : Bytes
  pub username : Bytes

-- `W` is the state of the world outside, `N` that of the connections.
pub record Replica (W N : Type 0) : Type 0 where
  pub conf : Config
  pub name : Bytes
  pub ccf : NetworkConfig
  pub path : Bytes
  -- the client with the highest ballot
  pub client : Bytes
  pub replicas : Addresses
  pub replicas_net_conf : NetworkConfig
  pub new_connections : NetworkConfig
  pub written : ℤ
  pub highest_ballot : Ballot
  pub normal_ballot : Ballot
  pub pending_writes : IntMap ClientMsg
  pub last_acked_write : ℤ
  pub last_fsync : FsyncParams
  -- nanoseconds of the steady clock; 0 is the default `time_point{}`
  pub fsync_recv_time : ℕ
  pub sender : Bytes
  -- `directory`, `fileHandleConverter` and the world outside
  pub store : Store W
  -- what `clientTLS` points to
  pub net : N

-- `{-1, {0,0,0}, {0, 0}}`
abbrev pub no_fsync : FsyncParams
no_fsync = record { seq = minus_one; r = zero_ballot; fi = record { flags = pos 0; fh = 0 } }

module _ {W N : Type 0} where
  -- The constructor, with the initial values of the class.
  unfoldable pub new_replica :
      (conf : Config) (name directory : Bytes) (ccf : NetworkConfig) (path : Bytes) (w : W) (n : N)
      → Replica W N
  new_replica conf name directory ccf path w n = record {
    conf = conf;
    name = name;
    ccf = ccf;
    path = path;
    client = [];
    replicas = [];
    replicas_net_conf = [];
    new_connections = [];
    written = minus_one;
    highest_ballot = zero_ballot;
    normal_ballot = zero_ballot;
    pending_writes = [];
    last_acked_write = minus_one;
    last_fsync = no_fsync;
    fsync_recv_time = 0;
    sender = [];
    store = record { directory = directory; file_handle_converter = []; world = w };
    net = n;
  }

  unfoldable pub ballot_is_valid : Replica W N → Ballot → Bool
  ballot_is_valid s r = not (ltb_ballot r s.highest_ballot) && eqb_ballot r s.normal_ballot
