-- ===== src/Client/State.antt =====
-- client/client_fuse.hpp: the static members of `ClientFuse`. (`isReconfiguring` is never read.)
use disk_tees.Prelude.{ℤ, pos, minus_one, Bool, Bytes, [], ◌++◌}
use disk_tees.Shared.Ballot.{Ballot}
use disk_tees.Shared.IntMap.{IntMap}
use disk_tees.Shared.NetworkConfig.{Addresses}
use disk_tees.Shared.Os.{Os, Syscall, Ret}
use disk_tees.Shared.Messages.{ClientMsg, P1b, Disk, P2b}

-- A `std::set` of messages ordered by their `id` is a map from the id.
pub record Client (W N : Type 0) : Type 0 where
  pub sender : Bytes
  pub written : ℤ
  pub replicas_committed : ℤ
  pub successful_p1bs : IntMap P1b
  pub disk_checksums : IntMap Disk
  pub successful_p2bs : IntMap P2b
  pub network : Bool
  pub metrics_on : Bool
  pub quorum : ℤ
  pub redirect_point : Bytes
  pub r : Ballot
  pub uncommitted_writes : IntMap ClientMsg
  pub replica_written : IntMap ℤ
  pub replicas : Addresses
  pub mean_fsync_wait_micro_sec : ℤ
  pub mean_write_micro_sec : ℤ
  -- the world outside, and what `replicaTLS` points to
  pub world : W
  pub net : N

module _ {W N : Type 0} where
  -- The constructor, with the initial values of the class.
  unfoldable pub new_client :
      (network metrics_on : Bool) (r : Ballot) (redirect_point : Bytes) (quorum : ℤ)
      (replicas : Addresses) (w : W) (n : N)
      → Client W N
  new_client network metrics_on r redirect_point quorum replicas w n = record {
    sender = [];
    written = minus_one;
    replicas_committed = pos 0;
    successful_p1bs = [];
    disk_checksums = [];
    successful_p2bs = [];
    network = network;
    metrics_on = metrics_on;
    quorum = quorum;
    redirect_point = redirect_point;
    r = r;
    uncommitted_writes = [];
    replica_written = [];
    replicas = replicas;
    mean_fsync_wait_micro_sec = minus_one;
    mean_write_micro_sec = minus_one;
    world = w;
    net = n;
  }

  -- `PREPEND_PATH`
  unfoldable pub prepend_path : Client W N → Bytes → Bytes
  prepend_path c path = c.redirect_point ++ path

  unfoldable pub call : Os W → Syscall → Client W N → Ret × Client W N
  call os s c = let (ret, w) = os.sys s c.world in (ret, record c { world = w })
