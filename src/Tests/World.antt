-- ===== src/Tests/World.antt =====
-- An operating system on which every call succeeds and is written down, and connections that never
-- fail and write down what is sent.
use disk_tees.Prelude.{
  pos, minus_one, true, false, refl, some, List, [], ◌∷◌, ◌++◌, Bytes, codes, ok, arith,
}
use disk_tees.Shared.Ballot.{Ballot, zero_ballot}
use disk_tees.Shared.NetworkConfig.{Addresses}
use disk_tees.Shared.Os.{Os, Syscall, Ret, value}
use disk_tees.Shared.Transport.{Transport, IsTransport}
use disk_tees.Shared.Messages.{ReplicaMsg}
use disk_tees.Replica.State.{Replica}

abbrev pub succeed : Ret
succeed = record { ret = pos 0; errno = pos 0; out = []; off_in = pos 0; off_out = pos 0 }

abbrev pub logging_os : Os (List Syscall)
logging_os = record {
  sys = λ c w. (succeed, w ++ c ∷ []);
  s_isfifo = λ mode. false;
  read_line = λ file w. some (codes "checksum");
  read_success = λ file w. value true;
}

pub record Wire (M : Type 0) : Type 0 where
  pub to_all : List (M × Addresses)
  pub to_one : List (M × Bytes)

abbrev pub quiet : {M : Type 0} → Wire M
quiet = record { to_all = []; to_one = [] }

abbrev pub wire : {M : Type 0} → Transport M (Wire M)
wire = record {
  send = λ m d n. ok (record n { to_one = n.to_one ++ (m, d) ∷ [] });
  broadcast = λ m ds n. record n { to_all = n.to_all ++ (m, ds) ∷ [] };
  close_socket = λ d n. n;
  new_network = λ conf n. ok n;
  broadcasts = λ n. n.to_all;
  sends = λ n. n.to_one;
}

pub wire-IsTransport : {M : Type 0} → IsTransport (wire {M = M})
wire-IsTransport = record {
  broadcasts-broadcast = λ m ds n. refl;
  broadcasts-close_socket = λ d n. refl;
  broadcasts-throw = λ m d n n' e. cc;
  sends-broadcast = λ m ds n. refl;
  sends-send = λ m d n n' e. ground arith;
  broadcasts-send = λ m d n n' e. ground arith;
  sends-new_network = λ conf n n' e. ground arith;
}

abbrev pub ballot_one : Ballot
ballot_one = record { ballot_num = pos 0; client_id = pos 1; config_num = pos 0 }

-- A replica that has accepted `ballot_one` with nothing written.
abbrev pub ready_replica : Replica (List Syscall) (Wire ReplicaMsg)
ready_replica = record {
  conf = record { id = pos 0; trusted_mode = codes "local"; username = codes "u" };
  name = codes "replica0";
  ccf = [];
  path = codes "/b";
  client = codes "c:1";
  replicas = [];
  replicas_net_conf = [];
  new_connections = [];
  written = minus_one;
  highest_ballot = ballot_one;
  normal_ballot = ballot_one;
  pending_writes = [];
  last_acked_write = minus_one;
  last_fsync = record { seq = minus_one; r = zero_ballot; fi = record { flags = pos 0; fh = 0 } };
  fsync_recv_time = 0;
  sender = codes "c:1";
  store = record { directory = codes "/b/s"; file_handle_converter = []; world = [] };
  net = quiet;
}
