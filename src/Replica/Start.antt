-- ===== src/Replica/Start.antt =====
-- replica/main.cpp: the command line of the replica, and the state in which its loop begins.
use disk_tees.Prelude.{
  ℕ, ℤ, pos, List, [], ◌∷◌, ◌++◌, Bytes, codes, to_string, Outcome, ok, exited, and_then, ◌==◌,
  if◌then◌else◌,
}
use disk_tees.Shared.NetworkConfig.{NetworkConfig}
use disk_tees.Shared.Os.{Os}
use disk_tees.Shared.Transport.{Transport}
use disk_tees.Shared.Messages.{ReplicaMsg}
use disk_tees.Replica.State.{Config, Replica, new_replica}
use disk_tees.Replica.Main.{Round, serve}

-- What `getopt` finds, one option after the other, each with its argument.
pub data Opt : Type 0 where
  opt_i opt_t opt_u : Bytes → Opt
  opt_unknown : Opt

-- `atoi` is the C library's.
pub read_opts : (Bytes → ℤ) → List Opt → Config → Outcome Config
read_opts atoi [] conf = ok conf
read_opts atoi (opt_i optarg ∷ opts) conf = read_opts atoi opts (record conf { id = atoi optarg })
read_opts atoi (opt_t optarg ∷ opts) conf =
    read_opts atoi opts (record conf { trusted_mode = optarg })
read_opts atoi (opt_u optarg ∷ opts) conf = read_opts atoi opts (record conf { username = optarg })
read_opts atoi (opt_unknown ∷ opts) conf = exited

-- Without arguments the process ends; `argc` counts the program's name.
pub parse_args : (Bytes → ℤ) → ℕ → List Opt → Outcome Config
unfolding read_opts
parse_args atoi argc opts =
    if argc == 1
    then exited
    else read_opts atoi opts (record { id = pos 0; trusted_mode = []; username = [] })

module _ {W N : Type 0} where
  -- The replica that `main` makes. The connections are those of a `TLS` without a network.
  unfoldable pub start : Config → NetworkConfig → W → N → Replica W N
  start conf ccf_conf w n =
      let path =
        codes "/home/" ++ conf.username ++ codes "/disk-tees/build/replica" ++ to_string conf.id in
      new_replica conf (codes "replica" ++ to_string conf.id) (path ++ codes "/storage") ccf_conf
        path w n

module _ {W N : Type 0} (fuel : ℕ) (os : Os W) (tls : Transport ReplicaMsg N)
    (atoi : Bytes → ℤ) where
  -- `main` over the rounds that its loop makes.
  pub replica_main : ℕ → List Opt → NetworkConfig → ℕ → List Round → W → N → Outcome (Replica W N)
  unfolding parse_args start serve
  replica_main argc opts ccf_conf rounds xs w n =
      and_then (parse_args atoi argc opts)
        (λ conf. serve fuel os tls rounds xs (start conf ccf_conf w n))
