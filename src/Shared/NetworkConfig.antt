-- ===== src/Shared/NetworkConfig.antt =====
-- shared/network_config.hpp and shared/network_config.cpp.
use disk_tees.Prelude.{ℤ, pos, ◌+ℤ◌, Bytes, codes, to_string, List, [], ◌∷◌, ◌++◌}
use disk_tees.Shared.IntMap.{IntMap, put}

-- From the id of a node to its address.
abbrev pub NetworkConfig : Type 0
NetworkConfig = IntMap Bytes

abbrev pub Addresses : Type 0
Addresses = List Bytes

pub data NodeType : Type 0 where
  client replica : NodeType

abbrev pub client_start_port : ℤ
client_start_port = pos 10000

abbrev pub replica_start_port : ℤ
replica_start_port = pos 10100

pub get_port : NodeType → ℤ → ℤ
get_port NodeType.client id = client_start_port +ℤ id
get_port NodeType.replica id = replica_start_port +ℤ id

unfoldable pub config_to_addrs : NodeType → NetworkConfig → Addresses
config_to_addrs type [] = []
config_to_addrs type ((id, ip) ∷ conf) =
    (ip ++ codes ":" ++ to_string (get_port type id)) ∷ config_to_addrs type conf

-- The entries of the JSON array, in its order: a later entry with the same id overwrites.
pub read_entries : List (ℤ × Bytes) → NetworkConfig → NetworkConfig
read_entries [] out = out
read_entries ((id, ip) ∷ entries) out = read_entries entries (put id ip out)
