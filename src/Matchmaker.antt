-- ===== src/Matchmaker.antt =====
-- ccf/src/matchmaker.js: the service that hands out ballots and keeps the configurations. The tables of CCF are
-- association lists; a ballot stands for its text, which `ballot_to_string` prints and `split` and
-- `parseInt` read. The requests are those of shared/ccf_network.cpp, so no field is missing.
pub mod Laws
use disk_tees.Prelude.{
  ℤ, pos, Bool, true, false, Option, none, some, List, [], ◌∷◌, Bytes, ◌==ℤ◌, if◌then◌else◌,
}
use disk_tees.Shared.Ballot.{Ballot, zero_ballot, eqb_ballot, ltb_ballot}

pub data CertType : Type 0 where
  client replica : CertType

pub record Matchmaker : Type 0 where
  pub client_certs : List (ℤ × Bytes)
  pub replica_certs : List (ℤ × Bytes)
  -- the texts of the configurations
  pub configs : List (Ballot × Bytes)
  -- `highestBallot`, where it was set
  pub ballot : Option Ballot

pub record MatchReply : Type 0 where
  pub configs : List Bytes
  pub ballot : Ballot

unfoldable pub get_ballot_from_ccf : Matchmaker → Ballot
get_ballot_from_ccf m = elim m.ballot [ none ↦ zero_ballot | some r ↦ r ]

-- `kv.set`
pub set_config : Ballot → Bytes → List (Ballot × Bytes) → List (Ballot × Bytes)
set_config r config [] = (r, config) ∷ []
set_config r config ((s, c) ∷ configs) =
    let rest = set_config r config configs in
    if eqb_ballot s r then (s, config) ∷ configs else (s, c) ∷ rest

-- The configurations of the ballots below `r`.
pub configs_below : Ballot → List (Ballot × Bytes) → List Bytes
configs_below r [] = []
configs_below r ((s, c) ∷ configs) =
    let rest = configs_below r configs in if ltb_ballot s r then c ∷ rest else rest

unfoldable pub on_match_a : Ballot → Bytes → Matchmaker → MatchReply × Matchmaker
unfolding get_ballot_from_ccf set_config configs_below
on_match_a r config m =
    if ltb_ballot (get_ballot_from_ccf m) r
    then (let configs = set_config r config m.configs in
        (
          record { configs = configs_below r configs; ballot = r },
          record m { ballot = some r; configs = configs },
        ))
    else (record { configs = []; ballot = get_ballot_from_ccf m }, m)

pub drop_below : Ballot → List (Ballot × Bytes) → List (Ballot × Bytes)
drop_below r [] = []
drop_below r ((s, c) ∷ configs) =
    let rest = drop_below r configs in if ltb_ballot s r then rest else (s, c) ∷ rest

pub on_garbage_a : Ballot → Matchmaker → Matchmaker
unfolding drop_below
on_garbage_a r m = record m { configs = drop_below r m.configs }

pub get_cert_of : ℤ → List (ℤ × Bytes) → Option Bytes
get_cert_of id [] = none
get_cert_of id ((i, cert) ∷ certs) = if i ==ℤ id then some cert else get_cert_of id certs

-- The answer is `success`; a certificate that is there stays.
pub on_add_cert : CertType → ℤ → Bytes → Matchmaker → Bool × Matchmaker
unfolding get_cert_of
on_add_cert CertType.client id cert m = elim (get_cert_of id m.client_certs) [
  | some old ↦ (false, m)
  | none ↦ (true, record m { client_certs = (id, cert) ∷ m.client_certs })
]
on_add_cert CertType.replica id cert m = elim (get_cert_of id m.replica_certs) [
  | some old ↦ (false, m)
  | none ↦ (true, record m { replica_certs = (id, cert) ∷ m.replica_certs })
]

pub on_get_cert : CertType → ℤ → Matchmaker → Option Bytes
unfolding get_cert_of
on_get_cert CertType.client id m = get_cert_of id m.client_certs
on_get_cert CertType.replica id m = get_cert_of id m.replica_certs
