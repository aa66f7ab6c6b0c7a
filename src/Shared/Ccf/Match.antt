-- ===== src/Shared/Ccf/Match.antt =====
-- shared/ccf_network.hpp and .cpp: `sendMatchA`, `sendGarbageA`, and the ballots that travel as text.
use disk_tees.Prelude.{
  ℕ, ℤ, Bool, false, Option, none, some, List, [], ◌∷◌, ◌++◌, Bytes, codes, eqb_str, Outcome, ok,
  exited, and_then, if◌then◌else◌, getline, stoi,
}
use disk_tees.Shared.Ballot.{Ballot}
use disk_tees.Shared.NetworkConfig.{NetworkConfig}
use disk_tees.Shared.Os.{Os, Read, io_failure, json_error, value}
use disk_tees.Shared.Ccf.{CcfNetwork, ballot_to_string, request, remove_output_file}

-- A value in a JSON object of the matchmaker.
pub data Field : Type 0 where
  text : Bytes → Field
  texts : List Bytes → Field
  flag : Bool → Field

abbrev pub Fields : Type 0
Fields = List (Bytes × Field)

-- The JSON library, as far as these functions use it.
pub record Json (W : Type 0) : Type 0 where
  -- `json::parse` of a file that holds an object
  pub read_fields : Bytes → W → Read Fields
  -- `dump` of the two objects that are sent
  pub dump_match : (ballot : Bytes) (config : NetworkConfig) → Bytes
  pub dump_garbage : (ballot : Bytes) → Bytes
  -- `json::parse` of a text, read as a map; `none` is a `json::exception`
  pub parse_config : Bytes → Option NetworkConfig

pub record MatchB : Type 0 where
  pub r : Ballot
  pub configs : List NetworkConfig

-- The three tokens. One that is not read keeps its value.
unfoldable pub tokens : Bytes → Bytes × Bytes × Bytes
tokens s =
    let (first, s1) = getline b',' [] (record { rest = s; eof = false }) in
    let (second, s2) = getline b',' first s1 in
    let (third, s3) = getline b',' second s2 in (first, second, third)

unfoldable pub ballot_of : Option ℤ → Option ℤ → Option ℤ → Option Ballot
ballot_of (some ballot_num) (some client_id) (some config_num) =
    some (record { ballot_num = ballot_num; client_id = client_id; config_num = config_num })
ballot_of _ _ _ = none

-- `ballotFromString`: `none` is an exception of `std::stoi`.
unfoldable pub ballot_from_string : Bytes → Option Ballot
unfolding tokens ballot_of
ballot_from_string s =
    let (first, second, third) = tokens s in ballot_of (stoi first) (stoi second) (stoi third)

-- `data[key]`; `none` is null, where the key is missing
unfoldable pub field : Bytes → Fields → Option Field
field key [] = none
field key ((name, v) ∷ fields) = if eqb_str name key then some v else field key fields

-- As a `std::string`; `none` is a `json::exception`.
unfoldable pub as_text : Option Field → Option Bytes
as_text (some (text s)) = some s
as_text _ = none

-- The strings that a range-for over the value reads: null has none, and a value that is no array is its
-- own only element.
unfoldable pub as_texts : Option Field → Option (List Bytes)
as_texts none = some []
as_texts (some (text s)) = some (s ∷ [])
as_texts (some (texts l)) = some l
as_texts (some (flag b)) = none

unfoldable pub read_ballot : Option Bytes → Option Ballot
read_ballot none = none
read_ballot (some s) = ballot_from_string s

unfoldable pub match_of : Option Ballot → Option (List NetworkConfig) → Option MatchB
match_of (some r) (some configs) = some (record { r = r; configs = configs })
match_of _ _ = none

module _ {W : Type 0} (json : Json W) where
  unfoldable pub parse_configs : List Bytes → Option (List NetworkConfig)
  parse_configs [] = some []
  parse_configs (s ∷ strings) = elim (json.parse_config s) [
    | none ↦ none
    | some config ↦ (elim (parse_configs strings) [
      | none ↦ none
      | some configs ↦ some (config ∷ configs)
    ])
  ]

  unfoldable pub read_configs : Option (List Bytes) → Option (List NetworkConfig)
  unfolding parse_configs
  read_configs none = none
  read_configs (some strings) = parse_configs strings

  -- The key of the configurations is "config". Whatever cannot be read ends in `none`.
  unfoldable pub read_match : Fields → Option MatchB
  read_match fields =
      match_of (read_ballot (as_text (field (codes "ballot") fields)))
        (read_configs (as_texts (field (codes "config") fields)))

module _ {W : Type 0} (os : Os W) (json : Json W) where
  -- The command of one attempt.
  pub send_json : Bytes → Bytes → Bytes → Bytes → Bytes
  send_json path endpoint body address =
      path
      ++ codes "/../../cloud_scripts/ccf_networking/send_json.sh"
      ++ codes " -a "
      ++ address
      ++ codes " -e "
      ++ endpoint
      ++ codes " -j '"
      ++ body
      ++ codes "'"

  -- What cannot be read ends the process: by `exit`, or by an exception that nothing catches.
  pub accept_match : CcfNetwork × W → Outcome (MatchB × CcfNetwork × W)
  unfolding read_match
  accept_match (c, w) = elim (json.read_fields (codes "match.json") w) [
    | io_failure ↦ exited
    | json_error ↦ exited
    | value fields ↦ (elim (read_match json fields) [
      | none ↦ exited
      | some m ↦ let (d, v) = remove_output_file os (codes "match.json") (c, w) in ok (m, d, v)
    ])
  ]

  pub send_match_a : ℕ → Ballot → NetworkConfig → CcfNetwork × W → Outcome (MatchB × CcfNetwork × W)
  unfolding accept_match send_json ballot_to_string
  send_match_a fuel r config s =
      and_then
        (request os fuel (codes "match.json")
          (send_json s.0.path (codes "match") (json.dump_match (ballot_to_string r) config)) s)
        accept_match

  pub send_garbage_a : ℕ → Ballot → CcfNetwork × W → Outcome (CcfNetwork × W)
  unfolding send_json ballot_to_string
  send_garbage_a fuel r s =
      and_then
        (request os fuel (codes "garbage.json")
          (send_json s.0.path (codes "garbage") (json.dump_garbage (ballot_to_string r))) s)
        (λ t. ok (remove_output_file os (codes "garbage.json") t))
