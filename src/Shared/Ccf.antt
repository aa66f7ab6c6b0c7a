-- ===== src/Shared/Ccf.antt =====
-- shared/ccf_network.cpp: the requests to the CCF nodes, each repeated until one node answers it. The
-- `curl` scripts and the JSON files that they leave are the operating system's.
pub mod Live
pub mod Match
pub mod RoundTrip
use disk_tees.Prelude.{
  ℕ, zero, suc, ℤ, pos, ◌==ℤ◌, Bool, true, false, Option, none, some, [], ◌∷◌, ◌++◌, Bytes, codes,
  to_string, Outcome, ok, out_of_fuel, undefined, if◌then◌else◌,
}
use disk_tees.Shared.Ballot.{Ballot}
use disk_tees.Shared.IntMap.{values}
use disk_tees.Shared.NetworkConfig.{NetworkConfig, Addresses}
use disk_tees.Shared.Os.{Os, Syscall, Read, io_failure, json_error, value}

pub record CcfNetwork : Type 0 where
  pub path : Bytes
  pub ccf_addresses : Addresses
  pub live_addresses : Addresses

unfoldable pub new_ccf : Bytes → NetworkConfig → CcfNetwork
new_ccf path ccf = record { path = path; ccf_addresses = values ccf; live_addresses = values ccf }

-- `liveAddresses.back()`, which is undefined on the empty vector
pub back : Addresses → Option Bytes
back [] = none
back (a ∷ []) = some a
back (a ∷ b ∷ as') = back (b ∷ as')

pub pop_back : Addresses → Addresses
pop_back [] = []
pop_back (a ∷ []) = []
pop_back (a ∷ b ∷ as') = a ∷ pop_back (b ∷ as')

pub mark_last_address_dead : CcfNetwork → CcfNetwork
unfolding pop_back
mark_last_address_dead c = elim (pop_back c.live_addresses) [
  | [] ↦ record c { live_addresses = c.ccf_addresses }
  | a ∷ rest ↦ record c { live_addresses = a ∷ rest }
]

-- The sleep of five seconds behind a failure is left out.
pub curl_successful : ℤ → CcfNetwork → Bool × CcfNetwork
curl_successful error_code c =
    if error_code ==ℤ pos 0 then (true, c) else (false, mark_last_address_dead c)

pub request_successful : Read Bool → Bool
request_successful io_failure = false
request_successful json_error = false
request_successful (value success) = success

pub ballot_to_string : Ballot → Bytes
ballot_to_string r =
    to_string r.ballot_num
    ++ codes ","
    ++ to_string r.client_id
    ++ codes ","
    ++ to_string r.config_num

module _ {W : Type 0} (os : Os W) where
  -- One round of the loop: whether it ends here, and the state behind it.
  pub attempt : Bytes → (Bytes → Bytes) → Bytes → CcfNetwork × W → Bool × CcfNetwork × W
  unfolding curl_successful request_successful
  attempt output_file command address (c, w) =
      let (_, w1) = os.sys (Syscall.remove output_file) w in
      let (ret, w2) = os.sys (Syscall.system (command address)) w1 in
      let (curled, c') = curl_successful ret.ret c in
      if curled
      then (request_successful (os.read_success output_file w2), c', w2)
      else (false, c', w2)

  -- The loop that `getCert`, `sendMatchA` and `sendGarbageA` share; the fuel counts its rounds.
  pub request : ℕ → Bytes → (Bytes → Bytes) → CcfNetwork × W → Outcome (CcfNetwork × W)
  unfolding attempt back
  request zero output_file command s = out_of_fuel
  request (suc fuel) output_file command s = elim (back s.0.live_addresses) [
    | none ↦ undefined
    | some address ↦
        let (done, c', w') = attempt output_file command address s in
        let rest = request fuel output_file command (c', w') in if done then ok (c', w') else rest
  ]

  abbrev pub remove_output_file : Bytes → CcfNetwork × W → CcfNetwork × W
  remove_output_file output_file (c, w) = (c, (os.sys (Syscall.remove output_file) w).1)

  pub get_cert : ℕ → ℤ → Bytes → Bytes → CcfNetwork × W → Outcome (CcfNetwork × W)
  unfolding request
  get_cert fuel id name type s = elim (request fuel (codes "get_cert.json") command s) [
    | ok t ↦ ok (remove_output_file (codes "get_cert.json") t)
    | other ↦ other
  ]
    where
      command : Bytes → Bytes
      command address =
          s.0.path
          ++ codes "/../../cloud_scripts/ccf_networking/get_cert_no_retry.sh"
          ++ codes " -a "
          ++ address
          ++ codes " -i "
          ++ to_string id
          ++ codes " -n "
          ++ name
          ++ codes " -t "
          ++ type
