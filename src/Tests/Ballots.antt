-- ===== src/Tests/Ballots.antt =====
-- A matchmaker that has handed out one ballot, to another client.
use disk_tees.Prelude.{
  pos, List, ◌≡◌, true, false, ◌⊎◌, none, some, [], ◌∷◌, codes, arith, ◌&&◌, ◌==ℤ◌, ◌+ℤ◌,
  if◌then◌else◌,
}
use disk_tees.Shared.Ballot.{Ballot, eqb_ballot, ltb_ballot}
use disk_tees.Shared.Os.{Syscall, Read}
use disk_tees.Shared.Ccf.{ballot_to_string}
use disk_tees.Shared.Ccf.Match.{Json, ballot_from_string, read_match}
use disk_tees.Shared.Ccf.RoundTrip.{ballot_from_string-to_string}
use disk_tees.Matchmaker.{
  CertType, Matchmaker, MatchReply, get_ballot_from_ccf, on_match_a, on_garbage_a, on_add_cert,
  on_get_cert,
}
use disk_tees.Matchmaker.Laws.{config_of, match_lem, garbage_lem, same_type, cert_stays}
use disk_tees.Client.Matchmake.{matchmake}
use disk_tees.System.Matchmaking.{reply_fields, answer, Matched, configs_lost, matchmake_ends}
use disk_tees.Tests.World.{ballot_one}

abbrev ballot_two : Ballot
ballot_two = record { ballot_num = pos 1; client_id = pos 2; config_num = pos 0 }

abbrev taken : Matchmaker
taken = record {
  client_certs = (pos 1, codes "cert") ∷ [];
  replica_certs = [];
  configs = (ballot_one, codes "{}") ∷ [];
  ballot = some ballot_one;
}

ballot_from_string-to_string_example :
    ballot_from_string (ballot_to_string ballot_two) ≡ some ballot_two
ballot_from_string-to_string_example =
    ballot_from_string-to_string ballot_two (omega arith) (omega arith) (omega arith)

match_lem_example :
    let (reply, t) = on_match_a ballot_two (codes "{}") taken in
    (reply.ballot ≡ get_ballot_from_ccf t)
    × ((ltb_ballot (get_ballot_from_ccf taken) ballot_two ≡ true)
          × (get_ballot_from_ccf t ≡ ballot_two)
          × (config_of ballot_one t.configs ≡ (
              if eqb_ballot ballot_two ballot_one
              then some (codes "{}")
              else config_of ballot_one taken.configs))
        ⊎ (ltb_ballot (get_ballot_from_ccf taken) ballot_two ≡ false) × (t ≡ taken))
match_lem_example = match_lem ballot_two (codes "{}") taken ballot_one

garbage_lem_example :
    (config_of ballot_one (on_garbage_a ballot_two taken).configs
      ≡ (if ltb_ballot ballot_one ballot_two then none else config_of ballot_one taken.configs))
    × (get_ballot_from_ccf (on_garbage_a ballot_two taken) ≡ get_ballot_from_ccf taken)
garbage_lem_example = garbage_lem ballot_two ballot_one taken

cert_stays_example :
    (on_get_cert CertType.client
        (pos 1)
        (on_add_cert CertType.client (pos 1) (codes "other") taken).1
      ≡ (elim (on_get_cert CertType.client (pos 1) taken) [
        | some old ↦ some old
        | none ↦
            if same_type CertType.client CertType.client && pos 1 ==ℤ pos 1
            then some (codes "other")
            else none
      ]))
    × ((on_add_cert CertType.client (pos 1) (codes "other") taken).0
        ≡ (elim (on_get_cert CertType.client (pos 1) taken) [ some old ↦ false | none ↦ true ]))
cert_stays_example =
    cert_stays CertType.client CertType.client (pos 1) (pos 1) (codes "other") taken

abbrev answered : MatchReply
answered = record { configs = codes "{}" ∷ []; ballot = ballot_two }

-- A JSON library that reads no configuration.
abbrev no_json : Json (List Syscall)
no_json = record {
  read_fields = λ file w. Read.json_error;
  dump_match = λ ballot config. ballot;
  dump_garbage = λ ballot. ballot;
  parse_config = λ text. none;
}

configs_lost_example :
    read_match no_json (reply_fields answered) ≡ some (record { r = ballot_two; configs = [] })
configs_lost_example = configs_lost no_json answered (omega arith, omega arith, omega arith)

matchmake_ends_example :
    Matched no_json taken (pos 2) (matchmake (answer no_json (codes "{}")) 2 (pos 2) taken)
unfolding get_ballot_from_ccf ◌+ℤ◌
matchmake_ends_example =
    matchmake_ends no_json (codes "{}") 0 (pos 2) taken (omega arith)
      (omega arith, omega arith, omega arith) (omega arith)
