-- ===== src/System/Matchmaking.antt =====
-- client/main.cpp, shared/ccf_network.cpp and ccf/src/matchmaker.js: a client that takes a ballot from the
-- matchmaker, over requests that arrive.
use disk_tees.Prelude.{
  ℕ, suc, ℤ, pos, ◌+ℤ◌, ◌≡◌, refl, sym, ap, ◌∙◌, true, false, inl, inr, none, some, [], ◌∷◌, Bytes,
  codes, eqb_str, Outcome, ok, exited, arith, Bool-cases, if◌then◌else◌, IsInt, ltb_ℤ, +ℤ_parts,
}
use disk_tees.Shared.Ballot.{Ballot, eqb_ballot, ltb_ballot}
use disk_tees.Shared.Ballot.Order.{eqb_ballot_iff, ltb_ballot_irrefl, not_lt_of_lt}
use disk_tees.Shared.Ccf.{ballot_to_string}
use disk_tees.Shared.Ccf.Match.{
  text, texts, flag, Fields, Json, MatchB, field, as_text, as_texts, parse_configs, read_configs,
  read_ballot, match_of, read_match,
}
use disk_tees.Shared.Ccf.RoundTrip.{ballot_from_string-to_string}
use disk_tees.Matchmaker.{Matchmaker, MatchReply, on_match_a, get_ballot_from_ccf}
use disk_tees.Matchmaker.Laws.{match_lem}
use disk_tees.Client.Matchmake.{SendMatchA, matchmake_from, first_ballot, matchmake}

-- The JSON object that `on_match_a` returns.
pub reply_fields : MatchReply → Fields
reply_fields reply =
    (codes "success", flag true)
    ∷ (codes "configs", texts reply.configs)
    ∷ (codes "ballot", text (ballot_to_string reply.ballot))
    ∷ []

abbrev pub IsBallot : Ballot → Type 0
IsBallot r = IsInt r.ballot_num × IsInt r.client_id × IsInt r.config_num

module _ {W : Type 0} (json : Json W) where
  -- `sendMatchA` makes of every answer of the matchmaker its ballot and no configurations: the one calls them
  -- "configs" and the other reads "config".
  pub configs_lost :
      (reply : MatchReply)
      → IsBallot reply.ballot
      → read_match json (reply_fields reply) ≡ some (record { r = reply.ballot; configs = [] })
  unfolding read_match reply_fields field as_text as_texts read_configs read_ballot parse_configs
      eqb_str
  configs_lost reply (h, k, l) =
      rw (ballot_from_string-to_string reply.ballot h k l) (unfold match_of in refl)

  -- A request that arrives, with the configuration's text.
  pub answer : Bytes → SendMatchA Matchmaker
  answer config r m =
      let (reply, t) = on_match_a r config m in
      elim (read_match json (reply_fields reply)) [ none ↦ exited | some b ↦ ok (b, t) ]

  answer_lem :
      (config : Bytes) (r : Ballot) (m : Matchmaker)
      → IsBallot (on_match_a r config m).0.ballot
      → answer config r m
        ≡ ok (
          record { r = (on_match_a r config m).0.ballot; configs = [] },
          (on_match_a r config m).1,
        )
  unfolding answer
  answer_lem config r m h = rw (answer, configs_lost (on_match_a r config m).0 h) refl

  -- How matchmaking ends: with the highest ballot that there now is, which is this client's, and is not below
  -- any that the matchmaker had before.
  pub record Matched (m : Matchmaker) (id : ℤ) (end : Outcome (MatchB × Matchmaker)) : Type 0 where
    pub answered : MatchB
    pub t : Matchmaker
    pub ends : end ≡ ok (answered, t)
    pub highest : answered.r ≡ get_ballot_from_ccf t
    pub mine : answered.r.client_id ≡ id
    pub grows : ltb_ballot answered.r (get_ballot_from_ccf m) ≡ false

  eqb_refl : (r : Ballot) → eqb_ballot r r ≡ true
  eqb_refl r = (eqb_ballot_iff r r).1 refl

  taken_lem :
      (config : Bytes) (r : Ballot) (m : Matchmaker)
      → ltb_ballot (get_ballot_from_ccf m) r ≡ true
      → (on_match_a r config m).0.ballot ≡ r
  unfolding on_match_a get_ballot_from_ccf
  taken_lem config r m up = rw up refl

  -- A ballot above the highest is taken at once.
  higher-Matched :
      (config : Bytes) (fuel : ℕ) (r : Ballot) (m : Matchmaker)
      → IsBallot r
      → ltb_ballot (get_ballot_from_ccf m) r ≡ true
      → Matched m r.client_id (matchmake_from (answer config) (suc fuel) r m)
  unfolding matchmake_from
  higher-Matched config fuel r m h up =
      let taken : (on_match_a r config m).0.ballot ≡ r = taken_lem config r m up in
      record {
        answered = record { r = r; configs = [] };
        t = (on_match_a r config m).1;
        ends = rw (answer_lem config r m (rw taken h), taken, eqb_refl r) refl;
        highest = sym taken ∙ (match_lem r config m r).0;
        mine = refl;
        grows = not_lt_of_lt (get_ballot_from_ccf m) r up;
      }

  -- A ballot that is not above the highest, and not the highest either, is answered by the highest, and the
  -- client tries the next one.
  refused_lem :
      (config : Bytes) (fuel : ℕ) (r : Ballot) (m : Matchmaker)
      → IsBallot (get_ballot_from_ccf m)
      → ltb_ballot (get_ballot_from_ccf m) r ≡ false
      → matchmake_from (answer config) (suc fuel) r m ≡ (
          if eqb_ballot (get_ballot_from_ccf m) r
          then ok (record { r = get_ballot_from_ccf m; configs = [] }, m)
          else matchmake_from
              (answer config)
              fuel
              (record r { ballot_num = (get_ballot_from_ccf m).ballot_num +ℤ pos 1 })
              m)
  unfolding matchmake_from on_match_a get_ballot_from_ccf
  refused_lem config fuel r m h low =
      let same : on_match_a r config m
          ≡ (record { configs = []; ballot = get_ballot_from_ccf m }, m) =
        rw low refl in
      let e : answer config r m ≡ ok (record { r = get_ballot_from_ccf m; configs = [] }, m) =
        rw same at (answer_lem config r m (rw same h)) in
      rw e refl

  next_above :
      (h : Ballot) (r : Ballot)
      → ltb_ballot h (record r { ballot_num = h.ballot_num +ℤ pos 1 }) ≡ true
  unfolding ltb_ballot ltb_ℤ
  next_above h r = ground (arith, +ℤ_parts h.ballot_num (pos 1))

  -- A client alone with the matchmaker, whose requests arrive, has its ballot after two rounds at most, if
  -- the numbers stay within an `int`: the highest ballot, with its own id, and not below what was there.
  pub matchmake_ends :
      (config : Bytes) (fuel : ℕ) (id : ℤ) (m : Matchmaker)
      → IsInt id
      → IsBallot (get_ballot_from_ccf m)
      → IsInt ((get_ballot_from_ccf m).ballot_num +ℤ pos 1)
      → Matched m id (matchmake (answer config) (suc (suc fuel)) id m)
  unfolding matchmake first_ballot
  matchmake_ends config fuel id m i h k =
      let top = get_ballot_from_ccf m in
      let r = first_ballot id in
      elim (Bool-cases (ltb_ballot top r)) [
        | inl up ↦ higher-Matched config (suc fuel) r m (omega arith, i, omega arith) up
        | inr low ↦ elim (Bool-cases (eqb_ballot top r)) [
          | inl same ↦ record {
            answered = record { r = top; configs = [] };
            t = m;
            ends = rw (refused_lem config (suc fuel) r m h low, same) refl;
            highest = refl;
            mine = ap (λ b. b.client_id) ((eqb_ballot_iff top r).0 same);
            grows = ltb_ballot_irrefl top;
          }
          | inr other ↦
              rw (refused_lem config (suc fuel) r m h low, other)
                (higher-Matched config fuel (record r { ballot_num = top.ballot_num +ℤ pos 1 }) m
                  (k, i, omega arith) (next_above top r))
        ]
      ]
