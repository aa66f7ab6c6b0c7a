-- ===== src/Client/Votes.antt =====
-- client/client_fuse.cpp: what the client makes of the votes of the leader election.
use disk_tees.Prelude.{
  ℕ, suc, ℤ, pos, minus_one, ◌+ℤ◌, ltb_ℤ, Bool, true, false, ◌&&◌, ◌||◌, List, [], ◌∷◌,
  if◌then◌else◌,
}
use disk_tees.Shared.Ballot.{zero_ballot, ltb_ballot, eqb_ballot}
use disk_tees.Shared.IntMap.{IntMap, contains}
use disk_tees.Shared.NetworkConfig.{NetworkConfig}
use disk_tees.Shared.Messages.{P1b}
use disk_tees.Client.State.{Client}

-- `for (msg : successfulP1bs) if (config.contains(msg.id)) p1bCount++;`, from a first value of the count
unfoldable pub count_p1bs : NetworkConfig → IntMap P1b → ℤ → ℤ
count_p1bs config [] count = count
count_p1bs config ((_, msg) ∷ msgs) count =
    count_p1bs config msgs (if contains msg.id config then count +ℤ pos 1 else count)

-- `p1bCount` is not initialised: `stack i` is what the variable holds when the round for the `i`th
-- configuration begins.
unfoldable pub p1b_quorum_from :
    {W N : Type 0} → (ℕ → ℤ) → ℕ → List NetworkConfig → Client W N → Bool
unfolding count_p1bs
p1b_quorum_from stack i [] c = true
p1b_quorum_from stack i (config ∷ configs) c =
    let rest = p1b_quorum_from stack (suc i) configs c in
    if ltb_ℤ (count_p1bs config c.successful_p1bs (stack i)) c.quorum then false else rest

unfoldable pub p1b_quorum : {W N : Type 0} → (ℕ → ℤ) → List NetworkConfig → Client W N → Bool
unfolding p1b_quorum_from
p1b_quorum stack configs c = p1b_quorum_from stack 0 configs c

abbrev pub no_p1b : P1b
no_p1b = record {
  id = minus_one;
  client_ballot = zero_ballot;
  written = minus_one;
  normal_ballot = zero_ballot;
  highest_ballot = zero_ballot;
}

-- Whether `msg` ranks above `best`.
unfoldable pub outranks : P1b → P1b → Bool
outranks msg best =
    ltb_ballot best.normal_ballot msg.normal_ballot
    || (eqb_ballot best.normal_ballot msg.normal_ballot && ltb_ℤ best.written msg.written)

unfoldable pub highest_from : P1b → IntMap P1b → P1b
unfolding outranks
highest_from best [] = best
highest_from best ((_, msg) ∷ msgs) = highest_from (if outranks msg best then msg else best) msgs

unfoldable pub highest_ranking_p1b : {W N : Type 0} → Client W N → P1b
unfolding highest_from
highest_ranking_p1b c = highest_from no_p1b c.successful_p1bs
