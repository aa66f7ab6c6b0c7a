-- ===== src/Client/Matchmake.antt =====
-- client/main.cpp: `matchmake`. The CCF network that it is given is an argument: what `sendMatchA` answers.
use disk_tees.Prelude.{
  ℕ, zero, suc, ℤ, pos, ◌+ℤ◌, Outcome, ok, out_of_fuel, and_then, if◌then◌else◌,
}
use disk_tees.Shared.Ballot.{Ballot, eqb_ballot}
use disk_tees.Shared.Ccf.Match.{MatchB}

abbrev pub SendMatchA : Type 0 → Type 0
SendMatchA S = Ballot → S → Outcome (MatchB × S)

-- The loop; the fuel counts its rounds.
unfoldable pub matchmake_from : {S : Type 0} → SendMatchA S → ℕ → Ballot → S → Outcome (MatchB × S)
matchmake_from send zero r s = out_of_fuel
matchmake_from send (suc fuel) r s = and_then (send r s) (λ (reply, t).
    let rest = matchmake_from send fuel (record r { ballot_num = reply.r.ballot_num +ℤ pos 1 }) t in
    if eqb_ballot reply.r r then ok (reply, t) else rest)

unfoldable pub first_ballot : ℤ → Ballot
first_ballot id = record { ballot_num = pos 0; client_id = id; config_num = pos 0 }

unfoldable pub matchmake : {S : Type 0} → SendMatchA S → ℕ → ℤ → S → Outcome (MatchB × S)
unfolding matchmake_from first_ballot
matchmake send fuel id s = matchmake_from send fuel (first_ballot id) s
