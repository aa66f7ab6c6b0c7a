-- ===== src/Client/Election.antt =====
-- client/client_fuse.cpp: `p1bQuorum` and `highestRankingP1b`, as a count and as a maximum.
use disk_tees.Prelude.{
  ℕ, suc, ℤ, pos, ◌+ℤ◌, ltb_ℤ, ◌≤ℤ◌, ltb_ℤ_iff, +ℤ_parts, +ℤ-zero, eq_of_parts, ◌≡◌, refl, ap, sym,
  ◌∙◌, ◌⊎◌, inl, inr, ◌↔◌, true, false, some, List, [], ◌∷◌, All, All-mono, ◌<ℤ◌, get_elem?, arith,
  Bool-cases, if◌then◌else◌,
}
use disk_tees.Shared.Ballot.Order.{
  IsBelow, ltb_ballot_iff, eqb_ballot_iff, ltb_ballot_trans, ltb_ballot_irrefl,
}
use disk_tees.Shared.IntMap.{IntMap, contains}
use disk_tees.Shared.NetworkConfig.{NetworkConfig}
use disk_tees.Shared.Messages.{P1b}
use disk_tees.Client.State.{Client}
use disk_tees.Client.Votes.{
  count_p1bs, p1b_quorum_from, p1b_quorum, no_p1b, outranks, highest_from, highest_ranking_p1b,
}

-- How many of the promises come from a replica of `config`.
pub votes : NetworkConfig → IntMap P1b → ℕ
votes config [] = 0
votes config ((_, msg) ∷ msgs) =
    let rest = votes config msgs in if contains msg.id config then suc rest else rest

count_p1bs_lem :
    (config : NetworkConfig) (msgs : IntMap P1b) (count : ℤ)
    → count_p1bs config msgs count ≡ count +ℤ pos (votes config msgs)
unfolding count_p1bs votes
count_p1bs_lem config [] count = sym (+ℤ-zero count)
count_p1bs_lem config ((k, msg) ∷ msgs) count = elim (Bool-cases (contains msg.id config)) [
  | inl there ↦
      let n = votes config msgs in
      rw there (
        count_p1bs_lem config msgs (count +ℤ pos 1)
        ∙ eq_of_parts _ _ (
            omega (
              arith,
              +ℤ_parts count (pos 1),
              +ℤ_parts (count +ℤ pos 1) (pos n),
              +ℤ_parts count (pos (suc n)),
            )))
  | inr missing ↦ rw missing (count_p1bs_lem config msgs count)
]

-- Every configuration has its quorum, where the count of the `i`th starts at `stack i`.
pub EachHasQuorum : {W N : Type 0} → (ℕ → ℤ) → ℕ → List NetworkConfig → Client W N → Type 0
EachHasQuorum stack i [] c = Unit
EachHasQuorum stack i (config ∷ configs) c =
    (c.quorum ≤ℤ stack i +ℤ pos (votes config c.successful_p1bs))
    × EachHasQuorum stack (suc i) configs c

module _ {W N : Type 0} where
  p1b_quorum_from_iff :
      (stack : ℕ → ℤ) (i : ℕ) (configs : List NetworkConfig) (c : Client W N)
      → (p1b_quorum_from stack i configs c ≡ true) ↔ EachHasQuorum stack i configs c
  unfolding p1b_quorum_from EachHasQuorum
  p1b_quorum_from_iff stack i [] c = (λ e. tt, λ e. refl)
  p1b_quorum_from_iff stack i (config ∷ configs) c =
      let n = votes config c.successful_p1bs in
      let e = count_p1bs_lem config c.successful_p1bs (stack i) in
      let rest = p1b_quorum_from_iff stack (suc i) configs c in
      elim (Bool-cases (ltb_ℤ (stack i +ℤ pos n) c.quorum)) [
        | inl few ↦
            rw (e, few)
              (
                λ h. cc,
                λ h. absurd (omega (arith, (ltb_ℤ_iff (stack i +ℤ pos n) c.quorum).0 few, h.0)),
              )
        | inr enough ↦
            rw (e, enough)
              (
                λ h. (ground (arith, ltb_ℤ_iff (stack i +ℤ pos n) c.quorum), rest.0 h),
                λ h. rest.1 h.1,
              )
      ]

  -- `p1bQuorum` holds exactly where in every configuration the promises of its own replicas, added to what the
  -- uninitialised counter happens to hold when its round begins, reach the quorum.
  pub p1b_quorum_iff :
      (stack : ℕ → ℤ) (configs : List NetworkConfig) (c : Client W N)
      → (p1b_quorum stack configs c ≡ true) ↔ EachHasQuorum stack 0 configs c
  unfolding p1b_quorum
  p1b_quorum_iff stack configs c = p1b_quorum_from_iff stack 0 configs c

outranks_chain :
    (x msg best : P1b) → outranks msg best ≡ true → outranks x msg ≡ true → outranks x best ≡ true
unfolding outranks
outranks_chain x msg best h k = ground (
  arith,
  eqb_ballot_iff best.normal_ballot msg.normal_ballot,
  eqb_ballot_iff msg.normal_ballot x.normal_ballot,
  eqb_ballot_iff best.normal_ballot x.normal_ballot,
  ltb_ballot_trans best.normal_ballot msg.normal_ballot x.normal_ballot,
  ltb_ℤ_iff best.written msg.written,
  ltb_ℤ_iff msg.written x.written,
  ltb_ℤ_iff best.written x.written,
)

-- What does not outrank the best so far does not outrank a better one.
outranks_trans :
    (x best msg : P1b) → outranks x best ≡ false → outranks msg best ≡ true → outranks x msg ≡ false
outranks_trans x best msg h k = elim (Bool-cases (outranks x msg)) [
  | inl above ↦ absurd (true_false (sym (outranks_chain x msg best k above) ∙ h))
  | inr below ↦ below
]
  where
    true_false : true ≡ false → ⊥
    true_false e = cc

outranks_irrefl : (x : P1b) → outranks x x ≡ false
unfolding outranks
outranks_irrefl x = ground (arith, ltb_ballot_irrefl x.normal_ballot, ltb_ℤ_iff x.written x.written)

-- One of the promises.
pub OneOf : IntMap P1b → P1b → Type 0
OneOf msgs msg = (i : ℕ) × (k : ℤ) × (get_elem? msgs i ≡ some (k, msg))

later :
    (m : P1b) (msgs : IntMap P1b) (found : P1b) (j : ℤ)
    → (found ≡ m) ⊎ OneOf msgs found
    → OneOf ((j, m) ∷ msgs) found
unfolding OneOf
later m msgs found j (inl e) = (0, j, ap (λ x. some (j, x)) (sym e))
later m msgs found j (inr (i, k, e)) = (suc i, k, e)

behind :
    (best m : P1b) (msgs : IntMap P1b) (found : P1b) (j : ℤ)
    → (found ≡ best) ⊎ OneOf msgs found
    → (found ≡ best) ⊎ OneOf ((j, m) ∷ msgs) found
unfolding OneOf
behind best m msgs found j (inl e) = inl e
behind best m msgs found j (inr (i, k, e)) = inr (suc i, k, e)

-- What the loop makes of the best promise so far.
record Highest (best : P1b) (msgs : IntMap P1b) (found : P1b) : Type 0 where
  chosen : (found ≡ best) ⊎ OneOf msgs found
  above : (x : P1b) → outranks x best ≡ false → outranks x found ≡ false
  maximal : All (λ e. outranks e.1 found ≡ false) msgs

highest_from-Highest : (best : P1b) (msgs : IntMap P1b) → Highest best msgs (highest_from best msgs)
unfolding highest_from OneOf
highest_from-Highest best [] = record { chosen = inl refl; above = λ x h. h; maximal = tt }
highest_from-Highest best ((j, m) ∷ msgs) = elim (Bool-cases (outranks m best)) [
  | inl up ↦
      let v = highest_from-Highest m msgs in
      rw up (record {
        chosen = inr (later m msgs (highest_from m msgs) j v.chosen);
        above = λ x h. v.above x (outranks_trans x best m h up);
        maximal = (v.above m (outranks_irrefl m), v.maximal);
      })
  | inr down ↦
      let v = highest_from-Highest best msgs in
      rw down (record {
        chosen = behind best m msgs (highest_from best msgs) j v.chosen;
        above = v.above;
        maximal = (v.above m down, v.maximal);
      })
]

-- `msg` ranks above `best`: its normal ballot is higher, or the same with more written.
pub RanksAbove : P1b → P1b → Type 0
RanksAbove msg best =
    IsBelow best.normal_ballot msg.normal_ballot
    ⊎ ((best.normal_ballot ≡ msg.normal_ballot) × (best.written <ℤ msg.written))

outranks_iff : (msg best : P1b) → (outranks msg best ≡ true) ↔ RanksAbove msg best
unfolding outranks RanksAbove
outranks_iff msg best = ground (
  arith,
  ltb_ballot_iff best.normal_ballot msg.normal_ballot,
  eqb_ballot_iff best.normal_ballot msg.normal_ballot,
  ltb_ℤ_iff best.written msg.written,
)

not_above : (msg best : P1b) → outranks msg best ≡ false → ¬ RanksAbove msg best
not_above msg best h above = ground (arith, h, (outranks_iff msg best).1 above)

-- `highestRankingP1b` is `{-1, …}` or one of the promises, and no promise has a higher normal ballot, or the same
-- and more written.
pub highest_is_maximal :
    {W N : Type 0} (c : Client W N)
    → ((highest_ranking_p1b c ≡ no_p1b) ⊎ OneOf c.successful_p1bs (highest_ranking_p1b c))
      × All (λ e. ¬ RanksAbove e.1 (highest_ranking_p1b c)) c.successful_p1bs
unfolding highest_ranking_p1b
highest_is_maximal c =
    let v = highest_from-Highest no_p1b c.successful_p1bs in
    (v.chosen, All-mono _ _ c.successful_p1bs (λ e. not_above e.1 _) v.maximal)
