-- ===== src/Shared/Ballot/Order.antt =====
-- The two operators of `ballot` are a strict total order and its equality.
use disk_tees.Prelude.{
  ℤ, ◌<ℤ◌, ◌≡◌, ◌⊎◌, ◌↔◌, true, false, arith, ltb_ℤ, eqb_ℤ_iff, ltb_ℤ_iff, eq_of_parts,
}
use disk_tees.Shared.Ballot.{Ballot, eqb_ballot, ltb_ballot}

pub eqb_ballot_iff : (l r : Ballot) → (eqb_ballot l r ≡ true) ↔ (l ≡ r)
unfolding eqb_ballot
eqb_ballot_iff l r = ground (
  arith,
  eqb_ℤ_iff l.ballot_num r.ballot_num,
  eqb_ℤ_iff l.client_id r.client_id,
  eqb_ℤ_iff l.config_num r.config_num,
)

-- The order of ballots, by their fields: the number counts first, then the client, then the configuration.
pub IsBelow : Ballot → Ballot → Type 0
IsBelow a b =
    (a.ballot_num <ℤ b.ballot_num)
    ⊎ ((a.ballot_num ≡ b.ballot_num)
        × ((a.client_id <ℤ b.client_id)
            ⊎ ((a.client_id ≡ b.client_id) × (a.config_num <ℤ b.config_num))))

pub ltb_ballot_iff : (a b : Ballot) → (ltb_ballot a b ≡ true) ↔ IsBelow a b
unfolding ltb_ballot IsBelow
ltb_ballot_iff a b = ground (
  arith,
  eqb_ℤ_iff a.ballot_num b.ballot_num,
  eqb_ℤ_iff a.client_id b.client_id,
  ltb_ℤ_iff a.ballot_num b.ballot_num,
  ltb_ℤ_iff a.client_id b.client_id,
  ltb_ℤ_iff a.config_num b.config_num,
)

ltb_ℤ_total : (a b : ℤ) → (ltb_ℤ a b ≡ true) ⊎ (a ≡ b) ⊎ (ltb_ℤ b a ≡ true)
unfolding ltb_ℤ
ltb_ℤ_total a b = ground (arith, eq_of_parts a b)

pub ltb_ballot_irrefl : (r : Ballot) → ltb_ballot r r ≡ false
unfolding ltb_ballot ltb_ℤ
ltb_ballot_irrefl r = ground arith

-- The order of ballots is transitive.
pub ltb_ballot_trans :
    (a b c : Ballot) → ltb_ballot a b ≡ true → ltb_ballot b c ≡ true → ltb_ballot a c ≡ true
unfolding ltb_ballot
ltb_ballot_trans a b c p q = ground (
  arith,
  eqb_ℤ_iff a.ballot_num b.ballot_num,
  eqb_ℤ_iff b.ballot_num c.ballot_num,
  eqb_ℤ_iff a.ballot_num c.ballot_num,
  eqb_ℤ_iff a.client_id b.client_id,
  eqb_ℤ_iff b.client_id c.client_id,
  eqb_ℤ_iff a.client_id c.client_id,
  ltb_ℤ_iff a.ballot_num b.ballot_num,
  ltb_ℤ_iff b.ballot_num c.ballot_num,
  ltb_ℤ_iff a.ballot_num c.ballot_num,
  ltb_ℤ_iff a.client_id b.client_id,
  ltb_ℤ_iff b.client_id c.client_id,
  ltb_ℤ_iff a.client_id c.client_id,
  ltb_ℤ_iff a.config_num b.config_num,
  ltb_ℤ_iff b.config_num c.config_num,
  ltb_ℤ_iff a.config_num c.config_num,
)

pub ltb_ballot_total : (a b : Ballot) → (ltb_ballot a b ≡ true) ⊎ (a ≡ b) ⊎ (ltb_ballot b a ≡ true)
unfolding ltb_ballot
ltb_ballot_total a b = ground (
  arith,
  ltb_ℤ_total a.ballot_num b.ballot_num,
  ltb_ℤ_total a.client_id b.client_id,
  ltb_ℤ_total a.config_num b.config_num,
  (eqb_ℤ_iff a.ballot_num b.ballot_num),
  (eqb_ℤ_iff a.client_id b.client_id),
  eqb_ℤ_iff b.ballot_num a.ballot_num,
  eqb_ℤ_iff b.client_id a.client_id,
)

-- "Not below" is transitive.
pub not_lt_trans :
    (a b c : Ballot) → ltb_ballot a b ≡ false → ltb_ballot b c ≡ false → ltb_ballot a c ≡ false
not_lt_trans a b c p q = ground (arith, ltb_ballot_total a b, ltb_ballot_trans b a c)

pub not_lt_of_lt : (a b : Ballot) → ltb_ballot a b ≡ true → ltb_ballot b a ≡ false
not_lt_of_lt a b p = ground (arith, ltb_ballot_trans a b a, ltb_ballot_irrefl a)

-- Any two ballots compare in exactly one of three ways, and `==` holds in the one where they are the same.
ballot_trichotomy :
    (a b : Ballot)
    → ((ltb_ballot a b ≡ true) × (eqb_ballot a b ≡ false) × (ltb_ballot b a ≡ false))
      ⊎ ((a ≡ b) × (eqb_ballot a b ≡ true) × (ltb_ballot a b ≡ false) × (ltb_ballot b a ≡ false))
      ⊎ ((ltb_ballot b a ≡ true) × (eqb_ballot a b ≡ false) × (ltb_ballot a b ≡ false))
ballot_trichotomy a b = ground (
  arith,
  ltb_ballot_total a b,
  eqb_ballot_iff a b,
  not_lt_of_lt a b,
  not_lt_of_lt b a,
  ltb_ballot_irrefl a,
  ltb_ballot_irrefl b,
)
