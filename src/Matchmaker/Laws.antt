-- ===== src/Matchmaker/Laws.antt =====
-- What the matchmaker promises.
use disk_tees.Prelude.{
  ℤ, ◌≡◌, refl, Bool, true, false, ◌&&◌, ◌⊎◌, inl, inr, Option, none, some, List, [], ◌∷◌, Bytes,
  arith, Bool-cases, if◌then◌else◌, ◌==ℤ◌, eqb_ℤ_iff,
}
use disk_tees.Shared.Ballot.{Ballot, eqb_ballot, ltb_ballot}
use disk_tees.Shared.Ballot.Order.{eqb_ballot_iff}
use disk_tees.Matchmaker.{
  CertType, Matchmaker, get_ballot_from_ccf, set_config, on_match_a, drop_below, on_garbage_a,
  on_add_cert, on_get_cert,
}

-- The configuration stored for a ballot.
pub config_of : Ballot → List (Ballot × Bytes) → Option Bytes
config_of r [] = none
config_of r ((s, c) ∷ configs) = if eqb_ballot s r then some c else config_of r configs

config_of-set_config :
    (r s : Ballot) (config : Bytes) (configs : List (Ballot × Bytes))
    → config_of s (set_config r config configs)
      ≡ (if eqb_ballot r s then some config else config_of s configs)
unfolding config_of set_config
config_of-set_config r s config [] = refl
config_of-set_config r s config ((t, c) ∷ configs) = ground (
  arith,
  config_of-set_config r s config configs,
  eqb_ballot_iff t r,
  eqb_ballot_iff t s,
  eqb_ballot_iff r s,
)

config_of-drop_below :
    (r s : Ballot) (configs : List (Ballot × Bytes))
    → config_of s (drop_below r configs) ≡ (if ltb_ballot s r then none else config_of s configs)
unfolding config_of drop_below
config_of-drop_below r s [] = ground arith
config_of-drop_below r s ((t, c) ∷ configs) =
    ground (arith, config_of-drop_below r s configs, eqb_ballot_iff t s)

-- `on_match_a` takes a ballot only where it is above the highest, and then keeps it as the highest and its
-- configuration beside the others; any other ballot changes nothing. Either way the answer is the highest
-- ballot.
pub match_lem :
    (r : Ballot) (config : Bytes) (m : Matchmaker) (s : Ballot)
    → let (reply, t) = on_match_a r config m in
      (reply.ballot ≡ get_ballot_from_ccf t)
      × ((ltb_ballot (get_ballot_from_ccf m) r ≡ true)
            × (get_ballot_from_ccf t ≡ r)
            × (config_of s t.configs
                ≡ (if eqb_ballot r s then some config else config_of s m.configs))
          ⊎ (ltb_ballot (get_ballot_from_ccf m) r ≡ false) × (t ≡ m))
unfolding on_match_a get_ballot_from_ccf
match_lem r config m s = elim (Bool-cases (ltb_ballot (get_ballot_from_ccf m) r)) [
  | inl higher ↦ rw higher (refl, inl (refl, refl, config_of-set_config r s config m.configs))
  | inr lower ↦ rw lower (refl, inr (refl, refl))
]

-- `on_garbage_a` forgets the configurations of lower ballots, and no other.
pub garbage_lem :
    (r s : Ballot) (m : Matchmaker)
    → (config_of s (on_garbage_a r m).configs
        ≡ (if ltb_ballot s r then none else config_of s m.configs))
      × (get_ballot_from_ccf (on_garbage_a r m) ≡ get_ballot_from_ccf m)
unfolding on_garbage_a get_ballot_from_ccf
garbage_lem r s m = (config_of-drop_below r s m.configs, refl)

pub same_type : CertType → CertType → Bool
same_type CertType.client CertType.client = true
same_type CertType.replica CertType.replica = true
same_type _ _ = false

-- What `on_get_cert` finds behind `on_add_cert`: the certificate that was there before, and where there was
-- none the new one, under its own type and id only. The answer is whether there was none.
pub cert_stays :
    (type asked : CertType) (id i : ℤ) (cert : Bytes) (m : Matchmaker)
    → (on_get_cert asked i (on_add_cert type id cert m).1 ≡ (elim (on_get_cert asked i m) [
      | some old ↦ some old
      | none ↦ if same_type asked type && id ==ℤ i then some cert else none
    ]))
      × ((on_add_cert type id cert m).0
          ≡ (elim (on_get_cert type id m) [ some old ↦ false | none ↦ true ]))
unfolding on_add_cert on_get_cert same_type
cert_stays CertType.client CertType.client id i cert m = ground (arith, eqb_ℤ_iff id i)
cert_stays CertType.client CertType.replica id i cert m = ground (arith, eqb_ℤ_iff id i)
cert_stays CertType.replica CertType.client id i cert m = ground (arith, eqb_ℤ_iff id i)
cert_stays CertType.replica CertType.replica id i cert m = ground (arith, eqb_ℤ_iff id i)
