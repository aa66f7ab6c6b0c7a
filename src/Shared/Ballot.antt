-- ===== src/Shared/Ballot.antt =====
-- shared/fuse_messages.hpp: `ballot`, its equality and its order.
pub mod Order
use disk_tees.Prelude.{ℤ, Bool, ◌&&◌, ◌||◌, ◌==ℤ◌, ltb_ℤ, pos}

pub record Ballot : Type 0 where
  pub ballot_num : ℤ
  pub client_id : ℤ
  pub config_num : ℤ

unfoldable pub eqb_ballot : Ballot → Ballot → Bool
eqb_ballot l r =
    l.ballot_num ==ℤ r.ballot_num && l.client_id ==ℤ r.client_id && l.config_num ==ℤ r.config_num

unfoldable pub ltb_ballot : Ballot → Ballot → Bool
ltb_ballot l r =
    let ballot_num_less = ltb_ℤ l.ballot_num r.ballot_num in
    let id_less = l.ballot_num ==ℤ r.ballot_num && ltb_ℤ l.client_id r.client_id in
    let config_less =
      l.ballot_num ==ℤ r.ballot_num
      && l.client_id ==ℤ r.client_id
      && ltb_ℤ l.config_num r.config_num in
    ballot_num_less || id_less || config_less

-- `{0, 0, 0}`
abbrev pub zero_ballot : Ballot
zero_ballot = record { ballot_num = pos 0; client_id = pos 0; config_num = pos 0 }
