-- ===== src/Shared/Ccf/RoundTrip.antt =====
-- shared/ccf_network.cpp: a ballot read back from its text.
use mathlib.Core.List.{append_assoc}
use disk_tees.Prelude.{
  ◌≡◌, refl, ap, ◌∙◌, some, ◌∷◌, ◌++◌, Bytes, codes, to_string, getline, stoi, IsInt,
  stoi-to_string, Free, to_string-Free, split_at_first, split_at_last,
}
use disk_tees.Shared.Ballot.{Ballot}
use disk_tees.Shared.Ccf.{ballot_to_string}
use disk_tees.Shared.Ccf.Match.{tokens, ballot_of, ballot_from_string}

tokens_three :
    (a b c : Bytes)
    → Free b',' a
    → Free b',' b
    → Free b',' c
    → tokens (a ++ (b',' ∷ (b ++ (b',' ∷ c)))) ≡ (a, b, c)
unfolding tokens getline
tokens_three a b c fa fb fc =
    rw
      (
        split_at_first b',' a (b ++ (b',' ∷ c)) fa,
        split_at_first b',' b c fb,
        split_at_last b',' c fc,
      )
      refl

regroup : (a b c : Bytes) → a ++ codes "," ++ b ++ codes "," ++ c ≡ a ++ (b',' ∷ (b ++ (b',' ∷ c)))
regroup a b c = simp append_assoc refl

-- `ballotFromString` reads back what `ballotToString` prints, for every ballot of three `int`s.
pub ballot_from_string-to_string :
    (r : Ballot)
    → IsInt r.ballot_num
    → IsInt r.client_id
    → IsInt r.config_num
    → ballot_from_string (ballot_to_string r) ≡ some r
unfolding ballot_from_string ballot_to_string ballot_of
ballot_from_string-to_string r h k l =
    ap ballot_from_string
      (regroup (to_string r.ballot_num) (to_string r.client_id) (to_string r.config_num))
    ∙ ap (λ t. ballot_of (stoi t.0) (stoi t.1) (stoi t.2))
        (tokens_three _ _ _ (to_string-Free r.ballot_num) (to_string-Free r.client_id)
          (to_string-Free r.config_num))
    ∙ rw
        (stoi-to_string r.ballot_num h, stoi-to_string r.client_id k, stoi-to_string r.config_num l)
        refl
