-- ===== src/Client/Main/Ended.antt =====
-- client/main.cpp: steps 5 to 8, where they end, and step 7 against a replica whose disk is fetched.
use disk_tees.Prelude.{
  ℕ, pos, ltb_ℤ, ◌≤◌, ◌≡◌, refl, sym, ap, ◌∙◌, true, List, [], ◌∷◌, ◌++◌, length, ok, >>=-eq-ok,
  arith,
}
use disk_tees.Shared.NetworkConfig.{NetworkConfig, Addresses}
use disk_tees.Shared.Os.{Os}
use disk_tees.Shared.Transport.{Transport, IsTransport}
use disk_tees.Shared.Messages.{ClientMsg}
use disk_tees.Client.State.{Client}
use disk_tees.Client.Votes.{p1b_quorum}
use disk_tees.Client.Main.Elected.{OwnVotes, Follows, Follows-trans, Follows-same}
use disk_tees.Client.Main.Disks.{Options, Leader, Stack, wait_until, choose_disk}
use disk_tees.Client.Main.Chosen.{no_disk_is_chosen}
use disk_tees.Client.Main.Finish.{wait_until_lem, choose_disk_lem}
use disk_tees.Client.Main.{p2b_quorum, ask, rebroadcast, propose, elect}

-- The p2a of a client that proposes no disk.
abbrev pub empty_p2a : {W N : Type 0} → Client W N → ClientMsg × Addresses
empty_p2a c = (
  ClientMsg.p2a (record {
    seq = pos 0;
    r = c.r;
    written = c.written;
    disk_replica_name = [];
    disk_checksum = [];
  }),
  c.replicas,
)

empty_p2a_lem :
    {W N : Type 0} (c d : Client W N)
    → c.r ≡ d.r
    → c.written ≡ d.written
    → c.replicas ≡ d.replicas
    → empty_p2a c ≡ empty_p2a d
empty_p2a_lem c d e1 e2 e3 = rw (e1, e2, e3) refl

module _ {W N : Type 0} (fuel : ℕ) (os : Os W) (tls : Transport ClientMsg N) (h : IsTransport tls)
    (opts : Options) (stack : Stack W N) (configs : List NetworkConfig)
    (replica_conf : NetworkConfig) where
  -- What was broadcast last, where no disk was chosen.
  propose_lem :
      (l : Leader W N)
      → l.no_prior_state ≡ true
      → tls.broadcasts (propose os tls opts l (rebroadcast os tls opts replica_conf l)).net
        ≡ tls.broadcasts l.fuse.net ++ empty_p2a l.fuse ∷ []
  unfolding propose rebroadcast
  propose_lem l none_there =
      rw none_there (h.broadcasts-broadcast (empty_p2a l.fuse).0 l.fuse.replicas l.fuse.net)

  propose-Follows :
      (l : Leader W N)
      → l.no_prior_state ≡ true
      → Follows l.fuse (propose os tls opts l (rebroadcast os tls opts replica_conf l))
  unfolding propose rebroadcast
  propose-Follows l none_there = rw none_there (Follows-same l.fuse _ refl refl refl)

  propose-written :
      (l : Leader W N)
      → l.no_prior_state ≡ true
      → (propose os tls opts l (rebroadcast os tls opts replica_conf l)).written ≡ l.fuse.written
  unfolding propose rebroadcast
  propose-written l none_there = rw none_there refl

  p2b_quorum_lem : (c : Client W N) → p2b_quorum c ≡ true → 1 ≤ length c.successful_p2bs
  unfolding p2b_quorum ltb_ℤ
  p2b_quorum_lem c e = ground arith

  -- A leader election that begins without p2bs and ends, ends with a p2b at least, all p2bs are for the client's
  -- own ballot, which is the one it began with, and the last that it broadcast is a p2a that names no disk.
  pub elected :
      (l m : Leader W N)
      → l.fuse.successful_p2bs ≡ []
      → elect fuel os tls opts stack configs replica_conf l ≡ ok m
      → (1 ≤ length m.fuse.successful_p2bs)
        × OwnVotes m.fuse
        × (m.fuse.r ≡ l.fuse.r)
        × (before : List (ClientMsg × Addresses)) × (tls.broadcasts m.fuse.net
            ≡ before ++ empty_p2a m.fuse ∷ [])
  unfolding elect ask OwnVotes
  elected l m fresh e =
      let asked = record l { fuse = ask fuel os tls opts stack replica_conf l.all_conf l.fuse } in
      let (voted, e1, go1) =
        >>=-eq-ok (wait_until tls (λ c. p1b_quorum (stack c) configs c) fuel asked) _ e in
      let (chosen, e2, go2) =
        >>=-eq-ok (choose_disk fuel os tls opts stack configs fuel voted) _ go1 in
      let (empty, _) = no_disk_is_chosen fuel os tls opts stack configs fuel voted chosen e2 in
      let v1 = (wait_until_lem tls h _ fuel asked voted e1).0.follows in
      let v2 = choose_disk_lem fuel os tls h opts stack configs fuel voted chosen e2 in
      let v3 = propose-Follows chosen empty in
      let (last, quorum_there) = wait_until_lem tls h p2b_quorum fuel _ m go2 in
      let v = Follows-trans v1 (Follows-trans v2 (Follows-trans v3 last.follows)) in
      let same : empty_p2a m.fuse ≡ empty_p2a chosen.fuse =
        empty_p2a_lem m.fuse chosen.fuse (last.follows.ballot_kept ∙ v3.ballot_kept)
          (last.written_kept ∙ propose-written chosen empty)
          (last.follows.replicas_kept ∙ v3.replicas_kept) in
      (
        p2b_quorum_lem m.fuse quorum_there,
        v.own_kept (rw fresh tt),
        v.ballot_kept,
        tls.broadcasts chosen.fuse.net,
        last.broadcasts_kept
            ∙ propose_lem chosen empty
            ∙ ap (λ p. tls.broadcasts chosen.fuse.net ++ p ∷ []) (sym same),
      )
