-- ===== src/Client/Main/Chosen.antt =====
-- client/main.cpp: what step 7 comes to.
use disk_tees.Prelude.{
  ℕ, zero, suc, pos, ltb_ℤ, ◌≡◌, sym, ap, inl, inr, true, List, ok, >>=-eq-ok, decided,
}
use disk_tees.Shared.NetworkConfig.{NetworkConfig}
use disk_tees.Shared.Os.{Os}
use disk_tees.Shared.Transport.{Transport}
use disk_tees.Shared.Messages.{ClientMsg}
use disk_tees.Client.Votes.{highest_ranking_p1b}
use disk_tees.Client.Main.Disks.{
  Options, Leader, Stack, wait_disks, request_disk, read_disk, choose_disk,
}

module _ {W N : Type 0} (fuel : ℕ) (os : Os W) (tls : Transport ClientMsg N) (opts : Options)
    (stack : Stack W N) (configs : List NetworkConfig) where
  -- Step 7 ends only at a state in which the replica that ranks highest has written nothing, and then
  -- always claims that there is no prior state: a disk that was fetched is never used.
  pub no_disk_is_chosen :
      (rounds : ℕ) (l m : Leader W N)
      → choose_disk fuel os tls opts stack configs rounds l ≡ ok m
      → (m.no_prior_state ≡ true) × (ltb_ℤ (highest_ranking_p1b m.fuse).written (pos 0) ≡ true)
  unfolding choose_disk
  no_disk_is_chosen zero l m e = cc
  no_disk_is_chosen (suc rounds) l m e =
      let highest = highest_ranking_p1b l.fuse in
      elim (decided (ltb_ℤ highest.written (pos 0)) (record l { no_prior_state = true }) _ m e) [
        | inl (empty, same) ↦ (ap (λ k. k.no_prior_state) (sym same), rw⁻¹ same empty)
        | inr (prior, go) ↦
            let (asked, _, go1) = >>=-eq-ok (request_disk tls opts highest l) _ go in
            let (waited, _, go2) = >>=-eq-ok (wait_disks tls fuel asked) _ go1 in
            let (read, _, go3) =
              >>=-eq-ok (read_disk fuel os tls opts stack configs fuel highest waited) _ go2 in
            no_disk_is_chosen rounds read m go3
      ]
