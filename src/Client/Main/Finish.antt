-- ===== src/Client/Main/Finish.antt =====
-- client/main.cpp: steps 5 to 8 as a whole, where they end.
use disk_tees.Prelude.{
  ℕ, zero, suc, pos, ltb_ℤ, ◌==ℤ◌, ◌≡◌, refl, sym, ap, ◌⊎◌, inl, inr, Bool, true, false, Option,
  none, some, List, [], ◌∷◌, Outcome, ok, out_of_fuel, >>=-eq-ok, decided, branched,
  map_outcome-eq-ok, arith, Bool-cases,
}
use disk_tees.Shared.IntMap.{IntMap, emplace, erase}
use disk_tees.Shared.NetworkConfig.{NetworkConfig}
use disk_tees.Shared.Os.{Os, Syscall}
use disk_tees.Shared.Transport.{Transport, IsTransport}
use disk_tees.Shared.Messages.{ClientMsg, Disk, P1b}
use disk_tees.Client.State.{Client, call}
use disk_tees.Client.Votes.{highest_ranking_p1b, p1b_quorum}
use disk_tees.Client.Receive.{run_event_loop_once}
use disk_tees.Client.Main.Elected.{
  Follows, Listens, Follows-refl, Follows-same, Follows-trans, Listens-refl, Listens-trans,
  run_event_loop_once-Listens,
}
use disk_tees.Client.Main.Disks.{
  Options, Leader, Round, Stack, next_round, wait_until, is_empty, wait_disks, request_disk,
  try_disks, read_disk, choose_disk, unzip_command,
}

found_round :
    {S : Type 0} (o : Option (Bool × S)) (f : Bool → S → Outcome S) (m : S)
    → (elim o as (λ _. Outcome S) [ none ↦ out_of_fuel | some x ↦ f x.0 x.1 ]) ≡ ok m
    → (late : Bool) × (s : S) × (o ≡ some (late, s)) × (f late s ≡ ok m)
found_round none f m e = cc
found_round (some (late, s)) f m e = (late, s, refl, e)

copied_or_not :
    {D S : Type 0} (o : Option D) (f : D → Outcome S) (x : Outcome S) (m : S)
    → (elim o as (λ _. Outcome S) [ none ↦ x | some d ↦ f d ]) ≡ ok m
    → ((o ≡ none) × (x ≡ ok m)) ⊎ ((d : D) × (o ≡ some d) × (f d ≡ ok m))
copied_or_not none f x m e = inl (refl, e)
copied_or_not (some d) f x m e = inr (d, refl, e)

module _ {W N : Type 0} (tls : Transport ClientMsg N) (h : IsTransport tls) where
  round_end :
      (feed : List Round) (l m : Leader W N) (late : Bool)
      → (elim feed as (λ _. Option (Bool × Leader W N)) [
        | [] ↦ none
        | x ∷ xs ↦
            some (x.late, record l { fuse = run_event_loop_once tls x.msgs l.fuse; feed = xs })
      ])
        ≡ some (late, m)
      → Listens tls l.fuse m.fuse
  round_end [] l m late e = cc
  round_end (x ∷ xs) l m late e =
      let same : record l { fuse = run_event_loop_once tls x.msgs l.fuse; feed = xs } ≡ m =
        ground arith in
      rw (ap (λ k. k.fuse) (sym same)) (run_event_loop_once-Listens tls h x.msgs l.fuse)

  next_round_lem :
      (l m : Leader W N) (late : Bool)
      → next_round tls l ≡ some (late, m)
      → Listens tls l.fuse m.fuse
  unfolding next_round
  next_round_lem l m late e = round_end l.feed l m late e

  pub wait_until_lem :
      (test : Client W N → Bool) (fuel : ℕ) (l m : Leader W N)
      → wait_until tls test fuel l ≡ ok m
      → Listens tls l.fuse m.fuse × (test m.fuse ≡ true)
  unfolding wait_until
  wait_until_lem test zero l m e = cc
  wait_until_lem test (suc fuel) l m e = elim (branched (test l.fuse) (ok l) _ m e) [
    | inl (holds, done) ↦
        let same : l ≡ m = ground arith in (rw⁻¹ same (Listens-refl tls h l.fuse), rw⁻¹ same holds)
    | inr (not_yet, more) ↦
        let (late, k, found, go) =
          found_round (next_round tls l) (λ late k. wait_until tls test fuel k) m more in
        let (v, holds) = wait_until_lem test fuel k m go in
        (Listens-trans tls h (next_round_lem l k late found) v, holds)
  ]

  wait_disks_lem :
      (fuel : ℕ) (l m : Leader W N) → wait_disks tls fuel l ≡ ok m → Follows l.fuse m.fuse
  unfolding wait_disks
  wait_disks_lem zero l m e = cc
  wait_disks_lem (suc fuel) l m e = elim (branched (is_empty l.fuse.disk_checksums) _ (ok l) m e) [
    | inr (announced, done) ↦ let same : l ≡ m = ground arith in rw⁻¹ same (Follows-refl l.fuse)
    | inl (nothing, more) ↦
        let (late, k, found, go) =
          found_round (next_round tls l)
            (λ late k. elim late as (λ _. Outcome (Leader W N)) [
              | true ↦ ok k
              | false ↦ wait_disks tls fuel k
            ])
            m more in
        let v = (next_round_lem l k late found).follows in
        elim (branched late (ok k) (wait_disks tls fuel k) m go) [
          | inl (_, done) ↦ let same : k ≡ m = ground arith in rw⁻¹ same v
          | inr (_, again) ↦ Follows-trans v (wait_disks_lem fuel k m again)
        ]
  ]

  request_disk_lem :
      (opts : Options) (highest : P1b) (l m : Leader W N)
      → request_disk tls opts highest l ≡ ok m
      → Follows l.fuse m.fuse
  unfolding request_disk
  request_disk_lem opts highest l m e =
      let (n, _, same) = map_outcome-eq-ok _ (tls.send _ _ l.fuse.net) m e in
      rw (ap (λ k. k.fuse) (sym same)) (Follows-same l.fuse _ refl refl refl)

module _ {W N : Type 0} (os : Os W) (opts : Options) where
  try_disks_lem : (disks : IntMap Disk) (c : Client W N) → Follows c (try_disks os opts disks c).1
  unfolding try_disks call
  try_disks_lem [] c = Follows-refl c
  try_disks_lem ((i, d) ∷ disks) c =
      let (ret, c') = call os (Syscall.system (unzip_command opts d)) c in
      let v : Follows c c' = Follows-same c c' refl refl refl in
      elim (Bool-cases (ret.ret ==ℤ pos 0)) [
        | inl copied ↦ rw copied (Follows-trans v (Follows-same c' _ refl refl refl))
        | inr failed ↦ rw failed (Follows-trans v (try_disks_lem disks c'))
      ]

module _ {W N : Type 0} (fuel : ℕ) (os : Os W) (tls : Transport ClientMsg N) (h : IsTransport tls)
    (opts : Options) (stack : Stack W N) (configs : List NetworkConfig) where
  read_disk_lem :
      (rounds : ℕ) (highest : P1b) (l m : Leader W N)
      → read_disk fuel os tls opts stack configs rounds highest l ≡ ok m
      → Follows l.fuse m.fuse
  unfolding read_disk
  read_disk_lem zero highest l m e = cc
  read_disk_lem (suc rounds) highest l m e =
      let (found, c) = try_disks os opts l.fuse.disk_checksums l.fuse in
      let v : Follows l.fuse c = try_disks_lem os opts l.fuse.disk_checksums l.fuse in
      elim (copied_or_not found _ _ m e) [
        | inr (d, _, done) ↦
            let same : record l { fuse = c; disk_msg = d } ≡ m = ground arith in
            rw (ap (λ k. k.fuse) (sym same)) v
        | inl (_, go) ↦
            let gone = record c { successful_p1bs = erase highest.id c.successful_p1bs } in
            let back = record c {
              successful_p1bs = emplace highest.id highest (erase highest.id c.successful_p1bs);
            } in
            elim (decided (p1b_quorum (stack gone) configs gone) (record l { fuse = gone }) _ m
              go) [
                | inl (_, same) ↦
                    rw (ap (λ k. k.fuse) (sym same))
                      (Follows-trans v (Follows-same c gone refl refl refl))
                | inr (_, wait) ↦
                    let (late, k, found_k, again) =
                      found_round (next_round tls (record l { fuse = back }))
                        (λ late k. read_disk fuel os tls opts stack configs rounds highest k) m
                        wait in
                    Follows-trans (Follows-trans v (Follows-same c back refl refl refl)) (
                      Follows-trans
                        (next_round_lem tls h (record l { fuse = back }) k late found_k).follows
                        (read_disk_lem rounds highest k m again))
              ]
      ]

  pub choose_disk_lem :
      (rounds : ℕ) (l m : Leader W N)
      → choose_disk fuel os tls opts stack configs rounds l ≡ ok m
      → Follows l.fuse m.fuse
  unfolding choose_disk
  choose_disk_lem zero l m e = cc
  choose_disk_lem (suc rounds) l m e =
      let highest = highest_ranking_p1b l.fuse in
      elim (decided (ltb_ℤ highest.written (pos 0)) (record l { no_prior_state = true }) _ m e) [
        | inl (_, same) ↦ rw (ap (λ k. k.fuse) (sym same)) (Follows-refl l.fuse)
        | inr (_, go) ↦
            let (asked, e1, go1) = >>=-eq-ok (request_disk tls opts highest l) _ go in
            let (waited, e2, go2) = >>=-eq-ok (wait_disks tls fuel asked) _ go1 in
            let (read, e3, go3) =
              >>=-eq-ok (read_disk fuel os tls opts stack configs fuel highest waited) _ go2 in
            Follows-trans
              (Follows-trans (request_disk_lem tls h opts highest l asked e1)
                (wait_disks_lem tls h fuel asked waited e2))
              (Follows-trans (read_disk_lem fuel highest waited read e3)
                (choose_disk_lem rounds read m go3))
      ]
