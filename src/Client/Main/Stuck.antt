-- ===== src/Client/Main/Stuck.antt =====
-- client/main.cpp: step 7 against a replica whose disk is fetched.
use disk_tees.Prelude.{
  ℕ, zero, suc, ℤ, pos, ltb_ℤ, ◌==ℤ◌, ◌≡◌, refl, ap, ◌∙◌, false, some, List, [], ◌∷◌, Bytes, ok,
  out_of_fuel,
}
use disk_tees.Shared.IntMap.{IntMap, emplace}
use disk_tees.Shared.NetworkConfig.{NetworkConfig}
use disk_tees.Shared.Os.{Os, Syscall}
use disk_tees.Shared.Transport.{Transport}
use disk_tees.Shared.Messages.{ClientMsg, Disk, P1b}
use disk_tees.Client.State.{Client, call}
use disk_tees.Client.Votes.{highest_ranking_p1b}
use disk_tees.Client.Main.Disks.{
  Options, Leader, Stack, is_empty, wait_disks, address_of, request_disk, try_disks, read_disk,
  choose_disk, unzip_command,
}

-- A disk has been announced.
abbrev pub Announced : {W N : Type 0} → Leader W N → Type 0
Announced l =
    (i : ℤ) × (d : Disk) × (disks : IntMap Disk) × (l.fuse.disk_checksums ≡ (i, d) ∷ disks)

-- What keeps step 7 going.
record Same {W N : Type 0} (l m : Leader W N) : Type 0 where
  announced : m.fuse.disk_checksums ≡ l.fuse.disk_checksums
  promised : m.fuse.successful_p1bs ≡ l.fuse.successful_p1bs

module _ {W N : Type 0} (os : Os W) (tls : Transport ClientMsg N) (opts : Options)
    (sends : (m : ClientMsg) (d : Bytes) (n : N) → (n' : N) × (tls.send m d n ≡ ok n'))
    (succeeds : (s : Syscall) (w : W) → (os.sys s w).0.ret ≡ pos 0) where
  -- The first disk is copied.
  copies :
      (i : ℤ) (d : Disk) (disks : IntMap Disk) (c : Client W N)
      → try_disks os opts ((i, d) ∷ disks) c ≡ (
        some d,
        record (call os (Syscall.system (unzip_command opts d)) c).1 { written = d.written },
      )
  unfolding call ◌==ℤ◌ try_disks
  copies i d disks c = rw (succeeds (Syscall.system (unzip_command opts d)) c.world) refl

  asks :
      (highest : P1b) (l : Leader W N)
      → (m : Leader W N) × (request_disk tls opts highest l ≡ ok m) × Same l m
  unfolding request_disk
  asks highest l =
      let conf = emplace highest.id [] l.all_conf in
      let (n, e) =
        sends (ClientMsg.disk_req (record { seq = pos 0; id = opts.id; r = l.fuse.r }))
          (address_of highest.id conf) l.fuse.net in
      (
        record l {
          all_conf = emplace highest.id [] l.all_conf;
          fuse = record (l.fuse) { net = n };
        },
        rw e refl,
        record { announced = refl; promised = refl },
      )

  announced_lem : (l : Leader W N) → Announced l → is_empty l.fuse.disk_checksums ≡ false
  unfolding is_empty
  announced_lem l (i, d, disks, e) = rw e refl

  waits_not : (fuel : ℕ) (l : Leader W N) → Announced l → wait_disks tls (suc fuel) l ≡ ok l
  unfolding wait_disks
  waits_not fuel l there = rw (wait_disks, announced_lem l there) refl

  reads :
      (fuel : ℕ) (stack : Stack W N) (configs : List NetworkConfig) (rounds : ℕ) (highest : P1b)
      (l : Leader W N)
      → Announced l
      → (m : Leader W N) × (read_disk fuel os tls opts stack configs (suc rounds) highest l ≡ ok m)
        × Same l m
  unfolding call read_disk
  reads fuel stack configs rounds highest l (i, d, disks, e) =
      let copied = ap (λ ds. try_disks os opts ds l.fuse) e ∙ copies i d disks l.fuse in
      (
        record l {
          fuse = record (call os (Syscall.system (unzip_command opts d)) l.fuse).1 {
            written = d.written;
          };
          disk_msg = d;
        },
        rw (read_disk, ap (λ p. p.0) copied, ap (λ p. p.1) copied) refl,
        record { announced = refl; promised = refl },
      )

module _ {W N : Type 0} (fuel : ℕ) (os : Os W) (tls : Transport ClientMsg N) (opts : Options)
    (stack : Stack W N) (configs : List NetworkConfig) where
  Same-rank :
      (l m : Leader W N) → Same l m → highest_ranking_p1b m.fuse ≡ highest_ranking_p1b l.fuse
  unfolding highest_ranking_p1b
  Same-rank l m v = rw v.promised refl

  -- Step 7 does not end where no send and no command fails, a disk has been announced and the replica that
  -- ranks highest has written something: however much fuel there is, it is all used.
  pub stuck :
      ((m : ClientMsg) (d : Bytes) (n : N) → (n' : N) × (tls.send m d n ≡ ok n'))
      → ((s : Syscall) (w : W) → (os.sys s w).0.ret ≡ pos 0)
      → (rounds : ℕ) (l : Leader W N) → Announced l
      → ltb_ℤ (highest_ranking_p1b l.fuse).written (pos 0) ≡ false
      → choose_disk (suc fuel) os tls opts stack configs rounds l ≡ out_of_fuel
  unfolding choose_disk
  stuck sends succeeds zero l there prior = refl
  stuck sends succeeds (suc rounds) l (i, d, disks, e) prior =
      let highest = highest_ranking_p1b l.fuse in
      let (asked, e1, v1) = asks os tls opts sends succeeds highest l in
      let there : Announced asked = (i, d, disks, v1.announced ∙ e) in
      let e2 = waits_not os tls opts sends succeeds fuel asked there in
      let (read, e3, v3) =
        reads os tls opts sends succeeds (suc fuel) stack configs fuel highest asked there in
      let rank = Same-rank asked read v3 ∙ Same-rank l asked v1 in
      rw (choose_disk, prior, e1, e2, e3)
        (stuck sends succeeds rounds read (i, d, disks, v3.announced ∙ there.3) (rw rank prior))
