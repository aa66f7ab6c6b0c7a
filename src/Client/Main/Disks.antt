-- ===== src/Client/Main/Disks.antt =====
-- client/main.cpp: step 7, which fetches the disk of the replica that ranks highest.
use disk_tees.Prelude.{
  ℕ, zero, suc, ℤ, pos, ltb_ℤ, ◌==ℤ◌, Bool, true, false, Option, none, some, List, [], ◌∷◌, ◌++◌,
  Bytes, codes, to_string, Outcome, ok, out_of_fuel, ◌>>=◌, map_outcome, if◌then◌else◌,
}
use disk_tees.Shared.Ballot.{zero_ballot}
use disk_tees.Shared.IntMap.{IntMap, find, emplace, erase}
use disk_tees.Shared.NetworkConfig.{NetworkConfig}
use disk_tees.Shared.Os.{Os, Syscall}
use disk_tees.Shared.Transport.{Transport}
use disk_tees.Shared.Messages.{ClientMsg, ReplicaMsg, P1b, Disk}
use disk_tees.Client.State.{Client, call}
use disk_tees.Client.Receive.{run_event_loop_once}
use disk_tees.Client.Votes.{p1b_quorum, highest_ranking_p1b}

-- `struct config`
pub record Options : Type 0 where
  pub id : ℤ
  pub network : Bool
  pub metrics_on : Bool
  pub trusted_mode : Bytes
  pub username : Bytes

pub path_of : Options → Bytes
path_of opts =
    codes "/home/" ++ opts.username ++ codes "/disk-tees/build/client" ++ to_string opts.id

-- One call of `runEventLoopOnce`: the messages that it finds, and whether the clock has then passed the
-- timeout of the disk request.
pub record Round : Type 0 where
  pub msgs : List (Bytes × ReplicaMsg)
  pub late : Bool

-- The locals of `main` that change. `feed` is what the event loop will find; behind its end it blocks.
pub record Leader (W N : Type 0) : Type 0 where
  pub fuse : Client W N
  pub feed : List Round
  pub all_conf : NetworkConfig
  pub disk_msg : Disk
  pub no_prior_state : Bool

-- What the counters of `p1bQuorum` hold before they are used, in a call at a given state.
abbrev pub Stack : Type 0 → Type 0 → Type 0
Stack W N = Client W N → ℕ → ℤ

-- `disk diskMsg;`, which is not initialised and not read before it is assigned
abbrev pub no_disk : Disk
no_disk = record { id = pos 0; client_ballot = zero_ballot; written = pos 0; disk_checksum = [] }

pub replica_name : Disk → Bytes
replica_name d = codes "replica" ++ to_string d.id

unfoldable pub is_empty : IntMap Disk → Bool
is_empty [] = true
is_empty (d ∷ ds) = false

-- What `conf[id]` reads where the key is there.
pub address_of : ℤ → NetworkConfig → Bytes
address_of id conf = elim (find id conf) [ none ↦ [] | some addr ↦ addr ]

module _ {W N : Type 0} (tls : Transport ClientMsg N) where
  unfoldable pub next_round : Leader W N → Option (Bool × Leader W N)
  next_round l = elim l.feed [
    | [] ↦ none
    | x ∷ feed ↦
        some (x.late, record l { fuse = run_event_loop_once tls x.msgs l.fuse; feed = feed })
  ]

  -- `while (!test) replicaTLS.runEventLoopOnce(-1);`
  unfoldable pub wait_until : (Client W N → Bool) → ℕ → Leader W N → Outcome (Leader W N)
  unfolding next_round
  wait_until test zero l = out_of_fuel
  wait_until test (suc fuel) l = elim (test l.fuse) [
    | true ↦ ok l
    | false ↦ (elim (next_round l) [ none ↦ out_of_fuel | some (late, m) ↦ wait_until test fuel m ])
  ]

  -- Until a disk is announced, or the time is up.
  unfoldable pub wait_disks : ℕ → Leader W N → Outcome (Leader W N)
  unfolding next_round is_empty
  wait_disks zero l = out_of_fuel
  wait_disks (suc fuel) l = elim (is_empty l.fuse.disk_checksums) [
    | false ↦ ok l
    | true ↦ (elim (next_round l) [
      | none ↦ out_of_fuel
      | some (late, m) ↦ (elim late [ true ↦ ok m | false ↦ wait_disks fuel m ])
    ])
  ]

  -- `allReplicasConf[id]` inserts an empty address where there is none.
  unfoldable pub request_disk : Options → P1b → Leader W N → Outcome (Leader W N)
  request_disk opts highest l =
      let conf = emplace highest.id [] l.all_conf in
      map_outcome (λ n. record l { all_conf = conf; fuse = record (l.fuse) { net = n } })
        (tls.send (ClientMsg.disk_req (record { seq = pos 0; id = opts.id; r = l.fuse.r }))
          (address_of highest.id conf) l.fuse.net)

pub unzip_command : Options → Disk → Bytes
unzip_command opts d =
    path_of opts
    ++ codes "/../../cloud_scripts/unzip_disk.sh"
    ++ codes " -s replica"
    ++ to_string d.id
    ++ codes " -d client"
    ++ to_string opts.id
    ++ codes " -c "
    ++ d.disk_checksum
    ++ codes " -u "
    ++ opts.username

module _ {W N : Type 0} (os : Os W) (opts : Options) where
  -- The first announced disk that can be unzipped.
  unfoldable pub try_disks : IntMap Disk → Client W N → Option Disk × Client W N
  unfolding unzip_command
  try_disks [] c = (none, c)
  try_disks ((i, d) ∷ disks) c =
      let (ret, c') = call os (Syscall.system (unzip_command opts d)) c in
      let rest = try_disks disks c' in
      if ret.ret ==ℤ pos 0 then (some d, record c' { written = d.written }) else rest

module _ {W N : Type 0} (fuel : ℕ) (os : Os W) (tls : Transport ClientMsg N) (opts : Options)
    (stack : Stack W N) (configs : List NetworkConfig) where
  abbrev without : P1b → Leader W N → Leader W N
  without highest l = record l {
    fuse = record (l.fuse) { successful_p1bs = erase highest.id l.fuse.successful_p1bs };
  }

  abbrev put_back : P1b → Leader W N → Leader W N
  put_back highest l = record l {
    fuse = record (l.fuse) { successful_p1bs = emplace highest.id highest l.fuse.successful_p1bs };
  }

  -- The inner `while (true)`: it ends with a copied disk, or with another replica to try.
  unfoldable pub read_disk : ℕ → P1b → Leader W N → Outcome (Leader W N)
  unfolding try_disks next_round
  read_disk zero highest l = out_of_fuel
  read_disk (suc rounds) highest l =
      let (found, c) = try_disks os opts l.fuse.disk_checksums l.fuse in
      let tried = record l { fuse = c } in
      elim found [
        | some d ↦ ok (record tried { disk_msg = d })
        | none ↦
            (elim (p1b_quorum (stack (without highest tried).fuse) configs
              (without highest tried).fuse) [
                | true ↦ ok (without highest tried)
                | false ↦ (elim (next_round tls (put_back highest (without highest tried))) [
                  | none ↦ out_of_fuel
                  | some (late, m) ↦ read_disk rounds highest m
                ])
              ])
      ]

  -- The outer `while (true)`: only the inner loop is left where a disk has been copied.
  unfoldable pub choose_disk : ℕ → Leader W N → Outcome (Leader W N)
  unfolding wait_disks request_disk read_disk
  choose_disk zero l = out_of_fuel
  choose_disk (suc rounds) l =
      let highest = highest_ranking_p1b l.fuse in
      elim (ltb_ℤ highest.written (pos 0)) [
        | true ↦ ok (record l { no_prior_state = true })
        | false ↦ request_disk tls opts highest l >>= λ asked.
            wait_disks tls fuel asked >>= λ waited.
            read_disk fuel highest waited >>= λ m. choose_disk rounds m
      ]
