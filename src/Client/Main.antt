-- ===== src/Client/Main.antt =====
-- client/main.cpp: from the command line to the mounted file system, with the leader election between.
pub mod Disks
pub mod Chosen
pub mod Elected
pub mod Finish
pub mod Stuck
pub mod Ended
use disk_tees.Prelude.{
  ℕ, zero, suc, ℤ, pos, ltb_ℤ, ◌==ℤ◌, not, Bool, true, false, Option, none, some, List, [], ◌∷◌,
  ◌++◌, Bytes, codes, to_string, Outcome, ok, out_of_fuel, ◌>>=◌, map_outcome, and_then, length,
  ltb, if◌then◌else◌,
}
use disk_tees.Shared.Ballot.{Ballot, zero_ballot}
use disk_tees.Shared.IntMap.{IntMap, emplace}
use disk_tees.Shared.NetworkConfig.{NetworkConfig, NodeType, get_port, config_to_addrs}
use disk_tees.Shared.Os.{Os, Syscall}
use disk_tees.Shared.Transport.{Transport}
use disk_tees.Shared.Messages.{ClientMsg, Disk}
use disk_tees.Shared.Ccf.{CcfNetwork, new_ccf}
use disk_tees.Shared.Ccf.Match.{Json, MatchB, send_match_a, send_garbage_a}
use disk_tees.Client.State.{Client, new_client, call}
use disk_tees.Client.Votes.{p1b_quorum}
use disk_tees.Client.Matchmake.{SendMatchA, matchmake}
use disk_tees.Client.Main.Disks.{
  Options, path_of, Round, Leader, Stack, wait_until, choose_disk, no_disk, replica_name,
}

-- Step 3: a replica keeps the address of the first configuration that has it.
pub insert_all : NetworkConfig → NetworkConfig → NetworkConfig
insert_all [] conf = conf
insert_all ((id, ip) ∷ entries) conf = insert_all entries (emplace id ip conf)

pub all_replicas : List NetworkConfig → NetworkConfig → NetworkConfig
unfolding insert_all
all_replicas [] conf = conf
all_replicas (c ∷ configs) conf = all_replicas configs (insert_all c conf)

module _ {W N : Type 0} (os : Os W) (tls : Transport ClientMsg N) (opts : Options) where
  pub send_disk_command : Disk → ℤ → Bytes → Bytes
  send_disk_command d id ip =
      path_of opts
      ++ codes "/../../cloud_scripts/send_disk.sh"
      ++ codes " -s "
      ++ replica_name d
      ++ codes " -d replica"
      ++ to_string id
      ++ codes " -a "
      ++ ip
      ++ codes ":"
      ++ to_string (get_port NodeType.replica id)
      ++ codes " -u "
      ++ opts.username
      ++ codes " -t "
      ++ opts.trusted_mode

  pub send_disks : Disk → NetworkConfig → Client W N → Client W N
  unfolding send_disk_command
  send_disks d [] c = c
  send_disks d ((id, ip) ∷ conf) c =
      send_disks d conf
        (if id ==ℤ d.id then c else (call os (Syscall.system (send_disk_command d id ip)) c).1)

  -- Step 8 up to the p2a.
  unfoldable pub rebroadcast : NetworkConfig → Leader W N → Client W N
  unfolding send_disks
  rebroadcast conf l =
      if l.no_prior_state
      then l.fuse
      else (call os
          (Syscall.remove (
            path_of opts ++ codes "/zipped-storage/" ++ replica_name l.disk_msg ++ codes ".tar.gz"))
          (send_disks l.disk_msg conf l.fuse)).1

  -- The p2a, and the state without the votes before it.
  unfoldable pub propose : Leader W N → Client W N → Client W N
  propose l c = record c {
    successful_p1bs = [];
    disk_checksums = [];
    net =
        tls.broadcast
          (ClientMsg.p2a (record {
            seq = pos 0;
            r = c.r;
            written = c.written;
            disk_replica_name = if l.no_prior_state then [] else replica_name l.disk_msg;
            disk_checksum = if l.no_prior_state then [] else l.disk_msg.disk_checksum;
          }))
          c.replicas c.net;
  }

-- The quorum is 1 where one failure is tolerated: the client itself counts too.
abbrev pub quorum : ℤ
quorum = pos 1

unfoldable pub p2b_quorum : {W N : Type 0} → Client W N → Bool
p2b_quorum c = not (ltb_ℤ (pos (length c.successful_p2bs)) quorum)

module _ {W N : Type 0} (fuel : ℕ) (os : Os W) (tls : Transport ClientMsg N) (opts : Options)
    (stack : Stack W N) where
  -- Step 5.
  unfoldable pub ask : NetworkConfig → NetworkConfig → Client W N → Client W N
  ask replica_conf all_conf c = record c {
    net =
        tls.broadcast (ClientMsg.p1a (record { seq = pos 0; r = c.r; net_conf = replica_conf }))
          (config_to_addrs NodeType.replica all_conf) c.net;
  }

  -- Steps 5 to 8. `configs` are those of the reply and, last, this client's own.
  unfoldable pub elect : List NetworkConfig → NetworkConfig → Leader W N → Outcome (Leader W N)
  unfolding ask rebroadcast propose p2b_quorum
  elect configs replica_conf l =
      wait_until tls (λ c. p1b_quorum (stack c) configs c) fuel
        (record l { fuse = ask replica_conf l.all_conf l.fuse })
      >>= λ voted. choose_disk fuel os tls opts stack configs fuel voted >>= λ chosen.
          wait_until tls p2b_quorum fuel (record chosen {
            fuse = propose os tls opts chosen (rebroadcast os tls opts replica_conf chosen);
          })

  -- Step 4: the client, and its connections to all replicas.
  pub connect : Ballot → NetworkConfig → NetworkConfig → W → N → Outcome (Client W N)
  connect r replica_conf all_conf w n =
      map_outcome
        (λ n'.
          new_client true opts.metrics_on r (path_of opts ++ codes "/storage") quorum
            (config_to_addrs NodeType.replica replica_conf) w n')
        (tls.new_network all_conf n)

module _ {W N : Type 0} (fuel : ℕ) (os : Os W) (json : Json W) (tls : Transport ClientMsg N)
    (opts : Options) (stack : Stack W N) where
  -- Step 9: the old configurations are forgotten, if there are replicas that are only in them.
  pub forget_old : Ballot → NetworkConfig → CcfNetwork → Leader W N → Outcome (Client W N)
  forget_old r replica_conf ccf l =
      if ltb (length replica_conf) (length l.all_conf)
      then and_then (send_garbage_a os json fuel r (ccf, l.fuse.world))
          (λ (c, w). ok (record (l.fuse) { world = w }))
      else ok l.fuse

  -- Steps 2 to 9. `feed` is what the event loop will find.
  pub lead : List Round → NetworkConfig → MatchB → CcfNetwork → W → N → Outcome (Client W N)
  unfolding all_replicas connect elect forget_old
  lead feed replica_conf m ccf w n =
      let configs = m.configs ++ replica_conf ∷ [] in
      let all_conf = all_replicas configs [] in
      and_then (connect fuel os tls opts stack m.r replica_conf all_conf w n) (λ c.
        and_then
          (elect fuel os tls opts stack configs replica_conf (record {
            fuse = c;
            feed = feed;
            all_conf = all_conf;
            disk_msg = no_disk;
            no_prior_state = false;
          }))
          (λ l. forget_old m.r replica_conf ccf l))

  abbrev match_with : NetworkConfig → SendMatchA (CcfNetwork × W)
  match_with replica_conf r s =
      and_then (send_match_a os json fuel r replica_conf s) (λ (m, ccf, w). ok (m, (ccf, w)))

  -- The client that `fuse.run` mounts. The entries of the two files are given.
  pub mount : List Round → (ccf_conf replica_conf : NetworkConfig) → W → N → Outcome (Client W N)
  unfolding lead
  mount feed ccf_conf replica_conf w n =
      if opts.network
      then and_then
          (matchmake (match_with replica_conf) fuel opts.id (new_ccf (path_of opts) ccf_conf, w))
          (λ (m, s). lead feed replica_conf m s.0 s.1 n)
      else ok (
          new_client false opts.metrics_on zero_ballot (path_of opts ++ codes "/storage") (pos 0) []
            w n)
