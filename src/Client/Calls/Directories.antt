-- ===== src/Client/Calls/Directories.antt =====
-- client/client_fuse.cpp: directory streams, and `client_init`. The stream that `fi->fh` points to is an argument and
-- a result of each call; the directory functions of the C library and the filler of libfuse are parameters.
use disk_tees.Prelude.{
  ℕ, zero, suc, ◌*◌, ℤ, pos, minus_one, neg, ◌==ℤ◌, Bool, true, false, not, Option, none, some,
  List, Bytes, Outcome, ok, out_of_fuel, map_outcome, if◌then◌else◌,
}
use disk_tees.Shared.Transport.{Transport}
use disk_tees.Shared.Messages.{ClientMsg, ReplicaMsg}
use disk_tees.Client.State.{Client, prepend_path}
use disk_tees.Client.Receive.{run_event_loop_once}

-- The members of `fuse_config` that are set.
pub record FuseConfig : Type 0 where
  pub use_ino : ℤ
  pub nullpath_ok : ℤ
  pub entry_timeout : ℤ
  pub attr_timeout : ℤ
  pub negative_timeout : ℤ

pub client_init : FuseConfig → FuseConfig
client_init cfg = record {
  use_ino = pos 1;
  nullpath_ok = pos 1;
  entry_timeout = pos 0;
  attr_timeout = pos 0;
  negative_timeout = pos 0;
}

pub record Dirent : Type 0 where
  pub d_ino : ℕ
  pub d_type : ℕ
  pub d_name : Bytes

-- The members of `struct stat` that are set.
pub record EntryStat : Type 0 where
  pub st_ino : ℕ
  pub st_mode : ℕ

-- A `DIR*` is a number.
pub record DirCalls (W : Type 0) : Type 0 where
  -- the stream, or `errno`
  pub open_dir : Bytes → W → Option ℕ × ℤ × W
  pub read_dir : ℕ → W → Option Dirent × W
  pub tell_dir : ℕ → W → ℤ
  pub seek_dir : ℕ → ℤ → W → W
  pub close_dir : ℕ → W → W

-- `fuse_fill_dir_t`: whether the buffer is full, and the buffer
abbrev pub Filler : Type 0 → Type 0
Filler B = B → Bytes → EntryStat → ℤ → Bool × B

pub record XmpDirp : Type 0 where
  pub dp : ℕ
  pub entry : Option Dirent
  pub offset : ℤ

pub entry_stat : Dirent → EntryStat
entry_stat e = record { st_ino = e.d_ino; st_mode = e.d_type * 4096 }

module _ {W N : Type 0} (dirs : DirCalls W) where
  pub client_opendir : Bytes → Client W N → ℤ × Option XmpDirp × Client W N
  unfolding prepend_path
  client_opendir path c =
      let (dp, errno, w) = dirs.open_dir (prepend_path c path) c.world in
      elim dp [
        | none ↦ (neg errno, none, record c { world = w })
        | some p ↦
            (pos 0, some (record { dp = p; entry = none; offset = pos 0 }), record c { world = w })
      ]

  pub client_releasedir : XmpDirp → Client W N → ℤ × Client W N
  client_releasedir d c = (pos 0, record c { world = dirs.close_dir d.dp c.world })

module _ {W B : Type 0} (dirs : DirCalls W) (filler : Filler B) where
  unfoldable pub seek_to : ℤ → XmpDirp → W → XmpDirp × W
  seek_to offset d w =
      if offset ==ℤ d.offset
      then (d, w)
      else (record d { entry = none; offset = offset }, dirs.seek_dir d.dp offset w)

  -- The entry that is kept from before, or the next one.
  unfoldable pub next_entry : XmpDirp → W → Option Dirent × W
  next_entry d w = elim d.entry [ none ↦ dirs.read_dir d.dp w | some e ↦ (some e, w) ]

  -- The loop, which ends with the directory or with a full buffer; then the entry is kept.
  unfoldable pub fill_dir : ℕ → XmpDirp → B → W → Outcome (XmpDirp × B × W)
  unfolding next_entry entry_stat
  fill_dir zero d buf w = out_of_fuel
  fill_dir (suc fuel) d buf w =
      let (entry, w1) = next_entry d w in
      elim entry [
        | none ↦ ok (record d { entry = none }, buf, w1)
        | some e ↦
            let next = dirs.tell_dir d.dp w1 in
            let (full, buf1) = filler buf e.d_name (entry_stat e) next in
            elim full [
              | true ↦ ok (record d { entry = some e }, buf1, w1)
              | false ↦ fill_dir fuel (record d { entry = none; offset = next }) buf1 w1
            ]
      ]

  unfoldable pub read_entries_from : ℕ → ℤ → XmpDirp → B → W → Outcome (XmpDirp × B × W)
  unfolding seek_to fill_dir
  read_entries_from fuel offset d buf w =
      let (d1, w1) = seek_to offset d w in fill_dir fuel d1 buf w1

module _ {W B N : Type 0} (dirs : DirCalls W) (filler : Filler B)
    (tls : Transport ClientMsg N) where
  -- The measurements are printed and begin anew.
  pub check_network : List (Bytes × ReplicaMsg) → Client W N → Client W N
  check_network msgs c =
      let d = run_event_loop_once tls msgs c in
      if not c.network
      then c
      else if d.metrics_on
      then record d { mean_fsync_wait_micro_sec = minus_one; mean_write_micro_sec = minus_one }
      else d

  -- `msgs` are those that the event loop finds behind the entries.
  pub client_readdir :
      ℕ
      → List (Bytes × ReplicaMsg)
      → ℤ
      → XmpDirp
      → B
      → Client W N
      → Outcome (ℤ × XmpDirp × B × Client W N)
  unfolding read_entries_from check_network
  client_readdir fuel msgs offset d buf c =
      map_outcome (λ (d1, buf1, w). (pos 0, d1, buf1, check_network msgs (record c { world = w })))
        (read_entries_from dirs filler fuel offset d buf c.world)
