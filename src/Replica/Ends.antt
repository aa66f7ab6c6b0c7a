-- ===== src/Replica/Ends.antt =====
-- replica/replica_fuse.cpp: the loop of `processPendingMessages` ends.
use disk_tees.Prelude.{
  ℕ, zero, suc, ◌<◌, ℤ, pos, ◌+ℤ◌, ◌≡◌, ◌≢◌, refl, ap, true, Option, none, some, Outcome, ok, threw,
  exited, out_of_fuel, undefined, ◌>>=◌, map_outcome, length, arith,
}
use disk_tees.Shared.IntMap.{find, erase, contains, find-erase, contains_iff_find, length-erase-lt}
use disk_tees.Shared.Os.{Os}
use disk_tees.Shared.Transport.{Transport}
use disk_tees.Shared.Messages.{ClientMsg, ReplicaMsg}
use disk_tees.Shared.Messages.Kind.{get_client_msg_type, ClientMsgType}
use disk_tees.Replica.Store.{
  Store, call, with_fd, or_exit, or_exit_fh, map_handle, do_mknod, do_mkdir, do_symlink, do_unlink,
  do_rmdir, do_rename, do_link, do_chmod, do_chown, do_truncate, do_utimens, do_create, do_open,
  do_write_buf, do_release, do_fallocate, do_setxattr, do_removexattr, do_copy_file_range,
}
use disk_tees.Replica.State.{Replica}
use disk_tees.Replica.Buffer.{redo, next_write, ready, visit_next, redo_pending, drain}
use disk_tees.Replica.Replay.Invariant.{visit-write}

redo_ends : {W : Type 0} (os : Os W) (m : ClientMsg) (s : Store W) → redo os m s ≢ out_of_fuel
unfolding redo do_mknod do_mkdir do_symlink do_unlink do_rmdir do_rename do_link do_chmod do_chown
    do_truncate do_utimens do_create do_open do_write_buf do_release do_fallocate do_setxattr
    do_removexattr do_copy_file_range with_fd or_exit or_exit_fh map_handle call
redo_ends os m s e = ground arith

bind_ends :
    {S : Type 0} (m : Outcome S) (f : S → Outcome S)
    → m ≢ out_of_fuel
    → ((t : S) → m ≡ ok t → f t ≢ out_of_fuel)
    → (m >>= f) ≢ out_of_fuel
bind_ends (ok t) f h g = g t refl
bind_ends (threw t) f h g = λ e. cc
bind_ends exited f h g = λ e. cc
bind_ends out_of_fuel f h g = λ e. h refl
bind_ends undefined f h g = λ e. cc

-- What waits is a write.
unfoldable pub PendingWrites : {W N : Type 0} → Replica W N → Type 0
PendingWrites s =
    (k : ℤ) (m : ClientMsg)
    → find k s.pending_writes ≡ some m
    → get_client_msg_type m ≡ ClientMsgType.write

module _ {W N : Type 0} (fuel : ℕ) (os : Os W) (tls : Transport ReplicaMsg N) where
  -- A redone write leaves the others waiting.
  after :
      (s : Replica W N) (o : Outcome (Store W))
      → o ≢ out_of_fuel
      → let r =
          map_outcome (λ u. record s { store = u }) o
          >>= (λ t. ok (record t { written = t.written +ℤ pos 1 }))
          >>= λ t. ok (record t { pending_writes = erase (next_write s) t.pending_writes }) in
        (r ≢ out_of_fuel)
        × ((t : Replica W N) → r ≡ ok t → t.pending_writes ≡ erase (next_write s) s.pending_writes)
  after s (ok u) h = (λ e. cc, λ t e. ground arith)
  after s (threw u) h = (λ e. cc, λ t e. cc)
  after s exited h = (λ e. cc, λ t e. cc)
  after s out_of_fuel h = absurd (h refl)
  after s undefined h = (λ e. cc, λ t e. cc)

  redo_pending_ends :
      (m : ClientMsg) (s : Replica W N)
      → get_client_msg_type m ≡ ClientMsgType.write
      → (redo_pending fuel os tls m s ≢ out_of_fuel)
        × ((t : Replica W N)
            → redo_pending fuel os tls m s ≡ ok t
            → t.pending_writes ≡ erase (next_write s) s.pending_writes)
  unfolding redo_pending visit_next
  redo_pending_ends m s h =
      rw (visit-write fuel os tls m s h) (after s (redo os m s.store) (redo_ends os m s.store))

  ready-find :
      (s : Replica W N) (m : ClientMsg)
      → ready s ≡ some m
      → find (next_write s) s.pending_writes ≡ some m
  unfolding ready
  ready-find s m e = ground arith

  erase_keeps :
      (s t : Replica W N) (k : ℤ)
      → PendingWrites s
      → t.pending_writes ≡ erase k s.pending_writes
      → PendingWrites t
  unfolding PendingWrites
  erase_keeps s t k w p j m e = w j m (ground (arith, find-erase k j s.pending_writes))

  -- One round leaves fewer writes than there were.
  round_ends :
      (rounds : ℕ) (s : Replica W N)
      → PendingWrites s
      → length s.pending_writes < suc rounds
      → ((t : Replica W N)
          → PendingWrites t
          → length t.pending_writes < rounds
          → drain fuel os tls rounds t ≢ out_of_fuel)
      → (o : Option ClientMsg) → ready s ≡ o
      → (elim o as (λ _. Outcome (Replica W N)) [
        | none ↦ ok s
        | some m ↦ redo_pending fuel os tls m s >>= λ t. drain fuel os tls rounds t
      ])
        ≢ out_of_fuel
  unfolding PendingWrites
  round_ends rounds s w h ih none e = λ x. cc
  round_ends rounds s w h ih (some m) e =
      let k = next_write s in
      let found = ready-find s m e in
      let r = redo_pending_ends m s (w k m found) in
      let there : contains k s.pending_writes ≡ true =
        ground (arith, contains_iff_find k s.pending_writes) in
      bind_ends (redo_pending fuel os tls m s) _ r.0 (λ t q.
        let p = r.1 t q in
        ih t (erase_keeps s t k w p)
          (omega (arith, ap length p, length-erase-lt k s.pending_writes there)))

  -- The loop of `processPendingMessages` ends at any state in which only writes wait, within one round more
  -- than there are of them.
  pub drain_ends :
      (rounds : ℕ) (s : Replica W N)
      → PendingWrites s
      → length s.pending_writes < rounds
      → drain fuel os tls rounds s ≢ out_of_fuel
  unfolding drain
  drain_ends zero s w h = absurd (omega arith)
  drain_ends (suc rounds) s w h = round_ends rounds s w h (drain_ends rounds) (ready s) refl
