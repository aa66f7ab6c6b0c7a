-- ===== src/Client/Waiting.antt =====
-- client/client_fuse.cpp: what fsync waits for, and the writes kept for resending.
use disk_tees.Prelude.{
  ℕ, ℤ, pos, minus_one, ◌==ℤ◌, ltb_ℤ, ◌≤ℤ◌, ◌≡◌, refl, sym, ◌∙◌, Bool, true, false, List, [], Bytes,
  Outcome, ok, threw, exited, out_of_fuel, undefined, arith, if◌then◌else◌,
}
use disk_tees.Shared.Convert.{narrow}
use disk_tees.Shared.NetworkConfig.{Addresses}
use disk_tees.Shared.Ballot.{Ballot}
use disk_tees.Shared.Os.{Os, Syscall}
use disk_tees.Shared.Transport.{Transport}
use disk_tees.Shared.Messages.{ClientMsg, FsyncMissing}
use disk_tees.Client.State.{Client, new_client, call}
use disk_tees.Client.Receive.{on_fsync_missing}
use disk_tees.Client.Calls.Common.{FuseFileInfo, replicate}
use disk_tees.Client.Calls.Fsync.{
  Rounds, wait_committed, broadcast_fsync, measure_fsync, client_fsync,
}
use disk_tees.Client.Trace.{Call, asked, perform_all}
use disk_tees.Client.Kept.{IsKept, any-Allowed}
use disk_tees.Client.Kept.Histories.{perform_all-Kept}
use disk_tees.Client.Acks.{wait_committed_lem}
use disk_tees.Client.Steady.{resend_none, receive-Steady, wait-Steady}

on_true : {A : Type 0} (b : Bool) → b ≡ true → (x y : A) → (if b then x else y) ≡ x
on_true b h x y = rw h refl

module _ {W N : Type 0} (os : Os W) (tls : Transport ClientMsg N) where
  -- Nothing is kept for resending.
  nothing_kept-IsKept : IsKept tls (λ m. Unit) (λ (c : Client W N). c.uncommitted_writes ≡ [])
  unfolding replicate broadcast_fsync
  nothing_kept-IsKept = record {
    called = λ c w h. h;
    measured = λ c n h. h;
    waited = λ c n h. h;
    synced = λ fi c h. h;
    replicated = λ msg c i h. ground arith;
    heard = λ m c i h. (receive-Steady tls m c h).kept;
  }

  -- Whatever calls of `Call` a client has served, fsyncs among them, and whatever messages it has heard since it was
  -- constructed, a replica that reports missing writes is sent none of them: the handler changes nothing.
  pub never_resends :
      (network metrics_on : Bool) (r : Ballot) (redirect_point : Bytes) (quorum : ℤ)
      (replicas : Addresses) (w : W) (n : N) (ks : List Call) (msg : FsyncMissing)
      → let c =
          perform_all os tls ks
            (new_client network metrics_on r redirect_point quorum replicas w n) in
        on_fsync_missing tls msg c ≡ ok c
  unfolding on_fsync_missing new_client
  never_resends network metrics_on r redirect_point quorum replicas w n ks msg =
      resend_none tls msg.holes _ (
        perform_all-Kept tls _ _ nothing_kept-IsKept os ks
          (new_client network metrics_on r redirect_point quorum replicas w n)
          (any-Allowed _ (λ m. tt) ks) refl)

  -- What `client_fsync` makes of the end of the loop.
  returned :
      (start end : ℕ) (m : Outcome (Client W N)) (result : ℤ) (d : Client W N)
      → (elim m as (λ _. Outcome (ℤ × Client W N)) [
        | ok e ↦ ok (pos 0, measure_fsync start end e)
        | _ ↦ out_of_fuel
      ])
        ≡ ok (result, d)
      → (f : Client W N) × (m ≡ ok f)
        × (result ≡ pos 0)
        × (d.written ≡ f.written)
        × (d.replicas_committed ≡ f.replicas_committed)
  unfolding measure_fsync
  returned start end (ok f) result d e = (f, refl, ground arith, ground arith, ground arith)
  returned start end (threw f) result d e = cc
  returned start end exited result d e = cc
  returned start end out_of_fuel result d e = cc
  returned start end undefined result d e = cc

  all_committed :
      (c f d : Client W N)
      → ltb_ℤ f.replicas_committed f.written ≡ false
      → f.written ≡ c.written
      → d.replicas_committed ≡ f.replicas_committed
      → c.written ≤ℤ d.replicas_committed
  unfolding ltb_ℤ
  all_committed c f d h w e = rw (sym w, e) (ground arith)

  -- The local fsync of a client does not fail.
  abbrev pub IsFine : Bool → FuseFileInfo → Client W N → Type 0
  IsFine isdatasync fi c =
      ((os.sys
          (if isdatasync then Syscall.fdatasync (narrow fi.fh) else Syscall.fsync (narrow fi.fh))
          c.world).0.ret
        ==ℤ minus_one)
      ≡ false

  pub fsync_ends :
      (isdatasync : Bool) (fi : FuseFileInfo) (start end : ℕ) (rounds : Rounds) (c : Client W N)
      → c.network ≡ true
      → IsFine isdatasync fi c
      → (result : ℤ) (d : Client W N)
      → client_fsync os tls isdatasync fi start end rounds c ≡ ok (result, d)
      → (f : Client W N) × (wait_committed tls rounds (asked os tls isdatasync fi c) ≡ ok f)
        × (result ≡ pos 0)
        × (d.written ≡ f.written)
        × (d.replicas_committed ≡ f.replicas_committed)
  unfolding client_fsync call broadcast_fsync asked
  fsync_ends isdatasync fi start end rounds c on fine result d e =
      returned start end (wait_committed tls rounds (asked os tls isdatasync fi c)) result d
        (sym (on_true c.network on _ _) ∙ (rw fine at e))

  -- Where the local fsync does not fail and `client_fsync` of a networked client that keeps no writes
  -- returns, it returns 0, all that was written before the call counts as committed behind it, the number
  -- written is unchanged and no commit was taken back.
  pub fsync_waits :
      (isdatasync : Bool) (fi : FuseFileInfo) (start end : ℕ) (rounds : Rounds) (c : Client W N)
      → c.network ≡ true
      → c.uncommitted_writes ≡ []
      → IsFine isdatasync fi c
      → (result : ℤ) (d : Client W N)
      → client_fsync os tls isdatasync fi start end rounds c ≡ ok (result, d)
      → (result ≡ pos 0)
        × (d.written ≡ c.written)
        × (c.written ≤ℤ d.replicas_committed)
        × (c.replicas_committed ≤ℤ d.replicas_committed)
  unfolding broadcast_fsync asked
  fsync_waits isdatasync fi start end rounds c on h fine result d e =
      let (f, waited, zero, same_written, same_committed) =
        fsync_ends isdatasync fi start end rounds c on fine result d e in
      let v = wait-Steady tls rounds (asked os tls isdatasync fi c) f h waited in
      let all = wait_committed_lem tls rounds (asked os tls isdatasync fi c) f waited in
      (
        zero,
        same_written ∙ v.written,
        all_committed c f d all v.written same_committed,
        rw same_committed v.grows,
      )
