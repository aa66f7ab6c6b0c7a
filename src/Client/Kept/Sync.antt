-- ===== src/Client/Kept/Sync.antt =====
-- client/client_fuse.cpp: a property that survives each change of a client survives `client_fsync`.
use disk_tees.Prelude.{
  All, ℤ, minus_one, ◌==ℤ◌, ℕ, [], ◌∷◌, Bytes, Bool, true, false, if◌then◌else◌, neg, pos, ltb_ℤ,
  Outcome, ok, threw, exited, out_of_fuel, undefined, Leaves, Leaves-if,
}
use disk_tees.Shared.Os.{Os, Syscall}
use disk_tees.Shared.Convert.{narrow}
use disk_tees.Shared.Transport.{Transport}
use disk_tees.Shared.Messages.{ClientMsg, ReplicaMsg}
use disk_tees.Client.State.{Client, call}
use disk_tees.Client.Receive.{run_event_loop_once}
use disk_tees.Client.Calls.Common.{FuseFileInfo}
use disk_tees.Client.Calls.Fsync.{
  Rounds, wait_committed, broadcast_fsync, measure_fsync, client_fsync,
}
use disk_tees.Client.Trace.{asked, hear_all, perform_fsync}
use disk_tees.Client.Kept.{IsKept, run_event_loop_once-Kept}

module _ {W N : Type 0} (tls : Transport ClientMsg N) (H : Bytes × ReplicaMsg → Type 0)
    (P : Client W N → Type 0) (k : IsKept tls H P) where
  pub wait-Kept :
      (rounds : Rounds) (c : Client W N)
      → All (All H) rounds
      → P c
      → Leaves P (wait_committed tls rounds c)
  unfolding wait_committed
  wait-Kept [] c h v = Leaves-if P (ltb_ℤ c.replicas_committed c.written) out_of_fuel (ok c) tt v
  wait-Kept (ms ∷ rounds) c (h, hs) v =
      Leaves-if P (ltb_ℤ c.replicas_committed c.written)
        (wait_committed tls rounds (run_event_loop_once tls ms c)) (ok c)
        (wait-Kept rounds (run_event_loop_once tls ms c) hs
          (run_event_loop_once-Kept tls H P k ms c h v))
        v

  hear_all-Kept :
      (os : Os W) (rounds : Rounds) (c : Client W N)
      → All (All H) rounds
      → P c
      → P (hear_all os tls rounds c)
  unfolding hear_all
  hear_all-Kept os [] c h v = v
  hear_all-Kept os (ms ∷ rounds) c (h, hs) v =
      hear_all-Kept os rounds (run_event_loop_once tls ms c) hs
        (run_event_loop_once-Kept tls H P k ms c h v)

  either : (b : Bool) (c d : Client W N) → P c → P d → P (if b then c else d)
  either true c d h v = h
  either false c d h v = v

  measure_fsync-Kept : (start end : ℕ) (c : Client W N) → P c → P (measure_fsync start end c)
  unfolding measure_fsync
  measure_fsync-Kept start end c v = either c.metrics_on _ c (k.waited c _ v) v

  -- The end of the loop, and what `client_fsync` makes of it.
  ended-Kept :
      (start end : ℕ) (m : Outcome (Client W N))
      → Leaves P m
      → Leaves
          (λ r. P r.1)
          (elim m as (λ _. Outcome (ℤ × Client W N)) [
            | ok e ↦ ok (pos 0, measure_fsync start end e)
            | _ ↦ out_of_fuel
          ])
  ended-Kept start end (ok c) v = measure_fsync-Kept start end c v
  ended-Kept start end (threw c) v = tt
  ended-Kept start end exited v = tt
  ended-Kept start end out_of_fuel v = tt
  ended-Kept start end undefined v = tt

  client_fsync-Kept :
      (os : Os W) (isdatasync : Bool) (fi : FuseFileInfo) (start end : ℕ) (rounds : Rounds)
      (c : Client W N)
      → All (All H) rounds
      → P c
      → Leaves (λ r. P r.1) (client_fsync os tls isdatasync fi start end rounds c)
  unfolding client_fsync call
  client_fsync-Kept os isdatasync fi start end rounds c h v =
      let sync =
        if isdatasync then Syscall.fdatasync (narrow fi.fh) else Syscall.fsync (narrow fi.fh) in
      let ret = (os.sys sync c.world).0 in
      let d = record c { world = (os.sys sync c.world).1 } in
      let u = k.called c (os.sys sync c.world).1 v in
      let waits = wait_committed tls rounds (broadcast_fsync tls fi d) in
      let ends : Outcome (ℤ × Client W N) = elim waits [
        | ok e ↦ ok (pos 0, measure_fsync start end e)
        | _ ↦ out_of_fuel
      ] in
      Leaves-if (λ r. P r.1) (ret.ret ==ℤ minus_one) (ok (neg ret.errno, d))
        (if d.network then ends else ok (pos 0, d)) u
        (Leaves-if (λ r. P r.1) d.network ends (ok (pos 0, d))
          (ended-Kept start end waits (wait-Kept rounds _ h (k.synced fi d u))) u)

  left-Kept :
      (m : Outcome (ℤ × Client W N)) (c : Client W N)
      → Leaves (λ r. P r.1) m
      → P c
      → P (elim m [ ok r ↦ r.1 | _ ↦ c ])
  left-Kept (ok r) c h v = h
  left-Kept (threw r) c h v = v
  left-Kept exited c h v = v
  left-Kept out_of_fuel c h v = v
  left-Kept undefined c h v = v

  pub perform_fsync-Kept :
      (os : Os W) (isdatasync : Bool) (fi : FuseFileInfo) (start end : ℕ) (rounds : Rounds)
      (c : Client W N)
      → All (All H) rounds
      → P c
      → P (perform_fsync os tls isdatasync fi start end rounds c)
  unfolding perform_fsync asked
  perform_fsync-Kept os isdatasync fi start end rounds c h v =
      left-Kept (client_fsync os tls isdatasync fi start end rounds c) _
        (client_fsync-Kept os isdatasync fi start end rounds c h v)
        (hear_all-Kept os rounds _ h (k.synced fi _ (k.called c _ v)))
