-- ===== src/Client/Acks.antt =====
-- client/client_fuse.cpp: what the acknowledgements of the replicas commit, and what fsync waits for.
use disk_tees.Prelude.{
  ℕ, suc, ◌+ℤ◌, +ℤ-zero, +ℤ_parts, eq_of_parts, sym, ◌∙◌, ℤ, pos, minus_one, ◌≤ℤ◌, ◌<ℤ◌, ◌≢◌, ap,
  pos_part, neg_part, ltb_ℤ, leb_ℤ, leb_ℤ_iff, leb_ℤ-not_lt, ltb_ℤ_iff, ◌≡◌, refl, ◌⊎◌, inl, inr,
  false, [], ◌∷◌, ok, arith, Bool-cases, if◌then◌else◌, All,
}
use disk_tees.Shared.IntMap.{IntMap, put}
use disk_tees.Shared.Transport.{Transport}
use disk_tees.Shared.Messages.{ClientMsg, FsyncAck}
use disk_tees.Client.State.{Client}
use disk_tees.Client.Receive.{
  num_written, largest_quorum_from, largest_quorum_written, on_fsync_ack, run_event_loop_once,
}
use disk_tees.Client.Calls.Fsync.{Rounds, wait_committed}

-- How many of the numbers are `w` or more.
pub supporters : ℤ → IntMap ℤ → ℕ
supporters w [] = 0
supporters w ((_, x) ∷ all) = let rest = supporters w all in if leb_ℤ w x then suc rest else rest

num_written_lem :
    (w : ℤ) (all : IntMap ℤ) (n : ℤ) → num_written w all n ≡ n +ℤ pos (supporters w all)
unfolding num_written supporters
num_written_lem w [] n = sym (+ℤ-zero n)
num_written_lem w ((k, x) ∷ all) n = elim (Bool-cases (leb_ℤ w x)) [
  | inl more ↦
      let m = supporters w all in
      rw more (
        num_written_lem w all (n +ℤ pos 1)
        ∙ eq_of_parts _ _ (
            omega
              (arith, +ℤ_parts n (pos 1), +ℤ_parts (n +ℤ pos 1) (pos m), +ℤ_parts n (pos (suc m)))))
  | inr less ↦ rw less (num_written_lem w all n)
]

counted : (w : ℤ) (all : IntMap ℤ) → num_written w all (pos 0) ≡ pos (supporters w all)
counted w all =
    num_written_lem w all (pos 0)
    ∙ eq_of_parts _ _ (omega (arith, +ℤ_parts (pos 0) (pos (supporters w all))))

same_pos : (w : ℤ) (all : IntMap ℤ) → pos_part (num_written w all (pos 0)) ≡ supporters w all
same_pos w all = ap pos_part (counted w all)

same_neg : (w : ℤ) (all : IntMap ℤ) → neg_part (num_written w all (pos 0)) ≡ 0
same_neg w all = ap neg_part (counted w all)

-- At least `quorum` of the entries are `w` or more.
abbrev pub HasQuorum : ℤ → IntMap ℤ → ℤ → Type 0
HasQuorum quorum all w = quorum ≤ℤ pos (supporters w all)

-- Too few of the entries are what this one is, or more; or it is not above `largest`.
abbrev pub Entry : ℤ → IntMap ℤ → ℤ → ℤ × ℤ → Type 0
Entry quorum all largest e = (pos (supporters e.1 all) <ℤ quorum) ⊎ (e.1 ≤ℤ largest)

-- What the loop over `entries` makes of `largest`: it keeps what it has found, and passes over no better
-- entry.
record Found (quorum : ℤ) (all entries : IntMap ℤ) (largest found : ℤ) : Type 0 where
  backed : (found ≡ minus_one) ⊎ HasQuorum quorum all found
  grows : largest ≤ℤ found
  best : All (Entry quorum all found) entries

-- The value with which the loop goes on behind an entry.
abbrev next_largest : ℤ → IntMap ℤ → ℤ → ℤ → ℤ
next_largest quorum all w largest =
    if leb_ℤ w largest
    then largest
    else if leb_ℤ quorum (num_written w all (pos 0))
    then w
    else largest

record Next (quorum : ℤ) (all : IntMap ℤ) (w largest next : ℤ) : Type 0 where
  backed : (next ≡ minus_one) ⊎ HasQuorum quorum all next
  grows : largest ≤ℤ next
  passes : Entry quorum all next (minus_one, w)

next_largest-Next :
    (quorum : ℤ) (all : IntMap ℤ) (w largest : ℤ)
    → (largest ≡ minus_one) ⊎ HasQuorum quorum all largest
    → Next quorum all w largest (next_largest quorum all w largest)
next_largest-Next quorum all w largest h = elim (Bool-cases (leb_ℤ w largest)) [
  | inl below ↦
      rw below
        (record { backed = h; grows = omega arith; passes = inr ((leb_ℤ_iff w largest).0 below) })
  | inr above ↦
      let up : largest <ℤ w = (ltb_ℤ_iff largest w).0 ((leb_ℤ-not_lt w largest).0 above) in
      rw above (elim (Bool-cases (leb_ℤ quorum (num_written w all (pos 0)))) [
        | inl enough ↦ rw enough (record {
          backed = inr (
              omega (
                arith,
                (leb_ℤ_iff quorum (num_written w all (pos 0))).0 enough,
                same_pos w all,
                same_neg w all,
              ));
          grows = omega arith;
          passes = inr (omega arith);
        })
        | inr few ↦ rw few (record {
          backed = h;
          grows = omega arith;
          passes = inl (
              omega (
                arith,
                (ltb_ℤ_iff _ _).0 ((leb_ℤ-not_lt quorum (num_written w all (pos 0))).0 few),
                same_pos w all,
                same_neg w all,
              ));
        })
      ])
]

weaken :
    (quorum : ℤ) (all : IntMap ℤ) (w a b : ℤ)
    → a ≤ℤ b
    → Entry quorum all a (minus_one, w)
    → Entry quorum all b (minus_one, w)
weaken quorum all w a b h (inl few) = inl few
weaken quorum all w a b h (inr le) = inr (omega (arith, le, h))

largest_quorum_from-Found :
    (quorum : ℤ) (all entries : IntMap ℤ) (largest : ℤ)
    → (largest ≡ minus_one) ⊎ HasQuorum quorum all largest
    → Found quorum all entries largest (largest_quorum_from quorum all entries largest)
unfolding largest_quorum_from
largest_quorum_from-Found quorum all [] largest h = record {
  backed = h;
  grows = omega arith;
  best = tt;
}
largest_quorum_from-Found quorum all ((i, w) ∷ entries) largest h =
    let n = next_largest-Next quorum all w largest h in
    let f =
      largest_quorum_from-Found quorum all entries (next_largest quorum all w largest) n.backed in
    record {
      backed = f.backed;
      grows = omega (arith, n.grows, f.grows);
      best = (weaken quorum all w _ _ f.grows n.passes, f.best);
    }

-- `largestQuorumWritten` is the largest number that a quorum of the replicas has written, or -1.
largest_quorum_written_lem :
    (quorum : ℤ) (all : IntMap ℤ)
    → let found = largest_quorum_written quorum all in
      ((found ≡ minus_one) ⊎ HasQuorum quorum all found) × All (Entry quorum all found) all
unfolding largest_quorum_written
largest_quorum_written_lem quorum all =
    let f = largest_quorum_from-Found quorum all all minus_one (inl refl) in (f.backed, f.best)

above_zero : (a b : ℤ) → pos 0 ≤ℤ a → a <ℤ b → b ≢ minus_one
above_zero a b h k e = omega (arith, ap pos_part e, ap neg_part e)

supported :
    (quorum w : ℤ) (all : IntMap ℤ)
    → (w ≡ minus_one) ⊎ HasQuorum quorum all w
    → w ≢ minus_one
    → HasQuorum quorum all w
supported quorum w all (inl none_found) h = absurd (h none_found)
supported quorum w all (inr q) h = q

module _ {W N : Type 0} where
  -- An acknowledgement is recorded under the replica's id. `replicasCommitted` never falls; where it
  -- changes, at least `quorum` of the recorded numbers are the new value or above (`supporters` counts them), and no
  -- recorded number with that support is above it. Nothing but the two and the resend buffer changes.
  pub on_fsync_ack_commits :
      (msg : FsyncAck) (c : Client W N)
      → pos 0 ≤ℤ c.replicas_committed
      → let d = on_fsync_ack msg c in
        (d.replica_written ≡ put msg.id msg.written c.replica_written)
        × (c.replicas_committed ≤ℤ d.replicas_committed)
        × ((d.replicas_committed ≡ c.replicas_committed)
            ⊎ (HasQuorum c.quorum d.replica_written d.replicas_committed
                × All (Entry c.quorum d.replica_written d.replicas_committed) d.replica_written))
        × (d.written ≡ c.written)
        × (d.net ≡ c.net)
  unfolding on_fsync_ack
  on_fsync_ack_commits msg c h = elim (Bool-cases (leb_ℤ msg.written c.replicas_committed)) [
    | inl old ↦ rw old (refl, omega arith, inl refl, refl, refl)
    | inr new ↦
        let all : IntMap ℤ = put msg.id msg.written c.replica_written in
        rw new
          (elim (Bool-cases (ltb_ℤ c.replicas_committed (largest_quorum_written c.quorum all))) [
            | inl more ↦
                let (q, best) = largest_quorum_written_lem c.quorum all in
                let grows =
                  (ltb_ℤ_iff c.replicas_committed (largest_quorum_written c.quorum all)).0 more in
                rw more (
                  refl,
                  omega arith,
                  inr (supported c.quorum _ all q (above_zero _ _ h grows), best),
                  refl,
                  refl,
                )
            | inr less ↦ rw less (refl, omega arith, inl refl, refl, refl)
          ])
  ]

module _ {W N : Type 0} (tls : Transport ClientMsg N) where
  -- The loop ends only where the last write is committed.
  pub wait_committed_lem :
      (rounds : Rounds) (c d : Client W N)
      → wait_committed tls rounds c ≡ ok d
      → ltb_ℤ d.replicas_committed d.written ≡ false
  unfolding wait_committed
  wait_committed_lem [] c d e = ground arith
  wait_committed_lem (msgs ∷ rounds) c d e =
      elim (Bool-cases (ltb_ℤ c.replicas_committed c.written)) [
        | inl more ↦ wait_committed_lem rounds (run_event_loop_once tls msgs c) d (rw more at e)
        | inr done ↦ ground arith
      ]
