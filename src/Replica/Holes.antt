-- ===== src/Replica/Holes.antt =====
-- replica/replica_fuse.cpp: what `checkFsyncTimeout` reports to the client.
use disk_tees.Prelude.{
  ℕ, zero, suc, ◌-◌, ◌*◌, ◌/◌, ℤ, pos, ◌+ℤ◌, ◌==ℤ◌, ltb_ℤ, leb_ℤ, eqb_ℤ_iff, +ℤ_parts, +ℤ-zero,
  eq_of_parts, ◌<ℤ◌, ◌≡◌, refl, ap, ◌∙◌, sym, Bool, true, false, ◌&&◌, ◌||◌, not, ◌⊎◌, inl, inr,
  List, [], ◌∷◌, ◌++◌, Outcome, ok, threw, exited, out_of_fuel, undefined, ◌>>=◌, map_outcome,
  arith, Bool-cases, ==_iff, ltb, ◌==◌, if◌then◌else◌,
}
use disk_tees.Shared.IntMap.{IntMap, contains}
use disk_tees.Shared.Transport.{Transport, IsTransport}
use disk_tees.Shared.Messages.{ClientMsg, ReplicaMsg, fsync_missing}
use disk_tees.Replica.State.{Replica, ballot_is_valid}
use disk_tees.Replica.Protocol.{reply}
use disk_tees.Replica.Buffer.{rounds_between, collect_holes, find_holes, check_fsync_timeout}

pub is_in : ℤ → List ℤ → Bool
is_in k [] = false
is_in k (j ∷ js) = j ==ℤ k || is_in k js

-- The first number of a range, and those behind it.
first_of_range :
    (i k upto : ℤ)
    → i <ℤ upto
    → (leb_ℤ i k && ltb_ℤ k upto) ≡ (i ==ℤ k || (leb_ℤ (i +ℤ pos 1) k && ltb_ℤ k upto))
unfolding leb_ℤ ltb_ℤ ◌==ℤ◌
first_of_range i k upto h = ground (arith, +ℤ_parts i (pos 1))

within :
    (a h r x g : Bool)
    → (h ≡ (r && not x))
    → g ≡ (a || r)
    → (a ≡ true → x ≡ false)
    → (a || h) ≡ (g && not x)
within a h r x g e f k = ground arith

without :
    (a h r x g : Bool)
    → (h ≡ (r && not x))
    → g ≡ (a || r)
    → (a ≡ true → x ≡ true)
    → h ≡ (g && not x)
without a h r x g e f k = ground arith

empty_range : (i k upto : ℤ) (x : Bool) → upto ≡ i → (leb_ℤ i k && ltb_ℤ k upto && not x) ≡ false
unfolding leb_ℤ ltb_ℤ
empty_range i k upto x e = ground arith

collect_holes_lem :
    (k : ℤ) (n : ℕ) (i : ℤ) (pending : IntMap ClientMsg)
    → is_in k (collect_holes n i pending)
      ≡ (leb_ℤ i k && ltb_ℤ k (i +ℤ pos n) && not (contains k pending))
unfolding collect_holes is_in
collect_holes_lem k zero i pending =
    sym (empty_range i k (i +ℤ pos 0) (contains k pending) (+ℤ-zero i))
collect_holes_lem k (suc n) i pending =
    let e = collect_holes_lem k n (i +ℤ pos 1) pending in
    let f = first_of_range i k (i +ℤ pos (suc n)) (omega (arith, +ℤ_parts i (pos (suc n)))) in
    let upto : i +ℤ pos 1 +ℤ pos n ≡ i +ℤ pos (suc n) = eq_of_parts _ _ (
      omega (arith, +ℤ_parts i (pos 1), +ℤ_parts (i +ℤ pos 1) (pos n), +ℤ_parts i (pos (suc n)))) in
    let same : (i ==ℤ k) ≡ true → contains k pending ≡ contains i pending =
      λ h. ap (λ j. contains j pending) (sym ((eqb_ℤ_iff i k).0 h)) in
    elim (Bool-cases (contains i pending)) [
      | inl there ↦ rw there (without (i ==ℤ k) _ _ _ _ (rw upto at e) f (λ h. same h ∙ there))
      | inr missing ↦ rw missing (within (i ==ℤ k) _ _ _ _ (rw upto at e) f (λ h. same h ∙ missing))
    ]

bounds :
    (w last k : ℤ)
    → (leb_ℤ (w +ℤ pos 1) k && ltb_ℤ k (w +ℤ pos 1 +ℤ pos (rounds_between (w +ℤ pos 1) last)))
      ≡ (ltb_ℤ w k && leb_ℤ k last)
unfolding rounds_between leb_ℤ ltb_ℤ
bounds w last k =
    ground
      (arith, +ℤ_parts w (pos 1), +ℤ_parts (w +ℤ pos 1) (pos (rounds_between (w +ℤ pos 1) last)))

module _ {W N : Type 0} (tls : Transport ReplicaMsg N) where
  -- The holes are the numbers behind the last write, up to that of the fsync, that do not wait.
  pub find_holes_lem :
      (k : ℤ) (s : Replica W N)
      → is_in k (find_holes tls s)
        ≡ (ltb_ℤ s.written k && leb_ℤ k s.last_fsync.seq && not (contains k s.pending_writes))
  unfolding find_holes
  find_holes_lem k s =
      let from = s.written +ℤ pos 1 in
      let n = rounds_between from s.last_fsync.seq in
      collect_holes_lem k n from s.pending_writes
      ∙ ap (λ b. b && not (contains k s.pending_writes)) (bounds s.written s.last_fsync.seq k)

-- A minute has passed since the fsync came.
abbrev pub Overdue : {W N : Type 0} → ℕ → Replica W N → Type 0
Overdue now s = ltb ((now - s.fsync_recv_time) / (60 * 1000000000)) 1 ≡ false

-- What a report is: it was due, it went to the client with the holes, and the rest of the state stays.
pub record Reported {W N : Type 0} (tls : Transport ReplicaMsg N) (now : ℕ) (s t : Replica W N)
    : Type 0 where
  pub due : leb_ℤ s.last_fsync.seq s.last_acked_write ≡ false
  pub overdue : Overdue now s
  pub holes : List ℤ
  pub sent :
      tls.sends t.net
      ≡ tls.sends s.net
        ++ (
          fsync_missing (record {
            id = s.conf.id;
            r = s.last_fsync.r;
            fsync_seq = s.last_fsync.seq;
            holes = holes;
          }),
          s.client,
        )
          ∷ []
  pub exact :
      (k : ℤ)
      → is_in k holes
        ≡ (ltb_ℤ s.written k && leb_ℤ k s.last_fsync.seq && not (contains k s.pending_writes))
  pub rest : t ≡ record s { fsync_recv_time = 0; net = t.net }
  pub once : (later : ℕ) → check_fsync_timeout tls later t ≡ ok t

-- Three reasons to leave early, and one more behind them.
guarded : {A : Type 0} (a b c d : Bool) (x y : A) → A
guarded a b c d x y = if a then x else if b then x else if c then x else if d then x else y

guarded_at : {A : Type 0} (a b c d : Bool) (x y : A) → c ≡ true → guarded a b c d x y ≡ x
unfolding guarded
guarded_at a b c d x y h = ground arith

sent_by :
    {W N : Type 0} (m : Outcome N) (s t : Replica W N)
    → (map_outcome (λ n. record s { net = n }) m >>= λ u. ok (record u { fsync_recv_time = 0 }))
      ≡ ok t
    → (m ≡ ok t.net) × (t ≡ record s { fsync_recv_time = 0; net = t.net })
sent_by (ok n) s t e = (ground arith, ground arith)
sent_by (threw n) s t e = cc
sent_by exited s t e = cc
sent_by out_of_fuel s t e = cc
sent_by undefined s t e = cc

guarded-cases :
    {A : Type 0} (a b c d : Bool) (x y z : A)
    → guarded a b c d x y ≡ z
    → (x ≡ z) ⊎ ((a ≡ false) × (d ≡ false) × (y ≡ z))
unfolding guarded
guarded-cases true b c d x y z e = inl e
guarded-cases false true c d x y z e = inl e
guarded-cases false false true d x y z e = inl e
guarded-cases false false false true x y z e = inl e
guarded-cases false false false false x y z e = inr (refl, refl, e)

module _ {W N : Type 0} (tls : Transport ReplicaMsg N) where
  the_report : Replica W N → ReplicaMsg
  the_report s = fsync_missing (record {
    id = s.conf.id;
    r = s.last_fsync.r;
    fsync_seq = s.last_fsync.seq;
    holes = find_holes tls s;
  })

  report : Replica W N → Outcome (Replica W N)
  unfolding reply the_report
  report s = reply tls (the_report s) s.client s >>= λ t. ok (record t { fsync_recv_time = 0 })

  check_fsync_timeout_lem :
      (now : ℕ) (s : Replica W N)
      → check_fsync_timeout tls now s
        ≡ guarded
            (leb_ℤ s.last_fsync.seq s.last_acked_write)
            (not (ballot_is_valid s s.last_fsync.r))
            (s.fsync_recv_time == 0)
            (ltb ((now - s.fsync_recv_time) / (60 * 1000000000)) 1)
            (ok s)
            (report s)
  unfolding check_fsync_timeout guarded report the_report
  check_fsync_timeout_lem now s = refl

  once_only :
      (later : ℕ) (s : Replica W N) → s.fsync_recv_time ≡ 0 → check_fsync_timeout tls later s ≡ ok s
  once_only later s h =
      check_fsync_timeout_lem later s
      ∙ guarded_at (leb_ℤ s.last_fsync.seq s.last_acked_write)
          (not (ballot_is_valid s s.last_fsync.r)) (s.fsync_recv_time == 0)
          (ltb ((later - s.fsync_recv_time) / (60 * 1000000000)) 1) (ok s) (report s)
          ((==_iff s.fsync_recv_time 0).1 h)

  -- Where `checkFsyncTimeout` returns, it has changed nothing, or else a newer fsync than the last one
  -- acknowledged has waited for a minute: then the client was sent one report, whose holes are exactly the
  -- numbers behind the last write, up to that of the fsync, that do not wait; nothing but the time of the fsync
  -- was reset, and no later check reports again.
  pub timeout_reports :
      IsTransport tls
      → (now : ℕ) (s t : Replica W N) → check_fsync_timeout tls now s ≡ ok t
      → (t ≡ s) ⊎ Reported tls now s t
  unfolding report the_report reply
  timeout_reports laws now s t e =
      elim (guarded-cases _ _ _ _ (ok s) (report s) (ok t)
        (sym (check_fsync_timeout_lem now s) ∙ e)) [
          | inl same ↦ inl (ground arith)
          | inr (due, overdue, said) ↦
              let (sent, rest) = sent_by (tls.send (the_report s) s.client s.net) s t said in
              inr (record {
                due = due;
                overdue = overdue;
                holes = find_holes tls s;
                sent = laws.sends-send (the_report s) s.client s.net t.net sent;
                exact = λ k. find_holes_lem tls k s;
                rest = rest;
                once = λ later. once_only later t (ap (λ u. u.fsync_recv_time) rest);
              })
        ]
