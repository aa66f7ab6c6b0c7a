-- ===== src/Replica/Replay/Drain.antt =====
-- `processPendingMessages` against the invariant: the loop ends within its fuel, and only where the next
-- write of the log has not arrived.
use disk_tees.Prelude.{
  ℕ, zero, suc, ◌<◌, ℤ, pos, ◌+ℤ◌, leb_ℤ, ◌≡◌, refl, sym, ap, ◌∙◌, ◌⊎◌, inl, inr, true, none, some,
  List, Outcome, ok, ◌>>=◌, get_elem?, length, arith, eqb_ℤ_iff, +ℤ-suc, +ℤ-injective, Option-cases,
  ltb_ℤ_iff, leb_ℤ_iff,
}
use disk_tees.Shared.Ballot.{Ballot}
use disk_tees.Shared.IntMap.{
  IntMap, contains, find, erase, find-erase, contains-erase, contains_iff_find, length-erase-lt,
}
use disk_tees.Shared.Os.{Os}
use disk_tees.Shared.Transport.{Transport}
use disk_tees.Shared.Messages.{ClientMsg, ReplicaMsg}
use disk_tees.Replica.Store.{Store}
use disk_tees.Replica.State.{Replica}
use disk_tees.Replica.Buffer.{
  next_write, ready, redo_pending, drain, ack_fsync, process_pending_messages,
}
use disk_tees.Replica.Replay.{IsLog}
use disk_tees.Replica.Replay.Invariant.{
  Inv, Held, Advance, Advance-mono, Advance-trans, Nothing, advanced, visit_next_lem, get_elem?-lt,
  redo_all-suc, valid, stay,
}

module _ {W N : Type 0} (fuel : ℕ) (os : Os W) (tls : Transport ReplicaMsg N) where
  -- No fsync waits to be acknowledged.
  pub ack_fsync-idle :
      (s : Replica W N)
      → leb_ℤ s.last_fsync.seq s.last_acked_write ≡ true
      → ack_fsync fuel os tls s ≡ ok s
  unfolding ack_fsync
  ack_fsync-idle s h = ground (
    arith,
    leb_ℤ_iff s.last_fsync.seq s.last_acked_write,
    ltb_ℤ_iff s.last_acked_write s.last_fsync.seq,
  )

module _ {W N : Type 0} (fuel : ℕ) (os : Os W) (tls : Transport ReplicaMsg N) (b : Ballot)
    (base : ℤ) (log : List ClientMsg) (final : Store W) (is_log : IsLog b base log) where
  abbrev Advanced : ℕ → Replica W N → Outcome (Replica W N) → Type 0
  Advanced n s = Advance fuel os tls b base log final is_log n s Nothing

  ready-find :
      (s : Replica W N) (m : ClientMsg)
      → ready s ≡ some m
      → find (next_write s) s.pending_writes ≡ some m
  unfolding ready
  ready-find s m e = ground arith

  -- The pending write that is ready is the next of the log.
  ready-log :
      (n : ℕ) (s : Replica W N) (m : ClientMsg)
      → Inv os b base log final n s
      → ready s ≡ some m
      → get_elem? log n ≡ some m
  ready-log n s m v e =
      let (i, there, k) = v.pending _ m (ready-find s m e) in
      let same : suc n ≡ suc i =
        +ℤ-injective base (suc n) (suc i) (sym (ap (λ w. w +ℤ pos 1) v.at ∙ +ℤ-suc base n) ∙ k) in
      rw (let same' : n ≡ i = omega arith in same') there

  find-contains :
      (k : ℤ) (m : ClientMsg) (p : IntMap ClientMsg) → find k p ≡ some m → contains k p ≡ true
  find-contains k m p e = ground (arith, contains_iff_find k p)

  held_behind_erase :
      (n j : ℕ) (k : ℤ) (p : IntMap ClientMsg)
      → k ≡ base +ℤ pos (suc n)
      → (j < n) ⊎ (contains (base +ℤ pos (suc j)) p ≡ true)
      → (j < suc n) ⊎ (contains (base +ℤ pos (suc j)) (erase k p) ≡ true)
  held_behind_erase n j k p next h = ground (
    arith,
    contains-erase k (base +ℤ pos (suc j)) p,
    eqb_ℤ_iff k (base +ℤ pos (suc j)),
    +ℤ-injective base (suc n) (suc j),
  )

  held_before_erase :
      (n j : ℕ) (k : ℤ) (p : IntMap ClientMsg)
      → k ≡ base +ℤ pos (suc n)
      → contains k p ≡ true
      → (j < suc n) ⊎ (contains (base +ℤ pos (suc j)) (erase k p) ≡ true)
      → (j < n) ⊎ (contains (base +ℤ pos (suc j)) p ≡ true)
  held_before_erase n j k p next there h =
      ground (arith, contains-erase k (base +ℤ pos (suc j)) p, eqb_ℤ_iff k (base +ℤ pos (suc j)))

  redo_pending-Advance :
      (n : ℕ) (s : Replica W N) (m : ClientMsg)
      → Inv os b base log final n s
      → ready s ≡ some m
      → (a : Advanced n s (redo_pending fuel os tls m s)) × (length a.t.pending_writes
          < length s.pending_writes)
  unfolding redo_pending
  redo_pending-Advance n s m v e =
      let there = ready-log n s m v e in
      let (u, ends, others, redone) =
        visit_next_lem fuel os tls b base log final is_log n m s v there in
      let k : ℤ = s.written +ℤ pos 1 in
      let waits : contains k s.pending_writes ≡ true =
        find-contains k m s.pending_writes (ready-find s m e) in
      let next : k ≡ base +ℤ pos (suc n) = ap (λ w. w +ℤ pos 1) v.at ∙ +ℤ-suc base n in
      (
        record {
          n' = suc n;
          t = record s {
            store = u;
            written = s.written +ℤ pos 1;
            pending_writes = erase k s.pending_writes;
          };
          ends = rw ends refl;
          inv =
              advanced fuel os tls b base log final is_log n s u (erase k s.pending_writes) v
                (get_elem?-lt n log m there) others
                (λ j m' h. ground (arith, find-erase k j s.pending_writes));
          keeps = λ j h. held_behind_erase n j k s.pending_writes next h;
          takes = λ j h x. absurd x;
          only = λ j h. inl (held_before_erase n j k s.pending_writes next waits h);
          so_far = λ first h. redo_all-suc os n log m first s.store u there redone h;
        },
        length-erase-lt k s.pending_writes waits,
      )

  abbrev twice :
      (n : ℕ) (s : Replica W N) (r : Outcome (Replica W N))
      (f : Replica W N → Outcome (Replica W N)) (a : Advanced n s r)
      → Advanced a.n' a.t (f a.t)
      → Advanced n s (r >>= f)
  twice n s r f a c =
      Advance-mono fuel os tls b base log final is_log _ _ (λ j h x. inl x)
        (λ j x. elim x [ inl y ↦ y | inr y ↦ y ])
        (Advance-trans fuel os tls b base log final is_log _ _ f a c)

  -- The loop ends well within the fuel, at a state where no pending write is ready.
  drain-Advance :
      (rounds n : ℕ) (s : Replica W N)
      → Inv os b base log final n s
      → length s.pending_writes < rounds
      → (a : Advanced n s (drain fuel os tls rounds s)) × (ready a.t ≡ none)
  unfolding drain stay
  drain-Advance zero n s v h = elim h [ ]
  drain-Advance (suc rounds) n s v h = elim (Option-cases (ready s)) [
    | inl e ↦ rw (e, drain) (stay fuel os tls b base log final is_log n s v, e)
    | inr (m, e) ↦
        let (a, shorter) = redo_pending-Advance n s m v e in
        let (c, done) = drain-Advance rounds a.n' a.t a.inv (omega arith) in
        rw (e, drain) (twice n s _ (drain fuel os tls rounds) a c, done)
  ]

  pub process-Advance :
      (n : ℕ) (s : Replica W N)
      → Inv os b base log final n s
      → (a : Advanced n s (process_pending_messages fuel os tls (suc (length s.pending_writes)) s))
        × (ready a.t ≡ none)
  unfolding process_pending_messages
  process-Advance n s v =
      let (a, done) = drain-Advance (suc (length s.pending_writes)) n s v (omega arith) in
      (
        record {
          n' = a.n';
          t = a.t;
          ends = rw a.ends (ack_fsync-idle fuel os tls a.t a.inv.idle);
          inv = a.inv;
          keeps = a.keeps;
          takes = a.takes;
          only = a.only;
          so_far = a.so_far;
        },
        done,
      )

  -- Where the loop has ended, the next write of the log has not arrived.
  pub ready-Held :
      (n : ℕ) (s : Replica W N) → Inv os b base log final n s → ready s ≡ none → ¬ Held base n s n
  unfolding ready
  ready-Held n s v e (inl h) = absurd (omega arith)
  ready-Held n s v e (inr h) = elim (Option-cases (find (next_write s) s.pending_writes)) [
    | inl missing ↦ ground (
      arith,
      contains_iff_find (next_write s) s.pending_writes,
      ap (λ w. w +ℤ pos 1) v.at ∙ +ℤ-suc base n,
    )
    | inr (m, there) ↦
        let (i, logged, k) = v.pending (next_write s) m there in
        ground (arith, is_log.voted i m logged, valid fuel os tls b base log final is_log s v)
  ]
