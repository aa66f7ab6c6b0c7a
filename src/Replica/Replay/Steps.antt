-- ===== src/Replica/Replay/Steps.antt =====
-- The arrival of one message of the log against the invariant.
use mathlib.Core.Path.{subst}
use disk_tees.Prelude.{
  ℕ, suc, ◌<◌, ℤ, pos, ◌+ℤ◌, ◌==ℤ◌, ◌≡◌, refl, sym, ◌∙◌, ◌⊎◌, inl, inr, true, some, List, Bytes,
  Outcome, ok, get_elem?, arith, eqb_ℤ_iff, eqb_ℤ-+ℤ, ltb_ℤ-+ℤ, +ℤ-suc, +ℤ-injective, Bool-cases,
  ==_iff, leb, ◌==◌, if◌then◌else◌,
}
use disk_tees.Shared.Ballot.{Ballot}
use disk_tees.Shared.Ballot.Order.{ltb_ballot_irrefl}
use disk_tees.Shared.IntMap.{IntMap, contains, find, put, find-put, contains-put}
use disk_tees.Shared.Os.{Os}
use disk_tees.Shared.Transport.{Transport}
use disk_tees.Shared.Messages.{ClientMsg, ReplicaMsg}
use disk_tees.Shared.Messages.Kind.{get_seq}
use disk_tees.Replica.Store.{Store}
use disk_tees.Replica.State.{Replica}
use disk_tees.Replica.Buffer.{visit_next, buffer_write, buffer_msg}
use disk_tees.Replica.Replay.{IsLog}
use disk_tees.Replica.Replay.Invariant.{
  Inv, Advance, get_elem?-lt, redo_all-suc, valid, visit_next_lem, advanced,
}

module _ {W N : Type 0} (fuel : ℕ) (os : Os W) (tls : Transport ReplicaMsg N) (b : Ballot)
    (base : ℤ) (log : List ClientMsg) (final : Store W) (is_log : IsLog b base log) where
  abbrev Advanced : ℕ → Replica W N → (ℕ → Type 0) → Outcome (Replica W N) → Type 0
  Advanced = Advance fuel os tls b base log final is_log

  -- Which branch a message takes is a matter of its place in the log.
  buffer_write_lem :
      (n i : ℕ) (m : ClientMsg) (s : Replica W N)
      → Inv os b base log final n s
      → get_elem? log i ≡ some m
      → buffer_write fuel os tls m s ≡ (
          if i == n
          then visit_next fuel os tls m s
          else if leb n i
          then ok (record s { pending_writes = put (get_seq m) m s.pending_writes })
          else ok s)
  unfolding buffer_write
  buffer_write_lem n i m s v e =
      rw
        (
          is_log.voted i m e,
          valid fuel os tls b base log final is_log s v,
          is_log.numbered i m e,
          v.at,
          +ℤ-suc base n,
          eqb_ℤ-+ℤ base (suc i) (suc n),
          ltb_ℤ-+ℤ base n (suc i),
        )
        (ground arith)

  held_next :
      (n j : ℕ) (p : IntMap ClientMsg)
      → (j < suc n) ⊎ (contains (base +ℤ pos (suc j)) p ≡ true)
      → ((j < n) ⊎ (contains (base +ℤ pos (suc j)) p ≡ true)) ⊎ (j ≡ n)
  held_next n j p h = ground arith

  held_put :
      (n i j : ℕ) (k : ℤ) (m : ClientMsg) (p : IntMap ClientMsg)
      → k ≡ base +ℤ pos (suc i)
      → (j < n) ⊎ (contains (base +ℤ pos (suc j)) (put k m p) ≡ true)
      → ((j < n) ⊎ (contains (base +ℤ pos (suc j)) p ≡ true)) ⊎ (j ≡ i)
  held_put n i j k m p e h = ground (
    arith,
    contains-put k (base +ℤ pos (suc j)) m p,
    eqb_ℤ_iff k (base +ℤ pos (suc j)),
    +ℤ-injective base (suc i) (suc j),
  )

  take_next :
      (n : ℕ) (m : ClientMsg) (s : Replica W N)
      → Inv os b base log final n s
      → get_elem? log n ≡ some m
      → Advanced n s (λ j. j ≡ n) (visit_next fuel os tls m s)
  take_next n m s v e =
      let (u, ends, others, redone) =
        visit_next_lem fuel os tls b base log final is_log n m s v e in
      record {
        n' = suc n;
        t = record s { store = u; written = s.written +ℤ pos 1 };
        ends = ends;
        inv =
            advanced fuel os tls b base log final is_log n s u s.pending_writes v
              (get_elem?-lt n log m e) others (λ k m' h. h);
        keeps = λ j h. ground arith;
        takes = λ j h x. inl (omega arith);
        only = λ j h. held_next n j s.pending_writes h;
        so_far = λ first h. redo_all-suc os n log m first s.store u e redone h;
      }

  keep_pending :
      (n i : ℕ) (m : ClientMsg) (s : Replica W N)
      → Inv os b base log final n s
      → get_elem? log i ≡ some m
      → (k : ℤ) (m' : ClientMsg) → find k (put (get_seq m) m s.pending_writes) ≡ some m'
      → (j : ℕ) × (get_elem? log j ≡ some m') × (k ≡ base +ℤ pos (suc j))
  keep_pending n i m s v e k m' h = elim (Bool-cases (get_seq m ==ℤ k)) [
    | inl same ↦ (
      i,
      ground (arith, find-put (get_seq m) k m s.pending_writes),
      sym ((eqb_ℤ_iff (get_seq m) k).0 same) ∙ is_log.numbered i m e,
    )
    | inr other ↦ v.pending k m' (ground (arith, find-put (get_seq m) k m s.pending_writes))
  ]

  store_pending :
      (n i : ℕ) (m : ClientMsg) (s : Replica W N)
      → Inv os b base log final n s
      → get_elem? log i ≡ some m
      → Advanced n s
          (λ j. j ≡ i)
          (ok (record s { pending_writes = put (get_seq m) m s.pending_writes }))
  store_pending n i m s v e = record {
    n' = n;
    t = record s { pending_writes = put (get_seq m) m s.pending_writes };
    ends = refl;
    inv = record {
      at = v.at;
      within = v.within;
      highest = v.highest;
      normal = v.normal;
      idle = v.idle;
      rest = v.rest;
      pending = keep_pending n i m s v e;
    };
    keeps =
        λ j h. ground (arith, contains-put (get_seq m) (base +ℤ pos (suc j)) m s.pending_writes);
    takes = λ j h x. inr (
        ground (
          arith,
          contains-put (get_seq m) (base +ℤ pos (suc j)) m s.pending_writes,
          eqb_ℤ_iff (get_seq m) (base +ℤ pos (suc j)),
          is_log.numbered i m e,
        ));
    only = λ j h. held_put n i j (get_seq m) m s.pending_writes (is_log.numbered i m e) h;
    so_far = λ first h. h;
  }

  stay_late :
      (n i : ℕ) (s : Replica W N)
      → Inv os b base log final n s
      → i < n
      → Advanced n s (λ j. j ≡ i) (ok s)
  stay_late n i s v old = record {
    n' = n;
    t = s;
    ends = refl;
    inv = v;
    keeps = λ j h. h;
    takes = λ j h x. inl (omega arith);
    only = λ j h. inl h;
    so_far = λ first h. h;
  }

  buffer_write-Advance :
      (n i : ℕ) (m : ClientMsg) (s : Replica W N)
      → Inv os b base log final n s
      → get_elem? log i ≡ some m
      → Advanced n s (λ j. j ≡ i) (buffer_write fuel os tls m s)
  buffer_write-Advance n i m s v e = rw (buffer_write_lem n i m s v e) (elim (Bool-cases (i == n)) [
    | inl now ↦ rw now (
        subst (λ k. Advanced n s (λ j. j ≡ k) (visit_next fuel os tls m s))
          (sym ((==_iff i n).0 now))
          (take_next n m s v (subst (λ k. get_elem? log k ≡ some m) ((==_iff i n).0 now) e)))
    | inr other ↦ rw other (elim (Bool-cases (leb n i)) [
      | inl early ↦ rw early (store_pending n i m s v e)
      | inr late ↦ rw late (stay_late n i s v (ground arith))
    ])
  ])

  with_sender :
      (n : ℕ) (s : Replica W N) (addr : Bytes)
      → Inv os b base log final n s
      → Inv os b base log final n (record s { sender = addr })
  with_sender n s addr v = record {
    at = v.at;
    within = v.within;
    highest = v.highest;
    normal = v.normal;
    idle = v.idle;
    rest = v.rest;
    pending = v.pending;
  }

  pub buffer_msg-Advance :
      (n i now : ℕ) (m : ClientMsg) (addr : Bytes) (s : Replica W N)
      → Inv os b base log final n s
      → get_elem? log i ≡ some m
      → Advanced n s (λ j. j ≡ i) (buffer_msg fuel os tls now m addr s)
  unfolding buffer_msg
  buffer_msg-Advance n i now m addr s v e =
      rw (is_log.voted i m e, v.highest, ltb_ballot_irrefl b, is_log.writes i m e)
        (let a =
            buffer_write-Advance n i m (record s { sender = addr }) (with_sender n s addr v) e in
          record {
            n' = a.n';
            t = a.t;
            ends = a.ends;
            inv = a.inv;
            keeps = a.keeps;
            takes = a.takes;
            only = a.only;
            so_far = a.so_far;
          })
