-- ===== src/Replica/Replay/Invariant.antt =====
-- The state of a replica within the log of a ballot: `n` writes are redone, and the rest would end in `final`;
-- and what a step may make of it.
use mathlib.Core.Path.{fun_ext}
use disk_tees.Prelude.{
  ℕ, zero, suc, ◌≤◌, ◌<◌, ℤ, pos, ◌+ℤ◌, leb_ℤ, ◌≡◌, refl, sym, ap, ◌∙◌, ◌⊎◌, inl, inr, true, some,
  List, [], ◌∷◌, ◌++◌, Outcome, ok, ◌>>=◌, >>=-eq-ok, >>=_assoc, >>=_ok, map_outcome, get_elem?,
  length, drop, take, take-suc, arith, +ℤ-suc,
}
use disk_tees.Shared.Ballot.{Ballot}
use disk_tees.Shared.Ballot.Order.{eqb_ballot_iff, ltb_ballot_irrefl}
use disk_tees.Shared.IntMap.{IntMap, contains, find}
use disk_tees.Shared.Os.{Os}
use disk_tees.Shared.Transport.{Transport}
use disk_tees.Shared.Messages.{ClientMsg, ReplicaMsg}
use disk_tees.Shared.Messages.Kind.{get_client_msg_type, ClientMsgType}
use disk_tees.Replica.Store.{Store}
use disk_tees.Replica.State.{Replica, ballot_is_valid}
use disk_tees.Replica.Buffer.{redo, visit, visit_next}
use disk_tees.Replica.Replay.{redo_all, IsLog}

get_elem?-drop :
    {A : Type 0} (n : ℕ) (xs : List A) (x : A)
    → get_elem? xs n ≡ some x
    → drop n xs ≡ x ∷ drop (suc n) xs
get_elem?-drop n [] x e = ground arith
get_elem?-drop zero (y ∷ ys) x e = ground arith
get_elem?-drop (suc n) (y ∷ ys) x e = get_elem?-drop n ys x e

pub get_elem?-lt :
    {A : Type 0} (n : ℕ) (xs : List A) (x : A) → get_elem? xs n ≡ some x → n < length xs
get_elem?-lt n [] x e = ground arith
get_elem?-lt zero (y ∷ ys) x e = omega arith
get_elem?-lt (suc n) (y ∷ ys) x e = omega (arith, get_elem?-lt n ys x e)

-- The state of the replica within the log.
pub record Inv {W N : Type 0} (os : Os W) (b : Ballot) (base : ℤ) (log : List ClientMsg)
    (final : Store W) (n : ℕ) (s : Replica W N) : Type 0 where
  pub at : s.written ≡ base +ℤ pos n
  pub within : n ≤ length log
  pub highest : s.highest_ballot ≡ b
  pub normal : s.normal_ballot ≡ b
  pub idle : leb_ℤ s.last_fsync.seq s.last_acked_write ≡ true
  pub rest : redo_all os (drop n log) s.store ≡ ok final
  pub pending :
      (k : ℤ) (m : ClientMsg)
      → find k s.pending_writes ≡ some m
      → (i : ℕ) × (get_elem? log i ≡ some m) × (k ≡ base +ℤ pos (suc i))

module _ {W N : Type 0} (fuel : ℕ) (os : Os W) (tls : Transport ReplicaMsg N) where
  -- A write is redone on the store, and touches nothing else.
  pub visit-write :
      (m : ClientMsg) (s : Replica W N)
      → get_client_msg_type m ≡ ClientMsgType.write
      → visit fuel os tls m s ≡ map_outcome (λ t. record s { store = t }) (redo os m s.store)
  unfolding visit get_client_msg_type
  visit-write (ClientMsg.fsync p) s h = cc
  visit-write (ClientMsg.p1a p) s h = cc
  visit-write (ClientMsg.disk_req p) s h = cc
  visit-write (ClientMsg.p2a p) s h = cc
  visit-write other s h = refl

-- No message.
abbrev pub Nothing : ℕ → Type 0
Nothing j = ⊥

-- Message `j` is redone or waits.
abbrev pub Held : {W N : Type 0} → ℤ → ℕ → Replica W N → ℕ → Type 0
Held base n s j = (j < n) ⊎ (contains (base +ℤ pos (suc j)) s.pending_writes ≡ true)

redo_all-snoc :
    {W : Type 0} (os : Os W) (ms : List ClientMsg) (m : ClientMsg) (s : Store W)
    → redo_all os (ms ++ m ∷ []) s ≡ (redo_all os ms s >>= redo os m)
unfolding redo_all
redo_all-snoc os [] m s = >>=_ok (redo os m s)
redo_all-snoc os (x ∷ xs) m s =
    ap (λ k. redo os x s >>= k) (fun_ext (redo_all-snoc os xs m))
    ∙ sym (>>=_assoc (redo os x s) _ _)

-- The next message, behind those that are redone.
pub redo_all-suc :
    {W : Type 0} (os : Os W) (n : ℕ) (log : List ClientMsg) (m : ClientMsg) (first s u : Store W)
    → get_elem? log n ≡ some m
    → redo os m s ≡ ok u
    → redo_all os (take n log) first ≡ ok s
    → redo_all os (take (suc n) log) first ≡ ok u
redo_all-suc os n log m first s u e redone h =
    rw (take-suc n log m e, redo_all-snoc os (take n log) m first, h, redone) refl

module _ {W N : Type 0} (fuel : ℕ) (os : Os W) (tls : Transport ReplicaMsg N) (b : Ballot)
    (base : ℤ) (log : List ClientMsg) (final : Store W) (is_log : IsLog b base log) where
  -- A step ends well, keeps the invariant, loses no message, and takes in those that arrive, `new`, alone.
  pub record Advance (n : ℕ) (s : Replica W N) (new : ℕ → Type 0) (r : Outcome (Replica W N))
      : Type 0 where
    pub n' : ℕ
    pub t : Replica W N
    pub ends : r ≡ ok t
    pub inv : Inv os b base log final n' t
    pub keeps : (j : ℕ) → Held base n s j → Held base n' t j
    pub takes : (j : ℕ) → j < length log → new j → Held base n' t j
    pub only : (j : ℕ) → Held base n' t j → Held base n s j ⊎ new j
    -- Where the store is what the first `n` messages make of another, it stays so.
    pub so_far :
        (first : Store W)
        → redo_all os (take n log) first ≡ ok s.store
        → redo_all os (take n' log) first ≡ ok t.store

  -- One step after the other.
  abbrev pub Advance-trans :
      {n : ℕ} {s : Replica W N} (now later : ℕ → Type 0) (f : Replica W N → Outcome (Replica W N))
      {r : Outcome (Replica W N)} (a : Advance n s now r)
      → Advance a.n' a.t later (f a.t)
      → Advance n s (λ j. now j ⊎ later j) (r >>= f)
  Advance-trans now later f a c = record {
    n' = c.n';
    t = c.t;
    ends = rw a.ends (c.ends);
    inv = c.inv;
    keeps = λ j x. c.keeps j (a.keeps j x);
    takes = λ j h x. elim x [ inl x ↦ c.keeps j (a.takes j h x) | inr x ↦ c.takes j h x ];
    only = λ j x. elim (c.only j x) [
      | inl x ↦ (elim (a.only j x) [ inl x ↦ inl x | inr x ↦ inr (inl x) ])
      | inr x ↦ inr (inr x)
    ];
    so_far = λ first h. c.so_far first (a.so_far first h);
  }

  -- Another name for the messages that arrive.
  abbrev pub Advance-mono :
      {n : ℕ} {s : Replica W N} (new new' : ℕ → Type 0) {r : Outcome (Replica W N)}
      → ((j : ℕ) → j < length log → new' j → new j)
      → ((j : ℕ) → new j → new' j)
      → Advance n s new r
      → Advance n s new' r
  Advance-mono new new' back forth a = record {
    n' = a.n';
    t = a.t;
    ends = a.ends;
    inv = a.inv;
    keeps = a.keeps;
    takes = λ j h x. a.takes j h (back j h x);
    only = λ j x. elim (a.only j x) [ inl x ↦ inl x | inr x ↦ inr (forth j x) ];
    so_far = a.so_far;
  }

  pub valid : {n : ℕ} (s : Replica W N) → Inv os b base log final n s → ballot_is_valid s b ≡ true
  unfolding ballot_is_valid
  valid s v =
      ground (arith, v.highest, v.normal, ltb_ballot_irrefl b, eqb_ballot_iff b s.normal_ballot)

  unfoldable pub stay :
      (n : ℕ) (s : Replica W N) → Inv os b base log final n s → Advance n s Nothing (ok s)
  stay n s v = record {
    n' = n;
    t = s;
    ends = refl;
    inv = v;
    keeps = λ j h. h;
    takes = λ j h x. absurd x;
    only = λ j h. inl h;
    so_far = λ first h. h;
  }

  -- The next write of the log is redone as the specification has it.
  pub visit_next_lem :
      (n : ℕ) (m : ClientMsg) (s : Replica W N)
      → Inv os b base log final n s
      → get_elem? log n ≡ some m
      → (u : Store W) × (visit_next fuel os tls m s
          ≡ ok (record s { store = u; written = s.written +ℤ pos 1 }))
        × (redo_all os (drop (suc n) log) u ≡ ok final)
        × (redo os m s.store ≡ ok u)
  unfolding visit_next redo_all
  visit_next_lem n m s v e =
      let (u, redone, others) =
        >>=-eq-ok (redo os m s.store) (λ t. redo_all os (drop (suc n) log) t)
          (rw (get_elem?-drop n log m e) at v.rest) in
      (u, rw (visit-write fuel os tls m s (is_log.writes n m e), redone) refl, others, redone)

  -- The bookkeeping behind a redone write.
  pub advanced :
      (n : ℕ) (s : Replica W N) (u : Store W) (p : IntMap ClientMsg)
      → Inv os b base log final n s
      → n < length log
      → redo_all os (drop (suc n) log) u ≡ ok final
      → ((k : ℤ) (m : ClientMsg) → find k p ≡ some m → find k s.pending_writes ≡ some m)
      → Inv os b base log final
          (suc n)
          (record s { store = u; written = s.written +ℤ pos 1; pending_writes = p })
  advanced n s u p v h others sub = record {
    at = ap (λ w. w +ℤ pos 1) v.at ∙ +ℤ-suc base n;
    within = h;
    highest = v.highest;
    normal = v.normal;
    idle = v.idle;
    rest = others;
    pending = λ k m e. v.pending k m (sub k m e);
  }
