-- ===== src/Client/Trace/Writes.antt =====
-- client/client_fuse.cpp: the writes among the messages that a client has broadcast.
use mathlib.Core.List.{append-nil}
use disk_tees.Prelude.{
  ℕ, zero, suc, ℤ, pos, ◌+ℤ◌, ◌≡◌, refl, ◌⊎◌, inl, inr, some, List, [], ◌∷◌, ◌++◌, ap, ◌∙◌, map,
  get_elem?, length, arith, if◌then◌else◌,
}
use disk_tees.Shared.Ballot.{Ballot}
use disk_tees.Shared.NetworkConfig.{Addresses}
use disk_tees.Shared.Transport.{Transport, IsTransport}
use disk_tees.Shared.Messages.{ClientMsg, FsyncParams}
use disk_tees.Shared.Messages.Kind.{get_client_msg_type, get_seq, get_ballot, ClientMsgType}
use disk_tees.Shared.Messages.Stream.{is_write, writes_in}
use disk_tees.Replica.Replay.{IsLog}

-- The writes among the messages that were broadcast, oldest first.
unfoldable pub writes_of : List (ClientMsg × Addresses) → List ClientMsg
writes_of [] = []
writes_of ((m, ds) ∷ rest) =
    let later = writes_of rest in if is_write (get_client_msg_type m) then m ∷ later else later

-- The messages that were broadcast, to whatever replicas.
abbrev pub messages_of : List (ClientMsg × Addresses) → List ClientMsg
messages_of bs = map (λ p. p.0) bs

pub writes_in_messages :
    (bs : List (ClientMsg × Addresses)) → writes_in (messages_of bs) ≡ writes_of bs
unfolding writes_in writes_of
writes_in_messages [] = refl
writes_in_messages ((m, ds) ∷ bs) = rw (writes_in_messages bs) refl

messages_of-append :
    (xs ys : List (ClientMsg × Addresses))
    → messages_of (xs ++ ys) ≡ messages_of xs ++ messages_of ys
messages_of-append [] ys = refl
messages_of-append ((m, ds) ∷ xs) ys = ap (λ ms. m ∷ ms) (messages_of-append xs ys)

-- A message that is broadcast is the last.
pub messages_of-broadcast :
    {N : Type 0} (tls : Transport ClientMsg N)
    → IsTransport tls
    → (m : ClientMsg) (ds : Addresses) (n : N)
    → messages_of (tls.broadcasts (tls.broadcast m ds n)) ≡ messages_of (tls.broadcasts n) ++ m ∷ []
messages_of-broadcast tls laws m ds n =
    ap messages_of (laws.broadcasts-broadcast m ds n)
    ∙ messages_of-append (tls.broadcasts n) ((m, ds) ∷ [])

writes_of-append :
    (xs ys : List (ClientMsg × Addresses)) → writes_of (xs ++ ys) ≡ writes_of xs ++ writes_of ys
unfolding writes_of
writes_of-append [] ys = refl
writes_of-append ((m, ds) ∷ xs) ys = ground (arith, writes_of-append xs ys)

get_elem?-snoc :
    (log : List ClientMsg) (m x : ClientMsg) (i : ℕ)
    → get_elem? (log ++ m ∷ []) i ≡ some x
    → (get_elem? log i ≡ some x) ⊎ ((i ≡ length log) × (m ≡ x))
get_elem?-snoc [] m x zero e = inr (refl, ground arith)
get_elem?-snoc [] m x (suc i) e = inl e
get_elem?-snoc (y ∷ ys) m x zero e = inl e
get_elem?-snoc (y ∷ ys) m x (suc i) e = ground (arith, get_elem?-snoc ys m x i)

pub IsLog-snoc :
    (b : Ballot) (base : ℤ) (log : List ClientMsg) (m : ClientMsg)
    → IsLog b base log
    → get_seq m ≡ base +ℤ pos (suc (length log))
    → get_ballot m ≡ b
    → get_client_msg_type m ≡ ClientMsgType.write
    → IsLog b base (log ++ m ∷ [])
IsLog-snoc b base log m v n r k = record {
  numbered = λ i x e. ground (arith, get_elem?-snoc log m x i e, v.numbered i x);
  voted = λ i x e. ground (arith, get_elem?-snoc log m x i e, v.voted i x);
  writes = λ i x e. ground (arith, get_elem?-snoc log m x i e, v.writes i x);
}

pub empty-IsLog : (b : Ballot) (base : ℤ) → IsLog b base []
empty-IsLog b base = record { numbered = λ i x e. cc; voted = λ i x e. cc; writes = λ i x e. cc }

-- An fsync that is broadcast is none of the writes.
pub writes_of-fsync :
    {N : Type 0} (tls : Transport ClientMsg N)
    → IsTransport tls
    → (p : FsyncParams) (ds : Addresses) (n : N)
    → writes_of (tls.broadcasts (tls.broadcast (ClientMsg.fsync p) ds n))
      ≡ writes_of (tls.broadcasts n)
unfolding writes_of get_client_msg_type
writes_of-fsync tls laws p ds n =
    ap writes_of (laws.broadcasts-broadcast (ClientMsg.fsync p) ds n)
    ∙ writes_of-append (tls.broadcasts n) ((ClientMsg.fsync p, ds) ∷ [])
    ∙ append-nil (writes_of (tls.broadcasts n))

-- A write that is broadcast is the last.
pub writes_of-broadcast :
    {N : Type 0} (tls : Transport ClientMsg N)
    → IsTransport tls
    → (m : ClientMsg) (ds : Addresses) (n : N) → get_client_msg_type m ≡ ClientMsgType.write
    → writes_of (tls.broadcasts (tls.broadcast m ds n)) ≡ writes_of (tls.broadcasts n) ++ m ∷ []
unfolding writes_of
writes_of-broadcast tls laws m ds n kind =
    rw
      (
        laws.broadcasts-broadcast m ds n,
        writes_of-append (tls.broadcasts n) ((m, ds) ∷ []),
        writes_of,
        kind,
      )
      refl
