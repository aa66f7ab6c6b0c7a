-- ===== src/Client/Reports.antt =====
-- client/client_fuse.cpp: which numbers the replicas have acknowledged in a history of a client.
use disk_tees.Prelude.{
  ◌≤ℤ◌, ℤ, pos, map, ◌++◌, ◌<ℤ◌, ltb_ℤ, ltb_ℤ_iff, ◌==ℤ◌, eqb_ℤ_iff, ◌≡◌, refl, sym, ◌⊎◌, inl, inr,
  false, List, [], ◌∷◌, Bytes, All, All-mono, arith, Bool-cases,
}
use disk_tees.Shared.IntMap.{IntMap, put}
use disk_tees.Shared.Messages.{ReplicaMsg, fsync_ack}
use disk_tees.Client.Trace.{Call}
use disk_tees.Client.Kept.{Allowed}
use disk_tees.Client.Acks.{HasQuorum, supporters}
use disk_tees.Client.Calls.Fsync.{Rounds}

-- The keys of a map rise from entry to entry.
unfoldable pub IsSorted : {V : Type 0} → IntMap V → Type 0
IsSorted [] = Unit
IsSorted ((k, v) ∷ m) = All (λ e. k <ℤ e.0) m × IsSorted m

-- A property of each entry.
pub All-put_entry :
    {V : Type 0} (P : ℤ × V → Type 0) (k : ℤ) (v : V) (m : IntMap V)
    → P (k, v)
    → All P m
    → All P (put k v m)
unfolding put
All-put_entry P k v [] h hs = (h, hs)
All-put_entry P k v ((j, w) ∷ m) h (h', hs) = elim (Bool-cases (j ==ℤ k)) [
  | inl e ↦ rw e (h, hs)
  | inr e ↦ rw e (elim (Bool-cases (ltb_ℤ k j)) [
    | inl e' ↦ rw e' (h, (h', hs))
    | inr e' ↦ rw e' (h', All-put_entry P k v m h hs)
  ])
]

above_of : (j k : ℤ) → (j ==ℤ k) ≡ false → ltb_ℤ k j ≡ false → j <ℤ k
unfolding ◌==ℤ◌ ltb_ℤ
above_of j k e e' = ground arith

pub put-IsSorted : {V : Type 0} (k : ℤ) (v : V) (m : IntMap V) → IsSorted m → IsSorted (put k v m)
unfolding put IsSorted
put-IsSorted k v [] h = (tt, tt)
put-IsSorted k v ((j, w) ∷ m) (h, hs) = elim (Bool-cases (j ==ℤ k)) [
  | inl e ↦ rw e (rw (sym ((eqb_ℤ_iff j k).0 e)) h, hs)
  | inr e ↦ rw e (elim (Bool-cases (ltb_ℤ k j)) [
    | inl e' ↦
        let below = (ltb_ℤ_iff k j).0 e' in
        rw e' ((below, All-mono _ _ m (λ x b. omega (arith, below, b)) h), (h, hs))
    | inr e' ↦
        let above = above_of j k e e' in
        rw e' (All-put_entry (λ x. j <ℤ x.0) k v m above h, put-IsSorted k v m hs)
  ])
]

-- An acknowledgement of `w` by the replica `id` is among the messages.
AckedIn : List (Bytes × ReplicaMsg) → ℤ → ℤ → Type 0
AckedIn [] id w = ⊥
AckedIn ((addr, fsync_ack a) ∷ ms) id w = ((a.id ≡ id) × (a.written ≡ w)) ⊎ AckedIn ms id w
AckedIn ((addr, other) ∷ ms) id w = AckedIn ms id w

AckedDuring : Rounds → ℤ → ℤ → Type 0
unfolding AckedIn
AckedDuring [] id w = ⊥
AckedDuring (ms ∷ rounds) id w = AckedIn ms id w ⊎ AckedDuring rounds id w

AckedBy : Call → ℤ → ℤ → Type 0
unfolding AckedIn AckedDuring
AckedBy (Call.messages ms) id w = AckedIn ms id w
AckedBy (Call.fsync isdatasync fi start end rounds) id w = AckedDuring rounds id w
AckedBy other id w = ⊥

-- The client has heard in its history that the replica `id` has written `w`.
pub Acked : List Call → ℤ → ℤ → Type 0
unfolding AckedBy
Acked [] id w = ⊥
Acked (k ∷ ks) id w = AckedBy k id w ⊎ Acked ks id w

-- Numbers of different replicas, each acknowledged.
pub record IsReport (Q : ℤ → ℤ → Type 0) (all : IntMap ℤ) : Type 0 where
  pub sorted : IsSorted all
  pub acked : All (λ e. Q e.0 e.1) all

-- Nothing is committed, or a quorum of the replicas has acknowledged `w` or more.
unfoldable pub IsBacked : (ℤ → ℤ → Type 0) → ℤ → ℤ → Type 0
IsBacked Q quorum w =
    (w ≡ pos 0) ⊎ (all : IntMap ℤ) × IsReport Q all × (quorum ≤ℤ pos (supporters w all))

pub report-IsBacked :
    (Q : ℤ → ℤ → Type 0) (q q' : ℤ) (all all' : IntMap ℤ) (w : ℤ)
    → q ≡ q'
    → all ≡ all'
    → IsReport Q all'
    → HasQuorum q all w
    → IsBacked Q q' w
unfolding IsBacked
report-IsBacked Q q q' all all' w e1 e2 report h = inr (all', report, rw (sym e1, sym e2) h)

pub Acked-before : (ks ls : List Call) (id w : ℤ) → Acked ks id w → Acked (ks ++ ls) id w
unfolding Acked
Acked-before [] ls id w h = absurd h
Acked-before (k ∷ ks) ls id w (inl h) = inl h
Acked-before (k ∷ ks) ls id w (inr h) = inr (Acked-before ks ls id w h)

pub Acked-behind : (ks ls : List Call) (id w : ℤ) → Acked ls id w → Acked (ks ++ ls) id w
unfolding Acked
Acked-behind [] ls id w h = h
Acked-behind (k ∷ ks) ls id w h = inr (Acked-behind ks ls id w h)

-- What is heard are acknowledgements of `Q`, or other messages.
unfoldable pub Says : (ℤ → ℤ → Type 0) → Bytes × ReplicaMsg → Type 0
Says Q (addr, fsync_ack a) = Q a.id a.written
Says Q (addr, other) = Unit

in-Says :
    (Q : ℤ → ℤ → Type 0) (ms : List (Bytes × ReplicaMsg))
    → ((id w : ℤ) → AckedIn ms id w → Q id w)
    → All (Says Q) ms
unfolding AckedIn Says
in-Says Q [] h = tt
in-Says Q ((addr, fsync_ack a) ∷ ms) h =
    (h a.id a.written (inl (refl, refl)), in-Says Q ms (λ id w x. h id w (inr x)))
in-Says Q ((addr, other) ∷ ms) h = (tt, in-Says Q ms h)

during-Says :
    (Q : ℤ → ℤ → Type 0) (rounds : Rounds)
    → ((id w : ℤ) → AckedDuring rounds id w → Q id w)
    → All (All (Says Q)) rounds
unfolding AckedDuring
during-Says Q [] h = tt
during-Says Q (ms ∷ rounds) h =
    (in-Says Q ms (λ id w x. h id w (inl x)), during-Says Q rounds (λ id w x. h id w (inr x)))

pub all-Allowed :
    (Q : ℤ → ℤ → Type 0) (ks : List Call)
    → ((id w : ℤ) → Acked ks id w → Q id w)
    → Allowed (Says Q) ks
unfolding Acked AckedBy
all-Allowed Q [] h = tt
all-Allowed Q (Call.messages ms ∷ ks) h =
    (in-Says Q ms (λ id w x. h id w (inl x)), all-Allowed Q ks (λ id w x. h id w (inr x)))
all-Allowed Q (Call.fsync isdatasync fi start end rounds ∷ ks) h =
    (during-Says Q rounds (λ id w x. h id w (inl x)), all-Allowed Q ks (λ id w x. h id w (inr x)))
all-Allowed Q (other ∷ ks) h = (tt, all-Allowed Q ks (λ id w x. h id w (inr x)))

pub rounds-All :
    (Q : ℤ → ℤ → Type 0) (rounds : Rounds)
    → ((id w : ℤ) → Acked (map Call.messages rounds) id w → Q id w)
    → All (All (Says Q)) rounds
unfolding Acked AckedBy
rounds-All Q [] h = tt
rounds-All Q (ms ∷ rounds) h =
    (in-Says Q ms (λ id w x. h id w (inl x)), rounds-All Q rounds (λ id w x. h id w (inr x)))
