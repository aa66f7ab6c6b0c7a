-- ===== src/Shared/Messages/Stream.antt =====
-- shared/fuse_messages.hpp: what a client of one ballot sends to its replicas, writes and fsyncs.
use disk_tees.Prelude.{
  ℤ, pos, ◌+ℤ◌, ◌≡◌, refl, ◌⊎◌, inl, inr, Bool, true, false, List, [], ◌∷◌, ◌++◌, if◌then◌else◌,
}
use disk_tees.Shared.Ballot.{Ballot}
use disk_tees.Shared.Messages.{ClientMsg, FuseFileInfoLite}
use disk_tees.Shared.Messages.Kind.{get_client_msg_type, get_seq, get_ballot, ClientMsgType}

abbrev pub is_write : ClientMsgType → Bool
is_write ClientMsgType.write = true
is_write _ = false

-- The writes among some messages, in their order.
unfoldable pub writes_in : List ClientMsg → List ClientMsg
writes_in [] = []
writes_in (m ∷ ms) =
    let rest = writes_in ms in if is_write (get_client_msg_type m) then m ∷ rest else rest

-- The write behind number `n`.
pub record IsNextWrite (b : Ballot) (n : ℤ) (m : ClientMsg) : Type 0 where
  pub kind : get_client_msg_type m ≡ ClientMsgType.write
  pub seq : get_seq m ≡ n +ℤ pos 1
  pub ballot : get_ballot m ≡ b

-- An fsync of the writes up to number `n`.
unfoldable pub IsSync : Ballot → ℤ → ClientMsg → Type 0
IsSync b n m = (fi : FuseFileInfoLite) × (m ≡ ClientMsg.fsync (record { seq = n; r = b; fi = fi }))

-- From number `n` on to `k`: writes of ballot `b` with the numbers in between, without a gap, and fsyncs in between
-- that carry the number of the last write before them.
unfoldable pub IsStream : Ballot → ℤ → List ClientMsg → ℤ → Type 0
IsStream b n [] k = n ≡ k
IsStream b n (m ∷ ms) k =
    (IsNextWrite b n m × IsStream b (n +ℤ pos 1) ms k) ⊎ (IsSync b n m × IsStream b n ms k)

pub write-IsStream :
    (b : Ballot) (n k : ℤ) (ms : List ClientMsg) (m : ClientMsg)
    → IsStream b n ms k
    → IsNextWrite b k m
    → IsStream b n (ms ++ m ∷ []) (k +ℤ pos 1)
unfolding IsStream
write-IsStream b n k [] m e h = inl (rw e h, rw e refl)
write-IsStream b n k (x ∷ xs) m (inl (w, v)) h = inl (w, write-IsStream b (n +ℤ pos 1) k xs m v h)
write-IsStream b n k (x ∷ xs) m (inr (w, v)) h = inr (w, write-IsStream b n k xs m v h)

pub sync-IsStream :
    (b : Ballot) (n k : ℤ) (ms : List ClientMsg) (m : ClientMsg)
    → IsStream b n ms k
    → IsSync b k m
    → IsStream b n (ms ++ m ∷ []) k
unfolding IsStream
sync-IsStream b n k [] m e h = inr (rw e h, e)
sync-IsStream b n k (x ∷ xs) m (inl (w, v)) h = inl (w, sync-IsStream b (n +ℤ pos 1) k xs m v h)
sync-IsStream b n k (x ∷ xs) m (inr (w, v)) h = inr (w, sync-IsStream b n k xs m v h)
