-- ===== src/Replica/Replay.antt =====
-- What the replica makes of the writes of one ballot: the log that the client sends, the schedules in
-- which it can arrive, and the plain loop that the reordering amounts to.
pub mod Invariant
pub mod Steps
pub mod Drain
pub mod Order
pub mod Arrived
pub mod Taking
pub mod Streamed
use disk_tees.Prelude.{
  ℕ, zero, suc, ℤ, pos, ◌+ℤ◌, ◌≡◌, Option, none, some, ◌⊎◌, List, [], ◌∷◌, Bytes, Outcome, ok,
  ◌>>=◌, get_elem?, length,
}
use disk_tees.Shared.Ballot.{Ballot}
use disk_tees.Shared.Os.{Os}
use disk_tees.Shared.Transport.{Transport}
use disk_tees.Shared.Messages.{ClientMsg, ReplicaMsg}
use disk_tees.Shared.Messages.Kind.{get_client_msg_type, get_seq, get_ballot, ClientMsgType}
use disk_tees.Replica.Store.{Store}
use disk_tees.Replica.State.{Replica}
use disk_tees.Replica.Buffer.{redo, buffer_msg, process_pending_messages}

-- The specification: redo the messages one after the other.
unfoldable pub redo_all : {W : Type 0} → Os W → List ClientMsg → Store W → Outcome (Store W)
redo_all os [] s = ok s
redo_all os (m ∷ ms) s = redo os m s >>= λ t. redo_all os ms t

-- The writes of ballot `b` behind the number `base`, numbered without a gap.
pub record IsLog (b : Ballot) (base : ℤ) (log : List ClientMsg) : Type 0 where
  pub numbered :
      (i : ℕ) (m : ClientMsg) → get_elem? log i ≡ some m → get_seq m ≡ base +ℤ pos (suc i)
  pub voted : (i : ℕ) (m : ClientMsg) → get_elem? log i ≡ some m → get_ballot m ≡ b
  pub writes :
      (i : ℕ) (m : ClientMsg)
      → get_elem? log i ≡ some m
      → get_client_msg_type m ≡ ClientMsgType.write

-- What happens to the replica while the ballot lasts: a message of the log arrives, which may be late,
-- early or a repetition, or the event loop comes to `processPendingMessages`.
pub data Event : Type 0 where
  deliver : (now : ℕ) (addr : Bytes) (i : ℕ) → Event
  process : Event

module _ {W N : Type 0} (fuel : ℕ) (os : Os W) (tls : Transport ReplicaMsg N) where
  -- An index beyond the log stands for no message.
  pub step : List ClientMsg → Event → Replica W N → Outcome (Replica W N)
  step log (deliver now addr i) s = elim (get_elem? log i) [
    | none ↦ ok s
    | some m ↦ buffer_msg fuel os tls now m addr s
  ]
  step log process s = process_pending_messages fuel os tls (suc (length s.pending_writes)) s

  pub run : List ClientMsg → List Event → Replica W N → Outcome (Replica W N)
  unfolding step
  run log [] s = ok s
  run log (e ∷ es) s = step log e s >>= λ t. run log es t

-- Message `i` is delivered somewhere in the schedule.
abbrev pub Arrives : ℕ → List Event → Type 0
Arrives i [] = ⊥
Arrives i (deliver now addr j ∷ es) = (i ≡ j) ⊎ Arrives i es
Arrives i (process ∷ es) = Arrives i es
