-- ===== src/Replica/Main.antt =====
-- replica/main.cpp: the loop of the replica, over the rounds that it makes. What a round finds is given: the
-- messages of its event loop, and the times at which the clock is read.
use disk_tees.Prelude.{ℕ, List, [], ◌∷◌, Bytes, Outcome, ok, threw, ◌>>=◌}
use disk_tees.Shared.Os.{Os}
use disk_tees.Shared.Transport.{Transport}
use disk_tees.Shared.Messages.{ClientMsg, ReplicaMsg}
use disk_tees.Replica.State.{Replica}
use disk_tees.Replica.Buffer.{buffer_msg, process_pending_messages, check_fsync_timeout}

pub record Arrival : Type 0 where
  pub now : ℕ
  pub msg : ClientMsg
  pub addr : Bytes

-- In any number and order: `runEventLoopOnce` finds at most one message of a connection in a round.
pub record Round : Type 0 where
  pub arrivals : List Arrival
  pub now : ℕ

module _ {W N : Type 0} (fuel : ℕ) (os : Os W) (tls : Transport ReplicaMsg N) where
  -- `runEventLoopOnce` of shared/tls.cpp: an exception of the callback closes the connection that the message
  -- came by, and goes no further.
  unfoldable pub caught : Bytes → Outcome (Replica W N) → Outcome (Replica W N)
  caught addr (threw t) = ok (record t { net = tls.close_socket addr t.net })
  caught addr other = other

  unfoldable pub take_all : List Arrival → Replica W N → Outcome (Replica W N)
  unfolding caught buffer_msg
  take_all [] s = ok s
  take_all (a ∷ arrivals) s =
      caught a.addr (buffer_msg fuel os tls a.now a.msg a.addr s) >>= λ t. take_all arrivals t

  -- The body of `while (true)`; nothing catches what the two other calls throw.
  unfoldable pub serve_round : ℕ → Round → Replica W N → Outcome (Replica W N)
  unfolding take_all process_pending_messages check_fsync_timeout
  serve_round rounds x s = take_all x.arrivals s >>= λ t.
      process_pending_messages fuel os tls rounds t >>= λ u. check_fsync_timeout tls x.now u

  unfoldable pub serve : ℕ → List Round → Replica W N → Outcome (Replica W N)
  unfolding serve_round
  serve rounds [] s = ok s
  serve rounds (x ∷ xs) s = serve_round rounds x s >>= λ t. serve rounds xs t
