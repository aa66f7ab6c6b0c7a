-- ===== src/Replica/Replay/Arrived.antt =====
-- The writes of a ballot while some of them have not arrived: the replica has redone the longest prefix that has.
use disk_tees.Prelude.{
  ℕ, zero, suc, ◌+◌, ◌≤◌, ◌<◌, ℤ, pos, ◌+ℤ◌, Bool, true, false, ◌||◌, ◌==◌, ==_iff, ◌≡◌, refl, ◌↔◌,
  inl, inr, List, [], ◌∷◌, ◌++◌, ok, take, length-take, length, arith, if◌then◌else◌, Bool-cases,
}
use disk_tees.Shared.Ballot.{Ballot}
use disk_tees.Shared.Os.{Os}
use disk_tees.Shared.Transport.{Transport}
use disk_tees.Shared.Messages.{ClientMsg, ReplicaMsg}
use disk_tees.Replica.Store.{Store}
use disk_tees.Replica.State.{Replica}
use disk_tees.Replica.Replay.{redo_all, IsLog, Event, deliver, process, step, run, Arrives}
use disk_tees.Replica.Replay.Drain.{process-Advance, ready-Held}
use disk_tees.Replica.Replay.Order.{IsReady, run-Advance, run-append, ready-Inv, nothing-Held}

-- Whether message `i` is delivered somewhere in the schedule.
arrives : ℕ → List Event → Bool
arrives i [] = false
arrives i (deliver now addr j ∷ es) = i == j || arrives i es
arrives i (process ∷ es) = arrives i es

arrived_from : List Event → ℕ → List ClientMsg → List ClientMsg
arrived_from es i [] = []
arrived_from es i (m ∷ ms) =
    let rest = arrived_from es (suc i) ms in if arrives i es then m ∷ rest else []

-- The messages of the log up to the first that the schedule does not deliver.
unfoldable pub arrived : List Event → List ClientMsg → List ClientMsg
unfolding arrives arrived_from
arrived es log = arrived_from es 0 log

arrives_iff : (i : ℕ) (es : List Event) → (arrives i es ≡ true) ↔ Arrives i es
unfolding arrives
arrives_iff i [] = ground arith
arrives_iff i (deliver now addr j ∷ es) = ground (arith, ==_iff i j, arrives_iff i es)
arrives_iff i (process ∷ es) = arrives_iff i es

-- `n` is where the first message is missing.
arrived_from_lem :
    (es : List Event) (i n : ℕ) (ms : List ClientMsg)
    → ((j : ℕ) → j < n → Arrives (i + j) es)
    → n ≤ length ms
    → (n < length ms → ¬ Arrives (i + n) es)
    → arrived_from es i ms ≡ take n ms
unfolding arrived_from
arrived_from_lem es i zero [] all h missing = refl
arrived_from_lem es i (suc n) [] all h missing = absurd (omega arith)
arrived_from_lem es i zero (m ∷ ms) all h missing = elim (Bool-cases (arrives i es)) [
  | inl e ↦ absurd (missing (omega arith) (rw (i_zero) ((arrives_iff i es).0 e)))
  | inr e ↦ rw e refl
]
  where
    i_zero : i + 0 ≡ i
    i_zero = omega arith
arrived_from_lem es i (suc n) (m ∷ ms) all h missing =
    let next : (j : ℕ) → suc i + j ≡ i + suc j = λ j. omega arith in
    let here : arrives i es ≡ true =
      (arrives_iff i es).1 (rw (let e : i ≡ i + 0 = omega arith in e) (all 0 (omega arith))) in
    let rest : arrived_from es (suc i) ms ≡ take n ms =
      arrived_from_lem es (suc i) n ms (λ j k. rw (next j) (all (suc j) (omega arith)))
        (omega arith) (λ k. rw (next n) (missing (omega arith))) in
    rw (here, rest) refl

arrived_lem :
    (es : List Event) (n : ℕ) (log : List ClientMsg)
    → ((j : ℕ) → j < n → Arrives j es)
    → n ≤ length log
    → (n < length log → ¬ Arrives n es)
    → arrived es log ≡ take n log
unfolding arrived
arrived_lem es n log came within missing =
    let same : (j : ℕ) → 0 + j ≡ j = λ j. omega arith in
    arrived_from_lem es 0 n log (λ j h. rw (same j) (came j h)) within
      (λ h. rw (same n) (missing h))

length-arrived_from :
    (es : List Event) (i : ℕ) (ms : List ClientMsg) → length (arrived_from es i ms) ≤ length ms
unfolding arrived_from
length-arrived_from es i [] = omega arith
length-arrived_from es i (m ∷ ms) = ground (arith, length-arrived_from es (suc i) ms)

pub length-arrived : (es : List Event) (log : List ClientMsg) → length (arrived es log) ≤ length log
unfolding arrived
length-arrived es log = length-arrived_from es 0 log

-- Let the writes of ballot `b` be numbered from `base + 1` on, and let redoing them in that order on the replica's
-- store end well. Then every schedule that ends in `processPendingMessages`, whichever of them it delivers, in any
-- order and with repetitions, ends well, with the replica's store as the writes before the first that has not arrived
-- make it, and with `written` at the last of these.
pub arrived_are_redone :
    {W N : Type 0} (fuel : ℕ) (os : Os W) (tls : Transport ReplicaMsg N) (b : Ballot) (base : ℤ)
    (log : List ClientMsg) (final : Store W) (es : List Event) (s : Replica W N)
    → IsLog b base log
    → IsReady b base s
    → redo_all os log s.store ≡ ok final
    → (t : Replica W N) × (run fuel os tls log (es ++ process ∷ []) s ≡ ok t)
      × (redo_all os (arrived es log) s.store ≡ ok t.store)
      × (t.written ≡ base +ℤ pos (length (arrived es log)))
unfolding redo_all step run
arrived_are_redone fuel os tls b base log final es s is_log v h =
    let start = ready-Inv fuel os tls b base log final is_log s v h in
    let a = run-Advance fuel os tls b base log final is_log es 0 s start in
    let (c, quiet) = process-Advance fuel os tls b base log final is_log a.n' a.t a.inv in
    let came : (j : ℕ) → j < c.n' → Arrives j es = λ j k. elim (c.only j (inl k)) [
      | inl held ↦ (elim (a.only j held) [
        | inl before ↦ absurd (nothing-Held base s v j before)
        | inr there ↦ there
      ])
      | inr none ↦ absurd none
    ] in
    let missing : c.n' < length log → ¬ Arrives c.n' es = λ k there.
      ready-Held fuel os tls b base log final is_log c.n' c.t c.inv quiet
        (c.keeps c.n' (a.takes c.n' k there)) in
    let prefix = arrived_lem es c.n' log came c.inv.within missing in
    (
      c.t,
      rw (run-append fuel os tls log es (process ∷ []) s, a.ends, c.ends) refl,
      rw prefix (c.so_far s.store (a.so_far s.store refl)),
      rw (prefix, length-take c.n' log c.inv.within) (c.inv.at),
    )
