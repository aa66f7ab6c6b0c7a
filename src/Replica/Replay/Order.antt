-- ===== src/Replica/Replay/Order.antt =====
-- The writes of a ballot are redone in their order, whatever the order of their arrival.
use mathlib.Core.Path.{subst, fun_ext}
use native.Mathlib.Decide.{dec_lt}
use disk_tees.Prelude.{
  ℕ, zero, suc, ◌<◌, ℤ, pos, ◌+ℤ◌, leb_ℤ, ◌≡◌, refl, sym, ap, ◌∙◌, ◌⊎◌, inl, inr, true, false, none,
  some, List, [], ◌∷◌, ◌++◌, Outcome, ok, ◌>>=◌, get_elem?, length, drop, arith, >>=_assoc,
  Option-cases, +ℤ-zero,
}
use disk_tees.Shared.Ballot.{Ballot}
use disk_tees.Shared.IntMap.{contains, find}
use disk_tees.Shared.Os.{Os}
use disk_tees.Shared.Transport.{Transport}
use disk_tees.Shared.Messages.{ClientMsg, ReplicaMsg}
use disk_tees.Replica.Store.{Store}
use disk_tees.Replica.State.{Replica}
use disk_tees.Replica.Replay.{redo_all, IsLog, Event, deliver, process, step, run, Arrives}
use disk_tees.Replica.Replay.Invariant.{
  Inv, Held, Advance, Advance-mono, Advance-trans, Nothing, stay,
}
use disk_tees.Replica.Replay.Steps.{buffer_msg-Advance}
use disk_tees.Replica.Replay.Drain.{process-Advance, ready-Held}
use disk_tees.Replica.Buffer.{ready}

-- The replica has accepted ballot `b` at `base`, holds nothing back, and owes no acknowledgement.
pub record IsReady {W N : Type 0} (b : Ballot) (base : ℤ) (s : Replica W N) : Type 0 where
  pub at : s.written ≡ base
  pub highest : s.highest_ballot ≡ b
  pub normal : s.normal_ballot ≡ b
  pub idle : leb_ℤ s.last_fsync.seq s.last_acked_write ≡ true
  pub empty : s.pending_writes ≡ []

drop-length : {A : Type 0} (xs : List A) → drop (length xs) xs ≡ []
drop-length [] = refl
drop-length (x ∷ xs) = drop-length xs

get_elem?-some :
    {A : Type 0} (xs : List A) (i : ℕ) → i < length xs → (x : A) × (get_elem? xs i ≡ some x)
get_elem?-some [] i h = elim h [ ]
get_elem?-some (x ∷ xs) zero h = (x, refl)
get_elem?-some (x ∷ xs) (suc i) h = get_elem?-some xs i (omega arith)

Arrives-cases :
    (i : ℕ) (e : Event) (es : List Event) → Arrives i (e ∷ es) → Arrives i (e ∷ []) ⊎ Arrives i es
Arrives-cases i (deliver now addr j) es (inl x) = inl (inl x)
Arrives-cases i (deliver now addr j) es (inr x) = inr x
Arrives-cases i process es x = inr x

Arrives-first :
    (i : ℕ) (e : Event) (es : List Event) → Arrives i (e ∷ []) ⊎ Arrives i es → Arrives i (e ∷ es)
Arrives-first i (deliver now addr j) es (inl (inl x)) = inl x
Arrives-first i (deliver now addr j) es (inl (inr x)) = absurd x
Arrives-first i (deliver now addr j) es (inr x) = inr x
Arrives-first i process es (inl x) = absurd x
Arrives-first i process es (inr x) = x

module _ {W N : Type 0} (fuel : ℕ) (os : Os W) (tls : Transport ReplicaMsg N) (b : Ballot)
    (base : ℤ) (log : List ClientMsg) (final : Store W) (is_log : IsLog b base log) where
  abbrev Advanced : ℕ → Replica W N → (ℕ → Type 0) → Outcome (Replica W N) → Type 0
  Advanced = Advance fuel os tls b base log final is_log

  step-Advance :
      (n : ℕ) (s : Replica W N) (e : Event)
      → Inv os b base log final n s
      → Advanced n s (λ j. Arrives j (e ∷ [])) (step fuel os tls log e s)
  unfolding step stay
  step-Advance n s (deliver now addr i) v = elim (Option-cases (get_elem? log i)) [
    | inl e ↦
        rw (e, step)
          (Advance-mono fuel os tls b base log final is_log Nothing _
            (λ j h (x : (j ≡ i) ⊎ ⊥). let (m, there) = get_elem?-some log j h in ground arith)
            (λ j x. absurd x) (stay fuel os tls b base log final is_log n s v))
    | inr (m, e) ↦
        rw (e, step)
          (Advance-mono fuel os tls b base log final is_log (λ j. j ≡ i) _
            (λ j h (x : (j ≡ i) ⊎ ⊥). elim x [ inl same ↦ same | inr z ↦ absurd z ]) (λ j x. inl x)
            (buffer_msg-Advance fuel os tls b base log final is_log n i now m addr s v e))
  ]
  step-Advance n s process v = (process-Advance fuel os tls b base log final is_log n s v).0

  pub run-Advance :
      (es : List Event) (n : ℕ) (s : Replica W N)
      → Inv os b base log final n s
      → Advanced n s (λ j. Arrives j es) (run fuel os tls log es s)
  unfolding run stay
  run-Advance [] n s v = stay fuel os tls b base log final is_log n s v
  run-Advance (e ∷ es) n s v =
      let a = step-Advance n s e v in
      Advance-mono fuel os tls b base log final is_log _ _ (λ j h x. Arrives-cases j e es x)
        (λ j x. Arrives-first j e es x)
        (Advance-trans fuel os tls b base log final is_log _ _ (run fuel os tls log es) a
          (run-Advance es a.n' a.t a.inv))

  nothing_pending :
      (s : Replica W N)
      → IsReady b base s
      → (k : ℤ) (m : ClientMsg) → find k s.pending_writes ≡ some m
      → ⊥
  unfolding find
  nothing_pending s v k m e =
      let h : find k [] ≡ some m = subst (λ p. find k p ≡ some m) v.empty e in cc

  pub ready-Inv :
      (s : Replica W N)
      → IsReady b base s
      → redo_all os log s.store ≡ ok final
      → Inv os b base log final 0 s
  ready-Inv s v h = record {
    at = v.at ∙ sym (+ℤ-zero base);
    within = omega arith;
    highest = v.highest;
    normal = v.normal;
    idle = v.idle;
    rest = h;
    pending = λ k m e. absurd (nothing_pending s v k m e);
  }

  -- Where the next write has not arrived, and all have, none is left.
  all_redone :
      (n : ℕ) (s : Replica W N)
      → Inv os b base log final n s
      → ready s ≡ none
      → (n < length log → Held base n s n)
      → n ≡ length log
  all_redone n s v e h = elim (dec_lt n (length log)) [
    | yes left ↦ absurd (ready-Held fuel os tls b base log final is_log n s v e (h left))
    | no none_left ↦ omega (arith, v.within)
  ]

pub nothing-Held :
    {W N : Type 0} {b : Ballot} (base : ℤ) (s : Replica W N)
    → IsReady b base s
    → (j : ℕ) → ¬ Held base 0 s j
unfolding contains
nothing-Held base s v j (inl h) = absurd (omega arith)
nothing-Held base s v j (inr h) = let there : false ≡ true = rw (v.empty) at h in cc

pub run-append :
    {W N : Type 0} (fuel : ℕ) (os : Os W) (tls : Transport ReplicaMsg N) (log : List ClientMsg)
    (es fs : List Event) (s : Replica W N)
    → run fuel os tls log (es ++ fs) s
      ≡ (run fuel os tls log es s >>= λ t. run fuel os tls log fs t)
unfolding run
run-append fuel os tls log [] fs s = refl
run-append fuel os tls log (e ∷ es) fs s =
    ap (λ k. step fuel os tls log e s >>= k) (fun_ext (run-append fuel os tls log es fs))
    ∙ sym (>>=_assoc (step fuel os tls log e s) _ _)

end_of_log :
    {W N : Type 0} (os : Os W) (base : ℤ) (log : List ClientMsg) (final : Store W) (n : ℕ)
    (t : Replica W N)
    → n ≡ length log
    → redo_all os (drop n log) t.store ≡ ok final
    → t.store ≡ final
unfolding redo_all
end_of_log os base log final n t e h =
    let done : redo_all os [] t.store ≡ ok final = rw (e, drop-length log) at h in cc

-- Let the writes of ballot `b` be numbered from `base + 1` on, and let redoing them in that order on the
-- replica's store end well in the store `final`. Then every schedule in which each of them arrives at
-- least once, in any order and with repetitions, and which ends in `processPendingMessages`, ends well,
-- with the replica's store at `final` and `written` at the last number.
pub run_in_order :
    {W N : Type 0} (fuel : ℕ) (os : Os W) (tls : Transport ReplicaMsg N) (b : Ballot) (base : ℤ)
    (log : List ClientMsg) (final : Store W) (es : List Event) (s : Replica W N)
    → IsLog b base log
    → IsReady b base s
    → redo_all os log s.store ≡ ok final
    → ((i : ℕ) → i < length log → Arrives i es)
    → (t : Replica W N) × (run fuel os tls log (es ++ process ∷ []) s ≡ ok t)
      × (t.store ≡ final)
      × (t.written ≡ base +ℤ pos (length log))
unfolding redo_all step run
run_in_order fuel os tls b base log final es s is_log v h all =
    let start = ready-Inv fuel os tls b base log final is_log s v h in
    let a = run-Advance fuel os tls b base log final is_log es 0 s start in
    let (c, quiet) = process-Advance fuel os tls b base log final is_log a.n' a.t a.inv in
    let n : c.n' ≡ length log =
      all_redone fuel os tls b base log final is_log c.n' c.t c.inv quiet
        (λ left. c.keeps c.n' (a.takes c.n' left (all c.n' left))) in
    (
      c.t,
      rw (run-append fuel os tls log es (process ∷ []) s, a.ends, c.ends),
      end_of_log os base log final c.n' c.t n c.inv.rest,
      c.inv.at ∙ ap (λ k. base +ℤ pos k) n,
    )
