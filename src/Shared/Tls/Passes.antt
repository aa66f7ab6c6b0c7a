-- ===== src/Shared/Tls/Passes.antt =====
-- shared/tls.cpp: what a pass of `runEventLoopOnce` leaves in `openSockets`.
use disk_tees.Prelude.{
  All-mono, ℕ, suc, ◌<◌, ltb, ℤ, ◌==ℤ◌, Bool, true, false, Option, none, some, List, [], ◌∷◌, ◌++◌,
  length, All, All-append, ◌≡◌, ap, ◌⊎◌, inl, inr, Outcome, ok, threw, exited, undefined,
  out_of_fuel, >>=-eq-ok, if-eq-ok, arith, if◌then◌else◌,
}
use disk_tees.Shared.Tls.{Openssl, Sockets, Platform, Codec, Options, Tls}
use disk_tees.Shared.Tls.Connect.{accept_connection}
use disk_tees.Shared.Tls.Loop.{
  Pass, OnRecv, receive_from, drop_socket, accepted, received, visit_socket, visit_sockets,
  modify_sockets,
}
use disk_tees.Shared.Tls.Erasing.{IsAscending, survivors, erase_indices_lem}

-- One index more, or none.
Adds : ℕ → List ℕ → List ℕ → Type 0
Adds i ds es = (es ≡ ds) ⊎ (es ≡ ds ++ i ∷ [])

IsAscending-append :
    (ds : List ℕ) (i : ℕ) → IsAscending ds → All (λ d. d < i) ds → IsAscending (ds ++ i ∷ [])
unfolding IsAscending
IsAscending-append [] i h below = (tt, tt)
IsAscending-append (d ∷ ds) i (above, h) (lt, below) =
    (All-append (λ e. d < e) ds (i ∷ []) above (lt, tt), IsAscending-append ds i h below)

module _ {S W M : Type 0} (lib : Openssl W) (os : Sockets W) (machine : Platform W)
    (codec : Codec M) (opts : Options) (on_recv : OnRecv S W M) (fuel : ℕ) where
  drop_lem :
      (i : ℕ) (sock : ℤ) (p q : Pass S W) (x : S × Tls W)
      → drop_socket lib os machine codec opts on_recv fuel i sock p x ≡ ok q
      → Adds i p.deleted q.deleted
  unfolding drop_socket Adds
  drop_lem i sock p q (s, t) e =
      elim (if-eq-ok (ltb (length p.tls.open_sockets) (length t.open_sockets)) undefined _ q e) [
        | inl (_, moved) ↦ cc
        | inr (_, done) ↦ inr (ground arith)
      ]

  accepted_lem :
      (i : ℕ) (p q : Pass S W) (o : Outcome (Option ℤ × Tls W))
      → accepted lib os machine codec opts on_recv fuel p o ≡ ok q
      → Adds i p.deleted q.deleted
  unfolding accepted Adds
  accepted_lem i p q (ok (none, t)) e = inl (ground arith)
  accepted_lem i p q (ok (some client, t)) e = inl (ground arith)
  accepted_lem i p q (threw x) e = cc
  accepted_lem i p q exited e = cc
  accepted_lem i p q undefined e = cc
  accepted_lem i p q out_of_fuel e = cc

  received_lem :
      (i : ℕ) (sock : ℤ) (p q : Pass S W) (o : Outcome (S × Tls W))
      → received lib os machine codec opts on_recv fuel i sock p o ≡ ok q
      → Adds i p.deleted q.deleted
  unfolding received Adds
  received_lem i sock p q (ok (s, t)) e = inl (ground arith)
  received_lem i sock p q (threw x) e = drop_lem i sock p q x e
  received_lem i sock p q exited e = cc
  received_lem i sock p q undefined e = cc
  received_lem i sock p q out_of_fuel e = cc

  visit_lem :
      (i : ℕ) (sock : ℤ) (p q : Pass S W)
      → visit_socket lib os machine codec opts on_recv fuel i sock p ≡ ok q
      → Adds i p.deleted q.deleted
  unfolding visit_socket
  visit_lem i sock p q e = elim (if-eq-ok (sock ==ℤ p.tls.server_socket) _ _ q e) [
    | inl (_, server) ↦ accepted_lem i p q (accept_connection lib os machine opts fuel p.tls) server
    | inr (_, peer) ↦
        received_lem i sock p q
          (receive_from lib os machine codec opts on_recv fuel sock (p.app, p.tls)) peer
  ]

  either_lem :
      (i : ℕ) (sock : ℤ) (b : Bool) (p q : Pass S W)
      → (if b then visit_socket lib os machine codec opts on_recv fuel i sock p else ok p) ≡ ok q
      → Adds i p.deleted q.deleted
  unfolding Adds
  either_lem i sock true p q e = visit_lem i sock p q e
  either_lem i sock false p q e = inl (ground arith)

  -- The indices noted so far are ascending and below the next.
  record IsNoted (i : ℕ) (p : Pass S W) : Type 0 where
    ascending : IsAscending p.deleted
    below : All (λ d. d < i) p.deleted

  noted_lem :
      (i : ℕ) (p q : Pass S W) → IsNoted i p → Adds i p.deleted q.deleted → IsNoted (suc i) q
  unfolding Adds
  noted_lem i p q h (inl same) = record {
    ascending = rw same h.ascending;
    below =
        rw same (All-mono (λ d. d < i) (λ d. d < suc i) p.deleted (λ d lt. omega arith) h.below);
  }
  noted_lem i p q h (inr one) = record {
    ascending = rw one (IsAscending-append p.deleted i h.ascending h.below);
    below = rw one (
        All-append (λ d. d < suc i) p.deleted (i ∷ [])
          (All-mono (λ d. d < i) (λ d. d < suc i) p.deleted (λ d lt. omega arith) h.below)
          (omega arith, tt));
  }

  visits_lem :
      (i : ℕ) (socks : List ℤ) (revents : List Bool) (p q : Pass S W)
      → IsNoted i p
      → visit_sockets lib os machine codec opts on_recv fuel i socks revents p ≡ ok q
      → IsAscending q.deleted
  unfolding visit_sockets
  visits_lem i [] revents p q h e = let same : p ≡ q = ground arith in rw same at h.ascending
  visits_lem i (sock ∷ socks) [] p q h e = let same : p ≡ q = ground arith in rw same at h.ascending
  visits_lem i (sock ∷ socks) (b ∷ revents) p q h e =
      let (r, first, rest) =
        >>=-eq-ok (if b then visit_socket lib os machine codec opts on_recv fuel i sock p else ok p)
          _ e in
      visits_lem (suc i) socks revents r q (noted_lem i p r h (either_lem i sock b p r first)) rest

  start : S → Tls W → Pass S W
  start s t = record { new_sockets = []; deleted = []; app = s; tls = t }

  start-IsNoted : (s : S) (t : Tls W) → IsNoted 0 (start s t)
  unfolding start IsAscending
  start-IsNoted s t = record { ascending = tt; below = tt }

  -- What a pass leaves in `openSockets` are the sockets that are there behind it, without those whose indices it has
  -- noted as closed, and behind them the new ones, although the indices shift while they are erased.
  pub modify_sockets_lem :
      (socks : List ℤ) (revents : List Bool) (s : S) (t : Tls W) (p : Pass S W)
      → visit_sockets lib os machine codec opts on_recv fuel 0 socks revents
          (record { new_sockets = []; deleted = []; app = s; tls = t })
        ≡ ok p
      → (modify_sockets lib os machine codec opts on_recv fuel p).1.open_sockets
        ≡ survivors 0 p.deleted p.tls.open_sockets ++ p.new_sockets
  unfolding modify_sockets start
  modify_sockets_lem socks revents s t p e =
      ap (λ xs. xs ++ p.new_sockets)
        (erase_indices_lem p.deleted p.tls.open_sockets
          (visits_lem 0 socks revents (start s t) p (start-IsNoted s t) e))
