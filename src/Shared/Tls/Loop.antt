-- ===== src/Shared/Tls/Loop.antt =====
-- shared/tls.cpp: what arrives, and the event loop.
use disk_tees.Prelude.{
  ℕ, zero, suc, ltb, ℤ, pos, pos_part, ltb_ℤ, ◌==ℤ◌, Bool, Option, none, some, List, [], ◌∷◌, ◌++◌,
  Bytes, length, drop, Outcome, ok, threw, exited, undefined, out_of_fuel, ◌>>=◌, if◌then◌else◌,
}
use disk_tees.Shared.IntMap.{find}
use disk_tees.Shared.Tls.{
  Ssl, want_read, Openssl, Sockets, Platform, Codec, Options, Tls, read_buffer_size, zeros,
}
use disk_tees.Shared.Tls.Io.{blocking_read}
use disk_tees.Shared.Tls.Connect.{accept_connection, close_socket}

-- `bytes` over the beginning of `buffer`.
unfoldable pub overlay : Bytes → Bytes → Bytes
overlay bytes buffer = bytes ++ drop (length bytes) buffer

module _ {W M : Type 0} (lib : Openssl W) (os : Sockets W) (machine : Platform W) (codec : Codec M)
    (fuel : ℕ) where
  -- A message that fits into the buffer of the object. To clear a negative number of bytes is to clear more
  -- than there is memory.
  unfoldable pub recv_small : ℤ → Ssl → ℤ → Tls W → Outcome (Option M × Tls W)
  unfolding overlay
  recv_small sock src data_size t = elim (blocking_read lib os fuel sock src data_size [] t.world) [
    | ok (got, w) ↦
        let u = record t { read_buffer = overlay got t.read_buffer; world = w } in
        elim (codec.deserialize u.read_buffer) [
          | none ↦ threw (none, u)
          | some payload ↦
              if ltb_ℤ data_size (pos 0)
              then undefined
              else ok (
                some payload,
                record u { read_buffer = overlay (zeros (pos_part data_size)) u.read_buffer },
              )
        ]
    | threw (got, w) ↦ threw (none, record t { read_buffer = overlay got t.read_buffer; world = w })
    | exited ↦ exited
    | undefined ↦ undefined
    | out_of_fuel ↦ out_of_fuel
  ]

  -- A larger one has a buffer of its own.
  unfoldable pub recv_big : ℤ → Ssl → ℤ → Tls W → Outcome (Option M × Tls W)
  recv_big sock src data_size t = elim (blocking_read lib os fuel sock src data_size [] t.world) [
    | ok (got, w) ↦
        let u = record t { world = w } in
        elim (codec.deserialize got) [
          | none ↦ threw (none, u)
          | some payload ↦ ok (some payload, u)
        ]
    | threw (got, w) ↦ threw (none, record t { world = w })
    | exited ↦ exited
    | undefined ↦ undefined
    | out_of_fuel ↦ out_of_fuel
  ]

  -- The size may arrive in part or, on any error but one, not at all: the rest of it is not initialised.
  unfoldable pub recv : ℤ → Ssl → Tls W → Outcome (Option M × Tls W)
  unfolding recv_small recv_big
  recv sock src t =
      let (read, w) = lib.ssl_read src 4 t.world in
      let data_size = machine.bytes_int (overlay read.out (machine.junk 4 t.world)) in
      let u = record t { world = w } in
      elim (lib.ssl_get_error src read.rc w) [
        | want_read ↦ ok (none, u)
        | _ ↦
            if ltb_ℤ (pos read_buffer_size) data_size
            then recv_big sock src data_size u
            else recv_small sock src data_size u
      ]

-- The locals of `runEventLoopOnce`: the new sockets, the indices of the closed ones, and the state of the object
-- beside that of the callback.
pub record Pass (S W : Type 0) : Type 0 where
  pub new_sockets : List ℤ
  pub deleted : List ℕ
  pub app : S
  pub tls : Tls W

unfoldable pub erase_at : ℕ → List ℤ → List ℤ
erase_at i [] = []
erase_at zero (x ∷ xs) = xs
erase_at (suc i) (x ∷ xs) = x ∷ erase_at i xs

-- From the last index to the first.
unfoldable pub erase_indices : List ℕ → List ℤ → List ℤ
unfolding erase_at
erase_indices [] xs = xs
erase_indices (i ∷ is) xs = erase_at i (erase_indices is xs)

abbrev pub OnRecv : Type 0 → Type 0 → Type 0 → Type 0
OnRecv S W M = M → Bytes → S × Tls W → Outcome (S × Tls W)

module _ {S W M : Type 0} (lib : Openssl W) (os : Sockets W) (machine : Platform W)
    (codec : Codec M) (opts : Options) (on_recv : OnRecv S W M) (fuel : ℕ) where
  -- The `try` block.
  unfoldable pub receive_from : ℤ → S × Tls W → Outcome (S × Tls W)
  unfolding recv
  receive_from sock (s, t) = elim (find sock t.ssl_from_socket) [
    | none ↦ threw (s, t)
    | some src ↦ (elim (recv lib os machine codec fuel sock src t) [
      | ok (none, u) ↦ ok (s, u)
      | ok (some payload, u) ↦ (elim (find sock u.addr_from_socket) [
        | none ↦ threw (s, u)
        | some addr ↦ on_recv payload addr (s, u)
      ])
      | threw (_, u) ↦ threw (s, u)
      | exited ↦ exited
      | undefined ↦ undefined
      | out_of_fuel ↦ out_of_fuel
    ])
  ]

  -- The `catch` block. Where the callback has added sockets, the vector may have moved, and `sock` refers to its
  -- old place.
  unfoldable pub drop_socket : ℕ → ℤ → Pass S W → S × Tls W → Outcome (Pass S W)
  unfolding close_socket
  drop_socket i sock p (s, t) =
      if ltb (length p.tls.open_sockets) (length t.open_sockets)
      then undefined
      else ok (record p {
        deleted = p.deleted ++ i ∷ [];
        app = s;
        tls =
            close_socket lib os machine opts fuel sock
              (record t { read_buffer = zeros read_buffer_size });
      })

  -- `if (client != -1) newSockets.emplace_back(client);`
  unfoldable pub accepted : Pass S W → Outcome (Option ℤ × Tls W) → Outcome (Pass S W)
  accepted p (ok (none, t)) = ok (record p { tls = t })
  accepted p (ok (some client, t)) =
      ok (record p { new_sockets = p.new_sockets ++ client ∷ []; tls = t })
  accepted p (threw _) = exited
  accepted p exited = exited
  accepted p undefined = undefined
  accepted p out_of_fuel = out_of_fuel

  unfoldable pub received : ℕ → ℤ → Pass S W → Outcome (S × Tls W) → Outcome (Pass S W)
  unfolding drop_socket
  received i sock p (ok (s, t)) = ok (record p { app = s; tls = t })
  received i sock p (threw x) = drop_socket i sock p x
  received i sock p exited = exited
  received i sock p undefined = undefined
  received i sock p out_of_fuel = out_of_fuel

  -- A socket with `revents`.
  unfoldable pub visit_socket : ℕ → ℤ → Pass S W → Outcome (Pass S W)
  unfolding accepted received receive_from accept_connection
  visit_socket i sock p =
      if sock ==ℤ p.tls.server_socket
      then accepted p (accept_connection lib os machine opts fuel p.tls)
      else received i sock p (receive_from sock (p.app, p.tls))

  -- The loop from index `i`. Sockets that the callback adds have no `revents` yet.
  unfoldable pub visit_sockets : ℕ → List ℤ → List Bool → Pass S W → Outcome (Pass S W)
  unfolding visit_socket
  visit_sockets i (sock ∷ socks) (revents ∷ others) p =
      (if revents then visit_socket i sock p else ok p) >>= λ q.
      visit_sockets (suc i) socks others q
  visit_sockets i _ _ p = ok p

  unfoldable pub modify_sockets : Pass S W → S × Tls W
  unfolding erase_indices
  modify_sockets p = (
    p.app,
    record (p.tls) { open_sockets = erase_indices p.deleted p.tls.open_sockets ++ p.new_sockets },
  )

  unfoldable pub run_event_loop_once : ℤ → S × Tls W → Outcome (S × Tls W)
  unfolding visit_sockets modify_sockets
  run_event_loop_once timeout (s, t) =
      let ((rc, revents), w) = os.poll t.open_sockets timeout t.world in
      let u = record t { world = w } in
      if rc ==ℤ pos 0
      then ok (s, u)
      else elim (visit_sockets 0 t.open_sockets revents
          (record { new_sockets = []; deleted = []; app = s; tls = u })) [
            | ok p ↦ ok (modify_sockets p)
            | threw p ↦ threw (p.app, p.tls)
            | exited ↦ exited
            | undefined ↦ undefined
            | out_of_fuel ↦ out_of_fuel
          ]
