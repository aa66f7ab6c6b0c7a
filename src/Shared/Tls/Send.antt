-- ===== src/Shared/Tls/Send.antt =====
-- shared/tls.cpp: `send` and the broadcasts.
use disk_tees.Prelude.{
  ℕ, zero, suc, ◌+◌, ltb, ℤ, pos, Option, none, some, [], ◌∷◌, Bytes, eqb_str, length, get_elem?,
  Outcome, ok, threw, exited, undefined, out_of_fuel, ◌>>=◌, map_outcome, if◌then◌else◌,
}
use disk_tees.Shared.Convert.{narrow}
use disk_tees.Shared.StrMap.{StrMap, find_str}
use disk_tees.Shared.NetworkConfig.{Addresses}
use disk_tees.Shared.Tls.{Ssl, Openssl, Sockets, Platform, Codec, Tls}
use disk_tees.Shared.Tls.Io.{blocking_write}

module _ {W M : Type 0} (lib : Openssl W) (os : Sockets W) (machine : Platform W) (codec : Codec M)
    (fuel : ℕ) where
  -- The size of the data and the data.
  unfoldable pub write_frame : ℤ → Ssl → Bytes → W → Outcome W
  write_frame sock dest packet w =
      let data_size = narrow (length packet) in
      blocking_write lib os fuel sock dest (machine.int_bytes data_size) (pos 4) w >>= λ w1.
      blocking_write lib os fuel sock dest packet data_size w1

  -- Where `at` finds both, and throws otherwise.
  unfoldable pub write_to : Option ℤ → Option Ssl → Bytes → Tls W → Outcome (Tls W)
  unfolding write_frame
  write_to (some sock) (some dest) packet t =
      map_outcome (λ w. record t { world = w }) (write_frame sock dest packet t.world)
  write_to _ _ packet t = threw t

  unfoldable pub send : M → Bytes → Tls W → Outcome (Tls W)
  unfolding write_to
  send payload addr t = elim (codec.serialize payload) [
    | none ↦ ok t
    | some packet ↦
        write_to (find_str addr t.socket_from_addr) (find_str addr t.ssl_from_addr) packet t
  ]

  -- `catch (const std::exception& e)`
  unfoldable pub caught : Outcome (Tls W) → Outcome (Tls W)
  caught (threw t) = ok t
  caught (ok t) = ok t
  caught exited = exited
  caught undefined = undefined
  caught out_of_fuel = out_of_fuel

  -- The loop over the destinations.
  unfoldable pub broadcast_data : Bytes → Addresses → Tls W → Outcome (Tls W)
  unfolding write_to caught
  broadcast_data packet [] t = ok t
  broadcast_data packet (addr ∷ dests) t =
      (elim (find_str addr t.ssl_from_addr) [
        | none ↦ ok t
        | some dest ↦ caught (write_to (find_str addr t.socket_from_addr) (some dest) packet t)
      ])
      >>= λ u. broadcast_data packet dests u

  unfoldable pub broadcast : M → Addresses → Tls W → Outcome (Tls W)
  unfolding broadcast_data
  broadcast payload dests t = elim (codec.serialize payload) [
    | none ↦ ok t
    | some packet ↦ broadcast_data packet dests t
  ]

  -- The loop over `sslFromAddr`, which sending does not change.
  pub broadcast_except_from : M → Bytes → StrMap Ssl → Tls W → Outcome (Tls W)
  unfolding send caught
  broadcast_except_from payload except [] t = ok t
  broadcast_except_from payload except ((addr, ssl) ∷ others) t =
      (if eqb_str addr except then ok t else caught (send payload addr t)) >>= λ u.
      broadcast_except_from payload except others u

  pub broadcast_except : M → Bytes → Tls W → Outcome (Tls W)
  unfolding broadcast_except_from
  broadcast_except payload except t = broadcast_except_from payload except t.ssl_from_addr t

  -- Without destinations `dests[0]` is out of bounds.
  pub send_round_robin : ℕ → M → Addresses → Tls W → Outcome (Tls W)
  unfolding send
  send_round_robin zero payload dests t = out_of_fuel
  send_round_robin (suc rounds) payload dests t =
      let next = t.round_robin_index + 1 in
      let index = if ltb next (length dests) then next else 0 in
      let u = record t { round_robin_index = index } in
      elim (get_elem? dests index) [
        | none ↦ undefined
        | some addr ↦ (elim (find_str addr u.ssl_from_addr) [
          | none ↦ send_round_robin rounds payload dests u
          | some ssl ↦ (elim (send payload addr u) [
            | ok v ↦ ok v
            | threw v ↦ send_round_robin rounds payload dests v
            | exited ↦ exited
            | undefined ↦ undefined
            | out_of_fuel ↦ out_of_fuel
          ])
        ])
      ]
