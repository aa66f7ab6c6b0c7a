-- ===== src/Shared/Tls/Broadcasts.antt =====
-- shared/tls.cpp: `broadcast`, which serialises once, against `send`.
use disk_tees.Prelude.{
  ℕ, ℤ, >>=-cong, Option, none, some, [], ◌∷◌, Bytes, ◌≡◌, refl, sym, ap, ◌∙◌, Outcome, ok, ◌>>=◌,
}
use disk_tees.Shared.StrMap.{find_str}
use disk_tees.Shared.NetworkConfig.{Addresses}
use disk_tees.Shared.Tls.{Ssl, Openssl, Sockets, Platform, Codec, Tls}
use disk_tees.Shared.Tls.Send.{write_to, send, caught, broadcast_data, broadcast}

module _ {W M : Type 0} (lib : Openssl W) (os : Sockets W) (machine : Platform W) (codec : Codec M)
    (fuel : ℕ) where
  -- One `send` after the other, each with its exceptions caught.
  pub send_each : M → Addresses → Tls W → Outcome (Tls W)
  send_each payload [] t = ok t
  send_each payload (addr ∷ dests) t =
      caught lib os machine codec fuel (send lib os machine codec fuel payload addr t) >>= λ u.
      send_each payload dests u

  step_lem :
      (sock : Option ℤ) (dest : Option Ssl) (bytes : Bytes) (t : Tls W)
      → (elim dest as (λ _. Outcome (Tls W)) [
        | none ↦ ok t
        | some d ↦
            caught lib os machine codec fuel
              (write_to lib os machine codec fuel sock (some d) bytes t)
      ])
        ≡ caught lib os machine codec fuel (write_to lib os machine codec fuel sock dest bytes t)
  unfolding caught write_to
  step_lem none none bytes t = refl
  step_lem (some sock) none bytes t = refl
  step_lem none (some dest) bytes t = refl
  step_lem (some sock) (some dest) bytes t = refl

  send_lem :
      (payload : M) (addr : Bytes) (serial : Option Bytes) (t : Tls W)
      → codec.serialize payload ≡ serial
      → send lib os machine codec fuel payload addr t ≡ (elim serial as (λ _. Outcome (Tls W)) [
        | none ↦ ok t
        | some bytes ↦
            write_to lib os machine codec fuel
              (find_str addr t.socket_from_addr)
              (find_str addr t.ssl_from_addr)
              bytes
              t
      ])
  unfolding send
  send_lem payload addr serial t e = rw (send, e) refl

  none_lem :
      (payload : M) (dests : Addresses) (t : Tls W)
      → codec.serialize payload ≡ none
      → send_each payload dests t ≡ ok t
  unfolding send_each caught
  none_lem payload [] t e = refl
  none_lem payload (addr ∷ dests) t e =
      rw (send_each, send_lem payload addr none t e) (none_lem payload dests t e)

  some_lem :
      (payload : M) (bytes : Bytes) (dests : Addresses) (t : Tls W)
      → codec.serialize payload ≡ some bytes
      → broadcast_data lib os machine codec fuel bytes dests t ≡ send_each payload dests t
  unfolding broadcast_data send_each
  some_lem payload bytes [] t e = refl
  some_lem payload bytes (addr ∷ dests) t e =
      let sock = find_str addr t.socket_from_addr in
      let dest = find_str addr t.ssl_from_addr in
      let one =
        step_lem sock dest bytes t
        ∙ ap (caught lib os machine codec fuel) (sym (send_lem payload addr (some bytes) t e)) in
      ap (λ o. o >>= λ u. broadcast_data lib os machine codec fuel bytes dests u) one
      ∙ >>=-cong (caught lib os machine codec fuel (send lib os machine codec fuel payload addr t))
          _ _ (λ u. some_lem payload bytes dests u e)

  by_codec :
      (payload : M) (dests : Addresses) (t : Tls W) (serial : Option Bytes)
      → codec.serialize payload ≡ serial
      → broadcast lib os machine codec fuel payload dests t ≡ send_each payload dests t
  unfolding broadcast
  by_codec payload dests t none e = rw (broadcast, e) (sym (none_lem payload dests t e))
  by_codec payload dests t (some bytes) e = rw (broadcast, e) (some_lem payload bytes dests t e)

  -- `broadcast` does what sending the message to each address in turn does, where an exception of one `send` does
  -- not keep the others from being sent, whether or not the message can be serialised and the addresses are known.
  pub broadcast_lem :
      (payload : M) (dests : Addresses) (t : Tls W)
      → broadcast lib os machine codec fuel payload dests t ≡ send_each payload dests t
  broadcast_lem payload dests t = by_codec payload dests t (codec.serialize payload) refl
