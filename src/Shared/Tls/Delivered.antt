-- ===== src/Shared/Tls/Delivered.antt =====
-- shared/tls.cpp: what broadcasts write to one of the connections, where none of them fails.
use mathlib.Core.List.{append_assoc, append-nil}
use disk_tees.Prelude.{
  ℕ, suc, ◌<◌, ◌^◌, ℤ, pos, leb_ℤ, false, ◌≡◌, ◌≢◌, refl, sym, ap, ◌∙◌, none, some, List, [], ◌∷◌,
  ◌++◌, map, Bytes, length, All, Outcome, ok, ◌>>=◌, Option-cases, take_all_lem, inl, inr, arith,
}
use disk_tees.Shared.StrMap.{find_str}
use disk_tees.Shared.NetworkConfig.{Addresses}
use disk_tees.Shared.Transport.{broadcast_all}
use disk_tees.Shared.Tls.{Ssl, Openssl, Sockets, Platform, Codec, Tls, Options}
use disk_tees.Shared.Tls.Carrier.{Network, tls_transport}
use disk_tees.Shared.Tls.Fifo.{Fits, frames}
use disk_tees.Shared.Tls.Io.{blocking_write}
use disk_tees.Shared.Tls.Send.{write_frame, write_to, caught, broadcast_data, broadcast}
use disk_tees.Shared.Tls.Writing.{IsWriting, IsPlatform, frame, write_frame_lem, narrow_small}

-- Every write succeeds, and reaches its own connection only.
pub record IsHealthy {W : Type 0} (lib : Openssl W) (written : Ssl → W → List Bytes) : Type 0 where
  pub succeeds :
      (ssl : Ssl) (bytes : Bytes) (n : ℕ) (w : W)
      → leb_ℤ (lib.ssl_write ssl bytes (pos n) w).0 (pos 0) ≡ false
  pub apart :
      (ssl other : Ssl) (bytes : Bytes) (n : ℕ) (w : W)
      → ssl ≢ other
      → written other (lib.ssl_write ssl bytes (pos n) w).1 ≡ written other w

module _ {W M : Type 0} (lib : Openssl W) (os : Sockets W) (machine : Platform W) (codec : Codec M)
    (fuel : ℕ) (written : Ssl → W → List Bytes) (split : Bytes → List Bytes)
    (hw : IsWriting lib os written split) (hm : IsPlatform machine)
    (hh : IsHealthy lib written) where
  blocking_write_ok :
      (sock : ℤ) (ssl : Ssl) (bytes : Bytes) (n : ℕ) (w : W)
      → blocking_write lib os (suc fuel) sock ssl bytes (pos n) w
        ≡ ok (lib.ssl_write ssl bytes (pos n) w).1
  unfolding blocking_write
  blocking_write_ok sock ssl bytes n w = rw (blocking_write, hh.succeeds ssl bytes n w) refl

  -- The world behind one frame.
  abbrev after_frame : Ssl → Bytes → W → W
  after_frame ssl bytes w =
      (lib.ssl_write ssl bytes (pos (length bytes))
        (lib.ssl_write ssl (machine.int_bytes (pos (length bytes))) (pos 4) w).1).1

  write_frame_ok :
      (sock : ℤ) (ssl : Ssl) (bytes : Bytes) (w : W)
      → length bytes < 2 ^ 31
      → write_frame lib os machine codec (suc fuel) sock ssl bytes w ≡ ok (after_frame ssl bytes w)
  unfolding write_frame
  write_frame_ok sock ssl bytes w small =
      rw
        (
          narrow_small (length bytes) small,
          blocking_write_ok sock ssl (machine.int_bytes (pos (length bytes))) 4 w,
        )
        (blocking_write_ok sock ssl bytes (length bytes) _)

  after_frame-apart :
      (ssl dest : Ssl) (bytes : Bytes) (w : W)
      → ssl ≢ dest
      → written dest (after_frame ssl bytes w) ≡ written dest w
  after_frame-apart ssl dest bytes w other =
      hh.apart ssl dest bytes (length bytes) _ other
      ∙ hh.apart ssl dest (machine.int_bytes (pos (length bytes))) 4 w other

  after_frame_lem :
      (ssl : Ssl) (bytes : Bytes) (w : W)
      → length bytes < 2 ^ 31
      → written ssl (after_frame ssl bytes w) ≡ written ssl w ++ frame machine split bytes
  after_frame_lem ssl bytes w small = rw (take_all_lem bytes (length bytes) (omega arith)) at (
      write_frame_lem lib os machine codec (suc fuel) written split hw hm (pos 0) ssl bytes
        (length bytes) w (after_frame ssl bytes w) (narrow_small (length bytes) small)
        (write_frame_ok (pos 0) ssl bytes w small))

  -- One turn of the loop over the destinations.
  turn : Bytes → Bytes → Tls W → Outcome (Tls W)
  unfolding caught write_to
  turn bytes addr t = elim (find_str addr t.ssl_from_addr) [
    | none ↦ ok t
    | some d ↦ caught lib os machine codec (suc fuel) (
        write_to lib os machine codec (suc fuel) (find_str addr t.socket_from_addr) (some d) bytes
          t)
  ]

  -- The world behind a turn to another address.
  turn-apart :
      (dest : Ssl) (bytes addr : Bytes) (t : Tls W)
      → length bytes < 2 ^ 31
      → find_str addr t.ssl_from_addr ≢ some dest
      → (w : W) × (turn bytes addr t ≡ ok (record t { world = w }))
        × (written dest w ≡ written dest t.world)
  unfolding turn caught write_to
  turn-apart dest bytes addr t small other = elim (Option-cases (find_str addr t.ssl_from_addr)) [
    | inl none_there ↦ (t.world, rw (turn, none_there) refl, refl)
    | inr (d, there) ↦ elim (Option-cases (find_str addr t.socket_from_addr)) [
      | inl no_socket ↦ (t.world, rw (turn, there, no_socket) refl, refl)
      | inr (sock, open_socket) ↦ (
        after_frame d bytes t.world,
        rw (turn, there, open_socket, write_frame_ok sock d bytes t.world small) refl,
        after_frame-apart d dest bytes t.world (λ e. other (there ∙ ap some e)),
      )
    ]
  ]

  turn_lem :
      (dest : Ssl) (sock : ℤ) (bytes addr : Bytes) (t : Tls W)
      → length bytes < 2 ^ 31
      → find_str addr t.ssl_from_addr ≡ some dest
      → find_str addr t.socket_from_addr ≡ some sock
      → turn bytes addr t ≡ ok (record t { world = after_frame dest bytes t.world })
  unfolding turn caught write_to
  turn_lem dest sock bytes addr t small there open_socket =
      rw (turn, there, open_socket, write_frame_ok sock dest bytes t.world small) refl

  others_lem :
      (dest : Ssl) (bytes : Bytes) (ds : Addresses) (t : Tls W)
      → length bytes < 2 ^ 31
      → All (λ a. find_str a t.ssl_from_addr ≢ some dest) ds
      → (w : W) × (broadcast_data lib os machine codec (suc fuel) bytes ds t
          ≡ ok (record t { world = w }))
        × (written dest w ≡ written dest t.world)
  unfolding broadcast_data turn
  others_lem dest bytes [] t small others = (t.world, refl, refl)
  others_lem dest bytes (a ∷ ds) t small (other, others) =
      let (w, turned, same) = turn-apart dest bytes a t small other in
      let (w', ends, same') = others_lem dest bytes ds (record t { world = w }) small others in
      (
        w',
        ap (λ o. o >>= λ u. broadcast_data lib os machine codec (suc fuel) bytes ds u) turned
            ∙ ends,
        same' ∙ same,
      )

  -- The data is written to the connection of `addr` once.
  once_lem :
      (dest : Ssl) (sock : ℤ) (addr bytes : Bytes) (before after : Addresses) (t : Tls W)
      → length bytes < 2 ^ 31
      → find_str addr t.ssl_from_addr ≡ some dest
      → find_str addr t.socket_from_addr ≡ some sock
      → All (λ a. find_str a t.ssl_from_addr ≢ some dest) before
      → All (λ a. find_str a t.ssl_from_addr ≢ some dest) after
      → (w : W) × (broadcast_data lib os machine codec (suc fuel) bytes (before ++ addr ∷ after) t
          ≡ ok (record t { world = w }))
        × (written dest w ≡ written dest t.world ++ frame machine split bytes)
  unfolding broadcast_data turn
  once_lem dest sock addr bytes [] after t small there open_socket hb ha =
      let u = record t { world = after_frame dest bytes t.world } in
      let (w, ends, same) = others_lem dest bytes after u small ha in
      (
        w,
        ap (λ o. o >>= λ v. broadcast_data lib os machine codec (suc fuel) bytes after v)
              (turn_lem dest sock bytes addr t small there open_socket)
            ∙ ends,
        same ∙ after_frame_lem dest bytes t.world small,
      )
  once_lem dest sock addr bytes (b ∷ before) after t small there open_socket (other, hb) ha =
      let (w, turned, same) = turn-apart dest bytes b t small other in
      let (w', ends, same') =
        once_lem dest sock addr bytes before after (record t { world = w }) small there open_socket
          hb ha in
      (
        w',
        ap
              (λ o. o >>= λ v.
                broadcast_data lib os machine codec (suc fuel) bytes (before ++ addr ∷ after) v)
              turned
            ∙ ends,
        same' ∙ ap (λ rs. rs ++ frame machine split bytes) same,
      )

  module _ (opts : Options) (reads : ℕ) (dest : Ssl) (sock : ℤ) (addr : Bytes)
      (before after : Addresses) where
    -- The connection of `addr`, among those of the destinations.
    abbrev pub Connected : Tls W → Type 0
    Connected t =
        (find_str addr t.ssl_from_addr ≡ some dest)
        × (find_str addr t.socket_from_addr ≡ some sock)
        × All (λ a. find_str a t.ssl_from_addr ≢ some dest) before
        × All (λ a. find_str a t.ssl_from_addr ≢ some dest) after

    -- Messages that fit are broadcast one after the other, and the frames of all are written to the connection.
    pub broadcasts_lem :
        (ps : List (M × Bytes)) (t : Tls W) (n : Network W M)
        → All (Fits lib os machine codec reads split) ps
        → Connected t
        → n.live ≡ ok t
        → let n' =
            broadcast_all
              (tls_transport lib os machine codec opts (suc fuel))
              (map (λ p. p.0) ps)
              (before ++ addr ∷ after)
              n in
          (w : W) × (n'.live ≡ ok (record t { world = w }))
          × (written dest w ≡ written dest t.world ++ frames lib os machine codec reads split ps)
    unfolding broadcast_all tls_transport broadcast frames Fits
    broadcasts_lem [] t n fit conn on = (t.world, on, sym (append-nil (written dest t.world)))
    broadcasts_lem ((m, bytes) ∷ ps) t n ((serial, small, few), fit) (there, open_socket, hb, ha)
          on =
        let (w, sent, grown) =
          once_lem dest sock addr bytes before after t small there open_socket hb ha in
        let next =
          (tls_transport lib os machine codec opts (suc fuel)).broadcast m (before ++ addr ∷ after)
            n in
        let on' : next.live ≡ ok (record t { world = w }) = rw (on, broadcast, serial) sent in
        let (w', ends, grown') =
          broadcasts_lem ps (record t { world = w }) next fit (there, open_socket, hb, ha) on' in
        (
          w',
          ends,
          grown'
              ∙ ap (λ rs. rs ++ frames lib os machine codec reads split ps) grown
              ∙ append_assoc (written dest t.world) (frame machine split bytes)
                  (frames lib os machine codec reads split ps),
        )
