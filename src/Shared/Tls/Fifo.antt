-- ===== src/Shared/Tls/Fifo.antt =====
-- shared/tls.cpp: many messages over one connection.
use mathlib.Core.List.{append_assoc, append-nil, append_cancel_left}
use disk_tees.Prelude.{
  ℕ, zero, suc, ◌<◌, ◌^◌, ℤ, Option, none, some, List, [], ◌∷◌, ◌++◌, map, Bytes, length, All, ◌≡◌,
  refl, sym, ap, ◌∙◌, Outcome, ok, and_then, map_outcome, map_outcome-eq-ok, ◌>>=◌, >>=-eq-ok,
  arith,
}
use disk_tees.Shared.StrMap.{find_str}
use disk_tees.Shared.Tls.{Ssl, Openssl, Sockets, Platform, Codec, Tls}
use disk_tees.Shared.Tls.Send.{write_frame, write_to, send}
use disk_tees.Shared.Tls.Loop.{recv}
use disk_tees.Shared.Tls.Streams.{IsReading}
use disk_tees.Shared.Tls.Writing.{IsWriting, IsPlatform, IsCodec, frame, send_lem}
use disk_tees.Shared.Tls.Framing.{recv_lem}

module _ {W M : Type 0} (lib : Openssl W) (os : Sockets W) (machine : Platform W) (codec : Codec M)
    (fuel : ℕ) where
  -- One `send` after the other, to one address.
  unfoldable pub send_many : List M → Bytes → Tls W → Outcome (Tls W)
  send_many [] addr t = ok t
  send_many (m ∷ ms) addr t = send lib os machine codec fuel m addr t >>= λ u. send_many ms addr u

  -- So many calls of `recv`, as long as there is something to read.
  pub recv_many : ℕ → ℤ → Ssl → Tls W → Outcome (List M × Tls W)
  recv_many zero sock src t = ok ([], t)
  recv_many (suc n) sock src t =
      and_then (recv lib os machine codec fuel sock src t) (λ (payload, u). elim payload [
        | none ↦ ok ([], u)
        | some m ↦ map_outcome (λ (ms, v). (m ∷ ms, v)) (recv_many n sock src u)
      ])

module _ {W M : Type 0} (lib : Openssl W) (os : Sockets W) (machine : Platform W) (codec : Codec M)
    (fuel : ℕ) (split : Bytes → List Bytes) where
  -- A message with its data, which is not too large.
  unfoldable pub Fits : M × Bytes → Type 0
  Fits (m, bytes) =
      (codec.serialize m ≡ some bytes) × (length bytes < 2 ^ 31) × (length (split bytes) < fuel)

  unfoldable pub frames : List (M × Bytes) → List Bytes
  frames [] = []
  frames ((m, bytes) ∷ ps) = frame machine split bytes ++ frames ps

  write_to-keeps :
      (sock : Option ℤ) (dest : Option Ssl) (bytes : Bytes) (t t' : Tls W)
      → write_to lib os machine codec fuel sock dest bytes t ≡ ok t'
      → t'.ssl_from_addr ≡ t.ssl_from_addr
  unfolding write_to
  write_to-keeps none none bytes t t' e = cc
  write_to-keeps none (some dest) bytes t t' e = cc
  write_to-keeps (some sock) none bytes t t' e = cc
  write_to-keeps (some sock) (some dest) bytes t t' e =
      let (w, _, same) =
        map_outcome-eq-ok (λ w. record t { world = w })
          (write_frame lib os machine codec fuel sock dest bytes t.world) t' e in
      ap (λ u. u.ssl_from_addr) (sym same)

  -- A `send` changes nothing but the world.
  send-keeps :
      (m : M) (addr bytes : Bytes) (dest : Ssl) (t t' : Tls W)
      → codec.serialize m ≡ some bytes
      → find_str addr t.ssl_from_addr ≡ some dest
      → send lib os machine codec fuel m addr t ≡ ok t'
      → find_str addr t'.ssl_from_addr ≡ some dest
  unfolding send
  send-keeps m addr bytes dest t t' serial there e =
      ap (find_str addr) (
        write_to-keeps (find_str addr t.socket_from_addr) (find_str addr t.ssl_from_addr) bytes t t'
          (rw (send, serial) at e))
      ∙ there

  module _ (written : Ssl → W → List Bytes) (h : IsWriting lib os written split)
      (hm : IsPlatform machine) where
    sends_lem :
        (ps : List (M × Bytes)) (addr : Bytes) (dest : Ssl) (t t' : Tls W)
        → All Fits ps
        → find_str addr t.ssl_from_addr ≡ some dest
        → send_many lib os machine codec fuel (map (λ p. p.0) ps) addr t ≡ ok t'
        → written dest t'.world ≡ written dest t.world ++ frames ps
    unfolding send_many frames Fits
    sends_lem [] addr dest t t' fit there e =
        let same : t ≡ t' = ground arith in rw same (sym (append-nil (written dest t'.world)))
    sends_lem ((m, bytes) ∷ ps) addr dest t t' ((serial, small, few), fit) there e =
        let (u, first, more) = >>=-eq-ok (send lib os machine codec fuel m addr t) _ e in
        sends_lem ps addr dest u t' fit (send-keeps m addr bytes dest t u serial there first) more
        ∙ ap (λ rs. rs ++ frames ps)
            (send_lem lib os machine codec fuel written split h hm m addr bytes dest t u serial
              there small first)
        ∙ append_assoc (written dest t.world) (frame machine split bytes) (frames ps)

  module _ (records : Ssl → W → List Bytes) (h : IsReading lib records) (hm : IsPlatform machine)
      (hc : IsCodec codec) (written : Ssl → W → List Bytes)
      (hw : IsWriting lib os written split) where
    pub recvs_lem :
        (ps : List (M × Bytes)) (sock : ℤ) (src : Ssl) (t : Tls W) (rest : List Bytes)
        → All Fits ps
        → records src t.world ≡ frames ps ++ rest
        → (t' : Tls W) × (recv_many lib os machine codec fuel (length ps) sock src t
            ≡ ok (map (λ p. p.0) ps, t'))
          × (records src t'.world ≡ rest)
    unfolding recv_many frames Fits frame
    recvs_lem [] sock src t rest fit there = (t, refl, there)
    recvs_lem ((m, bytes) ∷ ps) sock src t rest ((serial, small, few), fit) there =
        let (w, buffer, done, left, _) =
          recv_lem lib os machine codec fuel records h hm hc sock src m bytes (split bytes)
            (frames ps ++ rest) t serial small (hw.concat-split bytes) (hw.split-AreFull bytes)
            (there ∙ append_assoc (frame machine split bytes) (frames ps) rest) few in
        let (t', all, end) =
          recvs_lem ps sock src (record t { read_buffer = buffer; world = w }) rest fit left in
        (t', rw (done, all) refl, end)

  -- Messages arrive in the order in which they were sent: where what the calls of `send` have written arrives in
  -- front of other records, as many calls of `recv` return these messages, and leave the other records. Each message
  -- must fit, as one alone, and OpenSSL, the machine and the serialisation library behave as documented.
  pub fifo :
      (written records : Ssl → W → List Bytes)
      → IsWriting lib os written split
      → IsReading lib records
      → IsPlatform machine
      → IsCodec codec
      → (ps : List (M × Bytes)) (addr : Bytes) (dest src : Ssl) (sock : ℤ) (t t' u : Tls W)
        (new rest : List Bytes)
      → All Fits ps
      → find_str addr t.ssl_from_addr ≡ some dest
      → send_many lib os machine codec fuel (map (λ p. p.0) ps) addr t ≡ ok t'
      → written dest t'.world ≡ written dest t.world ++ new
      → records src u.world ≡ new ++ rest
      → (u' : Tls W) × (recv_many lib os machine codec fuel (length ps) sock src u
          ≡ ok (map (λ p. p.0) ps, u'))
        × (records src u'.world ≡ rest)
  fifo written records hw hr hm hc ps addr dest src sock t t' u new rest fit there sent grown
        arrived =
      let framed : new ≡ frames ps =
        append_cancel_left (written dest t.world) _ _
          (sym grown ∙ sends_lem written hw hm ps addr dest t t' fit there sent) in
      recvs_lem records hr hm hc written hw ps sock src u rest fit
        (arrived ∙ ap (λ rs. rs ++ rest) framed)
