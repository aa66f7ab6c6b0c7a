-- ===== src/Shared/Tls/Framing.antt =====
-- shared/tls.cpp: what `send` writes and `recv` makes of it.
use mathlib.Core.List.{append-nil, append_cancel_left}
use disk_tees.Prelude.{
  drop_all_lem, length-drop, ℕ, zero, suc, ◌+◌, ◌-◌, ◌≤◌, ◌<◌, ◌^◌, ℤ, pos, ltb_ℤ, IsInt, ◌≡◌, ◌≢◌,
  refl, sym, ap, ◌∙◌, inl, inr, true, false, some, List, [], ◌∷◌, ◌++◌, Bytes, length, drop, ok,
  arith, length-append, Bool-cases, if◌then◌else◌,
}
use disk_tees.Shared.StrMap.{find_str}
use disk_tees.Shared.Tls.{
  Ssl, no_error, Openssl, Sockets, Platform, Codec, Tls, read_buffer_size, zeros,
}
use disk_tees.Shared.Tls.Io.{blocking_read}
use disk_tees.Shared.Tls.Send.{send}
use disk_tees.Shared.Tls.Loop.{overlay, recv_small, recv_big, recv}
use disk_tees.Shared.Tls.Writing.{IsWriting, IsPlatform, IsCodec, frame, send_lem}
use disk_tees.Shared.Tls.Streams.{IsReading, AreFull, concat, read_record, read_chunks}

nonempty : (xs : Bytes) → length xs ≡ 4 → xs ≢ []
nonempty [] e = absurd (omega (arith, e))
nonempty (x ∷ xs) e = λ same. cc

-- Nothing is left of a buffer that is covered.
overlay_all : (bytes buffer : Bytes) → length buffer ≤ length bytes → overlay bytes buffer ≡ bytes
unfolding overlay
overlay_all bytes buffer h =
    ap (λ ys. bytes ++ ys) (drop_all_lem buffer (length bytes) h) ∙ append-nil bytes

-- A message that is written over the buffer and cleared again leaves it no shorter.
pub length-zeros : (n : ℕ) → length (zeros n) ≡ n
unfolding zeros
length-zeros zero = refl
length-zeros (suc n) = omega (arith, length-zeros n)

length-overlay :
    (bytes buffer : Bytes)
    → length (overlay bytes buffer) ≡ length bytes + (length buffer - length bytes)
unfolding overlay
length-overlay bytes buffer =
    length-append bytes (drop (length bytes) buffer)
    ∙ ap (λ n. length bytes + n) (length-drop (length bytes) buffer)

overlay_length :
    (bytes buffer : Bytes)
    → length buffer ≤ length (overlay (zeros (length bytes)) (overlay bytes buffer))
overlay_length bytes buffer = omega (
  arith,
  length-overlay (zeros (length bytes)) (overlay bytes buffer),
  length-overlay bytes buffer,
  length-zeros (length bytes),
)

module _ {W M : Type 0} (lib : Openssl W) (os : Sockets W) (machine : Platform W) (codec : Codec M)
    (fuel : ℕ) (records : Ssl → W → List Bytes) (h : IsReading lib records)
    (hm : IsPlatform machine) (hc : IsCodec codec) where
  -- The size of a message, in front of its records.
  size_lem :
      (src : Ssl) (n : ℕ) (w : W) (more : List Bytes)
      → n < 2 ^ 31
      → records src w ≡ machine.int_bytes (pos n) ∷ more
      → let (read, w1) = lib.ssl_read src 4 w in
        (machine.bytes_int (overlay read.out (machine.junk 4 w)) ≡ pos n)
        × (lib.ssl_get_error src read.rc w1 ≡ no_error)
        × (records src w1 ≡ more)
  unfolding overlay
  size_lem src n w more small there =
      let size = machine.int_bytes (pos n) in
      let four = hm.length-int_bytes (pos n) in
      let (out, rc, left) =
        read_record lib os records h src 4 w size more (nonempty size four) (omega (arith, four))
          there in
      let small_int : IsInt (pos n) = (small, omega arith) in
      let positive : ltb_ℤ (pos 0) (pos (length size)) ≡ true =
        unfold ltb_ℤ in ground (arith, four) in
      (
        ap (λ xs. machine.bytes_int (overlay xs (machine.junk 4 w))) out
            ∙ ap machine.bytes_int
                (overlay_all size (machine.junk 4 w) (omega (arith, four, hm.length-junk 4 w)))
            ∙ hm.bytes_int-int_bytes (pos n) small_int,
        h.no_error-positive src _ (lib.ssl_read src 4 w).1 (rw rc positive),
        left,
      )

  recv_big_lem :
      (sock : ℤ) (src : Ssl) (m : M) (bytes : Bytes) (t : Tls W) (w : W)
      → codec.serialize m ≡ some bytes
      → blocking_read lib os fuel sock src (pos (length bytes)) [] t.world ≡ ok (bytes, w)
      → recv_big lib os machine codec fuel sock src (pos (length bytes)) t
        ≡ ok (some m, record t { world = w })
  unfolding recv_big
  recv_big_lem sock src m bytes t w serial done =
      let read : codec.deserialize bytes ≡ some m = rw append-nil at (hc m bytes [] serial) in
      rw (recv_big, done, read) refl

  recv_small_lem :
      (sock : ℤ) (src : Ssl) (m : M) (bytes : Bytes) (t : Tls W) (w : W)
      → codec.serialize m ≡ some bytes
      → blocking_read lib os fuel sock src (pos (length bytes)) [] t.world ≡ ok (bytes, w)
      → recv_small lib os machine codec fuel sock src (pos (length bytes)) t
        ≡ ok (
          some m,
          record t {
            world = w;
            read_buffer = overlay (zeros (length bytes)) (overlay bytes t.read_buffer);
          },
        )
  unfolding recv_small
  recv_small_lem sock src m bytes t w serial done =
      let read : codec.deserialize (overlay bytes t.read_buffer) ≡ some m =
        unfold overlay in hc m bytes (drop (length bytes) t.read_buffer) serial in
      let natural : ltb_ℤ (pos (length bytes)) (pos 0) ≡ false = unfold ltb_ℤ in ground arith in
      rw (recv_small, done, read, natural) refl

  recv_at :
      (sock : ℤ) (src : Ssl) (size : ℤ) (t : Tls W)
      → let (read, w1) = lib.ssl_read src 4 t.world in
        machine.bytes_int (overlay read.out (machine.junk 4 t.world)) ≡ size
        → lib.ssl_get_error src read.rc w1 ≡ no_error
        → recv lib os machine codec fuel sock src t ≡ (
            if ltb_ℤ (pos read_buffer_size) size
            then recv_big lib os machine codec fuel sock src size (record t { world = w1 })
            else recv_small lib os machine codec fuel sock src size (record t { world = w1 }))
  unfolding recv
  recv_at sock src size t e fine = rw (recv, fine, e) refl

  -- The message is read whole, into either buffer, and the rest stays for the next call. Beside the world only the
  -- buffer has changed, and not in length.
  pub recv_lem :
      (sock : ℤ) (src : Ssl) (m : M) (bytes : Bytes) (chunks rest : List Bytes) (t : Tls W)
      → codec.serialize m ≡ some bytes
      → length bytes < 2 ^ 31
      → concat chunks ≡ bytes
      → AreFull chunks
      → records src t.world ≡ machine.int_bytes (pos (length bytes)) ∷ (chunks ++ rest)
      → length chunks < fuel
      → (w : W) × (buffer : Bytes) × (recv lib os machine codec fuel sock src t
          ≡ ok (some m, record t { read_buffer = buffer; world = w }))
        × (records src w ≡ rest)
        × (length t.read_buffer ≤ length buffer)
  recv_lem sock src m bytes chunks rest t serial small whole full there enough =
      let n = length bytes in
      let w1 = (lib.ssl_read src 4 t.world).1 in
      let (size, fine, left) = size_lem src n t.world (chunks ++ rest) small there in
      let (w, done, end) =
        read_chunks lib os records h fuel sock src n [] w1 chunks rest full left
          (omega (arith, ap length whole)) enough in
      let done' : blocking_read lib os fuel sock src (pos n) [] w1 ≡ ok (bytes, w) =
        done ∙ ap (λ xs. ok (xs, w)) whole in
      elim (Bool-cases (ltb_ℤ (pos read_buffer_size) (pos n))) [
        | inl big ↦ (
          w,
          t.read_buffer,
          recv_at sock src (pos n) t size fine
              ∙ rw big (recv_big_lem sock src m bytes (record t { world = w1 }) w serial done'),
          end,
          omega arith,
        )
        | inr fits ↦ (
          w,
          overlay (zeros n) (overlay bytes t.read_buffer),
          recv_at sock src (pos n) t size fine
              ∙ rw fits (recv_small_lem sock src m bytes (record t { world = w1 }) w serial done'),
          end,
          overlay_length bytes t.read_buffer,
        )
      ]

module _ {W M : Type 0} (lib : Openssl W) (os : Sockets W) (machine : Platform W) (codec : Codec M)
    (fuel : ℕ) (written records : Ssl → W → List Bytes) (split : Bytes → List Bytes) where
  -- Where the records that a `send` has written arrive in front of others, `recv` returns the message that was
  -- sent, and leaves the others, with a buffer that is no shorter. The data must have fewer than 2 ^ 31 bytes and
  -- fewer records than there is fuel, and OpenSSL, the machine and the serialisation library behave as documented.
  pub recv-send :
      IsWriting lib os written split
      → IsReading lib records
      → IsPlatform machine
      → IsCodec codec
      → (m : M) (bytes addr : Bytes) (dest src : Ssl) (sock : ℤ) (t t' u : Tls W)
        (new rest : List Bytes)
      → codec.serialize m ≡ some bytes
      → length bytes < 2 ^ 31
      → length (split bytes) < fuel
      → find_str addr t.ssl_from_addr ≡ some dest
      → send lib os machine codec fuel m addr t ≡ ok t'
      → written dest t'.world ≡ written dest t.world ++ new
      → records src u.world ≡ new ++ rest
      → (w : W) × (buffer : Bytes) × (recv lib os machine codec fuel sock src u
          ≡ ok (some m, record u { read_buffer = buffer; world = w }))
        × (records src w ≡ rest)
        × (length u.read_buffer ≤ length buffer)
  unfolding frame
  recv-send h hr hm hc m bytes addr dest src sock t t' u new rest serial small enough there sent
        grown arrived =
      let framed : new ≡ frame machine split bytes = append_cancel_left (written dest t.world) _ _ (
        sym grown
        ∙ send_lem lib os machine codec fuel written split h hm m addr bytes dest t t' serial there
            small sent) in
      recv_lem lib os machine codec fuel records hr hm hc sock src m bytes (split bytes) rest u
        serial small (h.concat-split bytes) (h.split-AreFull bytes)
        (arrived ∙ ap (λ rs. rs ++ rest) framed) enough
