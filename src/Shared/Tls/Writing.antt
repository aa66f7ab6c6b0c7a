-- ===== src/Shared/Tls/Writing.antt =====
-- shared/tls.cpp: what `send` writes.
use mathlib.Core.List.{append_assoc}
use disk_tees.Prelude.{
  take_all_lem, length-take, ℕ, zero, suc, ◌≤◌, ◌<◌, ◌^◌, ℤ, pos, leb_ℤ, IsInt, ◌≡◌, refl, sym, ap,
  ◌∙◌, ◌⊎◌, inl, inr, true, false, Option, none, some, List, [], ◌∷◌, ◌++◌, Bytes, length, take, ok,
  threw, ◌>>=◌, >>=-eq-ok, arith, branched, map_outcome-eq-ok,
}
use disk_tees.Shared.Convert.{narrow}
use disk_tees.Shared.StrMap.{find_str}
use disk_tees.Shared.Tls.{
  Ssl, SslError, no_error, want_read, want_write, fatal, PollEvent, Openssl, Sockets, Platform,
  Codec, Tls,
}
use disk_tees.Shared.Tls.Io.{block_on_err, blocking_write}
use disk_tees.Shared.Tls.Send.{write_frame, write_to, send}
use disk_tees.Shared.Tls.Streams.{AreFull, concat}

-- `written` are the records written so far; one write may be `split` into several.
pub record IsWriting {W : Type 0} (lib : Openssl W) (os : Sockets W)
    (written : Ssl → W → List Bytes) (split : Bytes → List Bytes) : Type 0 where
  pub written-write :
      (ssl : Ssl) (bytes : Bytes) (n : ℕ) (w : W)
      → leb_ℤ (lib.ssl_write ssl bytes (pos n) w).0 (pos 0) ≡ false
      → written ssl (lib.ssl_write ssl bytes (pos n) w).1 ≡ written ssl w ++ split (take n bytes)
  pub written-fail :
      (ssl : Ssl) (bytes : Bytes) (n : ℕ) (w : W)
      → leb_ℤ (lib.ssl_write ssl bytes (pos n) w).0 (pos 0) ≡ true
      → written ssl (lib.ssl_write ssl bytes (pos n) w).1 ≡ written ssl w
  pub written-poll_one :
      (ssl : Ssl) (sock : ℤ) (event : PollEvent) (w : W)
      → written ssl (os.poll_one sock event w) ≡ written ssl w
  pub concat-split : (bytes : Bytes) → concat (split bytes) ≡ bytes
  pub split-AreFull : (bytes : Bytes) → AreFull (split bytes)
  -- four bytes are one record
  pub split-four : (bytes : Bytes) → length bytes ≡ 4 → split bytes ≡ bytes ∷ []

pub record IsPlatform {W : Type 0} (machine : Platform W) : Type 0 where
  pub bytes_int-int_bytes : (z : ℤ) → IsInt z → machine.bytes_int (machine.int_bytes z) ≡ z
  pub length-int_bytes : (z : ℤ) → length (machine.int_bytes z) ≡ 4
  pub length-junk : (n : ℕ) (w : W) → length (machine.junk n w) ≡ n

-- What is read back needs no more than what was written, and what follows does not matter.
abbrev pub IsCodec : {M : Type 0} → Codec M → Type 0
IsCodec {M = M} codec =
    (m : M) (bytes extra : Bytes)
    → codec.serialize m ≡ some bytes
    → codec.deserialize (bytes ++ extra) ≡ some m

error_cases : (e : SslError) → (e ≡ no_error) ⊎ (e ≡ want_read) ⊎ (e ≡ want_write) ⊎ (e ≡ fatal)
error_cases no_error = inl refl
error_cases want_read = inr (inl refl)
error_cases want_write = inr (inr (inl refl))
error_cases fatal = inr (inr (inr refl))

module _ {W : Type 0} (lib : Openssl W) (os : Sockets W) (written : Ssl → W → List Bytes)
    (split : Bytes → List Bytes) (h : IsWriting lib os written split) where
  block_on_err_lem :
      (ssl ssl' : Ssl) (sock rc : ℤ) (w : W)
      → written ssl (block_on_err lib os sock ssl' rc w).1 ≡ written ssl w
  unfolding block_on_err
  block_on_err_lem ssl ssl' sock rc w = elim (error_cases (lib.ssl_get_error ssl' rc w)) [
    | inl fine ↦ rw (block_on_err, fine) refl
    | inr (inl reading) ↦
        rw (block_on_err, reading) (h.written-poll_one ssl sock PollEvent.pollin w)
    | inr (inr (inl writing)) ↦
        rw (block_on_err, writing) (h.written-poll_one ssl sock PollEvent.pollout w)
    | inr (inr (inr lost)) ↦ rw (block_on_err, lost) refl
  ]

  blocking_write_lem :
      (fuel : ℕ) (sock : ℤ) (ssl : Ssl) (bytes : Bytes) (n : ℕ) (w w' : W)
      → blocking_write lib os fuel sock ssl bytes (pos n) w ≡ ok w'
      → written ssl w' ≡ written ssl w ++ split (take n bytes)
  unfolding blocking_write
  blocking_write_lem zero sock ssl bytes n w w' e = cc
  blocking_write_lem (suc fuel) sock ssl bytes n w w' e =
      let (rc, w1) = lib.ssl_write ssl bytes (pos n) w in
      let blocked = block_on_err lib os sock ssl rc w1 in
      elim (branched (leb_ℤ rc (pos 0)) _ (ok w1) w' e) [
        | inr (done, e1) ↦
            let same : w1 ≡ w' = ground arith in rw (sym same) (h.written-write ssl bytes n w done)
        | inl (failed, e1) ↦
            let kept = block_on_err_lem ssl ssl sock rc w1 ∙ h.written-fail ssl bytes n w failed in
            elim (branched blocked.0 (blocking_write lib os fuel sock ssl bytes (pos n) blocked.1)
              (threw blocked.1) w' e1) [
                | inl (_, again) ↦
                    blocking_write_lem fuel sock ssl bytes n blocked.1 w' again
                    ∙ ap (λ rs. rs ++ split (take n bytes)) kept
                | inr (_, thrown) ↦ cc
              ]
      ]

-- The records of one message.
unfoldable pub frame : {W : Type 0} → Platform W → (Bytes → List Bytes) → Bytes → List Bytes
frame machine split bytes = machine.int_bytes (pos (length bytes)) ∷ split bytes

pub narrow_small : (n : ℕ) → n < 2 ^ 31 → narrow n ≡ pos n
unfolding narrow
narrow_small n small = ground arith

narrow_le : (n k : ℕ) → narrow n ≡ pos k → k ≤ n
unfolding narrow
narrow_le n k e = ground arith

module _ {W M : Type 0} (lib : Openssl W) (os : Sockets W) (machine : Platform W) (codec : Codec M)
    (fuel : ℕ) (written : Ssl → W → List Bytes) (split : Bytes → List Bytes)
    (h : IsWriting lib os written split) (hm : IsPlatform machine) where
  pub write_frame_lem :
      (sock : ℤ) (dest : Ssl) (bytes : Bytes) (k : ℕ) (w w' : W)
      → narrow (length bytes) ≡ pos k
      → write_frame lib os machine codec fuel sock dest bytes w ≡ ok w'
      → written dest w' ≡ written dest w ++ frame machine split (take k bytes)
  unfolding write_frame frame
  write_frame_lem sock dest bytes k w w' fits e =
      let n = k in
      let size = machine.int_bytes (pos n) in
      let e1 : (blocking_write lib os fuel sock dest size (pos 4) w >>= λ v.
      blocking_write lib os fuel sock dest bytes (pos n) v)
          ≡ ok w' =
        rw fits at e in
      let (w1, first, second) =
        >>=-eq-ok (blocking_write lib os fuel sock dest size (pos 4) w) _ e1 in
      let a = blocking_write_lem lib os written split h fuel sock dest size 4 w w1 first in
      let b = blocking_write_lem lib os written split h fuel sock dest bytes n w1 w' second in
      let a1 =
        a
        ∙ ap (λ x. written dest w ++ split x)
            (take_all_lem size 4 (omega (arith, hm.length-int_bytes (pos n))))
        ∙ ap (λ rs. written dest w ++ rs) (h.split-four size (hm.length-int_bytes (pos n))) in
      let kept = length-take k bytes (narrow_le (length bytes) k fits) in
      rw kept (
        b
        ∙ ap (λ rs. rs ++ split (take k bytes)) a1
        ∙ append_assoc (written dest w) (size ∷ []) (split (take k bytes)))

  write_to_lem :
      (sock : Option ℤ) (dest : Ssl) (bytes : Bytes) (k : ℕ) (t t' : Tls W)
      → narrow (length bytes) ≡ pos k
      → write_to lib os machine codec fuel sock (some dest) bytes t ≡ ok t'
      → written dest t'.world ≡ written dest t.world ++ frame machine split (take k bytes)
  unfolding write_to
  write_to_lem none dest bytes k t t' fits e = cc
  write_to_lem (some sock) dest bytes k t t' fits e =
      let (w, done, same) =
        map_outcome-eq-ok _ (write_frame lib os machine codec fuel sock dest bytes t.world) t' e in
      rw (ap (λ u. u.world) (sym same)) (write_frame_lem sock dest bytes k t.world w fits done)

  -- What a size of `k` lets through.
  pub send_size_lem :
      (payload : M) (addr : Bytes) (bytes : Bytes) (k : ℕ) (dest : Ssl) (t t' : Tls W)
      → codec.serialize payload ≡ some bytes
      → find_str addr t.ssl_from_addr ≡ some dest
      → narrow (length bytes) ≡ pos k
      → send lib os machine codec fuel payload addr t ≡ ok t'
      → written dest t'.world ≡ written dest t.world ++ frame machine split (take k bytes)
  unfolding send
  send_size_lem payload addr bytes k dest t t' serial there fits e =
      write_to_lem (find_str addr t.socket_from_addr) dest bytes k t t' fits
        (rw (send, serial, there) at e)

  pub send_lem :
      (payload : M) (addr : Bytes) (bytes : Bytes) (dest : Ssl) (t t' : Tls W)
      → codec.serialize payload ≡ some bytes
      → find_str addr t.ssl_from_addr ≡ some dest
      → length bytes < 2 ^ 31
      → send lib os machine codec fuel payload addr t ≡ ok t'
      → written dest t'.world ≡ written dest t.world ++ frame machine split bytes
  send_lem payload addr bytes dest t t' serial there small e =
      rw (take_all_lem bytes (length bytes) (omega arith)) at (
        send_size_lem payload addr bytes (length bytes) dest t t' serial there
          (narrow_small (length bytes) small) e)
