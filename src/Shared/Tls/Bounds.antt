-- ===== src/Shared/Tls/Bounds.antt =====
-- shared/tls.cpp: `send` of data of any length, whose size is an `int`.
use disk_tees.Prelude.{
  ℕ, zero, suc, ◌-◌, ◌%◌, ◌^◌, ◌<◌, ltb, ℤ, pos, negsuc, leb_ℤ, true, ◌≡◌, refl, ◌⊎◌, inl, inr,
  Option, none, some, List, ◌++◌, Bytes, length, take, ok, >>=-eq-ok, map_outcome-eq-ok, arith,
  Bool-cases,
}
use disk_tees.Shared.Convert.{narrow}
use disk_tees.Shared.StrMap.{find_str}
use disk_tees.Shared.Tls.{Ssl, fatal, Openssl, Sockets, Platform, Codec, Tls}
use disk_tees.Shared.Tls.Io.{block_on_err, blocking_write}
use disk_tees.Shared.Tls.Send.{write_frame, write_to, send}
use disk_tees.Shared.Tls.Writing.{IsWriting, IsPlatform, frame, send_size_lem}

-- `SSL_write` refuses a size below 0, and that is no reason to try again.
pub record RefusesNegative {W : Type 0} (lib : Openssl W) : Type 0 where
  pub rc-negative :
      (ssl : Ssl) (bytes : Bytes) (n : ℕ) (w : W)
      → leb_ℤ (lib.ssl_write ssl bytes (negsuc n) w).0 (pos 0) ≡ true
  pub fatal-negative :
      (ssl : Ssl) (bytes : Bytes) (n : ℕ) (w : W)
      → let (rc, w1) = lib.ssl_write ssl bytes (negsuc n) w in lib.ssl_get_error ssl rc w1 ≡ fatal

-- The sign of the size, and its value.
narrow_cases :
    (n : ℕ)
    → ((n % 2 ^ 32 < 2 ^ 31) × (narrow n ≡ pos (n % 2 ^ 32))) ⊎ ((j : ℕ) × (narrow n ≡ negsuc j))
unfolding narrow
narrow_cases n = elim (Bool-cases (ltb (n % 2 ^ 32) (2 ^ 31))) [
  | inl small ↦ rw small (inl (ground arith, refl))
  | inr large ↦ rw large (inr (2 ^ 32 - n % 2 ^ 32 - 1, refl))
]

module _ {W M : Type 0} (lib : Openssl W) (os : Sockets W) (machine : Platform W) (codec : Codec M)
    (fuel : ℕ) (refuses : RefusesNegative lib) where
  negative_throws :
      (fuel : ℕ) (sock : ℤ) (ssl : Ssl) (bytes : Bytes) (j : ℕ) (w w' : W)
      → ¬ (blocking_write lib os fuel sock ssl bytes (negsuc j) w ≡ ok w')
  unfolding blocking_write block_on_err
  negative_throws zero sock ssl bytes j w w' e = cc
  negative_throws (suc fuel) sock ssl bytes j w w' e =
      let thrown =
        rw
          (
            blocking_write,
            refuses.rc-negative ssl bytes j w,
            block_on_err,
            refuses.fatal-negative ssl bytes j w,
          )
          at e in
      cc

  size_is_natural :
      (sock : ℤ) (dest : Ssl) (bytes : Bytes) (j : ℕ) (w w' : W)
      → narrow (length bytes) ≡ negsuc j
      → ¬ (write_frame lib os machine codec fuel sock dest bytes w ≡ ok w')
  unfolding write_frame
  size_is_natural sock dest bytes j w w' size e =
      let (w1, _, second) =
        >>=-eq-ok
          (blocking_write lib os fuel sock dest (machine.int_bytes (narrow (length bytes))) (pos 4)
            w)
          _ e in
      negative_throws fuel sock dest bytes j w1 w' (rw size at second)

  send_is_natural :
      (sock : Option ℤ) (dest : Ssl) (bytes : Bytes) (j : ℕ) (t t' : Tls W)
      → narrow (length bytes) ≡ negsuc j
      → ¬ (write_to lib os machine codec fuel sock (some dest) bytes t ≡ ok t')
  unfolding write_to
  send_is_natural none dest bytes j t t' size e = cc
  send_is_natural (some sock) dest bytes j t t' size e =
      let (w, done, _) =
        map_outcome-eq-ok _ (write_frame lib os machine codec fuel sock dest bytes t.world) t' e in
      size_is_natural sock dest bytes j t.world w size done

  -- Of data of any length, a `send` that returns has written the first bytes, up to the length modulo 2 ^ 32, as one
  -- message, and this number is below 2 ^ 31: longer data is cut, or the call does not return. OpenSSL and the machine
  -- behave as documented.
  pub send_bounds :
      (written : Ssl → W → List Bytes) (split : Bytes → List Bytes)
      → IsWriting lib os written split
      → IsPlatform machine
      → (m : M) (addr : Bytes) (bytes : Bytes) (dest : Ssl) (t t' : Tls W)
      → codec.serialize m ≡ some bytes
      → find_str addr t.ssl_from_addr ≡ some dest
      → send lib os machine codec fuel m addr t ≡ ok t'
      → (length bytes % 2 ^ 32 < 2 ^ 31)
        × (written dest t'.world
            ≡ written dest t.world ++ frame machine split (take (length bytes % 2 ^ 32) bytes))
  unfolding send
  send_bounds written split h hm m addr bytes dest t t' serial there e =
      elim (narrow_cases (length bytes)) [
        | inl (small, size) ↦ (
          small,
          send_size_lem lib os machine codec fuel written split h hm m addr bytes
              (length bytes % 2 ^ 32) dest t t' serial there size e,
        )
        | inr (j, size) ↦ absurd (
            send_is_natural (find_str addr t.socket_from_addr) dest bytes j t t' size
              (rw (send, serial, there) at e))
      ]
