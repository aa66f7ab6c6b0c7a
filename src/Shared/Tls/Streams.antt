-- ===== src/Shared/Tls/Streams.antt =====
-- What OpenSSL documents of TLS records, and what `blockingRead` makes of it.
use mathlib.Core.List.{append_assoc, append-nil}
use disk_tees.Prelude.{
  take_all_lem, drop_all_lem, ℕ, zero, suc, ◌+◌, ◌-◌, ◌≤◌, ◌<◌, ℤ, pos, ltb_ℤ, leb_ℤ, ◌≡◌, ◌≢◌,
  refl, sym, ap, ◌∙◌, true, false, List, [], ◌∷◌, ◌++◌, Bytes, length, take, drop, All, ok, arith,
  length-append,
}
use disk_tees.Shared.Tls.{Ssl, no_error, Openssl, Sockets}
use disk_tees.Shared.Tls.Io.{blocking_read}

-- What is left of a record in front of the others.
unfoldable pub put_back : Bytes → List Bytes → List Bytes
put_back [] records = records
put_back (b ∷ bytes) records = (b ∷ bytes) ∷ records

unfoldable pub concat : List Bytes → Bytes
concat [] = []
concat (r ∷ records) = r ++ concat records

-- `records` are those that have arrived and are not read yet. A read takes as much of the first as there is room
-- for, and leaves the rest of it.
pub record IsReading {W : Type 0} (lib : Openssl W) (records : Ssl → W → List Bytes) : Type 0 where
  pub out-read :
      (ssl : Ssl) (n : ℕ) (w : W) (b : ℕ) (bytes : Bytes) (rest : List Bytes)
      → records ssl w ≡ (b ∷ bytes) ∷ rest
      → (lib.ssl_read ssl (suc n) w).0.out ≡ take (suc n) (b ∷ bytes)
  pub rc-read :
      (ssl : Ssl) (n : ℕ) (w : W) (b : ℕ) (bytes : Bytes) (rest : List Bytes)
      → records ssl w ≡ (b ∷ bytes) ∷ rest
      → (lib.ssl_read ssl (suc n) w).0.rc ≡ pos (length (take (suc n) (b ∷ bytes)))
  pub records-read :
      (ssl : Ssl) (n : ℕ) (w : W) (b : ℕ) (bytes : Bytes) (rest : List Bytes)
      → records ssl w ≡ (b ∷ bytes) ∷ rest
      → records ssl (lib.ssl_read ssl (suc n) w).1 ≡ put_back (drop (suc n) (b ∷ bytes)) rest
  pub no_error-positive :
      (ssl : Ssl) (rc : ℤ) (w : W) → ltb_ℤ (pos 0) rc ≡ true → lib.ssl_get_error ssl rc w ≡ no_error

-- No record is empty.
unfoldable pub AreFull : List Bytes → Type 0
AreFull records = All (λ r. r ≢ []) records

length-positive : (r : Bytes) → r ≢ [] → 0 < length r
length-positive [] h = absurd (h refl)
length-positive (b ∷ r) h = omega arith

module _ {W : Type 0} (lib : Openssl W) (os : Sockets W) (records : Ssl → W → List Bytes)
    (h : IsReading lib records) where
  -- A read with room for the first record takes all of it.
  pub read_record :
      (ssl : Ssl) (n : ℕ) (w : W) (r : Bytes) (rest : List Bytes)
      → r ≢ []
      → length r ≤ n
      → records ssl w ≡ r ∷ rest
      → ((lib.ssl_read ssl n w).0.out ≡ r)
        × ((lib.ssl_read ssl n w).0.rc ≡ pos (length r))
        × (records ssl (lib.ssl_read ssl n w).1 ≡ rest)
  unfolding put_back
  read_record ssl n w [] rest full fits there = absurd (full refl)
  read_record ssl zero w (b ∷ bytes) rest full fits there = absurd (omega arith)
  read_record ssl (suc n) w (b ∷ bytes) rest full fits there = (
    h.out-read ssl n w b bytes rest there ∙ take_all_lem (b ∷ bytes) (suc n) fits,
    h.rc-read ssl n w b bytes rest there
        ∙ ap (λ xs. pos (length xs)) (take_all_lem (b ∷ bytes) (suc n) fits),
    h.records-read ssl n w b bytes rest there
        ∙ ap (λ xs. put_back xs rest) (drop_all_lem (b ∷ bytes) (suc n) fits),
  )

  all_read :
      (fuel : ℕ) (sock : ℤ) (ssl : Ssl) (n : ℕ) (got : Bytes) (w : W)
      → length got ≡ n
      → blocking_read lib os (suc fuel) sock ssl (pos n) got w ≡ ok (got, w)
  unfolding blocking_read
  all_read fuel sock ssl n got w e =
      let no_more : ltb_ℤ (pos (length got)) (pos n) ≡ false = unfold ltb_ℤ in ground (arith, e) in
      rw (blocking_read, no_more) refl

  one_read :
      (fuel : ℕ) (sock : ℤ) (ssl : Ssl) (n : ℕ) (got : Bytes) (w : W) (r : Bytes)
      → length got < n
      → 0 < length r
      → (lib.ssl_read ssl (n - length got) w).0.out ≡ r
      → (lib.ssl_read ssl (n - length got) w).0.rc ≡ pos (length r)
      → blocking_read lib os (suc fuel) sock ssl (pos n) got w
        ≡ blocking_read lib os fuel sock ssl
            (pos n)
            (got ++ r)
            (lib.ssl_read ssl (n - length got) w).1
  unfolding blocking_read
  one_read fuel sock ssl n got w r more some_bytes out rc =
      let more_left : ltb_ℤ (pos (length got)) (pos n) ≡ true = unfold ltb_ℤ in ground arith in
      let good : leb_ℤ (pos (length r)) (pos 0) ≡ false = unfold leb_ℤ in ground arith in
      rw (blocking_read, more_left, rc, good, out) refl

  -- `blockingRead` of all bytes of some records reads these records, with one round for each and one more.
  pub read_chunks :
      (fuel : ℕ) (sock : ℤ) (ssl : Ssl) (n : ℕ) (got : Bytes) (w : W) (chunks rest : List Bytes)
      → AreFull chunks
      → records ssl w ≡ chunks ++ rest
      → length got + length (concat chunks) ≡ n
      → length chunks < fuel
      → (w' : W) × (blocking_read lib os fuel sock ssl (pos n) got w
          ≡ ok (got ++ concat chunks, w'))
        × (records ssl w' ≡ rest)
  unfolding blocking_read concat AreFull
  read_chunks zero sock ssl n got w chunks rest full there size enough = absurd (omega arith)
  read_chunks (suc fuel) sock ssl n got w [] rest full there size enough = (
    w,
    all_read fuel sock ssl n got w (omega (arith, size))
        ∙ ap (λ xs. ok (xs, w)) (sym (append-nil got)),
    there,
  )
  read_chunks (suc fuel) sock ssl n got w (r ∷ chunks) rest (r_full, full) there size enough =
      let len = length-append r (concat chunks) in
      let n' = n - length got in
      let some_bytes = length-positive r r_full in
      let (out, rc, left) =
        read_record ssl n' w r (chunks ++ rest) r_full (omega (arith, size, len)) there in
      let w1 = (lib.ssl_read ssl n' w).1 in
      let (w', done, end) =
        read_chunks fuel sock ssl n (got ++ r) w1 chunks rest full left
          (omega (arith, size, len, length-append got r)) (omega (arith, enough)) in
      (
        w',
        one_read fuel sock ssl n got w r (omega (arith, size, len, some_bytes)) some_bytes out rc
            ∙ done
            ∙ ap (λ xs. ok (xs, w')) (append_assoc got r (concat chunks)),
        end,
      )
