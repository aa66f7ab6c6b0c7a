-- ===== src/Shared/Tls/Io.antt =====
-- shared/tls.cpp: reads and writes that block.
use disk_tees.Prelude.{
  ℕ, zero, suc, ◌-◌, ℤ, pos, pos_part, ltb_ℤ, leb_ℤ, Bool, true, false, ◌++◌, Bytes, length,
  Outcome, ok, threw, out_of_fuel,
}
use disk_tees.Shared.Tls.{Ssl, no_error, want_read, want_write, fatal, PollEvent, Openssl, Sockets}

module _ {W : Type 0} (lib : Openssl W) (os : Sockets W) where
  unfoldable pub block_on_err : ℤ → Ssl → ℤ → W → Bool × W
  block_on_err sock ssl rc w = elim (lib.ssl_get_error ssl rc w) [
    | no_error ↦ (true, w)
    | want_read ↦ (true, os.poll_one sock PollEvent.pollin w)
    | want_write ↦ (true, os.poll_one sock PollEvent.pollout w)
    | fatal ↦ (false, w)
  ]

  unfoldable pub blocking_write : ℕ → ℤ → Ssl → Bytes → ℤ → W → Outcome W
  unfolding block_on_err
  blocking_write zero sock ssl buffer bytes w = out_of_fuel
  blocking_write (suc fuel) sock ssl buffer bytes w =
      let (rc, w1) = lib.ssl_write ssl buffer bytes w in
      elim (leb_ℤ rc (pos 0)) [
        | false ↦ ok w1
        | true ↦
            let (success, w2) = block_on_err sock ssl rc w1 in
            elim success [ true ↦ blocking_write fuel sock ssl buffer bytes w2 | false ↦ threw w2 ]
      ]

  -- `got` is what has been read so far, which is `readSoFar` bytes.
  unfoldable pub blocking_read : ℕ → ℤ → Ssl → ℤ → Bytes → W → Outcome (Bytes × W)
  unfolding block_on_err
  blocking_read zero sock ssl bytes got w = out_of_fuel
  blocking_read (suc fuel) sock ssl bytes got w = elim (ltb_ℤ (pos (length got)) bytes) [
    | false ↦ ok (got, w)
    | true ↦
        let (read, w1) = lib.ssl_read ssl (pos_part bytes - length got) w in
        elim (leb_ℤ read.rc (pos 0)) [
          | false ↦ blocking_read fuel sock ssl bytes (got ++ read.out) w1
          | true ↦
              let (success, w2) = block_on_err sock ssl read.rc w1 in
              elim success [
                | true ↦ blocking_read fuel sock ssl bytes got w2
                | false ↦ threw (got, w2)
              ]
        ]
  ]
