-- ===== src/Shared/Convert.antt =====
-- The implicit conversions between `int` and `uint64_t` that file handles go through.
use disk_tees.Prelude.{
  ℕ, suc, ◌-◌, ◌%◌, ◌^◌, ◌<◌, ◌≤◌, ℤ, pos, negsuc, pos_part, neg_part, ◌≡◌, arith, ltb,
  if◌then◌else◌,
}

-- A `uint64_t` as an `int`.
unfoldable pub narrow : ℕ → ℤ
narrow fh = let w = fh % 2 ^ 32 in if ltb w (2 ^ 31) then pos w else negsuc (2 ^ 32 - w - 1)

-- An `int` as a `uint64_t`.
pub widen : ℤ → ℕ
widen (pos n) = n
widen (negsuc n) = 2 ^ 64 - suc n

-- A file descriptor survives the way through `fi->fh`.
pub narrow-widen : (fd : ℤ) → pos_part fd < 2 ^ 31 → neg_part fd ≤ 2 ^ 31 → narrow (widen fd) ≡ fd
unfolding narrow widen
narrow-widen (pos n) h k = ground arith
narrow-widen (negsuc n) h k = ground arith
