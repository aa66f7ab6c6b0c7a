-- ===== src/Prelude/Int.antt =====
-- C++'s `int`, as a mathematical integer over the native numbers. The tests are shut, and proofs
-- read them by `eqb_ℤ_iff`, `ltb_ℤ_iff` and `leb_ℤ_iff`; an order is linear in the two parts.
use Prim.Native.Nat.{ℕ, zero, suc, ◌/◌, ◌+◌, ◌-◌, ◌≤◌, ◌<◌}
use mathlib.Core.Path.{◌≡◌, ap}
use mathlib.Core.Logic.{◌↔◌}
use mathlib.Core.Bool.{Bool, true, false}
use native.Mathlib.Omega.{arith}
use disk_tees.Prelude.Tests.{ltb, leb, ◌==◌, if◌then◌else◌}

-- `negsuc n` is -(n + 1).
pub data ℤ : Type 0 where
  pos : ℕ → ℤ
  negsuc : ℕ → ℤ

abbrev pub pos_part : ℤ → ℕ
pos_part (pos n) = n
pos_part (negsuc n) = 0

abbrev pub neg_part : ℤ → ℕ
neg_part (pos n) = 0
neg_part (negsuc n) = suc n

abbrev pub minus_one : ℤ
minus_one = negsuc 0

infix 50 ◌≤ℤ◌ ◌<ℤ◌
abbrev pub ◌≤ℤ◌ : ℤ → ℤ → Type 0
a ≤ℤ b = pos_part a + neg_part b ≤ pos_part b + neg_part a

abbrev pub ◌<ℤ◌ : ℤ → ℤ → Type 0
a <ℤ b = pos_part a + neg_part b < pos_part b + neg_part a

infix 50 ◌==ℤ◌
unfoldable pub ◌==ℤ◌ : ℤ → ℤ → Bool
a ==ℤ b = (pos_part a + neg_part b) == (pos_part b + neg_part a)

unfoldable pub ltb_ℤ : ℤ → ℤ → Bool
ltb_ℤ a b = ltb (pos_part a + neg_part b) (pos_part b + neg_part a)

unfoldable pub leb_ℤ : ℤ → ℤ → Bool
leb_ℤ a b = leb (pos_part a + neg_part b) (pos_part b + neg_part a)

infixl 65 ◌+ℤ◌
unfoldable pub ◌+ℤ◌ : ℤ → ℤ → ℤ
a +ℤ b =
    let p = pos_part a + pos_part b in
    let n = neg_part a + neg_part b in if leb n p then pos (p - n) else negsuc (n - p - 1)

pub eqb_ℤ_iff : (a b : ℤ) → ((a ==ℤ b) ≡ true) ↔ (a ≡ b)
unfolding ◌==ℤ◌
eqb_ℤ_iff a b = ground arith

pub ltb_ℤ_iff : (a b : ℤ) → (ltb_ℤ a b ≡ true) ↔ (a <ℤ b)
unfolding ltb_ℤ
ltb_ℤ_iff a b = ground arith

pub leb_ℤ_iff : (a b : ℤ) → (leb_ℤ a b ≡ true) ↔ (a ≤ℤ b)
unfolding leb_ℤ
leb_ℤ_iff a b = ground arith

pub +ℤ_parts :
    (a b : ℤ)
    → pos_part (a +ℤ b) + neg_part a + neg_part b ≡ neg_part (a +ℤ b) + pos_part a + pos_part b
unfolding ◌+ℤ◌
+ℤ_parts a b = ground arith

pub eq_of_parts : (a b : ℤ) → pos_part a + neg_part b ≡ pos_part b + neg_part a → a ≡ b
eq_of_parts a b h = ground arith

pub ltb_ℤ_irrefl : (a : ℤ) → ltb_ℤ a a ≡ false
unfolding ltb_ℤ
ltb_ℤ_irrefl a = ground arith

pub leb_ℤ-not_lt : (a b : ℤ) → (leb_ℤ a b ≡ false) ↔ (ltb_ℤ b a ≡ true)
unfolding leb_ℤ ltb_ℤ
leb_ℤ-not_lt a b = ground arith

pub pos-+ℤ-one : (n : ℕ) → pos n +ℤ pos 1 ≡ pos (suc n)
unfolding ◌+ℤ◌
pos-+ℤ-one n = ground arith

-- The numbers that follow `b`.
pub +ℤ-suc : (b : ℤ) (n : ℕ) → b +ℤ pos n +ℤ pos 1 ≡ b +ℤ pos (suc n)
+ℤ-suc b n =
    eq_of_parts _ _
      (omega (arith, +ℤ_parts b (pos n), +ℤ_parts (b +ℤ pos n) (pos 1), +ℤ_parts b (pos (suc n))))

pub +ℤ-injective : (b : ℤ) (i j : ℕ) → b +ℤ pos i ≡ b +ℤ pos j → i ≡ j
+ℤ-injective b i j e =
    omega (arith, +ℤ_parts b (pos i), +ℤ_parts b (pos j), ap pos_part e, ap neg_part e)

pub +ℤ-≤ℤ : (b : ℤ) (i j : ℕ) → i ≤ j → (b +ℤ pos i) ≤ℤ (b +ℤ pos j)
+ℤ-≤ℤ b i j h = omega (arith, +ℤ_parts b (pos i), +ℤ_parts b (pos j))

pub ltb_ℤ-+ℤ : (b : ℤ) (i j : ℕ) → ltb_ℤ (b +ℤ pos i) (b +ℤ pos j) ≡ ltb i j
unfolding ltb_ℤ
ltb_ℤ-+ℤ b i j = ground (arith, +ℤ_parts b (pos i), +ℤ_parts b (pos j))

pub eqb_ℤ-+ℤ : (b : ℤ) (i j : ℕ) → ((b +ℤ pos i) ==ℤ (b +ℤ pos j)) ≡ (i == j)
unfolding ◌==ℤ◌
eqb_ℤ-+ℤ b i j = ground (arith, +ℤ_parts b (pos i), +ℤ_parts b (pos j))

pub +ℤ-zero : (b : ℤ) → b +ℤ pos 0 ≡ b
+ℤ-zero b = eq_of_parts _ _ (omega (arith, +ℤ_parts b (pos 0)))

-- Unary minus, and `/ 2`, which truncates towards 0.
unfoldable pub neg : ℤ → ℤ
neg (pos zero) = pos 0
neg (pos (suc n)) = negsuc n
neg (negsuc n) = pos (suc n)

unfoldable pub halve : ℤ → ℤ
halve (pos n) = pos (n / 2)
halve (negsuc n) = neg (pos (suc n / 2))
