-- ===== src/Prelude/Text.antt =====
-- `std::string` as its bytes, and the decimal printing of an `int` by `std::to_string` and `<<`.
use Prim.Native.Nat.{ℕ, zero, suc, ◌+◌, ◌/◌, ◌%◌}
use Prim.Native.Char.{code}
use Prim.Native.String.{String}
use mathlib.Core.Path.{◌≡◌, refl}
use mathlib.Core.Logic.{◌↔◌}
use mathlib.Core.Bool.{Bool, true, false, ◌&&◌}
use mathlib.Core.List.{List, [], ◌∷◌, ◌++◌}
use native.Mathlib.Omega.{arith}
use disk_tees.Prelude.Tests.{ltb, ◌==◌}
use disk_tees.Prelude.Int.{ℤ, pos, negsuc}

abbrev pub Bytes : Type 0
Bytes = List ℕ

-- The bytes of an ASCII literal.
abbrev pub codes : String → Bytes
codes String.[] = []
codes (String.◌∷◌ c s) = code c ∷ codes s

unfoldable pub eqb_str : Bytes → Bytes → Bool
eqb_str [] [] = true
eqb_str (x ∷ xs) (y ∷ ys) = x == y && eqb_str xs ys
eqb_str _ _ = false

pub eqb_str_iff : (xs ys : Bytes) → (eqb_str xs ys ≡ true) ↔ (xs ≡ ys)
unfolding eqb_str
eqb_str_iff [] [] = ground arith
eqb_str_iff [] (y ∷ ys) = ground arith
eqb_str_iff (x ∷ xs) [] = ground arith
eqb_str_iff (x ∷ xs) (y ∷ ys) = ground (arith, eqb_str_iff xs ys)

-- Decimal digits, the highest first. A number has at most as many digits as its successor says.
unfoldable pub digits : ℕ → ℕ → Bytes
digits zero n = []
digits (suc fuel) n = elim (ltb n 10) [
  | true ↦ (b'0' + n) ∷ []
  | false ↦ digits fuel (n / 10) ++ (b'0' + n % 10) ∷ []
]

unfoldable pub to_string : ℤ → Bytes
unfolding digits
to_string (pos n) = digits (suc n) n
to_string (negsuc n) = b'-' ∷ digits (suc (suc n)) (suc n)

to_string_positive : to_string (pos 10100) ≡ codes "10100"
unfolding to_string
to_string_positive = refl

to_string_negative : to_string (negsuc 11) ≡ codes "-12"
unfolding to_string
to_string_negative = refl
