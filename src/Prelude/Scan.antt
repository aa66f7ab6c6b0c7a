-- ===== src/Prelude/Scan.antt =====
-- Reading a number from a text: `std::getline` with a delimiter, and `std::stoi`.
use Prim.Native.Nat.{ℕ, zero, suc, ◌+◌, ◌-◌, ◌*◌, ◌^◌}
use mathlib.Core.Bool.{Bool, true, false, ◌&&◌, ◌||◌}
use mathlib.Core.Option.{Option, none, some}
use mathlib.Core.List.{[], ◌∷◌}
use disk_tees.Prelude.Tests.{ltb, leb, ◌==◌, if◌then◌else◌}
use disk_tees.Prelude.Int.{ℤ, pos, negsuc}
use disk_tees.Prelude.Text.{Bytes}

-- A `std::istringstream`: what is left, and its eofbit.
pub record Stream : Type 0 where
  pub rest : Bytes
  pub eof : Bool

-- The part before the first `delim`, or all of it.
unfoldable pub split_at : ℕ → Bytes → Bytes × Stream
split_at delim [] = ([], record { rest = []; eof = true })
split_at delim (c ∷ cs) =
    let (token, stream) = split_at delim cs in
    if c == delim then ([], record { rest = cs; eof = false }) else (c ∷ token, stream)

-- `std::getline(stream, token, delim)`: at the end of the stream the sentry fails and `token` stays.
unfoldable pub getline : ℕ → Bytes → Stream → Bytes × Stream
unfolding split_at
getline delim token stream = if stream.eof then (token, stream) else split_at delim stream.rest

unfoldable pub is_digit : ℕ → Bool
is_digit c = leb b'0' c && leb c b'9'

unfoldable pub is_space : ℕ → Bool
is_space c = c == 32 || (leb 9 c && leb c 13)

-- The value of the digits in front, behind a number already read.
unfoldable pub read_digits : ℕ → Bytes → ℕ
unfolding is_digit
read_digits n [] = n
read_digits n (c ∷ cs) =
    let rest = read_digits (n * 10 + (c - b'0')) cs in if is_digit c then rest else n

-- `std::invalid_argument` where there is no digit.
unfoldable pub read_number : Bytes → Option ℕ
unfolding is_digit read_digits
read_number [] = none
read_number (c ∷ cs) = if is_digit c then some (read_digits 0 (c ∷ cs)) else none

-- `std::out_of_range` beyond an `int`.
unfoldable pub to_int : Bool → ℕ → Option ℤ
to_int false n = if ltb n (2 ^ 31) then some (pos n) else none
to_int true zero = some (pos 0)
to_int true (suc n) = if ltb n (2 ^ 31) then some (negsuc n) else none

unfoldable pub signed_number : Bool → Bytes → Option ℤ
unfolding read_number to_int
signed_number minus cs = elim (read_number cs) [ none ↦ none | some n ↦ to_int minus n ]

unfoldable pub after_space : Bytes → Option ℤ
unfolding signed_number
after_space [] = none
after_space (c ∷ cs) =
    if c == b'-'
    then signed_number true cs
    else if c == b'+'
    then signed_number false cs
    else signed_number false (c ∷ cs)

unfoldable pub skip_space : Bytes → Bytes
unfolding is_space
skip_space [] = []
skip_space (c ∷ cs) = let rest = skip_space cs in if is_space c then rest else c ∷ cs

-- `std::stoi`; `none` is an exception.
unfoldable pub stoi : Bytes → Option ℤ
unfolding skip_space after_space
stoi s = after_space (skip_space s)
