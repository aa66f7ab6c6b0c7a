-- ===== src/Prelude/Digits.antt =====
-- Reading back what `std::to_string` prints.
use Prim.Native.Nat.{ℕ, zero, suc, ◌+◌, ◌*◌, ◌/◌, ◌%◌, ◌^◌, ◌≤◌, ◌<◌}
use mathlib.Core.Path.{◌≡◌, refl, ◌∙◌, ap}
use mathlib.Core.Logic.{inl, inr}
use mathlib.Core.Bool.{Bool, true, false}
use mathlib.Core.Option.{some}
use mathlib.Core.List.{[], ◌∷◌, ◌++◌, append_assoc, append-nil}
use native.Mathlib.Omega.{arith}
use disk_tees.Prelude.Tests.{ltb, ◌==◌, Bool-cases, ==_iff}
use disk_tees.Prelude.Int.{ℤ, pos, negsuc, pos_part, neg_part}
use disk_tees.Prelude.Lists.{All, All-append}
use disk_tees.Prelude.Text.{Bytes, digits, to_string}
use disk_tees.Prelude.Scan.{
  split_at, is_digit, is_space, read_digits, read_number, to_int, signed_number, after_space,
  skip_space, stoi,
}

-- Printing and reading back.
abbrev AllDigits : Bytes → Type 0
AllDigits cs = All (λ d. is_digit d ≡ true) cs

digit-is_digit : (n : ℕ) → n < 10 → is_digit (b'0' + n) ≡ true
unfolding is_digit
digit-is_digit n h = ground arith

digits_small : (fuel n : ℕ) → ltb n 10 ≡ true → digits (suc fuel) n ≡ (b'0' + n) ∷ []
unfolding digits
digits_small fuel n h = ground arith

digits_big :
    (fuel n : ℕ)
    → ltb n 10 ≡ false
    → digits (suc fuel) n ≡ digits fuel (n / 10) ++ (b'0' + n % 10) ∷ []
unfolding digits
digits_big fuel n h = ground arith

digits-AllDigits : (fuel n : ℕ) → AllDigits (digits fuel n)
digits-AllDigits zero n = unfold digits in tt
digits-AllDigits (suc fuel) n = elim (Bool-cases (ltb n 10)) [
  | inl small ↦ rw (digits_small fuel n small) (digit-is_digit n (ground arith), tt)
  | inr big ↦ rw (digits_big fuel n big) (
      All-append (λ d. is_digit d ≡ true) (digits fuel (n / 10)) ((b'0' + n % 10) ∷ [])
        (digits-AllDigits fuel (n / 10)) (digit-is_digit (n % 10) (omega arith), tt))
]

read_digits-cons :
    (m d : ℕ) (cs : Bytes) → d < 10 → read_digits m ((b'0' + d) ∷ cs) ≡ read_digits (m * 10 + d) cs
unfolding read_digits
read_digits-cons m d cs h =
    rw (digit-is_digit d h) (ap (λ k. read_digits (m * 10 + k) cs) (omega arith))

read_digits-digits :
    (fuel n : ℕ) (cs : Bytes) → n < fuel → read_digits 0 (digits fuel n ++ cs) ≡ read_digits n cs
read_digits-digits zero n cs h = absurd (omega arith)
read_digits-digits (suc fuel) n cs h = elim (Bool-cases (ltb n 10)) [
  | inl small ↦
      rw (digits_small fuel n small)
        (read_digits-cons 0 n cs (ground arith) ∙ ap (λ m. read_digits m cs) (omega arith))
  | inr big ↦
      rw (digits_big fuel n big, append_assoc)
        (read_digits-digits fuel (n / 10) ((b'0' + n % 10) ∷ cs) (ground arith)
          ∙ read_digits-cons (n / 10) (n % 10) cs (omega arith)
          ∙ ap (λ m. read_digits m cs) (omega arith))
]

append-ne_nil : (xs : Bytes) (c : ℕ) → (d : ℕ) × (ds : Bytes) × (xs ++ c ∷ [] ≡ d ∷ ds)
append-ne_nil [] c = (c, [], refl)
append-ne_nil (x ∷ xs) c = (x, xs ++ c ∷ [], refl)

digits-cons : (fuel n : ℕ) → n < fuel → (c : ℕ) × (cs : Bytes) × (digits fuel n ≡ c ∷ cs)
digits-cons zero n h = absurd (omega arith)
digits-cons (suc fuel) n h = elim (Bool-cases (ltb n 10)) [
  | inl small ↦ (b'0' + n, [], digits_small fuel n small)
  | inr big ↦
      let (c, cs, e) = append-ne_nil (digits fuel (n / 10)) (b'0' + n % 10) in
      (c, cs, digits_big fuel n big ∙ e)
]

-- What follows a number ends it.
pub Ends : Bytes → Type 0
Ends [] = Unit
Ends (c ∷ cs) = is_digit c ≡ false

read_digits-Ends : (n : ℕ) (cs : Bytes) → Ends cs → read_digits n cs ≡ n
unfolding read_digits Ends
read_digits-Ends n [] h = refl
read_digits-Ends n (c ∷ cs) h = rw h refl

-- A printed number reads back.
read_number-some :
    (c : ℕ) (cs : Bytes) → is_digit c ≡ true → read_number (c ∷ cs) ≡ some (read_digits 0 (c ∷ cs))
unfolding read_number
read_number-some c cs h = rw h refl

read_number-digits :
    (fuel n : ℕ) (cs : Bytes) → n < fuel → Ends cs → read_number (digits fuel n ++ cs) ≡ some n
read_number-digits fuel n cs h e =
    let (d, ds, split) = digits-cons fuel n h in
    let all : AllDigits (d ∷ ds) = rw split at (digits-AllDigits fuel n) in
    let found : read_digits 0 (d ∷ ds ++ cs) ≡ n =
      rw split at (read_digits-digits fuel n cs h ∙ read_digits-Ends n cs e) in
    rw split (read_number-some d (ds ++ cs) all.0 ∙ ap some found)

-- No digit is a sign or a space.
after_space_digit :
    (c : ℕ) (cs : Bytes) → is_digit c ≡ true → stoi (c ∷ cs) ≡ signed_number false (c ∷ cs)
unfolding stoi skip_space after_space is_space is_digit
after_space_digit c cs h = ground arith

signed_number-some :
    (minus : Bool) (cs : Bytes) (n : ℕ)
    → read_number cs ≡ some n
    → signed_number minus cs ≡ to_int minus n
unfolding signed_number to_int
signed_number-some minus cs n h = rw (signed_number, h) refl

stoi_minus : (cs : Bytes) → stoi (b'-' ∷ cs) ≡ signed_number true cs
unfolding stoi skip_space after_space is_space
stoi_minus cs = refl

to_int_fits :
    (n : ℕ)
    → (n < 2 ^ 31 → to_int false n ≡ some (pos n))
      × (n < 2 ^ 31 → to_int true (suc n) ≡ some (negsuc n))
unfolding to_int
to_int_fits n = (λ h. ground arith, λ h. ground arith)

stoi-digits : (fuel n : ℕ) → n < fuel → n < 2 ^ 31 → stoi (digits fuel n) ≡ some (pos n)
stoi-digits fuel n h r =
    let (d, ds, split) = digits-cons fuel n h in
    let all : AllDigits (d ∷ ds) = rw split at (digits-AllDigits fuel n) in
    let found : read_number (d ∷ ds) ≡ some n =
      rw (append-nil, split) at (read_number-digits fuel n [] h (unfold Ends in tt)) in
    rw split (
      after_space_digit d ds all.0
      ∙ signed_number-some false (d ∷ ds) n found
      ∙ (to_int_fits n).0 r)

-- The numbers of an `int`.
abbrev pub IsInt : ℤ → Type 0
IsInt z = (pos_part z < 2 ^ 31) × (neg_part z ≤ 2 ^ 31)

-- `std::stoi` reads back what `std::to_string` prints.
pub stoi-to_string : (z : ℤ) → IsInt z → stoi (to_string z) ≡ some z
unfolding to_string
stoi-to_string (pos n) h = stoi-digits (suc n) n (omega arith) h.0
stoi-to_string (negsuc n) h =
    let found : read_number (digits (suc (suc n)) (suc n)) ≡ some (suc n) =
      rw append-nil at
        (read_number-digits (suc (suc n)) (suc n) [] (omega arith) (unfold Ends in tt)) in
    stoi_minus (digits (suc (suc n)) (suc n))
    ∙ signed_number-some true _ (suc n) found
    ∙ (to_int_fits n).1 (omega arith)

-- A printed number has no delimiter in it that is not a digit or the sign.
abbrev pub Free : ℕ → Bytes → Type 0
Free delim cs = All (λ c. (c == delim) ≡ false) cs

digit_bounds : (c : ℕ) → is_digit c ≡ true → 48 ≤ c
unfolding is_digit
digit_bounds c h = ground arith

digits-Free : (cs : Bytes) → AllDigits cs → Free b',' cs
digits-Free [] h = tt
digits-Free (c ∷ cs) (d, ds) = (comma c d, digits-Free cs ds)
  where
    comma : (c : ℕ) → is_digit c ≡ true → (c == b',') ≡ false
    comma c h = ground (arith, digit_bounds c h)

pub to_string-Free : (z : ℤ) → Free b',' (to_string z)
unfolding to_string
to_string-Free (pos n) = digits-Free _ (digits-AllDigits (suc n) n)
to_string-Free (negsuc n) = (refl, digits-Free _ (digits-AllDigits (suc (suc n)) (suc n)))

pub split_at_first :
    (delim : ℕ) (token rest : Bytes)
    → Free delim token
    → split_at delim (token ++ delim ∷ rest) ≡ (token, record { rest = rest; eof = false })
unfolding split_at
split_at_first delim [] rest h = rw ((==_iff delim delim).1 refl) refl
split_at_first delim (c ∷ cs) rest (h, t) = rw (h, split_at_first delim cs rest t) refl

pub split_at_last :
    (delim : ℕ) (token : Bytes)
    → Free delim token
    → split_at delim token ≡ (token, record { rest = []; eof = true })
unfolding split_at
split_at_last delim [] h = refl
split_at_last delim (c ∷ cs) (h, t) = rw (h, split_at_last delim cs t) refl
