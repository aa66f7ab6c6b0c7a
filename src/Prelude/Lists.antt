-- ===== src/Prelude/Lists.antt =====
-- Lists measured and indexed by native numbers.
use Prim.Native.Nat.{ℕ, zero, suc, ◌+◌, ◌-◌, ◌≤◌, ◌<◌}
use mathlib.Core.Path.{◌≡◌, refl, ap}
use mathlib.Core.List.{List, [], ◌∷◌, ◌++◌, map}
use mathlib.Core.Option.{Option, none, some}
use mathlib.Core.Logic.{◌⊎◌, inl, inr}
use mathlib.Core.Bool.{Bool}
use native.Mathlib.Omega.{arith}
use disk_tees.Prelude.Tests.{if◌then◌else◌}

module _ {ℓ} {A : Type ℓ} where
  abbrev pub length : List A → ℕ
  length [] = 0
  length (x ∷ xs) = suc (length xs)

  abbrev pub get_elem? : List A → ℕ → Option A
  get_elem? [] i = none
  get_elem? (x ∷ xs) zero = some x
  get_elem? (x ∷ xs) (suc i) = get_elem? xs i

  abbrev pub take : ℕ → List A → List A
  take zero xs = []
  take (suc n) [] = []
  take (suc n) (x ∷ xs) = x ∷ take n xs

  abbrev pub drop : ℕ → List A → List A
  drop zero xs = xs
  drop (suc n) [] = []
  drop (suc n) (x ∷ xs) = drop n xs

  abbrev pub count_if : (A → Bool) → List A → ℕ
  count_if p [] = 0
  count_if p (x ∷ xs) = (if p x then 1 else 0) + count_if p xs

  abbrev pub All {κ} : (A → Type κ) → List A → Type κ
  All P [] = Unit
  All P (x ∷ xs) = P x × All P xs

  pub length-append : (xs ys : List A) → length (xs ++ ys) ≡ length xs + length ys
  length-append [] ys = omega arith
  length-append (x ∷ xs) ys = omega (arith, length-append xs ys)

  pub All-append {κ} : (P : A → Type κ) (xs ys : List A) → All P xs → All P ys → All P (xs ++ ys)
  All-append P [] ys hx hy = hy
  All-append P (x ∷ xs) ys hx hy = (hx.0, All-append P xs ys hx.1 hy)

  -- The first `n + 1` entries are the first `n` and the entry at `n`.
  pub take-suc :
      (n : ℕ) (xs : List A) (x : A)
      → get_elem? xs n ≡ some x
      → take (suc n) xs ≡ take n xs ++ x ∷ []
  take-suc n [] x e = ground arith
  take-suc zero (y ∷ ys) x e = ground arith
  take-suc (suc n) (y ∷ ys) x e = ap (◌∷◌ y) (take-suc n ys x e)

  pub get_elem?-append_end : (xs : List A) (x : A) → get_elem? (xs ++ x ∷ []) (length xs) ≡ some x
  get_elem?-append_end [] x = refl
  get_elem?-append_end (y ∷ ys) x = get_elem?-append_end ys x

  pub option_cases : (o : Option A) → (o ≡ none) ⊎ ((a : A) × (o ≡ some a))
  option_cases none = inl refl
  option_cases (some a) = inr (a, refl)

  pub drop_elem :
      (i : ℕ) (xs : List A) (x : A) → get_elem? xs i ≡ some x → drop i xs ≡ x ∷ drop (suc i) xs
  drop_elem i [] x e = cc
  drop_elem zero (y ∷ ys) x e = ground arith
  drop_elem (suc i) (y ∷ ys) x e = drop_elem i ys x e

  pub past_end : (i : ℕ) (xs : List A) → get_elem? xs i ≡ none → length xs ≤ i
  past_end i [] e = omega arith
  past_end zero (y ∷ ys) e = cc
  past_end (suc i) (y ∷ ys) e = omega (arith, past_end i ys e)

  pub within : (i : ℕ) (xs : List A) (x : A) → get_elem? xs i ≡ some x → i < length xs
  within i [] x e = cc
  within zero (y ∷ ys) x e = omega arith
  within (suc i) (y ∷ ys) x e = omega (arith, within i ys x e)

  pub length-take : (n : ℕ) (xs : List A) → n ≤ length xs → length (take n xs) ≡ n
  length-take zero xs h = refl
  length-take (suc n) [] h = absurd (omega arith)
  length-take (suc n) (x ∷ xs) h = omega (arith, length-take n xs (omega arith))

  pub take_all_lem : (xs : List A) (n : ℕ) → length xs ≤ n → take n xs ≡ xs
  take_all_lem [] zero h = refl
  take_all_lem [] (suc n) h = refl
  take_all_lem (x ∷ xs) zero h = absurd (omega arith)
  take_all_lem (x ∷ xs) (suc n) h = ap (λ ys. x ∷ ys) (take_all_lem xs n (omega arith))

  pub drop_all_lem : (xs : List A) (n : ℕ) → length xs ≤ n → drop n xs ≡ []
  drop_all_lem [] zero h = refl
  drop_all_lem [] (suc n) h = refl
  drop_all_lem (x ∷ xs) zero h = absurd (omega arith)
  drop_all_lem (x ∷ xs) (suc n) h = drop_all_lem xs n (omega arith)

  pub length-drop : (n : ℕ) (xs : List A) → length (drop n xs) ≡ length xs - n
  length-drop zero xs = omega arith
  length-drop (suc n) [] = omega arith
  length-drop (suc n) (x ∷ xs) = omega (arith, length-drop n xs)

  pub All-intro : (P : A → Type 0) → ((x : A) → P x) → (xs : List A) → All P xs
  All-intro P h [] = tt
  All-intro P h (x ∷ xs) = (h x, All-intro P h xs)

  pub All-mono : (P Q : A → Type 0) (xs : List A) → ((x : A) → P x → Q x) → All P xs → All Q xs
  All-mono P Q [] f h = tt
  All-mono P Q (x ∷ xs) f (h, hs) = (f x h, All-mono P Q xs f hs)

pub length-map {ℓ κ} :
    {A : Type ℓ} {B : Type κ} (f : A → B) (xs : List A) → length (map f xs) ≡ length xs
length-map f [] = refl
length-map f (x ∷ xs) = omega (arith, length-map f xs)
