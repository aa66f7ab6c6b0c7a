-- ===== src/Prelude/Results.antt =====
-- How a C++ function that returns nothing can end, in a state of type `S`.
use mathlib.Core.Path.{◌≡◌, refl}
use mathlib.Core.Bool.{Bool, true, false}
use mathlib.Core.Logic.{◌⊎◌, inl, inr}
use native.Mathlib.Omega.{arith}
use disk_tees.Prelude.Tests.{if◌then◌else◌}

pub data Outcome {ℓ} (S : Type ℓ) : Type ℓ where
  -- it returns
  ok : S → Outcome S
  -- a C++ exception leaves it; what it wrote before stays written
  threw : S → Outcome S
  -- `exit(EXIT_FAILURE)`
  exited : Outcome S
  -- a loop has not ended within its fuel
  out_of_fuel : Outcome S
  -- undefined behaviour
  undefined : Outcome S

infixl 5 ◌>>=◌
abbrev pub ◌>>=◌ {ℓ} : {S : Type ℓ} → Outcome S → (S → Outcome S) → Outcome S
ok s >>= f = f s
threw s >>= f = threw s
exited >>= f = exited
out_of_fuel >>= f = out_of_fuel
undefined >>= f = undefined

-- The same end, seen in a larger state.
abbrev pub map_outcome {ℓ κ} : {S : Type ℓ} {T : Type κ} → (S → T) → Outcome S → Outcome T
map_outcome f (ok s) = ok (f s)
map_outcome f (threw s) = threw (f s)
map_outcome f exited = exited
map_outcome f out_of_fuel = out_of_fuel
map_outcome f undefined = undefined

-- What comes next may be in another type. An exception is caught nowhere there, so it ends the process.
abbrev pub and_then {ℓ κ} : {S : Type ℓ} {T : Type κ} → Outcome S → (S → Outcome T) → Outcome T
and_then (ok s) f = f s
and_then (threw s) f = exited
and_then exited f = exited
and_then out_of_fuel f = out_of_fuel
and_then undefined f = undefined

pub and_then-eq-ok {ℓ κ} :
    {S : Type ℓ} {T : Type κ} (m : Outcome S) (f : S → Outcome T) {t : T}
    → and_then m f ≡ ok t
    → (s : S) × (m ≡ ok s) × (f s ≡ ok t)
and_then-eq-ok (ok s) f h = (s, refl, h)
and_then-eq-ok (threw s) f h = cc
and_then-eq-ok exited f h = cc
and_then-eq-ok out_of_fuel f h = cc
and_then-eq-ok undefined f h = cc

-- What holds of the state that an end leaves behind, if it leaves one.
abbrev pub Leaves {ℓ κ} : {S : Type ℓ} → (S → Type κ) → Outcome S → Type κ
Leaves P (ok s) = P s
Leaves P (threw s) = P s
Leaves P _ = Unit

pub >>=-eq-ok {ℓ} :
    {S : Type ℓ} (m : Outcome S) (f : S → Outcome S) {t : S}
    → (m >>= f) ≡ ok t
    → (s : S) × (m ≡ ok s) × (f s ≡ ok t)
>>=-eq-ok (ok s) f h = (s, refl, h)
>>=-eq-ok (threw s) f h = cc
>>=-eq-ok exited f h = cc
>>=-eq-ok out_of_fuel f h = cc
>>=-eq-ok undefined f h = cc

pub >>=-Leaves {ℓ κ} :
    {S : Type ℓ} (P : S → Type κ) (m : Outcome S) (f : S → Outcome S)
    → Leaves P m
    → ((s : S) → P s → Leaves P (f s))
    → Leaves P (m >>= f)
>>=-Leaves P (ok s) f h g = g s h
>>=-Leaves P (threw s) f h g = h
>>=-Leaves P exited f h g = tt
>>=-Leaves P out_of_fuel f h g = tt
>>=-Leaves P undefined f h g = tt

pub >>=_ok {ℓ} : {S : Type ℓ} (m : Outcome S) → (m >>= λ s. ok s) ≡ m
>>=_ok (ok s) = refl
>>=_ok (threw s) = refl
>>=_ok exited = refl
>>=_ok out_of_fuel = refl
>>=_ok undefined = refl

pub >>=_assoc {ℓ} :
    {S : Type ℓ} (m : Outcome S) (f g : S → Outcome S) → (m >>= f >>= g) ≡ (m >>= λ s. f s >>= g)
>>=_assoc (ok s) f g = refl
>>=_assoc (threw s) f g = refl
>>=_assoc exited f g = refl
>>=_assoc out_of_fuel f g = refl
>>=_assoc undefined f g = refl

pub Leaves-intro {ℓ κ} :
    {S : Type ℓ} (P : S → Type κ) (m : Outcome S)
    → ((s : S) → m ≡ ok s → P s)
    → ((s : S) → m ≡ threw s → P s)
    → Leaves P m
Leaves-intro P (ok s) f g = f s refl
Leaves-intro P (threw s) f g = g s refl
Leaves-intro P exited f g = tt
Leaves-intro P out_of_fuel f g = tt
Leaves-intro P undefined f g = tt

pub Leaves-map {ℓ κ ν} :
    {S : Type ℓ} {T : Type κ} (P : T → Type ν) (f : S → T) (m : Outcome S)
    → Leaves (λ s. P (f s)) m
    → Leaves P (map_outcome f m)
Leaves-map P f (ok s) h = h
Leaves-map P f (threw s) h = h
Leaves-map P f exited h = tt
Leaves-map P f out_of_fuel h = tt
Leaves-map P f undefined h = tt

pub Leaves-if {ℓ κ} :
    {S : Type ℓ} (P : S → Type κ) (b : Bool) (m n : Outcome S)
    → Leaves P m
    → Leaves P n
    → Leaves P (if b then m else n)
Leaves-if P true m n h k = h
Leaves-if P false m n h k = k

-- A property of everything holds of what is left.
pub Leaves-all {ℓ κ} : {S : Type ℓ} (P : S → Type κ) (m : Outcome S) → ((s : S) → P s) → Leaves P m
Leaves-all P m h = Leaves-intro P m (λ s e. h s) (λ s e. h s)

pub map_outcome-eq-ok {ℓ κ} :
    {S : Type ℓ} {T : Type κ} (f : S → T) (o : Outcome S) (m : T)
    → map_outcome f o ≡ ok m
    → (s : S) × (o ≡ ok s) × (f s ≡ m)
map_outcome-eq-ok f (ok s) m e = (s, refl, ground arith)
map_outcome-eq-ok f (threw s) m e = cc
map_outcome-eq-ok f exited m e = cc
map_outcome-eq-ok f out_of_fuel m e = cc
map_outcome-eq-ok f undefined m e = cc

-- Which of two branches has returned.
pub branched {ℓ} :
    {S : Type ℓ} (b : Bool) (x y : Outcome S) (m : S)
    → (elim b as (λ _. Outcome S) [ true ↦ x | false ↦ y ]) ≡ ok m
    → ((b ≡ true) × (x ≡ ok m)) ⊎ ((b ≡ false) × (y ≡ ok m))
branched true x y m e = inl (refl, e)
branched false x y m e = inr (refl, e)

pub decided {ℓ} :
    {S : Type ℓ} (b : Bool) (x : S) (y : Outcome S) (m : S)
    → (elim b as (λ _. Outcome S) [ true ↦ ok x | false ↦ y ]) ≡ ok m
    → ((b ≡ true) × (x ≡ m)) ⊎ ((b ≡ false) × (y ≡ ok m))
decided true x y m e = inl (refl, ground arith)
decided false x y m e = inr (refl, e)

pub >>=-cong {ℓ} :
    {S : Type ℓ} (m : Outcome S) (f g : S → Outcome S)
    → ((s : S) → f s ≡ g s)
    → (m >>= f) ≡ (m >>= g)
>>=-cong (ok s) f g h = h s
>>=-cong (threw s) f g h = refl
>>=-cong exited f g h = refl
>>=-cong out_of_fuel f g h = refl
>>=-cong undefined f g h = refl

pub if-eq-ok {ℓ} :
    {S : Type ℓ} (b : Bool) (x y : Outcome S) (m : S)
    → (if b then x else y) ≡ ok m
    → ((b ≡ true) × (x ≡ ok m)) ⊎ ((b ≡ false) × (y ≡ ok m))
if-eq-ok true x y m e = inl (refl, e)
if-eq-ok false x y m e = inr (refl, e)
