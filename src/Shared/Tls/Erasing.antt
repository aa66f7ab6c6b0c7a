-- ===== src/Shared/Tls/Erasing.antt =====
-- shared/tls.cpp: the loop of `runEventLoopOnce` that takes the closed sockets out of `openSockets`.
use disk_tees.Prelude.{
  ℕ, zero, suc, ◌+◌, ◌≤◌, ◌<◌, ◌==◌, ℤ, Bool, true, false, ◌||◌, List, [], ◌∷◌, All, ◌≡◌, refl, sym,
  ap, ◌∙◌, arith, if◌then◌else◌,
}
use disk_tees.Shared.Tls.Loop.{erase_at, erase_indices}

pub among : ℕ → List ℕ → Bool
among i [] = false
among i (d ∷ ds) = let rest = among i ds in i == d || rest

-- The sockets, from index `i` on, whose index is not to be erased.
pub survivors : ℕ → List ℕ → List ℤ → List ℤ
unfolding among
survivors i ds [] = []
survivors i ds (x ∷ xs) =
    let rest = survivors (suc i) ds xs in if among i ds then rest else x ∷ rest

unfoldable pub IsAscending : List ℕ → Type 0
IsAscending [] = Unit
IsAscending (d ∷ ds) = All (λ e. d < e) ds × IsAscending ds

not_among : (i d : ℕ) (ds : List ℕ) → i ≤ d → All (λ e. d < e) ds → among i ds ≡ false
unfolding among
not_among i d [] le h = refl
not_among i d (e ∷ ds) le (lt, h) = ground (arith, not_among i d ds le h)

passed : (i d : ℕ) (ds : List ℕ) (xs : List ℤ) → d < i → survivors i (d ∷ ds) xs ≡ survivors i ds xs
unfolding survivors among
passed i d ds [] lt = refl
passed i d ds (x ∷ xs) lt = ground (arith, passed (suc i) d ds xs (omega arith))

zero_lem : (d : ℕ) → 0 + d ≡ d
zero_lem d = omega arith

erase_one :
    (i d : ℕ) (ds : List ℕ) (xs : List ℤ)
    → All (λ e. i + d < e) ds
    → erase_at d (survivors i ds xs) ≡ survivors i ((i + d) ∷ ds) xs
unfolding erase_at survivors among
erase_one i d ds [] h = refl
erase_one i zero ds (x ∷ xs) h =
    let here : (i == i + 0) ≡ true = ground arith in
    rw (not_among i (i + 0) ds (omega arith) h, here)
      (sym (passed (suc i) (i + 0) ds xs (omega arith)))
erase_one i (suc d) ds (x ∷ xs) h =
    let before : (i == i + suc d) ≡ false = ground arith in
    let same : suc i + d ≡ i + suc d = omega arith in
    rw (not_among i (i + suc d) ds (omega arith) h, before)
      (ap (λ ys. x ∷ ys) (rw same at (erase_one (suc i) d ds xs (rw same h))))

survivors_nil : (i : ℕ) (xs : List ℤ) → survivors i [] xs ≡ xs
unfolding survivors among
survivors_nil i [] = refl
survivors_nil i (x ∷ xs) = ap (λ ys. x ∷ ys) (survivors_nil (suc i) xs)

-- Indices erased from the last to the first erase what stood at them at the beginning.
pub erase_indices_lem :
    (ds : List ℕ) (xs : List ℤ) → IsAscending ds → erase_indices ds xs ≡ survivors 0 ds xs
unfolding erase_indices IsAscending
erase_indices_lem [] xs h = sym (survivors_nil 0 xs)
erase_indices_lem (d ∷ ds) xs (above, h) =
    ap (erase_at d) (erase_indices_lem ds xs h)
    ∙ (rw zero_lem at (erase_one 0 d ds xs (rw zero_lem above)))
