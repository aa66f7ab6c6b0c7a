-- ===== src/Shared/IntMap.antt =====
-- `std::map<int, V>`: its entries in the order of their keys, which is the order of iteration.
use disk_tees.Prelude.{
  All, Bool-cases, inl, inr, ℤ, ◌≡◌, refl, Bool, true, false, ◌||◌, ◌&&◌, not, length, ◌≤◌, ◌<◌,
  Option, none, some, List, [], ◌∷◌, map, arith, ◌==ℤ◌, ltb_ℤ, eqb_ℤ_iff, if◌then◌else◌,
}

abbrev pub IntMap {ℓ} : Type ℓ → Type ℓ
IntMap V = List (ℤ × V)

module _ {ℓ} {V : Type ℓ} where
  unfoldable pub find : ℤ → IntMap V → Option V
  find k [] = none
  find k ((j, v) ∷ m) = if j ==ℤ k then some v else find k m

  unfoldable pub contains : ℤ → IntMap V → Bool
  contains k [] = false
  contains k ((j, v) ∷ m) = j ==ℤ k || contains k m

  -- `m[k] = v`
  unfoldable pub put : ℤ → V → IntMap V → IntMap V
  put k v [] = (k, v) ∷ []
  put k v ((j, w) ∷ m) =
      if j ==ℤ k then (k, v) ∷ m else if ltb_ℤ k j then (k, v) ∷ (j, w) ∷ m else (j, w) ∷ put k v m

  -- `m.emplace(k, v)`, `m.insert(...)`: a key that is there keeps its value
  unfoldable pub emplace : ℤ → V → IntMap V → IntMap V
  unfolding contains put
  emplace k v m = if contains k m then m else put k v m

  unfoldable pub erase : ℤ → IntMap V → IntMap V
  erase k [] = []
  erase k ((j, v) ∷ m) = let rest = erase k m in if j ==ℤ k then rest else (j, v) ∷ rest

  -- `std::views::values`
  abbrev pub values : IntMap V → List V
  values = map (λ e. e.1)

  pub find-put :
      (k j : ℤ) (v : V) (m : IntMap V) → find j (put k v m) ≡ (if k ==ℤ j then some v else find j m)
  unfolding find put
  find-put k j v [] = refl
  find-put k j v ((i, w) ∷ m) =
      ground (arith, find-put k j v m, eqb_ℤ_iff i k, eqb_ℤ_iff i j, eqb_ℤ_iff k j)

  pub find-erase :
      (k j : ℤ) (m : IntMap V) → find j (erase k m) ≡ (if k ==ℤ j then none else find j m)
  unfolding find erase
  find-erase k j [] = ground arith
  find-erase k j ((i, v) ∷ m) =
      ground (arith, find-erase k j m, eqb_ℤ_iff i k, eqb_ℤ_iff i j, eqb_ℤ_iff k j)

  -- What `contains` says of `find`.
  pub contains_iff_find :
      (k : ℤ) (m : IntMap V) → contains k m ≡ (elim (find k m) [ none ↦ false | some v ↦ true ])
  unfolding find contains
  contains_iff_find k [] = refl
  contains_iff_find k ((j, v) ∷ m) = ground (arith, contains_iff_find k m)

  pub contains-put :
      (k j : ℤ) (v : V) (m : IntMap V) → contains j (put k v m) ≡ (k ==ℤ j || contains j m)
  contains-put k j v m =
      ground (arith, contains_iff_find j (put k v m), contains_iff_find j m, find-put k j v m)

  pub contains-erase :
      (k j : ℤ) (m : IntMap V) → contains j (erase k m) ≡ (not (k ==ℤ j) && contains j m)
  contains-erase k j m =
      ground (arith, contains_iff_find j (erase k m), contains_iff_find j m, find-erase k j m)

  length-erase-le : (k : ℤ) (m : IntMap V) → length (erase k m) ≤ length m
  unfolding erase
  length-erase-le k [] = omega arith
  length-erase-le k ((j, v) ∷ m) = ground (arith, length-erase-le k m)

  -- An entry that is there makes room when it is erased.
  pub length-erase-lt : (k : ℤ) (m : IntMap V) → contains k m ≡ true → length (erase k m) < length m
  unfolding erase contains
  length-erase-lt k [] h = cc
  length-erase-lt k ((j, v) ∷ m) h = ground (arith, length-erase-lt k m, length-erase-le k m)

  pub All-put :
      (P : V → Type 0) (k : ℤ) (v : V) (m : IntMap V)
      → P v
      → All (λ e. P e.1) m
      → All (λ e. P e.1) (put k v m)
  unfolding put
  All-put P k v [] h hs = (h, hs)
  All-put P k v ((j, w) ∷ m) h (h', hs) = elim (Bool-cases (j ==ℤ k)) [
    | inl e ↦ rw e (h, hs)
    | inr e ↦ rw e (elim (Bool-cases (ltb_ℤ k j)) [
      | inl e' ↦ rw e' (h, (h', hs))
      | inr e' ↦ rw e' (h', All-put P k v m h hs)
    ])
  ]

  pub All-emplace :
      (P : V → Type 0) (k : ℤ) (v : V) (m : IntMap V)
      → P v
      → All (λ e. P e.1) m
      → All (λ e. P e.1) (emplace k v m)
  unfolding emplace
  All-emplace P k v m h hs = elim (Bool-cases (contains k m)) [
    | inl e ↦ rw e hs
    | inr e ↦ rw e (All-put P k v m h hs)
  ]
