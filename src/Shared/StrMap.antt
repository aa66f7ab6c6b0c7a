-- ===== src/Shared/StrMap.antt =====
-- `std::map<std::string, V>`: its entries in the order of their keys, which is the order of iteration.
use disk_tees.Prelude.{
  ltb, ◌==◌, Bool, true, false, ◌||◌, ◌&&◌, Option, none, some, List, [], ◌∷◌, Bytes, eqb_str,
  eqb_str_iff, ◌≡◌, refl, arith, if◌then◌else◌,
}

abbrev pub StrMap {ℓ} : Type ℓ → Type ℓ
StrMap V = List (Bytes × V)

-- The lexicographic order of the bytes.
pub ltb_str : Bytes → Bytes → Bool
ltb_str [] [] = false
ltb_str [] (y ∷ ys) = true
ltb_str (x ∷ xs) [] = false
ltb_str (x ∷ xs) (y ∷ ys) = ltb x y || (x == y && ltb_str xs ys)

module _ {ℓ} {V : Type ℓ} where
  unfoldable pub find_str : Bytes → StrMap V → Option V
  find_str k [] = none
  find_str k ((j, v) ∷ m) = if eqb_str j k then some v else find_str k m

  unfoldable pub put_str : Bytes → V → StrMap V → StrMap V
  unfolding ltb_str
  put_str k v [] = (k, v) ∷ []
  put_str k v ((j, w) ∷ m) =
      if eqb_str j k
      then (k, v) ∷ m
      else if ltb_str k j
      then (k, v) ∷ (j, w) ∷ m
      else (j, w) ∷ put_str k v m

  pub erase_str : Bytes → StrMap V → StrMap V
  erase_str k [] = []
  erase_str k ((j, v) ∷ m) = let rest = erase_str k m in if eqb_str j k then rest else (j, v) ∷ rest

  pub find_str-put_str :
      (k j : Bytes) (v : V) (m : StrMap V)
      → find_str j (put_str k v m) ≡ (if eqb_str k j then some v else find_str j m)
  unfolding find_str put_str
  find_str-put_str k j v [] = refl
  find_str-put_str k j v ((i, w) ∷ m) =
      ground (arith, find_str-put_str k j v m, eqb_str_iff i k, eqb_str_iff i j, eqb_str_iff k j)

  pub find_str-erase_str :
      (k j : Bytes) (m : StrMap V)
      → find_str j (erase_str k m) ≡ (if eqb_str k j then none else find_str j m)
  unfolding find_str erase_str
  find_str-erase_str k j [] = ground arith
  find_str-erase_str k j ((i, v) ∷ m) =
      ground (arith, find_str-erase_str k j m, eqb_str_iff i k, eqb_str_iff i j, eqb_str_iff k j)
