-- ===== src/Prelude/Dicts.antt =====
-- A Go map with string keys as an association list: reads, writes, and their law.
use Prim.Native.String.{String}
use mathlib.Core.Path.{◌≡◌, refl}
use mathlib.Core.Option
use mathlib.Core.Option.{Option, none, some}
use mathlib.Core.List.{List, [], ◌∷◌}
use mathlib.Core.Logic.{inl, inr}
use native.Mathlib.Omega.{arith}
use text.Mathlib.Text.{◌==◌}
use text.Mathlib.TextEquality.{eq_iff}
use waterfall.Prelude.Tests.{Bool-cases, if◌then◌else◌}

abbrev pub Dict {ℓ} : Type ℓ → Type ℓ
Dict V = List (String × V)

module _ {ℓ} {V : Type ℓ} where
  unfoldable pub get : Dict V → String → Option V
  get [] k = none
  get ((j, v) ∷ m) k = if j == k then some v else get m k

  unfoldable pub put : Dict V → String → V → Dict V
  put [] k v = (k, v) ∷ []
  put ((j, w) ∷ m) k v = if j == k then (k, v) ∷ m else (j, w) ∷ put m k v

  pub get-put :
      (m : Dict V) (k : String) (v : V) (j : String)
      → get (put m k v) j ≡ (if k == j then some v else get m j)
  unfolding get put
  get-put [] k v j = refl
  get-put ((i, w) ∷ m) k v j = ground (arith, eq_iff k j, eq_iff i k, eq_iff i j, get-put m k v j)

-- `delete(m, k)`.
module _ {ℓ} {V : Type ℓ} where
  unfoldable pub remove : Dict V → String → Dict V
  remove [] k = []
  remove ((j, v) ∷ m) k = let rest = remove m k in if j == k then rest else (j, v) ∷ rest

  pub get-remove :
      (m : Dict V) (k j : String) → get (remove m k) j ≡ (if k == j then none else get m j)
  unfolding get remove
  get-remove [] k j = ground (arith, eq_iff k j)
  get-remove ((i, w) ∷ m) k j = ground (arith, eq_iff k j, eq_iff i k, eq_iff i j, get-remove m k j)

-- What a read of a Go map yields: the zero value where the key is missing.
abbrev pub or_else {ℓ} : {A : Type ℓ} → A → Option A → A
or_else d none = d
or_else d (some a) = a

abbrev pub get2 {ℓ} : {A : Type ℓ} → Dict (Dict A) → String → String → Option A
get2 m t k = get (or_else [] (get m t)) k

-- The write that first makes the inner map where there is none.
abbrev pub put2 {ℓ} : {A : Type ℓ} → Dict (Dict A) → String → String → A → Dict (Dict A)
put2 m t k v = put m t (put (or_else [] (get m t)) k v)

module _ {ℓ} {A : Type ℓ} (m : Dict (Dict A)) (t k : String) (v : A) (s j : String) where
  pub get2-put2 :
      get2 (put2 m t k v) s j
      ≡ (if t == s then (if k == j then some v else get2 m s j) else get2 m s j)
  get2-put2 = ground (
    arith,
    get-put m t (put (or_else [] (get m t)) k v) s,
    get-put (or_else [] (get m t)) k v j,
    eq_iff t s,
  )

module _ {ℓ} {A : Type ℓ} (m : Dict (Dict A)) (t k : String) (v : A) where
  pub get2-put2_self : get2 (put2 m t k v) t k ≡ some v
  get2-put2_self = ground (arith, get2-put2 m t k v t k, eq_iff t t, eq_iff k k)

-- The values of a map under a function of the key and the value.
module _ {ℓ κ} {V : Type ℓ} {W : Type κ} (f : V → W) where
  unfoldable pub map_values : Dict V → Dict W
  map_values [] = []
  map_values ((k, v) ∷ m) = (k, f v) ∷ map_values m

  pub get-map_values : (m : Dict V) (k : String) → get (map_values m) k ≡ Option.map f (get m k)
  unfolding get map_values
  get-map_values [] k = refl
  get-map_values ((j, v) ∷ m) k = ground (arith, get-map_values m k)

-- A predicate that holds of every value of a map.
module _ {ℓ κ} {V : Type ℓ} (P : V → Type κ) where
  abbrev pub Each : Dict V → Type κ
  Each [] = Unit
  Each ((k, v) ∷ m) = P v × Each m

  pub Each-put : (m : Dict V) (k : String) (v : V) → Each m → P v → Each (put m k v)
  unfolding put
  Each-put [] k v h p = (p, tt)
  Each-put ((j, w) ∷ m) k v h p = elim (Bool-cases (j == k)) [
    | inl e ↦ rw e (p, h.1)
    | inr e ↦ rw e (h.0, Each-put m k v h.1 p)
  ]

  pub Each-or_else : (d : V) (m : Dict V) (k : String) → P d → Each m → P (or_else d (get m k))
  unfolding get
  Each-or_else d [] k p h = p
  Each-or_else d ((j, w) ∷ m) k p h = elim (Bool-cases (j == k)) [
    | inl e ↦ rw e h.0
    | inr e ↦ rw e (Each-or_else d m k p h.1)
  ]
