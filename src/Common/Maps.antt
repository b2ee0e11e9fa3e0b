-- ===== src/Common/Maps.antt =====
-- A `std::map` with string keys as an association list. Nothing that is modelled depends on the
-- order of its keys.
use mathlib.Core.Path.{◌≡◌, refl}
use mathlib.Core.Bool.{Bool, true, false}
use mathlib.Core.Option.{Option, none, some}
use mathlib.Core.List.{List, [], ◌∷◌}
use native.Mathlib.Omega.{arith}
use boost_web_server.Common.Tests.{if◌then◌else◌}
use boost_web_server.Common.Text.{Bytes, ◌=s=◌, =s=_iff}

abbrev pub Map {ℓ} : Type ℓ → Type ℓ
Map V = List (Bytes × V)

abbrev is_some {ℓ} : {V : Type ℓ} → Option V → Bool
is_some none = false
is_some (some v) = true

some_lem {ℓ} : {V : Type ℓ} (o : Option V) → is_some o ≡ true → (v : V) × (o ≡ some v)
some_lem none h = cc
some_lem (some v) h = (v, refl)

module _ {ℓ} {V : Type ℓ} where
  -- `map.find(key)`
  unfoldable pub map_find : Bytes → Map V → Option V
  map_find k [] = none
  map_find k ((j, w) ∷ m) = if j =s= k then some w else map_find k m

  -- `map.find(key) != map.end()`
  unfoldable pub map_has : Bytes → Map V → Bool
  unfolding map_find
  map_has k m = is_some (map_find k m)

  -- `map[key] = value`
  unfoldable pub map_set : Bytes → V → Map V → Map V
  map_set k v [] = (k, v) ∷ []
  map_set k v ((j, w) ∷ m) = if j =s= k then (k, v) ∷ m else (j, w) ∷ map_set k v m

  -- `map.emplace(key, value)`: a key that is there keeps its value.
  unfoldable pub map_emplace : Bytes → V → Map V → Map V
  map_emplace k v [] = (k, v) ∷ []
  map_emplace k v ((j, w) ∷ m) = if j =s= k then (j, w) ∷ m else (j, w) ∷ map_emplace k v m

  -- `map[key]` as a value, with what a missing key is given.
  unfoldable pub map_index : V → Bytes → Map V → V × Map V
  unfolding map_find map_set
  map_index d k m = elim (map_find k m) [ some v ↦ (v, m) | none ↦ (d, map_set k d m) ]

  pub map_find-set :
      (k j : Bytes) (v : V) (m : Map V)
      → map_find j (map_set k v m) ≡ (if k =s= j then some v else map_find j m)
  unfolding map_find map_set
  map_find-set k j v [] = refl
  map_find-set k j v ((i, w) ∷ m) =
      ground (arith, =s=_iff k j, =s=_iff i k, =s=_iff i j, map_find-set k j v m)

  pub map_find-emplace :
      (k j : Bytes) (v : V) (m : Map V)
      → map_find j (map_emplace k v m)
        ≡ (if map_has k m then map_find j m else if k =s= j then some v else map_find j m)
  unfolding map_find map_emplace map_has
  map_find-emplace k j v [] = refl
  map_find-emplace k j v ((i, w) ∷ m) =
      ground (arith, =s=_iff k j, =s=_iff i k, =s=_iff i j, map_find-emplace k j v m)

  pub map_has-find :
      (k : Bytes) (m : Map V) → map_has k m ≡ true → (v : V) × (map_find k m ≡ some v)
  unfolding map_has
  map_has-find k m h = some_lem (map_find k m) h
