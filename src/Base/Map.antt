-- ===== src/Base/Map.antt =====
-- Go's `map[string]V`. A key stands once in the list of entries; the order of the entries is the
-- order in which a `range` loop meets them, which Go leaves open.
use mathlib.Core.Path.{◌≡◌}
use mathlib.Core.Bool.{true, false}
use mathlib.Core.Option.{Option, none, some}
use mathlib.Core.List.{List, [], ◌∷◌}
use Prim.Native.String.{String}
use text.Mathlib.Text.{◌==◌ as str_eq}
use text.Mathlib.TextEquality.{eq_iff}
use native.Mathlib.Omega.{arith}
use bacalhau.Base.Tests.{if◌then◌else◌}

-- The type of a map.
abbrev pub Map {ℓ} : Type ℓ → Type ℓ
Map V = List (String × V)

module _ {ℓ} {V : Type ℓ} where
  -- `v, ok := m[k]`
  unfoldable pub get : Map V → String → Option V
  get [] k = none
  get ((j, v) ∷ m) k = if str_eq j k then some v else get m k

  -- `delete(m, k)`
  unfoldable pub remove : Map V → String → Map V
  remove [] k = []
  remove ((j, v) ∷ m) k = let rest = remove m k in if str_eq j k then rest else (j, v) ∷ rest

  -- `m[k] = v`
  unfoldable pub put : Map V → String → V → Map V
  unfolding remove
  put m k v = (k, v) ∷ remove m k

  pub get-remove :
      (m : Map V) (k j : String) → get (remove m k) j ≡ (if str_eq k j then none else get m j)
  unfolding get remove
  get-remove [] k j = ground arith
  get-remove ((i, v) ∷ m) k j = ground (arith, get-remove m k j, eq_iff i k, eq_iff i j, eq_iff k j)

  pub get-put :
      (m : Map V) (k : String) (v : V) (j : String)
      → get (put m k v) j ≡ (if str_eq k j then some v else get m j)
  unfolding get put
  get-put m k v j = ground (arith, get-remove m k j, eq_iff k j)

  pub get-put_self : (m : Map V) (k : String) (v : V) → get (put m k v) k ≡ some v
  get-put_self m k v = ground (arith, get-put m k v k, eq_iff k k)

  pub get-remove_self : (m : Map V) (k : String) → get (remove m k) k ≡ none
  get-remove_self m k = ground (arith, get-remove m k k, eq_iff k k)

module _ {ℓ} {V : Type ℓ} (m : Map V) (k j : String) where
  pub get-put_same : (v : V) → str_eq k j ≡ true → get (put m k v) j ≡ some v
  get-put_same v e = ground (arith, get-put m k v j)

  pub get-put_other : (v : V) → str_eq k j ≡ false → get (put m k v) j ≡ get m j
  get-put_other v e = ground (arith, get-put m k v j)

  pub get-remove_same : str_eq k j ≡ true → get (remove m k) j ≡ none
  get-remove_same e = ground (arith, get-remove m k j)

  pub get-remove_other : str_eq k j ≡ false → get (remove m k) j ≡ get m j
  get-remove_other e = ground (arith, get-remove m k j)

pub ruleset map_laws = (get-remove, get-put)

-- `m[k]`, which is the zero value on a missing key.
unfoldable pub get_or {ℓ} : {V : Type ℓ} → Map V → String → V → V
get_or m k d = elim (get m k) [ none ↦ d | some v ↦ v ]

module _ {ℓ} {V : Type ℓ} (m : Map V) (k j : String) (d : V) where
  pub get_or-put : (v : V) → get_or (put m k v) j d ≡ (if str_eq k j then v else get_or m j d)
  unfolding get_or
  get_or-put v = ground (arith, get-put m k v j)

  pub get_or-remove : get_or (remove m k) j d ≡ (if str_eq k j then d else get_or m j d)
  unfolding get_or
  get_or-remove = ground (arith, get-remove m k j)

pub get_or-here {ℓ} :
    {V : Type ℓ} (m : Map V) (k : String) (d v : V) → get m k ≡ some v → get_or m k d ≡ v
unfolding get_or
get_or-here m k d v h = ground (arith, h)
