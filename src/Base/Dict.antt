-- ===== src/Base/Dict.antt =====
-- Go's maps with text keys: association lists. Proofs elsewhere go by the laws of `lookup`.
use Prim.Native.String.{String}
use mathlib.Core.Path.{◌≡◌, refl, ap}
use mathlib.Core.Bool.{Bool}
use mathlib.Core.Option.{Option, none, some}
use mathlib.Core.List.{List, [], ◌∷◌}
use native.Mathlib.Omega.{arith}
use herdr_tabline.Base.Equality.{◌==◌, string_eq, if◌then◌else◌}

abbrev pub Dict {ℓ} : Type ℓ → Type ℓ
Dict V = List (String × V)

module _ {ℓ} {V : Type ℓ} where
  -- `v, ok := m[k]`
  unfoldable pub lookup : String → Dict V → Option V
  lookup k [] = none
  lookup k ((j, v) ∷ d) = if k == j then some v else lookup k d

  -- `m[k] = v`
  unfoldable pub insert : String → V → Dict V → Dict V
  insert k v [] = (k, v) ∷ []
  insert k v ((j, w) ∷ d) = if k == j then (k, v) ∷ d else (j, w) ∷ insert k v d

  -- `delete(m, k)`
  unfoldable pub erase : String → Dict V → Dict V
  erase k [] = []
  erase k ((j, w) ∷ d) = let rest = erase k d in if k == j then rest else (j, w) ∷ rest

  -- `for k, v := range from { into[k] = v }`
  unfoldable pub merge : Dict V → Dict V → Dict V
  unfolding insert
  merge [] into = into
  merge ((k, v) ∷ from) into = merge from (insert k v into)

  -- `for k := range m { if !keep(k) { delete(m, k) } }`
  unfoldable pub retain : (String → Bool) → Dict V → Dict V
  retain keep [] = []
  retain keep ((k, v) ∷ d) = let rest = retain keep d in if keep k then (k, v) ∷ rest else rest

  -- A fresh map with the entries of another: `for k, v := range d { copy[k] = v }`
  unfoldable pub clone : Dict V → Dict V
  clone [] = []
  clone ((k, v) ∷ d) = (k, v) ∷ clone d

  -- Each key has one entry, as in a real map.
  abbrev pub NodupKeys : Dict V → Type ℓ
  NodupKeys [] = Unit
  NodupKeys ((k, _) ∷ d) = (lookup k d ≡ none) × NodupKeys d

  pub lookup-nil : (k : String) → lookup k [] ≡ none
  unfolding lookup
  lookup-nil k = refl

  pub lookup-cons :
      (j k : String) (v : V) (d : Dict V)
      → lookup j ((k, v) ∷ d) ≡ (if j == k then some v else lookup j d)
  unfolding lookup
  lookup-cons j k v d = refl

  pub lookup-insert :
      (j k : String) (v : V) (d : Dict V)
      → lookup j (insert k v d) ≡ (if j == k then some v else lookup j d)
  unfolding lookup insert
  lookup-insert j k v [] = refl
  lookup-insert j k v ((i, w) ∷ d) = ground (arith, lookup-insert j k v d)

  pub lookup-erase :
      (j k : String) (d : Dict V) → lookup j (erase k d) ≡ (if j == k then none else lookup j d)
  unfolding lookup erase
  lookup-erase j k [] = ground arith
  lookup-erase j k ((i, w) ∷ d) = ground (arith, lookup-erase j k d)

  pub lookup-retain :
      (keep : String → Bool) (j : String) (d : Dict V)
      → lookup j (retain keep d) ≡ (if keep j then lookup j d else none)
  unfolding lookup retain
  lookup-retain keep j [] = ground arith
  lookup-retain keep j ((k, v) ∷ d) = ground (arith, lookup-retain keep j d)

  pub clone_lem : (d : Dict V) → clone d ≡ d
  unfolding clone
  clone_lem [] = refl
  clone_lem ((k, v) ∷ d) = ap (λ (rest : Dict V). (k, v) ∷ rest) (clone_lem d)

module _ {ℓ} {V : Type ℓ} where
  -- A map of maps, copied with its inner maps.
  unfoldable pub clone_nested : Dict (Dict V) → Dict (Dict V)
  unfolding clone
  clone_nested [] = []
  clone_nested ((k, inner) ∷ d) = (k, clone inner) ∷ clone_nested d

  pub clone_nested_lem : (d : Dict (Dict V)) → clone_nested d ≡ d
  unfolding clone_nested
  clone_nested_lem [] = refl
  clone_nested_lem ((k, inner) ∷ d) = rw (clone_lem inner, clone_nested_lem d)
