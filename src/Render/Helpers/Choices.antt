-- ===== src/Render/Helpers/Choices.antt =====
-- Which value the helpers of internal/render/helpers.go choose.
use herdr_tabline.Base.{
  ◌≡◌, ◌⊎◌, inl, inr, refl, ap, arith, true, false, List, [], ◌∷◌, ◌++◌, All, Bool-cases,
}
use herdr_tabline.Render.Helpers.{Value, text, is_zero, default_value, coalesce}

abbrev pub IsZero : Value → Type 0
IsZero v = is_zero v ≡ true

-- For every list of values: `coalesce` is the first that is not empty, or the empty text
-- where all are.
pub coalesce_lem :
    (values : List Value)
    → (All IsZero values × (coalesce values ≡ text ""))
      ⊎ ((front : List Value) × (v : Value) × (rest : List Value) × (values ≡ front ++ (v ∷ rest))
          × All IsZero front
          × (is_zero v ≡ false)
          × (coalesce values ≡ v))
unfolding coalesce
coalesce_lem [] = inl (tt, refl)
coalesce_lem (v ∷ vs) = elim (Bool-cases (is_zero v)) [
  | inr given ↦ inr ([], v, vs, refl, tt, given, rw given refl)
  | inl empty ↦ elim (coalesce_lem vs) [
    | inl (all, none_left) ↦ inl ((empty, all), rw empty none_left)
    | inr (front, w, rest, e, all, given, chosen) ↦
        inr (v ∷ front, w, rest, ap (λ xs. v ∷ xs) e, (empty, all), given, rw empty chosen)
  ]
]

-- For all values: a default that is not empty is chosen as `coalesce` chooses.
pub default_value-coalesce :
    (fallback value : Value)
    → is_zero fallback ≡ false
    → default_value fallback value ≡ coalesce (value ∷ fallback ∷ [])
unfolding default_value coalesce
default_value-coalesce fallback value h = ground arith
