-- ===== src/Base/Result.antt =====
-- A value or an error, and programs over a state that may fail: Go's `(A, error)` results.
use mathlib.Core.Path.{◌≡◌, refl}

pub data Result {ℓ κ} (E : Type ℓ) (A : Type κ) : Type (ℓ ⊔ κ) where
  ok : A → Result E A
  err : E → Result E A

-- Abbreviations, which compute in any proof.
infixl 5 ◌>>=◌
abbrev pub ◌>>=◌ {ε ℓ κ} :
    {E : Type ε} {Old : Type ℓ} {New : Type κ} → Result E Old → (Old → Result E New) → Result E New
err failure >>= next = err failure
ok value >>= next = next value

-- `fmt.Errorf("…: %w", err)`
abbrev pub map_err {ε δ ℓ} :
    {E : Type ε} {D : Type δ} {A : Type ℓ} → (E → D) → Result E A → Result D A
map_err f (ok a) = ok a
map_err f (err e) = err (f e)

abbrev pub is_ok {ε ℓ} : {E : Type ε} {A : Type ℓ} → Result E A → mathlib.Core.Bool.Bool
is_ok (ok a) = mathlib.Core.Bool.true
is_ok (err e) = mathlib.Core.Bool.false

-- A chain that succeeds had a first part that did.
pub >>=-eq-ok {ε ℓ κ} :
    {E : Type ε} {Old : Type ℓ} {New : Type κ} (first : Result E Old) (next : Old → Result E New)
    {final : New}
    → first >>= next ≡ ok final
    → (value : Old) × (first ≡ ok value) × (next value ≡ ok final)
>>=-eq-ok (err failure) next done = cc
>>=-eq-ok (ok value) next done = (value, refl, done)
