-- ===== src/Base/Lists.antt =====
-- Lists measured and indexed by native numbers, and the predicates on them.
use Prim.Native.Nat.{ℕ, zero, suc, ◌+◌}
use mathlib.Core.Path.{◌≡◌, refl, ap}
use mathlib.Core.List.{List, [], ◌∷◌, ◌++◌, map}
use mathlib.Core.Bool.{Bool, true, false, cond}
use mathlib.Core.Logic.{◌↔◌, inl, inr}
use herdr_tabline.Base.Equality.{Bool-cases}
use mathlib.Core.Option.{Option, none, some}
use native.Mathlib.Omega.{arith}

module _ {ℓ} {A : Type ℓ} where
  abbrev pub length : List A → ℕ
  length [] = 0
  length (x ∷ xs) = suc (length xs)

  abbrev pub get_elem? : List A → ℕ → Option A
  get_elem? [] i = none
  get_elem? (x ∷ xs) zero = some x
  get_elem? (x ∷ xs) (suc i) = get_elem? xs i

  pub length-append : (xs ys : List A) → length (xs ++ ys) ≡ length xs + length ys
  length-append [] ys = omega arith
  length-append (x ∷ xs) ys = omega (arith, length-append xs ys)

-- The last element that passes a test.
abbrev pub last_such {ℓ} : {A : Type ℓ} → (A → Bool) → List A → Option A
last_such test [] = none
last_such test (x ∷ xs) = elim (last_such test xs) [
  | some y ↦ some y
  | none ↦ cond (test x) (some x) none
]

-- Every element satisfies the predicate; it computes to tuples, which the tactics read.
abbrev pub All {ℓ κ} : {A : Type ℓ} → (A → Type κ) → List A → Type κ
All P [] = Unit
All P (x ∷ xs) = P x × All P xs

module _ {ℓ κ} {A : Type ℓ} (P : A → Type κ) where
  pub All-append : (xs ys : List A) → All P xs → All P ys → All P (xs ++ ys)
  All-append [] ys hx hy = hy
  All-append (x ∷ xs) ys hx hy = (hx.0, All-append xs ys hx.1 hy)

pub All-map {ℓ κ κ'} :
    {A : Type ℓ} {P : A → Type κ} {Q : A → Type κ'} (f : (x : A) → P x → Q x) (xs : List A)
    → All P xs
    → All Q xs
All-map f [] all = tt
All-map f (x ∷ xs) all = (f x all.0, All-map f xs all.1)

pub length-map {ℓ κ} :
    {A : Type ℓ} {B : Type κ} (f : A → B) (xs : List A) → length (map f xs) ≡ length xs
length-map f [] = refl
length-map f (x ∷ xs) = ap suc (length-map f xs)

-- An element of a list that satisfies a predicate.
pub data Some {ℓ κ} {A : Type ℓ} (P : A → Type κ) : List A → Type (ℓ ⊔ κ) where
  here : {x : A} {xs : List A} → P x → Some P (x ∷ xs)
  there : {x : A} {xs : List A} → Some P xs → Some P (x ∷ xs)

abbrev pub any {ℓ} : {A : Type ℓ} → (A → Bool) → List A → Bool
any test [] = false
any test (x ∷ xs) = cond (test x) true (any test xs)

module _ {ℓ} {A : Type ℓ} (test : A → Bool) where
  any-Some : (xs : List A) → any test xs ≡ true → Some (λ x. test x ≡ true) xs
  any-Some [] h = cc
  any-Some (x ∷ xs) h = elim (Bool-cases (test x)) [
    | inl e ↦ here e
    | inr e ↦ there (any-Some xs (ground arith))
  ]

  Some-any : (xs : List A) → Some (λ x. test x ≡ true) xs → any test xs ≡ true
  Some-any _ (here e) = ground arith
  Some-any _ (there {xs = xs} s) = ground (arith, Some-any xs s)

  pub any-↔-Some : (xs : List A) → any test xs ≡ true ↔ Some (λ x. test x ≡ true) xs
  any-↔-Some xs = (any-Some xs, Some-any xs)
