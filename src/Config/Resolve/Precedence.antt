-- ===== src/Config/Resolve/Precedence.antt =====
-- Which profile decides: internal/config/profile.go's `Resolve` against a description by fields.
use herdr_tabline.Base.{
  ◌≡◌, refl, String, Bool, true, false, ◌||◌, Option, none, some, List, [], ◌∷◌, if◌then◌else◌,
  arith, All,
}
use herdr_tabline.Model.{Context}
use herdr_tabline.Render.Engine.{Templates}
use herdr_tabline.Config.Types.{Host, Effective, CompiledProfile, Compiled}
use herdr_tabline.Config.Matching.{matches}
use herdr_tabline.Config.Compile.Validity.{IsMode, Between, WhereSet, IsValid}
use herdr_tabline.Config.Resolve.{apply_profile, apply_profiles, resolve}

abbrev pub or_default : {A : Type 0} → A → Option A → A
or_default d none = d
or_default d (some a) = a

abbrev pub is_set : {A : Type 0} → Option A → Bool
is_set none = false
is_set (some a) = true

module _ {H : Host} {T : Templates} where
  -- What the last matching profile that has a value in a field says of it.
  abbrev pub last_set :
      {A : Type 0}
      → (CompiledProfile H T → Option A)
      → Context
      → List (CompiledProfile H T)
      → Option A
  last_set field context [] = none
  last_set field context (p ∷ ps) = elim (last_set field context ps) [
    | some later ↦ some later
    | none ↦ if matches H p.match context then field p else none
  ]

  -- The name of a profile that overrides anything.
  abbrev pub overriding_name : CompiledProfile H T → Option String
  overriding_name p =
      if is_set p.mode || (is_set p.template || is_set p.max_width) then some p.name else none

module _ (H : Host) (T : Templates) where
  apply_profiles_lem :
      (context : Context) (ps : List (CompiledProfile H T)) (e : Effective T)
      → apply_profiles H T context ps e ≡ record {
        mode = or_default e.mode (last_set (λ (p : CompiledProfile H T). p.mode) context ps);
        template =
            or_default e.template (last_set (λ (p : CompiledProfile H T). p.template) context ps);
        max_width =
            or_default e.max_width (last_set (λ (p : CompiledProfile H T). p.max_width) context ps);
        profile_name = or_default e.profile_name (last_set overriding_name context ps);
      }
  unfolding apply_profiles
  apply_profiles_lem context [] e = refl
  apply_profiles_lem context (p ∷ ps) e =
      ground (arith, apply_profiles_lem context ps (apply_profile H T context p e))

  -- For every compiled configuration and context: each of mode, template and width is that of the
  -- last matching profile that sets it, and the top-level one where none does, whatever the other
  -- fields of that profile say; and the profile name is that of the last matching profile that
  -- sets any of the three, or `default`.
  pub resolve_lem :
      (c : Compiled H T) (context : Context)
      → resolve H T c context ≡ record {
        mode =
            or_default c.mode (last_set (λ (p : CompiledProfile H T). p.mode) context c.profiles);
        template =
            or_default c.template
              (last_set (λ (p : CompiledProfile H T). p.template) context c.profiles);
        max_width =
            or_default c.max_width
              (last_set (λ (p : CompiledProfile H T). p.max_width) context c.profiles);
        profile_name = or_default "default" (last_set overriding_name context c.profiles);
      }
  unfolding resolve
  resolve_lem c context = apply_profiles_lem context c.profiles _

  last_set-WhereSet :
      {A : Type 0} (P : A → Type 0) (field : CompiledProfile H T → Option A) (context : Context)
      (ps : List (CompiledProfile H T))
      → All (λ (p : CompiledProfile H T). WhereSet P (field p)) ps
      → WhereSet P (last_set field context ps)
  last_set-WhereSet P field context [] h = tt
  last_set-WhereSet {A} P field context (p ∷ ps) h =
      go (last_set field context ps) (last_set-WhereSet P field context ps h.1)
        (matches H p.match context)
    where
      go :
          (later : Option A)
          → WhereSet P later
          → (b : Bool)
          → WhereSet P (elim later [ some l ↦ some l | none ↦ if b then field p else none ])
      go (some l) w b = w
      go none w true = h.0
      go none w false = tt

  or_default-WhereSet :
      {A : Type 0} (P : A → Type 0) (d : A) (o : Option A) → P d → WhereSet P o → P (or_default d o)
  or_default-WhereSet P d none h w = h
  or_default-WhereSet P d (some a) h w = w

  All-map :
      {P Q : CompiledProfile H T → Type 0} (f : (p : CompiledProfile H T) → P p → Q p)
      (ps : List (CompiledProfile H T))
      → All P ps
      → All Q ps
  All-map f [] h = tt
  All-map f (p ∷ ps) h = (f p h.0, All-map f ps h.1)

  -- For every configuration that `compile` would accept and every context: whatever profiles match, the
  -- resolved mode is one of the three and the resolved width lies between 0 and 1024.
  pub resolve-IsMode :
      (c : Compiled H T) (context : Context)
      → IsValid c
      → let e = resolve H T c context in IsMode e.mode × Between 0 1024 e.max_width
  resolve-IsMode c context v = rw (resolve_lem c context) (
    or_default-WhereSet IsMode c.mode _ v.mode_known (
        last_set-WhereSet IsMode (λ (p : CompiledProfile H T). p.mode) context c.profiles
          (All-map (λ p w. w.mode_known) c.profiles v.profiles_valid)),
    or_default-WhereSet (Between 0 1024) c.max_width _ v.width_bounded (
        last_set-WhereSet (Between 0 1024) (λ (p : CompiledProfile H T). p.max_width) context
          c.profiles (All-map (λ p w. w.width_bounded) c.profiles v.profiles_valid)),
  )
