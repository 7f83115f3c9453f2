-- ===== src/Config/Compile/Validity.antt =====
-- What internal/config/load.go's `compile` guarantees of a configuration that it accepts.
use mathlib.Core.Path.{subst, ap₂}
use herdr_tabline.Base.{
  ℕ, ◌+◌, ◌≤◌, ◌≡◌, ◌≢◌, ◌⊎◌, refl, sym, String, Bool, true, false, ◌||◌, Option, none, some, List,
  [], ◌∷◌, map, arith,
}
use herdr_tabline.Base.{string_eq, contains, All}
use herdr_tabline.Base.Int.{ℤ, pos, negsuc, int_eq, ltb_ℤ}
use herdr_tabline.Base.Result.{Result, ok, err, ◌>>=◌, >>=-eq-ok, map_err}
use herdr_tabline.Render.Engine.{Engine, Templates, new_engine}
use herdr_tabline.Config.Types.{
  Mode, mode_auto, mode_keybind, mode_off, Profile, Source, Host, CompiledProfile, Compiled,
}
use herdr_tabline.Config.Compile.{
  ConfigError, invalid_duration, duration_out_of_range, reject, ◌>>◌, valid_mode, bad_width,
  default_of, default_text, configured_icons, parse_bounded_duration, set_mode_is_bad,
  set_width_is_bad, compile_profile, compile_profiles, compile,
}

abbrev pub Between : ℕ → ℕ → ℤ → Type 0
Between low high (pos n) = (low ≤ n) × (n ≤ high)
Between low high (negsuc n) = ⊥

abbrev pub IsMode : Mode → Type 0
IsMode mode = (mode ≡ mode_auto) ⊎ (mode ≡ mode_keybind) ⊎ (mode ≡ mode_off)

abbrev pub WhereSet : {A : Type 0} → (A → Type 0) → Option A → Type 0
WhereSet P none = Unit
WhereSet P (some a) = P a

pub record IsValidProfile {H : Host} {T : Templates} (profile : CompiledProfile H T) : Type 0 where
  pub named : profile.name ≢ ""
  pub mode_known : WhereSet IsMode profile.mode
  pub width_bounded : WhereSet (Between 0 1024) profile.max_width

-- No name occurs among those before it, nor among those seen.
abbrev pub DistinctFrom : List String → List String → Type 0
DistinctFrom seen [] = Unit
DistinctFrom seen (name ∷ names) = (contains seen name ≡ false) × DistinctFrom (name ∷ seen) names

pub record IsValid {H : Host} {T : Templates} (c : Compiled H T) : Type 0 where
  pub mode_known : IsMode c.mode
  pub width_bounded : Between 0 1024 c.max_width
  pub poll_bounded : Between 100_000_000 60_000_000_000 c.poll_interval
  pub debounce_bounded : Between 0 2_000_000_000 c.refresh_debounce
  pub profiles_valid : All IsValidProfile c.profiles
  pub names_distinct : DistinctFrom [] (map (λ (p : CompiledProfile H T). p.name) c.profiles)

reject-eq-ok : (test : Bool) (e : ConfigError) {u : Unit {0}} → reject test e ≡ ok u → test ≡ false
unfolding reject
reject-eq-ok true e h = cc
reject-eq-ok false e h = refl

ok_injective : {A : Type 0} {a b : A} → ◌≡◌ {A = Result ConfigError A} (ok a) (ok b) → a ≡ b
ok_injective h = cc

valid_mode-IsMode : (mode : Mode) → valid_mode mode ≡ true → IsMode mode
unfolding valid_mode
valid_mode-IsMode mode h = ground arith

bad_width-Between : (width : ℤ) → bad_width width ≡ false → Between 0 1024 width
bad_width-Between (pos n) h = ground arith
bad_width-Between (negsuc n) h = cc

Between-tests :
    (low high : ℕ) (z : ℤ) → (ltb_ℤ z (pos low) || ltb_ℤ (pos high) z) ≡ false → Between low high z
Between-tests low high (pos n) h = ground arith
Between-tests low high (negsuc n) h = cc

module _ (H : Host) where
  parse_bounded_duration-Between :
      (field value : String) (low high : ℕ) (d : ℤ)
      → parse_bounded_duration H field value (pos low) (pos high) ≡ ok d
      → Between low high d
  unfolding parse_bounded_duration reject
  parse_bounded_duration-Between field value low high d h = go (H.parse_duration value) h
    where
      go :
          (r : Result String ℤ)
          → (map_err (invalid_duration field value) r >>= λ (parsed : ℤ).
              reject
                (ltb_ℤ parsed (pos low) || ltb_ℤ (pos high) parsed)
                (duration_out_of_range field parsed)
              >> ok parsed)
            ≡ ok d
          → Between low high d
      go (err e) k = cc
      go (ok parsed) k = ground (arith, Between-tests low high parsed)

module _ (H : Host) (T : Templates) where
  set_mode-IsMode : (mode : Option Mode) → set_mode_is_bad mode ≡ false → WhereSet IsMode mode
  set_mode-IsMode none h = tt
  set_mode-IsMode (some mode) h = valid_mode-IsMode mode (ground arith)

  set_width-Between :
      (width : Option ℤ) → set_width_is_bad width ≡ false → WhereSet (Between 0 1024) width
  set_width-Between none h = tt
  set_width-Between (some width) h = bad_width-Between width h

  compile_profile-IsValidProfile :
      (engine : Engine) (index : ℕ) (names : List String) (profile : Profile)
      (item : CompiledProfile H T)
      → compile_profile H T engine index names profile ≡ ok item
      → IsValidProfile item × (item.name ≡ profile.name) × (contains names profile.name ≡ false)
  unfolding compile_profile reject
  compile_profile-IsValidProfile engine index names profile item h =
      ground (arith, set_mode-IsMode profile.mode, set_width-Between profile.max_width)

  compile_profiles-valid :
      (engine : Engine) (index : ℕ) (names : List String) (profiles : List Profile)
      (items : List (CompiledProfile H T))
      → compile_profiles H T engine index names profiles ≡ ok items
      → All IsValidProfile items
        × (map (λ (p : CompiledProfile H T). p.name) items ≡ map (λ (p : Profile). p.name) profiles)
        × DistinctFrom names (map (λ (p : CompiledProfile H T). p.name) items)
  unfolding compile_profiles
  compile_profiles-valid engine index names [] [] h = (tt, refl, tt)
  compile_profiles-valid engine index names [] (item ∷ items) h = absurd (ground arith)
  compile_profiles-valid engine index names (profile ∷ profiles) items h =
      let (item, first, h1) =
        >>=-eq-ok (compile_profile H T engine index names profile)
          (λ (p : CompiledProfile H T).
            compile_rest >>= λ (ps : List (CompiledProfile H T)). ok (p ∷ ps))
          h in
      let (rest, later, h2) =
        >>=-eq-ok compile_rest (λ (ps : List (CompiledProfile H T)). ok (item ∷ ps)) h1 in
      let (valid, name, fresh) =
        compile_profile-IsValidProfile engine index names profile item first in
      let (all_valid, same_names, all_fresh) =
        compile_profiles-valid engine (index + 1) (profile.name ∷ names) profiles rest later in
      let names_of = map (λ (p : CompiledProfile H T). p.name) in
      subst
        (λ (out : List (CompiledProfile H T)).
          All IsValidProfile out
          × (names_of out ≡ map (λ (p : Profile). p.name) (profile ∷ profiles))
          × DistinctFrom names (names_of out))
        (ok_injective h2)
        (
          (valid, all_valid),
          ap₂ ◌∷◌ name same_names,
          (
            subst (λ (n : String). contains names n ≡ false) (sym name) fresh,
            subst (λ (n : String). DistinctFrom (n ∷ names) (names_of rest)) (sym name) all_fresh,
          ),
        )
    where
      compile_rest : Result ConfigError (List (CompiledProfile H T))
      compile_rest = compile_profiles H T engine (index + 1) (profile.name ∷ names) profiles

  compile_head :
      (input : Source) (c : Compiled H T)
      → compile H T input ≡ ok c
      → IsMode c.mode
        × Between 0 1024 c.max_width
        × Between 100_000_000 60_000_000_000 c.poll_interval
        × Between 0 2_000_000_000 c.refresh_debounce
        × (compile_profiles H T
              (new_engine input.aliases (configured_icons input))
              0
              []
              input.profiles
            ≡ ok c.profiles)
  unfolding compile reject
  compile_head input c h = ground (
    arith,
    valid_mode-IsMode (default_of mode_auto input.mode),
    bad_width-Between input.max_width,
    parse_bounded_duration-Between H "poll_interval" (default_text "2s" input.poll_interval)
        100_000_000 60_000_000_000 c.poll_interval,
    parse_bounded_duration-Between H "refresh_debounce" (default_text "80ms" input.refresh_debounce)
        0 2_000_000_000 c.refresh_debounce,
  )

  -- For every configuration source that `compile` accepts: the mode is one of the three, the widths, the poll
  -- interval (100 ms to 1 min) and the debounce (up to 2 s) are within their bounds, every profile
  -- is named and its mode and width, where set, are valid, no two profiles share a name, and
  -- the profiles are those of the source, in its order.
  pub compile-IsValid :
      (input : Source) (c : Compiled H T)
      → compile H T input ≡ ok c
      → IsValid c
        × (map (λ (p : CompiledProfile H T). p.name) c.profiles
            ≡ map (λ (p : Profile). p.name) input.profiles)
  compile-IsValid input c h =
      let (mode, width, poll, debounce, profiles) = compile_head input c h in
      let (valid, names, distinct) =
        compile_profiles-valid _ 0 [] input.profiles c.profiles profiles in
      (
        record {
          mode_known = mode;
          width_bounded = width;
          poll_bounded = poll;
          debounce_bounded = debounce;
          profiles_valid = valid;
          names_distinct = distinct;
        },
        names,
      )
