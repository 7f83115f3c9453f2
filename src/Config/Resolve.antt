-- ===== src/Config/Resolve.antt =====
-- internal/config/profile.go: `Resolve`.
pub mod Precedence
use herdr_tabline.Base.{Bool, true, false, Option, none, some, List, [], ◌∷◌, if◌then◌else◌}
use herdr_tabline.Model.{Context}
use herdr_tabline.Render.Engine.{Templates}
use herdr_tabline.Config.Types.{Host, Effective, CompiledProfile, Compiled}
use herdr_tabline.Config.Matching.{matches}

module _ (H : Host) (T : Templates) where
  -- The three overrides, each with the flag `overrode`.
  override_mode : CompiledProfile H T → Effective T × Bool → Effective T × Bool
  override_mode profile (effective, overrode) = elim profile.mode [
    | none ↦ (effective, overrode)
    | some mode ↦ (record effective { mode = mode }, true)
  ]

  override_template : CompiledProfile H T → Effective T × Bool → Effective T × Bool
  override_template profile (effective, overrode) = elim profile.template [
    | none ↦ (effective, overrode)
    | some template ↦ (record effective { template = template }, true)
  ]

  override_max_width : CompiledProfile H T → Effective T × Bool → Effective T × Bool
  override_max_width profile (effective, overrode) = elim profile.max_width [
    | none ↦ (effective, overrode)
    | some max_width ↦ (record effective { max_width = max_width }, true)
  ]

  -- The body of the loop over the profiles.
  unfoldable pub apply_profile : Context → CompiledProfile H T → Effective T → Effective T
  unfolding override_mode override_template override_max_width
  apply_profile context profile effective =
      let (after, overrode) =
        override_max_width profile
          (override_template profile (override_mode profile (effective, false))) in
      if matches H profile.match context
      then (if overrode then record after { profile_name = profile.name } else after)
      else effective

  unfoldable pub apply_profiles : Context → List (CompiledProfile H T) → Effective T → Effective T
  unfolding apply_profile
  apply_profiles context [] effective = effective
  apply_profiles context (profile ∷ profiles) effective =
      apply_profiles context profiles (apply_profile context profile effective)

  unfoldable pub resolve : Compiled H T → Context → Effective T
  unfolding apply_profiles
  resolve c context = apply_profiles context c.profiles (record {
    mode = c.mode;
    template = c.template;
    max_width = c.max_width;
    profile_name = "default";
  })
