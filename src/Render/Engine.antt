-- ===== src/Render/Engine.antt =====
-- internal/render/engine.go: compiling and executing templates.
-- `text/template` is not modelled: parsing and running a template is a parameter. A program that
-- has been parsed keeps the helper functions, and so the aliases and icons, that it was parsed with.
pub mod Labels
pub mod Controls
use mathlib.Core.Option
use herdr_tabline.Base.{
  ◌-◌, String, ◌<>◌, Bool, true, ◌&&◌, ◌||◌, Option, none, some, ◌==◌, string_eq, ltb, leb,
  if◌then◌else◌,
}
use herdr_tabline.Base.Int.{ℤ, pos, negsuc}
use herdr_tabline.Base.Dict.{Dict, clone_nested}
use herdr_tabline.Base.Text.{has_prefix, has_suffix, trim_space, remove_all, without_ends}
use herdr_tabline.Base.Result.{Result, ok, err, ◌>>=◌, map_err}
use herdr_tabline.Model.{Context, Session}
use herdr_tabline.Render.Width.{Graphemes, display_width, truncate}
use Prim.Native.Char.{Char, code}

-- The named maps of `Engine`, as cloned from the configuration.
pub record Engine : Type 0 where
  pub aliases : Dict (Dict String)
  pub icons : Dict (Dict String)

-- `New`
unfoldable pub new_engine : Dict (Dict String) → Dict (Dict String) → Engine
unfolding clone_nested
new_engine aliases icons = record { aliases = clone_nested aliases; icons = clone_nested icons }

-- `text/template`, with the helpers of an engine. A failure carries its text.
pub record Templates : Type 1 where
  pub Program : Type 0
  pub name : Program → String
  pub parse : Engine → String → String → Result String Program
  pub run : Program → Context → Result String String
  pub run_session : Program → Session → Result String String

pub data RenderError : Type 0 where
  template_nil : RenderError
  template_parse : String → String → RenderError
  template_execute : String → String → RenderError
  no_displayable_text : String → RenderError
  -- the run-time panic of a slice out of range
  slice_out_of_range : RenderError

-- `unicode.IsControl`
abbrev pub is_control : Char → Bool
is_control c = ltb (code c) 32 || (leb 127 (code c) && ltb (code c) 160)

unfoldable pub strip_missing_values : String → String
unfolding remove_all
strip_missing_values value = remove_all "<no value>" value

unfoldable pub sanitize_controls : String → String
sanitize_controls String.[] = String.[]
sanitize_controls (String.◌∷◌ c s) =
    String.◌∷◌ (if is_control c then " " else c) (sanitize_controls s)

unfoldable pub is_control_only : String → Bool
is_control_only String.[] = true
is_control_only (String.◌∷◌ c s) = is_control c && is_control_only s

-- A `Template`: its text and its program.
pub record Template (T : Templates) : Type 0 where
  pub source : String
  pub parsed : T.Program

module _ (T : Templates) where
  unfoldable pub compile : Engine → String → String → Result RenderError (Template T)
  compile engine name source = do
    program ← map_err (template_parse name) (T.parse engine name source)
    ok (record { source = source; parsed = program })

module _ (G : Graphemes) where
  -- `none` is the panic of `label[1 : len(label)-1]` on a text of less than two bytes.
  unfoldable pub apply_max_width : String → ℤ → Option String
  apply_max_width label (negsuc n) = some label
  apply_max_width label (pos max) =
      if leb max 0 || leb (display_width G label) max
      then some label
      else if leb 3 max && (has_prefix label " " && has_suffix label " ")
      then Option.map (λ interior. " " <> (truncate G interior (pos (max - 2)) <> " "))
          (without_ends label)
      else some (truncate G label (pos max))

abbrev pub or_panic : Option String → Result RenderError String
or_panic none = err slice_out_of_range
or_panic (some label) = ok label

module _ (G : Graphemes) where
  -- The tail of `Execute`, on the text that the template gave.
  unfoldable pub finish : String → String → ℤ → Result RenderError String
  finish name rendered max_width =
      if rendered == "" || is_control_only rendered
      then err (no_displayable_text name)
      else or_panic
          (apply_max_width G (sanitize_controls (strip_missing_values rendered)) max_width)

module _ (G : Graphemes) (T : Templates) where
  -- A nil template is `none`.
  unfoldable pub execute : Option (Template T) → Context → ℤ → Result RenderError String
  execute none context max_width = err template_nil
  execute (some tpl) context max_width = do
    let name = T.name tpl.parsed
    rendered ← map_err (template_execute name) (T.run tpl.parsed context)
    finish G name rendered max_width

  unfoldable pub execute_session : Option (Template T) → Session → ℤ → Result RenderError String
  execute_session none session max_width = err template_nil
  execute_session (some tpl) session max_width = do
    rendered ← map_err (template_execute (T.name tpl.parsed)) (T.run_session tpl.parsed session)
    line ←
        or_panic (apply_max_width G (sanitize_controls (strip_missing_values rendered)) max_width)
    ok (trim_space line)
