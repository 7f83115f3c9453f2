-- ===== src/Tests/Configuring.antt =====
-- internal/config on one valid and one invalid file.
use herdr_tabline.Base.{
  ℕ, ◌≡◌, ◌≢◌, refl, true, false, none, some, [], ◌∷◌, string_eq, nat_eq, ◌==◌, if◌then◌else◌,
}
use herdr_tabline.Base.Int.{pos, int_eq}
use herdr_tabline.Base.Dict.{merge, clone, clone_nested}
use herdr_tabline.Base.Result.{ok, err}
use herdr_tabline.Render.Engine
use herdr_tabline.Render.Engine.{new_engine}
use herdr_tabline.Config.Types.{Compiled, CompiledProfile}
use herdr_tabline.Config.Resolve.{resolve}
use herdr_tabline.Config.Resolve.Precedence.{or_default, last_set, overriding_name, resolve_lem}
use herdr_tabline.Config.Compile.{
  default_icons, reject, valid_mode, parse_bounded_duration, compile_match, compile_profile,
  compile_profiles, compile,
}
use herdr_tabline.Config.Compile.Validity.{IsValid, WhereSet, compile-IsValid}
use herdr_tabline.Config.Manager.{
  FileSystem, missing, found, Signature, no_signature, signature_eq, Manager, file_signature,
  install, load, reload_if_changed,
}
use herdr_tabline.Config.Manager.Retention.{
  reload_if_changed-current-ne-none, reload_if_changed-IsValid, reload_if_changed_quiet, reload_all,
  keeps, none_left,
}
use herdr_tabline.Tests.Fixtures.{plain_host, constant_templates, sample_source, sample_context}

abbrev compiled_quiet : CompiledProfile plain_host constant_templates
compiled_quiet = record {
  name = "quiet";
  mode = some "off";
  template = none;
  max_width = some (pos 10);
  match = record {
    workspace_label = [];
    tab_label = [];
    cwd_glob = [];
    process = [];
    agent = [];
    agent_status = [];
  };
}

abbrev sample_compiled : Compiled plain_host constant_templates
sample_compiled = record {
  mode = "auto";
  template = record { source = "shell"; parsed = "shell" };
  max_width = pos 20;
  poll_interval = pos 1_000_000_000;
  refresh_debounce = pos 1_000_000_000;
  aliases = [];
  icons = ("agent_status", default_icons) ∷ [];
  status = record { source = "status"; parsed = "status" };
  profiles = compiled_quiet ∷ [];
}

sample_compiles : compile plain_host constant_templates sample_source ≡ ok sample_compiled
unfolding compile compile_profiles compile_profile compile_match parse_bounded_duration valid_mode
    Engine.compile new_engine clone_nested clone merge string_eq int_eq nat_eq reject
sample_compiles = refl

sample-IsValid : IsValid sample_compiled
sample-IsValid =
    (compile-IsValid plain_host constant_templates sample_source sample_compiled sample_compiles).0

resolve_lem_example :
    resolve plain_host constant_templates sample_compiled sample_context ≡ record {
      mode = or_default "auto" (
          last_set
            (λ (p : CompiledProfile plain_host constant_templates). p.mode)
            sample_context
            sample_compiled.profiles);
      template = or_default sample_compiled.template (
          last_set
            (λ (p : CompiledProfile plain_host constant_templates). p.template)
            sample_context
            sample_compiled.profiles);
      max_width = or_default (pos 20) (
          last_set
            (λ (p : CompiledProfile plain_host constant_templates). p.max_width)
            sample_context
            sample_compiled.profiles);
      profile_name =
          or_default "default" (last_set overriding_name sample_context sample_compiled.profiles);
    }
resolve_lem_example = resolve_lem plain_host constant_templates sample_compiled sample_context

-- A disk whose one file has a version: 0 is no file, 1 a file that does not decode, others decode.
abbrev pub disk : FileSystem
disk = record {
  World = ℕ;
  stat = λ path w. (if w == 0 then missing else found (w, pos 3), w);
  read_file =
      λ path w. (if w == 0 then missing else if w == 1 then found "bad" else found "good", w);
  sha256 = λ s. s;
  decode = λ s. if s == "good" then ok (sample_source, []) else err "syntax error";
}

abbrev configured : Manager disk plain_host constant_templates
configured = record {
  path = "/c";
  seen = true;
  signature = no_signature;
  current = some sample_compiled;
}

reload_bad : (reload_if_changed disk plain_host constant_templates configured 1).0.1 ≢ ok true
unfolding reload_if_changed file_signature install load signature_eq string_eq nat_eq int_eq
reload_bad h = cc

reload_if_changed-current-ne-none_example :
    (reload_if_changed disk plain_host constant_templates configured 1).0.0.current ≢ none
reload_if_changed-current-ne-none_example =
    reload_if_changed-current-ne-none disk plain_host constant_templates configured 1 some-ne-none
  where
    some-ne-none : configured.current ≢ none
    some-ne-none h = cc

abbrev bad_signature : Signature
bad_signature = record { present = true; mod_time = 1; size = pos 3; hash = "bad" }

bad_signature_lem : file_signature disk plain_host constant_templates "/c" 1 ≡ (ok bad_signature, 1)
unfolding file_signature nat_eq
bad_signature_lem = refl

reload_if_changed-IsValid_example :
    WhereSet IsValid (reload_if_changed disk plain_host constant_templates configured 2).0.0.current
reload_if_changed-IsValid_example =
    reload_if_changed-IsValid disk plain_host constant_templates configured 2 sample-IsValid

-- The invalid file stays for two further reloads.
reload_if_changed_quiet_example :
    let after = (reload_if_changed disk plain_host constant_templates configured 1).0.0 in
    reload_all disk plain_host constant_templates after (1 ∷ 1 ∷ [])
    ≡ (after, ok false ∷ ok false ∷ [])
reload_if_changed_quiet_example =
    reload_if_changed_quiet disk plain_host constant_templates configured 1 1 bad_signature
      (1 ∷ 1 ∷ []) bad_signature_lem (keeps bad_signature_lem (keeps bad_signature_lem none_left))
