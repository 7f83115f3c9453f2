-- ===== src/Tests/Matching.antt =====
-- The matchers of internal/config/profile.go on one context.
use herdr_tabline.Base.{◌≡◌, ◌↔◌, refl, true, [], ◌∷◌, string_eq}
use herdr_tabline.Config.Types.{CompiledMatch}
use herdr_tabline.Config.Matching.{matches, regex_matches, glob_matches, string_matches}
use herdr_tabline.Config.Matching.Categories.{Fits, matches-Fits}
use herdr_tabline.Tests.Fixtures.{plain_host, sample_context}

-- Two categories, of which one has two entries.
abbrev old_or_new : CompiledMatch plain_host
old_or_new = record {
  workspace_label = [];
  tab_label = "new" ∷ "old" ∷ [];
  cwd_glob = [];
  process = [];
  agent = [];
  agent_status = "" ∷ [];
}

matches-Fits_example :
    matches plain_host old_or_new sample_context ≡ true ↔ Fits plain_host old_or_new sample_context
matches-Fits_example = matches-Fits plain_host old_or_new sample_context

fits : matches plain_host old_or_new sample_context ≡ true
unfolding matches regex_matches string_matches glob_matches string_eq
fits = refl
