-- ===== src/Config/Matching/Categories.antt =====
-- What a profile's matchers mean: internal/config/profile.go's `matches` against its description.
use herdr_tabline.Base.{
  ◌≡◌, ◌↔◌, ◌⊎◌, inl, inr, refl, sym, ◌∙◌, String, Bool, true, false, none, some, List, [], ◌∷◌,
  Some, any, any-↔-Some, arith, ◌==◌, string_eq, Option-cases,
}
use herdr_tabline.Model.{Context}
use herdr_tabline.Config.Types.{Host, CompiledMatch}
use herdr_tabline.Config.Matching.{
  pane_cwd, string_is_one, string_matches, regex_is_one, regex_matches, normalize_path, glob_is_one,
  glob_matches, matches,
}

-- A category that is left out, or that has an entry with a property.
abbrev pub Category {ℓ κ} : {A : Type ℓ} → (A → Type κ) → List A → Type (ℓ ⊔ κ)
Category P entries = (entries ≡ []) ⊎ Some P entries

-- A category with entries.
Category-of {ℓ} :
    {A : Type ℓ} (test : A → Bool) (entry : A) (entries : List A) (b : Bool)
    → b ≡ any test (entry ∷ entries)
    → b ≡ true ↔ Category (λ x. test x ≡ true) (entry ∷ entries)
Category-of test entry entries b e =
    let (to, from) = any-↔-Some test (entry ∷ entries) in
    (
      λ h. inr (to (sym e ∙ h)),
      λ c. elim c [ inl nothing ↦ cc | inr some_fits ↦ e ∙ from some_fits ],
    )

string_is_one-any :
    (entries : List String) (value : String)
    → string_is_one entries value ≡ any (λ entry. entry == value) entries
unfolding string_is_one
string_is_one-any [] value = refl
string_is_one-any (entry ∷ entries) value = ground (arith, string_is_one-any entries value)

module _ (H : Host) where
  regex_is_one-any :
      (entries : List H.Regexp) (value : String)
      → regex_is_one H entries value ≡ any (λ entry. H.match_regexp entry value) entries
  unfolding regex_is_one
  regex_is_one-any [] value = refl
  regex_is_one-any (entry ∷ entries) value = ground (arith, regex_is_one-any entries value)

  -- Whether a path matches, with no for a glob that is not valid.
  abbrev pub is_glob_of : String → String → Bool
  is_glob_of path glob = elim (H.match_glob glob path) [ none ↦ false | some matched ↦ matched ]

  glob_is_one-any :
      (globs : List String) (path : String) → glob_is_one H globs path ≡ any (is_glob_of path) globs
  unfolding glob_is_one
  glob_is_one-any [] path = refl
  glob_is_one-any (glob ∷ globs) path = ground (arith, glob_is_one-any globs path)

  string_matches-Category :
      (entries : List String) (value : String)
      → string_matches entries value ≡ true ↔ Category (λ entry. entry == value ≡ true) entries
  unfolding string_matches
  string_matches-Category [] value = (λ h. inl refl, λ h. refl)
  string_matches-Category (entry ∷ entries) value =
      Category-of (λ x. x == value) entry entries (string_is_one (entry ∷ entries) value)
        (string_is_one-any (entry ∷ entries) value)

  regex_matches-Category :
      (entries : List H.Regexp) (value : String)
      → regex_matches H entries value ≡ true
        ↔ Category (λ entry. H.match_regexp entry value ≡ true) entries
  unfolding regex_matches
  regex_matches-Category [] value = (λ h. inl refl, λ h. refl)
  regex_matches-Category (entry ∷ entries) value =
      Category-of (λ x. H.match_regexp x value) entry entries
        (regex_is_one H (entry ∷ entries) value) (regex_is_one-any (entry ∷ entries) value)

  -- The path, where the working directory has an absolute form, matches some glob.
  abbrev pub GlobOf : String → List String → Type 0
  GlobOf cwd globs =
      (globs ≡ [])
      ⊎ ((path : String) × (normalize_path H cwd ≡ some path)
          × Some (λ glob. is_glob_of path glob ≡ true) globs)

  glob_matches-none :
      (glob : String) (globs : List String) (cwd : String)
      → normalize_path H cwd ≡ none
      → glob_matches H (glob ∷ globs) cwd ≡ false
  unfolding glob_matches
  glob_matches-none glob globs cwd e = ground arith

  glob_matches-some :
      (glob : String) (globs : List String) (cwd path : String)
      → normalize_path H cwd ≡ some path
      → glob_matches H (glob ∷ globs) cwd ≡ any (is_glob_of path) (glob ∷ globs)
  unfolding glob_matches
  glob_matches-some glob globs cwd path e = ground (arith, glob_is_one-any (glob ∷ globs) path)

  glob_matches-GlobOf :
      (globs : List String) (cwd : String) → glob_matches H globs cwd ≡ true ↔ GlobOf cwd globs
  unfolding glob_matches
  glob_matches-GlobOf [] cwd = (λ h. inl refl, λ h. refl)
  glob_matches-GlobOf (glob ∷ globs) cwd = (to, from)
    where
      to : glob_matches H (glob ∷ globs) cwd ≡ true → GlobOf cwd (glob ∷ globs)
      to h = elim (Option-cases (normalize_path H cwd)) [
        | inl e ↦ absurd (ground (arith, glob_matches-none glob globs cwd e))
        | inr (path, e) ↦ inr (
          path,
          e,
          (any-↔-Some (is_glob_of path) (glob ∷ globs)).0
              (sym (glob_matches-some glob globs cwd path e) ∙ h),
        )
      ]

      from : GlobOf cwd (glob ∷ globs) → glob_matches H (glob ∷ globs) cwd ≡ true
      from (inl nothing) = cc
      from (inr (path, e, s)) =
          glob_matches-some glob globs cwd path e
          ∙ (any-↔-Some (is_glob_of path) (glob ∷ globs)).1 s

  -- What each category of a profile asks of a context.
  pub record Fits (m : CompiledMatch H) (context : Context) : Type 0 where
    pub workspace_label :
        Category (λ r. H.match_regexp r context.workspace.label ≡ true) m.workspace_label
    pub tab_label : Category (λ r. H.match_regexp r context.tab.label ≡ true) m.tab_label
    pub cwd_glob : GlobOf (pane_cwd context.pane) m.cwd_glob
    pub process : Category (λ r. H.match_regexp r context.process.name ≡ true) m.process
    pub agent : Category (λ r. H.match_regexp r context.agent.kind ≡ true) m.agent
    pub agent_status : Category (λ status. status == context.agent.status ≡ true) m.agent_status

  -- For every host, compiled matcher and context: a profile matches exactly where each of its six
  -- categories is left out or has an entry that matches the context's field; a glob that is not valid matches nothing, and
  -- none matches where the working directory has no absolute form.
  pub matches-Fits :
      (m : CompiledMatch H) (context : Context) → matches H m context ≡ true ↔ Fits m context
  unfolding matches
  matches-Fits m context =
      let w = regex_matches-Category m.workspace_label context.workspace.label in
      let t = regex_matches-Category m.tab_label context.tab.label in
      let g = glob_matches-GlobOf m.cwd_glob (pane_cwd context.pane) in
      let p = regex_matches-Category m.process context.process.name in
      let a = regex_matches-Category m.agent context.agent.kind in
      let s = string_matches-Category m.agent_status context.agent.status in
      (
        λ h. record {
          workspace_label = w.0 (ground arith);
          tab_label = t.0 (ground arith);
          cwd_glob = g.0 (ground arith);
          process = p.0 (ground arith);
          agent = a.0 (ground arith);
          agent_status = s.0 (ground arith);
        },
        λ fits. ground (
          arith,
          w.1 fits.workspace_label,
          t.1 fits.tab_label,
          g.1 fits.cwd_glob,
          p.1 fits.process,
          a.1 fits.agent,
          s.1 fits.agent_status,
        ),
      )
