-- ===== src/State/Store/Rewrites.antt =====
-- An update of internal/state/store.go that reports no error, whether or not it wrote.
use Prim.Native.String.append
use mathlib.Core.Path.{subst}
use herdr_tabline.Base.{
  ◌≡◌, ◌≢◌, ◌⊎◌, inl, inr, refl, String, ◌<>◌, Bool, true, false, none, some, arith, ◌==◌,
  string_eq, ap, sym, ◌∙◌, Bool-cases, Option-cases, Option, [], text_apart,
}
use herdr_tabline.Base.Dict.{lookup}
use herdr_tabline.Base.Result.{Result, ok, err, ◌>>=◌, >>=-eq-ok, map_err}
use herdr_tabline.Model.{History}
use herdr_tabline.State.Store.{
  Codec, Paths, Files, StoreError, Faults, schema_version, attempt, ◌>>◌, decode, read, encode,
  load, encode_failed, lock_failed, read_failed, write_encoded, write_changed, update_read, update,
  write_atomically,
}
use herdr_tabline.State.Store.Updates.{SameTabs, IsLawful, decode-encode, load-read, load-update}

nonempty : (s : String) → (s <> "\n") ≢ ""
nonempty String.[] h = let e : "\n" ≡ "" = sym (append.nil "\n") ∙ h in text_apart "\n" "" refl e
nonempty (String.◌∷◌ c s) h =
    let e : String.◌∷◌ c (s <> "\n") ≡ "" = sym (append.cons c s "\n") ∙ h in cc

module _ (C : Codec) (paths : Paths) where
  encode-ne-nil :
      (tabs : History) (encoded : String) → encode C paths tabs ≡ ok encoded → encoded ≢ ""
  unfolding encode
  encode-ne-nil tabs encoded h e =
      let (text, marshalled, rest) =
        >>=-eq-ok
          (map_err encode_failed
            (C.marshal (record { version = schema_version; tabs = some tabs })))
          (λ (t : String). ok (t <> "\n")) h in
      nonempty text (ground arith)

  abbrev found_tabs : Option String → Result StoreError (History × String)
  found_tabs none = ok ([], "")
  found_tabs (some raw) = decode C paths raw >>= (λ tabs. ok (tabs, raw))

  found-decode :
      (found : Option String) (tabs : History) (current : String)
      → found_tabs found ≡ ok (tabs, current)
      → (current ≡ "") ⊎ (decode C paths current ≡ ok tabs)
  found-decode none tabs current h = inl (ground arith)
  found-decode (some raw) tabs current h =
      let (again, decoded, rest) = >>=-eq-ok (decode C paths raw) _ h in inr (ground arith)

  read-decode :
      (f : Faults) (files : Files) (tabs : History) (current : String)
      → (attempt f.lock lock_failed >> read C paths f files) ≡ ok (tabs, current)
      → (current ≡ "") ⊎ (decode C paths current ≡ ok tabs)
  unfolding read
  read-decode f files tabs current h =
      let (_, _, h1) =
        >>=-eq-ok (attempt f.lock lock_failed) (λ (u : Unit {0}). read C paths f files) h in
      let (_, _, h2) = >>=-eq-ok (attempt f.read read_failed) _ h1 in
      elim (Option-cases (lookup paths.state files)) [
        | inl e ↦ found-decode none tabs current (rw e at h2)
        | inr (raw, e) ↦ found-decode (some raw) tabs current (rw e at h2)
      ]

  -- The bytes on disk, where they are those that the update would write.
  rewrites :
      IsLawful C
      → (f g : Faults) (files : Files) (tabs made : History) (current : String) → g.lock ≡ none
      → g.read ≡ none
      → (attempt f.lock lock_failed >> read C paths f files) ≡ ok (tabs, current)
      → encode C paths made ≡ ok current
      → (load C paths g files ≡ ok tabs) × SameTabs tabs made
  rewrites L f g files tabs made current locked readable r e =
      let (again, decoded, same) = decode-encode C paths L made current e in
      elim (read-decode f files tabs current r) [
        | inl missing ↦ absurd (encode-ne-nil made current e missing)
        | inr stored ↦
            let known : again ≡ tabs = ground arith in
            (
              load-read C paths f g files tabs current locked readable r,
              subst (λ (t : History). SameTabs t made) known same,
            )
      ]

  write_encoded-false :
      (f : Faults) (files : Files) (current : String) (e : Result StoreError String)
      → (write_encoded C paths f files current e).0 ≡ ok false
      → (e ≡ ok current) × ((write_encoded C paths f files current e).1 ≡ files)
  unfolding write_encoded
  write_encoded-false f files current (err x) h = cc
  write_encoded-false f files current (ok encoded) h = elim (Bool-cases (encoded == current)) [
    | inl same ↦ (ground arith, ground arith)
    | inr other ↦
        let (_, _, wrote) =
          >>=-eq-ok (write_atomically paths f encoded files).0 _ (rw other at h) in
        cc
  ]

  load-write_changed-false :
      IsLawful C
      → (f g : Faults) (files : Files) (tabs : History) (current : String) (answer : History × Bool)
      → g.lock ≡ none
      → g.read ≡ none
      → (attempt f.lock lock_failed >> read C paths f files) ≡ ok (tabs, current)
      → answer.1 ≡ true
      → (write_changed C paths f files current answer).0 ≡ ok false
      → (load C paths g (write_changed C paths f files current answer).1 ≡ ok tabs)
        × SameTabs tabs answer.0
  unfolding write_changed
  load-write_changed-false L f g files tabs current (made, true) locked readable r changed h =
      let (e, same) = write_encoded-false f files current (encode C paths made) h in
      let (loaded, equal) = rewrites L f g files tabs made current locked readable r e in
      (ap (load C paths g) same ∙ loaded, equal)
  load-write_changed-false L f g files tabs current (made, false) locked readable r changed h = cc

  load-update_read-false :
      IsLawful C
      → (f g : Faults) (mutate : History → History × Bool) (files : Files)
        (r : Result StoreError (History × String))
      → g.lock ≡ none
      → g.read ≡ none
      → (attempt f.lock lock_failed >> read C paths f files) ≡ r
      → ((tabs : History) → (mutate tabs).1 ≡ true)
      → (update_read C paths f mutate files r).0 ≡ ok false
      → (tabs : History) × (load C paths g files ≡ ok tabs)
        × (again : History) × (load C paths g (update_read C paths f mutate files r).1 ≡ ok again)
        × SameTabs again (mutate tabs).0
  unfolding update_read
  load-update_read-false L f g mutate files (err e) locked readable same changes h = cc
  load-update_read-false L f g mutate files (ok (tabs, current)) locked readable same changes h =
      let (loaded, equal) =
        load-write_changed-false L f g files tabs current (mutate tabs) locked readable same
          (changes tabs) h in
      (tabs, load-read C paths f g files tabs current locked readable same, tabs, loaded, equal)

  load-update-false :
      IsLawful C
      → (f g : Faults) (mutate : History → History × Bool) (files : Files) → g.lock ≡ none
      → g.read ≡ none
      → ((tabs : History) → (mutate tabs).1 ≡ true)
      → (update C paths f mutate files).0 ≡ ok false
      → (tabs : History) × (load C paths g files ≡ ok tabs)
        × (again : History) × (load C paths g (update C paths f mutate files).1 ≡ ok again)
        × SameTabs again (mutate tabs).0
  unfolding update
  load-update-false L f g mutate files locked readable changes h =
      load-update_read-false L f g mutate files _ locked readable refl changes h

  -- For a lawful codec, all disks and callbacks that always report a change, and whatever calls fail
  -- during the update, where the temporary name is not the state path: if the update reports
  -- no error, written or not, then a fault-free load of the disk before it returns some tabs, and a
  -- fault-free load of the disk after it the map that the callback makes of them.
  pub load-update_reported :
      IsLawful C
      → (f g : Faults) (mutate : History → History × Bool) (files : Files) (b : Bool)
      → f.temporary ≢ paths.state
      → g.lock ≡ none
      → g.read ≡ none
      → ((tabs : History) → (mutate tabs).1 ≡ true)
      → (update C paths f mutate files).0 ≡ ok b
      → (tabs : History) × (load C paths g files ≡ ok tabs)
        × (again : History) × (load C paths g (update C paths f mutate files).1 ≡ ok again)
        × SameTabs again (mutate tabs).0
  load-update_reported L f g mutate files true other locked readable changes h =
      load-update C paths L f g mutate files other locked readable h
  load-update_reported L f g mutate files false other locked readable changes h =
      load-update-false L f g mutate files locked readable changes h
