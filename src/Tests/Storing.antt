-- ===== src/Tests/Storing.antt =====
-- internal/state on a disk with one state file.
use herdr_tabline.Base.{
  ◌≡◌, ◌≢◌, refl, String, ◌<>◌, Bool, true, Option, none, some, [], ◌∷◌, string_eq, nat_eq, ◌==◌,
  if◌then◌else◌, text_apart, ap, sym, ◌∙◌, arith, inl, inr, Bool-cases,
}
use herdr_tabline.Base.Int.{ℤ, pos, int_eq}
use herdr_tabline.Base.Dict.{lookup, insert, erase}
use herdr_tabline.Base.Result.{Result, ok, err}
use herdr_tabline.Model.{LabelHistory, History}
use herdr_tabline.State.Store.{
  StateFile, Codec, Paths, Files, Faults, write_atomically, read, decode, encode, update,
}
use herdr_tabline.State.Store.Atomicity.{lookup-write_atomically}
use herdr_tabline.State.Store.Updates.{IsLawful}

abbrev pub one_entry : History
one_entry = ("t1", record { source_label = "old"; rendered_label = "1: old" }) ∷ []

abbrev pub paths : Paths
paths = record {
  root = "/s";
  key = "k";
  state = "/s/labels-k.json";
  lock = "/s/labels-k.lock";
  pid = "/s/daemon-k.pid";
  log = "/s/daemon-k.log";
}

abbrev pub no_faults : Faults
no_faults = record {
  lock = none;
  read = none;
  create_directory = none;
  create_temporary = none;
  set_mode = none;
  write = none;
  sync = none;
  close = none;
  rename = none;
  remove = none;
  temporary = "/s/.labels-1.tmp";
  partial = "";
}

abbrev full_disk : Faults
full_disk = record no_faults { write = some "no space left on device"; partial = "{" }

-- The two paths differ, as the theorems ask.
state_apart : paths.state ≢ no_faults.temporary
state_apart = text_apart "/s/labels-k.json" "/s/.labels-1.tmp" refl

pub temporary_apart : no_faults.temporary ≢ paths.state
temporary_apart = text_apart "/s/.labels-1.tmp" "/s/labels-k.json" refl

abbrev old_files : Files
old_files = ("/s/labels-k.json", "old") ∷ []

lookup-write_atomically_example :
    lookup "/s/labels-k.json" (write_atomically paths full_disk "new" old_files).1
    ≡ elim (write_atomically paths full_disk "new" old_files).0 [
      | ok _ ↦
          (if "/s/labels-k.json" == paths.state
            then some "new"
            else lookup "/s/labels-k.json" old_files)
      | err _ ↦ lookup "/s/labels-k.json" old_files
    ]
lookup-write_atomically_example =
    lookup-write_atomically paths full_disk "new" old_files "/s/labels-k.json" state_apart

write_full : (write_atomically paths full_disk "new" old_files).1 ≡ old_files
unfolding write_atomically insert erase string_eq
write_full = refl

unused : lookup "/s/.labels-1.tmp" old_files ≡ none
unfolding lookup string_eq
unused = refl

-- A codec of two files, with the newline that an update appends.
abbrev pub marshal_tabs : Option History → Result String String
marshal_tabs none = err "unsupported"
marshal_tabs (some []) = ok "{}"
marshal_tabs (some ((id, entry) ∷ [])) =
    if id == "t1"
    then (if entry.source_label == "old"
        then (if entry.rendered_label == "1: old" then ok "{t1}" else err "unsupported")
        else err "unsupported")
    else err "unsupported"
marshal_tabs (some (x ∷ y ∷ tabs)) = err "unsupported"

abbrev pub two_files : Codec
two_files = record {
  unmarshal = λ text.
      if text == "{}\n"
      then ok (record { version = pos 1; tabs = some [] })
      else if text == "{t1}\n"
      then ok (record { version = pos 1; tabs = some one_entry })
      else err "syntax error";
  marshal = λ file. if file.version == pos 1 then marshal_tabs file.tabs else err "unsupported";
}

unmarshal_one :
    two_files.unmarshal "{t1}\n" ≡ ok (record { version = pos 1; tabs = some one_entry })
unfolding string_eq
unmarshal_one = refl

abbrev one_tab_file : String × LabelHistory → Result String StateFile
one_tab_file entry = ok (record { version = pos 1; tabs = some (entry ∷ []) })

unmarshal_marshal_tabs :
    (version : ℤ) (tabs : Option History) (text : String)
    → version ≡ pos 1
    → marshal_tabs tabs ≡ ok text
    → two_files.unmarshal (text <> "\n") ≡ ok (record { version = version; tabs = tabs })
unmarshal_marshal_tabs version none text e h = cc
unmarshal_marshal_tabs version (some []) text e h =
    let p : text ≡ "{}" = ground arith in rw (p, e) (unfold string_eq in refl)
unmarshal_marshal_tabs version (some ((id, entry) ∷ [])) text e h =
    let p : text ≡ "{t1}" = ground arith in
    let i : id ≡ "t1" = ground arith in
    let s : entry.source_label ≡ "old" = ground arith in
    let r : entry.rendered_label ≡ "1: old" = ground arith in
    let q : (
      id,
      record { source_label = entry.source_label; rendered_label = entry.rendered_label },
    )
        ≡ ("t1", record { source_label = "old"; rendered_label = "1: old" }) =
      rw (i, s, r) refl in
    rw (p, e) (unmarshal_one ∙ ap one_tab_file (sym q))
unmarshal_marshal_tabs version (some (x ∷ y ∷ tabs)) text e h = cc

pub two_files-IsLawful : IsLawful two_files
two_files-IsLawful = record {
  unmarshal-marshal = λ version tabs text h. elim (Bool-cases (version == pos 1)) [
    | inl same ↦ (
      tabs,
      unmarshal_marshal_tabs version (some tabs) text (ground arith) (rw same at h),
      λ id. refl,
    )
    | inr other ↦ absurd (ground arith)
  ];
}

abbrev pub empty_files : Files
empty_files = ("/s/labels-k.json", "{}\n") ∷ []

abbrev add_entry : History → History × Bool
add_entry tabs = (one_entry, true)

add_entry_written : (update two_files paths no_faults add_entry empty_files).0 ≡ ok true
unfolding update read decode encode write_atomically lookup insert erase string_eq int_eq
add_entry_written = refl

add_entry_fails : (update two_files paths full_disk add_entry empty_files).0 ≢ ok true
unfolding update read decode encode write_atomically lookup insert erase string_eq int_eq
add_entry_fails h = cc
