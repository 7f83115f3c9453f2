-- ===== src/State/Sharing/Phases.antt =====
-- Which lock a caller of internal/state/store.go has where it stands.
use herdr_tabline.Base.{Bool, true, false}
use herdr_tabline.State.Sharing.{
  Pc, absent, idle, opened, loading, loaded, updating, encoded_for, created, moded, written, synced,
  closed, cleaning, ending,
}

abbrev pub excludes : Pc → Bool
excludes (updating m) = true
excludes (encoded_for m encoded) = true
excludes (created m encoded name) = true
excludes (moded m encoded name) = true
excludes (written m encoded name) = true
excludes (synced m encoded name) = true
excludes (closed m encoded name) = true
excludes (cleaning name e) = true
excludes (ending r) = true
excludes absent = false
excludes idle = false
excludes (opened k) = false
excludes loading = false
excludes (loaded r) = false

abbrev pub shares : Pc → Bool
shares loading = true
shares (loaded r) = true
shares absent = false
shares idle = false
shares (opened k) = false
shares (updating m) = false
shares (encoded_for m encoded) = false
shares (created m encoded name) = false
shares (moded m encoded name) = false
shares (written m encoded name) = false
shares (synced m encoded name) = false
shares (closed m encoded name) = false
shares (cleaning name e) = false
shares (ending r) = false
