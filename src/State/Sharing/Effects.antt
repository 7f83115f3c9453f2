-- ===== src/State/Sharing/Effects.antt =====
-- What the system calls of internal/state/store.go's callers do to the locks and the files: five kinds.
use herdr_tabline.Base.{ℕ, ◌≡◌, ◌⊎◌, inl, inr, refl, true, false, none, some}
use herdr_tabline.State.Store.{Codec, Paths}
use herdr_tabline.State.Sharing.{Pc, Disk, set, Lock, Load, Update, Write}
use herdr_tabline.State.Sharing.Phases.{excludes, shares}

pub data Effect (i : ℕ) (d : Disk) (p : Pc) (d' : Disk) (p' : Pc) : Type 0 where
  quiet :
      d'.exclusive ≡ d.exclusive
      → d'.shared ≡ d.shared
      → excludes p' ≡ excludes p
      → shares p' ≡ shares p
      → (d'.files ≡ d.files) ⊎ (excludes p ≡ true)
      → Effect i d p d' p'
  takes_shared :
      d.exclusive ≡ none
      → d'.exclusive ≡ none
      → d'.shared ≡ set d.shared i true
      → excludes p' ≡ false
      → d'.files ≡ d.files
      → Effect i d p d' p'
  takes_exclusive :
      ((j : ℕ) → d.shared j ≡ false)
      → d.exclusive ≡ none
      → d'.exclusive ≡ some i
      → d'.shared ≡ d.shared
      → shares p' ≡ false
      → d'.files ≡ d.files
      → Effect i d p d' p'
  drops_shared :
      d'.exclusive ≡ d.exclusive
      → d'.shared ≡ set d.shared i false
      → excludes p' ≡ false
      → shares p' ≡ false
      → d'.files ≡ d.files
      → Effect i d p d' p'
  drops_exclusive :
      excludes p ≡ true
      → d'.exclusive ≡ none
      → d'.shared ≡ d.shared
      → excludes p' ≡ false
      → shares p' ≡ false
      → d'.files ≡ d.files
      → Effect i d p d' p'

module _ {i : ℕ} {d : Disk} where
  pub Lock-Effect : {p p' : Pc} {d' : Disk} → Lock i d p d' p' → Effect i d p d' p'
  Lock-Effect Lock.open_fails = quiet refl refl refl refl (inl refl)
  Lock-Effect (Lock.opens k) = quiet refl refl refl refl (inl refl)
  Lock-Effect Lock.flock_fails = quiet refl refl refl refl (inl refl)
  Lock-Effect (Lock.shares a) = takes_shared a a refl refl refl
  Lock-Effect (Lock.excludes a b) = takes_exclusive b a refl refl refl refl

  module _ {C : Codec} {paths : Paths} where
    pub Load-Effect : {p p' : Pc} {d' : Disk} → Load C paths i d p d' p' → Effect i d p d' p'
    Load-Effect (Load.reads f) = quiet refl refl refl refl (inl refl)
    Load-Effect Load.returns = drops_shared refl refl refl refl refl

    pub Update-Effect : {p p' : Pc} {d' : Disk} → Update C paths i d p d' p' → Effect i d p d' p'
    Update-Effect (Update.read_fails f e a) = quiet refl refl refl refl (inl refl)
    Update-Effect (Update.declines f tabs current a b) = quiet refl refl refl refl (inl refl)
    Update-Effect (Update.encode_fails f tabs current e a b c) =
        quiet refl refl refl refl (inl refl)
    Update-Effect (Update.is_same f tabs current a b c) = quiet refl refl refl refl (inl refl)
    Update-Effect (Update.differs f tabs current encoded a b c e) =
        quiet refl refl refl refl (inl refl)
    Update-Effect Update.returns = drops_exclusive refl refl refl refl refl refl

    pub Write-Effect : {p p' : Pc} {d' : Disk} → Write C paths i d p d' p' → Effect i d p d' p'
    Write-Effect (Write.directory_fails e) = quiet refl refl refl refl (inl refl)
    Write-Effect (Write.create_fails e) = quiet refl refl refl refl (inl refl)
    Write-Effect (Write.creates name a b) = quiet refl refl refl refl (inr refl)
    Write-Effect (Write.mode_fails e) = quiet refl refl refl refl (inl refl)
    Write-Effect Write.sets_mode = quiet refl refl refl refl (inl refl)
    Write-Effect (Write.writes_part part) = quiet refl refl refl refl (inr refl)
    Write-Effect (Write.write_fails e) = quiet refl refl refl refl (inl refl)
    Write-Effect Write.writes = quiet refl refl refl refl (inr refl)
    Write-Effect (Write.sync_fails e) = quiet refl refl refl refl (inl refl)
    Write-Effect Write.syncs = quiet refl refl refl refl (inl refl)
    Write-Effect (Write.close_fails e) = quiet refl refl refl refl (inl refl)
    Write-Effect Write.closes = quiet refl refl refl refl (inl refl)
    Write-Effect (Write.rename_fails e) = quiet refl refl refl refl (inl refl)
    Write-Effect (Write.renames a) = quiet refl refl refl refl (inr refl)
    Write-Effect Write.remove_fails = quiet refl refl refl refl (inl refl)
    Write-Effect Write.removes = quiet refl refl refl refl (inr refl)
