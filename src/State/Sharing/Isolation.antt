-- ===== src/State/Sharing/Isolation.antt =====
-- The locks of internal/state/store.go's callers keep a load from an update, and updates from each other.
use herdr_tabline.Base.{ℕ, ◌≡◌, refl, true, false, none, some, arith}
use herdr_tabline.State.Store.{Codec, Paths, Files}
use herdr_tabline.State.Sharing.{Pc, absent, Disk, set, freed, System, Step, Reach, start, later}
use herdr_tabline.State.Sharing.Phases.{excludes, shares}
use herdr_tabline.State.Sharing.Effects.{
  Effect, quiet, takes_shared, takes_exclusive, drops_shared, drops_exclusive, Lock-Effect,
  Load-Effect, Update-Effect, Write-Effect,
}

pub record Locks (d : Disk) (pc : ℕ → Pc) : Type 0 where
  pub owner : (i : ℕ) → excludes (pc i) ≡ true → d.exclusive ≡ some i
  pub sharer : (i : ℕ) → shares (pc i) ≡ true → d.shared i ≡ true
  pub apart : (i : ℕ) → d.shared i ≡ true → d.exclusive ≡ none

module _ {d : Disk} {pc : ℕ → Pc} (inv : Locks d pc) (i : ℕ) {d' : Disk} {p' : Pc} where
  Effect-owner :
      Effect i d (pc i) d' p' → (j : ℕ) → excludes (set pc i p' j) ≡ true → d'.exclusive ≡ some j
  Effect-owner (quiet a b c e f) j h = ground (arith, inv.owner j, inv.owner i)
  Effect-owner (takes_shared a b c e f) j h = ground (arith, inv.owner j, inv.owner i)
  Effect-owner (takes_exclusive a b c e f g) j h = ground (arith, inv.owner j)
  Effect-owner (drops_shared a b c e f) j h = ground (arith, inv.owner j)
  Effect-owner (drops_exclusive a b c e f g) j h = ground (arith, inv.owner j, inv.owner i)

  Effect-sharer :
      Effect i d (pc i) d' p' → (j : ℕ) → shares (set pc i p' j) ≡ true → d'.shared j ≡ true
  Effect-sharer (quiet a b c e f) j h = ground (arith, inv.sharer j, inv.sharer i)
  Effect-sharer (takes_shared a b c e f) j h = ground (arith, inv.sharer j)
  Effect-sharer (takes_exclusive a b c e f g) j h = ground (arith, inv.sharer j)
  Effect-sharer (drops_shared a b c e f) j h = ground (arith, inv.sharer j)
  Effect-sharer (drops_exclusive a b c e f g) j h = ground (arith, inv.sharer j)

  Effect-apart : Effect i d (pc i) d' p' → (j : ℕ) → d'.shared j ≡ true → d'.exclusive ≡ none
  Effect-apart (quiet a b c e f) j h = ground (arith, inv.apart j)
  Effect-apart (takes_shared a b c e f) j h = b
  Effect-apart (takes_exclusive a b c e f g) j h = ground (arith, a j)
  Effect-apart (drops_shared a b c e f) j h = ground (arith, inv.apart j)
  Effect-apart (drops_exclusive a b c e f g) j h = b

  pub Effect-Locks : Effect i d (pc i) d' p' → Locks d' (set pc i p')
  Effect-Locks e = record {
    owner = Effect-owner e;
    sharer = Effect-sharer e;
    apart = Effect-apart e;
  }

dies-Locks :
    {d : Disk} {pc : ℕ → Pc}
    → Locks d pc
    → (i : ℕ)
    → Locks
        (record d { exclusive = freed i d.exclusive; shared = set d.shared i false })
        (set pc i absent)
dies-Locks inv i = record {
  owner = λ j h. ground (arith, inv.owner j);
  sharer = λ j h. ground (arith, inv.sharer j);
  apart = λ j h. ground (arith, inv.apart j);
}

module _ (C : Codec) (paths : Paths) where
  Step-Locks : {s t : System} → Locks s.disk s.pc → Step C paths s t → Locks t.disk t.pc
  Step-Locks inv (Step.lock i a) = Effect-Locks inv i (Lock-Effect a)
  Step-Locks inv (Step.load i a) = Effect-Locks inv i (Load-Effect a)
  Step-Locks inv (Step.update i a) = Effect-Locks inv i (Update-Effect a)
  Step-Locks inv (Step.write i a) = Effect-Locks inv i (Write-Effect a)
  Step-Locks inv (Step.starts i a) = record {
    owner = λ j h. ground (arith, inv.owner j);
    sharer = λ j h. ground (arith, inv.sharer j);
    apart = inv.apart;
  }
  Step-Locks inv (Step.dies i) = dies-Locks inv i

  pub Reach-Locks : {files : Files} {s : System} → Reach C paths files s → Locks s.disk s.pc
  Reach-Locks start = record {
    owner = λ j h. ground (arith);
    sharer = λ j h. ground (arith);
    apart = λ j h. refl;
  }
  Reach-Locks (later r a) = Step-Locks (Reach-Locks r) a
