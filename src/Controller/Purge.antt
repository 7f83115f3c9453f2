-- ===== src/Controller/Purge.antt =====
-- What internal/controller/controller.go's `commit` leaves in the label history.
use herdr_tabline.Base.{◌≡◌, refl, String, Bool, Option, none, some, [], ◌∷◌, arith}
use herdr_tabline.Base.{string_eq, if◌then◌else◌}
use herdr_tabline.Base.Dict.{Dict, NodupKeys, lookup, insert, merge, lookup-insert, lookup-retain}
use herdr_tabline.Model.{LabelHistory, History}
use herdr_tabline.Controller.{flag, merge_and_purge}

-- The entry of the first map, where it has one.
abbrev pub either_entry : Option LabelHistory → Option LabelHistory → Option LabelHistory
either_entry (some entry) old = some entry
either_entry none old = old

lookup-merge :
    (id : String) (from into : History)
    → NodupKeys from
    → lookup id (merge from into) ≡ either_entry (lookup id from) (lookup id into)
unfolding merge lookup
lookup-merge id [] into h = refl
lookup-merge id ((k, v) ∷ from) into h =
    ground (arith, lookup-merge id from (insert k v into) h.1, lookup-insert id k v into)

-- For all updates, with one entry for each tab, every set of live tabs and every stored history: after
-- the commit's callback, a tab that is not live has no entry; a live one has the pass's entry, or
-- keeps the stored one, or has none, in this order.
pub lookup-merge_and_purge :
    (updates : History) (live : Dict Bool) (tabs : History) (id : String)
    → NodupKeys updates
    → lookup id (merge_and_purge updates live tabs).0
      ≡ (if flag (lookup id live) then either_entry (lookup id updates) (lookup id tabs) else none)
unfolding merge_and_purge
lookup-merge_and_purge updates live tabs id h = ground (
  arith,
  lookup-retain (λ (k : String). flag (lookup k live)) id (merge updates tabs),
  lookup-merge id updates tabs h,
)

-- For all updates, sets of live tabs and histories: what the callback returns does not change when
-- the callback is applied to it again.
pub lookup-merge_and_purge_again :
    (updates : History) (live : Dict Bool) (tabs : History) (id : String)
    → NodupKeys updates
    → lookup id (merge_and_purge updates live (merge_and_purge updates live tabs).0).0
      ≡ lookup id (merge_and_purge updates live tabs).0
lookup-merge_and_purge_again updates live tabs id h = ground (
  arith,
  lookup-merge_and_purge updates live tabs id h,
  lookup-merge_and_purge updates live (merge_and_purge updates live tabs).0 id h,
)
