-- ===== src/Data/Update.antt =====
-- data/update.go: the differences that a write makes, by key.
use devicedb.Common.{ℕ, Option, [], Bytes, length, bytes_eq}
use devicedb.Common.Dict.{Dict, insert}
use devicedb.Data.SiblingSet.{SiblingSet}

-- `none` is a nil sibling set.
pub record Diff : Type 0 where
  pub key : Bytes
  pub old_sibling_set : Option SiblingSet
  pub new_sibling_set : Option SiblingSet

abbrev pub Update : Type 0
Update = Dict Bytes Diff

abbrev pub new_update : Update
new_update = []

unfoldable pub add_diff : Update → Bytes → Option SiblingSet → Option SiblingSet → Update
add_diff update key old new =
    insert key (record { key = key; old_sibling_set = old; new_sibling_set = new }) update

abbrev pub update_size : Update → ℕ
update_size = length
