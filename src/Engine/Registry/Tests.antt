-- ===== src/Engine/Registry/Tests.antt =====
-- Storages created by name (engine.cpp:101-124).
use d3b.Base.{◌≡◌, refl, [], ◌∷◌, none, some, Result, ok, throws, pos, length}
use d3b.Storage.{new_storage}
use d3b.Engine.{Engine, new_engine}
use d3b.Engine.Registry.{
  index_from, index_of, get_storage, fresh, descriptor, has_driver, setup_storage, names,
  write_config, create_storage,
}
use d3b.Engine.Registry.Lookup.{create_storage-get_storage, create_storage-get_storage_old}

abbrev empty : Engine
unfolding new_engine
empty = new_engine ("FlexStorage" ∷ []) []

abbrev from_ok : Result Engine → Engine
unfolding new_engine
from_ok (ok e) = e
from_ok (throws x) = new_engine [] []

abbrev one : Engine
unfolding create_storage
one = from_ok (create_storage "FlexStorage" "docs" empty)

abbrev two : Engine
unfolding create_storage
two = from_ok (create_storage "FlexStorage" "logs" one)

one-two :
    (create_storage "FlexStorage" "logs" one ≡ ok two)
    × (one.storages ≡ none ∷ some (new_storage "docs") ∷ [])
    × (get_storage one "docs" ≡ pos 1)
unfolding one two empty from_ok new_engine create_storage fresh get_storage index_of index_from
    descriptor has_driver setup_storage write_config names new_storage
one-two = (refl, refl, refl)

create_storage-get_storage_example : get_storage two "logs" ≡ pos (length one.storages)
create_storage-get_storage_example =
    create_storage-get_storage "FlexStorage" "logs" one two (some (new_storage "docs") ∷ [])
      one-two.1 one-two.0

create_storage-get_storage_old_example : get_storage two "docs" ≡ pos 1
create_storage-get_storage_old_example =
    create_storage-get_storage_old "FlexStorage" "logs" "docs" 1 one two
      (some (new_storage "docs") ∷ []) one-two.1 one-two.0 one-two.2
