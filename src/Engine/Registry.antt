-- ===== src/Engine/Registry.antt =====
-- engine.cpp:38-167 and 324-371: the storages and the views of a database, and its configuration.
-- The two halves of the source are alike, and so are the definitions below. `mkDir` throws where
-- the directory is there already, and a directory is there from the time its descriptor is
-- written. Where the driver is not known, the source has made the directory before it throws; the error
-- here has no engine and no disk with it, so that this directory is left out.
pub mod Lookup
pub mod Tests
use text.Mathlib.Text.{◌==◌ as str_eq}
use d3b.Base.{
  ℕ, zero, suc, Bool, true, false, List, [], ◌∷◌, ◌++◌, Option, none, some, Result, ok, throws,
  ◌>>=◌, or_throw, exists_already, not_available, illegal_index, does_not_exist, bad_driver, ℤ, pos,
  negsuc, minus_one, String, map, if◌then◌else◌,
}
use d3b.Storage.{FlexStorage, View, new_storage, new_view}
use d3b.Engine.{Engine}
use d3b.Engine.Pointers.{live}

-- `fileExists` and `mkDir`: the descriptor under a name.
unfoldable pub descriptor : String → List (String × String) → Option String
descriptor k [] = none
descriptor k ((j, d) ∷ ds) = if str_eq j k then some d else descriptor k ds

-- `getDriver` of a registry.
unfoldable pub has_driver : String → List String → Bool
has_driver k [] = false
has_driver k (d ∷ ds) = if str_eq d k then true else has_driver k ds

module _ {D : Type 0} (name : D → String) where
  -- The loop of `getStorage` and `getView`, from index `i`.
  unfoldable pub index_from : ℕ → String → List (Option D) → ℤ
  index_from i k [] = minus_one
  index_from i k (none ∷ ds) = index_from (suc i) k ds
  index_from i k (some d ∷ ds) =
      let rest = index_from (suc i) k ds in if str_eq (name d) k then pos i else rest

  -- The loop starts behind the null pointer at 0.
  unfoldable pub index_of : String → List (Option D) → ℤ
  unfolding index_from
  index_of k [] = minus_one
  index_of k (_ ∷ ds) = index_from 1 k ds

  -- The identifiers that `writeConfig` writes.
  unfoldable pub names : List (Option D) → List String
  unfolding live
  names [] = []
  names (_ ∷ ds) = map name (live ds)

-- `p_storages[i] = nullptr`, where the pointer was no null pointer.
unfoldable pub unlink {ℓ} : {D : Type ℓ} → List (Option D) → ℕ → Result (List (Option D))
unlink [] i = throws bad_driver
unlink (none ∷ ds) zero = throws does_not_exist
unlink (some d ∷ ds) zero = ok (none ∷ ds)
unlink (p ∷ ds) (suc i) = do rest ← unlink ds i; ok (p ∷ rest)

unfoldable pub get_storage : Engine → String → ℤ
unfolding index_of
get_storage e k = index_of (λ s. s.identifier) k e.storages

unfoldable pub get_view : Engine → String → ℤ
unfolding index_of
get_view e k = index_of (λ v. v.identifier) k e.views

unfoldable pub write_config : Engine → Engine
unfolding names
write_config e = record e {
  disk = record (e.disk) {
    config = some (record {
      storages = names (λ (s : FlexStorage). s.identifier) e.storages;
      views = names (λ (v : View). v.identifier) e.views;
    });
  };
}

unfoldable pub setup_storage : String → String → Engine → Result Engine
unfolding has_driver
setup_storage driver k e =
    if has_driver driver e.storage_drivers
    then ok (record e { storages = e.storages ++ some (new_storage k) ∷ [] })
    else throws not_available

unfoldable pub setup_view : String → String → Engine → Result Engine
unfolding has_driver
setup_view driver k e =
    if has_driver driver e.view_drivers
    then ok (record e { views = e.views ++ some (new_view k) ∷ [] })
    else throws not_available

-- The check of `createStorage` and `createView`: the index must be -1, and there must be no
-- directory.
unfoldable pub fresh : ℤ → Option String → Result (Unit {0})
fresh (pos i) d = throws exists_already
fresh (negsuc i) none = ok tt
fresh (negsuc i) (some d) = throws exists_already

unfoldable pub create_storage : String → String → Engine → Result Engine
unfolding fresh setup_storage write_config
create_storage driver k e = do
  _ ← fresh (get_storage e k) (descriptor k e.disk.storage_descriptors)
  e' ← setup_storage driver k e
  ok (
      write_config (record e' {
        disk = record (e'.disk) { storage_descriptors = (k, driver) ∷ e'.disk.storage_descriptors };
      }))

unfoldable pub create_view : String → String → Engine → Result Engine
unfolding fresh setup_view write_config
create_view driver k e = do
  _ ← fresh (get_view e k) (descriptor k e.disk.view_descriptors)
  e' ← setup_view driver k e
  ok (
      write_config (record e' {
        disk = record (e'.disk) { view_descriptors = (k, driver) ∷ e'.disk.view_descriptors };
      }))

unfoldable pub unlink_storage : ℤ → Engine → Result Engine
unfolding unlink write_config
unlink_storage (negsuc i) e = throws illegal_index
unlink_storage (pos i) e = do
  storages ← unlink e.storages i
  ok (write_config (record e { storages = storages }))

unfoldable pub unlink_view : ℤ → Engine → Result Engine
unfolding unlink write_config
unlink_view (negsuc i) e = throws illegal_index
unlink_view (pos i) e = do views ← unlink e.views i; ok (write_config (record e { views = views }))

-- The loops of `loadConfig` over the identifiers of the configuration.
unfoldable pub load_storages : List String → Engine → Result Engine
unfolding setup_storage descriptor
load_storages [] e = ok e
load_storages (k ∷ ks) e = do
  driver ← or_throw (descriptor k e.disk.storage_descriptors) does_not_exist
  e' ← setup_storage driver k e
  load_storages ks e'

unfoldable pub load_views : List String → Engine → Result Engine
unfolding setup_view descriptor
load_views [] e = ok e
load_views (k ∷ ks) e = do
  driver ← or_throw (descriptor k e.disk.view_descriptors) does_not_exist
  e' ← setup_view driver k e
  load_views ks e'
