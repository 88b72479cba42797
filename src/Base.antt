-- ===== src/Base.antt =====
-- The names that the other modules share: the libraries', passed on, and those of the children.
mod Tests
mod Lists
mod Assoc
mod Results
mod Int
mod Bytes
pub use Int.*
unfoldable pub use Bytes.{pack_le32, unpack_le32}
pub use Bytes.{unpack_le32-pack_le32, length-pack_le32, same_bytes, same_bytes_iff}
pub use Tests.*
pub use Lists.*
pub use Results.{
  Error, illegal_transaction, assertion_failed, out_of_range, logic_error, dangling, bad_driver,
  exists_already, not_available, illegal_index, does_not_exist, hash_mismatch, int_overflow,
  parse_failed, Result, ok, throws, ◌>>=◌, or_throw, assert, ok-injective, some_eq, >>=-eq-ok,
}
unfoldable pub use Assoc.{Map, find, assign, erase, insert}
pub use Assoc.{find-assign, find-erase, find-insert}
pub use Prim.Native.Nat.{ℕ, zero, suc, ◌+◌, ◌-◌, ◌*◌, ◌/◌, ◌%◌, ◌^◌, ◌≤◌, ◌<◌, min, max}
pub use Prim.Native.String.{String}
pub use mathlib.Core.Path.{◌≡◌, refl, sym, ap, subst, ◌∙◌}
pub use mathlib.Core.Logic.{◌≢◌, ◌↔◌, ◌⊎◌, inl, inr}
pub use mathlib.Core.Bool.{Bool, true, false, not, ◌&&◌, ◌||◌}
pub use mathlib.Core.Option.{Option, none, some, some-injective}
pub use mathlib.Core.List.{List, [], ◌∷◌, ◌++◌, map}
pub use native.Mathlib.Omega.{arith}
