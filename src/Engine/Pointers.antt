-- ===== src/Engine/Pointers.antt =====
-- The vectors `p_storages` and `p_views` of engine.cpp: accesses by a C++ index, and the walks that
-- skip null pointers.
use d3b.Base.{
  ℕ, zero, suc, List, [], ◌∷◌, Option, none, some, Result, ok, throws, bad_driver, ℤ, pos, negsuc,
  get_elem?,
}

module _ {D : Type 0} where
  unfoldable pub deref : Option (Option D) → Result D
  deref (some (some d)) = ok d
  deref _ = throws bad_driver

  -- `p_storages[i]`, and then a use of the pointer.
  unfoldable pub at_index : List (Option D) → ℤ → Result D
  unfolding deref
  at_index ds (pos i) = deref (get_elem? ds i)
  at_index ds (negsuc i) = throws bad_driver

  -- A write through the pointer at an index.
  unfoldable pub set_at : List (Option D) → ℕ → D → List (Option D)
  set_at [] i d = []
  set_at (p ∷ ds) zero d = some d ∷ ds
  set_at (p ∷ ds) (suc i) d = p ∷ set_at ds i d

  unfoldable pub set_index : List (Option D) → ℤ → D → List (Option D)
  unfolding set_at
  set_index ds (pos i) d = set_at ds i d
  set_index ds (negsuc i) d = ds

  -- The loops over all drivers: a null pointer is skipped.
  unfoldable pub for_each : (D → D) → List (Option D) → List (Option D)
  for_each f [] = []
  for_each f (none ∷ ds) = none ∷ for_each f ds
  for_each f (some d ∷ ds) = some (f d) ∷ for_each f ds

  unfoldable pub live : List (Option D) → List D
  live [] = []
  live (none ∷ ds) = live ds
  live (some d ∷ ds) = d ∷ live ds
