-- ===== src/Base/Assoc.antt =====
-- `std::unordered_map` with integer keys, as an association list: the operations that the sources
-- use, each with the law that says what a later `find` sees.
use Prim.Native.Nat.{ℕ}
use mathlib.Core.Path.{◌≡◌}
use mathlib.Core.List.{List, [], ◌∷◌}
use mathlib.Core.Option.{Option, none, some}
use native.Mathlib.Omega.{arith}
use d3b.Base.Tests.{◌==◌, if◌then◌else◌}

abbrev pub Map {ℓ} : Type ℓ → Type ℓ
Map V = List (ℕ × V)

module _ {ℓ} {V : Type ℓ} where
  unfoldable pub find : ℕ → Map V → Option V
  find k [] = none
  find k ((j, v) ∷ m) = if j == k then some v else find k m

  -- A write through the pointer that `find` gave.
  unfoldable pub assign : ℕ → V → Map V → Map V
  assign k v [] = []
  assign k v ((j, w) ∷ m) = if j == k then (j, v) ∷ assign k v m else (j, w) ∷ assign k v m

  unfoldable pub erase : ℕ → Map V → Map V
  erase k [] = []
  erase k ((j, w) ∷ m) = if j == k then erase k m else (j, w) ∷ erase k m

  -- `insert` of the standard library keeps an entry that is there already.
  unfoldable pub insert : ℕ → V → Map V → Map V
  insert k v m = elim (find k m) [ none ↦ (k, v) ∷ m | some _ ↦ m ]

  pub find-assign :
      (j k : ℕ) (v : V) (m : Map V)
      → find j (assign k v m)
        ≡ (if k == j then (elim (find j m) [ none ↦ none | some _ ↦ some v ]) else find j m)
  unfolding find assign
  find-assign j k v [] = ground arith
  find-assign j k v ((i, w) ∷ m) = ground (arith, find-assign j k v m)

  pub find-erase : (j k : ℕ) (m : Map V) → find j (erase k m) ≡ (if k == j then none else find j m)
  unfolding find erase
  find-erase j k [] = ground arith
  find-erase j k ((i, w) ∷ m) = ground (arith, find-erase j k m)

  pub find-insert :
      (j k : ℕ) (v : V) (m : Map V)
      → find k m ≡ none
      → find j (insert k v m) ≡ (if k == j then some v else find j m)
  unfolding find insert
  find-insert j k v m h = ground arith
