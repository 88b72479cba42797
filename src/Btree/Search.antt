-- ===== src/Btree/Search.antt =====
-- btree.hpp:144-204 and 1017-1083: the search for an entry of one block.
use d3b.Base.{
  ℕ, zero, suc, Bool, true, false, List, [], ◌∷◌, none, some, ℤ, pos, negsuc, minus_one, length,
  get_elem?, if◌then◌else◌,
}

-- `result <= 0` and `result >= 0` of a comparison.
abbrev pub at_most : ℤ → Bool
at_most (pos zero) = true
at_most (pos (suc n)) = false
at_most (negsuc n) = true

abbrev pub at_least : ℤ → Bool
at_least (pos n) = true
at_least (negsuc n) = false

-- `*index - 1`
abbrev pub before : ℕ → ℤ
before zero = minus_one
before (suc i) = pos i

module _ {K : Type 0} {A : Type 0} (compare : K → ℤ) where
  -- The loop of `lowerBoundLeaf` and `lowerBoundInner`, from `index` down; an entry past the end is
  -- never asked for.
  unfoldable pub lower_index : ℕ → List (K × A) → ℕ
  lower_index zero es = zero
  lower_index (suc index) es =
      let rest = lower_index index es in
      elim (get_elem? es index) [
        | none ↦ rest
        | some e ↦ if at_most (compare (e.0)) then suc index else rest
      ]

  unfoldable pub lower_bound : List (K × A) → ℤ
  unfolding lower_index
  lower_bound es = before (lower_index (length es) es)

  -- `nextInLeaf` and `nextInInner`, from `entry_index` on.
  unfoldable pub next_from : ℕ → List (K × A) → ℤ
  next_from entry_index [] = minus_one
  next_from entry_index (e ∷ es) =
      let rest = next_from (suc entry_index) es in
      if at_least (compare (e.0)) then pos entry_index else rest

  unfoldable pub next_in : List (K × A) → ℤ
  unfolding next_from
  next_in es = next_from 0 es
