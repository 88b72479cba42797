-- ===== src/Btree/Find.antt =====
-- btree.hpp:578-841: `FindClosure` and `IterateClosure`. A `Ref` that is `none` is the invalid `Ref()`; a
-- valid one names a block above 0, which is the file head. The buffer of an iterator is the page of its
-- block, so that the pair of block and entry is all its state.
use d3b.Base.{
  ℕ, zero, suc, ◌-◌, List, [], ◌∷◌, Option, none, some, Result, ok, throws, ◌>>=◌, or_throw, assert,
  dangling, assertion_failed, ℤ, pos, negsuc, length, get_elem?, set, ltb, ◌==◌, if◌then◌else◌,
}
use d3b.Btree.{BlkIndex, Block, leaf, inner, Btree, read_block, write_block}
use d3b.Btree.Search.{lower_bound, next_in}
use d3b.Btree.Insert.{child_at}

abbrev pub Ref : Type 0
Ref = Option (BlkIndex × ℕ)

-- `findNextOnFoundChild`
unfoldable pub next_child : {K : Type 0} → ℤ → BlkIndex → List (K × BlkIndex) → Result BlkIndex
next_child (negsuc i) lref es = do e ← or_throw (get_elem? es (length es - 1)) dangling; ok (e.1)
next_child (pos zero) lref es = ok lref
next_child (pos (suc i)) lref es = do e ← or_throw (get_elem? es i) dangling; ok (e.1)

unfoldable pub find_next_in_leaf : BlkIndex → ℤ → Ref
find_next_in_leaf n (pos i) = some (n, i)
find_next_in_leaf n (negsuc i) = none

module _ {K : Type 0} {V : Type 0} where
  unfoldable pub find_first_on_read : BlkIndex → Block K V → (BlkIndex → Result Ref) → Result Ref
  find_first_on_read n (leaf left right []) descend = ok none
  find_first_on_read n (leaf left right (e ∷ es)) descend = ok (some (n, 0))
  find_first_on_read n (inner lref es) descend = descend lref

  -- `findFirstDescend`, with a bound on the blocks it enters.
  unfoldable pub find_first_descend : ℕ → Btree K V → BlkIndex → Result Ref
  unfolding read_block find_first_on_read
  find_first_descend zero t n = throws dangling
  find_first_descend (suc fuel) t n = do
    b ← read_block n t
    find_first_on_read n b (find_first_descend fuel t)

  unfoldable pub find_first : Btree K V → Result Ref
  unfolding find_first_descend
  find_first t = find_first_descend t.depth t t.root_block

  -- `findPrevReadLeft`
  unfoldable pub find_prev_read_left : BlkIndex → Block K V → Result Ref
  find_prev_read_left n (leaf left right es) =
      assert (ltb 0 (length es)) (ok (some (n, length es - 1)))
  find_prev_read_left n (inner lref es) = throws dangling

  unfoldable pub find_prev_in_leaf : BlkIndex → ℤ → BlkIndex → Btree K V → Result Ref
  unfolding read_block find_prev_read_left
  find_prev_in_leaf n (pos i) left t = ok (some (n, i))
  find_prev_in_leaf n (negsuc i) zero t = ok none
  find_prev_in_leaf n (negsuc i) (suc left) t = do
    b ← read_block (suc left) t
    find_prev_read_left (suc left) b

module _ {K : Type 0} {V : Type 0} (compare : K → ℤ) where
  unfoldable pub find_next_on_read : BlkIndex → Block K V → (BlkIndex → Result Ref) → Result Ref
  unfolding next_in next_child find_next_in_leaf
  find_next_on_read n (leaf left right es) descend = ok (find_next_in_leaf n (next_in compare es))
  find_next_on_read n (inner lref es) descend = do
    child ← next_child (next_in compare es) lref es
    descend child

  unfoldable pub find_next_descend : ℕ → Btree K V → BlkIndex → Result Ref
  unfolding read_block find_next_on_read
  find_next_descend zero t n = throws dangling
  find_next_descend (suc fuel) t n = do
    b ← read_block n t
    find_next_on_read n b (find_next_descend fuel t)

  unfoldable pub find_next : Btree K V → Result Ref
  unfolding find_next_descend
  find_next t = find_next_descend t.depth t t.root_block

  unfoldable pub find_prev_on_read :
      BlkIndex → Block K V → Btree K V → (BlkIndex → Result Ref) → Result Ref
  unfolding lower_bound child_at find_prev_in_leaf
  find_prev_on_read n (leaf left right es) t descend =
      find_prev_in_leaf n (lower_bound compare es) left t
  find_prev_on_read n (inner lref es) t descend = do
    child ← child_at (lower_bound compare es) lref es
    descend child

  unfoldable pub find_prev_descend : ℕ → Btree K V → BlkIndex → Result Ref
  unfolding read_block find_prev_on_read
  find_prev_descend zero t n = throws dangling
  find_prev_descend (suc fuel) t n = do
    b ← read_block n t
    find_prev_on_read n b t (find_prev_descend fuel t)

  unfoldable pub find_prev : Btree K V → Result Ref
  unfolding find_prev_descend
  find_prev t = find_prev_descend t.depth t t.root_block

-- `IterateClosure`
module _ {K : Type 0} {V : Type 0} where
  unfoldable pub seek : Ref → Btree K V → Result Ref
  unfolding read_block
  seek none t = ok none
  seek (some (n, i)) t = do b ← read_block n t; ok (some (n, i))

  -- The entries of the block that an iterator stands at, and its right link.
  unfoldable pub leaf_at : BlkIndex → Btree K V → Result (BlkIndex × List (K × V))
  unfolding read_block
  leaf_at n t = do
    b ← read_block n t
    elim b [ leaf left right es ↦ ok (right, es) | inner lref es ↦ throws dangling ]

  unfoldable pub step_right : BlkIndex → Btree K V → Result Ref
  unfolding read_block
  step_right zero t = ok none
  step_right (suc right) t = do b ← read_block (suc right) t; ok (some (suc right, 0))

  unfoldable pub forward : Ref → Btree K V → Result Ref
  unfolding leaf_at step_right
  forward none t = throws assertion_failed
  forward (some (n, i)) t = do
    (right, es) ← leaf_at n t
    assert (ltb i (length es))
        (if suc i == length es then step_right right t else ok (some (n, suc i)))

  unfoldable pub get_entry : Ref → Btree K V → Result (K × V)
  unfolding leaf_at
  get_entry none t = throws assertion_failed
  get_entry (some (n, i)) t = do (right, es) ← leaf_at n t; or_throw (get_elem? es i) dangling

  unfoldable pub get_key : Ref → Btree K V → Result K
  unfolding get_entry
  get_key r t = do e ← get_entry r t; ok (e.0)

  unfoldable pub get_value : Ref → Btree K V → Result V
  unfolding get_entry
  get_value r t = do e ← get_entry r t; ok (e.1)

  unfoldable pub overwrite : ℕ → V → Block K V → Block K V
  overwrite i v (leaf left right es) = elim (get_elem? es i) [
    | none ↦ leaf left right es
    | some e ↦ leaf left right (set es i (e.0, v))
  ]
  overwrite i v (inner lref es) = inner lref es

  unfoldable pub set_value : Ref → V → Btree K V → Result (Btree K V)
  unfolding get_entry read_block write_block overwrite
  set_value none v t = throws assertion_failed
  set_value (some (n, i)) v t = do
    e ← get_entry (some (n, i)) t
    b ← read_block n t
    ok (write_block n (overwrite i v b) t)
