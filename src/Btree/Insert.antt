-- ===== src/Btree/Insert.antt =====
-- btree.hpp:206-335 and 1085-1094: `insert`, which descends from the root, splits every full block on its
-- way before it enters it, and writes the entry into a leaf.
use d3b.Base.{
  ℕ, zero, suc, ◌+◌, not, List, Option, none, some, Result, ok, throws, ◌>>=◌, or_throw, assert,
  dangling, assertion_failed, ℤ, pos, negsuc, length, get_elem?, ltb, if◌then◌else◌,
}
use d3b.Btree.{BlkIndex, Block, leaf, inner, Btree, read_block, write_block, insert_at}
use d3b.Btree.Search.{lower_bound}
use d3b.Btree.Split.{after, block_is_full, split}

-- The reference at an index, the leftmost one at -1.
unfoldable pub child_at : {K : Type 0} → ℤ → BlkIndex → List (K × BlkIndex) → Result BlkIndex
child_at (negsuc i) lref es = ok lref
child_at (pos i) lref es = do e ← or_throw (get_elem? es i) dangling; ok (e.1)

module _ {K : Type 0} {V : Type 0} (leaf_capacity inner_capacity : ℕ) (compare : K → ℤ) where
  unfoldable pub search_child : Block K V → Result (ℤ × BlkIndex)
  unfolding child_at lower_bound
  search_child (inner lref es) = do
    n ← child_at (lower_bound compare es) lref es
    ok (lower_bound compare es, n)
  search_child (leaf left right es) = throws assertion_failed

  -- `read_block` of `insert`: `indexInParent` and `currentNumber`.
  unfoldable pub locate : Option BlkIndex → Btree K V → Result (ℤ × BlkIndex)
  unfolding read_block search_child
  locate none t = ok (pos 0, t.root_block)
  locate (some parent) t = do b ← read_block parent t; search_child b

  -- `maybe_split_block`: the number of the block to go on with.
  unfoldable pub split_full :
      Option BlkIndex → ℤ × BlkIndex → Block K V → Btree K V → Result (Btree K V × BlkIndex)
  unfolding read_block locate block_is_full split
  split_full parent (index, current) b t =
      let rest = (do
        t' ← split leaf_capacity inner_capacity current b parent index t
        (_, again) ← locate parent t'
        b' ← read_block again t'
        assert (not (block_is_full leaf_capacity inner_capacity b')) (ok (t', again))) in
      if block_is_full leaf_capacity inner_capacity b then rest else ok (t, current)

  unfoldable pub maybe_split_block : Option BlkIndex → Btree K V → Result (Btree K V × BlkIndex)
  unfolding read_block locate split_full
  maybe_split_block parent t = do
    (index, current) ← locate parent t
    b ← read_block current t
    split_full parent (index, current) b t

  -- The rest of `insert_or_descend`, at block `b` of number `n`: a leaf ends the loop.
  unfoldable pub insert_or_descend :
      K
      → V
      → BlkIndex
      → Block K V
      → Btree K V
      → (Btree K V → Result (Btree K V))
      → Result (Btree K V)
  unfolding write_block lower_bound insert_at
  insert_or_descend key value n (leaf left right es) t descend =
      assert (ltb (length es) leaf_capacity) (
        ok (
          write_block n
            (leaf left right (insert_at (after (lower_bound compare es)) (key, value) es)) t))
  insert_or_descend key value n (inner lref es) t descend =
      assert (ltb (length es) inner_capacity) (descend t)

  -- The loop, with a bound on its rounds.
  unfoldable pub insert_loop : ℕ → K → V → Option BlkIndex → Btree K V → Result (Btree K V)
  unfolding maybe_split_block read_block insert_or_descend
  insert_loop zero key value parent t = throws dangling
  insert_loop (suc fuel) key value parent t = do
    (t', current) ← maybe_split_block parent t
    b ← read_block current t'
    insert_or_descend key value current b t' (insert_loop fuel key value (some current))

  -- `insert`: a root that is split makes the tree one deeper.
  unfoldable pub insert_entry : K → V → Btree K V → Result (Btree K V)
  unfolding insert_loop
  insert_entry key value t = insert_loop (t.depth + 1) key value none t
