-- ===== src/Btree/Split.antt =====
-- btree.hpp:848-1011: a full block is split in two, and its parent gets one more entry. `leaf_capacity` and
-- `inner_capacity` are `p_entsPerLeaf()` and `p_entsPerInner()`.
use d3b.Base.{
  ℕ, zero, suc, ◌+◌, ◌-◌, ◌/◌, Bool, ◌&&◌, List, [], ◌∷◌, Option, none, some, Result, ok, throws,
  ◌>>=◌, or_throw, assert, dangling, logic_error, ℤ, pos, negsuc, length, get_elem?, take, drop,
  ltb, leb, if◌then◌else◌,
}
use d3b.Btree.{
  BlkIndex, Block, leaf, inner, Btree, read_block, write_block, initialize_block, alloc_block,
  insert_at,
}

-- `block_index + 1`
abbrev pub after : ℤ → ℕ
after (pos i) = suc i
after (negsuc i) = zero

module _ {K : Type 0} {V : Type 0} where
  -- `onReadRightLink`, where there is a right neighbour.
  unfoldable pub set_left_link : BlkIndex → Block K V → Result (Block K V)
  set_left_link link (leaf left right es) = ok (leaf link right es)
  set_left_link link (inner lref es) = throws dangling

  unfoldable pub relink : BlkIndex → BlkIndex → Btree K V → Result (Btree K V)
  unfolding read_block write_block set_left_link
  relink zero link t = ok t
  relink (suc n) link t = do
    b ← read_block (suc n) t
    b' ← set_left_link link b
    ok (write_block (suc n) b' t)

module _ {K : Type 0} {V : Type 0} (leaf_capacity inner_capacity : ℕ) where
  unfoldable pub block_is_full : Block K V → Bool
  block_is_full (leaf left right es) = leb (leaf_capacity - 1) (length es)
  block_is_full (inner lref es) = leb (inner_capacity - 1) (length es)

  -- `p_insertAtInnerR`, into the parent.
  unfoldable pub insert_at_inner : ℕ → K → BlkIndex → Block K V → Result (Block K V)
  unfolding insert_at
  insert_at_inner i key ref (inner lref es) =
      assert (ltb (length es) inner_capacity) (ok (inner lref (insert_at i (key, ref) es)))
  insert_at_inner i key ref (leaf left right es) = throws dangling

  -- `fixParent` and `fixParentOnInitialize`: `parent` is the block of `p_parentBuffer`.
  unfoldable pub fix_parent :
      Option BlkIndex → ℤ → BlkIndex → K → BlkIndex → Btree K V → Result (Btree K V)
  unfolding read_block write_block initialize_block alloc_block insert_at_inner
  fix_parent (some parent) index block split_key split t = do
    b ← read_block parent t
    b' ← insert_at_inner (after index) split_key split b
    ok (write_block parent b' t)
  fix_parent none index block split_key split t =
      let (t', root) = alloc_block t in
      ok (
        initialize_block root (inner block ((split_key, split) ∷ []))
          (record t' { root_block = root; depth = t'.depth + 1 }))

  unfoldable pub split_leaf :
      BlkIndex
      → BlkIndex
      → BlkIndex
      → List (K × V)
      → Option BlkIndex
      → ℤ
      → Btree K V
      → Result (Btree K V)
  unfolding alloc_block write_block initialize_block relink fix_parent
  split_leaf block left right es parent index t =
      let (t', split) = alloc_block t in
      let left_size = length es / 2 in
      let right_size = length es - left_size in
      assert
        (ltb 0 left_size
          && (ltb 0 right_size
              && (ltb left_size (leaf_capacity - 1) && ltb right_size (leaf_capacity - 1))))
        (do
          e ← or_throw (get_elem? es (left_size - 1)) dangling
          t'' ← relink right split (
              initialize_block split (leaf block right (drop left_size es))
                (write_block block (leaf left split (take left_size es)) t'))
          fix_parent parent index block (e.0) split t'')

  unfoldable pub split_inner :
      BlkIndex
      → BlkIndex
      → List (K × BlkIndex)
      → Option BlkIndex
      → ℤ
      → Btree K V
      → Result (Btree K V)
  unfolding alloc_block write_block initialize_block fix_parent
  split_inner block lref es parent index t =
      let (t', split) = alloc_block t in
      let left_size = length es / 2 in
      let right_size = length es - left_size - 1 in
      assert
        (ltb 0 left_size
          && (ltb 0 right_size
              && (ltb left_size (inner_capacity - 2) && ltb right_size (inner_capacity - 1))))
        (do
          e ← or_throw (get_elem? es left_size) dangling
          fix_parent parent index block (e.0) split (
              initialize_block split (inner (e.1) (drop (suc left_size) es))
                (write_block block (inner lref (take left_size es)) t')))

  -- `split`
  unfoldable pub split : BlkIndex → Block K V → Option BlkIndex → ℤ → Btree K V → Result (Btree K V)
  unfolding block_is_full split_leaf split_inner
  split block (leaf left right es) parent index t =
      let result = split_leaf block left right es parent index t in
      if leb (leaf_capacity - 1) (length es) then result else throws logic_error
  split block (inner lref es) parent index t =
      let result = split_inner block lref es parent index t in
      if leb (inner_capacity - 1) (length es) then result else throws logic_error
