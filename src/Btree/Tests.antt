-- ===== src/Btree/Tests.antt =====
-- Tests of the B-tree, with numbers as keys and small capacities.
use d3b.Base.{
  leb, ℕ, zero, suc, ◌+◌, ◌≡◌, ◌≤◌, ◌<◌, refl, ok, some, [], ◌∷◌, ℤ, pos, negsuc, ltb, ◌==◌,
  if◌then◌else◌, arith, inl, inr, find, assign,
}
use d3b.Btree.{
  leaf, inner, Btree, read_block, write_block, initialize_block, alloc_block, insert_at,
}
use d3b.Btree.Search.{at_most, at_least, lower_index, lower_bound}
use d3b.Btree.Split.{
  set_left_link, relink, block_is_full, insert_at_inner, fix_parent, split_leaf, split,
}
use d3b.Btree.Insert.{
  child_at, search_child, locate, split_full, maybe_split_block, insert_or_descend, insert_loop,
  insert_entry,
}
use d3b.Btree.Next.{IsNext, find_next-IsNext}
use d3b.Btree.Find.{Ref, find_first, find_next, find_prev}
use d3b.Btree.Balance.{IsBalanced, AreBlocks}
use d3b.Btree.Ranges.{Ranges}
use d3b.Btree.Sorted.{HasPlace, IsSorted}
use d3b.Btree.Sorting.{insert_entry-IsSorted}
use d3b.Btree.Neighbours.{IsPrev}
use d3b.Btree.Previous.{find_prev-IsPrev}
use d3b.Btree.Totality.{insert_entry-IsBalanced, insert_entry-Adds}
use d3b.Btree.Contents.{Adds}
use d3b.Btree.Layout.{
  Sizes, index_size, leaf_head_size, ents_per_leaf, ents_per_inner, val_off_leaf, key_off_leaf,
  key_off_inner, ref_off_inner, lref_off_inner,
}
use d3b.Btree.Pages.{leaf_entry_fits, inner_entry_fits}

-- The order of a key and of the desired one.
abbrev against : ℕ → ℕ → ℤ
against target k = if k == target then pos 0 else (if ltb k target then negsuc 0 else pos 1)

-- A root with two leaves, of which the first is full at a capacity of 3.
abbrev small_tree : Btree ℕ ℕ
small_tree = record {
  root_block = 3;
  num_blocks = 4;
  depth = 2;
  pages =
      (3, inner 1 ((4, 2) ∷ []))
      ∷ (2, leaf 1 0 ((6, 60) ∷ []))
      ∷ (1, leaf 0 2 ((2, 20) ∷ (4, 40) ∷ []))
      ∷ [];
}

abbrev small_level : ℕ → ℕ
small_level n = if n == 3 then 1 else 0

small_tree-AreBlocks : AreBlocks 3 4 small_level 4 small_tree.pages
unfolding find
small_tree-AreBlocks zero n0 n1 = absurd (omega (arith, n0))
small_tree-AreBlocks (suc zero) n0 n1 = (
  leaf 0 2 ((2, 20) ∷ (4, 40) ∷ []),
  refl,
  (refl, omega arith, inr (omega arith, omega arith, refl, λ q. absurd (omega (arith, q)))),
)
small_tree-AreBlocks (suc (suc zero)) n0 n1 =
    (leaf 1 0 ((6, 60) ∷ []), refl, (refl, omega arith, inl refl))
small_tree-AreBlocks (suc (suc (suc zero))) n0 n1 = (
  inner 1 ((4, 2) ∷ []),
  refl,
  (
    omega arith,
    omega arith,
    (omega arith, omega arith, refl),
    ((omega arith, omega arith, refl), tt),
  ),
)
small_tree-AreBlocks (suc (suc (suc (suc n)))) n0 n1 = absurd (omega (arith, n1))

small_tree-IsBalanced : IsBalanced 3 4 small_level small_tree
small_tree-IsBalanced = (omega arith, omega arith, refl, small_tree-AreBlocks)

-- The first leaf is split on the way, and the entry goes to its left half.
abbrev grown_tree : Btree ℕ ℕ
grown_tree = record {
  root_block = 3;
  num_blocks = 5;
  depth = 2;
  pages =
      (4, leaf 1 2 ((4, 40) ∷ []))
      ∷ (3, inner 1 ((2, 4) ∷ (4, 2) ∷ []))
      ∷ (2, leaf 4 0 ((6, 60) ∷ []))
      ∷ (1, leaf 0 4 ((1, 10) ∷ (2, 20) ∷ []))
      ∷ [];
}

insert_small : insert_entry 3 4 (against 1) 1 10 small_tree ≡ ok grown_tree
unfolding insert_entry insert_loop maybe_split_block split_full locate search_child child_at
    lower_bound lower_index split split_leaf relink set_left_link fix_parent insert_at_inner
    insert_at alloc_block initialize_block write_block read_block block_is_full insert_or_descend
    find assign
insert_small = refl

find_prev_grown : find_prev (against 5) grown_tree ≡ ok (some (4, 0))
unfolding find_prev find
find_prev_grown = refl

find_next_grown : find_next (against 5) grown_tree ≡ ok (some (2, 0))
unfolding find_next find
find_next_grown = refl

find_first_grown : find_first grown_tree ≡ ok (some (1, 0))
unfolding find_first find
find_first_grown = refl

insert_entry-IsBalanced_example :
    (level' : ℕ → ℕ) × (t' : Btree ℕ ℕ) × (insert_entry 3 4 (against 1) 1 10 small_tree ≡ ok t')
    × IsBalanced 3 4 level' t'
insert_entry-IsBalanced_example =
    insert_entry-IsBalanced 3 4 (omega arith) (omega arith) (against 1) small_level 1 10 small_tree
      small_tree-IsBalanced

-- The sizes of the index of a FlexStorage.
abbrev index_sizes : Sizes
index_sizes = record { block_size = 4096; key_size = 16; val_size = 16 }

leaf_fits : 100 < ents_per_leaf index_sizes
unfolding ents_per_leaf
leaf_fits = omega arith

inner_fits : 100 < ents_per_inner index_sizes
unfolding ents_per_inner
inner_fits = omega arith

leaf_entry_fits_example :
    (leaf_head_size ≤ val_off_leaf index_sizes 100)
    × (val_off_leaf index_sizes 100 + 16 ≡ key_off_leaf index_sizes 100)
    × (key_off_leaf index_sizes 100 + 16 ≡ val_off_leaf index_sizes 101)
    × (val_off_leaf index_sizes 101 ≤ 4096)
leaf_entry_fits_example = leaf_entry_fits index_sizes 100 leaf_fits

inner_entry_fits_example :
    (lref_off_inner index_sizes + index_size ≤ key_off_inner index_sizes 100)
    × (key_off_inner index_sizes 100 + 16 ≡ ref_off_inner index_sizes 100)
    × (ref_off_inner index_sizes 100 + index_size ≡ key_off_inner index_sizes 101)
    × (key_off_inner index_sizes 101 ≤ 4096)
inner_entry_fits_example = inner_entry_fits index_sizes 100 inner_fits

insert_entry-Adds_example : Adds 1 10 small_tree grown_tree
insert_entry-Adds_example =
    insert_entry-Adds 3 4 (omega arith) (omega arith) (against 1) small_level 1 10 small_tree
      grown_tree small_tree-IsBalanced insert_small

abbrev SmallKey : ℕ → Type 0
SmallKey k = (0 < k) × (k < 100)

SmallKey-bounds : (k : ℕ) → SmallKey k → (0 < k) × (k < 100)
SmallKey-bounds k h = h

abbrev small_ranges : Ranges
small_ranges = record {
  low = λ n. if n == 2 then 4 else 0;
  high = λ n. if n == 1 then 4 else 100;
  next = λ n. if n == 1 then 2 else 0;
}

small_places :
    (n : ℕ)
    → 0 < n
    → n < 4
    → HasPlace (λ (k : ℕ). k) SmallKey 100 small_ranges small_level 4 n small_tree.pages
unfolding find
small_places zero n0 n1 = absurd (omega (arith, n0))
small_places (suc zero) n0 n1 = (
  leaf 0 2 ((2, 20) ∷ (4, 40) ∷ []),
  refl,
  (
    omega arith,
    omega arith,
    inr refl,
    inl (refl, refl),
    (refl, inr (omega arith, omega arith, refl)),
  ),
)
small_places (suc (suc zero)) n0 n1 = (
  leaf 1 0 ((6, 60) ∷ []),
  refl,
  (
    omega arith,
    omega arith,
    inl refl,
    inr (omega arith, omega arith, refl, refl, refl),
    (refl, inl (refl, refl)),
  ),
)
small_places (suc (suc (suc zero))) n0 n1 =
    (inner 1 ((4, 2) ∷ []), refl, ((omega arith, omega arith), refl, refl, (refl, refl)))
small_places (suc (suc (suc (suc n)))) n0 n1 = absurd (omega (arith, n1))

small_tree-IsSorted : IsSorted (λ (k : ℕ). k) SmallKey 100 small_ranges small_level small_tree
unfolding find
small_tree-IsSorted = record {
  places = small_places;
  ranges = λ n n0 n1. (ground arith, ground arith);
  apart = λ j k j0 j1 k0 k1 same o. ground (arith, j0, j1, k0, k1, same, o);
  below = λ n n0 n1. ground arith;
  no_block = refl;
  low_root = refl;
  high_root = refl;
}

one_agrees : (k : ℕ) → SmallKey k → at_most (against 1 k) ≡ leb k 1
one_agrees k h = ground arith

insert_entry-IsSorted_example :
    (g' : Ranges) × (level' : ℕ → ℕ) × (t' : Btree ℕ ℕ) × (insert_entry 3 4
        (against 1)
        1
        10
        small_tree
      ≡ ok t')
    × IsBalanced 3 4 level' t'
    × IsSorted (λ (k : ℕ). k) SmallKey 100 g' level' t'
insert_entry-IsSorted_example =
    insert_entry-IsSorted 3 4 (omega arith) (omega arith) (λ (k : ℕ). k) SmallKey 100
      SmallKey-bounds (against 1) 1 (omega arith, omega arith) one_agrees small_ranges small_level
      10 small_tree small_tree-IsBalanced small_tree-IsSorted

five_agrees : (k : ℕ) → SmallKey k → at_most (against 5 k) ≡ leb k 5
five_agrees k h = ground arith

find_prev-IsPrev_example :
    (ref : Ref) × (find_prev (against 5) small_tree ≡ ok ref)
    × IsPrev (λ (k : ℕ). k) SmallKey 100 5 small_tree ref
find_prev-IsPrev_example =
    find_prev-IsPrev 3 4 (λ (k : ℕ). k) SmallKey 100 SmallKey-bounds (against 5) 5 five_agrees
      small_ranges small_level small_tree small_tree-IsBalanced small_tree-IsSorted (omega arith)

five_at_least : (k : ℕ) → SmallKey k → at_least (against 5 k) ≡ leb 5 k
five_at_least k h = ground arith

find_next-IsNext_example :
    (ref : Ref) × (find_next (against 5) small_tree ≡ ok ref)
    × IsNext (λ (k : ℕ). k) SmallKey 100 5 small_tree ref
find_next-IsNext_example =
    find_next-IsNext 3 4 (λ (k : ℕ). k) SmallKey 100 SmallKey-bounds (against 5) 5 five_at_least
      small_ranges small_level small_tree small_tree-IsBalanced small_tree-IsSorted (omega arith)
      (omega arith)
