-- ===== src/Btree.antt =====
-- shard/include/ll/btree.hpp: the B-tree of the index of a storage, block by block. A block is what its
-- accessors read from a page: the flags, the links of a leaf, and the entries in order; `Layout` has
-- the offsets. `pages` are the contents of the pages by number, as the page cache hands them out; that
-- pages are kept in memory while they are used is the matter of the page cache.
-- Block numbers are natural numbers, where `BlkIndexType` is an `int32_t`: an index has less than 2^31
-- blocks.
-- A comparison gives an `int`, the order of the key of an entry and of the desired key.
pub mod Layout
pub mod Search
pub mod Split
pub mod Insert
pub mod Find
pub mod Bounds
pub mod Ordered
pub mod Ranges
pub mod Balance
pub mod Sorted
pub mod Contents
pub mod Cuts
pub mod Relinking
pub mod Halves
pub mod Descent
pub mod Splitting
pub mod Entering
pub mod Parting
pub mod Placing
pub mod Cutting
pub mod Halved
pub mod Joining
pub mod Rooted
pub mod Rooting
pub mod Totality
pub mod Advancing
pub mod Sorting
pub mod Apart
pub mod Neighbours
pub mod Seeking
pub mod Next
pub mod Previous
pub mod Empty
pub mod Pages
pub mod Tests
use d3b.Base.{
  ℕ, suc, List, [], ◌∷◌, ◌++◌, Result, or_throw, dangling, Map, find, assign, take, drop,
}

abbrev pub BlkIndex : Type 0
BlkIndex = ℕ

pub data Block (K : Type 0) (V : Type 0) : Type 0 where
  -- `leftLink2`, `rightLink2` and the entries
  leaf : BlkIndex → BlkIndex → List (K × V) → Block K V
  -- the leftmost reference and the entries
  inner : BlkIndex → List (K × BlkIndex) → Block K V

-- `p_curFileHead` and the pages.
pub record Btree (K : Type 0) (V : Type 0) : Type 0 where
  pub root_block : BlkIndex
  pub num_blocks : BlkIndex
  pub depth : ℕ
  pub pages : Map (Block K V)

module _ {K : Type 0} {V : Type 0} where
  -- `createTree` and `createOnInitialize`
  unfoldable pub create_tree : Btree K V
  create_tree = record { root_block = 1; num_blocks = 2; depth = 1; pages = (1, leaf 0 0 []) ∷ [] }

  -- A page that was never initialized is not one of the tree.
  unfoldable pub read_block : BlkIndex → Btree K V → Result (Block K V)
  read_block n t = or_throw (find n t.pages) dangling

  -- A write through the buffer of a page.
  unfoldable pub write_block : BlkIndex → Block K V → Btree K V → Btree K V
  write_block n b t = record t { pages = assign n b t.pages }

  -- `initializePage`, and the writes to the new page.
  unfoldable pub initialize_block : BlkIndex → Block K V → Btree K V → Btree K V
  initialize_block n b t = record t { pages = (n, b) ∷ t.pages }

  unfoldable pub alloc_block : Btree K V → Btree K V × BlkIndex
  alloc_block t = (record t { num_blocks = suc t.num_blocks }, t.num_blocks)

-- `memmove` of the entries from index `i` on, and a write at `i`.
unfoldable pub insert_at {ℓ} : {A : Type ℓ} → ℕ → A → List A → List A
insert_at i x xs = take i xs ++ x ∷ drop i xs
