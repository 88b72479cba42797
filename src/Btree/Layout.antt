-- ===== src/Btree/Layout.antt =====
-- btree.hpp:434-513 and 564-568: where the parts of a block lie in its page.
use d3b.Base.{ℕ, ◌+◌, ◌-◌, ◌*◌, ◌/◌}

-- `sizeof(BlkIndexType)`, `sizeof(InnerHead)` and `sizeof(LeafHead)`
abbrev pub index_size : ℕ
index_size = 4

abbrev pub inner_head_size : ℕ
inner_head_size = 8

abbrev pub leaf_head_size : ℕ
leaf_head_size = 16

pub record Sizes : Type 0 where
  pub block_size : ℕ
  pub key_size : ℕ
  pub val_size : ℕ

module _ (s : Sizes) where
  unfoldable pub ents_per_inner : ℕ
  ents_per_inner = (s.block_size - inner_head_size - index_size) / (s.key_size + index_size)

  unfoldable pub ents_per_leaf : ℕ
  ents_per_leaf = (s.block_size - leaf_head_size) / (s.key_size + s.val_size)

  unfoldable pub ent_size_inner : ℕ
  ent_size_inner = s.key_size + index_size

  unfoldable pub ent_off_inner : ℕ → ℕ
  unfolding ent_size_inner
  ent_off_inner i = inner_head_size + index_size + ent_size_inner * i

  unfoldable pub lref_off_inner : ℕ
  lref_off_inner = inner_head_size

  unfoldable pub key_off_inner : ℕ → ℕ
  unfolding ent_off_inner
  key_off_inner i = ent_off_inner i

  unfoldable pub ref_off_inner : ℕ → ℕ
  unfolding ent_off_inner
  ref_off_inner i = ent_off_inner i + s.key_size

  unfoldable pub ent_size_leaf : ℕ
  ent_size_leaf = s.key_size + s.val_size

  unfoldable pub ent_off_leaf : ℕ → ℕ
  unfolding ent_size_leaf
  ent_off_leaf i = leaf_head_size + ent_size_leaf * i

  unfoldable pub val_off_leaf : ℕ → ℕ
  unfolding ent_off_leaf
  val_off_leaf i = ent_off_leaf i

  unfoldable pub key_off_leaf : ℕ → ℕ
  unfolding ent_off_leaf
  key_off_leaf i = ent_off_leaf i + s.val_size
