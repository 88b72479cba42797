-- ===== src/Btree/Pages.antt =====
-- btree.hpp:434-513: the parts of a block in its page.
use d3b.Base.{ℕ, suc, ◌+◌, ◌-◌, ◌*◌, ◌/◌, ◌≤◌, ◌<◌, ◌≡◌, arith}
use d3b.Btree.Layout.{
  Sizes, index_size, inner_head_size, leaf_head_size, ents_per_inner, ents_per_leaf, ent_size_inner,
  ent_off_inner, lref_off_inner, key_off_inner, ref_off_inner, ent_size_leaf, ent_off_leaf,
  val_off_leaf, key_off_leaf,
}

whole_entries : (i a d : ℕ) → i < a / d → d * suc i ≤ a
whole_entries i a d h = grind (arith, h)

mul_suc : (d i : ℕ) → d * suc i ≡ d * i + d
mul_suc d i = grind arith

positive : (i a d : ℕ) → i < a / d → 0 < a
positive i a d h = grind (arith, h)

-- The value and the key of each entry below the capacity of a leaf lie behind its head, one behind the
-- other from the end of the entry before, and end within the block.
pub leaf_entry_fits :
    (s : Sizes) (i : ℕ)
    → i < ents_per_leaf s
    → (leaf_head_size ≤ val_off_leaf s i)
      × (val_off_leaf s i + s.val_size ≡ key_off_leaf s i)
      × (key_off_leaf s i + s.key_size ≡ val_off_leaf s (suc i))
      × (val_off_leaf s (suc i) ≤ s.block_size)
unfolding ents_per_leaf ent_size_leaf ent_off_leaf val_off_leaf key_off_leaf
leaf_entry_fits s i h =
    let e = whole_entries i (s.block_size - leaf_head_size) (s.key_size + s.val_size) h in
    let m = mul_suc (s.key_size + s.val_size) i in
    (
      omega arith,
      omega arith,
      omega (arith, m),
      omega (arith, e, positive i (s.block_size - leaf_head_size) (s.key_size + s.val_size) h),
    )

-- The key and the reference of each entry below the capacity of an inner block lie behind the leftmost
-- reference, one behind the other from the end of the entry before, and end within the block.
pub inner_entry_fits :
    (s : Sizes) (i : ℕ)
    → i < ents_per_inner s
    → (lref_off_inner s + index_size ≤ key_off_inner s i)
      × (key_off_inner s i + s.key_size ≡ ref_off_inner s i)
      × (ref_off_inner s i + index_size ≡ key_off_inner s (suc i))
      × (key_off_inner s (suc i) ≤ s.block_size)
unfolding ents_per_inner ent_size_inner ent_off_inner lref_off_inner key_off_inner ref_off_inner
inner_entry_fits s i h =
    let a = s.block_size - inner_head_size - index_size in
    let e = whole_entries i a (s.key_size + index_size) h in
    let m = mul_suc (s.key_size + index_size) i in
    (
      omega arith,
      omega arith,
      omega (arith, m),
      omega (arith, e, positive i a (s.key_size + index_size) h),
    )
