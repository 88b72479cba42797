-- ===== src/Btree/Descent.antt =====
-- btree.hpp:206-335: `insert` enters a block that has room, and splits a full one on the way.
use d3b.Base.{
  some_eq, ℕ, suc, ◌+◌, ◌<◌, ◌≤◌, ◌≡◌, ◌≢◌, refl, subst, ap, ◌∙◌, sym, true, List, [], ◌∷◌, Option,
  none, some, Result, ok, Map, find, assign, length, ltb, if◌then◌else◌, arith, ℤ,
}
use d3b.Btree.{
  BlkIndex, Block, leaf, inner, Btree, read_block, write_block, initialize_block, alloc_block,
  insert_at,
}
use d3b.Btree.Search.{before, at_most}
use d3b.Btree.Split.{block_is_full, insert_at_inner, fix_parent, split}
use d3b.Btree.Insert.{child_at, search_child, locate, split_full}
use d3b.Btree.Bounds.{
  upper, upper_le, upper-insert_at, lower_bound-upper, after-before, length-insert_at,
  All-insert_at, child_at-insert_at,
}
use d3b.Btree.Cuts.{Entered}
use d3b.Btree.Contents.{Keeps}
use d3b.Btree.Balance.{with_level, IsBlock, AreBlocks, IsBalanced, IsBlock-grow}
use d3b.Btree.Relinking.{HasRoom, Splits, find-assign_other}
use d3b.Btree.Halves.{split-leaf, split-inner}

-- The search of the parent again, after its new entry.
pub again_lem :
    {K : Type 0} (compare : K → ℤ) (x : K × BlkIndex) (lref : BlkIndex) (es : List (K × BlkIndex))
    → child_at
        (before (upper compare (insert_at (upper compare es) x es)))
        lref
        (insert_at (upper compare es) x es)
      ≡ (if at_most (compare (x.0)) then ok (x.1) else child_at (before (upper compare es)) lref es)
again_lem compare x lref es =
    ap (λ (j : ℕ). child_at (before j) lref (insert_at (upper compare es) x es))
      (upper-insert_at compare x es)
    ∙ child_at-insert_at compare x (upper compare es) lref es (upper_le compare es)

module _ {K : Type 0} {V : Type 0} (leaf_capacity inner_capacity : ℕ) where
  pub HasRoom-write :
      (n p : BlkIndex) (b : Block K V) (pages : Map (Block K V))
      → n ≢ p
      → HasRoom leaf_capacity inner_capacity n pages
      → HasRoom leaf_capacity inner_capacity n (assign p b pages)
  HasRoom-write n p b pages o (c, f, room) = (c, find-assign_other n p b pages o ∙ f, room)

  pub fix_parent-some :
      (p : BlkIndex) (i : ℕ) (n : BlkIndex) (key : K) (new : BlkIndex) (t : Btree K V)
      (lref : BlkIndex) (es : List (K × BlkIndex))
      → find p t.pages ≡ some (inner lref es)
      → length es < inner_capacity
      → fix_parent leaf_capacity inner_capacity (some p) (before i) n key new t
        ≡ ok (record t { pages = assign p (inner lref (insert_at i (key, new) es)) t.pages })
  unfolding fix_parent read_block write_block insert_at_inner
  fix_parent-some p i n key new t lref es f l =
      let room : ltb (length es) inner_capacity ≡ true = ground (arith, l) in
      rw (f, room, after-before i) refl

  pub fix_parent-none :
      (i : ℤ) (n : BlkIndex) (key : K) (new : BlkIndex) (t : Btree K V)
      → fix_parent leaf_capacity inner_capacity none i n key new t
        ≡ ok (record t {
          root_block = t.num_blocks;
          num_blocks = suc t.num_blocks;
          depth = t.depth + 1;
          pages = (t.num_blocks, inner n ((key, new) ∷ [])) ∷ t.pages;
        })
  unfolding fix_parent alloc_block initialize_block
  fix_parent-none i n key new t = refl

  -- A full block that is split has its place taken by one with room.
  pub split-any :
      (level : ℕ → ℕ) (t : Btree K V) (n : BlkIndex) (b : Block K V) (parent : Option BlkIndex)
      (index : ℤ)
      → AreBlocks leaf_capacity inner_capacity level t.num_blocks t.pages
      → 0 < n
      → n < t.num_blocks
      → 3 ≤ leaf_capacity
      → 4 ≤ inner_capacity
      → find n t.pages ≡ some b
      → IsBlock leaf_capacity inner_capacity level t.num_blocks n b
      → block_is_full leaf_capacity inner_capacity b ≡ true
      → Splits leaf_capacity inner_capacity level n b t parent index
  unfolding block_is_full
  split-any level t n (leaf left right es) parent index h n0 n1 l i f is full =
      split-leaf leaf_capacity inner_capacity level t n h n0 n1 l i left right es parent index f is
        (ground (arith, full, is.1, l))
  split-any level t n (inner lref es) parent index h n0 n1 l i f is full =
      split-inner leaf_capacity inner_capacity level t n h n0 n1 l i lref es parent index f is
        (ground (arith, full, is.1, i))

  -- What the rounds of the loop have left: the level of the block to enter is below it.
  abbrev pub budget : (ℕ → ℕ) → Option BlkIndex → Btree K V → ℕ
  budget level none t = suc (suc (level t.root_block))
  budget level (some p) t = level p

  -- The parent is an inner block with room for the entry of a split.
  abbrev pub IsParent : (ℕ → ℕ) → Option BlkIndex → Btree K V → Type 0
  IsParent level none t = Unit
  IsParent level (some p) t =
      (0 < p) × (p < t.num_blocks) × (0 < level p) × HasRoom leaf_capacity inner_capacity p t.pages

  abbrev pub Enters :
      (K → ℤ) → (ℕ → ℕ) → Option BlkIndex → Btree K V → Result (Btree K V × BlkIndex) → Type 0
  Enters compare level parent t r =
      (level' : ℕ → ℕ) × (t' : Btree K V) × (n : BlkIndex) × (r ≡ ok (t', n))
      × IsBalanced leaf_capacity inner_capacity level' t'
      × (0 < n)
      × (n < t'.num_blocks)
      × HasRoom leaf_capacity inner_capacity n t'.pages
      × (level' n < budget level parent t)
      × Keeps t.num_blocks t.pages t'.num_blocks t'.pages
      × Entered compare level t parent level' t' n

  pub parent_is :
      (level : ℕ → ℕ) (count l i p lref : ℕ) (es : List (K × BlkIndex)) (key : K)
      (pages : Map (Block K V))
      → AreBlocks leaf_capacity inner_capacity level count pages
      → 0 < p
      → p < count
      → find p pages ≡ some (inner lref es)
      → suc (length es) < inner_capacity
      → suc l ≡ level p
      → IsBlock {V = V} leaf_capacity inner_capacity
          (with_level count l level)
          (suc count)
          p
          (inner lref (insert_at i (key, count) es))
  parent_is level count l i p lref es key pages blocks p0 p1 f small e =
      let (b, f', is) = blocks p p0 p1 in
      let is' =
        subst (λ (x : Block K V). IsBlock leaf_capacity inner_capacity level count p x)
          (some_eq (sym f' ∙ f)) is in
      let (g0, g1, g2, g3) =
        IsBlock-grow {V = V} leaf_capacity inner_capacity level count l p (inner lref es) p1 is' in
      let n = length-insert_at i (key, count) es in
      (
        omega (arith, n),
        omega (arith, n, small),
        g2,
        All-insert_at _ i (key, count) es (omega (arith, p1), omega arith, ground (arith, e, p1))
            g3,
      )

  module _ (compare : K → ℤ) where
    pub locate-some :
        (p : BlkIndex) (t : Btree K V) (lref : BlkIndex) (es : List (K × BlkIndex)) (c : BlkIndex)
        → find p t.pages ≡ some (inner lref es)
        → child_at (before (upper compare es)) lref es ≡ ok c
        → locate leaf_capacity inner_capacity compare (some p) t ≡ ok (before (upper compare es), c)
    unfolding locate read_block search_child
    locate-some p t lref es c f g = rw (f, lower_bound-upper compare es, g) refl

    pub locate_again :
        (parent : Option BlkIndex) (index index' : ℤ) (n c : BlkIndex) (b : Block K V)
        (t t' : Btree K V)
        → block_is_full leaf_capacity inner_capacity b ≡ true
        → split leaf_capacity inner_capacity n b parent index t ≡ ok t'
        → locate leaf_capacity inner_capacity compare parent t' ≡ ok (index', c)
        → HasRoom leaf_capacity inner_capacity c t'.pages
        → split_full leaf_capacity inner_capacity compare parent (index, n) b t ≡ ok (t', c)
    unfolding split_full read_block
    locate_again parent index index' n c b t t' full s l (b', f, room) =
        rw (full, s, l, f, room) refl
