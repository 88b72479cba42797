-- ===== src/Btree/Balance.antt =====
-- btree.hpp: the blocks of a tree, with the level of each above the leaves. `level` is not stored; `count` is the
-- number of blocks. Capacities are counted as in `Split`.
use d3b.Base.{
  ℕ, suc, ◌<◌, ◌≡◌, ◌≢◌, ◌⊎◌, inl, inr, refl, subst, ◌∙◌, Bool-cases, List, ◌∷◌, some, Map, find,
  assign, find-assign, length, All, All-mono, ◌==◌, if◌then◌else◌, arith,
}
use d3b.Btree.{BlkIndex, Block, leaf, inner, Btree}

abbrev pub IsChild : (ℕ → ℕ) → ℕ → BlkIndex → BlkIndex → Type 0
IsChild level count n c = (0 < c) × (c < count) × (suc (level c) ≡ level n)

-- The right neighbour of a leaf, where there is one.
abbrev pub IsSibling : (ℕ → ℕ) → ℕ → BlkIndex → BlkIndex → Type 0
IsSibling level count n c = (c ≡ 0) ⊎ ((0 < c) × (c < count) × (level c ≡ 0) × (c ≢ n))

-- The level of a new block.
abbrev pub with_level : ℕ → ℕ → (ℕ → ℕ) → ℕ → ℕ
with_level n l level j = if j == n then l else level j

IsChild-grow :
    (level : ℕ → ℕ) (count l n c : ℕ)
    → n < count
    → IsChild level count n c
    → IsChild (with_level count l level) (suc count) n c
IsChild-grow level count l n c h (c0, c1, c2) = (c0, omega (arith, c1), ground (arith, h, c1, c2))

pub IsSibling-grow :
    (level : ℕ → ℕ) (count l n c : ℕ)
    → n < count
    → IsSibling level count n c
    → IsSibling (with_level count l level) (suc count) n c
IsSibling-grow level count l n c h (inl e) = inl e
IsSibling-grow level count l n c h (inr (c0, c1, c2, c3)) =
    inr (c0, omega (arith, c1), ground (arith, c1, c2), c3)

module _ {K : Type 0} {V : Type 0} (leaf_capacity inner_capacity : ℕ) where
  -- A block has room for one more entry.
  abbrev pub IsBlock : (ℕ → ℕ) → ℕ → BlkIndex → Block K V → Type 0
  IsBlock level count n (leaf left right es) =
      (level n ≡ 0) × (length es < leaf_capacity) × IsSibling level count n right
  IsBlock level count n (inner lref es) =
      (0 < length es)
      × (length es < inner_capacity)
      × IsChild level count n lref
      × All (λ e. IsChild level count n (e.1)) es

  abbrev pub HasBlock : (ℕ → ℕ) → ℕ → BlkIndex → Map (Block K V) → Type 0
  HasBlock level count n pages = (b : Block K V) × (find n pages ≡ some b) × IsBlock level count n b

  abbrev pub AreBlocks : (ℕ → ℕ) → ℕ → Map (Block K V) → Type 0
  AreBlocks level count pages = (n : ℕ) → 0 < n → n < count → HasBlock level count n pages

  abbrev pub IsBalanced : (ℕ → ℕ) → Btree K V → Type 0
  IsBalanced level t =
      (0 < t.root_block)
      × (t.root_block < t.num_blocks)
      × (t.depth ≡ suc (level t.root_block))
      × AreBlocks level t.num_blocks t.pages

  pub IsBlock-grow :
      (level : ℕ → ℕ) (count l n : ℕ) (b : Block K V)
      → n < count
      → IsBlock level count n b
      → IsBlock (with_level count l level) (suc count) n b
  IsBlock-grow level count l n (leaf left right es) h (b0, b1, b2) =
      (ground (arith, h, b0), b1, IsSibling-grow level count l n right h b2)
  IsBlock-grow level count l n (inner lref es) h (b0, b1, b2, b3) = (
    b0,
    b1,
    IsChild-grow level count l n lref h b2,
    All-mono _ _ es (λ e. IsChild-grow level count l n (e.1) h) b3,
  )

  pub AreBlocks-write :
      (level : ℕ → ℕ) (count n : ℕ) (b : Block K V) (pages : Map (Block K V))
      → AreBlocks level count pages
      → IsBlock level count n b
      → AreBlocks level count (assign n b pages)
  AreBlocks-write level count n b pages h k j j0 j1 =
      let (c, f, is) = h j j0 j1 in
      elim (Bool-cases (n == j)) [
        | inl same ↦
            let e : n ≡ j = ground (arith, same) in
            (
              b,
              find-assign j n b pages ∙ rw (same, f) refl,
              subst (λ (i : ℕ). IsBlock level count i b) e k,
            )
        | inr other ↦ (c, find-assign j n b pages ∙ rw other f, is)
      ]

  -- A new block, whose number is the count.
  pub AreBlocks-initialize :
      (level : ℕ → ℕ) (count l : ℕ) (b : Block K V) (pages : Map (Block K V))
      → ((j : ℕ) → 0 < j → j < count → HasBlock (with_level count l level) (suc count) j pages)
      → IsBlock (with_level count l level) (suc count) count b
      → AreBlocks (with_level count l level) (suc count) ((count, b) ∷ pages)
  unfolding find
  AreBlocks-initialize level count l b pages h k j j0 j1 = elim (Bool-cases (count == j)) [
    | inl same ↦
        let e : count ≡ j = ground (arith, same) in
        (b, rw same refl, subst (λ (i : ℕ). IsBlock (with_level count l level) (suc count) i b) e k)
    | inr other ↦ let (c, f, is) = h j j0 (ground (arith, other, j1)) in (c, rw other f, is)
  ]

  pub AreBlocks-grow :
      (level : ℕ → ℕ) (count l : ℕ) (pages : Map (Block K V))
      → AreBlocks level count pages
      → (j : ℕ) → 0 < j
      → j < count
      → HasBlock (with_level count l level) (suc count) j pages
  AreBlocks-grow level count l pages h j j0 j1 =
      let (b, f, is) = h j j0 j1 in (b, f, IsBlock-grow level count l j b j1 is)

  -- The level says which kind of block it is.
  pub leaf_of_level :
      (level : ℕ → ℕ) (count n : ℕ) (b : Block K V)
      → level n ≡ 0
      → IsBlock level count n b
      → (left : BlkIndex) × (right : BlkIndex) × (es : List (K × V)) × (b ≡ leaf left right es)
        × (length es < leaf_capacity)
        × IsSibling level count n right
  leaf_of_level level count n (leaf left right es) l (h0, h1, h2) = (left, right, es, refl, h1, h2)
  leaf_of_level level count n (inner lref es) l (h0, h1, h2, h3) = absurd (omega (arith, l, h2))

  pub inner_of_level :
      (level : ℕ → ℕ) (count n k : ℕ) (b : Block K V)
      → level n ≡ suc k
      → IsBlock level count n b
      → (lref : BlkIndex) × (es : List (K × BlkIndex)) × (b ≡ inner lref es)
        × (0 < length es)
        × (length es < inner_capacity)
        × IsChild level count n lref
        × All (λ e. IsChild level count n (e.1)) es
  inner_of_level level count n k (inner lref es) l (h0, h1, h2, h3) =
      (lref, es, refl, h0, h1, h2, h3)
  inner_of_level level count n k (leaf left right es) l (h0, h1, h2) = absurd (omega (arith, l, h0))
