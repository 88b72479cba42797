-- ===== src/Btree/Sorted.antt =====
-- btree.hpp: the order of a whole tree. `rank` puts the keys that `fits` in order, above 0 and below `top`, and
-- each block has the ranks of a range (Btree.Ranges).
use d3b.Base.{
  ℕ, ◌≤◌, ◌<◌, ◌≡◌, ◌≢◌, ◌⊎◌, subst, sym, ◌∙◌, Option, none, some, some_eq, Map, find, All,
}
use d3b.Btree.{BlkIndex, Block, leaf, inner, Btree}
use d3b.Btree.Ordered.{IsOrdered, EndsAt}
use d3b.Btree.Balance.{IsBlock, IsBalanced}
use d3b.Btree.Ranges.{Ranges, Slots, IsRange}

-- The left link of a leaf leads to the leaf that ends where it starts.
abbrev pub HasLeft : Ranges → (ℕ → ℕ) → ℕ → BlkIndex → BlkIndex → Type 0
HasLeft g level count n left =
    ((left ≡ 0) × (g.low n ≡ 0))
    ⊎ ((0 < left) × (left < count) × (level left ≡ 0) × (g.high left ≡ g.low n) × (g.next left ≡ n))

-- The right link leads to the leaf that starts where it ends.
abbrev pub HasRight : ℕ → Ranges → ℕ → BlkIndex → BlkIndex → Type 0
HasRight top g count n right =
    (g.next n ≡ right)
    × (((right ≡ 0) × (g.high n ≡ top))
        ⊎ ((0 < right) × (right < count) × (g.low right ≡ g.high n)))

abbrev pub AreApart : Ranges → ℕ → ℕ → Type 0
AreApart g j k = (g.high j ≤ g.low k) ⊎ (g.high k ≤ g.low j)

module _ {K : Type 0} {V : Type 0} (rank : K → ℕ) (fits : K → Type 0) (top : ℕ) where
  abbrev pub IsWithin : Ranges → ℕ → K × V → Type 0
  IsWithin g n e = fits (e.0) × (g.low n ≤ rank (e.0)) × (rank (e.0) ≤ g.high n)

  abbrev pub IsPlaced : Ranges → (ℕ → ℕ) → ℕ → BlkIndex → Block K V → Type 0
  IsPlaced g level count n (leaf left right es) =
      IsOrdered rank es
      × All (IsWithin g n) es
      × ((g.high n ≡ top) ⊎ EndsAt rank (g.high n) es)
      × HasLeft g level count n left
      × HasRight top g count n right
  IsPlaced g level count n (inner lref es) = Slots rank fits g (g.low n) lref es (g.high n)

  abbrev pub HasPlace : Ranges → (ℕ → ℕ) → ℕ → BlkIndex → Map (Block K V) → Type 0
  HasPlace g level count n pages =
      (b : Block K V) × (find n pages ≡ some b) × IsPlaced g level count n b

  pub record IsSorted (g : Ranges) (level : ℕ → ℕ) (t : Btree K V) : Type 0 where
    pub places : (n : ℕ) → 0 < n → n < t.num_blocks → HasPlace g level t.num_blocks n t.pages
    pub ranges : (n : ℕ) → 0 < n → n < t.num_blocks → IsRange g n × (g.high n ≤ top)
    pub apart :
        (j k : ℕ)
        → 0 < j
        → j < t.num_blocks
        → 0 < k
        → k < t.num_blocks
        → level j ≡ level k
        → j ≢ k
        → AreApart g j k
    pub below : (n : ℕ) → 0 < n → n < t.num_blocks → level n ≤ level t.root_block
    pub no_block : find 0 t.pages ≡ none
    pub low_root : g.low t.root_block ≡ 0
    pub high_root : g.high t.root_block ≡ top

  abbrev pub LeafAll : (K × V → Type 0) → Option (Block K V) → Type 0
  LeafAll P none = Unit
  LeafAll P (some (leaf left right es)) = All P es
  LeafAll P (some (inner lref es)) = Unit

  -- Of every entry of the leaves.
  abbrev pub InLeaves : (K × V → Type 0) → Btree K V → Type 0
  InLeaves P t = (n : ℕ) → 0 < n → n < t.num_blocks → LeafAll P (find n t.pages)

  module _ (leaf_capacity inner_capacity : ℕ) where
    -- Both invariants are about the same block.
    pub IsPlaced-block :
        (g : Ranges) (level : ℕ → ℕ) (t : Btree K V) (n : BlkIndex)
        → IsBalanced leaf_capacity inner_capacity level t
        → IsSorted g level t
        → 0 < n
        → n < t.num_blocks
        → (b : Block K V) × (find n t.pages ≡ some b)
          × IsBlock leaf_capacity inner_capacity level t.num_blocks n b
          × IsPlaced g level t.num_blocks n b
    IsPlaced-block g level t n (r0, r1, d, blocks) s n0 n1 =
        let (b, f, is) = blocks n n0 n1 in
        let (b', f', placed) = s.places n n0 n1 in
        (
          b,
          f,
          is,
          subst (λ (x : Block K V). IsPlaced g level t.num_blocks n x) (some_eq (sym f' ∙ f))
              placed,
        )
