-- ===== src/Btree/Rooted.antt =====
-- btree.hpp:848-861: the blocks of a tree keep their places below a new root.
use d3b.Base.{
  ℕ, suc, ◌<◌, ◌≡◌, ◌⊎◌, inl, inr, subst, sym, List, [], ◌∷◌, All, All-mono, ◌==◌, if◌then◌else◌,
  arith,
}
use d3b.Btree.{BlkIndex, Block, leaf, inner}
use d3b.Btree.Balance.{with_level}
use d3b.Btree.Ordered.{EndsAt}
use d3b.Btree.Ranges.{Ranges, Slots}
use d3b.Btree.Sorted.{HasLeft, HasRight, IsPlaced}

-- The ranges with that of a new root, which is everything.
abbrev pub rooted : ℕ → ℕ → Ranges → Ranges
rooted root top g = record {
  low = λ j. if j == root then 0 else g.low j;
  high = λ j. if j == root then top else g.high j;
  next = λ j. if j == root then 0 else g.next j;
}

-- The children of an inner block are below the new root.
abbrev pub HasChildren : {K : Type 0} {V : Type 0} → ℕ → Block K V → Type 0
HasChildren count (leaf left right es) = Unit
HasChildren count (inner lref es) = (lref < count) × All (λ e. e.1 < count) es

module _ (top : ℕ) (g : Ranges) (level : ℕ → ℕ) (count l : ℕ) where
  HasLeft-rooted :
      (m left : ℕ)
      → m < count
      → HasLeft g level count m left
      → HasLeft (rooted count top g) (with_level count l level) (suc count) m left
  HasLeft-rooted m left b (inl (e, e')) = inl (e, ground (arith, b, e'))
  HasLeft-rooted m left b (inr (l0, l1, l2, l3, l4)) = inr (
    l0,
    omega (arith, l1),
    ground (arith, l1, l2),
    ground (arith, l1, b, l3),
    ground (arith, l1, l4),
  )

module _ (top : ℕ) (g : Ranges) (count : ℕ) where
  HasRight-rooted :
      (m right : ℕ)
      → m < count
      → HasRight top g count m right
      → HasRight top (rooted count top g) (suc count) m right
  HasRight-rooted m right b (e, inl (z, h)) = (ground (arith, b, e), inl (z, ground (arith, b, h)))
  HasRight-rooted m right b (e, inr (r0, r1, r2)) =
      (ground (arith, b, e), inr (r0, omega (arith, r1), ground (arith, b, r1, r2)))

module _ {K : Type 0} (rank : K → ℕ) (fits : K → Type 0) (top : ℕ) (g : Ranges) (count : ℕ) where
  Slots-rooted :
      (lo : ℕ) (c : BlkIndex) (es : List (K × BlkIndex)) (hi : ℕ)
      → c < count
      → All (λ e. e.1 < count) es
      → Slots rank fits g lo c es hi
      → Slots rank fits (rooted count top g) lo c es hi
  Slots-rooted lo c [] hi b bs (e, e') = (ground (arith, b, e), ground (arith, b, e'))
  Slots-rooted lo c ((s, r) ∷ es) hi b (b0, bs) (f, e, e', more) =
      (f, ground (arith, b, e), ground (arith, b, e'), Slots-rooted (rank s) r es hi b0 bs more)

module _ {K : Type 0} {V : Type 0} (rank : K → ℕ) (fits : K → Type 0) (top : ℕ) (g : Ranges)
    (level : ℕ → ℕ) (count l : ℕ) where
  pub IsPlaced-rooted :
      (m : ℕ) (b : Block K V)
      → m < count
      → HasChildren count b
      → IsPlaced rank fits top g level count m b
      → IsPlaced rank fits top (rooted count top g) (with_level count l level) (suc count) m b
  IsPlaced-rooted m (leaf left right es) b c (ordered, within, ends, at_left, at_right) =
      let low : (rooted count top g).low m ≡ g.low m = ground (arith, b) in
      let high : (rooted count top g).high m ≡ g.high m = ground (arith, b) in
      (
        ordered,
        All-mono _ _ es (λ x (f, a, h). (f, omega (arith, low, a), omega (arith, high, h))) within,
        subst (λ (h : ℕ). (h ≡ top) ⊎ EndsAt rank h es) (sym high) ends,
        HasLeft-rooted top g level count l m left b at_left,
        HasRight-rooted top g count m right b at_right,
      )
  IsPlaced-rooted m (inner lref es) b (c, cs) slots =
      let low : (rooted count top g).low m ≡ g.low m = ground (arith, b) in
      let high : (rooted count top g).high m ≡ g.high m = ground (arith, b) in
      subst
        (λ (lo : ℕ). Slots rank fits (rooted count top g) lo lref es ((rooted count top g).high m))
        (sym low)
        (subst (λ (hi : ℕ). Slots rank fits (rooted count top g) (g.low m) lref es hi) (sym high)
          (Slots-rooted rank fits top g count (g.low m) lref es (g.high m) c cs slots))
