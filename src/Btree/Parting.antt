-- ===== src/Btree/Parting.antt =====
-- btree.hpp:863-1011: the order of a tree when the block `n` is cut in two. `q` is its parent, which still lacks the
-- new block, or 0.
use d3b.Base.{
  ℕ, suc, ◌-◌, ◌≤◌, ◌<◌, ◌≡◌, ◌≢◌, ◌⊎◌, inl, inr, ap, subst, sym, ◌∙◌, List, some, length,
  get_elem?, take, drop, All, All-mono, arith,
}
use d3b.Btree.{BlkIndex, leaf, inner}
use d3b.Btree.Bounds.{All-take, All-drop, All-and}
use d3b.Btree.Ordered.{EndsAt, EndsAt-take, EndsAt-drop, IsOrdered-around, IsOrdered-take-drop}
use d3b.Btree.Balance.{with_level}
use d3b.Btree.Ranges.{
  Ranges, cut, Slots, Slots-frame, IsOther, low_new, high_new, high_cut, low_old, high_old,
}
use d3b.Btree.Sorted.{HasLeft, HasRight, IsPlaced}

module _ (level : ℕ → ℕ) (count n sep : ℕ) (g : Ranges) (n_lt : n < count) where
  -- The ranges and levels after the cut.
  abbrev after_cut : Ranges
  after_cut = cut n count sep g

  abbrev level_cut : ℕ → ℕ
  level_cut = with_level count (level n) level

  pub HasLeft-cut :
      (m left : ℕ)
      → m < count
      → left ≢ n
      → HasLeft g level count m left
      → HasLeft after_cut level_cut (suc count) m left
  HasLeft-cut m left m1 o (inl (e, l)) = inl (e, ground (arith, m1, l))
  HasLeft-cut m left m1 o (inr (l0, l1, l2, l3, l4)) = inr (
    l0,
    omega (arith, l1),
    ground (arith, l1, l2),
    ground (arith, l1, m1, o, l3),
    ground (arith, l1, o, l4),
  )

  left_other : (left : ℕ) → 0 < n → g.low n < g.high n → HasLeft g level count n left → left ≢ n
  left_other left n0 wide (inl (e, l)) = λ q. absurd (omega (arith, q, e, n0))
  left_other left n0 wide (inr (l0, l1, l2, l3, l4)) =
      λ q. absurd (omega (arith, ap g.high q, l3, wide))

  pub HasRight-cut :
      (top m right : ℕ)
      → m < count
      → m ≢ n
      → HasRight top g count m right
      → HasRight top after_cut (suc count) m right
  HasRight-cut top m right m1 o (e, inl (z, h)) =
      (ground (arith, m1, o, e), inl (z, ground (arith, m1, o, h)))
  HasRight-cut top m right m1 o (e, inr (r0, r1, r2)) =
      (ground (arith, m1, o, e), inr (r0, omega (arith, r1), ground (arith, m1, o, r1, r2)))

  module _ {K : Type 0} (V : Type 0) (rank : K → ℕ) (fits : K → Type 0) (top : ℕ) where
    -- An inner block that does not have the block that is cut.
    pub inner-IsPlaced :
        (m lref : ℕ) (es : List (K × BlkIndex))
        → m < count
        → m ≢ n
        → IsOther n count lref
        → All (λ e. IsOther n count (e.1)) es
        → IsPlaced {V = V} rank fits top g level count m (inner lref es)
        → IsPlaced {V = V} rank fits top after_cut level_cut (suc count) m (inner lref es)
    inner-IsPlaced m lref es m1 o c cs slots =
        let low = low_old n count sep g m (λ q. absurd (omega (arith, q, m1))) in
        let high = high_old n count sep g m o (λ q. absurd (omega (arith, q, m1))) in
        subst (λ (lo : ℕ). Slots rank fits after_cut lo lref es (after_cut.high m)) (sym low)
          (subst (λ (hi : ℕ). Slots rank fits after_cut (g.low m) lref es hi) (sym high)
            (Slots-frame rank fits n count sep g (g.low m) lref es (g.high m) c cs slots))

  module _ {K : Type 0} {V : Type 0} (rank : K → ℕ) (fits : K → Type 0) (top : ℕ) where
    -- A leaf that is not cut keeps its entries and its right link.
    pub leaf-IsPlaced :
        (m left left' right : ℕ) (es : List (K × V))
        → m < count
        → m ≢ n
        → HasLeft after_cut level_cut (suc count) m left'
        → IsPlaced rank fits top g level count m (leaf left right es)
        → IsPlaced rank fits top after_cut level_cut (suc count) m (leaf left' right es)
    leaf-IsPlaced m left left' right es m1 o l (ordered, within, ends, at_left, at_right) =
        let low = low_old n count sep g m (λ q. absurd (omega (arith, q, m1))) in
        let high = high_old n count sep g m o (λ q. absurd (omega (arith, q, m1))) in
        (
          ordered,
          All-mono _ _ es (λ x (f, a, b). (f, omega (arith, low, a), omega (arith, high, b)))
              within,
          subst (λ (h : ℕ). (h ≡ top) ⊎ EndsAt rank h es) (sym high) ends,
          l,
          HasRight-cut top m right m1 o at_right,
        )

    -- The two halves of a leaf.
    pub front-IsPlaced :
        (left right half : ℕ) (e : K × V) (es : List (K × V))
        → 0 < n
        → get_elem? es (half - 1) ≡ some e
        → rank (e.0) ≡ sep
        → 0 < half
        → g.low n < g.high n
        → IsPlaced rank fits top g level count n (leaf left right es)
        → IsPlaced rank fits top after_cut level_cut (suc count) n (leaf left count (take half es))
    front-IsPlaced left right half e es n0 q r h0 wide (ordered, within, ends, at_left, at_right) =
        let o : n ≢ count = λ z. absurd (omega (arith, z, n_lt)) in
        let low = low_old n count sep g n o in
        let high = high_cut n count sep g o in
        let size : suc (half - 1) ≡ half = omega (arith, h0) in
        let (front, back) = IsOrdered-around rank (half - 1) e es q ordered in
        let front' = subst (λ (k : ℕ). All (λ x. rank (x.0) ≤ rank (e.0)) (take k es)) size front in
        let last =
          subst (λ (k : ℕ). EndsAt rank (rank (e.0)) (take k es)) size
            (EndsAt-take rank (half - 1) e es q) in
        (
          (IsOrdered-take-drop rank half es ordered).0,
          All-mono _ _ (take half es)
              (λ x ((f, a, b), c). (f, omega (arith, low, a), omega (arith, high, c, r)))
              (All-and _ _ (take half es) (All-take _ half es within) front'),
          inr (subst (λ (h : ℕ). EndsAt rank h (take half es)) (r ∙ sym high) last),
          HasLeft-cut n left n_lt (left_other left n0 wide at_left) at_left,
          (
            ground (arith, n_lt),
            inr (omega (arith, n_lt), omega arith, low_new n count sep g ∙ sym high),
          ),
        )

    pub back-IsPlaced :
        (left right half : ℕ) (e : K × V) (es : List (K × V))
        → 0 < n
        → level n ≡ 0
        → get_elem? es (half - 1) ≡ some e
        → rank (e.0) ≡ sep
        → 0 < half
        → half < length es
        → IsPlaced rank fits top g level count n (leaf left right es)
        → IsPlaced rank fits top after_cut level_cut (suc count) count (leaf n right (drop half es))
    back-IsPlaced left right half e es n0 ln q r h0 h1
          (ordered, within, ends, at_left, (next, at_right)) =
        let o : n ≢ count = λ z. absurd (omega (arith, z, n_lt)) in
        let low = low_new n count sep g in
        let high = high_new n count sep g in
        let size : suc (half - 1) ≡ half = omega (arith, h0) in
        let right_end : ((right ≡ 0) × (after_cut.high count ≡ top))
            ⊎ ((0 < right) × (right < suc count) × (after_cut.low right ≡ after_cut.high count)) =
          elim at_right [
            | inl (z, h) ↦ inl (z, high ∙ h)
            | inr (r0, r1, r2) ↦ inr (
              r0,
              omega (arith, r1),
              low_old n count sep g right (λ z. absurd (omega (arith, z, r1))) ∙ r2 ∙ sym high,
            )
          ] in
        let (front, back) = IsOrdered-around rank (half - 1) e es q ordered in
        let back' = subst (λ (k : ℕ). All (λ x. rank (e.0) ≤ rank (x.0)) (drop k es)) size back in
        (
          (IsOrdered-take-drop rank half es ordered).1,
          All-mono _ _ (drop half es)
              (λ x ((f, a, b), c). (f, omega (arith, low, c, r), omega (arith, high, b)))
              (All-and _ _ (drop half es) (All-drop _ half es within) back'),
          subst (λ (h : ℕ). (h ≡ top) ⊎ EndsAt rank h (drop half es)) (sym high)
              (elim ends [
                | inl z ↦ inl z
                | inr z ↦ inr (EndsAt-drop rank (g.high n) half es h1 z)
              ]),
          inr (
            n0,
            omega (arith, n_lt),
            ground (arith, n_lt, ln),
            high_cut n count sep g o ∙ sym low,
            ground (arith, n_lt),
          ),
          (ground (arith, next), right_end),
        )
