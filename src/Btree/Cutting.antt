-- ===== src/Btree/Cutting.antt =====
-- btree.hpp:863-1011: every block but the parent has its place again after a block is cut in two.
use d3b.Base.{
  ℕ, suc, ◌-◌, ◌/◌, ◌≤◌, ◌<◌, ◌≡◌, ◌≢◌, inl, inr, ap, subst, sym, ◌∙◌, Bool-cases, List, Map,
  length, take, drop, All-mono, ◌==◌, arith,
}
use d3b.Btree.{BlkIndex, Block, leaf, inner, Btree}
use d3b.Btree.Bounds.{All-take, All-drop}
use d3b.Btree.Ordered.{All-get}
use d3b.Btree.Balance.{IsChild, with_level, IsBlock, IsBalanced}
use d3b.Btree.Cuts.{IsCut, IsRelinked}
use d3b.Btree.Ranges.{
  Ranges, cut, Slots, Slots-IsInside, Slots-frame, Slots-take-drop, IsOther, low_new, high_new,
  high_cut, low_old,
}
use d3b.Btree.Sorted.{IsWithin, IsPlaced, HasPlace, IsSorted}
use d3b.Btree.Parting.{front-IsPlaced, back-IsPlaced}
use d3b.Btree.Placing.{place_right, find_place, place_halves}

module _ {K : Type 0} {V : Type 0} (leaf_capacity inner_capacity : ℕ) (rank : K → ℕ)
    (fits : K → Type 0) (top : ℕ) (g : Ranges) (level : ℕ → ℕ) (t : Btree K V)
    (balanced : IsBalanced leaf_capacity inner_capacity level t)
    (sorted : IsSorted rank fits top g level t) (n : BlkIndex) (n0 : 0 < n) (n1 : n < t.num_blocks)
    (wide : g.low n < g.high n) (q : ℕ)
    (alone : (m : ℕ)
      → 0 < m
      → m < t.num_blocks
      → m ≢ q
      → suc (level n) ≡ level m
      → g.low m ≤ g.low n
      → g.high n ≤ g.high m
      → ⊥) where
  -- What the cut leaves of the order.
  abbrev pub IsParted : K → Map (Block K V) → Type 0
  IsParted key pages =
      fits key
      × (g.low n ≤ rank key)
      × (rank key ≤ g.high n)
      × ((j : ℕ)
          → 0 < j
          → j < suc t.num_blocks
          → j ≢ q
          → HasPlace rank fits top (cut n t.num_blocks (rank key) g)
              (with_level t.num_blocks (level n) level) (suc t.num_blocks) j pages)

  pub cut-leaf :
      (left right : BlkIndex) (es : List (K × V)) (key : K) (pages : Map (Block K V))
      → IsBlock leaf_capacity inner_capacity level t.num_blocks n (leaf left right es)
      → IsPlaced rank fits top g level t.num_blocks n (leaf left right es)
      → IsCut n (leaf left right es) t.num_blocks key t.pages pages
      → IsParted key pages
  cut-leaf left right es key pages (ln, small, sibling) placed
        (e, at, same, h0, h1, f, f', relinked, rest) =
      let (ordered, within, ends, at_left, (next, at_right)) = placed in
      let half = length es / 2 in
      let (fe, low, high) = All-get (IsWithin rank fits top g n) (half - 1) e es at within in
      let r : rank (e.0) ≡ rank key = ap rank same in
      let front =
        front-IsPlaced level t.num_blocks n (rank key) g n1 rank fits top left right half e es n0 at
          r h0 wide placed in
      let back =
        back-IsPlaced level t.num_blocks n (rank key) g n1 rank fits top left right half e es n0 ln
          at r h0 h1 placed in
      (
        subst fits same fe,
        omega (arith, low, r),
        omega (arith, high, r),
        λ j j0 j1 oq.
            place_halves leaf_capacity inner_capacity rank fits top g level t balanced sorted n n0
              n1 wide q alone (rank key) j (leaf left t.num_blocks (take half es))
              (leaf n right (drop half es)) pages f f' front back j0 j1
              (λ m1 on. elim (Bool-cases (right == j)) [
                | inl z ↦
                    let here : right ≡ j = ground (arith, z) in
                    let end : g.low right ≡ g.high n = elim at_right [
                      | inl (zero_right, x) ↦ absurd (omega (arith, zero_right, here, j0))
                      | inr (r0, r1, r2) ↦ r2
                    ] in
                    place_right leaf_capacity inner_capacity rank fits top g level t balanced sorted
                      n n0 n1 wide q alone (rank key) j pages ln
                      (subst (λ (c : BlkIndex). IsRelinked c t.num_blocks t.pages pages) here
                        relinked)
                      j0 m1 on (next ∙ here) (ap g.low (sym here) ∙ end)
                | inr z ↦
                    let there : j ≢ right = λ w. absurd (ground (arith, z, w)) in
                    find_place leaf_capacity inner_capacity rank fits top g level t balanced sorted
                      n n0 n1 wide q alone (rank key) j pages j0 m1 oq on (λ _ w. there (w ∙ next))
                      (rest j m1 on there)
              ]),
      )

  pub cut-inner :
      (lref : BlkIndex) (es : List (K × BlkIndex)) (key : K) (pages : Map (Block K V))
      → IsBlock {V = V} leaf_capacity inner_capacity level t.num_blocks n (inner lref es)
      → IsPlaced {V = V} rank fits top g level t.num_blocks n (inner lref es)
      → IsCut n (inner lref es) t.num_blocks key t.pages pages
      → IsParted key pages
  cut-inner lref es key pages (e0, e1, left_child, children) slots (e, at, same, f, f', rest) =
      let half = length es / 2 in
      let N = t.num_blocks in
      let r : rank (e.0) ≡ rank key = ap rank same in
      let o : n ≢ N = λ z. absurd (omega (arith, z, n1)) in
      let (fe, front, back) =
        Slots-take-drop rank fits g half (g.low n) lref es (g.high n) e at slots in
      let is_range = λ (c : ℕ) (h : IsChild level N n c). (sorted.ranges c (h.0) (h.1)).0 in
      let other : (c : ℕ) → IsChild level N n c → IsOther n N c = λ c (c0, c1, c2).
        (λ z. absurd (omega (arith, ap level z, c2)), λ z. absurd (omega (arith, z, c1))) in
      let ec = All-get (λ x. IsChild level N n (x.1)) half e es at children in
      let fronts = All-take (λ x. IsChild level N n (x.1)) half es children in
      let backs = All-drop (λ x. IsChild level N n (x.1)) (suc half) es children in
      let (le_front, in_front, all_front) =
        Slots-IsInside rank fits g (g.low n) lref (take half es) (rank (e.0))
          (is_range lref left_child) (All-mono _ _ (take half es) (λ x. is_range (x.1)) fronts)
          front in
      let (le_back, in_back, all_back) =
        Slots-IsInside rank fits g (rank (e.0)) (e.1) (drop (suc half) es) (g.high n)
          (is_range (e.1) ec) (All-mono _ _ (drop (suc half) es) (λ x. is_range (x.1)) backs)
          back in
      let front' =
        Slots-frame rank fits n N (rank key) g (g.low n) lref (take half es) (rank (e.0))
          (other lref left_child) (All-mono _ _ (take half es) (λ x. other (x.1)) fronts) front in
      let back' =
        Slots-frame rank fits n N (rank key) g (rank (e.0)) (e.1) (drop (suc half) es) (g.high n)
          (other (e.1) ec) (All-mono _ _ (drop (suc half) es) (λ x. other (x.1)) backs) back in
      let g' = cut n N (rank key) g in
      let place_front =
        subst (λ (lo : ℕ). Slots rank fits g' lo lref (take half es) (g'.high n))
          (sym (low_old n N (rank key) g n o))
          (subst (λ (hi : ℕ). Slots rank fits g' (g.low n) lref (take half es) hi)
            (r ∙ sym (high_cut n N (rank key) g o)) front') in
      let place_back =
        subst (λ (lo : ℕ). Slots rank fits g' lo (e.1) (drop (suc half) es) (g'.high N))
          (r ∙ sym (low_new n N (rank key) g))
          (subst (λ (hi : ℕ). Slots rank fits g' (rank (e.0)) (e.1) (drop (suc half) es) hi)
            (sym (high_new n N (rank key) g)) back') in
      (
        subst fits same fe,
        omega (arith, le_front, r),
        omega (arith, le_back, r),
        λ j j0 j1 oq.
            place_halves leaf_capacity inner_capacity rank fits top g level t balanced sorted n n0
              n1 wide q alone (rank key) j (inner lref (take half es))
              (inner (e.1) (drop (suc half) es)) pages f f' place_front place_back j0 j1
              (λ m1 on.
                find_place leaf_capacity inner_capacity rank fits top g level t balanced sorted n n0
                  n1 wide q alone (rank key) j pages j0 m1 oq on
                  (λ z _. absurd (omega (arith, z, left_child))) (rest j m1 on)),
      )
