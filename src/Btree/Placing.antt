-- ===== src/Btree/Placing.antt =====
-- btree.hpp:863-1011: the places of the blocks of a tree in which the block `n` is cut in two.
use d3b.Base.{
  ℕ, zero, suc, ◌≤◌, ◌<◌, ◌≡◌, ◌≢◌, inl, inr, ap, subst, sym, ◌∙◌, Bool-cases, List, some, some_eq,
  Map, find, All, All-mono, ◌==◌, arith,
}
use d3b.Btree.{BlkIndex, Block, leaf, inner, Btree}
use d3b.Btree.Bounds.{All-and}
use d3b.Btree.Balance.{IsChild, with_level, IsBlock, IsBalanced}
use d3b.Btree.Cuts.{IsRelinked}
use d3b.Btree.Ranges.{
  Ranges, cut, Slots, Slots-IsInside, IsRange, IsInside, IsOther, high_new, low_old,
}
use d3b.Btree.Sorted.{HasLeft, IsPlaced, HasPlace, IsSorted, IsPlaced-block}
use d3b.Btree.Parting.{HasLeft-cut, leaf-IsPlaced, inner-IsPlaced}

module _ {K : Type 0} {V : Type 0} (leaf_capacity inner_capacity : ℕ) (rank : K → ℕ)
    (fits : K → Type 0) (top : ℕ) (g : Ranges) (level : ℕ → ℕ) (t : Btree K V)
    (balanced : IsBalanced leaf_capacity inner_capacity level t)
    (sorted : IsSorted rank fits top g level t) (n : BlkIndex) (n0 : 0 < n) (n1 : n < t.num_blocks)
    (wide : g.low n < g.high n) (q : ℕ)
    (alone : (m : ℕ)
      → 0 < m
      → m < t.num_blocks
      → m ≢ q
      → suc (level n) ≡ level m
      → g.low m ≤ g.low n
      → g.high n ≤ g.high m
      → ⊥) where
  pub range : (m : ℕ) → 0 < m → m < t.num_blocks → IsRange g m
  range m m0 m1 = (sorted.ranges m m0 m1).0

  -- No other block has the block that is cut for a child.
  IsOther-children :
      (m lref : ℕ) (es : List (K × BlkIndex))
      → 0 < m
      → m < t.num_blocks
      → m ≢ q
      → IsBlock {V = V} leaf_capacity inner_capacity level t.num_blocks m (inner lref es)
      → Slots rank fits g (g.low m) lref es (g.high m)
      → IsOther n t.num_blocks lref × All (λ e. IsOther n t.num_blocks (e.1)) es
  IsOther-children m lref es m0 m1 o (e0, e1, left_child, children) slots =
      let wide_enough = λ (c : ℕ) (h : IsChild level t.num_blocks m c). range c (h.0) (h.1) in
      let (le, inside, all) =
        Slots-IsInside rank fits g (g.low m) lref es (g.high m) (wide_enough lref left_child)
          (All-mono _ _ es (λ e. wide_enough (e.1)) children) slots in
      let other : (c : ℕ)
          → IsChild level t.num_blocks m c
          → IsInside g (g.low m) (g.high m) c
          → IsOther n t.num_blocks c =
        λ c (c0, c1, c2) (i0, i1). (
          λ z.
              alone m m0 m1 o (ap (λ (k : ℕ). suc (level k)) (sym z) ∙ c2)
                (omega (arith, i0, ap g.low z)) (omega (arith, i1, ap g.high z)),
          λ z. absurd (omega (arith, z, c1)),
        ) in
      (
        other lref left_child inside,
        All-mono _ _ es (λ e (c, i). other (e.1) c i) (All-and _ _ es children all),
      )

  -- A block that the cut does not write.
  place_other :
      (sep m : ℕ) (b : Block K V)
      → 0 < m
      → m < t.num_blocks
      → m ≢ q
      → m ≢ n
      → (level n ≡ 0 → m ≢ g.next n)
      → IsBlock leaf_capacity inner_capacity level t.num_blocks m b
      → IsPlaced rank fits top g level t.num_blocks m b
      → IsPlaced rank fits top
          (cut n t.num_blocks sep g)
          (with_level t.num_blocks (level n) level)
          (suc t.num_blocks)
          m
          b
  place_other sep m (inner lref es) m0 m1 oq on or is slots =
      let (c, cs) = IsOther-children m lref es m0 m1 oq is slots in
      inner-IsPlaced level t.num_blocks n sep g n1 V rank fits top m lref es m1 on c cs slots
  place_other sep m (leaf left right es) m0 m1 oq on or is placed =
      let (ordered, within, ends, at_left, at_right) = placed in
      let not_left : left ≢ n = elim at_left [
        | inl (e, l) ↦ λ z. absurd (omega (arith, z, e, n0))
        | inr (l0, l1, l2, l3, l4) ↦ λ z. or (sym (ap level z) ∙ l2) (sym l4 ∙ ap g.next z)
      ] in
      leaf-IsPlaced level t.num_blocks n sep g n1 rank fits top m left left right es m1 on
        (HasLeft-cut level t.num_blocks n sep g n1 m left m1 not_left at_left) placed

  pub find_place :
      (sep m : ℕ) (pages : Map (Block K V))
      → 0 < m
      → m < t.num_blocks
      → m ≢ q
      → m ≢ n
      → (level n ≡ 0 → m ≢ g.next n)
      → find m pages ≡ find m t.pages
      → HasPlace rank fits top
          (cut n t.num_blocks sep g)
          (with_level t.num_blocks (level n) level)
          (suc t.num_blocks)
          m
          pages
  find_place sep m pages m0 m1 oq on or same =
      let (b, f, is, placed) =
        IsPlaced-block rank fits top leaf_capacity inner_capacity g level t m balanced sorted m0
          m1 in
      (b, same ∙ f, place_other sep m b m0 m1 oq on or is placed)

  -- The halves are in their places.
  pub place_halves :
      (sep m : ℕ) (front back : Block K V) (pages : Map (Block K V))
      → find n pages ≡ some front
      → find t.num_blocks pages ≡ some back
      → IsPlaced rank fits top
          (cut n t.num_blocks sep g)
          (with_level t.num_blocks (level n) level)
          (suc t.num_blocks)
          n
          front
      → IsPlaced rank fits top
          (cut n t.num_blocks sep g)
          (with_level t.num_blocks (level n) level)
          (suc t.num_blocks)
          t.num_blocks
          back
      → 0 < m
      → m < suc t.num_blocks
      → (m < t.num_blocks
          → m ≢ n
          → HasPlace rank fits top
              (cut n t.num_blocks sep g)
              (with_level t.num_blocks (level n) level)
              (suc t.num_blocks)
              m
              pages)
      → HasPlace rank fits top
          (cut n t.num_blocks sep g)
          (with_level t.num_blocks (level n) level)
          (suc t.num_blocks)
          m
          pages
  place_halves sep m front back pages f f' p p' m0 m1 others =
      let place = λ (j : ℕ).
        HasPlace rank fits top (cut n t.num_blocks sep g) (with_level t.num_blocks (level n) level)
          (suc t.num_blocks) j pages in
      elim (Bool-cases (n == m)) [
        | inl e ↦ let same : n ≡ m = ground (arith, e) in subst place same (front, f, p)
        | inr e ↦ elim (Bool-cases (t.num_blocks == m)) [
          | inl e' ↦
              let same : t.num_blocks ≡ m = ground (arith, e') in subst place same (back, f', p')
          | inr e' ↦ others (ground (arith, e', m1)) (λ z. absurd (ground (arith, z, e)))
        ]
      ]

  -- The right neighbour of a leaf that is cut: its left link leads to the new leaf.
  pub place_right :
      (sep m : ℕ) (pages : Map (Block K V))
      → level n ≡ 0
      → IsRelinked m t.num_blocks t.pages pages
      → 0 < m
      → m < t.num_blocks
      → m ≢ n
      → g.next n ≡ m
      → g.low m ≡ g.high n
      → HasPlace rank fits top
          (cut n t.num_blocks sep g)
          (with_level t.num_blocks (level n) level)
          (suc t.num_blocks)
          m
          pages
  place_right sep zero pages ln r m0 m1 on next low = absurd (omega (arith, m0))
  place_right sep (suc m) pages ln (l, r, es, f, f') m0 m1 on next low =
      let (b, p, is, placed) =
        IsPlaced-block rank fits top leaf_capacity inner_capacity g level t (suc m) balanced sorted
          m0 m1 in
      let placed' =
        subst (λ (x : Block K V). IsPlaced rank fits top g level t.num_blocks (suc m) x)
          (some_eq (sym p ∙ f)) placed in
      let at_left : HasLeft (cut n t.num_blocks sep g) (with_level t.num_blocks (level n) level)
          (suc t.num_blocks) (suc m) t.num_blocks =
        inr (
          omega (arith, m1),
          omega arith,
          ground (arith, ln),
          high_new n t.num_blocks sep g
              ∙ sym low
              ∙ sym (low_old n t.num_blocks sep g (suc m) (λ z. absurd (omega (arith, z, m1)))),
          ground (arith, next),
        ) in
      (
        leaf t.num_blocks r es,
        f',
        leaf-IsPlaced level t.num_blocks n sep g n1 rank fits top (suc m) l t.num_blocks r es m1 on
            at_left placed',
      )
