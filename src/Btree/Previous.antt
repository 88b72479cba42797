-- ===== src/Btree/Previous.antt =====
-- btree.hpp:578-664: `findPrev`, on a tree in order: the last entry that is at most the desired one.
use d3b.Base.{
  ℕ, zero, suc, ◌≤◌, ◌<◌, ◌≡◌, inl, inr, refl, subst, sym, ◌∙◌, some, Result, ok, ok-injective,
  find, All-mono, leb, arith, ℤ,
}
use d3b.Btree.{BlkIndex, Block, leaf, inner, Btree, read_block}
use d3b.Btree.Search.{at_most}
use d3b.Btree.Find.{Ref, find_prev_in_leaf, find_prev_on_read, find_prev_descend, find_prev}
use d3b.Btree.Bounds.{upper, upper_le, lower_bound-upper, Nat-cases, child_at_lem}
use d3b.Btree.Ordered.{CutsAt, upper-CutsAt}
use d3b.Btree.Balance.{IsChild, IsBlock, IsBalanced}
use d3b.Btree.Ranges.{Ranges, Slots-upper}
use d3b.Btree.Sorted.{IsPlaced, IsSorted, IsPlaced-block}
use d3b.Btree.Neighbours.{IsPrev, FindsPrev, in_leaf, in_left}

module _ {K : Type 0} {V : Type 0} (leaf_capacity inner_capacity : ℕ) (rank : K → ℕ)
    (fits : K → Type 0) (top : ℕ) (positive : (k : K) → fits k → (0 < rank k) × (rank k < top))
    (compare : K → ℤ) (target : ℕ)
    (agrees : (k : K) → fits k → at_most (compare k) ≡ leb (rank k) target) where
  module _ (g : Ranges) (level : ℕ → ℕ) (t : Btree K V)
      (balanced : IsBalanced leaf_capacity inner_capacity level t)
      (sorted : IsSorted rank fits top g level t) where
    find_prev_descend_lem :
        (fuel : ℕ) (n : BlkIndex) (b : Block K V)
        → find n t.pages ≡ some b
        → find_prev_descend compare (suc fuel) t n
          ≡ find_prev_on_read compare n b t (find_prev_descend compare fuel t)
    unfolding find_prev_descend read_block
    find_prev_descend_lem fuel n b f = rw f refl

    find_prev_on_read-FindsPrev :
        (n : BlkIndex) (b : Block K V) (descend : BlkIndex → Result Ref)
        → 0 < n
        → n < t.num_blocks
        → find n t.pages ≡ some b
        → IsBlock leaf_capacity inner_capacity level t.num_blocks n b
        → IsPlaced rank fits top g level t.num_blocks n b
        → g.low n ≤ target
        → target < g.high n
        → ((c : BlkIndex)
            → IsChild level t.num_blocks n c
            → g.low c ≤ target
            → target < g.high c
            → FindsPrev leaf_capacity inner_capacity rank fits top positive compare target agrees g
                level t balanced sorted
                (descend c))
        → FindsPrev leaf_capacity inner_capacity rank fits top positive compare target agrees g
            level t balanced sorted
            (find_prev_on_read compare n b t descend)
    unfolding find_prev_on_read find_prev_in_leaf
    find_prev_on_read-FindsPrev n (leaf left right es) descend n0 n1 f (ln, small, sibling)
          (ordered, within, ends, at_left, at_right) l u ih =
        let cuts =
          upper-CutsAt rank fits compare target agrees es (All-mono _ _ es (λ x w. w.0) within)
            ordered in
        let place = lower_bound-upper compare es in
        elim (Nat-cases (upper compare es)) [
          | inl z ↦
              let cuts' = subst (λ (i : ℕ). CutsAt rank target es i) z cuts in
              rw (place, z)
                (in_left leaf_capacity inner_capacity rank fits top positive compare target agrees g
                  level t balanced sorted n left right es n0 n1 ln f within cuts' l u at_left)
          | inr (k, z) ↦
              let cuts' = subst (λ (i : ℕ). CutsAt rank target es i) z cuts in
              rw (place, z)
                (
                  some (n, k),
                  refl,
                  in_leaf leaf_capacity inner_capacity rank fits top positive compare target agrees
                      g level t balanced sorted n left right k es n0 n1 ln f within ordered cuts'
                      (omega (arith, upper_le compare es, z)) u,
                )
        ]
    find_prev_on_read-FindsPrev n (inner lref es) descend n0 n1 f (e0, e1, left_child, children)
          slots l u ih =
        let range =
          λ (c : BlkIndex) (h : IsChild level t.num_blocks n c). (sorted.ranges c (h.0) (h.1)).0 in
        let (c, at, l', u') =
          Slots-upper rank fits compare target agrees g (g.low n) lref es (g.high n) l u
            (range lref left_child) (All-mono _ _ es (λ e. range (e.1)) children) slots in
        let (c', at', child) =
          child_at_lem (λ x. IsChild level t.num_blocks n x) (upper compare es) lref es
            (upper_le compare es) left_child children in
        let child' =
          subst (λ (x : BlkIndex). IsChild level t.num_blocks n x) (ok-injective (sym at' ∙ at))
            child in
        rw (lower_bound-upper compare es, at) (ih c child' l' u')

    find_prev_descend-FindsPrev :
        (fuel : ℕ) (n : BlkIndex)
        → 0 < n
        → n < t.num_blocks
        → level n < fuel
        → g.low n ≤ target
        → target < g.high n
        → FindsPrev leaf_capacity inner_capacity rank fits top positive compare target agrees g
            level t balanced sorted
            (find_prev_descend compare fuel t n)
    find_prev_descend-FindsPrev zero n n0 n1 e l u = absurd (omega (arith, e))
    find_prev_descend-FindsPrev (suc fuel) n n0 n1 e l u =
        let (b, f, is, placed) =
          IsPlaced-block rank fits top leaf_capacity inner_capacity g level t n balanced sorted n0
            n1 in
        subst
          (λ (r : Result Ref).
            FindsPrev leaf_capacity inner_capacity rank fits top positive compare target agrees g
              level t balanced sorted r)
          (sym (find_prev_descend_lem fuel n b f))
          (find_prev_on_read-FindsPrev n b (find_prev_descend compare fuel t) n0 n1 f is placed l u
            (λ c (c0, c1, c2) l' u'.
              find_prev_descend-FindsPrev fuel c c0 c1 (omega (arith, e, c2)) l' u'))

  -- On a balanced tree in order, where the comparison agrees with the order of the keys, findPrev
  -- returns. It gives nothing where every entry of the leaves is above the desired key. Else it gives
  -- the place of an entry of a leaf that is at most the desired key, and every other entry of the
  -- leaves is above the desired key or at most the one found.
  pub find_prev-IsPrev :
      (g : Ranges) (level : ℕ → ℕ) (t : Btree K V)
      → IsBalanced leaf_capacity inner_capacity level t
      → IsSorted rank fits top g level t
      → target < top
      → (ref : Ref) × (find_prev compare t ≡ ok ref) × IsPrev rank fits top target t ref
  unfolding find_prev
  find_prev-IsPrev g level t balanced sorted l =
      let (r0, r1, d, blocks) = balanced in
      find_prev_descend-FindsPrev g level t balanced sorted t.depth t.root_block r0 r1
        (omega (arith, d)) (omega (arith, sorted.low_root)) (omega (arith, sorted.high_root, l))
