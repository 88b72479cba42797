-- ===== src/Btree/Next.antt =====
-- btree.hpp:708-769: `findNext`, on a tree in order: the first entry that is at least the desired one.
use d3b.Base.{
  ℕ, zero, suc, ◌+◌, ◌-◌, ◌≤◌, ◌<◌, ◌≡◌, ◌⊎◌, inl, inr, refl, subst, sym, List, none, some, Result,
  ok, find, length, get_elem?, take, drop, All, All-mono, leb, arith, ℤ,
}
use d3b.Btree.{BlkIndex, Block, leaf, inner, Btree, read_block}
use d3b.Btree.Search.{at_least, next_in}
use d3b.Btree.Find.{
  Ref, get_entry, find_next_in_leaf, find_next_on_read, find_next_descend, find_next,
}
use d3b.Btree.Ordered.{IsOrdered, EndsAt, EndsAt-last, All-get}
use d3b.Btree.Balance.{IsChild, IsBlock, IsBalanced}
use d3b.Btree.Ranges.{Ranges}
use d3b.Btree.Contents.{IsStored, IsStored-find}
use d3b.Btree.Sorted.{IsWithin, IsPlaced, IsSorted, InLeaves, IsPlaced-block}
use d3b.Btree.Apart.{All-take-drop, beside, get_entry_lem}
use d3b.Btree.Seeking.{
  entered, next_child-entered, entered-All, Slots-entered, next_from-FindsAt, IsOrdered-from,
}

module _ {K : Type 0} {V : Type 0} (rank : K → ℕ) (fits : K → Type 0) (top target : ℕ) where
  -- An entry below the target, or at least the one with rank `r`.
  abbrev pub IsElsewhere : ℕ → K × V → Type 0
  IsElsewhere r x = (rank (x.0) < target) ⊎ (r ≤ rank (x.0))

  abbrev pub IsBelow : K × V → Type 0
  IsBelow x = rank (x.0) < target

  -- The result of `findNext`.
  abbrev pub IsNext : Btree K V → Ref → Type 0
  IsNext t none = InLeaves rank fits top IsBelow t
  IsNext t (some (n, i)) =
      (e : K × V) × (get_entry (some (n, i)) t ≡ ok e)
      × IsStored t e
      × (target ≤ rank (e.0))
      × InLeaves rank fits top (IsElsewhere (rank (e.0))) t

module _ {K : Type 0} {V : Type 0} (leaf_capacity inner_capacity : ℕ) (rank : K → ℕ)
    (fits : K → Type 0) (top : ℕ) (positive : (k : K) → fits k → (0 < rank k) × (rank k < top))
    (compare : K → ℤ) (target : ℕ)
    (agrees : (k : K) → fits k → at_least (compare k) ≡ leb target (rank k)) where
  module _ (g : Ranges) (level : ℕ → ℕ) (t : Btree K V)
      (balanced : IsBalanced leaf_capacity inner_capacity level t)
      (sorted : IsSorted rank fits top g level t) where
    abbrev FindsNext : Result Ref → Type 0
    FindsNext r = (ref : Ref) × (r ≡ ok ref) × IsNext rank fits top target t ref

    -- A leaf without such an entry is the last one: each other leaf ends with an entry of its upper bound.
    in_last_leaf :
        (n left right : BlkIndex) (es : List (K × V))
        → 0 < n
        → n < t.num_blocks
        → level n ≡ 0
        → find n t.pages ≡ some (leaf left right es)
        → ((g.high n ≡ top) ⊎ EndsAt rank (g.high n) es)
        → g.low n < target
        → target ≤ g.high n
        → All (λ x. rank (x.0) < target) es
        → InLeaves rank fits top (IsBelow rank fits top target) t
    in_last_leaf n left right es n0 n1 ln f (inr ends) l u all =
        let (x, at, r, nonempty) = EndsAt-last rank (g.high n) es ends in
        let b : rank (x.0) < target =
          All-get (λ y. rank (y.0) < target) (length es - 1) x es at all in
        absurd (omega (arith, b, r, u))
    in_last_leaf n left right es n0 n1 ln f (inl last) l u all =
        beside leaf_capacity inner_capacity rank fits top g level t balanced sorted
          (IsBelow rank fits top target) n left right es n0 n1 ln f
          (λ x fx. λ s. elim s [
            | inl z ↦ omega (arith, z, l)
            | inr z ↦ absurd (omega (arith, z, last, (positive (x.0) fx).1))
          ])
          all

    in_leaf :
        (n left right i : BlkIndex) (es : List (K × V)) (e : K × V)
        → 0 < n
        → n < t.num_blocks
        → level n ≡ 0
        → find n t.pages ≡ some (leaf left right es)
        → All (IsWithin rank fits top g n) es
        → IsOrdered rank es
        → g.low n < target
        → get_elem? es i ≡ some e
        → target ≤ rank (e.0)
        → All (λ x. rank (x.0) < target) (take i es)
        → IsNext rank fits top target t (some (n, i))
    in_leaf n left right i es e n0 n1 ln f within ordered l q le all =
        let (fe, low, high) = All-get (IsWithin rank fits top g n) i e es q within in
        (
          e,
          get_entry_lem t n i left right es e f q,
          IsStored-find n left right i es e t n1 f q,
          le,
          beside leaf_capacity inner_capacity rank fits top g level t balanced sorted
              (IsElsewhere rank fits top target (rank (e.0))) n left right es n0 n1 ln f
              (λ x fx. λ s. elim s [
                | inl z ↦ inl (omega (arith, z, l))
                | inr z ↦ inr (omega (arith, z, high))
              ])
              (All-take-drop _ i es (All-mono _ _ (take i es) (λ x z. inl z) all)
                (All-mono _ _ (drop i es) (λ x z. inr z) (IsOrdered-from rank i e es q ordered))),
        )

    find_next_descend_lem :
        (fuel : ℕ) (n : BlkIndex) (b : Block K V)
        → find n t.pages ≡ some b
        → find_next_descend compare (suc fuel) t n
          ≡ find_next_on_read compare n b (find_next_descend compare fuel t)
    unfolding find_next_descend read_block
    find_next_descend_lem fuel n b f = rw f refl

    find_next_on_read-FindsNext :
        (n : BlkIndex) (b : Block K V) (descend : BlkIndex → Result Ref)
        → 0 < n
        → n < t.num_blocks
        → find n t.pages ≡ some b
        → IsBlock leaf_capacity inner_capacity level t.num_blocks n b
        → IsPlaced rank fits top g level t.num_blocks n b
        → g.low n < target
        → target ≤ g.high n
        → ((c : BlkIndex)
            → IsChild level t.num_blocks n c
            → g.low c < target
            → target ≤ g.high c
            → FindsNext (descend c))
        → FindsNext (find_next_on_read compare n b descend)
    unfolding find_next_on_read find_next_in_leaf next_in
    find_next_on_read-FindsNext n (leaf left right es) descend n0 n1 f (ln, small, sibling)
          (ordered, within, ends, at_left, at_right) l u ih =
        elim (next_from-FindsAt rank fits compare target agrees 0 es
          (All-mono _ _ es (λ x w. w.0) within)) [
            | inl (h, all) ↦ rw h (none, refl, in_last_leaf n left right es n0 n1 ln f ends l u all)
            | inr (i, e, h, q, le, all) ↦
                let z : 0 + i ≡ i = omega arith in
                rw (h, z)
                  (
                    some (n, i),
                    refl,
                    in_leaf n left right i es e n0 n1 ln f within ordered l q le all,
                  )
          ]
    find_next_on_read-FindsNext n (inner lref es) descend n0 n1 f (e0, e1, left_child, children)
          slots l u ih =
        let (l', u') =
          Slots-entered rank fits compare target agrees g (g.low n) lref es (g.high n) l u slots in
        rw (next_child-entered compare lref es e0) (
          ih (entered compare lref es)
            (entered-All compare (λ x. IsChild level t.num_blocks n x) lref es left_child children)
            l' u')

    find_next_descend-FindsNext :
        (fuel : ℕ) (n : BlkIndex)
        → 0 < n
        → n < t.num_blocks
        → level n < fuel
        → g.low n < target
        → target ≤ g.high n
        → FindsNext (find_next_descend compare fuel t n)
    find_next_descend-FindsNext zero n n0 n1 e l u = absurd (omega (arith, e))
    find_next_descend-FindsNext (suc fuel) n n0 n1 e l u =
        let (b, f, is, placed) =
          IsPlaced-block rank fits top leaf_capacity inner_capacity g level t n balanced sorted n0
            n1 in
        subst (λ (r : Result Ref). FindsNext r) (sym (find_next_descend_lem fuel n b f))
          (find_next_on_read-FindsNext n b (find_next_descend compare fuel t) n0 n1 f is placed l u
            (λ c (c0, c1, c2) l' u'.
              find_next_descend-FindsNext fuel c c0 c1 (omega (arith, e, c2)) l' u'))

  -- On a balanced tree in order, where the comparison agrees with the order of the keys, findNext
  -- returns. It gives nothing where every entry of the leaves is below the desired key. Else it gives
  -- the place of an entry of a leaf that is at least the desired key, and every other entry of the
  -- leaves is below the desired key or at least the one found.
  pub find_next-IsNext :
      (g : Ranges) (level : ℕ → ℕ) (t : Btree K V)
      → IsBalanced leaf_capacity inner_capacity level t
      → IsSorted rank fits top g level t
      → 0 < target
      → target ≤ top
      → (ref : Ref) × (find_next compare t ≡ ok ref) × IsNext rank fits top target t ref
  unfolding find_next
  find_next-IsNext g level t balanced sorted p l =
      let (r0, r1, d, blocks) = balanced in
      find_next_descend-FindsNext g level t balanced sorted t.depth t.root_block r0 r1
        (omega (arith, d)) (omega (arith, sorted.low_root, p)) (omega (arith, sorted.high_root, l))
