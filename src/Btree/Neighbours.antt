-- ===== src/Btree/Neighbours.antt =====
-- btree.hpp:612-664: what `findPrev` finds in the leaf it comes to, or at the end of the left neighbour.
use d3b.Base.{
  ℕ, zero, suc, ◌-◌, ◌≤◌, ◌<◌, ◌≡◌, ◌⊎◌, inl, inr, refl, ap, subst, ◌∙◌, true, List, [], ◌∷◌, none,
  some, some_eq, Result, ok, find, length, get_elem?, take, drop, All, All-mono, ltb, leb, arith, ℤ,
}
use d3b.Btree.{BlkIndex, Block, leaf, Btree, read_block}
use d3b.Btree.Search.{at_most, before}
use d3b.Btree.Find.{Ref, get_entry, find_prev_read_left, find_prev_in_leaf}
use d3b.Btree.Ordered.{IsOrdered, CutsAt, EndsAt-last, IsOrdered-around, All-get}
use d3b.Btree.Balance.{IsBalanced, leaf_of_level}
use d3b.Btree.Relinking.{get_some}
use d3b.Btree.Ranges.{Ranges}
use d3b.Btree.Contents.{IsStored, IsStored-find}
use d3b.Btree.Apart.{All-take-drop, beside, get_entry_lem}
use d3b.Btree.Sorted.{HasLeft, IsWithin, IsPlaced, IsSorted, InLeaves, IsPlaced-block}

All-take-get {ℓ κ} :
    {A : Type ℓ} (P : A → Type κ) (i : ℕ) (e : A) (es : List A)
    → get_elem? es i ≡ some e
    → All P (take (suc i) es)
    → P e
All-take-get P i e [] q h = absurd (cc)
All-take-get P zero e (x ∷ es) q h = subst P (some_eq q) h.0
All-take-get P (suc i) e (x ∷ es) q h = All-take-get P i e es q h.1

module _ {K : Type 0} {V : Type 0} (rank : K → ℕ) (fits : K → Type 0) (top target : ℕ) where
  -- An entry above the target, or at most the one with rank `r`.
  abbrev pub IsBeside : ℕ → K × V → Type 0
  IsBeside r x = (target < rank (x.0)) ⊎ (rank (x.0) ≤ r)

  abbrev pub IsAbove : K × V → Type 0
  IsAbove x = target < rank (x.0)

  -- The result of `findPrev`.
  abbrev pub IsPrev : Btree K V → Ref → Type 0
  IsPrev t none = InLeaves rank fits top IsAbove t
  IsPrev t (some (n, i)) =
      (e : K × V) × (get_entry (some (n, i)) t ≡ ok e)
      × IsStored t e
      × (rank (e.0) ≤ target)
      × InLeaves rank fits top (IsBeside (rank (e.0))) t

module _ {K : Type 0} {V : Type 0} (leaf_capacity inner_capacity : ℕ) (rank : K → ℕ)
    (fits : K → Type 0) (top : ℕ) (positive : (k : K) → fits k → (0 < rank k) × (rank k < top))
    (compare : K → ℤ) (target : ℕ)
    (agrees : (k : K) → fits k → at_most (compare k) ≡ leb (rank k) target) where
  module _ (g : Ranges) (level : ℕ → ℕ) (t : Btree K V)
      (balanced : IsBalanced leaf_capacity inner_capacity level t)
      (sorted : IsSorted rank fits top g level t) where
    abbrev pub FindsPrev : Result Ref → Type 0
    FindsPrev r = (ref : Ref) × (r ≡ ok ref) × IsPrev rank fits top target t ref

    -- The entry found is one of the leaf.
    pub in_leaf :
        (n left right i : BlkIndex) (es : List (K × V))
        → 0 < n
        → n < t.num_blocks
        → level n ≡ 0
        → find n t.pages ≡ some (leaf left right es)
        → All (IsWithin rank fits top g n) es
        → IsOrdered rank es
        → CutsAt rank target es (suc i)
        → suc i ≤ length es
        → target < g.high n
        → IsPrev rank fits top target t (some (n, i))
    in_leaf n left right i es n0 n1 ln f within ordered (c, d) l u =
        let (e, q) = get_some i es (omega (arith, l)) in
        let (a, b) = IsOrdered-around rank i e es q ordered in
        let (fe, low, high) = All-get (IsWithin rank fits top g n) i e es q within in
        let le : rank (e.0) ≤ target = All-take-get (λ x. rank (x.0) ≤ target) i e es q c in
        (
          e,
          get_entry_lem t n i left right es e f q,
          IsStored-find n left right i es e t n1 f q,
          le,
          beside leaf_capacity inner_capacity rank fits top g level t balanced sorted
              (IsBeside rank fits top target (rank (e.0))) n left right es n0 n1 ln f
              (λ x fx. λ s. elim s [
                | inl z ↦ inr (omega (arith, z, low))
                | inr z ↦ inl (omega (arith, z, u))
              ])
              (All-take-drop _ (suc i) es (All-mono _ _ (take (suc i) es) (λ x z. inr z) a)
                (All-mono _ _ (drop (suc i) es) (λ x z. inl z) d)),
        )

    read_left_lem :
        (n m left right : ℕ) (es : List (K × V))
        → find m t.pages ≡ some (leaf left right es)
        → 0 < length es
        → 0 < m
        → find_prev_in_leaf n (before 0) m t ≡ ok (some (m, length es - 1))
    unfolding find_prev_in_leaf find_prev_read_left read_block
    read_left_lem n zero left right es f l p = absurd (omega (arith, p))
    read_left_lem n (suc m) left right es f l p =
        let some_entry : ltb 0 (length es) ≡ true = ground (arith, l) in rw (f, some_entry) refl

    -- No entry of the leaf is at most the target: the last of its left neighbour is found.
    pub in_left :
        (n left right : BlkIndex) (es : List (K × V))
        → 0 < n
        → n < t.num_blocks
        → level n ≡ 0
        → find n t.pages ≡ some (leaf left right es)
        → All (IsWithin rank fits top g n) es
        → CutsAt rank target es 0
        → g.low n ≤ target
        → target < g.high n
        → HasLeft g level t.num_blocks n left
        → FindsPrev (find_prev_in_leaf n (before 0) left t)
    unfolding find_prev_in_leaf
    in_left n zero right es n0 n1 ln f within (c, d) l u (inl (e, low)) = (
      none,
      refl,
      beside leaf_capacity inner_capacity rank fits top g level t balanced sorted
          (IsAbove rank fits top target) n 0 right es n0 n1 ln f
          (λ x fx. λ s. elim s [
            | inl z ↦ absurd (omega (arith, z, low, (positive (x.0) fx).0))
            | inr z ↦ omega (arith, z, u)
          ])
          d,
    )
    in_left n zero right es n0 n1 ln f within (c, d) l u (inr (l0, l1, ll, hl, nl)) =
        absurd (omega (arith, l0))
    in_left n (suc m) right es n0 n1 ln f within (c, d) l u (inl (e, low)) =
        absurd (omega (arith, e))
    in_left n (suc m) right es n0 n1 ln f within (c, d) l u (inr (l0, l1, ll, hl, nl)) =
        let (b, q, is, placed) =
          IsPlaced-block rank fits top leaf_capacity inner_capacity g level t (suc m) balanced
            sorted l0 l1 in
        let (l', r', es', e, small, sibling) =
          leaf_of_level leaf_capacity inner_capacity level t.num_blocks (suc m) b ll is in
        let (ordered', within', ends', left', right') =
          subst (λ (x : Block K V). IsPlaced rank fits top g level t.num_blocks (suc m) x) e
            placed in
        let q' : find (suc m) t.pages ≡ some (leaf l' r' es') =
          q ∙ ap (λ (x : Block K V). some x) e in
        let (x, at, r, nonempty) = EndsAt-last rank (g.high (suc m)) es' (elim ends' [
          | inl z ↦ absurd (omega (arith, z, hl, l, u, (sorted.ranges n n0 n1).1))
          | inr z ↦ z
        ]) in
        (
          some (suc m, length es' - 1),
          read_left_lem n (suc m) l' r' es' q' nonempty l0,
          (
            x,
            get_entry_lem t (suc m) (length es' - 1) l' r' es' x q' at,
            IsStored-find (suc m) l' r' (length es' - 1) es' x t l1 q' at,
            omega (arith, r, hl, l),
            beside leaf_capacity inner_capacity rank fits top g level t balanced sorted
                (IsBeside rank fits top target (rank (x.0))) n (suc m) right es n0 n1 ln f
                (λ y fy. λ s. elim s [
                  | inl z ↦ inr (omega (arith, z, r, hl))
                  | inr z ↦ inl (omega (arith, z, u))
                ])
                (All-mono _ _ es (λ y z. inl z) d),
          ),
        )
