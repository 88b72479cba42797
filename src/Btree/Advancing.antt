-- ===== src/Btree/Advancing.antt =====
-- btree.hpp:262-287: a step of `insert` leaves a tree in order, and goes on at a block with the key in its range.
use d3b.Base.{
  ℕ, ◌≤◌, ◌<◌, ◌≡◌, ◌≢◌, inl, inr, refl, subst, sym, ◌∙◌, true, Bool-cases, List, Option, none,
  some, some_eq, ok, ok-injective, find, leb, ◌==◌, if◌then◌else◌, arith, ℤ,
}
use d3b.Btree.{BlkIndex, Block, inner, Btree}
use d3b.Btree.Search.{at_most, before}
use d3b.Btree.Insert.{child_at}
use d3b.Btree.Bounds.{upper, upper_le, child_at_lem}
use d3b.Btree.Balance.{IsChild, IsBlock, IsBalanced}
use d3b.Btree.Cuts.{Entered, at_root, at_child, cut_root, cut_child}
use d3b.Btree.Ranges.{Ranges, cut, low_new, high_new, low_old, high_cut}
use d3b.Btree.Sorted.{IsSorted}
use d3b.Btree.Joining.{entered_lem, joined-IsSorted}
use d3b.Btree.Rooting.{regrown_ranges, regrown-IsSorted}

-- The target is in the range of the block.
abbrev pub IsCovered : ℕ → Ranges → ℕ → Type 0
IsCovered target g n = (g.low n ≤ target) × (target < g.high n)

abbrev pub IsParentCovered : ℕ → Ranges → ℕ → Option BlkIndex → Type 0
IsParentCovered target g count none = Unit
IsParentCovered target g count (some p) = (0 < p) × (p < count) × IsCovered target g p

-- The child that a search enters is one of the block.
IsChild-child_at :
    {K : Type 0} {V : Type 0} (leaf_capacity inner_capacity : ℕ) (compare : K → ℤ) (level : ℕ → ℕ)
    (t : Btree K V) (p n lref : BlkIndex) (es : List (K × BlkIndex))
    → IsBalanced leaf_capacity inner_capacity level t
    → 0 < p
    → p < t.num_blocks
    → find p t.pages ≡ some (inner lref es)
    → child_at (before (upper compare es)) lref es ≡ ok n
    → IsChild level t.num_blocks p n
IsChild-child_at leaf_capacity inner_capacity compare level t p n lref es (r0, r1, d, blocks) p0 p1
      found at =
    let (b, f, is) = blocks p p0 p1 in
    let (e0, e1, left_child, children) =
      subst (λ (x : Block _ _). IsBlock leaf_capacity inner_capacity level t.num_blocks p x)
        (some_eq (sym f ∙ found)) is in
    let (c, at', child) =
      child_at_lem (λ x. IsChild level t.num_blocks p x) (upper compare es) lref es
        (upper_le compare es) left_child children in
    subst (λ (x : BlkIndex). IsChild level t.num_blocks p x) (ok-injective (sym at' ∙ at)) child

pub same_index : (n j : ℕ) → (n == j) ≡ true → n ≡ j
same_index n j z = ground (arith, z)

module _ {K : Type 0} (rank : K → ℕ) (fits : K → Type 0) (compare : K → ℤ) (key : K)
    (agrees : (k : K) → fits k → at_most (compare k) ≡ leb (rank k) (rank key)) where
  -- The half that the search finds again has the key in its range.
  covered_lem :
      (g : Ranges) (m count : ℕ) (k : K)
      → m < count
      → fits k
      → IsCovered (rank key) g m
      → IsCovered (rank key) (cut m count (rank k) g) (if at_most (compare k) then count else m)
  covered_lem g m count k m1 fk (l, u) =
      let o : m ≢ count = λ z. absurd (omega (arith, z, m1)) in
      elim (Bool-cases (leb (rank k) (rank key))) [
        | inl z ↦
            let low = low_new m count (rank k) g in
            let high = high_new m count (rank k) g in
            rw (agrees k fk, z) (ground (arith, low, z), omega (arith, high, u))
        | inr z ↦
            let low = low_old m count (rank k) g m o in
            let high = high_cut m count (rank k) g o in
            rw (agrees k fk, z) (omega (arith, low, l), ground (arith, high, z))
      ]

module _ {K : Type 0} {V : Type 0} (leaf_capacity inner_capacity : ℕ)
    (leaf_room : 3 ≤ leaf_capacity) (inner_room : 4 ≤ inner_capacity) (rank : K → ℕ)
    (fits : K → Type 0) (top : ℕ) (positive : (k : K) → fits k → (0 < rank k) × (rank k < top))
    (compare : K → ℤ) (key : K) (key_fits : fits key)
    (agrees : (k : K) → fits k → at_most (compare k) ≡ leb (rank k) (rank key)) where
  abbrev pub Keeps : (ℕ → ℕ) → Btree K V → ℕ → Type 0
  Keeps level t n = (g : Ranges) × IsSorted rank fits top g level t × IsCovered (rank key) g n

  Keeps-move :
      (level level' : ℕ → ℕ) (t t' : Btree K V) (n n' : ℕ)
      → level' ≡ level
      → t' ≡ t
      → n' ≡ n
      → Keeps level t n
      → Keeps level' t' n'
  Keeps-move level level' t t' n n' a b c h =
      subst (λ (l : ℕ → ℕ). Keeps l t' n') (sym a)
        (subst (λ (x : Btree K V). Keeps level x n') (sym b)
          (subst (λ (m : ℕ). Keeps level t m) (sym c) h))

  IsBalanced-move :
      (level level' : ℕ → ℕ) (t t' : Btree K V)
      → level' ≡ level
      → t' ≡ t
      → IsBalanced leaf_capacity inner_capacity level' t'
      → IsBalanced leaf_capacity inner_capacity level t
  IsBalanced-move level level' t t' a b h =
      subst (λ (l : ℕ → ℕ). IsBalanced leaf_capacity inner_capacity l t) a
        (subst (λ (x : Btree K V). IsBalanced leaf_capacity inner_capacity level' x) b h)

  pub Entered-Keeps :
      (g : Ranges) (level level' : ℕ → ℕ) (t t' : Btree K V) (parent : Option BlkIndex)
      (n : BlkIndex)
      → IsBalanced leaf_capacity inner_capacity level t
      → IsSorted rank fits top g level t
      → IsParentCovered (rank key) g t.num_blocks parent
      → IsBalanced leaf_capacity inner_capacity level' t'
      → 0 < n
      → n < t'.num_blocks
      → Entered compare level t parent level' t' n
      → Keeps level' t' n
  Entered-Keeps g level level' t t' parent n balanced sorted covered balanced' n0 n1
        (at_root e el et en) =
      Keeps-move level level' t t' t.root_block n el et en (
        g,
        sorted,
        (
          omega (arith, sorted.low_root),
          omega (arith, sorted.high_root, (positive key key_fits).1),
        ),
      )
  Entered-Keeps g level level' t t' parent n balanced sorted covered balanced' n0 n1
        (at_child p lref es e found at el et) =
      let (p0, p1, (l, u)) =
        subst (λ (o : Option BlkIndex). IsParentCovered (rank key) g t.num_blocks o) e covered in
      let (c0, c1, c2) =
        IsChild-child_at leaf_capacity inner_capacity compare level t p n lref es balanced p0 p1
          found at in
      let (same, inside, l', u') =
        entered_lem leaf_capacity inner_capacity rank fits top g level t balanced sorted n c0 c1
          compare (rank key) agrees p p0 p1 lref es found l u at in
      Keeps-move level level' t t' n n el et refl (g, sorted, (l', u'))
  Entered-Keeps g level level' t t' parent n balanced sorted covered balanced' n0 n1
        (cut_root b k pages e found is_cut el et en) =
      let balanced2 = IsBalanced-move _ level' _ t' el et balanced' in
      Keeps-move _ level' _ t' _ n el et en (
        regrown_ranges leaf_capacity inner_capacity rank fits top g level t balanced sorted k,
        regrown-IsSorted leaf_capacity inner_capacity rank fits top g level t balanced sorted b k
            pages (omega (arith, (positive key key_fits).1)) found is_cut balanced2,
        (ground arith, ground (arith, (positive key key_fits).1)),
      )
  Entered-Keeps g level level' t t' parent n balanced sorted covered balanced' n0 n1
        (cut_child p m lref es b k pages e found at fm is_cut el et en) =
      let (p0, p1, (l, u)) =
        subst (λ (o : Option BlkIndex). IsParentCovered (rank key) g t.num_blocks o) e covered in
      let (c0, c1, c2) =
        IsChild-child_at leaf_capacity inner_capacity compare level t p m lref es balanced p0 p1
          found at in
      let (same, inside, l', u') =
        entered_lem leaf_capacity inner_capacity rank fits top g level t balanced sorted m c0 c1
          compare (rank key) agrees p p0 p1 lref es found l u at in
      let balanced2 = IsBalanced-move _ level' _ t' el et balanced' in
      let (fk, sorted') =
        joined-IsSorted leaf_capacity inner_capacity rank fits top g level t balanced sorted m c0 c1
          compare (rank key) agrees p p0 p1 lref es found l u at b k pages fm is_cut balanced2 in
      Keeps-move _ level' _ t' _ n el et en (
        cut m t.num_blocks (rank k) g,
        sorted',
        covered_lem rank fits compare key agrees g m t.num_blocks k c1 fk (l', u'),
      )
