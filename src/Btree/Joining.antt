-- ===== src/Btree/Joining.antt =====
-- btree.hpp:848-861 and 262-287: the parent takes in the new block, and the tree is in order again.
use d3b.Base.{
  ℕ, suc, ◌≤◌, ◌<◌, ◌≡◌, ◌≢◌, inl, inr, refl, ap, subst, sym, ◌∙◌, true, Bool-cases, List,
  Option-cases, some, some_eq, ok, ok-injective, Map, find, assign, find-assign, All-mono, leb,
  ◌==◌, arith, ℤ,
}
use d3b.Btree.{BlkIndex, Block, leaf, inner, Btree, insert_at}
use d3b.Btree.Search.{at_most, before}
use d3b.Btree.Insert.{child_at}
use d3b.Btree.Bounds.{upper, upper_le, child_at_lem}
use d3b.Btree.Balance.{IsChild, with_level, IsBlock, HasBlock, IsBalanced}
use d3b.Btree.Cuts.{IsCut, IsCut-zero}
use d3b.Btree.Relinking.{find-assign_other}
use d3b.Btree.Ranges.{
  Ranges, cut, Slots, Slots-insert_at, Slots-child, Slots-upper, IsInside, low_old, high_old,
}
use d3b.Btree.Sorted.{IsPlaced, HasPlace, IsSorted, IsPlaced-block}
use d3b.Btree.Cutting.{IsParted, cut-leaf, cut-inner}
use d3b.Btree.Halved.{parted-ranges, parted-apart, parted-below}

-- What is found after a write is what was written.
assign_found {ℓ} :
    {V : Type ℓ} (k : ℕ) (b v : V) (m : Map V)
    → find k (assign k v m) ≡ some b
    → find k (assign k v m) ≡ some v
assign_found k b v m f =
    let same : (k == k) ≡ true = ground arith in
    let law = find-assign k k v m in
    elim (Option-cases (find k m)) [
      | inl z ↦ absurd (let law' = (rw (same, z) at law) in (cc))
      | inr (w, z) ↦ law ∙ rw (same, z) refl
    ]

module _ {K : Type 0} {V : Type 0} (leaf_capacity inner_capacity : ℕ) (rank : K → ℕ)
    (fits : K → Type 0) (top : ℕ) (g : Ranges) (level : ℕ → ℕ) (t : Btree K V)
    (balanced : IsBalanced leaf_capacity inner_capacity level t)
    (sorted : IsSorted rank fits top g level t) (n : BlkIndex) (n0 : 0 < n)
    (n1 : n < t.num_blocks) where
  module _ (q : ℕ) (wide : g.low n < g.high n)
      (alone : (m : ℕ)
        → 0 < m
        → m < t.num_blocks
        → m ≢ q
        → suc (level n) ≡ level m
        → g.low m ≤ g.low n
        → g.high n ≤ g.high m
        → ⊥) where
    by_kind :
        (b : Block K V) (key : K) (pages : Map (Block K V))
        → IsBlock leaf_capacity inner_capacity level t.num_blocks n b
        → IsPlaced rank fits top g level t.num_blocks n b
        → IsCut n b t.num_blocks key t.pages pages
        → IsParted leaf_capacity inner_capacity rank fits top g level t balanced sorted n n0 n1 wide
            q alone key pages
    by_kind (leaf left right es) key pages is placed is_cut =
        cut-leaf leaf_capacity inner_capacity rank fits top g level t balanced sorted n n0 n1 wide q
          alone left right es key pages is placed is_cut
    by_kind (inner lref es) key pages is placed is_cut =
        cut-inner leaf_capacity inner_capacity rank fits top g level t balanced sorted n n0 n1 wide
          q alone lref es key pages is placed is_cut

    pub cut-any :
        (b : Block K V) (key : K) (pages : Map (Block K V))
        → find n t.pages ≡ some b
        → IsCut n b t.num_blocks key t.pages pages
        → IsParted leaf_capacity inner_capacity rank fits top g level t balanced sorted n n0 n1 wide
            q alone key pages
    cut-any b key pages f is_cut =
        let (b', f', is, placed) =
          IsPlaced-block rank fits top leaf_capacity inner_capacity g level t n balanced sorted n0
            n1 in
        let same : b' ≡ b = some_eq (sym f' ∙ f) in
        by_kind b key pages
          (subst (λ (x : Block K V). IsBlock leaf_capacity inner_capacity level t.num_blocks n x)
            same is)
          (subst (λ (x : Block K V). IsPlaced rank fits top g level t.num_blocks n x) same placed)
          is_cut

  -- The step below the parent `p`, whose child `n` is cut.
  module _ (compare : K → ℤ) (target : ℕ)
      (agrees : (k : K) → fits k → at_most (compare k) ≡ leb (rank k) target) (p : BlkIndex)
      (p0 : 0 < p) (p1 : p < t.num_blocks) (lref : BlkIndex) (es : List (K × BlkIndex))
      (found : find p t.pages ≡ some (inner lref es)) (low : g.low p ≤ target)
      (high : target < g.high p) (at : child_at (before (upper compare es)) lref es ≡ ok n) where
    parent_lem :
        IsBlock {V = V} leaf_capacity inner_capacity level t.num_blocks p (inner lref es)
        × Slots rank fits g (g.low p) lref es (g.high p)
    parent_lem =
        let (b, f, is, placed) =
          IsPlaced-block rank fits top leaf_capacity inner_capacity g level t p balanced sorted p0
            p1 in
        let same : b ≡ inner lref es = some_eq (sym f ∙ found) in
        (
          subst (λ (x : Block K V). IsBlock leaf_capacity inner_capacity level t.num_blocks p x)
              same is,
          subst (λ (x : Block K V). IsPlaced rank fits top g level t.num_blocks p x) same placed,
        )

    -- The child that is entered is one of the parent, and has the target in its range.
    pub entered_lem :
        (suc (level n) ≡ level p)
        × IsInside g (g.low p) (g.high p) n
        × (g.low n ≤ target)
        × (target < g.high n)
    entered_lem =
        let ((e0, e1, left_child, children), slots) = parent_lem in
        let is_range =
          λ (c : ℕ) (h : IsChild level t.num_blocks p c). (sorted.ranges c (h.0) (h.1)).0 in
        let r = is_range lref left_child in
        let rs = All-mono _ _ es (λ e. is_range (e.1)) children in
        let (c, at', l, u) =
          Slots-upper rank fits compare target agrees g (g.low p) lref es (g.high p) low high r rs
            slots in
        let same : c ≡ n = ok-injective (sym at' ∙ at) in
        let (c', at2, child) =
          child_at_lem (λ x. IsChild level t.num_blocks p x) (upper compare es) lref es
            (upper_le compare es) left_child children in
        let same' : c' ≡ n = ok-injective (sym at2 ∙ at) in
        let child_n = subst (λ (x : BlkIndex). IsChild level t.num_blocks p x) same' child in
        (
          child_n.2,
          Slots-child rank fits g (g.low p) lref es (g.high p) (upper compare es) n at r rs slots,
          omega (arith, l, ap g.low same),
          omega (arith, u, ap g.high same),
        )

    -- The tree after the step.
    abbrev pub joined : K → Map (Block K V) → Btree K V
    joined key pages = record t {
      num_blocks = suc t.num_blocks;
      pages = assign p (inner lref (insert_at (upper compare es) (key, t.num_blocks) es)) pages;
    }

    joined_parent :
        (key : K) (pages : Map (Block K V))
        → ((j : ℕ)
            → 0 < j
            → j < suc t.num_blocks
            → HasBlock leaf_capacity inner_capacity
                (with_level t.num_blocks (level n) level)
                (suc t.num_blocks)
                j
                (joined key pages).pages)
        → find p (joined key pages).pages
          ≡ some (inner lref (insert_at (upper compare es) (key, t.num_blocks) es))
    joined_parent key pages blocks =
        let (b, f, is) = blocks p p0 (omega (arith, p1)) in
        assign_found p b (inner lref (insert_at (upper compare es) (key, t.num_blocks) es)) pages f

    pub joined-IsSorted :
        (b : Block K V) (key : K) (pages : Map (Block K V))
        → find n t.pages ≡ some b
        → IsCut n b t.num_blocks key t.pages pages
        → IsBalanced leaf_capacity inner_capacity
            (with_level t.num_blocks (level n) level)
            (joined key pages)
        → fits key
          × IsSorted rank fits top
              (cut n t.num_blocks (rank key) g)
              (with_level t.num_blocks (level n) level)
              (joined key pages)
    joined-IsSorted b key pages fn is_cut (s0, s1, sd, blocks) =
        let N = t.num_blocks in
        let (r0, r1, d, old_blocks) = balanced in
        let (child_level, (i0, i1), l, u) = entered_lem in
        let alone : (m : ℕ)
            → 0 < m
            → m < N
            → m ≢ p
            → suc (level n) ≡ level m
            → g.low m ≤ g.low n
            → g.high n ≤ g.high m
            → ⊥ =
          λ m m0 m1 o e lo hi.
            elim (sorted.apart p m p0 p1 m0 m1 (sym child_level ∙ e) (λ z. o (sym z))) [
              | inl x ↦ omega (arith, x, i1, lo, l, u)
              | inr x ↦ omega (arith, x, i0, hi, l, u)
            ] in
        let (fk, key_low, key_high, places) =
          cut-any p (omega (arith, l, u)) alone b key pages fn is_cut in
        let ((e0, e1, left_child, children), slots) = parent_lem in
        let is_range = λ (c : ℕ) (h : IsChild level N p c). (sorted.ranges c (h.0) (h.1)).0 in
        let not_new : (c : ℕ) → IsChild level N p c → c ≢ N = λ c h z. omega (arith, z, h.1) in
        let g' = cut n N (rank key) g in
        let o : n ≢ N = λ z. absurd (omega (arith, z, n1)) in
        let op : p ≢ N = λ z. absurd (omega (arith, z, p1)) in
        let opn : p ≢ n = λ z. absurd (omega (arith, ap level z, child_level)) in
        let es' = insert_at (upper compare es) (key, N) es in
        let slots' =
          Slots-insert_at rank fits n N key g (upper compare es) (g.low p) lref es (g.high p) fk
            (omega (arith, l, u)) at o (is_range lref left_child) (not_new lref left_child)
            (All-mono _ _ es (λ e. is_range (e.1)) children)
            (All-mono _ _ es (λ e. not_new (e.1)) children) slots in
        let slots2 =
          subst (λ (lo : ℕ). Slots rank fits g' lo lref es' (g'.high p))
            (sym (low_old n N (rank key) g p op))
            (subst (λ (hi : ℕ). Slots rank fits g' (g.low p) lref es' hi)
              (sym (high_old n N (rank key) g p opn op)) slots') in
        let root_level : with_level N (level n) level t.root_block ≡ level t.root_block =
          ground (arith, r1) in
        let root_old : t.root_block ≢ N = λ z. absurd (omega (arith, z, r1)) in
        let root_other : t.root_block ≢ n =
          λ z. absurd (omega (arith, ap level z, child_level, sorted.below p p0 p1)) in
        let at_parent = joined_parent key pages blocks in
        (
          fk,
          record {
            places = λ j j0 j1. elim (Bool-cases (p == j)) [
              | inl z ↦
                  let same : p ≡ j = ground (arith, z) in
                  subst
                    (λ (k : ℕ).
                      HasPlace rank fits top g' (with_level N (level n) level) (suc N) k
                        (joined key pages).pages)
                    same (inner lref es', at_parent, slots2)
              | inr z ↦
                  let other : j ≢ p = λ w. absurd (ground (arith, z, w)) in
                  let (c, f, placed) = places j j0 j1 other in
                  (c, find-assign_other j p (inner lref es') pages other ∙ f, placed)
            ];
            ranges =
                parted-ranges leaf_capacity inner_capacity rank fits top g level t balanced sorted n
                  n0 n1 (rank key) key_low key_high;
            apart =
                parted-apart leaf_capacity inner_capacity rank fits top g level t balanced sorted n
                  n0 n1 (rank key) key_low key_high;
            below = λ j j0 j1.
                let x =
                  parted-below leaf_capacity inner_capacity rank fits top g level t balanced sorted
                    n n0 n1 (rank key) key_low key_high j j0 j1 in
                omega (arith, x, root_level);
            no_block =
                find-assign_other 0 p (inner lref es') pages (λ z. absurd (omega (arith, z, p0)))
                ∙ IsCut-zero n b N key t.pages pages n0 (omega (arith, n1)) is_cut
                ∙ sorted.no_block;
            low_root = low_old n N (rank key) g t.root_block root_old ∙ sorted.low_root;
            high_root =
                high_old n N (rank key) g t.root_block root_other root_old ∙ sorted.high_root;
          },
        )
