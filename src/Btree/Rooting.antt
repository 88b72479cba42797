-- ===== src/Btree/Rooting.antt =====
-- btree.hpp:848-861 and 262-287: the root is cut, and the new root keeps the tree in order.
use d3b.Base.{
  ℕ, suc, ◌+◌, ◌≤◌, ◌<◌, ◌≡◌, ◌≢◌, inl, inr, refl, subst, sym, ◌∙◌, true, false, Bool-cases, [],
  ◌∷◌, some, some_eq, Map, find, All-mono, ◌==◌, arith,
}
use d3b.Btree.{Block, leaf, inner, Btree}
use d3b.Btree.Balance.{IsChild, with_level, IsBlock, IsBalanced}
use d3b.Btree.Cuts.{IsCut, IsCut-zero}
use d3b.Btree.Ranges.{Ranges, cut}
use d3b.Btree.Sorted.{HasPlace, IsSorted}
use d3b.Btree.Halved.{parted-ranges, parted-apart, parted-below}
use d3b.Btree.Joining.{cut-any}
use d3b.Btree.Rooted.{rooted, HasChildren, IsPlaced-rooted}

module _ {K : Type 0} {V : Type 0} (leaf_capacity inner_capacity : ℕ) (rank : K → ℕ)
    (fits : K → Type 0) (top : ℕ) (g : Ranges) (level : ℕ → ℕ) (t : Btree K V)
    (balanced : IsBalanced leaf_capacity inner_capacity level t)
    (sorted : IsSorted rank fits top g level t) where
  abbrev pub regrown : K → Map (Block K V) → Btree K V
  regrown key pages = record t {
    root_block = suc t.num_blocks;
    num_blocks = suc (suc t.num_blocks);
    depth = t.depth + 1;
    pages = (suc t.num_blocks, inner t.root_block ((key, t.num_blocks) ∷ [])) ∷ pages;
  }

  abbrev pub regrown_level : ℕ → ℕ
  regrown_level =
      with_level (suc t.num_blocks) (suc (level t.root_block))
        (with_level t.num_blocks (level t.root_block) level)

  abbrev pub regrown_ranges : K → Ranges
  regrown_ranges key = rooted (suc t.num_blocks) top (cut t.root_block t.num_blocks (rank key) g)

  -- A block of the tree is below the new root, and so are its children.
  HasChildren-regrown :
      (j : ℕ) (b : Block K V)
      → j < suc t.num_blocks
      → with_level t.num_blocks (level t.root_block) level j ≤ level t.root_block
      → IsBlock leaf_capacity inner_capacity regrown_level (suc (suc t.num_blocks)) j b
      → HasChildren (suc t.num_blocks) b
  HasChildren-regrown j (leaf left right es) j1 below is = tt
  HasChildren-regrown j (inner lref es) j1 below (e0, e1, left_child, children) =
      let other : (c : ℕ)
          → IsChild regrown_level (suc (suc t.num_blocks)) j c
          → c < suc t.num_blocks =
        λ c (c0, c1, c2). ground (arith, c1, c2, below, j1) in
      (other lref left_child, All-mono _ _ es (λ e. other (e.1)) children)

  regrown_place :
      (key : K) (pages : Map (Block K V)) (j : ℕ)
      → 0 < j
      → j < suc t.num_blocks
      → with_level t.num_blocks (level t.root_block) level j ≤ level t.root_block
      → IsBalanced leaf_capacity inner_capacity regrown_level (regrown key pages)
      → HasPlace rank fits top
          (cut t.root_block t.num_blocks (rank key) g)
          (with_level t.num_blocks (level t.root_block) level)
          (suc t.num_blocks)
          j
          pages
      → HasPlace rank fits top
          (regrown_ranges key)
          regrown_level
          (suc (suc t.num_blocks))
          j
          (regrown key pages).pages
  unfolding find
  regrown_place key pages j j0 j1 below (s0, s1, sd, blocks) (b, f, placed) =
      let (c, f', is) = blocks j j0 (omega (arith, j1)) in
      let o : (suc t.num_blocks == j) ≡ false = ground (arith, j1) in
      let found : find j (regrown key pages).pages ≡ some b = rw o f in
      let is_b =
        subst
          (λ (x : Block K V).
            IsBlock leaf_capacity inner_capacity regrown_level (suc (suc t.num_blocks)) j x)
          (some_eq (sym f' ∙ found)) is in
      (
        b,
        found,
        IsPlaced-rooted rank fits top (cut t.root_block t.num_blocks (rank key) g)
            (with_level t.num_blocks (level t.root_block) level) (suc t.num_blocks)
            (suc (level t.root_block)) j b j1 (HasChildren-regrown j b j1 below is_b) placed,
      )

  regrown_root :
      (key : K) (pages : Map (Block K V))
      → t.root_block < t.num_blocks
      → fits key
      → HasPlace rank fits top
          (regrown_ranges key)
          regrown_level
          (suc (suc t.num_blocks))
          (suc t.num_blocks)
          (regrown key pages).pages
  unfolding find
  regrown_root key pages r1 fk =
      let same : (suc t.num_blocks == suc t.num_blocks) ≡ true = ground arith in
      let high_r = sorted.high_root in
      let low_r = sorted.low_root in
      let low : (regrown_ranges key).low (suc t.num_blocks) ≡ 0 = ground arith in
      let high : (regrown_ranges key).high (suc t.num_blocks) ≡ top = ground arith in
      let low_root : (regrown_ranges key).low t.root_block ≡ 0 = ground (arith, r1, low_r) in
      let high_root : (regrown_ranges key).high t.root_block ≡ rank key = ground (arith, r1) in
      let low_split : (regrown_ranges key).low t.num_blocks ≡ rank key = ground arith in
      let high_split : (regrown_ranges key).high t.num_blocks ≡ top = ground (arith, high_r) in
      (
        inner t.root_block ((key, t.num_blocks) ∷ []),
        rw same refl,
        (fk, low_root ∙ sym low, high_root, (low_split, high_split ∙ sym high)),
      )

  regrown_zero :
      (key : K) (pages : Map (Block K V)) → find 0 (regrown key pages).pages ≡ find 0 pages
  unfolding find
  regrown_zero key pages = let o : (suc t.num_blocks == 0) ≡ false = ground arith in rw o refl

  pub regrown-IsSorted :
      (b : Block K V) (key : K) (pages : Map (Block K V))
      → 0 < top
      → find t.root_block t.pages ≡ some b
      → IsCut t.root_block b t.num_blocks key t.pages pages
      → IsBalanced leaf_capacity inner_capacity regrown_level (regrown key pages)
      → IsSorted rank fits top (regrown_ranges key) regrown_level (regrown key pages)
  regrown-IsSorted b key pages wide f is_cut balanced' =
      let (r0, r1, d, blocks) = balanced in
      let N = t.num_blocks in
      let root = t.root_block in
      let alone : (m : ℕ)
          → 0 < m
          → m < N
          → m ≢ 0
          → suc (level root) ≡ level m
          → g.low m ≤ g.low root
          → g.high root ≤ g.high m
          → ⊥ =
        λ m m0 m1 o e lo hi. omega (arith, e, sorted.below m m0 m1) in
      let (fk, key_low, key_high, places) =
        cut-any leaf_capacity inner_capacity rank fits top g level t balanced sorted root r0 r1 0
          (omega (arith, wide, sorted.low_root, sorted.high_root)) alone b key pages f is_cut in
      let range =
        parted-ranges leaf_capacity inner_capacity rank fits top g level t balanced sorted root r0
          r1 (rank key) key_low key_high in
      let apart =
        parted-apart leaf_capacity inner_capacity rank fits top g level t balanced sorted root r0 r1
          (rank key) key_low key_high in
      let below =
        parted-below leaf_capacity inner_capacity rank fits top g level t balanced sorted root r0 r1
          (rank key) key_low key_high in
      record {
        places = λ j j0 j1. elim (Bool-cases (suc N == j)) [
          | inl e ↦
              let same : suc N ≡ j = ground (arith, e) in
              subst
                (λ (k : ℕ).
                  HasPlace rank fits top (regrown_ranges key) regrown_level (suc (suc N)) k
                    (regrown key pages).pages)
                same (regrown_root key pages r1 fk)
          | inr e ↦
              let j2 : j < suc N = ground (arith, e, j1) in
              regrown_place key pages j j0 j2 (below j j0 j2) balanced'
                (places j j0 j2 (λ z. absurd (omega (arith, z, j0))))
        ];
        ranges = λ j j0 j1. elim (Bool-cases (j == suc N)) [
          | inl e ↦ rw e (omega arith, omega arith)
          | inr e ↦ let x = range j j0 (ground (arith, e, j1)) in rw e x
        ];
        apart = λ j k j0 j1 k0 k1 same o. elim (Bool-cases (j == suc N)) [
          | inl ej ↦
              let here : j ≡ suc N = ground (arith, ej) in
              let other : k ≢ suc N = λ z. o (here ∙ sym z) in
              let x = below k k0 (ground (arith, other, k1)) in
              absurd (ground (arith, ej, other, same, x))
          | inr ej ↦ elim (Bool-cases (k == suc N)) [
            | inl ek ↦
                let x = below j j0 (ground (arith, ej, j1)) in
                absurd (ground (arith, ej, ek, same, x))
            | inr ek ↦
                let same' = (rw (ej, ek) at same) in
                let x = apart j k j0 (ground (arith, ej, j1)) k0 (ground (arith, ek, k1)) same' o in
                rw (ej, ek) x
          ]
        ];
        below = λ j j0 j1. elim (Bool-cases (j == suc N)) [
          | inl e ↦ ground (arith, e)
          | inr e ↦ let x = below j j0 (ground (arith, e, j1)) in ground (arith, e, x)
        ];
        no_block =
            regrown_zero key pages
            ∙ IsCut-zero root b N key t.pages pages r0 (omega (arith, r1)) is_cut
            ∙ sorted.no_block;
        low_root = ground arith;
        high_root = ground arith;
      }
