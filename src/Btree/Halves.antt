-- ===== src/Btree/Halves.antt =====
-- btree.hpp:863-977: a full block, cut in two.
use d3b.Base.{
  ℕ, suc, ◌-◌, ◌/◌, ◌<◌, ◌≤◌, ◌≡◌, ◌≢◌, ◌⊎◌, inl, inr, refl, subst, ap, ◌∙◌, sym, true, false,
  Bool-cases, List, ◌∷◌, Option, some, zero, ok, Map, find, assign, find-assign, length,
  length-drop, get_elem?, take, drop, All-mono, ltb, leb, ◌==◌, arith, ℤ,
}
use d3b.Btree.{BlkIndex, Block, leaf, inner, Btree, write_block, initialize_block, alloc_block}
use d3b.Btree.Split.{relink, block_is_full, fix_parent, split_leaf, split_inner, split}
use d3b.Btree.Bounds.{All-take, All-drop, get_elem?-All}
use d3b.Btree.Contents.{total-halves, tally-take-drop}
use d3b.Btree.Balance.{
  IsChild, IsSibling, with_level, IsBlock, AreBlocks, IsBlock-grow, AreBlocks-initialize,
  AreBlocks-grow,
}
use d3b.Btree.Cuts.{IsRelinked}
use d3b.Btree.Relinking.{length-take_lem, find-assign_other, get_some, relink_lem, Splits}

module _ {K : Type 0} {V : Type 0} (leaf_capacity inner_capacity : ℕ) where
  module _ (level : ℕ → ℕ) (t : Btree K V) (n : BlkIndex)
      (areblocks : AreBlocks leaf_capacity inner_capacity level t.num_blocks t.pages)
      (n_pos : 0 < n) (n_lt : n < t.num_blocks) (leaf_room : 3 ≤ leaf_capacity)
      (inner_room : 4 ≤ inner_capacity) where
    -- The pages after both halves are written.
    abbrev halves : Block K V → Block K V → Map (Block K V)
    halves front back = (t.num_blocks, back) ∷ assign n front t.pages

    halves-AreBlocks :
        (front back : Block K V)
        → IsBlock leaf_capacity inner_capacity
            (with_level t.num_blocks (level n) level)
            (suc t.num_blocks)
            n
            front
        → IsBlock leaf_capacity inner_capacity
            (with_level t.num_blocks (level n) level)
            (suc t.num_blocks)
            t.num_blocks
            back
        → AreBlocks leaf_capacity inner_capacity
            (with_level t.num_blocks (level n) level)
            (suc t.num_blocks)
            (halves front back)
    halves-AreBlocks front back h k =
        AreBlocks-initialize leaf_capacity inner_capacity level t.num_blocks (level n) back
          (assign n front t.pages)
          (λ j j0 j1.
            let (b, f, is) =
              AreBlocks-grow leaf_capacity inner_capacity level t.num_blocks (level n) t.pages
                areblocks j j0 j1 in
            elim (Bool-cases (n == j)) [
              | inl same ↦
                  let e : n ≡ j = ground (arith, same) in
                  (
                    front,
                    find-assign j n front t.pages ∙ rw (same, f) refl,
                    subst
                        (λ (i : ℕ).
                          IsBlock leaf_capacity inner_capacity
                            (with_level t.num_blocks (level n) level) (suc t.num_blocks) i front)
                        e h,
                  )
              | inr other ↦ (b, find-assign j n front t.pages ∙ rw other f, is)
            ])
          k

    find_front :
        (front back b : Block K V)
        → find n t.pages ≡ some b
        → find n (halves front back) ≡ some front
    unfolding find
    find_front front back b f =
        let o : (t.num_blocks == n) ≡ false = ground (arith, n_lt) in
        let s : (n == n) ≡ true = ground arith in
        rw o (find-assign n n front t.pages ∙ rw (s, f) refl)

    find_back : (front back : Block K V) → find t.num_blocks (halves front back) ≡ some back
    unfolding find
    find_back front back = let s : (t.num_blocks == t.num_blocks) ≡ true = ground arith in rw s refl

    find_other :
        (front back : Block K V) (j : ℕ)
        → j < t.num_blocks
        → j ≢ n
        → find j (halves front back) ≡ find j t.pages
    unfolding find
    find_other front back j l o =
        let s : (t.num_blocks == j) ≡ false = ground (arith, l) in
        rw s (find-assign_other j n front t.pages o)

    split_leaf_lem :
        (left right : BlkIndex) (es : List (K × V)) (parent : Option BlkIndex) (index : ℤ)
        (e : K × V) (t' : Btree K V)
        → suc (length es) ≡ leaf_capacity
        → get_elem? es (length es / 2 - 1) ≡ some e
        → relink right t.num_blocks (record t {
          num_blocks = suc t.num_blocks;
          pages =
              halves
                (leaf left t.num_blocks (take (length es / 2) es))
                (leaf n right (drop (length es / 2) es));
        })
          ≡ ok t'
        → split leaf_capacity inner_capacity n (leaf left right es) parent index t
          ≡ fix_parent leaf_capacity inner_capacity parent index n (e.0) t.num_blocks t'
    unfolding split split_leaf alloc_block initialize_block write_block
    split_leaf_lem left right es parent index e t' c g r =
        let full : leb (leaf_capacity - 1) (length es) ≡ true = ground (arith, c) in
        let l0 : ltb 0 (length es / 2) ≡ true = ground (arith, c) in
        let l1 : ltb 0 (length es - length es / 2) ≡ true = ground (arith, c) in
        let l2 : ltb (length es / 2) (leaf_capacity - 1) ≡ true = ground (arith, c) in
        let l3 : ltb (length es - length es / 2) (leaf_capacity - 1) ≡ true = ground (arith, c) in
        rw (full, l0, l1, l2, l3, g, r) refl

    IsChild-back :
        (c : ℕ)
        → IsChild level t.num_blocks n c
        → IsChild (with_level t.num_blocks (level n) level) (suc t.num_blocks) t.num_blocks c
    IsChild-back c (c0, c1, c2) = (c0, omega (arith, c1), ground (arith, c1, c2))

    -- The right neighbour of the block that is cut: it becomes that of the new block.
    IsSibling-back :
        (c : ℕ)
        → IsSibling level t.num_blocks n c
        → IsSibling (with_level t.num_blocks (level n) level) (suc t.num_blocks) t.num_blocks c
    IsSibling-back c (inl e) = inl e
    IsSibling-back c (inr (c0, c1, c2, c3)) =
        inr (c0, omega (arith, c1), ground (arith, c1, c2), λ e. absurd (omega (arith, c1, e)))

    IsSibling-leaf :
        (c : ℕ)
        → IsSibling level t.num_blocks n c
        → (c ≡ 0) ⊎ ((c < suc t.num_blocks) × (with_level t.num_blocks (level n) level c ≡ 0))
    IsSibling-leaf c (inl e) = inl e
    IsSibling-leaf c (inr (c0, c1, c2, c3)) = inr (omega (arith, c1), ground (arith, c1, c2))

    IsSibling-self : (c : ℕ) → IsSibling level t.num_blocks n c → n ≢ c
    IsSibling-self c (inl e) = λ q. absurd (omega (arith, q, e, n_pos))
    IsSibling-self c (inr (c0, c1, c2, c3)) = λ q. c3 (sym q)

    IsSibling-new : (c : ℕ) → IsSibling level t.num_blocks n c → t.num_blocks ≢ c
    IsSibling-new c (inl e) = λ q. absurd (omega (arith, q, e, n_lt))
    IsSibling-new c (inr (c0, c1, c2, c3)) = λ q. absurd (omega (arith, q, c1))

    IsRelinked-halves :
        (front back : Block K V) (c : ℕ) (pages : Map (Block K V))
        → IsSibling level t.num_blocks n c
        → IsRelinked c t.num_blocks (halves front back) pages
        → IsRelinked c t.num_blocks t.pages pages
    IsRelinked-halves front back zero pages s h =
        h ∙ find_other front back 0 (omega (arith, n_lt)) (λ z. absurd (omega (arith, z, n_pos)))
    IsRelinked-halves front back (suc m) pages (inl e) h = absurd (omega (arith, e))
    IsRelinked-halves front back (suc m) pages (inr (c0, c1, c2, c3)) (l, r, es, f, f') =
        (l, r, es, sym (find_other front back (suc m) c1 c3) ∙ f, f')

    IsSibling-above :
        (c j k : ℕ) → IsSibling level t.num_blocks n c → 0 < j → level j ≡ suc k → j ≢ c
    IsSibling-above c j k (inl e) j0 l = λ q. absurd (omega (arith, q, e, j0))
    IsSibling-above c j k (inr (c0, c1, c2, c3)) j0 l =
        λ q. absurd (omega (arith, l, c2, ap level q))

    pub split-leaf :
        (left right : BlkIndex) (es : List (K × V)) (parent : Option BlkIndex) (index : ℤ)
        → find n t.pages ≡ some (leaf left right es)
        → IsBlock leaf_capacity inner_capacity level t.num_blocks n (leaf left right es)
        → suc (length es) ≡ leaf_capacity
        → Splits leaf_capacity inner_capacity level n (leaf left right es) t parent index
    unfolding block_is_full
    split-leaf left right es parent index f (l0, small, sibling) c =
        let half = length es / 2 in
        let front : Block K V = leaf left t.num_blocks (take half es) in
        let back : Block K V = leaf n right (drop half es) in
        let level' = with_level t.num_blocks (level n) level in
        let (e, g) = get_some (half - 1) es (omega (arith, c)) in
        let lt = length-take_lem half es (omega arith) in
        let ld = length-drop half es in
        let same : level' n ≡ level n = ground (arith, n_lt) in
        let new : level' t.num_blocks ≡ level n = ground arith in
        let blocks =
          halves-AreBlocks front back
            (
              same ∙ l0,
              omega (arith, lt, c),
              inr (
                omega (arith, n_pos, n_lt),
                omega arith,
                new ∙ l0,
                λ q. absurd (omega (arith, q, n_lt)),
              ),
            )
            (new ∙ l0, omega (arith, ld, c), IsSibling-back right sibling) in
        let (pages, r, blocks', others, keeps, relinked) =
          relink_lem leaf_capacity inner_capacity level' t.num_blocks right
            (record t { num_blocks = suc t.num_blocks; pages = halves front back }) blocks
            (IsSibling-leaf right sibling) in
        (
          pages,
          e.0,
          split_leaf_lem left right es parent index e _ c g r,
          (
            blocks',
            (
              front,
              others n (IsSibling-self right sibling) ∙ find_front front back _ f,
              ground (arith, lt, c),
            ),
            (
              back,
              others t.num_blocks (IsSibling-new right sibling) ∙ find_back front back,
              ground (arith, ld, c),
            ),
            λ j j0 j1 j2.
                others j (IsSibling-above right j (level n) sibling j0 j2)
                ∙ find_other front back j j1 (λ q. absurd (omega (arith, j2, ap level q))),
            λ p.
                keeps p
                ∙ total-halves p t.num_blocks n (leaf left right es) front back t.pages n_lt f
                    (tally-take-drop p half es),
          ),
          (
            e,
            g,
            refl,
            omega (arith, c),
            omega (arith, c),
            others n (IsSibling-self right sibling) ∙ find_front front back _ f,
            others t.num_blocks (IsSibling-new right sibling) ∙ find_back front back,
            IsRelinked-halves front back right pages sibling relinked,
            λ j j1 o o'. others j o' ∙ find_other front back j j1 o,
          ),
        )

    split_inner_lem :
        (lref : BlkIndex) (es : List (K × BlkIndex)) (parent : Option BlkIndex) (index : ℤ)
        (e : K × BlkIndex)
        → suc (length es) ≡ inner_capacity
        → get_elem? es (length es / 2) ≡ some e
        → split leaf_capacity inner_capacity n (inner lref es) parent index t
          ≡ fix_parent leaf_capacity inner_capacity parent index n (e.0) t.num_blocks (record t {
            num_blocks = suc t.num_blocks;
            pages =
                halves
                  (inner lref (take (length es / 2) es))
                  (inner (e.1) (drop (suc (length es / 2)) es));
          })
    unfolding split split_inner alloc_block initialize_block write_block
    split_inner_lem lref es parent index e c g =
        let full : leb (inner_capacity - 1) (length es) ≡ true = ground (arith, c) in
        let l0 : ltb 0 (length es / 2) ≡ true = ground (arith, c) in
        let l1 : ltb 0 (length es - length es / 2 - 1) ≡ true = ground (arith, c) in
        let l2 : ltb (length es / 2) (inner_capacity - 2) ≡ true = ground (arith, c) in
        let l3 : ltb (length es - length es / 2 - 1) (inner_capacity - 1) ≡ true =
          ground (arith, c) in
        rw (full, l0, l1, l2, l3, g) refl

    pub split-inner :
        (lref : BlkIndex) (es : List (K × BlkIndex)) (parent : Option BlkIndex) (index : ℤ)
        → find n t.pages ≡ some (inner lref es)
        → IsBlock {V = V} leaf_capacity inner_capacity level t.num_blocks n (inner lref es)
        → suc (length es) ≡ inner_capacity
        → Splits leaf_capacity inner_capacity level n (inner lref es) t parent index
    unfolding block_is_full
    split-inner lref es parent index f (some_es, small, left_child, children) c =
        let half = length es / 2 in
        let (e, g, e_child) =
          get_elem?-All (λ x. IsChild level t.num_blocks n (x.1)) half es (omega (arith, c))
            children in
        let front : Block K V = inner lref (take half es) in
        let back : Block K V = inner (e.1) (drop (suc half) es) in
        let level' = with_level t.num_blocks (level n) level in
        let lt = length-take_lem half es (omega arith) in
        let ld = length-drop (suc half) es in
        let (f0, f1, f2, f3) =
          IsBlock-grow leaf_capacity inner_capacity level t.num_blocks (level n) n front n_lt
            (omega (arith, lt, c), omega (arith, lt, c), left_child, All-take _ half es children) in
        let blocks =
          halves-AreBlocks front back (f0, f1, f2, f3)
            (
              omega (arith, ld, c),
              omega (arith, ld, c),
              IsChild-back (e.1) e_child,
              All-mono _ _ (drop (suc half) es) (λ x. IsChild-back (x.1))
                  (All-drop _ (suc half) es children),
            ) in
        (
          halves front back,
          e.0,
          split_inner_lem lref es parent index e c g,
          (
            blocks,
            (front, find_front front back _ f, ground (arith, lt, c)),
            (back, find_back front back, ground (arith, ld, c)),
            λ j j0 j1 j2. find_other front back j j1 (λ q. absurd (omega (arith, j2, ap level q))),
            λ p.
                total-halves p t.num_blocks n (inner lref es) front back t.pages n_lt f
                  (omega arith),
          ),
          (
            e,
            g,
            refl,
            find_front front back _ f,
            find_back front back,
            λ j j1 o. find_other front back j j1 o,
          ),
        )
