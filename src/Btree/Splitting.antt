-- ===== src/Btree/Splitting.antt =====
-- btree.hpp:262-287: the step below a full block, which is split.
use d3b.Base.{
  ℕ, suc, ◌+◌, ◌-◌, ◌<◌, ◌≤◌, ◌≡◌, ◌≢◌, inl, inr, refl, ap, subst, if◌then◌else◌, ◌∙◌, sym, true,
  false, Bool-cases, List, [], ◌∷◌, none, some, ok, Map, find, assign, find-assign, length, leb,
  ◌==◌, arith, ℤ, pos,
}
use d3b.Btree.{BlkIndex, Block, inner, Btree, insert_at}
use d3b.Btree.Search.{before, at_most}
use d3b.Btree.Split.{block_is_full}
use d3b.Btree.Insert.{child_at, locate, split_full}
use d3b.Btree.Bounds.{upper}
use d3b.Btree.Cuts.{IsCut, Entered, cut_root, cut_child}
use d3b.Btree.Contents.{Keeps, total-assign, total-grow}
use d3b.Btree.Balance.{
  with_level, IsBlock, IsBalanced, AreBlocks-write, AreBlocks-initialize, AreBlocks-grow,
}
use d3b.Btree.Relinking.{HasRoom, Splits}
use d3b.Btree.Descent.{
  again_lem, HasRoom-write, fix_parent-some, fix_parent-none, parent_is, locate_again, locate-some,
  Enters,
}

module _ {K : Type 0} {V : Type 0} (leaf_capacity inner_capacity : ℕ) (compare : K → ℤ) where
  pub Enters-split_none :
      (level : ℕ → ℕ) (t : Btree K V) (n : BlkIndex) (b : Block K V)
      → IsBalanced leaf_capacity inner_capacity level t
      → 4 ≤ inner_capacity
      → n ≡ t.root_block
      → find t.root_block t.pages ≡ some b
      → block_is_full leaf_capacity inner_capacity b ≡ true
      → Splits leaf_capacity inner_capacity level n b t none (pos 0)
      → Enters leaf_capacity inner_capacity compare level none t
          (split_full leaf_capacity inner_capacity compare none (pos 0, n) b t)
  unfolding find locate block_is_full
  Enters-split_none level t n b (r0, r1, d, blocks) room e found full
        (pages, key, s, halved, is_cut) =
      let (blocks1, room_n, room_new, others, keeps) = halved in
      let count = t.num_blocks in
      let level1 = with_level count (level n) level in
      let level2 = with_level (suc count) (suc (level n)) level1 in
      let root : Block K V = inner n ((key, count) ∷ []) in
      let pages2 : Map (Block K V) = (suc count, root) ∷ pages in
      let t2 : Btree K V = record t {
        root_block = suc count;
        num_blocks = suc (suc count);
        depth = t.depth + 1;
        pages = pages2;
      } in
      let at_n : level2 n ≡ level n = ground (arith, e, r1) in
      let at_new : level2 count ≡ level n = ground arith in
      let at_root : level2 (suc count) ≡ suc (level n) = ground arith in
      let is_root : IsBlock leaf_capacity inner_capacity level2 (suc (suc count)) (suc count) root =
        (
          omega arith,
          omega (arith, room),
          (omega (arith, e, r0), omega (arith, e, r1), ap suc at_n ∙ sym at_root),
          ((omega (arith, r1), omega arith, ap suc at_new ∙ sym at_root), tt),
        ) in
      let blocks2 =
        AreBlocks-initialize leaf_capacity inner_capacity level1 (suc count) (suc (level n)) root
          pages
          (AreBlocks-grow leaf_capacity inner_capacity level1 (suc count) (suc (level n)) pages
            blocks1)
          is_root in
      let same : (suc count == suc count) ≡ true = ground arith in
      let not_full : leb (inner_capacity - 1) 1 ≡ false = ground (arith, room) in
      let room_root : HasRoom leaf_capacity inner_capacity (suc count) pages2 =
        (root, rw same refl, not_full) in
      let depth2 : t.depth + 1 ≡ suc (level2 (suc count)) = omega (arith, d, at_root, ap level e) in
      (
        level2,
        t2,
        suc count,
        locate_again leaf_capacity inner_capacity compare none (pos 0) (pos 0) n (suc count) b t t2
            full (s ∙ fix_parent-none leaf_capacity inner_capacity (pos 0) n key count _) refl
            room_root,
        (omega arith, omega arith, depth2, blocks2),
        omega arith,
        omega arith,
        room_root,
        omega (arith, at_root, ap level e),
        λ p. omega (arith, keeps p, total-grow p (suc count) root pages),
        cut_root b key pages refl found
            (subst (λ (m : ℕ). IsCut m b count key t.pages pages) e is_cut)
            (ap
              (λ (m : ℕ). with_level (suc count) (suc (level m)) (with_level count (level m) level))
              e)
            (ap (λ (m : ℕ). record t2 { pages = (suc count, inner m ((key, count) ∷ [])) ∷ pages })
              e)
            refl,
      )

  pub Enters-split_some :
      (level : ℕ → ℕ) (t : Btree K V) (p n : BlkIndex) (b : Block K V) (lref : BlkIndex)
      (es : List (K × BlkIndex))
      → IsBalanced leaf_capacity inner_capacity level t
      → 0 < p
      → p < t.num_blocks
      → find p t.pages ≡ some (inner lref es)
      → suc (length es) < inner_capacity
      → child_at (before (upper compare es)) lref es ≡ ok n
      → n < t.num_blocks
      → 0 < n
      → suc (level n) ≡ level p
      → find n t.pages ≡ some b
      → block_is_full leaf_capacity inner_capacity b ≡ true
      → Splits leaf_capacity inner_capacity level n b t (some p) (before (upper compare es))
      → Enters leaf_capacity inner_capacity compare level (some p) t (
          split_full leaf_capacity inner_capacity compare
            (some p)
            (before (upper compare es), n)
            b
            t)
  Enters-split_some level t p n b lref es (r0, r1, d, blocks) p0 p1 f small at n1 n0 l fn full
        (pages, key, s, halved, is_cut) =
      let (blocks1, room_n, room_new, others, keeps) = halved in
      let count = t.num_blocks in
      let i = upper compare es in
      let level1 = with_level count (level n) level in
      let f1 : find p pages ≡ some (inner lref es) = others p p0 p1 (sym l) ∙ f in
      let es2 = insert_at i (key, count) es in
      let parent : Block K V = inner lref es2 in
      let pages2 : Map (Block K V) = assign p parent pages in
      let t2 : Btree K V = record t { num_blocks = suc count; pages = pages2 } in
      let found : find p pages2 ≡ some parent =
        let same : (p == p) ≡ true = ground arith in
        find-assign p p parent pages ∙ rw (same, f1) refl in
      let blocks2 =
        AreBlocks-write leaf_capacity inner_capacity level1 (suc count) p parent pages blocks1 (
          parent_is leaf_capacity inner_capacity level count (level n) i p lref es key t.pages
            blocks p0 p1 f small l) in
      let split2 =
        s
        ∙ fix_parent-some leaf_capacity inner_capacity p i n key count
            (record t { num_blocks = suc count; pages = pages }) lref es f1
            (omega (arith, small)) in
      let again = again_lem compare (key, count) lref es in
      let o_n : n ≢ p = λ q. absurd (omega (arith, l, ap level q)) in
      let o_new : count ≢ p = λ q. absurd (omega (arith, p1, q)) in
      let room2_n = HasRoom-write leaf_capacity inner_capacity n p parent pages o_n room_n in
      let room2_new =
        HasRoom-write leaf_capacity inner_capacity count p parent pages o_new room_new in
      let balanced : IsBalanced leaf_capacity inner_capacity level1 t2 =
        (r0, omega (arith, r1), d ∙ ground (arith, r1), blocks2) in
      let keeps2 : Keeps count t.pages (suc count) pages2 = λ w. omega (
        arith,
        keeps w,
        total-assign w (suc count) p (inner lref es) parent pages (omega (arith, p1)) f1,
      ) in
      let entered : (c : BlkIndex)
          → c ≡ (if at_most (compare key) then count else n)
          → Entered compare level t (some p) level1 t2 c =
        λ c e. cut_child p n lref es b key pages refl f at fn is_cut refl refl e in
      elim (Bool-cases (at_most (compare key))) [
        | inl m ↦ (
          level1,
          t2,
          count,
          locate_again leaf_capacity inner_capacity compare (some p) (before i)
              (before (upper compare es2)) n count b t t2 full split2
              (locate-some leaf_capacity inner_capacity compare p t2 lref es2 count found
                (again ∙ rw m refl))
              room2_new,
          balanced,
          omega (arith, p1),
          omega arith,
          room2_new,
          ground (arith, l),
          keeps2,
          entered count (ground (arith, m)),
        )
        | inr m ↦ (
          level1,
          t2,
          n,
          locate_again leaf_capacity inner_capacity compare (some p) (before i)
              (before (upper compare es2)) n n b t t2 full split2
              (locate-some leaf_capacity inner_capacity compare p t2 lref es2 n found
                (again ∙ rw m at))
              room2_n,
          balanced,
          n0,
          omega (arith, n1),
          room2_n,
          ground (arith, l, n1),
          keeps2,
          entered n (ground (arith, m)),
        )
      ]
