-- ===== src/Btree/Entering.antt =====
-- btree.hpp:262-287: `maybe_split_block`, at the root and below a parent.
use d3b.Base.{
  some_eq, ℕ, ◌-◌, ◌<◌, ◌≤◌, ◌≡◌, inl, inr, refl, subst, ap, ◌∙◌, sym, false, Bool-cases, Option,
  none, some, Result, ok, find, length, leb, arith, ℤ, pos,
}
use d3b.Btree.{BlkIndex, Block, inner, Btree, read_block}
use d3b.Btree.Search.{before}
use d3b.Btree.Split.{block_is_full}
use d3b.Btree.Insert.{locate, split_full, maybe_split_block}
use d3b.Btree.Bounds.{upper, upper_le, child_at_lem}
use d3b.Btree.Balance.{IsChild, IsBalanced, inner_of_level}
use d3b.Btree.Descent.{split-any, budget, IsParent, Enters, locate-some}
use d3b.Btree.Cuts.{Entered, at_root, at_child}
use d3b.Btree.Splitting.{Enters-split_none, Enters-split_some}

module _ {K : Type 0} {V : Type 0} (leaf_capacity inner_capacity : ℕ)
    (leaf_room : 3 ≤ leaf_capacity) (inner_room : 4 ≤ inner_capacity) (compare : K → ℤ) where
  maybe_split_block_lem :
      (parent : Option BlkIndex) (t : Btree K V) (index : ℤ) (n : BlkIndex) (b : Block K V)
      → locate leaf_capacity inner_capacity compare parent t ≡ ok (index, n)
      → find n t.pages ≡ some b
      → maybe_split_block leaf_capacity inner_capacity compare parent t
        ≡ split_full leaf_capacity inner_capacity compare parent (index, n) b t
  unfolding maybe_split_block read_block
  maybe_split_block_lem parent t index n b l f = rw (l, f) refl

  split_full_room :
      (parent : Option BlkIndex) (t : Btree K V) (index : ℤ) (n : BlkIndex) (b : Block K V)
      → block_is_full leaf_capacity inner_capacity b ≡ false
      → split_full leaf_capacity inner_capacity compare parent (index, n) b t ≡ ok (t, n)
  unfolding split_full
  split_full_room parent t index n b f = rw f refl

  locate-none :
      (t : Btree K V)
      → locate leaf_capacity inner_capacity compare none t ≡ ok (pos 0, t.root_block)
  unfolding locate
  locate-none t = refl

  -- The number of a block that has room is what the step goes on with.
  Enters-with_room :
      (level : ℕ → ℕ) (parent : Option BlkIndex) (t : Btree K V) (index : ℤ) (n : BlkIndex)
      (b : Block K V)
      → IsBalanced leaf_capacity inner_capacity level t
      → 0 < n
      → n < t.num_blocks
      → find n t.pages ≡ some b
      → block_is_full leaf_capacity inner_capacity b ≡ false
      → level n < budget leaf_capacity inner_capacity level parent t
      → Entered compare level t parent level t n
      → Enters leaf_capacity inner_capacity compare level parent t
          (split_full leaf_capacity inner_capacity compare parent (index, n) b t)
  Enters-with_room level parent t index n b balanced n0 n1 f room l entered = (
    level,
    t,
    n,
    split_full_room parent t index n b room,
    balanced,
    n0,
    n1,
    (b, f, room),
    l,
    λ p. refl,
    entered,
  )

  Enters-none :
      (level : ℕ → ℕ) (t : Btree K V)
      → IsBalanced leaf_capacity inner_capacity level t
      → Enters leaf_capacity inner_capacity compare level none t
          (maybe_split_block leaf_capacity inner_capacity compare none t)
  Enters-none level t (r0, r1, d, blocks) =
      let root = t.root_block in
      let (b, f, is) = blocks root r0 r1 in
      subst
        (λ (r : Result (Btree K V × BlkIndex)).
          Enters leaf_capacity inner_capacity compare level none t r)
        (sym (maybe_split_block_lem none t (pos 0) root b (locate-none t) f))
        (elim (Bool-cases (block_is_full leaf_capacity inner_capacity b)) [
          | inl full ↦
              Enters-split_none leaf_capacity inner_capacity compare level t root b
                (r0, r1, d, blocks) inner_room refl f full
                (split-any leaf_capacity inner_capacity level t root b none (pos 0) blocks r0 r1
                  leaf_room inner_room f is full)
          | inr room ↦
              Enters-with_room level none t (pos 0) root b (r0, r1, d, blocks) r0 r1 f room
                (omega arith) (at_root refl refl refl refl)
        ])

  Enters-some :
      (level : ℕ → ℕ) (p : BlkIndex) (t : Btree K V)
      → IsBalanced leaf_capacity inner_capacity level t
      → IsParent leaf_capacity inner_capacity level (some p) t
      → Enters leaf_capacity inner_capacity compare level
          (some p)
          t
          (maybe_split_block leaf_capacity inner_capacity compare (some p) t)
  unfolding block_is_full
  Enters-some level p t (r0, r1, d, blocks) (p0, p1, lp, (b', f', room)) =
      let (bp, fp, is_p) = blocks p p0 p1 in
      let (lref, es, e, es0, es1, left_child, children) =
        inner_of_level leaf_capacity inner_capacity level t.num_blocks p (level p - 1) bp
          (omega (arith, lp)) is_p in
      let f : find p t.pages ≡ some (inner lref es) = fp ∙ ap (λ (x : Block K V). some x) e in
      let same : b' ≡ inner lref es = some_eq (sym f' ∙ f) in
      let small : leb (inner_capacity - 1) (length es) ≡ false =
        ap (λ (x : Block K V). block_is_full leaf_capacity inner_capacity x) (sym same) ∙ room in
      let (n, at, child) =
        child_at_lem (λ c. IsChild level t.num_blocks p c) (upper compare es) lref es
          (upper_le compare es) left_child children in
      let (n0, n1, ln) = child in
      let (b, fn, is) = blocks n n0 n1 in
      let index = before (upper compare es) in
      subst
        (λ (r : Result (Btree K V × BlkIndex)).
          Enters leaf_capacity inner_capacity compare level (some p) t r)
        (sym (
          maybe_split_block_lem (some p) t index n b
            (locate-some leaf_capacity inner_capacity compare p t lref es n f at) fn))
        (elim (Bool-cases (block_is_full leaf_capacity inner_capacity b)) [
          | inl full ↦
              Enters-split_some leaf_capacity inner_capacity compare level t p n b lref es
                (r0, r1, d, blocks) p0 p1 f (ground (arith, small, es1)) at n1 n0 ln fn full
                (split-any leaf_capacity inner_capacity level t n b (some p) index blocks n0 n1
                  leaf_room inner_room fn is full)
          | inr has ↦
              Enters-with_room level (some p) t index n b (r0, r1, d, blocks) n0 n1 fn has
                (omega (arith, ln)) (at_child p lref es refl f at refl refl)
        ])

  pub Enters-any :
      (level : ℕ → ℕ) (parent : Option BlkIndex) (t : Btree K V)
      → IsBalanced leaf_capacity inner_capacity level t
      → IsParent leaf_capacity inner_capacity level parent t
      → Enters leaf_capacity inner_capacity compare level parent t
          (maybe_split_block leaf_capacity inner_capacity compare parent t)
  Enters-any level none t h k = Enters-none level t h
  Enters-any level (some p) t h k = Enters-some level p t h k
