-- ===== src/Btree/Sorting.antt =====
-- btree.hpp:206-335: `insert` keeps a tree in order.
use d3b.Base.{
  ℕ, zero, suc, ◌+◌, ◌≤◌, ◌<◌, ◌≡◌, inl, inr, refl, subst, sym, ◌∙◌, true, false, Bool-cases, List,
  Option, none, some, some_eq, Result, ok, ok-injective, find, assign, length, All-mono, leb, ltb,
  ◌==◌, arith, ℤ,
}
use d3b.Btree.{BlkIndex, Block, leaf, inner, Btree, insert_at, write_block}
use d3b.Btree.Search.{at_most, lower_bound}
use d3b.Btree.Split.{after, block_is_full}
use d3b.Btree.Insert.{insert_or_descend, insert_loop, insert_entry}
use d3b.Btree.Bounds.{All-insert_at}
use d3b.Btree.Ordered.{EndsAt-insert_at, insert_at-lower_bound, lower_bound-CutsAt}
use d3b.Btree.Balance.{IsBlock, IsBalanced}
use d3b.Btree.Relinking.{find-assign_other, find-assign_self}
use d3b.Btree.Descent.{budget, IsParent}
use d3b.Btree.Entering.{Enters-any}
use d3b.Btree.Ranges.{Ranges}
use d3b.Btree.Sorted.{IsWithin, IsPlaced, HasPlace, IsSorted}
use d3b.Btree.Totality.{insert_loop_lem, insert_at_leaf}
use d3b.Btree.Advancing.{IsCovered, IsParentCovered, Entered-Keeps, same_index}

module _ {K : Type 0} {V : Type 0} (leaf_capacity inner_capacity : ℕ)
    (leaf_room : 3 ≤ leaf_capacity) (inner_room : 4 ≤ inner_capacity) (rank : K → ℕ)
    (fits : K → Type 0) (top : ℕ) (positive : (k : K) → fits k → (0 < rank k) × (rank k < top))
    (compare : K → ℤ) (key : K) (key_fits : fits key)
    (agrees : (k : K) → fits k → at_most (compare k) ≡ leb (rank k) (rank key)) where
  insert_at_leaf-IsSorted :
      (g : Ranges) (level : ℕ → ℕ) (value : V) (t : Btree K V) (n left right : BlkIndex)
      (es : List (K × V))
      → IsSorted rank fits top g level t
      → 0 < n
      → n < t.num_blocks
      → find n t.pages ≡ some (leaf left right es)
      → IsCovered (rank key) g n
      → IsSorted rank fits top g level (record t {
        pages =
            assign n
              (leaf left right (insert_at (after (lower_bound compare es)) (key, value) es))
              t.pages;
      })
  insert_at_leaf-IsSorted g level value t n left right es sorted n0 n1 f (l, u) =
      let (b, f', placed) = sorted.places n n0 n1 in
      let (ordered, within, ends, at_left, at_right) =
        subst (λ (x : Block K V). IsPlaced rank fits top g level t.num_blocks n x)
          (some_eq (sym f' ∙ f)) placed in
      let all_fit = All-mono _ _ es (λ x w. w.0) within in
      let i = after (lower_bound compare es) in
      let cuts = lower_bound-CutsAt rank fits compare (rank key) agrees es all_fit ordered in
      let new : Block K V = leaf left right (insert_at i (key, value) es) in
      let place_new : IsPlaced rank fits top g level t.num_blocks n new = (
        insert_at-lower_bound rank fits compare (rank key) agrees key value es refl all_fit ordered,
        All-insert_at (IsWithin rank fits top g n) i (key, value) es (key_fits, l, omega (arith, u))
            within,
        elim ends [
          | inl z ↦ inl z
          | inr z ↦ inr (EndsAt-insert_at rank (rank key) (g.high n) i (key, value) es u cuts z)
        ],
        at_left,
        at_right,
      ) in
      record {
        places = λ j j0 j1. elim (Bool-cases (n == j)) [
          | inl z ↦
              subst
                (λ (k : ℕ). HasPlace rank fits top g level t.num_blocks k (assign n new t.pages))
                (same_index n j z)
                (new, find-assign_self n (leaf left right es) new t.pages f, place_new)
          | inr z ↦
              let (c, fc, placed_c) = sorted.places j j0 j1 in
              (
                c,
                find-assign_other j n new t.pages (λ w. absurd (ground (arith, z, w))) ∙ fc,
                placed_c,
              )
        ];
        ranges = sorted.ranges;
        apart = sorted.apart;
        below = sorted.below;
        no_block =
            find-assign_other 0 n new t.pages (λ z. absurd (omega (arith, z, n0)))
            ∙ sorted.no_block;
        low_root = sorted.low_root;
        high_root = sorted.high_root;
      }

  abbrev Sorts : Result (Btree K V) → Type 0
  Sorts r =
      (g : Ranges) × (level : ℕ → ℕ) × (t : Btree K V) × (r ≡ ok t)
      × IsBalanced leaf_capacity inner_capacity level t
      × IsSorted rank fits top g level t

  insert_or_descend-Sorts :
      (fuel : ℕ) (g : Ranges) (level : ℕ → ℕ) (value : V) (t : Btree K V) (n : BlkIndex)
      (b : Block K V)
      → IsBalanced leaf_capacity inner_capacity level t
      → IsSorted rank fits top g level t
      → IsCovered (rank key) g n
      → 0 < n
      → n < t.num_blocks
      → find n t.pages ≡ some b
      → IsBlock leaf_capacity inner_capacity level t.num_blocks n b
      → block_is_full leaf_capacity inner_capacity b ≡ false
      → (IsParent leaf_capacity inner_capacity level (some n) t
          → Sorts (insert_loop leaf_capacity inner_capacity compare fuel key value (some n) t))
      → Sorts (
          insert_or_descend leaf_capacity inner_capacity compare key value n b t
            (insert_loop leaf_capacity inner_capacity compare fuel key value (some n)))
  unfolding insert_or_descend write_block
  insert_or_descend-Sorts fuel g level value t n (leaf left right es) h s c n0 n1 f is room ih =
      let (t', r, balanced, adds) =
        insert_at_leaf leaf_capacity inner_capacity leaf_room inner_room compare level key value t n
          left right es (insert_loop leaf_capacity inner_capacity compare fuel key value (some n)) h
          n1 f is room in
      let small : ltb (length es) leaf_capacity ≡ true = ground (arith, is.1) in
      let i = after (lower_bound compare es) in
      let t2 : Btree K V = record t {
        pages = assign n (leaf left right (insert_at i (key, value) es)) t.pages;
      } in
      let e : insert_or_descend leaf_capacity inner_capacity compare key value n
            (leaf left right es) t
            (insert_loop leaf_capacity inner_capacity compare fuel key value (some n))
          ≡ ok t2 =
        rw small refl in
      (
        g,
        level,
        t2,
        e,
        subst (λ (x : Btree K V). IsBalanced leaf_capacity inner_capacity level x)
            (ok-injective (sym r ∙ e)) balanced,
        insert_at_leaf-IsSorted g level value t n left right es s n0 n1 f c,
      )
  insert_or_descend-Sorts fuel g level value t n (inner lref es) h s c n0 n1 f
        (e0, e1, (c0, c1, c2), children) room ih =
      let small : ltb (length es) inner_capacity ≡ true = ground (arith, e1) in
      rw small (ih (n0, n1, omega (arith, c2), (inner lref es, f, room)))

  insert_loop-Sorts :
      (fuel : ℕ) (g : Ranges) (level : ℕ → ℕ) (value : V) (parent : Option BlkIndex) (t : Btree K V)
      → IsBalanced leaf_capacity inner_capacity level t
      → IsSorted rank fits top g level t
      → IsParent leaf_capacity inner_capacity level parent t
      → IsParentCovered (rank key) g t.num_blocks parent
      → budget leaf_capacity inner_capacity level parent t ≤ fuel
      → Sorts (insert_loop leaf_capacity inner_capacity compare fuel key value parent t)
  insert_loop-Sorts zero g level value none t h s k c l = absurd (omega (arith, l))
  insert_loop-Sorts zero g level value (some p) t h s k c l = absurd (omega (arith, l, k))
  insert_loop-Sorts (suc fuel) g level value parent t h s k c l =
      let (level1, t1, n, m, balanced, n0, n1, (b, f, room), lt, keeps, entered) =
        Enters-any leaf_capacity inner_capacity leaf_room inner_room compare level parent t h k in
      let (r0, r1, d, blocks) = balanced in
      let (b1, f1, is1) = blocks n n0 n1 in
      let is =
        subst (λ (x : Block K V). IsBlock leaf_capacity inner_capacity level1 t1.num_blocks n x)
          (some_eq (sym f1 ∙ f)) is1 in
      let (g1, s1, c1) =
        Entered-Keeps leaf_capacity inner_capacity leaf_room inner_room rank fits top positive
          compare key key_fits agrees g level level1 t t1 parent n h s c balanced n0 n1 entered in
      subst (λ (r : Result (Btree K V)). Sorts r)
        (sym (
          insert_loop_lem leaf_capacity inner_capacity leaf_room inner_room compare fuel level
            level1 key value parent t t1 n b m f))
        (insert_or_descend-Sorts fuel g1 level1 value t1 n b balanced s1 c1 n0 n1 f is room
          (λ is_parent.
            insert_loop-Sorts fuel g1 level1 value (some n) t1 balanced s1 is_parent (n0, n1, c1)
              (omega (arith, lt, l))))

  -- An insertion into a balanced tree in order, for leaf capacities from 3 and inner capacities from 4
  -- and a comparison that agrees with the order of the keys, succeeds and leaves a balanced tree in
  -- order: the entries of each leaf are in order, each block has the keys of its own range, the
  -- children of an inner block share out its range at its keys, blocks of one level have ranges apart,
  -- and the links of the leaves join neighbouring ranges.
  pub insert_entry-IsSorted :
      (g : Ranges) (level : ℕ → ℕ) (value : V) (t : Btree K V)
      → IsBalanced leaf_capacity inner_capacity level t
      → IsSorted rank fits top g level t
      → (g' : Ranges) × (level' : ℕ → ℕ) × (t' : Btree K V) × (insert_entry leaf_capacity
            inner_capacity compare key value t
          ≡ ok t')
        × IsBalanced leaf_capacity inner_capacity level' t'
        × IsSorted rank fits top g' level' t'
  unfolding insert_entry
  insert_entry-IsSorted g level value t h s =
      let (r0, r1, d, blocks) = h in
      insert_loop-Sorts (t.depth + 1) g level value none t h s tt tt (omega (arith, d))
