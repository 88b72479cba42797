-- ===== src/Btree/Totality.antt =====
-- btree.hpp:206-335: the loop of `insert`, from the root to a leaf.
use d3b.Base.{
  some_eq, ℕ, zero, suc, ◌+◌, ◌<◌, ◌≤◌, ◌≡◌, refl, subst, ◌∙◌, sym, true, false, List, Option, none,
  some, Result, ok, ok-injective, find, assign, length, ltb, arith, ℤ,
}
use d3b.Btree.{BlkIndex, Block, leaf, inner, Btree, read_block, write_block, insert_at}
use d3b.Btree.Search.{lower_bound}
use d3b.Btree.Split.{after, block_is_full}
use d3b.Btree.Insert.{maybe_split_block, insert_or_descend, insert_loop, insert_entry}
use d3b.Btree.Bounds.{length-insert_at}
use d3b.Btree.Contents.{Keeps, Adds, total-assign, tally-insert_at}
use d3b.Btree.Balance.{IsBlock, IsBalanced, AreBlocks-write}
use d3b.Btree.Descent.{budget, IsParent}
use d3b.Btree.Entering.{Enters-any}

module _ {K : Type 0} {V : Type 0} (leaf_capacity inner_capacity : ℕ)
    (leaf_room : 3 ≤ leaf_capacity) (inner_room : 4 ≤ inner_capacity) (compare : K → ℤ) where
  pub insert_loop_lem :
      (fuel : ℕ) (level level' : ℕ → ℕ) (key : K) (value : V) (parent : Option BlkIndex)
      (t t' : Btree K V) (n : BlkIndex) (b : Block K V)
      → maybe_split_block leaf_capacity inner_capacity compare parent t ≡ ok (t', n)
      → find n t'.pages ≡ some b
      → insert_loop leaf_capacity inner_capacity compare (suc fuel) key value parent t
        ≡ insert_or_descend leaf_capacity inner_capacity compare key value n b t'
            (insert_loop leaf_capacity inner_capacity compare fuel key value (some n))
  unfolding insert_loop read_block
  insert_loop_lem fuel level level' key value parent t t' n b m f = rw (m, f) refl

  pub insert_at_leaf :
      (level : ℕ → ℕ) (key : K) (value : V) (t : Btree K V) (n left right : BlkIndex)
      (es : List (K × V)) (descend : Btree K V → Result (Btree K V))
      → IsBalanced leaf_capacity inner_capacity level t
      → n < t.num_blocks
      → find n t.pages ≡ some (leaf left right es)
      → IsBlock leaf_capacity inner_capacity level t.num_blocks n (leaf left right es)
      → block_is_full leaf_capacity inner_capacity (leaf left right es) ≡ false
      → (t' : Btree K V) × (insert_or_descend leaf_capacity inner_capacity compare key value n
            (leaf left right es)
            t
            descend
          ≡ ok t')
        × IsBalanced leaf_capacity inner_capacity level t'
        × Adds key value t t'
  unfolding insert_or_descend block_is_full write_block
  insert_at_leaf level key value t n left right es descend (r0, r1, d, blocks) n1 f
        (l0, l1, sibling) room =
      let i = after (lower_bound compare es) in
      let b : Block K V = leaf left right (insert_at i (key, value) es) in
      let fits : ltb (length es) leaf_capacity ≡ true = ground (arith, l1) in
      let len = length-insert_at i (key, value) es in
      (
        record t { pages = assign n b t.pages },
        rw fits refl,
        (
          r0,
          r1,
          d,
          AreBlocks-write leaf_capacity inner_capacity level t.num_blocks n b t.pages blocks
              (l0, ground (arith, len, l1, room), sibling),
        ),
        λ p. omega (
          arith,
          tally-insert_at p i (key, value) es,
          total-assign p t.num_blocks n (leaf left right es) b t.pages n1 f,
        ),
      )

  abbrev Inserts : K → V → Btree K V → Result (Btree K V) → Type 0
  Inserts key value t r =
      (level : ℕ → ℕ) × (t' : Btree K V) × (r ≡ ok t')
      × IsBalanced leaf_capacity inner_capacity level t'
      × Adds key value t t'

  Inserts-Keeps :
      (key : K) (value : V) (t t1 : Btree K V) (r : Result (Btree K V))
      → Keeps t.num_blocks t.pages t1.num_blocks t1.pages
      → Inserts key value t1 r
      → Inserts key value t r
  Inserts-Keeps key value t t1 r keeps (level, t', e, balanced, adds) =
      (level, t', e, balanced, λ p. omega (arith, keeps p, adds p))

  insert_or_descend-Inserts :
      (fuel : ℕ) (level : ℕ → ℕ) (key : K) (value : V) (t : Btree K V) (n : BlkIndex)
      (b : Block K V)
      → IsBalanced leaf_capacity inner_capacity level t
      → 0 < n
      → n < t.num_blocks
      → find n t.pages ≡ some b
      → IsBlock leaf_capacity inner_capacity level t.num_blocks n b
      → block_is_full leaf_capacity inner_capacity b ≡ false
      → (IsParent leaf_capacity inner_capacity level (some n) t
          → Inserts key value t
              (insert_loop leaf_capacity inner_capacity compare fuel key value (some n) t))
      → Inserts key value t (
          insert_or_descend leaf_capacity inner_capacity compare key value n b t
            (insert_loop leaf_capacity inner_capacity compare fuel key value (some n)))
  unfolding insert_or_descend
  insert_or_descend-Inserts fuel level key value t n (leaf left right es) h n0 n1 f is room ih =
      let (t', r, balanced, adds) =
        insert_at_leaf level key value t n left right es
          (insert_loop leaf_capacity inner_capacity compare fuel key value (some n)) h n1 f is
          room in
      (level, t', r, balanced, adds)
  insert_or_descend-Inserts fuel level key value t n (inner lref es) h n0 n1 f
        (e0, e1, (c0, c1, c2), children) room ih =
      let fits : ltb (length es) inner_capacity ≡ true = ground (arith, e1) in
      rw fits (ih (n0, n1, omega (arith, c2), (inner lref es, f, room)))

  insert_loop-Inserts :
      (fuel : ℕ) (level : ℕ → ℕ) (key : K) (value : V) (parent : Option BlkIndex) (t : Btree K V)
      → IsBalanced leaf_capacity inner_capacity level t
      → IsParent leaf_capacity inner_capacity level parent t
      → budget leaf_capacity inner_capacity level parent t ≤ fuel
      → Inserts key value t
          (insert_loop leaf_capacity inner_capacity compare fuel key value parent t)
  insert_loop-Inserts zero level key value none t h k l = absurd (omega (arith, l))
  insert_loop-Inserts zero level key value (some p) t h k l = absurd (omega (arith, l, k))
  insert_loop-Inserts (suc fuel) level key value parent t h k l =
      let (level1, t1, n, m, balanced, n0, n1, (b, f, room), lt, keeps, entered) =
        Enters-any leaf_capacity inner_capacity leaf_room inner_room compare level parent t h k in
      let (r0, r1, d, blocks) = balanced in
      let (b1, f1, is1) = blocks n n0 n1 in
      let is =
        subst (λ (x : Block K V). IsBlock leaf_capacity inner_capacity level1 t1.num_blocks n x)
          (some_eq (sym f1 ∙ f)) is1 in
      subst (λ (r : Result (Btree K V)). Inserts key value t r)
        (sym (insert_loop_lem fuel level level1 key value parent t t1 n b m f))
        (Inserts-Keeps key value t t1 _ keeps (
          insert_or_descend-Inserts fuel level1 key value t1 n b balanced n0 n1 f is room
            (λ is_parent.
              insert_loop-Inserts fuel level1 key value (some n) t1 balanced is_parent
                (omega (arith, lt, l)))))

  insert_entry-Inserts :
      (level : ℕ → ℕ) (key : K) (value : V) (t : Btree K V)
      → IsBalanced leaf_capacity inner_capacity level t
      → Inserts key value t (insert_entry leaf_capacity inner_capacity compare key value t)
  unfolding insert_entry
  insert_entry-Inserts level key value t (r0, r1, d, blocks) =
      insert_loop-Inserts (t.depth + 1) level key value none t (r0, r1, d, blocks) tt
        (omega (arith, d))

  -- An insertion into a balanced tree, for leaf capacities from 3 and inner capacities from 4,
  -- succeeds: no assertion fails, no block is missing and the loop ends. The tree that it gives is
  -- balanced: all leaves on one level, every block with room for one more entry, every reference to a
  -- block of the right level.
  pub insert_entry-IsBalanced :
      (level : ℕ → ℕ) (key : K) (value : V) (t : Btree K V)
      → IsBalanced leaf_capacity inner_capacity level t
      → (level' : ℕ → ℕ) × (t' : Btree K V) × (insert_entry leaf_capacity inner_capacity compare key
            value t
          ≡ ok t')
        × IsBalanced leaf_capacity inner_capacity level' t'
  insert_entry-IsBalanced level key value t h =
      let (level', t', e, balanced, adds) = insert_entry-Inserts level key value t h in
      (level', t', e, balanced)

  -- An insertion into a balanced tree, for leaf capacities from 3 and inner capacities from 4, adds
  -- the new entry to the entries of the leaves, once, and neither loses nor repeats another, also
  -- where blocks are split: for each test, the number of entries that pass it grows by one if the new
  -- entry passes it, and else stays.
  pub insert_entry-Adds :
      (level : ℕ → ℕ) (key : K) (value : V) (t t' : Btree K V)
      → IsBalanced leaf_capacity inner_capacity level t
      → insert_entry leaf_capacity inner_capacity compare key value t ≡ ok t'
      → Adds key value t t'
  insert_entry-Adds level key value t t' h q =
      let (level', t'', e, balanced, adds) = insert_entry-Inserts level key value t h in
      subst (λ (x : Btree K V). Adds key value t x) (ok-injective (sym e ∙ q)) adds
