-- ===== src/Btree/Cuts.antt =====
-- btree.hpp:262-287 and 863-1011: what a split leaves in the pages, and where a step of `insert` goes on.
use d3b.Base.{
  ℕ, zero, suc, ◌+◌, ◌-◌, ◌/◌, ◌<◌, ◌≡◌, ◌≢◌, List, [], ◌∷◌, Option, none, some, ok, Map, find,
  assign, length, get_elem?, take, drop, if◌then◌else◌, arith, ℤ,
}
use d3b.Btree.{BlkIndex, Block, leaf, inner, Btree, insert_at}
use d3b.Btree.Search.{before, at_most}
use d3b.Btree.Insert.{child_at}
use d3b.Btree.Bounds.{upper}
use d3b.Btree.Balance.{with_level}

module _ {K : Type 0} {V : Type 0} where
  -- The right neighbour, where there is one, got a new left link.
  abbrev pub IsRelinked : BlkIndex → BlkIndex → Map (Block K V) → Map (Block K V) → Type 0
  IsRelinked zero link old new = find 0 new ≡ find 0 old
  IsRelinked (suc m) link old new =
      (left : BlkIndex) × (right : BlkIndex) × (es : List (K × V)) × (find (suc m) old
        ≡ some (leaf left right es))
      × (find (suc m) new ≡ some (leaf link right es))

  -- The block `n` is cut at `key`, and `count` is the new block.
  abbrev pub IsCut : BlkIndex → Block K V → ℕ → K → Map (Block K V) → Map (Block K V) → Type 0
  IsCut n (leaf left right es) count key old new =
      (e : K × V) × (get_elem? es (length es / 2 - 1) ≡ some e)
      × (e.0 ≡ key)
      × (0 < length es / 2)
      × (length es / 2 < length es)
      × (find n new ≡ some (leaf left count (take (length es / 2) es)))
      × (find count new ≡ some (leaf n right (drop (length es / 2) es)))
      × IsRelinked right count old new
      × ((j : ℕ) → j < count → j ≢ n → j ≢ right → find j new ≡ find j old)
  IsCut n (inner lref es) count key old new =
      (e : K × BlkIndex) × (get_elem? es (length es / 2) ≡ some e)
      × (e.0 ≡ key)
      × (find n new ≡ some (inner lref (take (length es / 2) es)))
      × (find count new ≡ some (inner (e.1) (drop (suc (length es / 2)) es)))
      × ((j : ℕ) → j < count → j ≢ n → find j new ≡ find j old)

  -- There is no page 0 of the tree, and no split makes one.
  pub IsCut-zero :
      (n : BlkIndex) (b : Block K V) (count : ℕ) (key : K) (old new : Map (Block K V))
      → 0 < n
      → 0 < count
      → IsCut n b count key old new
      → find 0 new ≡ find 0 old
  IsCut-zero n (leaf left zero es) count key old new n0 c0
        (e, at, same, h0, h1, f, f', relinked, rest) =
      relinked
  IsCut-zero n (leaf left (suc right) es) count key old new n0 c0
        (e, at, same, h0, h1, f, f', relinked, rest) =
      rest 0 c0 (λ z. absurd (omega (arith, z, n0))) (λ z. absurd (omega (arith, z)))
  IsCut-zero n (inner lref es) count key old new n0 c0 (e, at, same, f, f', rest) =
      rest 0 c0 (λ z. absurd (omega (arith, z, n0)))

  -- The step of `insert` below `parent` in the tree `t` goes on at `n` in the tree `t'`.
  pub data Entered (compare : K → ℤ) (level : ℕ → ℕ) (t : Btree K V) (parent : Option BlkIndex)
      (level' : ℕ → ℕ) (t' : Btree K V) (n : BlkIndex) : Type 0 where
    at_root :
        parent ≡ none
        → level' ≡ level
        → t' ≡ t
        → n ≡ t.root_block
        → Entered compare level t parent level' t' n
    at_child :
        (p lref : BlkIndex) (es : List (K × BlkIndex))
        → parent ≡ some p
        → find p t.pages ≡ some (inner lref es)
        → child_at (before (upper compare es)) lref es ≡ ok n
        → level' ≡ level
        → t' ≡ t
        → Entered compare level t parent level' t' n
    cut_root :
        (b : Block K V) (key : K) (pages : Map (Block K V))
        → parent ≡ none
        → find t.root_block t.pages ≡ some b
        → IsCut t.root_block b t.num_blocks key t.pages pages
        → level'
          ≡ with_level
              (suc t.num_blocks)
              (suc (level t.root_block))
              (with_level t.num_blocks (level t.root_block) level)
        → t' ≡ record t {
          root_block = suc t.num_blocks;
          num_blocks = suc (suc t.num_blocks);
          depth = t.depth + 1;
          pages = (suc t.num_blocks, inner t.root_block ((key, t.num_blocks) ∷ [])) ∷ pages;
        }
        → n ≡ suc t.num_blocks
        → Entered compare level t parent level' t' n
    cut_child :
        (p m lref : BlkIndex) (es : List (K × BlkIndex)) (b : Block K V) (key : K)
        (pages : Map (Block K V))
        → parent ≡ some p
        → find p t.pages ≡ some (inner lref es)
        → child_at (before (upper compare es)) lref es ≡ ok m
        → find m t.pages ≡ some b
        → IsCut m b t.num_blocks key t.pages pages
        → level' ≡ with_level t.num_blocks (level m) level
        → t' ≡ record t {
          num_blocks = suc t.num_blocks;
          pages = assign p (inner lref (insert_at (upper compare es) (key, t.num_blocks) es)) pages;
        }
        → n ≡ (if at_most (compare key) then t.num_blocks else m)
        → Entered compare level t parent level' t' n
