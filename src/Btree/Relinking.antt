-- ===== src/Btree/Relinking.antt =====
-- btree.hpp:926-936: the left link of the right neighbour; and what a split promises.
use d3b.Base.{
  ℕ, zero, suc, ◌<◌, ◌≤◌, ◌≡◌, ◌≢◌, ◌⊎◌, inl, inr, refl, ap, ◌∙◌, true, false, ◌==◌, List, [], ◌∷◌,
  Option, some, ok, Map, find, assign, find-assign, length, get_elem?, take, arith, ℤ,
}
use d3b.Btree.{BlkIndex, Block, leaf, Btree, read_block, write_block}
use d3b.Btree.Split.{set_left_link, relink, block_is_full, fix_parent, split}
use d3b.Btree.Cuts.{IsRelinked, IsCut}
use d3b.Btree.Contents.{Keeps, total-assign}
use d3b.Btree.Balance.{leaf_of_level, with_level, AreBlocks, AreBlocks-write}

pub length-take_lem {ℓ} :
    {A : Type ℓ} (n : ℕ) (xs : List A) → n ≤ length xs → length (take n xs) ≡ n
length-take_lem zero xs h = refl
length-take_lem (suc n) [] h = absurd (omega (arith, h))
length-take_lem (suc n) (x ∷ xs) h = ap suc (length-take_lem n xs (omega (arith, h)))

pub find-assign_other {ℓ} :
    {V : Type ℓ} (j k : ℕ) (v : V) (m : Map V) → j ≢ k → find j (assign k v m) ≡ find j m
find-assign_other j k v m o = find-assign j k v m ∙ ground (arith, o)

pub find-assign_self {ℓ} :
    {V : Type ℓ} (k : ℕ) (old v : V) (m : Map V)
    → find k m ≡ some old
    → find k (assign k v m) ≡ some v
find-assign_self k old v m f =
    let same : (k == k) ≡ true = ground arith in find-assign k k v m ∙ rw (same, f) refl

pub get_some {ℓ} :
    {A : Type ℓ} (n : ℕ) (xs : List A) → n < length xs → (x : A) × (get_elem? xs n ≡ some x)
get_some n [] l = absurd (omega (arith, l))
get_some zero (x ∷ xs) l = (x, refl)
get_some (suc n) (x ∷ xs) l = get_some n xs (omega (arith, l))

module _ {K : Type 0} {V : Type 0} (leaf_capacity inner_capacity : ℕ) where
  pub relink_lem :
      (level : ℕ → ℕ) (link right : ℕ) (t : Btree K V)
      → AreBlocks leaf_capacity inner_capacity level t.num_blocks t.pages
      → (right ≡ 0) ⊎ ((right < t.num_blocks) × (level right ≡ 0))
      → (pages : Map (Block K V)) × (relink right link t ≡ ok (record t { pages = pages }))
        × AreBlocks leaf_capacity inner_capacity level t.num_blocks pages
        × ((j : ℕ) → j ≢ right → find j pages ≡ find j t.pages)
        × Keeps t.num_blocks t.pages t.num_blocks pages
        × IsRelinked right link t.pages pages
  unfolding relink read_block write_block set_left_link
  relink_lem level link zero t h r = (t.pages, refl, h, λ j o. refl, λ p. refl, refl)
  relink_lem level link (suc right) t h (inl e) = absurd (omega (arith, e))
  relink_lem level link (suc right) t h (inr (r1, r2)) =
      let (b, f, is) = h (suc right) (omega arith) r1 in
      let (l, r, es, e, small, sibling) =
        leaf_of_level leaf_capacity inner_capacity level t.num_blocks (suc right) b r2 is in
      let f' : find (suc right) t.pages ≡ some (leaf l r es) =
        f ∙ ap (λ (x : Block K V). some x) e in
      (
        assign (suc right) (leaf link r es) t.pages,
        rw f' refl,
        AreBlocks-write leaf_capacity inner_capacity level t.num_blocks (suc right) (leaf link r es)
            t.pages h (r2, small, sibling),
        λ j o. find-assign_other j (suc right) (leaf link r es) t.pages o,
        λ p. omega (
          arith,
          total-assign p t.num_blocks (suc right) (leaf l r es) (leaf link r es) t.pages r1 f',
        ),
        (l, r, es, f', find-assign_self (suc right) (leaf l r es) (leaf link r es) t.pages f'),
      )

  abbrev pub HasRoom : BlkIndex → Map (Block K V) → Type 0
  HasRoom n pages =
      (b : Block K V) × (find n pages ≡ some b)
      × (block_is_full leaf_capacity inner_capacity b ≡ false)

  -- What a split has done before it turns to the parent.
  abbrev pub IsHalved : (ℕ → ℕ) → BlkIndex → Btree K V → Map (Block K V) → Type 0
  IsHalved level n t pages =
      AreBlocks leaf_capacity inner_capacity (with_level t.num_blocks (level n) level)
        (suc t.num_blocks) pages
      × HasRoom n pages
      × HasRoom t.num_blocks pages
      × ((j : ℕ)
          → 0 < j
          → j < t.num_blocks
          → level j ≡ suc (level n)
          → find j pages ≡ find j t.pages)
      × Keeps t.num_blocks t.pages (suc t.num_blocks) pages

  abbrev pub Splits : (ℕ → ℕ) → BlkIndex → Block K V → Btree K V → Option BlkIndex → ℤ → Type 0
  Splits level n b t parent index =
      (pages : Map (Block K V)) × (key : K) × (split leaf_capacity inner_capacity n b parent index t
        ≡ fix_parent leaf_capacity inner_capacity parent index n key t.num_blocks
            (record t { num_blocks = suc t.num_blocks; pages = pages }))
      × IsHalved level n t pages
      × IsCut n b t.num_blocks key t.pages pages
