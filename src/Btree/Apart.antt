-- ===== src/Btree/Apart.antt =====
-- btree.hpp: the entries of a tree in order, beside those of one leaf.
use d3b.Base.{
  ℕ, zero, suc, ◌≤◌, ◌<◌, ◌≡◌, ◌≢◌, ◌⊎◌, inl, inr, refl, ap, subst, sym, ◌∙◌, Bool-cases, List, [],
  ◌∷◌, Option, some, ok, find, get_elem?, take, drop, All, All-mono, ◌==◌, arith,
}
use d3b.Btree.{BlkIndex, Block, leaf, inner, Btree, read_block}
use d3b.Btree.Find.{leaf_at, get_entry}
use d3b.Btree.Balance.{IsBlock, IsBalanced}
use d3b.Btree.Ranges.{Ranges}
use d3b.Btree.Sorted.{IsPlaced, IsSorted, LeafAll, InLeaves, IsPlaced-block}

pub All-take-drop {ℓ κ} :
    {A : Type ℓ} (P : A → Type κ) (n : ℕ) (xs : List A)
    → All P (take n xs)
    → All P (drop n xs)
    → All P xs
All-take-drop P zero xs h k = k
All-take-drop P (suc n) [] h k = tt
All-take-drop P (suc n) (x ∷ xs) h k = (h.0, All-take-drop P n xs h.1 k)

module _ {K : Type 0} {V : Type 0} where
  pub get_entry_lem :
      (t : Btree K V) (n i left right : ℕ) (es : List (K × V)) (e : K × V)
      → find n t.pages ≡ some (leaf left right es)
      → get_elem? es i ≡ some e
      → get_entry (some (n, i)) t ≡ ok e
  unfolding get_entry leaf_at read_block
  get_entry_lem t n i left right es e f q = rw (f, q) refl

module _ {K : Type 0} {V : Type 0} (leaf_capacity inner_capacity : ℕ) (rank : K → ℕ)
    (fits : K → Type 0) (top : ℕ) where
  module _ (g : Ranges) (level : ℕ → ℕ) (t : Btree K V)
      (balanced : IsBalanced leaf_capacity inner_capacity level t)
      (sorted : IsSorted rank fits top g level t) where
    beside_block :
        (P : K × V → Type 0) (n k : ℕ) (b : Block K V)
        → 0 < n
        → n < t.num_blocks
        → level n ≡ 0
        → ((x : K × V) → fits (x.0) → (rank (x.0) ≤ g.low n) ⊎ (g.high n ≤ rank (x.0)) → P x)
        → 0 < k
        → k < t.num_blocks
        → n ≢ k
        → IsBlock leaf_capacity inner_capacity level t.num_blocks k b
        → IsPlaced rank fits top g level t.num_blocks k b
        → LeafAll rank fits top P (some b)
    beside_block P n k (inner lref es) n0 n1 ln others k0 k1 o is placed = tt
    beside_block P n k (leaf left right es) n0 n1 ln others k0 k1 o (lk, small, sibling)
          (ordered, within, ends, l, r) =
        elim (sorted.apart n k n0 n1 k0 k1 (ln ∙ sym lk) o) [
          | inl a ↦ All-mono _ _ es (λ x (f, l, h). others x f (inr (omega (arith, a, l)))) within
          | inr a ↦ All-mono _ _ es (λ x (f, l, h). others x f (inl (omega (arith, a, h)))) within
        ]

    -- The entries of the other leaves are below the range of this one, or above it.
    pub beside :
        (P : K × V → Type 0) (n left right : BlkIndex) (es : List (K × V))
        → 0 < n
        → n < t.num_blocks
        → level n ≡ 0
        → find n t.pages ≡ some (leaf left right es)
        → ((x : K × V) → fits (x.0) → (rank (x.0) ≤ g.low n) ⊎ (g.high n ≤ rank (x.0)) → P x)
        → All P es
        → InLeaves rank fits top P t
    beside P n left right es n0 n1 ln f others own k k0 k1 = elim (Bool-cases (n == k)) [
      | inl same ↦
          let e : n ≡ k = ground (arith, same) in
          subst (λ (o : Option (Block K V)). LeafAll rank fits top P o)
            (sym f ∙ ap (λ (j : ℕ). find j t.pages) e) own
      | inr other ↦
          let (b, q, is, placed) =
            IsPlaced-block rank fits top leaf_capacity inner_capacity g level t k balanced sorted k0
              k1 in
          subst (λ (o : Option (Block K V)). LeafAll rank fits top P o) (sym q)
            (beside_block P n k b n0 n1 ln others k0 k1 (λ e. absurd (ground (arith, e, other))) is
              placed)
    ]
