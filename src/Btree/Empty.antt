-- ===== src/Btree/Empty.antt =====
-- btree.hpp:107-131: a new tree is in order; and what a tree in order that lacks some entries says of its counts.
use d3b.Base.{
  ℕ, zero, suc, ◌<◌, ◌≡◌, refl, ap, subst, Bool, false, inl, List, [], ◌∷◌, Option, none, some, Map,
  find, All, arith,
}
use d3b.Btree.{Block, leaf, inner, Btree, create_tree}
use d3b.Btree.Contents.{tally, weigh_page, total}
use d3b.Btree.Ranges.{Ranges}
use d3b.Btree.Sorted.{IsSorted, HasPlace, LeafAll, InLeaves}

abbrev pub whole : ℕ → Ranges
whole top = record { low = λ _. 0; high = λ _. top; next = λ _. 0 }

module _ {K : Type 0} {V : Type 0} (rank : K → ℕ) (fits : K → Type 0) (top : ℕ) where
  pub create_tree-IsSorted : IsSorted {V = V} rank fits top (whole top) (λ _. 0) create_tree
  unfolding create_tree find
  create_tree-IsSorted = record {
    places = λ n n0 n1.
        let e : 1 ≡ n = omega (arith, n0, n1) in
        subst
          (λ (j : ℕ).
            HasPlace {V = V} rank fits top (whole top) (λ _. 0) 2 j ((1, leaf 0 0 []) ∷ []))
          e (leaf 0 0 [], refl, (tt, tt, inl refl, inl (refl, refl), (refl, inl (refl, refl))));
    ranges = λ n n0 n1. (omega arith, omega arith);
    apart = λ j k j0 j1 k0 k1 same o. absurd (o (omega (arith, j0, j1, k0, k1)));
    below = λ n n0 n1. omega arith;
    no_block = refl;
    low_root = refl;
    high_root = refl;
  }

  module _ (P : K × V → Type 0) (p : K × V → Bool) (fails : (x : K × V) → P x → p x ≡ false) where
    tally-zero : (es : List (K × V)) → All P es → tally p es ≡ 0
    tally-zero [] h = refl
    tally-zero (x ∷ es) (h0, h) = ground (arith, fails x h0, tally-zero es h)

    weigh-zero : (o : Option (Block K V)) → LeafAll rank fits top P o → weigh_page p o ≡ 0
    weigh-zero none h = refl
    weigh-zero (some (leaf left right es)) h = tally-zero es h
    weigh-zero (some (inner lref es)) h = refl

    total-zero :
        (count : ℕ) (pages : Map (Block K V))
        → find 0 pages ≡ none
        → ((n : ℕ) → 0 < n → n < count → LeafAll rank fits top P (find n pages))
        → total p count pages ≡ 0
    total-zero zero pages z h = refl
    total-zero (suc zero) pages z h =
        let e = ap (λ (o : Option (Block K V)). weigh_page p o) z in omega (arith, e)
    total-zero (suc (suc n)) pages z h =
        let w = weigh-zero (find (suc n) pages) (h (suc n) (omega arith) (omega arith)) in
        omega (arith, w, total-zero (suc n) pages z (λ m m0 m1. h m m0 (omega (arith, m1))))

    -- A test that no entry of the leaves passes counts none.
    pub InLeaves-total :
        (t : Btree K V)
        → find 0 t.pages ≡ none
        → InLeaves rank fits top P t
        → total p t.num_blocks t.pages ≡ 0
    InLeaves-total t z h = total-zero t.num_blocks t.pages z h
