-- ===== src/Btree/Seeking.antt =====
-- btree.hpp:739-769 and 1017-1083: where `findNext` goes on below an inner block, and what it finds in a leaf.
use d3b.Base.{
  ℕ, zero, suc, ◌+◌, ◌-◌, ◌≤◌, ◌<◌, ◌≡◌, ◌⊎◌, inl, inr, refl, ap, ◌∙◌, Bool-cases, List, [], ◌∷◌,
  some, some_eq, ok, length, get_elem?, take, drop, All, All-mono, leb, arith, ℤ, pos, minus_one,
  if◌then◌else◌,
}
use d3b.Btree.{BlkIndex}
use d3b.Btree.Search.{at_least, next_from, next_in}
use d3b.Btree.Find.{next_child}
use d3b.Btree.Ordered.{IsOrdered}
use d3b.Btree.Ranges.{Ranges, Slots}

-- An entry of an ordered list is at most itself and those behind it.
pub IsOrdered-from :
    {K : Type 0} {A : Type 0} (rank : K → ℕ) (i : ℕ) (e : K × A) (es : List (K × A))
    → get_elem? es i ≡ some e
    → IsOrdered rank es
    → All (λ x. rank (e.0) ≤ rank (x.0)) (drop i es)
IsOrdered-from rank i e [] q h = absurd (cc)
IsOrdered-from rank zero e (x ∷ es) q (h0, h) =
    let same = ap (λ y. rank (y.0)) (some_eq q) in
    (omega (arith, same), All-mono _ _ es (λ y l. omega (arith, l, same)) h0)
IsOrdered-from rank (suc i) e (x ∷ es) q (h0, h) = IsOrdered-from rank i e es q h

-- The last child of an inner block, and the one before its first key that is at least the desired one.
abbrev last_child : {K : Type 0} → BlkIndex → List (K × BlkIndex) → BlkIndex
last_child c [] = c
last_child c ((s, r) ∷ es) = last_child r es

module _ {K : Type 0} (compare : K → ℤ) where
  abbrev pub entered : BlkIndex → List (K × BlkIndex) → BlkIndex
  entered c [] = c
  entered c ((s, r) ∷ es) = let rest = entered r es in if at_least (compare s) then c else rest

  next_child-tail :
      (i : ℕ) (c : BlkIndex) (s : K) (r : BlkIndex) (es : List (K × BlkIndex)) (n : BlkIndex)
      → next_child (pos i) r es ≡ ok n
      → next_child (pos (suc i)) c ((s, r) ∷ es) ≡ ok n
  unfolding next_child
  next_child-tail zero c s r es n at = at
  next_child-tail (suc i) c s r es n at = at

  next_child-last :
      (c d : BlkIndex) (es : List (K × BlkIndex))
      → 0 < length es
      → next_child minus_one c es ≡ ok (last_child d es)
  unfolding next_child
  next_child-last c d [] l = absurd (omega (arith, l))
  next_child-last c d ((s, r) ∷ []) l = refl
  next_child-last c d ((s, r) ∷ (s', r') ∷ es) l =
      let n : length ((s, r) ∷ (s', r') ∷ es) - 1 ≡ suc (length ((s', r') ∷ es) - 1) =
        omega arith in
      rw n (next_child-last c r ((s', r') ∷ es) (omega arith))

  next_from_child :
      (k : ℕ) (c : BlkIndex) (es : List (K × BlkIndex))
      → ((next_from compare k es ≡ minus_one) × (entered c es ≡ last_child c es))
        ⊎ ((i : ℕ) × (next_from compare k es ≡ pos (k + i))
            × (next_child (pos i) c es ≡ ok (entered c es)))
  unfolding next_from next_child
  next_from_child k c [] = inl (refl, refl)
  next_from_child k c ((s, r) ∷ es) = elim (Bool-cases (at_least (compare s))) [
    | inl m ↦ inr (0, rw m (ap (λ (n : ℕ). pos n) (omega arith)), rw m refl)
    | inr m ↦ elim (next_from_child (suc k) r es) [
      | inl (h, e) ↦ inl (rw m h, rw m e)
      | inr (i, h, e) ↦ inr (
        suc i,
        rw m (h ∙ ap (λ (n : ℕ). pos n) (omega arith)),
        rw m (next_child-tail i c s r es (entered r es) e),
      )
    ]
  ]

  pub next_child-entered :
      (c : BlkIndex) (es : List (K × BlkIndex))
      → 0 < length es
      → next_child (next_in compare es) c es ≡ ok (entered c es)
  unfolding next_in
  next_child-entered c es l = elim (next_from_child 0 c es) [
    | inl (h, e) ↦ rw (h, e) (next_child-last c c es l)
    | inr (i, h, e) ↦ let z : 0 + i ≡ i = omega arith in rw (h, z) e
  ]

  pub entered-All :
      (P : BlkIndex → Type 0) (c : BlkIndex) (es : List (K × BlkIndex))
      → P c
      → All (λ e. P (e.1)) es
      → P (entered c es)
  entered-All P c [] p h = p
  entered-All P c ((s, r) ∷ es) p h = elim (Bool-cases (at_least (compare s))) [
    | inl m ↦ rw m p
    | inr m ↦ rw m (entered-All P r es h.0 h.1)
  ]

module _ {K : Type 0} (rank : K → ℕ) (fits : K → Type 0) (compare : K → ℤ) (target : ℕ)
    (agrees : (k : K) → fits k → at_least (compare k) ≡ leb target (rank k)) where
  -- The child that is entered has the target in its range, its end included.
  pub Slots-entered :
      (g : Ranges) (lo : ℕ) (c : BlkIndex) (es : List (K × BlkIndex)) (hi : ℕ)
      → lo < target
      → target ≤ hi
      → Slots rank fits g lo c es hi
      → (g.low (entered compare c es) < target) × (target ≤ g.high (entered compare c es))
  Slots-entered g lo c [] hi l u (e, e') = (omega (arith, l, e), omega (arith, u, e'))
  Slots-entered g lo c ((s, r) ∷ es) hi l u (f, e, e', more) =
      elim (Bool-cases (at_least (compare s))) [
        | inl m ↦
            let a : target ≤ rank s = ground (arith, m, agrees s f) in
            rw m (omega (arith, l, e), omega (arith, a, e'))
        | inr m ↦
            let a : rank s < target = ground (arith, m, agrees s f) in
            rw m (Slots-entered g (rank s) r es hi a u more)
      ]

  module _ {V : Type 0} where
    -- What the search of a leaf finds: no entry that is at least the target, or the first.
    abbrev pub FindsAt : ℕ → List (K × V) → ℤ → Type 0
    FindsAt k es z =
        ((z ≡ minus_one) × All (λ x. rank (x.0) < target) es)
        ⊎ ((i : ℕ) × (e : K × V) × (z ≡ pos (k + i))
            × (get_elem? es i ≡ some e)
            × (target ≤ rank (e.0))
            × All (λ x. rank (x.0) < target) (take i es))

    pub next_from-FindsAt :
        (k : ℕ) (es : List (K × V))
        → All (λ e. fits (e.0)) es
        → FindsAt k es (next_from compare k es)
    unfolding next_from
    next_from-FindsAt k [] f = inl (refl, tt)
    next_from-FindsAt k (e ∷ es) (f0, f) = elim (Bool-cases (at_least (compare (e.0)))) [
      | inl m ↦ inr (
        0,
        e,
        rw m (ap (λ (n : ℕ). pos n) (omega arith)),
        refl,
        ground (arith, m, agrees (e.0) f0),
        tt,
      )
      | inr m ↦
          let a : rank (e.0) < target = ground (arith, m, agrees (e.0) f0) in
          elim (next_from-FindsAt (suc k) es f) [
            | inl (h, all) ↦ inl (rw m h, (a, all))
            | inr (i, x, h, g, l, all) ↦
                inr (suc i, x, rw m (h ∙ ap (λ (n : ℕ). pos n) (omega arith)), g, l, (a, all))
          ]
    ]
