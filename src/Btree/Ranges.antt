-- ===== src/Btree/Ranges.antt =====
-- btree.hpp: the ranges of keys that the blocks of a tree stand for. They are not stored: the block `n` has the
-- ranks from `low n` on and below `high n`, and `next n` is the right neighbour of a leaf.
use d3b.Base.{
  ℕ, zero, suc, ◌≤◌, ◌<◌, ◌≡◌, ◌≢◌, false, true, refl, ap, sym, subst, ◌∙◌, Bool-cases, inl, inr,
  List, [], ◌∷◌, some, some_eq, ok, ok-injective, ℤ, get_elem?, take, drop, All, All-mono, leb, ltb,
  ◌==◌, if◌then◌else◌, arith,
}
use d3b.Btree.{BlkIndex, insert_at}
use d3b.Btree.Search.{at_most, before}
use d3b.Btree.Insert.{child_at}
use d3b.Btree.Bounds.{upper, Nat-cases, All-and}

pub record Ranges : Type 0 where
  pub low : ℕ → ℕ
  pub high : ℕ → ℕ
  pub next : ℕ → ℕ

-- The block `n` keeps the ranks below `sep`, and the new block `new` gets the others.
abbrev pub cut : ℕ → ℕ → ℕ → Ranges → Ranges
cut n new sep g = record {
  low = λ j. if j == new then sep else g.low j;
  high = λ j. if j == new then g.high n else (if j == n then sep else g.high j);
  next = λ j. if j == new then g.next n else (if j == n then new else g.next j);
}

abbrev pub IsRange : Ranges → ℕ → Type 0
IsRange g c = g.low c ≤ g.high c

module _ (n new sep : ℕ) (g : Ranges) where
  pub low_new : (cut n new sep g).low new ≡ sep
  low_new = ground arith

  pub high_new : (cut n new sep g).high new ≡ g.high n
  high_new = ground arith

  pub high_cut : n ≢ new → (cut n new sep g).high n ≡ sep
  high_cut o = ground (arith, o)

  pub low_old : (c : ℕ) → c ≢ new → (cut n new sep g).low c ≡ g.low c
  low_old c o = ground (arith, o)

  pub high_old : (c : ℕ) → c ≢ n → c ≢ new → (cut n new sep g).high c ≡ g.high c
  high_old c o o' = ground (arith, o, o')

  pub high_self : (c : ℕ) → c ≡ n → n ≢ new → (cut n new sep g).high c ≡ sep
  high_self c e o = ground (arith, o, e)

abbrev pub IsInside : Ranges → ℕ → ℕ → BlkIndex → Type 0
IsInside g lo hi c = (lo ≤ g.low c) × (g.high c ≤ hi)

abbrev pub IsOther : ℕ → ℕ → BlkIndex → Type 0
IsOther n new c = (c ≢ n) × (c ≢ new)

module _ {K : Type 0} (rank : K → ℕ) (fits : K → Type 0) where
  -- The children of an inner block share out the ranks from `lo` to `hi`.
  abbrev pub Slots : Ranges → ℕ → BlkIndex → List (K × BlkIndex) → ℕ → Type 0
  Slots g lo c [] hi = (g.low c ≡ lo) × (g.high c ≡ hi)
  Slots g lo c ((s, r) ∷ es) hi =
      fits s × (g.low c ≡ lo) × (g.high c ≡ rank s) × Slots g (rank s) r es hi

  pub Slots-IsInside :
      (g : Ranges) (lo : ℕ) (c : BlkIndex) (es : List (K × BlkIndex)) (hi : ℕ)
      → IsRange g c
      → All (λ e. IsRange g (e.1)) es
      → Slots g lo c es hi
      → (lo ≤ hi) × IsInside g lo hi c × All (λ e. IsInside g lo hi (e.1)) es
  Slots-IsInside g lo c [] hi b bs (l, h) =
      (omega (arith, l, h, b), (omega (arith, l), omega (arith, h)), tt)
  Slots-IsInside g lo c ((s, r) ∷ es) hi b (b0, bs) (f, l, h, more) =
      let (le, (i0, i1), is) = Slots-IsInside g (rank s) r es hi b0 bs more in
      (
        omega (arith, l, h, le, b),
        (omega (arith, l), omega (arith, h, le)),
        (
          (omega (arith, l, h, b, i0), i1),
          All-mono _ _ es (λ e (j0, j1). (omega (arith, j0, l, h, b), j1)) is,
        ),
      )

  pub Slots-frame :
      (n new sep : ℕ) (g : Ranges) (lo : ℕ) (c : BlkIndex) (es : List (K × BlkIndex)) (hi : ℕ)
      → IsOther n new c
      → All (λ e. IsOther n new (e.1)) es
      → Slots g lo c es hi
      → Slots (cut n new sep g) lo c es hi
  Slots-frame n new sep g lo c [] hi (o, o') os (l, h) =
      (ground (arith, o', l), ground (arith, o, o', h))
  Slots-frame n new sep g lo c ((s, r) ∷ es) hi (o, o') (o0, os) (f, l, h, more) = (
    f,
    ground (arith, o', l),
    ground (arith, o, o', h),
    Slots-frame n new sep g (rank s) r es hi o0 os more,
  )

  -- The two parts around an entry.
  pub Slots-take-drop :
      (g : Ranges) (i lo : ℕ) (c : BlkIndex) (es : List (K × BlkIndex)) (hi : ℕ) (e : K × BlkIndex)
      → get_elem? es i ≡ some e
      → Slots g lo c es hi
      → fits (e.0)
        × Slots g lo c (take i es) (rank (e.0))
        × Slots g (rank (e.0)) (e.1) (drop (suc i) es) hi
  Slots-take-drop g i lo c [] hi e q h = absurd (cc)
  Slots-take-drop g zero lo c ((s, r) ∷ es) hi e q (f, l, h, more) =
      let same : (s, r) ≡ e = some_eq q in
      subst
        (λ (x : K × BlkIndex).
          fits (x.0) × Slots g lo c [] (rank (x.0)) × Slots g (rank (x.0)) (x.1) es hi)
        same (f, (l, h), more)
  Slots-take-drop g (suc i) lo c ((s, r) ∷ es) hi e q (f, l, h, more) =
      let (fe, a, b) = Slots-take-drop g i (rank s) r es hi e q more in (fe, (f, l, h, a), b)

  child_at-tail :
      (i : ℕ) (c : BlkIndex) (s : K) (r : BlkIndex) (es : List (K × BlkIndex)) (n : BlkIndex)
      → child_at (before (suc i)) c ((s, r) ∷ es) ≡ ok n
      → child_at (before i) r es ≡ ok n
  unfolding child_at
  child_at-tail zero c s r es n at = at
  child_at-tail (suc i) c s r es n at = at

  -- The child at an index is one of the children.
  pub Slots-child :
      (g : Ranges) (lo : ℕ) (c : BlkIndex) (es : List (K × BlkIndex)) (hi i : ℕ) (n : BlkIndex)
      → child_at (before i) c es ≡ ok n
      → IsRange g c
      → All (λ e. IsRange g (e.1)) es
      → Slots g lo c es hi
      → IsInside g lo hi n
  unfolding child_at
  Slots-child g lo c es hi zero n at b bs h =
      let (le, is, all) = Slots-IsInside g lo c es hi b bs h in
      subst (λ (x : BlkIndex). IsInside g lo hi x) (ok-injective at) is
  Slots-child g lo c [] hi (suc i) n at b bs h = absurd (cc)
  Slots-child g lo c ((s, r) ∷ es) hi (suc i) n at b (b0, bs) (f, l, h, more) =
      let (j0, j1) =
        Slots-child g (rank s) r es hi i n (child_at-tail i c s r es n at) b0 bs more in
      (omega (arith, j0, l, h, b), j1)

  not_cut : (g : Ranges) (n lo c : ℕ) → g.low n < g.high n → g.high n ≡ lo → lo ≤ g.low c → c ≢ n
  not_cut g n lo c wide e l = λ q. absurd (omega (arith, wide, e, l, ap g.low q))

  -- The new block comes behind the one that was cut.
  pub Slots-insert_at :
      (n new : ℕ) (key : K) (g : Ranges) (i lo : ℕ) (c : BlkIndex) (es : List (K × BlkIndex))
      (hi : ℕ)
      → fits key
      → g.low n < g.high n
      → child_at (before i) c es ≡ ok n
      → n ≢ new
      → IsRange g c
      → c ≢ new
      → All (λ e. IsRange g (e.1)) es
      → All (λ e. e.1 ≢ new) es
      → Slots g lo c es hi
      → Slots (cut n new (rank key) g) lo c (insert_at i (key, new) es) hi
  unfolding child_at insert_at
  Slots-insert_at n new key g zero lo c [] hi f wide at o b on bs os (l, h) =
      let e : c ≡ n = ok-injective at in
      (
        f,
        low_old n new (rank key) g c on ∙ l,
        high_self n new (rank key) g c e o,
        (low_new n new (rank key) g, high_new n new (rank key) g ∙ ap g.high (sym e) ∙ h),
      )
  Slots-insert_at n new key g zero lo c ((s, r) ∷ es) hi f wide at o b on (b0, bs) (o0, os)
        (f', l, h, more) =
      let e : c ≡ n = ok-injective at in
      let (le, (i0, i1), is) = Slots-IsInside g (rank s) r es hi b0 bs more in
      let end : g.high n ≡ rank s = ap g.high (sym e) ∙ h in
      let others =
        All-mono _ _ es
          (λ (x : K × BlkIndex) (y : IsInside g (rank s) hi (x.1)).
            not_cut g n (rank s) (x.1) wide end y.0)
          is in
      (
        f,
        low_old n new (rank key) g c on ∙ l,
        high_self n new (rank key) g c e o,
        (
          f',
          low_new n new (rank key) g,
          high_new n new (rank key) g ∙ end,
          Slots-frame n new (rank key) g (rank s) r es hi (not_cut g n (rank s) r wide end i0, o0)
              (All-and _ _ es others os) more,
        ),
      )
  Slots-insert_at n new key g (suc i) lo c [] hi f wide at o b on bs os (l, h) = absurd (cc)
  Slots-insert_at n new key g (suc i) lo c ((s, r) ∷ es) hi f wide at o b on (b0, bs) (o0, os)
        (f', l, h, more) =
      let at' : child_at (before i) r es ≡ ok n = child_at-tail i c s r es n at in
      let inside = Slots-child g (rank s) r es hi i n at' b0 bs more in
      let other : c ≢ n =
        λ q. absurd (omega (arith, inside.0, h, b, wide, ap g.high q, ap g.low q)) in
      (
        f',
        low_old n new (rank key) g c on ∙ l,
        high_old n new (rank key) g c other on ∙ h,
        Slots-insert_at n new key g i (rank s) r es hi f wide at' o b0 o0 bs os more,
      )

  -- The child that the search enters: the target is in its range.
  module _ (compare : K → ℤ) (target : ℕ)
      (agrees : (k : K) → fits k → at_most (compare k) ≡ leb (rank k) target) where
    upper-above :
        (g : Ranges) (lo : ℕ) (c : BlkIndex) (es : List (K × BlkIndex)) (hi : ℕ)
        → target < lo
        → IsRange g c
        → All (λ e. IsRange g (e.1)) es
        → Slots g lo c es hi
        → upper compare es ≡ 0
    upper-above g lo c [] hi l b bs h = refl
    upper-above g lo c ((s, r) ∷ es) hi l b (b0, bs) (f, e, e', more) =
        let a : target < rank s = omega (arith, l, b, e, e') in
        let z = upper-above g (rank s) r es hi a b0 bs more in
        let m : at_most (compare s) ≡ false = agrees s f ∙ ground (arith, a) in rw (z, m) refl

    pos : (k : ℕ) → ltb 0 (suc k) ≡ true
    pos k = ground arith

    -- The search goes on behind an entry at most the target.
    child_at-upper :
        (c : BlkIndex) (s : K) (r : BlkIndex) (es : List (K × BlkIndex)) (n : BlkIndex)
        → at_most (compare s) ≡ true
        → child_at (before (upper compare es)) r es ≡ ok n
        → child_at (before (upper compare ((s, r) ∷ es))) c ((s, r) ∷ es) ≡ ok n
    unfolding child_at
    child_at-upper c s r es n m found = elim (Nat-cases (upper compare es)) [
      | inl z ↦ let found' = (rw z at found) in rw (z, m) found'
      | inr (k, z) ↦ let found' = (rw z at found) in rw (z, pos k) found'
    ]

    pub Slots-upper :
        (g : Ranges) (lo : ℕ) (c : BlkIndex) (es : List (K × BlkIndex)) (hi : ℕ)
        → lo ≤ target
        → target < hi
        → IsRange g c
        → All (λ e. IsRange g (e.1)) es
        → Slots g lo c es hi
        → (n : BlkIndex) × (child_at (before (upper compare es)) c es ≡ ok n)
          × (g.low n ≤ target)
          × (target < g.high n)
    unfolding child_at
    Slots-upper g lo c [] hi l u b bs (e, e') = (c, refl, omega (arith, l, e), omega (arith, u, e'))
    Slots-upper g lo c ((s, r) ∷ es) hi l u b (b0, bs) (f, e, e', more) =
        elim (Bool-cases (leb (rank s) target)) [
          | inl t ↦
              let (n, at, n0, n1) =
                Slots-upper g (rank s) r es hi (ground (arith, t)) u b0 bs more in
              (n, child_at-upper c s r es n (agrees s f ∙ t) at, n0, n1)
          | inr t ↦
              let a : target < rank s = ground (arith, t) in
              let z = upper-above g (rank s) r es hi a b0 bs more in
              let m : at_most (compare s) ≡ false = agrees s f ∙ t in
              (c, rw (z, m) refl, omega (arith, l, e), omega (arith, a, e'))
        ]
