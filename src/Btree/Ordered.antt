-- ===== src/Btree/Ordered.antt =====
-- btree.hpp:144-204 and 304-316: the search of a block whose entries are in the order of their keys, and the
-- entry that goes to the place it finds. `rank` puts the keys in order, and `target` is the rank of the key
-- that the comparison is with.
use d3b.Base.{
  ℕ, zero, suc, ◌-◌, refl, ◌≤◌, ◌<◌, ◌≡◌, ap, ◌∙◌, sym, subst, Bool-cases, inl, inr, List, [], ◌∷◌,
  ℤ, length, get_elem?, some, some_eq, take, drop, All, All-mono, leb, ltb, arith,
}
use d3b.Btree.{insert_at}
use d3b.Btree.Search.{at_most, lower_bound}
use d3b.Btree.Split.{after}
use d3b.Btree.Bounds.{upper, upper_le, lower_bound-upper, after-before, All-take}

pub All-get {ℓ κ} :
    {A : Type ℓ} (P : A → Type κ) (i : ℕ) (e : A) (es : List A)
    → get_elem? es i ≡ some e
    → All P es
    → P e
All-get P i e [] q h = absurd (cc)
All-get P zero e (x ∷ es) q h = subst P (some_eq q) h.0
All-get P (suc i) e (x ∷ es) q h = All-get P i e es q h.1

module _ {K : Type 0} (rank : K → ℕ) {A : Type 0} where
  abbrev pub IsOrdered : List (K × A) → Type 0
  IsOrdered [] = Unit
  IsOrdered (e ∷ es) = All (λ x. rank (e.0) ≤ rank (x.0)) es × IsOrdered es

  -- The entries up to index `i` are at most the target, and those behind are above it.
  abbrev pub CutsAt : ℕ → List (K × A) → ℕ → Type 0
  CutsAt target es i =
      All (λ x. rank (x.0) ≤ target) (take i es) × All (λ x. target < rank (x.0)) (drop i es)

  All-insert_at_lem :
      (low target : ℕ) (i : ℕ) (x : K × A) (es : List (K × A))
      → low ≤ rank (x.0)
      → All (λ y. low ≤ rank (y.0)) es
      → All (λ y. low ≤ rank (y.0)) (insert_at i x es)
  unfolding insert_at
  All-insert_at_lem low target zero x es l h = (l, h)
  All-insert_at_lem low target (suc i) x [] l h = (l, tt)
  All-insert_at_lem low target (suc i) x (y ∷ es) l h =
      (h.0, All-insert_at_lem low target i x es l h.1)

  insert_at-IsOrdered :
      (target i : ℕ) (x : K × A) (es : List (K × A))
      → rank (x.0) ≡ target
      → IsOrdered es
      → CutsAt target es i
      → IsOrdered (insert_at i x es)
  unfolding insert_at
  insert_at-IsOrdered target zero x es e h (c, d) =
      (All-mono _ _ es (λ y l. omega (arith, l, e)) d, h)
  insert_at-IsOrdered target (suc i) x [] e h c = (tt, tt)
  insert_at-IsOrdered target (suc i) x (y ∷ es) e (h0, h) ((c0, c), d) = (
    All-insert_at_lem (rank (y.0)) target i x es (omega (arith, c0, e)) h0,
    insert_at-IsOrdered target i x es e h (c, d),
  )

  module _ (fits : K → Type 0) (compare : K → ℤ) (target : ℕ)
      (agrees : (k : K) → fits k → at_most (compare k) ≡ leb (rank k) target) where
    first_le :
        (low i : ℕ) (es : List (K × A))
        → 0 < i
        → i ≤ length es
        → All (λ x. low ≤ rank (x.0)) es
        → All (λ x. rank (x.0) ≤ target) (take i es)
        → low ≤ target
    first_le low zero es z l h c = absurd (omega (arith, z))
    first_le low (suc i) [] z l h c = absurd (omega (arith, l))
    first_le low (suc i) (x ∷ es) z l h c = omega (arith, h.0, c.0)

    pub upper-CutsAt :
        (es : List (K × A))
        → All (λ e. fits (e.0)) es
        → IsOrdered es
        → CutsAt target es (upper compare es)
    upper-CutsAt [] f h = (tt, tt)
    upper-CutsAt (e ∷ es) (f0, f) (h0, h) =
        let (c, d) = upper-CutsAt es f h in
        elim (Bool-cases (ltb 0 (upper compare es))) [
          | inl m ↦ rw m (
            (
              first_le (rank (e.0)) (upper compare es) es (ground (arith, m)) (upper_le compare es)
                  h0 c,
              c,
            ),
            d,
          )
          | inr m ↦
              let z : upper compare es ≡ 0 = ground (arith, m) in
              let d' = subst (λ (i : ℕ). All (λ x. target < rank (x.0)) (drop i es)) z d in
              elim (Bool-cases (at_most (compare (e.0)))) [
                | inl a ↦ rw (m, a) ((ground (arith, a, agrees (e.0) f0), tt), d')
                | inr a ↦ rw (m, a) (tt, (ground (arith, a, agrees (e.0) f0), d'))
              ]
        ]

    pub place : (es : List (K × A)) → after (lower_bound compare es) ≡ upper compare es
    place es = ap after (lower_bound-upper compare es) ∙ after-before (upper compare es)

    -- In a block whose entries are in the order of their keys, lowerBound gives the last of the
    -- entries whose keys are at most the desired one: all entries up to it are, and all behind it are
    -- above, where the comparison agrees with the order.
    pub lower_bound-CutsAt :
        (es : List (K × A))
        → All (λ e. fits (e.0)) es
        → IsOrdered es
        → CutsAt target es (after (lower_bound compare es))
    lower_bound-CutsAt es f h =
        subst (λ (i : ℕ). CutsAt target es i) (sym (place es)) (upper-CutsAt es f h)

    -- An entry that is inserted behind the one that lowerBound gives for its key keeps the entries of
    -- a block in the order of their keys, where the comparison agrees with the order.
    pub insert_at-lower_bound :
        (key : K) (value : A) (es : List (K × A))
        → rank key ≡ target
        → All (λ e. fits (e.0)) es
        → IsOrdered es
        → IsOrdered (insert_at (after (lower_bound compare es)) (key, value) es)
    insert_at-lower_bound key value es e f h =
        insert_at-IsOrdered target (after (lower_bound compare es)) (key, value) es e h
          (lower_bound-CutsAt es f h)

  -- The last entry has the rank `h`.
  abbrev pub EndsAt : ℕ → List (K × A) → Type 0
  EndsAt h [] = ⊥
  EndsAt h (e ∷ []) = rank (e.0) ≡ h
  EndsAt h (e ∷ f ∷ es) = EndsAt h (f ∷ es)

  pub EndsAt-insert_at :
      (target h i : ℕ) (x : K × A) (es : List (K × A))
      → target < h
      → CutsAt target es i
      → EndsAt h es
      → EndsAt h (insert_at i x es)
  unfolding insert_at
  EndsAt-insert_at target h i x [] l c e = absurd e
  EndsAt-insert_at target h zero x (y ∷ es) l c e = e
  EndsAt-insert_at target h (suc i) x (y ∷ []) l ((c0, c), d) e = absurd (omega (arith, c0, e, l))
  EndsAt-insert_at target h (suc zero) x (y ∷ z ∷ es) l c e = e
  EndsAt-insert_at target h (suc (suc i)) x (y ∷ z ∷ es) l ((c0, c), d) e =
      EndsAt-insert_at target h (suc i) x (z ∷ es) l (c, d) e

  pub EndsAt-drop :
      (h i : ℕ) (es : List (K × A)) → i < length es → EndsAt h es → EndsAt h (drop i es)
  EndsAt-drop h zero es l e = e
  EndsAt-drop h (suc i) [] l e = absurd e
  EndsAt-drop h (suc i) (x ∷ []) l e = absurd (omega (arith, l))
  EndsAt-drop h (suc i) (x ∷ y ∷ es) l e = EndsAt-drop h i (y ∷ es) (omega (arith, l)) e

  pub EndsAt-take :
      (i : ℕ) (e : K × A) (es : List (K × A))
      → get_elem? es i ≡ some e
      → EndsAt (rank (e.0)) (take (suc i) es)
  EndsAt-take i e [] q = absurd (cc)
  EndsAt-take zero e (x ∷ es) q = ap (λ (y : K × A). rank (y.0)) (some_eq q)
  EndsAt-take (suc i) e (x ∷ []) q = absurd (cc)
  EndsAt-take (suc i) e (x ∷ y ∷ es) q = EndsAt-take i e (y ∷ es) q

  pub EndsAt-last :
      (h : ℕ) (es : List (K × A))
      → EndsAt h es
      → (e : K × A) × (get_elem? es (length es - 1) ≡ some e) × (rank (e.0) ≡ h) × (0 < length es)
  EndsAt-last h [] q = absurd q
  EndsAt-last h (e ∷ []) q = (e, refl, q, omega arith)
  EndsAt-last h (e ∷ f ∷ es) q =
      let (x, g, r, l) = EndsAt-last h (f ∷ es) q in
      let n : length (e ∷ f ∷ es) - 1 ≡ suc (length (f ∷ es) - 1) = omega arith in
      (x, ap (λ (i : ℕ). get_elem? (e ∷ f ∷ es) i) n ∙ g, r, omega arith)

  -- The entries before one of the list are at most it, and those behind at least.
  pub IsOrdered-around :
      (i : ℕ) (e : K × A) (es : List (K × A))
      → get_elem? es i ≡ some e
      → IsOrdered es
      → All (λ x. rank (x.0) ≤ rank (e.0)) (take (suc i) es)
        × All (λ x. rank (e.0) ≤ rank (x.0)) (drop (suc i) es)
  IsOrdered-around i e [] q h = absurd (cc)
  IsOrdered-around zero e (x ∷ es) q (h0, h) =
      let same = ap (λ (y : K × A). rank (y.0)) (some_eq q) in
      ((omega (arith, same), tt), All-mono _ _ es (λ y l. omega (arith, l, same)) h0)
  IsOrdered-around (suc i) e (x ∷ es) q (h0, h) =
      let (a, b) = IsOrdered-around i e es q h in
      let first : rank (x.0) ≤ rank (e.0) = All-get (λ y. rank (x.0) ≤ rank (y.0)) i e es q h0 in
      ((first, a), b)

  pub IsOrdered-take-drop :
      (i : ℕ) (es : List (K × A)) → IsOrdered es → IsOrdered (take i es) × IsOrdered (drop i es)
  IsOrdered-take-drop zero es h = (tt, h)
  IsOrdered-take-drop (suc i) [] h = (tt, tt)
  IsOrdered-take-drop (suc i) (x ∷ es) (h0, h) =
      let (a, b) = IsOrdered-take-drop i es h in ((All-take _ i es h0, a), b)
