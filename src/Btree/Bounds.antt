-- ===== src/Btree/Bounds.antt =====
-- btree.hpp:144-204: the search of one block, written over the list of its entries.
use d3b.Base.{
  ℕ, zero, suc, ◌≤◌, ◌<◌, ◌≡◌, refl, ap, subst, ◌∙◌, sym, Bool-cases, Option-cases, ◌⊎◌, inl, inr,
  List, [], ◌∷◌, none, some, ok, ℤ, length, get_elem?, take, drop, All, ltb, if◌then◌else◌, arith,
}
use d3b.Btree.{BlkIndex, insert_at}
use d3b.Btree.Search.{at_most, before, lower_index, lower_bound}
use d3b.Btree.Split.{after}
use d3b.Btree.Insert.{child_at}

pub Nat-cases : (n : ℕ) → (n ≡ 0) ⊎ ((k : ℕ) × (n ≡ suc k))
Nat-cases zero = inl refl
Nat-cases (suc k) = inr (k, refl)

module _ {K : Type 0} {A : Type 0} (compare : K → ℤ) where
  -- One more than the index of the last entry that the comparison does not put after the desired key.
  abbrev pub upper : List (K × A) → ℕ
  upper [] = 0
  upper (e ∷ es) =
      if ltb 0 (upper es) then suc (upper es) else (if at_most (compare (e.0)) then 1 else 0)

  lower_index-none :
      (n : ℕ) (es : List (K × A))
      → get_elem? es n ≡ none
      → lower_index compare (suc n) es ≡ lower_index compare n es
  unfolding lower_index
  lower_index-none n es h = rw (h, lower_index) refl

  lower_index-some :
      (n : ℕ) (es : List (K × A)) (a : K × A)
      → get_elem? es n ≡ some a
      → lower_index compare (suc n) es
        ≡ (if at_most (compare (a.0)) then suc n else lower_index compare n es)
  unfolding lower_index
  lower_index-some n es a h = rw (h, lower_index) refl

  lower_index_one :
      (e : K × A) (es : List (K × A))
      → lower_index compare 1 (e ∷ es) ≡ (
          if ltb 0 (lower_index compare 0 es)
          then suc (lower_index compare 0 es)
          else (if at_most (compare (e.0)) then 1 else 0))
  unfolding lower_index
  lower_index_one e es = ground arith

  lower_index_cons :
      (n : ℕ) (e : K × A) (es : List (K × A))
      → lower_index compare (suc n) (e ∷ es) ≡ (
          if ltb 0 (lower_index compare n es)
          then suc (lower_index compare n es)
          else (if at_most (compare (e.0)) then 1 else 0))
  lower_index_cons zero e es = lower_index_one e es
  lower_index_cons (suc n) e es =
      let ih = lower_index_cons n e es in
      elim (Option-cases (get_elem? es n)) [
        | inl h ↦ rw (lower_index-none (suc n) (e ∷ es) h, lower_index-none n es h) ih
        | inr (a, h) ↦
            let l = lower_index-some (suc n) (e ∷ es) a h in
            let r = lower_index-some n es a h in
            elim (Bool-cases (at_most (compare (a.0)))) [
              | inl m ↦ rw (l, r, m) (ground arith)
              | inr m ↦ rw (l, r, m) ih
            ]
      ]

  pub lower_index-upper : (es : List (K × A)) → lower_index compare (length es) es ≡ upper es
  unfolding lower_index
  lower_index-upper [] = refl
  lower_index-upper (e ∷ es) = lower_index_cons (length es) e es ∙ rw (lower_index-upper es) refl

  pub lower_bound-upper : (es : List (K × A)) → lower_bound compare es ≡ before (upper es)
  unfolding lower_bound
  lower_bound-upper es = ap before (lower_index-upper es)

  pub upper_le : (es : List (K × A)) → upper es ≤ length es
  upper_le [] = omega arith
  upper_le (e ∷ es) = ground (arith, upper_le es)

  upper-suc :
      (k : ℕ) (e : K × A) (es : List (K × A)) → upper es ≡ suc k → upper (e ∷ es) ≡ suc (suc k)
  upper-suc k e es h = ground (arith, h)

  upper-zero :
      (e : K × A) (es : List (K × A))
      → upper es ≡ 0
      → upper (e ∷ es) ≡ (if at_most (compare (e.0)) then 1 else 0)
  upper-zero e es h = ground (arith, h)

  abbrev pub next : K × A → ℕ → ℕ
  next x i = if at_most (compare (x.0)) then suc i else i

  at_index :
      (i : ℕ) (x e : K × A) (es : List (K × A))
      → upper (e ∷ es) ≡ i
      → upper (insert_at i x (e ∷ es)) ≡ next x i
      → upper (insert_at (upper (e ∷ es)) x (e ∷ es)) ≡ next x (upper (e ∷ es))
  at_index i x e es u p = subst (λ (j : ℕ). upper (insert_at j x (e ∷ es)) ≡ next x j) (sym u) p

  upper-insert_suc :
      (k : ℕ) (x e : K × A) (es : List (K × A))
      → upper es ≡ suc k
      → upper (insert_at (upper es) x es) ≡ next x (upper es)
      → upper (insert_at (upper (e ∷ es)) x (e ∷ es)) ≡ next x (upper (e ∷ es))
  unfolding insert_at
  upper-insert_suc k x e es h ih =
      let ih' = (rw h at ih) in
      at_index (suc (suc k)) x e es (upper-suc k e es h) (ground (arith, ih'))

  upper-insert_zero :
      (x e : K × A) (es : List (K × A))
      → upper es ≡ 0
      → upper (insert_at (upper (e ∷ es)) x (e ∷ es)) ≡ next x (upper (e ∷ es))
  unfolding insert_at
  upper-insert_zero x e es h = elim (Bool-cases (at_most (compare (e.0)))) [
    | inl m ↦
        let u : upper (e ∷ es) ≡ 1 = upper-zero e es h ∙ rw m refl in
        at_index 1 x e es u (ground (arith, upper-zero x es h))
    | inr m ↦
        let u : upper (e ∷ es) ≡ 0 = upper-zero e es h ∙ rw m refl in
        at_index 0 x e es u (ground (arith, u, upper-zero x (e ∷ es) u))
  ]

  -- The entry that is inserted after the one found is the next one found, or the same one is.
  pub upper-insert_at :
      (x : K × A) (es : List (K × A)) → upper (insert_at (upper es) x es) ≡ next x (upper es)
  unfolding insert_at
  upper-insert_at x [] = ground arith
  upper-insert_at x (e ∷ es) = elim (Nat-cases (upper es)) [
    | inl h ↦ upper-insert_zero x e es h
    | inr (k, h) ↦ upper-insert_suc k x e es h (upper-insert_at x es)
  ]

pub after-before : (i : ℕ) → after (before i) ≡ i
after-before zero = refl
after-before (suc i) = refl

get_elem?-insert_at_self {ℓ} :
    {A : Type ℓ} (i : ℕ) (x : A) (xs : List A)
    → i ≤ length xs
    → get_elem? (insert_at i x xs) i ≡ some x
unfolding insert_at
get_elem?-insert_at_self zero x xs h = refl
get_elem?-insert_at_self (suc i) x [] h = absurd (omega (arith, h))
get_elem?-insert_at_self (suc i) x (y ∷ xs) h = get_elem?-insert_at_self i x xs (omega (arith, h))

get_elem?-insert_at_below {ℓ} :
    {A : Type ℓ} (i : ℕ) (x : A) (xs : List A)
    → suc i ≤ length xs
    → get_elem? (insert_at (suc i) x xs) i ≡ get_elem? xs i
unfolding insert_at
get_elem?-insert_at_below i x [] h = absurd (omega (arith, h))
get_elem?-insert_at_below zero x (y ∷ xs) h = refl
get_elem?-insert_at_below (suc i) x (y ∷ xs) h = get_elem?-insert_at_below i x xs (omega (arith, h))

pub length-insert_at {ℓ} :
    {A : Type ℓ} (i : ℕ) (x : A) (xs : List A) → length (insert_at i x xs) ≡ suc (length xs)
unfolding insert_at
length-insert_at zero x xs = refl
length-insert_at (suc i) x [] = refl
length-insert_at (suc i) x (y ∷ xs) = ap suc (length-insert_at i x xs)

pub All-insert_at {ℓ κ} :
    {A : Type ℓ} (P : A → Type κ) (i : ℕ) (x : A) (xs : List A)
    → P x
    → All P xs
    → All P (insert_at i x xs)
unfolding insert_at
All-insert_at P zero x xs p h = (p, h)
All-insert_at P (suc i) x [] p h = (p, tt)
All-insert_at P (suc i) x (y ∷ xs) p h = (h.0, All-insert_at P i x xs p h.1)

pub All-and {ℓ κ} :
    {A : Type ℓ} (P Q : A → Type κ) (xs : List A) → All P xs → All Q xs → All (λ x. P x × Q x) xs
All-and P Q [] h k = tt
All-and P Q (x ∷ xs) h k = ((h.0, k.0), All-and P Q xs h.1 k.1)

pub All-take {ℓ κ} :
    {A : Type ℓ} (P : A → Type κ) (n : ℕ) (xs : List A) → All P xs → All P (take n xs)
All-take P zero xs h = tt
All-take P (suc n) [] h = tt
All-take P (suc n) (x ∷ xs) h = (h.0, All-take P n xs h.1)

pub All-drop {ℓ κ} :
    {A : Type ℓ} (P : A → Type κ) (n : ℕ) (xs : List A) → All P xs → All P (drop n xs)
All-drop P zero xs h = h
All-drop P (suc n) [] h = tt
All-drop P (suc n) (x ∷ xs) h = All-drop P n xs h.1

pub get_elem?-All {ℓ κ} :
    {A : Type ℓ} (P : A → Type κ) (n : ℕ) (xs : List A)
    → n < length xs
    → All P xs
    → (x : A) × (get_elem? xs n ≡ some x) × P x
get_elem?-All P n [] l h = absurd (omega (arith, l))
get_elem?-All P zero (x ∷ xs) l h = (x, refl, h.0)
get_elem?-All P (suc n) (x ∷ xs) l h = get_elem?-All P n xs (omega (arith, l)) h.1

module _ {K : Type 0} where
  -- The child that is found is one of the block.
  pub child_at_lem :
      (P : BlkIndex → Type 0) (i : ℕ) (lref : BlkIndex) (es : List (K × BlkIndex))
      → i ≤ length es
      → P lref
      → All (λ e. P (e.1)) es
      → (c : BlkIndex) × (child_at (before i) lref es ≡ ok c) × P c
  unfolding child_at
  child_at_lem P zero lref es l p h = (lref, refl, p)
  child_at_lem P (suc i) lref es l p h =
      let (x, e, q) = get_elem?-All (λ e. P (e.1)) i es (omega (arith, l)) h in (x.1, rw e refl, q)

  child_at-below :
      (x : K × BlkIndex) (i : ℕ) (lref : BlkIndex) (es : List (K × BlkIndex))
      → i ≤ length es
      → child_at (before i) lref (insert_at i x es) ≡ child_at (before i) lref es
  unfolding child_at
  child_at-below x zero lref es l = refl
  child_at-below x (suc i) lref es l = rw (get_elem?-insert_at_below i x es l) refl

  pub child_at-insert_at :
      (compare : K → ℤ) (x : K × BlkIndex) (i : ℕ) (lref : BlkIndex) (es : List (K × BlkIndex))
      → i ≤ length es
      → child_at (before (next compare x i)) lref (insert_at i x es)
        ≡ (if at_most (compare (x.0)) then ok (x.1) else child_at (before i) lref es)
  unfolding child_at
  child_at-insert_at compare x i lref es l = elim (Bool-cases (at_most (compare (x.0)))) [
    | inl m ↦ rw (m, get_elem?-insert_at_self i x es l) refl
    | inr m ↦ rw m (child_at-below x i lref es l)
  ]
