-- ===== src/Btree/Contents.antt =====
-- btree.hpp: the entries of all leaves of a tree, counted by a test.
use d3b.Base.{
  ℕ, zero, suc, ◌+◌, ◌<◌, ◌≤◌, ◌≡◌, refl, ap, ◌∙◌, sym, Bool, true, false, Bool-cases, inl, inr,
  List, [], ◌∷◌, Option, none, some, Map, find, assign, find-assign, get_elem?, some_eq, take, drop,
  ◌==◌, if◌then◌else◌, arith,
}
use d3b.Btree.{Block, leaf, inner, Btree, insert_at}

-- How many elements pass a test.
abbrev pub tally : {A : Type 0} → (A → Bool) → List A → ℕ
tally p [] = 0
tally p (x ∷ xs) = (if p x then 1 else 0) + tally p xs

pub tally-take-drop :
    {A : Type 0} (p : A → Bool) (n : ℕ) (xs : List A)
    → tally p (take n xs) + tally p (drop n xs) ≡ tally p xs
tally-take-drop p zero xs = omega arith
tally-take-drop p (suc n) [] = omega arith
tally-take-drop p (suc n) (x ∷ xs) = omega (arith, tally-take-drop p n xs)

pub tally-insert_at :
    {A : Type 0} (p : A → Bool) (n : ℕ) (x : A) (xs : List A)
    → tally p (insert_at n x xs) ≡ (if p x then 1 else 0) + tally p xs
unfolding insert_at
tally-insert_at p zero x xs = refl
tally-insert_at p (suc n) x [] = refl
tally-insert_at p (suc n) x (y ∷ xs) = omega (arith, tally-insert_at p n x xs)

module _ {K : Type 0} {V : Type 0} (p : K × V → Bool) where
  abbrev pub weigh : Block K V → ℕ
  weigh (leaf left right es) = tally p es
  weigh (inner lref es) = 0

  abbrev pub weigh_page : Option (Block K V) → ℕ
  weigh_page none = 0
  weigh_page (some b) = weigh b

  -- The entries of the leaves with numbers below `count`.
  abbrev pub total : ℕ → Map (Block K V) → ℕ
  total zero pages = 0
  total (suc n) pages = weigh_page (find n pages) + total n pages

  pub total_ext :
      (count : ℕ) (pages pages' : Map (Block K V))
      → ((j : ℕ) → j < count → find j pages' ≡ find j pages)
      → total count pages' ≡ total count pages
  total_ext zero pages pages' h = refl
  total_ext (suc n) pages pages' h =
      let e = ap (λ (o : Option (Block K V)). weigh_page o) (h n (omega arith)) in
      omega (arith, e, total_ext n pages pages' (λ j l. h j (omega (arith, l))))

  total-initialize :
      (count n : ℕ) (b : Block K V) (pages : Map (Block K V))
      → count ≤ n
      → total count ((n, b) ∷ pages) ≡ total count pages
  unfolding find
  total-initialize count n b pages h =
      total_ext count pages ((n, b) ∷ pages)
        (λ j l. let o : (n == j) ≡ false = ground (arith, l, h) in rw o refl)

  pub total-grow :
      (n : ℕ) (b : Block K V) (pages : Map (Block K V))
      → total (suc n) ((n, b) ∷ pages) ≡ weigh b + total n pages
  unfolding find
  total-grow n b pages =
      let s : (n == n) ≡ true = ground arith in
      let e : weigh_page (find n ((n, b) ∷ pages)) ≡ weigh b = rw s refl in
      omega (arith, e, total-initialize n n b pages (omega arith))

  total-assign_past :
      (count n : ℕ) (b : Block K V) (pages : Map (Block K V))
      → count ≤ n
      → total count (assign n b pages) ≡ total count pages
  total-assign_past count n b pages h = total_ext count pages (assign n b pages) (λ j l.
      let o : (n == j) ≡ false = ground (arith, l, h) in find-assign j n b pages ∙ rw o refl)

  -- A block that takes the place of another.
  pub total-assign :
      (count n : ℕ) (old b : Block K V) (pages : Map (Block K V))
      → n < count
      → find n pages ≡ some old
      → total count (assign n b pages) + weigh old ≡ total count pages + weigh b
  total-assign zero n old b pages l f = absurd (omega (arith, l))
  total-assign (suc m) n old b pages l f = elim (Bool-cases (n == m)) [
    | inl same ↦
        let e : n ≡ m = ground (arith, same) in
        let after : find m (assign n b pages) ≡ some b =
          find-assign m n b pages
          ∙ rw same (
              ap (λ (o : Option (Block K V)). elim o [ none ↦ none | some _ ↦ some b ])
                (ap (λ (j : ℕ). find j pages) (sym e) ∙ f)) in
        let a = ap (λ (o : Option (Block K V)). weigh_page o) after in
        let before =
          ap (λ (o : Option (Block K V)). weigh_page o)
            (ap (λ (j : ℕ). find j pages) (sym e) ∙ f) in
        omega (arith, a, before, total-assign_past m n b pages (omega (arith, e)))
    | inr other ↦
        let same_page : find m (assign n b pages) ≡ find m pages =
          find-assign m n b pages ∙ rw other refl in
        let a = ap (λ (o : Option (Block K V)). weigh_page o) same_page in
        omega (arith, a, total-assign m n old b pages (ground (arith, l, other)) f)
  ]

  pub total-halves :
      (count n : ℕ) (old front back : Block K V) (pages : Map (Block K V))
      → n < count
      → find n pages ≡ some old
      → weigh front + weigh back ≡ weigh old
      → total (suc count) ((count, back) ∷ assign n front pages) ≡ total count pages
  total-halves count n old front back pages l f w = omega (
    arith,
    w,
    total-grow count back (assign n front pages),
    total-assign count n old front pages l f,
  )

module _ {K : Type 0} {V : Type 0} where
  -- The same entries are in the leaves.
  abbrev pub Keeps : ℕ → Map (Block K V) → ℕ → Map (Block K V) → Type 0
  Keeps count pages count' pages' = (p : K × V → Bool) → total p count' pages' ≡ total p count pages

  -- One entry more is in the leaves.
  abbrev pub Adds : K → V → Btree K V → Btree K V → Type 0
  Adds key value t t' =
      (p : K × V → Bool)
      → total p t'.num_blocks t'.pages
        ≡ (if p (key, value) then 1 else 0) + total p t.num_blocks t.pages

  -- The entry is in a leaf: every test that it passes is passed.
  abbrev pub IsStored : Btree K V → K × V → Type 0
  IsStored t e = (p : K × V → Bool) → (if p e then 1 else 0) ≤ total p t.num_blocks t.pages

  tally_get :
      (p : K × V → Bool) (i : ℕ) (e : K × V) (es : List (K × V))
      → get_elem? es i ≡ some e
      → (if p e then 1 else 0) ≤ tally p es
  tally_get p i e [] q = absurd (cc)
  tally_get p zero e (x ∷ es) q =
      let same = ap (λ (y : K × V). tally p (y ∷ [])) (some_eq q) in omega (arith, same)
  tally_get p (suc i) e (x ∷ es) q = omega (arith, tally_get p i e es q)

  weigh_le :
      (p : K × V → Bool) (count n : ℕ) (pages : Map (Block K V))
      → n < count
      → weigh_page p (find n pages) ≤ total p count pages
  weigh_le p zero n pages l = absurd (omega (arith, l))
  weigh_le p (suc m) n pages l = elim (Bool-cases (n == m)) [
    | inl same ↦
        let e : n ≡ m = ground (arith, same) in
        let w = ap (λ (k : ℕ). weigh_page p (find k pages)) e in omega (arith, w)
    | inr other ↦ omega (arith, weigh_le p m n pages (ground (arith, l, other)))
  ]

  pub IsStored-find :
      (n left right i : ℕ) (es : List (K × V)) (e : K × V) (t : Btree K V)
      → n < t.num_blocks
      → find n t.pages ≡ some (leaf left right es)
      → get_elem? es i ≡ some e
      → IsStored t e
  IsStored-find n left right i es e t l f q p =
      let w = ap (λ (o : Option (Block K V)). weigh_page p o) f in
      omega (arith, w, weigh_le p t.num_blocks n t.pages l, tally_get p i e es q)
