-- ===== src/PageCache/Queue.antt =====
-- page-cache.cpp:35-91: the links of the items make a list, from the item used the least recently to the one
-- used the most recently, with the sentinel at both ends.
use d3b.Base.{ℕ, ◌≡◌, ◌≢◌, sym, List, [], ◌∷◌, ◌++◌, All, arith}
use d3b.PageCache.Host.{put_at}

abbrev pub Chain : (ℕ → ℕ) → (ℕ → ℕ) → ℕ → List ℕ → Type 0
Chain more less prev [] = (more prev ≡ 0) × (less 0 ≡ prev)
Chain more less prev (x ∷ xs) = (more prev ≡ x) × (less x ≡ prev) × Chain more less x xs

abbrev pub Avoids : ℕ → List ℕ → Type 0
Avoids k xs = All (λ x. k ≢ x) xs

abbrev pub AreDistinct : List ℕ → Type 0
AreDistinct [] = Unit
AreDistinct (x ∷ xs) = Avoids x xs × AreDistinct xs

pub put_at_other {ℓ} : {A : Type ℓ} (k j : ℕ) (v : A) (f : ℕ → A) → k ≢ j → put_at k v f j ≡ f j
put_at_other k j v f h = ground (arith, h)

pub put_at_self {ℓ} : {A : Type ℓ} (k : ℕ) (v : A) (f : ℕ → A) → put_at k v f k ≡ v
put_at_self k v f = ground arith

-- The sentinel's link leads to the last item, which is one of the list.
last-Avoids :
    (more less : ℕ → ℕ) (k prev : ℕ) (xs : List ℕ)
    → k ≢ prev
    → Avoids k xs
    → Chain more less prev xs
    → k ≢ less 0
last-Avoids more less k prev [] h a (c0, c1) = λ e. h (cc)
last-Avoids more less k prev (x ∷ xs) h (a0, a) (c0, c1, c) = last-Avoids more less k x xs a0 a c

module _ (more less : ℕ → ℕ) (item : ℕ) (item_pos : item ≢ 0) where
  abbrev appended_more : ℕ → ℕ
  appended_more = put_at (put_at item (less 0) less 0) item (put_at item 0 more)

  abbrev appended_less : ℕ → ℕ
  appended_less = put_at 0 item (put_at item (less 0) less)

  pub insert_last-Chain :
      (prev : ℕ) (xs : List ℕ)
      → item ≢ prev
      → Avoids item xs
      → Avoids prev xs
      → AreDistinct xs
      → Avoids 0 xs
      → Chain more less prev xs
      → Chain appended_more appended_less prev (xs ++ item ∷ [])
  insert_last-Chain prev [] h a p d z (c0, c1) = (
    ground (arith, c1, h, item_pos),
    ground (arith, c1, item_pos),
    (ground (arith, c1, h, item_pos), ground arith),
  )
  insert_last-Chain prev (x ∷ xs) h (a0, a) (p0, p) (d0, d) (z0, z) (c0, c1, c) =
      let far = last-Avoids more less prev x xs p0 p c in
      (
        ground (arith, c0, far, h, item_pos),
        ground (arith, c1, a0, z0),
        insert_last-Chain x xs a0 a d0 d z c,
      )

less-Avoids :
    (more less : ℕ → ℕ) (item k prev : ℕ) (front back : List ℕ)
    → k ≢ prev
    → Avoids k (front ++ item ∷ back)
    → Chain more less prev (front ++ item ∷ back)
    → k ≢ less item
less-Avoids more less item k prev [] back h a (c0, c1, c) = λ e. h (cc)
less-Avoids more less item k prev (x ∷ front) back h (a0, a) (c0, c1, c) =
    less-Avoids more less item k x front back a0 a c

more-Avoids :
    (more less : ℕ → ℕ) (item k prev : ℕ) (front back : List ℕ)
    → k ≢ 0
    → Avoids k (front ++ item ∷ back)
    → Chain more less prev (front ++ item ∷ back)
    → k ≢ more item
more-Avoids more less item k prev [] [] h a (c0, c1, (c2, c3)) = λ e. h (cc)
more-Avoids more less item k prev [] (x ∷ back) h (a0, (a1, a)) (c0, c1, (c2, c3, c)) = λ e. a1 (cc)
more-Avoids more less item k prev (x ∷ front) back h (a0, a) (c0, c1, c) =
    more-Avoids more less item k x front back h a c

module _ (more less : ℕ → ℕ) (item : ℕ) where
  abbrev unlinked_more : ℕ → ℕ
  unlinked_more = put_at (less item) (more item) more

  abbrev unlinked_less : ℕ → ℕ
  unlinked_less = put_at (more item) (less item) less

  -- Behind the item nothing changes.
  Chain-behind :
      (prev : ℕ) (xs : List ℕ)
      → less item ≢ prev
      → Avoids (less item) xs
      → Avoids (more item) xs
      → more item ≢ 0
      → Chain more less prev xs
      → Chain unlinked_more unlinked_less prev xs
  Chain-behind prev [] h a b z (c0, c1) = (ground (arith, h, c0), ground (arith, z, c1))
  Chain-behind prev (x ∷ xs) h (a0, a) (b0, b) z (c0, c1, c) =
      (ground (arith, h, c0), ground (arith, b0, c1), Chain-behind x xs a0 a b z c)

  unlink_item-Chain_head :
      (prev : ℕ) (xs : List ℕ)
      → Avoids prev xs
      → AreDistinct xs
      → Avoids 0 xs
      → more prev ≡ item
      → less item ≡ prev
      → Chain more less item xs
      → Chain unlinked_more unlinked_less prev xs
  unlink_item-Chain_head prev [] p d z e l (c0, c1) =
      (ground (arith, e, l, c0), ground (arith, c0, l))
  unlink_item-Chain_head prev (x ∷ xs) (p0, p) (d0, d) (z0, z) e l (c0, c1, c) = (
    ground (arith, e, l, c0),
    ground (arith, c0, l),
    Chain-behind x xs (rw l p0) (rw l p) (rw c0 d0) (rw c0 (λ q. z0 (sym q))) c,
  )

  pub unlink_item-Chain :
      (prev : ℕ) (front back : List ℕ)
      → Avoids prev (front ++ item ∷ back)
      → AreDistinct (front ++ item ∷ back)
      → Avoids 0 (front ++ item ∷ back)
      → Chain more less prev (front ++ item ∷ back)
      → Chain unlinked_more unlinked_less prev (front ++ back)
  unlink_item-Chain prev [] back (p0, p) (d0, d) (z0, z) (c0, c1, c) =
      unlink_item-Chain_head prev back p d z c0 c1 c
  unlink_item-Chain prev (x ∷ front) back (p0, p) (d0, d) (z0, z) (c0, c1, c) =
      let l = less-Avoids more less item prev x front back p0 p c in
      let m = more-Avoids more less item x x front back (λ q. z0 (sym q)) d0 c in
      (ground (arith, c0, l), ground (arith, c1, m), unlink_item-Chain x front back d0 d z c)
