-- ===== src/PageCache/Entering.antt =====
-- page-cache.cpp:28-43 and 74-91: an item comes to the list of the cache host, and the first one leaves.
use d3b.Base.{
  ℕ, zero, suc, ◌+◌, ◌-◌, ◌≤◌, ◌≡◌, ◌≢◌, refl, ap, sym, ◌∙◌, true, false, ◌||◌, List, [], ◌∷◌, ◌++◌,
  ok, All, elem, length, take, drop, ◌==◌, arith,
}
use d3b.PageCache.Host.{CacheHost, put_at, most_recently, insert_last, unlink_item, release_item}
use d3b.PageCache.Queue.{Chain, Avoids, AreDistinct, insert_last-Chain, unlink_item-Chain}

pub Avoids-append : (k : ℕ) (xs ys : List ℕ) → Avoids k xs → Avoids k ys → Avoids k (xs ++ ys)
Avoids-append k [] ys h j = j
Avoids-append k (x ∷ xs) ys (h0, h) j = (h0, Avoids-append k xs ys h j)

pub AreDistinct-append :
    (x : ℕ) (xs : List ℕ) → Avoids x xs → AreDistinct xs → AreDistinct (xs ++ x ∷ [])
AreDistinct-append x [] h d = (tt, tt)
AreDistinct-append x (y ∷ ys) (h0, h) (d0, d) =
    (Avoids-append y ys (x ∷ []) d0 (λ e. h0 (sym e), tt), AreDistinct-append x ys h d)

Avoids-elem : (k : ℕ) (xs : List ℕ) → elem k xs ≡ false → Avoids k xs
Avoids-elem k [] h = tt
Avoids-elem k (x ∷ xs) h = (ground (arith, h), Avoids-elem k xs (ground (arith, h)))

elem-Avoids : (k : ℕ) (xs : List ℕ) → Avoids k xs → elem k xs ≡ false
elem-Avoids k [] h = refl
elem-Avoids k (x ∷ xs) (h0, h) = ground (arith, h0, elem-Avoids k xs h)

pub elem-append : (k : ℕ) (xs ys : List ℕ) → elem k (xs ++ ys) ≡ (elem k xs || elem k ys)
elem-append k [] ys = refl
elem-append k (x ∷ xs) ys = ground (arith, elem-append k xs ys)

pub drop_last :
    (n x : ℕ) (xs : List ℕ) → n ≤ length xs → drop n (xs ++ x ∷ []) ≡ (drop n xs ++ x ∷ [])
drop_last zero x xs h = refl
drop_last (suc n) x [] h = absurd (omega (arith, h))
drop_last (suc n) x (y ∷ xs) h = drop_last n x xs (omega (arith, h))

pub take_front : (n x : ℕ) (xs : List ℕ) → n ≤ length xs → take n (xs ++ x ∷ []) ≡ take n xs
take_front zero x xs h = refl
take_front (suc n) x [] h = absurd (omega (arith, h))
take_front (suc n) x (y ∷ xs) h = ap (λ l. y ∷ l) (take_front n x xs (omega (arith, h)))

pub All-remove {κ} :
    (P : ℕ → Type κ) (x : ℕ) (front back : List ℕ)
    → All P (front ++ x ∷ back)
    → All P (front ++ back)
All-remove P x [] back h = h.1
All-remove P x (y ∷ front) back h = (h.0, All-remove P x front back h.1)

pub All-at {κ} : (P : ℕ → Type κ) (x : ℕ) (front back : List ℕ) → All P (front ++ x ∷ back) → P x
All-at P x [] back h = h.0
All-at P x (y ∷ front) back h = All-at P x front back h.1

pub AreDistinct-remove :
    (x : ℕ) (front back : List ℕ)
    → AreDistinct (front ++ x ∷ back)
    → AreDistinct (front ++ back) × Avoids x (front ++ back)
AreDistinct-remove x [] back (d0, d) = (d, d0)
AreDistinct-remove x (y ∷ front) back (d0, d) =
    let (e, a) = AreDistinct-remove x front back d in
    (
      (All-remove (λ z. y ≢ z) x front back d0, e),
      (λ q. All-at (λ z. y ≢ z) x front back d0 (sym q), a),
    )

pub drop_all : (xs : List ℕ) → drop (length xs) xs ≡ []
drop_all [] = refl
drop_all (x ∷ xs) = drop_all xs

pub length_snoc : (xs : List ℕ) (x : ℕ) → length (xs ++ x ∷ []) ≡ suc (length xs)
length_snoc [] x = refl
length_snoc (y ∷ xs) x = ap suc (length_snoc xs x)

module _ (footprint : ℕ → ℕ) where
  abbrev pub load : List ℕ → ℕ
  load [] = 0
  load (x ∷ xs) = footprint x + load xs

  pub load-append : (xs ys : List ℕ) → load (xs ++ ys) ≡ load xs + load ys
  load-append [] ys = omega arith
  load-append (x ∷ xs) ys = omega (arith, load-append xs ys)

  -- The list of the items in memory, from the one used the least recently on.
  pub record Represents (h : CacheHost) (xs : List ℕ) : Type 0 where
    pub chain : Chain h.more_recently_used h.less_recently_used 0 xs
    pub distinct : AreDistinct xs
    pub no_sentinel : Avoids 0 xs
    pub alive : (k : ℕ) → h.alive k ≡ elem k xs
    pub active : h.active_footprint ≡ load xs

  -- Where the item comes in, with its flag and its footprint.
  abbrev pub entered : ℕ → CacheHost → CacheHost
  entered item h = insert_last item (record h {
    alive = put_at item true h.alive;
    active_footprint = h.active_footprint + footprint item;
  })

  pub insert_last-Represents :
      (item : ℕ) (h : CacheHost) (xs : List ℕ)
      → item ≢ 0
      → h.alive item ≡ false
      → Represents h xs
      → Represents (entered item h) (xs ++ item ∷ [])
  unfolding insert_last most_recently
  insert_last-Represents item h xs pos a r =
      let avoids = Avoids-elem item xs (sym (r.alive item) ∙ a) in
      record {
        chain =
            insert_last-Chain h.more_recently_used h.less_recently_used item pos 0 xs pos avoids
              r.no_sentinel r.distinct r.no_sentinel r.chain;
        distinct = AreDistinct-append item xs avoids r.distinct;
        no_sentinel = Avoids-append 0 xs (item ∷ []) r.no_sentinel (λ e. pos (sym e), tt);
        alive = λ k. ground (arith, r.alive k, elem-append k xs (item ∷ []));
        active = omega (arith, r.active, load-append xs (item ∷ []));
      }

  pub release_item-Represents :
      (item : ℕ) (h : CacheHost) (xs : List ℕ)
      → Represents h (item ∷ xs)
      → (h' : CacheHost) × (release_item footprint item h ≡ ok h')
        × (h'.limit ≡ h.limit)
        × Represents h' xs
  unfolding release_item unlink_item
  release_item-Represents item h xs r =
      let (d0, d) = r.distinct in
      let (z0, z) = r.no_sentinel in
      let pos : (item == 0) ≡ false = ground (arith, z0) in
      (
        unlink_item item (record h {
          alive = put_at item false h.alive;
          active_footprint = h.active_footprint - footprint item;
        }),
        rw pos refl,
        refl,
        record {
          chain =
              unlink_item-Chain h.more_recently_used h.less_recently_used item 0 [] xs r.no_sentinel
                r.distinct r.no_sentinel r.chain;
          distinct = d;
          no_sentinel = z;
          alive = λ k. ground (arith, r.alive k, elem-Avoids item xs d0);
          active = omega (arith, r.active);
        },
      )
