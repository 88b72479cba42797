-- ===== src/PageCache/Eviction.antt =====
-- page-cache.cpp:28-91: `requestAcquire` and `onAccess` of the cache host, over the list of the items in memory.
use d3b.Base.{
  ℕ, zero, suc, ◌≤◌, ◌<◌, ◌≡◌, ◌≢◌, refl, ap, sym, subst, ◌∙◌, Bool-cases, true, false, inl, inr,
  List, [], ◌∷◌, ◌++◌, map, Result, ok, length, take, drop, ltb, ◌==◌, arith,
}
use d3b.PageCache.Host.{
  CacheHost, HostCall, acquires, releases, put_at, most_recently, least_recently, insert_last,
  unlink_item, on_access, release_item, release_excess, request_acquire,
}
use d3b.PageCache.Queue.{insert_last-Chain, unlink_item-Chain}
use d3b.PageCache.Entering.{
  Represents, load, load-append, entered, insert_last-Represents, release_item-Represents,
  drop_last, take_front, drop_all, length_snoc, AreDistinct-append, Avoids-append, All-remove,
  All-at, AreDistinct-remove, elem-append,
}

module _ (footprint : ℕ → ℕ) where
  -- How many of the items are released: as few as bring the others below the limit.
  abbrev pub IsLeast : ℕ → List ℕ → ℕ → Type 0
  IsLeast limit xs zero = load footprint xs ≤ limit
  IsLeast limit xs (suc n) =
      (load footprint (drop (suc n) xs) ≤ limit) × (limit < load footprint (drop n xs))

  IsLeast-cons :
      (limit x n : ℕ) (xs : List ℕ)
      → limit < load footprint (x ∷ xs)
      → IsLeast limit xs n
      → IsLeast limit (x ∷ xs) (suc n)
  IsLeast-cons limit x zero xs l h = (h, l)
  IsLeast-cons limit x (suc n) xs l h = h

  -- A last item that is smaller than the limit stays.
  last_stays :
      (limit n x : ℕ) (xs : List ℕ)
      → footprint x < limit
      → n ≤ suc (length xs)
      → IsLeast limit (xs ++ x ∷ []) n
      → n ≤ length xs
  last_stays limit zero x xs l m h = omega arith
  last_stays limit (suc n) x xs l m (h0, h) = elim (Bool-cases (n == length xs)) [
    | inr o ↦ ground (arith, o, m)
    | inl same ↦
        let e : n ≡ length xs = ground (arith, same) in
        let d : drop n (xs ++ x ∷ []) ≡ x ∷ [] =
          drop_last n x xs (omega (arith, e))
          ∙ ap (λ (l : List ℕ). l ++ x ∷ []) (ap (λ (k : ℕ). drop k xs) e ∙ drop_all xs) in
        absurd (omega (arith, h, ap (load footprint) d, l))
  ]

  abbrev Evicts : List ℕ → CacheHost → Result (CacheHost × List HostCall) → Type 0
  Evicts xs h r =
      (n : ℕ) × (h' : CacheHost) × (n ≤ length xs)
      × (r ≡ ok (h', map releases (take n xs)))
      × Represents footprint h' (drop n xs)
      × (h'.limit ≡ h.limit)
      × IsLeast h.limit xs n

  release_excess-none :
      (fuel : ℕ) (h : CacheHost)
      → ltb h.limit h.active_footprint ≡ false
      → release_excess footprint (suc fuel) h ≡ ok (h, [])
  unfolding release_excess
  release_excess-none fuel h e = rw e refl

  first :
      (h : CacheHost) (x : ℕ) (xs : List ℕ) → Represents footprint h (x ∷ xs) → least_recently h ≡ x
  unfolding least_recently
  first h x xs r = r.chain.0

  release_excess-cons :
      (fuel item : ℕ) (h h1 h2 : CacheHost) (calls : List HostCall)
      → ltb h.limit h.active_footprint ≡ true
      → least_recently h ≡ item
      → release_item footprint item h ≡ ok h1
      → release_excess footprint fuel h1 ≡ ok (h2, calls)
      → release_excess footprint (suc fuel) h ≡ ok (h2, releases item ∷ calls)
  unfolding release_excess
  release_excess-cons fuel item h h1 h2 calls e l r s = rw (e, l, r, s) refl

  release_excess-Evicts :
      (fuel : ℕ) (xs : List ℕ) (h : CacheHost)
      → length xs < fuel
      → Represents footprint h xs
      → Evicts xs h (release_excess footprint fuel h)
  release_excess-Evicts zero xs h l r = absurd (omega (arith, l))
  release_excess-Evicts (suc fuel) [] h l r = (
    0,
    h,
    omega arith,
    release_excess-none fuel h (ground (arith, r.active)),
    r,
    refl,
    omega arith,
  )
  release_excess-Evicts (suc fuel) (x ∷ xs) h l r =
      elim (Bool-cases (ltb h.limit h.active_footprint)) [
        | inr e ↦
            (0, h, omega arith, release_excess-none fuel h e, r, refl, ground (arith, e, r.active))
        | inl e ↦
            let (h1, q, same, r1) = release_item-Represents footprint x h xs r in
            let (n, h2, n_le, s, r2, same2, least) =
              release_excess-Evicts fuel xs h1 (omega (arith, l)) r1 in
            let least' = subst (λ (m : ℕ). IsLeast m xs n) same least in
            (
              suc n,
              h2,
              omega (arith, n_le),
              release_excess-cons fuel x h h1 h2 (map releases (take n xs)) e (first h x xs r) q s,
              r2,
              same2 ∙ same,
              IsLeast-cons h.limit x n xs (ground (arith, e, r.active)) least',
            )
      ]

  request_acquire_lem :
      (fuel item : ℕ) (h h' : CacheHost) (calls : List HostCall)
      → footprint item < h.limit
      → h.alive item ≡ false
      → release_excess footprint fuel (entered footprint item h) ≡ ok (h', calls)
      → request_acquire footprint fuel item h ≡ ok (h', acquires item ∷ calls)
  unfolding request_acquire
  request_acquire_lem fuel item h h' calls l a e =
      let small : ltb (footprint item) h.limit ≡ true = ground (arith, l) in rw (small, a, e) refl

  -- Where the links of the cache host make a list of the items in memory, a request to acquire another
  -- item, smaller than the limit, succeeds: its loop ends and its assertions hold. The item is
  -- acquired and comes to the end of the list, and then items are released from the front, in the
  -- order of the list: as few as bring the footprint of those that stay to the limit, and never the
  -- item itself.
  pub request_acquire-Represents :
      (fuel item : ℕ) (h : CacheHost) (xs : List ℕ)
      → Represents footprint h xs
      → item ≢ 0
      → h.alive item ≡ false
      → footprint item < h.limit
      → suc (length xs) < fuel
      → (n : ℕ) × (h' : CacheHost) × (n ≤ length xs)
        × (request_acquire footprint fuel item h
            ≡ ok (h', acquires item ∷ map releases (take n xs)))
        × Represents footprint h' (drop n xs ++ item ∷ [])
        × IsLeast h.limit (xs ++ item ∷ []) n
  unfolding insert_last
  request_acquire-Represents fuel item h xs r pos a small enough =
      let ys = xs ++ item ∷ [] in
      let size = length_snoc xs item in
      let (n, h', n_le, e, r', same, least) =
        release_excess-Evicts fuel ys (entered footprint item h) (omega (arith, size, enough))
          (insert_last-Represents footprint item h xs pos a r) in
      let stays = last_stays h.limit n item xs small (omega (arith, n_le, size)) least in
      (
        n,
        h',
        stays,
        request_acquire_lem fuel item h h' (map releases (take n xs)) small a
            (e ∙ ap (λ (l : List ℕ). ok (h', map releases l)) (take_front n item xs stays)),
        subst (λ (l : List ℕ). Represents footprint h' l) (drop_last n item xs stays) r',
        least,
      )

  on_access-alive :
      (item : ℕ) (h : CacheHost)
      → h.alive item ≡ true
      → on_access item h ≡ insert_last item (unlink_item item h)
  unfolding on_access
  on_access-alive item h e = rw e refl

  -- An item that is taken out of its place and put at the end.
  moved-Represents :
      (item : ℕ) (h : CacheHost) (front back : List ℕ)
      → Represents footprint h (front ++ item ∷ back)
      → Represents footprint (insert_last item (unlink_item item h)) ((front ++ back) ++ item ∷ [])
  unfolding insert_last unlink_item most_recently
  moved-Represents item h front back r =
      let more = h.more_recently_used in
      let less = h.less_recently_used in
      let (d, a) = AreDistinct-remove item front back r.distinct in
      let z = All-remove (λ x. 0 ≢ x) item front back r.no_sentinel in
      let pos : item ≢ 0 = λ q. All-at (λ x. 0 ≢ x) item front back r.no_sentinel (sym q) in
      let c =
        unlink_item-Chain more less item 0 front back r.no_sentinel r.distinct r.no_sentinel
          r.chain in
      record {
        chain =
            insert_last-Chain (put_at (less item) (more item) more)
              (put_at (more item) (less item) less) item pos 0 (front ++ back) pos a z d z c;
        distinct = AreDistinct-append item (front ++ back) a d;
        no_sentinel = Avoids-append 0 (front ++ back) (item ∷ []) z (λ e. pos (sym e), tt);
        alive = λ k. ground (
          arith,
          r.alive k,
          elem-append k front (item ∷ back),
          elem-append k front back,
          elem-append k (front ++ back) (item ∷ []),
        );
        active = omega (
          arith,
          r.active,
          load-append footprint front (item ∷ back),
          load-append footprint front back,
          load-append footprint (front ++ back) (item ∷ []),
        );
      }

  -- An access to an item in memory moves it to the end of the list, and leaves the order of the
  -- others and what is in memory.
  pub on_access-Represents :
      (item : ℕ) (h : CacheHost) (front back : List ℕ)
      → Represents footprint h (front ++ item ∷ back)
      → Represents footprint (on_access item h) ((front ++ back) ++ item ∷ [])
  on_access-Represents item h front back r =
      let alive : h.alive item ≡ true =
        ground (arith, r.alive item, elem-append item front (item ∷ back)) in
      subst (λ (x : CacheHost). Represents footprint x ((front ++ back) ++ item ∷ []))
        (sym (on_access-alive item h alive)) (moved-Represents item h front back r)
