-- ===== src/PageCache/Releases.antt =====
-- page-cache.cpp:143-168 and 291-309: a page is changed, given back, and asked to leave.
use d3b.Base.{
  ℕ, zero, suc, ◌+◌, ◌-◌, ◌<◌, ◌≡◌, refl, Bool, true, false, List, [], ◌∷◌, none, some, ok, length,
  nil_of_length, ltb, ◌&&◌, ◌==◌, arith,
}
use d3b.PageCache.Pages.{
  after_release, disk_read_task, disk_write_task, PageInfo, PageCache, page_at, set_page,
  store_bytes, write_page, finish_release, do_release, release_page, release,
}
use d3b.PageCache.States.{
  System, View, view, IsPage, absent, asked, reading, staying, leaving, writing, finishing, IsSound,
  IsIdle, unloaded, resident, after_write, after_release_page, after_release_item,
}
use d3b.PageCache.Moves.{IsSound-step, not_zero}

and_false : (b : Bool) → (b && false) ≡ false
and_false true = refl
and_false false = refl

idle : (v : View) → 0 ≡ length v.posted + v.held → IsIdle v
idle v u = (nil_of_length v.posted (omega (arith, u)), omega (arith, u))

idle_last :
    (v : View) → 0 < v.held → 1 ≡ length v.posted + v.held → (v.posted ≡ []) × (v.held - 1 ≡ 0)
idle_last v m u = (nil_of_length v.posted (omega (arith, m, u)), omega (arith, m, u))

module _ (s : System) (n : ℕ) (h : IsSound s) where
  same : (n == n) ≡ true
  same = ground arith

  abbrev pub Writes : List ℕ → Type 0
  Writes bytes =
      (c1 : PageCache) × (c2 : PageCache) × (store_bytes n bytes s.cache ≡ ok c1)
      × (write_page n c1 ≡ ok c2)
      × IsSound (after_write s n c2 bytes)

  written :
      (bytes b q : List ℕ) (uses : ℕ) (dirty l : Bool)
      → s.cache.present_pages n ≡ some (resident b q uses dirty l)
      → IsPage
          (record (view s n) { page = some (resident bytes q uses true l); contents = some bytes })
      → Writes bytes
  unfolding store_bytes write_page page_at
  written bytes b q uses dirty l e p =
      let c1 = set_page n (resident bytes q uses dirty l) s.cache in
      let c2 = set_page n (resident bytes q uses true l) c1 in
      (
        c1,
        c2,
        rw (e, store_bytes) refl,
        rw (same, write_page) refl,
        IsSound-step s (after_write s n c2 bytes) n
            (record (view s n) {
              page = some (resident bytes q uses true l);
              contents = some bytes;
            })
            h (rw same refl) (λ j o. rw o refl) p,
      )

  pub write_page-Writes : (bytes : List ℕ) → 0 < s.held n → IsPage (view s n) → Writes bytes
  write_page-Writes bytes m (absent e a i f) = absurd (omega (arith, m, i.1))
  write_page-Writes bytes m (asked k q e a i f) = absurd (omega (arith, m, i.1))
  write_page-Writes bytes m (reading b k q l e a i f) = absurd (omega (arith, m, i.1))
  write_page-Writes bytes m (staying b uses dirty e a u f g) =
      written bytes b [] uses dirty false e (staying bytes uses true refl a u refl tt)
  write_page-Writes bytes m (leaving b q uses dirty e a u f g) =
      written bytes b q (suc uses) dirty true e (leaving bytes q uses true refl a u refl tt)
  write_page-Writes bytes m (writing b q e a i f) = absurd (omega (arith, m, i.1))
  write_page-Writes bytes m (finishing q e a i f) = absurd (omega (arith, m, i.1))

  abbrev pub ReleasesItem : Type 0
  ReleasesItem = (c : PageCache) × (release n s.cache ≡ ok c) × IsSound (after_release_item s n c)

  -- The page is in a new state, and not one of the cache host any more.
  asked_to_leave :
      (info : PageInfo)
      → release n s.cache ≡ ok (set_page n info s.cache)
      → IsPage (record (view s n) { page = some info; alive = false })
      → ReleasesItem
  asked_to_leave info r p =
      let c = set_page n info s.cache in
      (
        c,
        r,
        IsSound-step s (after_release_item s n c) n
            (record (view s n) { page = some info; alive = false }) h (rw same refl)
            (λ j o. rw o refl) p,
      )

  alive_not : {b : Bool} → s.alive n ≡ true → s.alive n ≡ b → b ≡ true
  alive_not m a = cc

  pub release-ReleasesItem : s.alive n ≡ true → IsPage (view s n) → ReleasesItem
  unfolding release page_at do_release finish_release
  release-ReleasesItem m (absent e a i f) = absurd (cc)
  release-ReleasesItem m (asked k q e a i f) = absurd (cc)
  release-ReleasesItem m (reading b k q true e a i f) = absurd (cc)
  release-ReleasesItem m (reading b k q false e a i f) =
      asked_to_leave (unloaded (some b) (k ∷ q) false true disk_read_task) (rw (e, release) refl)
        (reading b k q true refl refl i f)
  release-ReleasesItem m (staying b zero true e a u f g) =
      asked_to_leave (unloaded (some b) [] true false disk_write_task) (rw (e, release) refl)
        (writing b [] refl refl (idle (view s n) u) f)
  release-ReleasesItem m (staying b zero false e a u f g) =
      asked_to_leave (unloaded none [] false false after_release) (rw (e, release) refl)
        (finishing [] refl refl (idle (view s n) u) g)
  release-ReleasesItem m (staying b (suc uses) dirty e a u f g) =
      asked_to_leave (resident b [] (suc uses) dirty true)
        (rw (e, release) (rw (not_zero uses) refl)) (leaving b [] uses dirty refl refl u f g)
  release-ReleasesItem m (leaving b q uses dirty e a u f g) = absurd (cc)
  release-ReleasesItem m (writing b q e a i f) = absurd (cc)
  release-ReleasesItem m (finishing q e a i f) = absurd (cc)

  abbrev pub ReleasesPage : Type 0
  ReleasesPage =
      (c : PageCache) × (release_page n s.cache ≡ ok c) × IsSound (after_release_page s n c)

  given_back :
      (info : PageInfo)
      → release_page n s.cache ≡ ok (set_page n info s.cache)
      → IsPage (record (view s n) { page = some info; held = s.held n - 1 })
      → ReleasesPage
  given_back info r p =
      let c = set_page n info s.cache in
      (
        c,
        r,
        IsSound-step s (after_release_page s n c) n
            (record (view s n) { page = some info; held = s.held n - 1 }) h (rw same refl)
            (λ j o. rw o refl) p,
      )

  pub release_page-ReleasesPage : 0 < s.held n → IsPage (view s n) → ReleasesPage
  unfolding release_page do_release finish_release
  release_page-ReleasesPage m (absent e a i f) = absurd (omega (arith, m, i.1))
  release_page-ReleasesPage m (asked k q e a i f) = absurd (omega (arith, m, i.1))
  release_page-ReleasesPage m (reading b k q l e a i f) = absurd (omega (arith, m, i.1))
  release_page-ReleasesPage m (staying b zero dirty e a u f g) = absurd (omega (arith, m, u))
  release_page-ReleasesPage m (staying b (suc uses) dirty e a u f g) =
      let pos : ltb 0 (suc uses) ≡ true = ground arith in
      let d : suc uses - 1 ≡ uses = omega arith in
      given_back (resident b [] uses dirty false)
        (rw (e, release_page) (rw (pos, d, and_false (uses == 0)) refl))
        (staying b uses dirty refl a (omega (arith, u, m)) f g)
  release_page-ReleasesPage m (leaving b q zero true e a u f g) =
      given_back (unloaded (some b) q true false disk_write_task) (rw (e, release_page) refl)
        (writing b q refl a (idle_last (view s n) m u) f)
  release_page-ReleasesPage m (leaving b q zero false e a u f g) =
      given_back (unloaded none q false false after_release) (rw (e, release_page) refl)
        (finishing q refl a (idle_last (view s n) m u) g)
  release_page-ReleasesPage m (leaving b q (suc uses) dirty e a u f g) =
      let pos : ltb 0 (suc (suc uses)) ≡ true = ground arith in
      let d : suc (suc uses) - 1 ≡ suc uses = omega arith in
      given_back (resident b q (suc uses) dirty true)
        (rw (e, release_page) (rw (pos, d, not_zero uses) refl))
        (leaving b q uses dirty refl a (omega (arith, u, m)) f g)
  release_page-ReleasesPage m (writing b q e a i f) = absurd (omega (arith, m, i.1))
  release_page-ReleasesPage m (finishing q e a i f) = absurd (omega (arith, m, i.1))
