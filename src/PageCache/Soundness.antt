-- ===== src/PageCache/Soundness.antt =====
-- page-cache.cpp:116-331: every page in every run is in one of its states, so that no assertion of the calls
-- fails and each callback gets the bytes that were stored last.
use d3b.Base.{
  ℕ, ◌<◌, ◌≡◌, refl, sym, ap, subst, ◌∙◌, true, inl, inr, ◌⊎◌, List, [], ◌∷◌, List-cases, Option,
  none, some, Result, ok, ok-injective, length, arith,
}
use d3b.PageCache.Pages.{
  PageInfo, PageCache, Handed, page_at, run_first, initialize_page, read_page, store_bytes,
  write_page, release_page, release, complete,
}
use d3b.PageCache.States.{
  System, Step, reads, initializes, writes, releases_page, completes, releases_item, runs, Steps,
  start, next, opened, absent, IsSound, Agrees, after_read, after_initialize, after_write,
  after_release_page, after_complete, after_release_item, after_task,
}
use d3b.PageCache.Moves.{IsLatest, read_page-Reads, initialize_page-Initializes}
use d3b.PageCache.Releases.{write_page-Writes, release-ReleasesItem, release_page-ReleasesPage}
use d3b.PageCache.Tasks.{HasTask, run_first-Runs, complete-Completes}

opened-IsSound : (page_size : ℕ) (file : ℕ → List ℕ) → IsSound (opened page_size file)
opened-IsSound page_size file n = absent refl refl (refl, refl) refl

-- A call has one result.
same_result {ℓ κ} :
    {A : Type ℓ} (P : A → Type κ) (r : Result A) (x y : A) → r ≡ ok x → r ≡ ok y → P x → P y
same_result P r x y e q p = subst P (ok-injective (sym e ∙ q)) p

run_first-HasTask :
    (n : ℕ) (c c' : PageCache) (o : Option PageInfo)
    → c.present_pages n ≡ o
    → run_first n c ≡ ok c'
    → HasTask o
unfolding run_first page_at
run_first-HasTask n c c' none e q = absurd (let q' = (rw (e, run_first) at q) in (cc))
run_first-HasTask n c c' (some info) e q = elim (List-cases info.tasks) [
  | inl z ↦ absurd (let q' = (rw (e, run_first) at q) in let q2 = (rw z at q') in (cc))
  | inr (t, r, z) ↦ omega (arith, ap length z)
]

complete-posted :
    (n : ℕ) (c : PageCache) (r : PageCache × List ℕ)
    → complete n c ≡ ok r
    → (k : ℕ) × (q : List ℕ) × (c.posted n ≡ k ∷ q)
unfolding complete
complete-posted n c r e = elim (List-cases (c.posted n)) [
  | inl z ↦ absurd (let e' = (rw (z, complete) at e) in (cc))
  | inr x ↦ x
]

module _ (s : System) (h : IsSound s) where
  after_reads :
      (n callback : ℕ) (c : PageCache) (handed : Handed)
      → read_page n callback s.cache ≡ ok (c, handed)
      → IsSound (after_read s n c handed)
  after_reads n callback c handed q =
      let (c', handed', e, p, latest) = read_page-Reads s n h callback (h n) in
      same_result (λ (x : PageCache × Handed). IsSound (after_read s n (x.0) (x.1)))
        (read_page n callback s.cache) (c', handed') (c, handed) e q p

  after_initializes :
      (n callback : ℕ) (c : PageCache) (handed : Handed)
      → initialize_page n callback s.cache ≡ ok (c, handed)
      → IsSound (after_initialize s n c handed)
  after_initializes n callback c handed q =
      elim (initialize_page-Initializes s n h callback (h n)) [
        | inl (c', handed', e, p) ↦
            same_result (λ (x : PageCache × Handed). IsSound (after_initialize s n (x.0) (x.1)))
              (initialize_page n callback s.cache) (c', handed') (c, handed) e q p
        | inr e ↦ cc
      ]

  after_writes :
      (n : ℕ) (bytes : List ℕ) (c1 c2 : PageCache)
      → 0 < s.held n
      → store_bytes n bytes s.cache ≡ ok c1
      → write_page n c1 ≡ ok c2
      → IsSound (after_write s n c2 bytes)
  after_writes n bytes c1 c2 m q1 q2 =
      let (d1, d2, e1, e2, p) = write_page-Writes s n h bytes m (h n) in
      let q2' =
        same_result (λ (x : PageCache). write_page n x ≡ ok c2) (store_bytes n bytes s.cache) c1 d1
          q1 e1 q2 in
      same_result (λ (x : PageCache). IsSound (after_write s n x bytes)) (write_page n d1) d2 c2 e2
        q2' p

  after_releases_page :
      (n : ℕ) (c : PageCache)
      → 0 < s.held n
      → release_page n s.cache ≡ ok c
      → IsSound (after_release_page s n c)
  after_releases_page n c m q =
      let (c', e, p) = release_page-ReleasesPage s n h m (h n) in
      same_result (λ (x : PageCache). IsSound (after_release_page s n x)) (release_page n s.cache)
        c' c e q p

  after_completes :
      (n : ℕ) (c : PageCache) (bytes : List ℕ)
      → complete n s.cache ≡ ok (c, bytes)
      → IsSound (after_complete s n c)
  after_completes n c bytes q =
      let (k, r, t) = complete-posted n s.cache (c, bytes) q in
      let (c', b, e, p, latest) = complete-Completes s n h k r t (h n) in
      same_result (λ (x : PageCache × List ℕ). IsSound (after_complete s n (x.0)))
        (complete n s.cache) (c', b) (c, bytes) e q p

  after_releases_item :
      (n : ℕ) (c : PageCache)
      → s.alive n ≡ true
      → release n s.cache ≡ ok c
      → IsSound (after_release_item s n c)
  after_releases_item n c m q =
      let (c', e, p) = release-ReleasesItem s n h m (h n) in
      same_result (λ (x : PageCache). IsSound (after_release_item s n x)) (release n s.cache) c' c e
        q p

  after_runs : (n : ℕ) (c : PageCache) → run_first n s.cache ≡ ok c → IsSound (after_task s n c)
  after_runs n c q =
      let t = run_first-HasTask n s.cache c (s.cache.present_pages n) refl q in
      let (c', e, p) = run_first-Runs s n h t (h n) in
      same_result (λ (x : PageCache). IsSound (after_task s n x)) (run_first n s.cache) c' c e q p

Step-IsSound : {s t : System} → Step s t → IsSound s → IsSound t
Step-IsSound {s} (reads n callback c handed q) h = after_reads s h n callback c handed q
Step-IsSound {s} (initializes n callback c handed q) h = after_initializes s h n callback c handed q
Step-IsSound {s} (writes n bytes c1 c2 m q1 q2) h = after_writes s h n bytes c1 c2 m q1 q2
Step-IsSound {s} (releases_page n c m q) h = after_releases_page s h n c m q
Step-IsSound {s} (completes n c bytes q) h = after_completes s h n c bytes q
Step-IsSound {s} (releases_item n c m q) h = after_releases_item s h n c m q
Step-IsSound {s} (runs n c q) h = after_runs s h n c q

Steps-IsSound : {s t : System} → Steps s t → IsSound s → IsSound t
Steps-IsSound start h = h
Steps-IsSound (next steps step) h = Step-IsSound step (Steps-IsSound steps h)

-- In every run of a page cache that was just opened, each page is absent, asked for, being read,
-- loaded, loaded and asked to leave, being written back, or given up, with the flags, the use count,
-- the wait queue and the one task that belong to that state. The use count is the number of callbacks
-- that are posted or have not given the page back, and what was stored last is in the buffer, or in
-- the file where the page has not changed or no buffer has it.
pub opened-Steps-IsSound :
    (page_size : ℕ) (file : ℕ → List ℕ) (s : System) → Steps (opened page_size file) s → IsSound s
opened-Steps-IsSound page_size file s steps = Steps-IsSound steps (opened-IsSound page_size file)

-- In every run of a page cache that was just opened, a read of a page succeeds, and so does a posted
-- closure; and where a callback is called, it gets the bytes that a client stored last, or those of
-- the file where none did, unless the page was initialized since. This holds whether the page was
-- loaded, read from the file, or written back and read again in between.
pub handed-IsLatest :
    (page_size : ℕ) (file : ℕ → List ℕ) (s : System) (n callback : ℕ)
    → Steps (opened page_size file) s
    → ((c : PageCache) × (handed : Handed) × (read_page n callback s.cache ≡ ok (c, handed))
        × IsLatest handed (s.contents n))
      × ((s.cache.posted n ≡ [])
          ⊎ ((c : PageCache) × (b : List ℕ) × (complete n s.cache ≡ ok (c, b))
              × Agrees b (s.contents n)))
handed-IsLatest page_size file s n callback steps =
    let h = opened-Steps-IsSound page_size file s steps in
    let (c, handed, e, p, latest) = read_page-Reads s n h callback (h n) in
    (
      (c, handed, e, latest),
      elim (List-cases (s.cache.posted n)) [
        | inl z ↦ inl z
        | inr (k, r, t) ↦
            let (d, b, q, sound, agrees) = complete-Completes s n h k r t (h n) in
            inr (d, b, q, agrees)
      ],
    )
