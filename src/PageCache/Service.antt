-- ===== src/PageCache/Service.antt =====
-- page-cache.cpp:116-331: nothing that is due fails, and no request is forgotten.
use d3b.Base.{
  ℕ, zero, suc, ◌<◌, ◌≡◌, refl, ap, true, false, inl, inr, ◌⊎◌, List, [], List-cases, Bool-cases,
  Option, none, some, ok, length, arith,
}
use d3b.PageCache.Pages.{
  PageInfo, PageCache, run_first, store_bytes, write_page, release_page, release,
}
use d3b.PageCache.States.{
  System, Steps, opened, view, IsPage, absent, asked, reading, staying, leaving, writing, finishing,
}
use d3b.PageCache.Releases.{write_page-Writes, release-ReleasesItem, release_page-ReleasesPage}
use d3b.PageCache.Tasks.{HasTask, run_first-Runs}
use d3b.PageCache.Soundness.{opened-Steps-IsSound}

-- A request that waits is not forgotten.
abbrev pub IsServed : Option PageInfo → Type 0
IsServed none = Unit
IsServed (some info) =
    (info.wait_queue ≡ [])
    ⊎ ((0 < length info.tasks) ⊎ ((info.release ≡ true) × (0 < info.use_count)))

IsPage-IsServed : (s : System) (n : ℕ) → IsPage (view s n) → IsServed (s.cache.present_pages n)
IsPage-IsServed s n (absent e a i f) = rw e tt
IsPage-IsServed s n (asked k q e a i f) = rw e (inr (inl (omega arith)))
IsPage-IsServed s n (reading b k q l e a i f) = rw e (inr (inl (omega arith)))
IsPage-IsServed s n (staying b uses dirty e a u f g) = rw e (inl refl)
IsPage-IsServed s n (leaving b q uses dirty e a u f g) = rw e (inr (inr (refl, omega arith)))
IsPage-IsServed s n (writing b q e a i f) = rw e (inr (inl (omega arith)))
IsPage-IsServed s n (finishing q e a i f) = rw e (inr (inl (omega arith)))

abbrev pub HasNone : Option PageInfo → Type 0
HasNone none = Unit
HasNone (some info) = info.tasks ≡ []

HasTask-cases : (o : Option PageInfo) → HasNone o ⊎ HasTask o
HasTask-cases none = inl tt
HasTask-cases (some info) = elim (List-cases info.tasks) [
  | inl z ↦ inl z
  | inr (t, r, z) ↦ inr (omega (arith, ap length z))
]

held_cases : (k : ℕ) → (k ≡ 0) ⊎ (0 < k)
held_cases zero = inl refl
held_cases (suc k) = inr (omega arith)

-- What a client that holds the page may do.
abbrev pub IsFree : System → ℕ → List ℕ → Type 0
IsFree s n bytes =
    ((c1 : PageCache) × (c2 : PageCache) × (store_bytes n bytes s.cache ≡ ok c1)
      × (write_page n c1 ≡ ok c2))
    × ((c : PageCache) × (release_page n s.cache ≡ ok c))

-- In every run of a page cache that was just opened, nothing that is due fails: a task of a page, a
-- store with writePage and a releasePage of a client that holds the page, and a release that the cache
-- host asks for. Where requests wait for a page, the page has a task to run, or it is asked to leave
-- and in use.
pub run-IsServed :
    (page_size : ℕ) (file : ℕ → List ℕ) (s : System) (n : ℕ) (bytes : List ℕ)
    → Steps (opened page_size file) s
    → (HasNone (s.cache.present_pages n) ⊎ ((c : PageCache) × (run_first n s.cache ≡ ok c)))
      × ((s.held n ≡ 0) ⊎ IsFree s n bytes)
      × ((s.alive n ≡ false) ⊎ ((c : PageCache) × (release n s.cache ≡ ok c)))
      × IsServed (s.cache.present_pages n)
run-IsServed page_size file s n bytes steps =
    let h = opened-Steps-IsSound page_size file s steps in
    (
      elim (HasTask-cases (s.cache.present_pages n)) [
        | inl z ↦ inl z
        | inr t ↦ let (c, e, p) = run_first-Runs s n h t (h n) in inr (c, e)
      ],
      elim (held_cases (s.held n)) [
        | inl z ↦ inl z
        | inr m ↦
            let (c1, c2, e1, e2, p) = write_page-Writes s n h bytes m (h n) in
            let (c, e, p') = release_page-ReleasesPage s n h m (h n) in
            inr ((c1, c2, e1, e2), (c, e))
      ],
      elim (Bool-cases (s.alive n)) [
        | inl m ↦ let (c, e, p) = release-ReleasesItem s n h m (h n) in inr (c, e)
        | inr m ↦ inl m
      ],
      IsPage-IsServed s n (h n),
    )

-- The page does not have the flag `kFlagInitialize`.
abbrev pub IsUnmarked : Option PageInfo → Type 0
IsUnmarked none = Unit
IsUnmarked (some info) = info.initialize ≡ false

IsPage-IsUnmarked : (s : System) (n : ℕ) → IsPage (view s n) → IsUnmarked (s.cache.present_pages n)
IsPage-IsUnmarked s n (absent e a i f) = rw e tt
IsPage-IsUnmarked s n (asked k q e a i f) = rw e refl
IsPage-IsUnmarked s n (reading b k q l e a i f) = rw e refl
IsPage-IsUnmarked s n (staying b uses dirty e a u f g) = rw e refl
IsPage-IsUnmarked s n (leaving b q uses dirty e a u f g) = rw e refl
IsPage-IsUnmarked s n (writing b q e a i f) = rw e refl
IsPage-IsUnmarked s n (finishing q e a i f) = rw e refl

-- In no run of a page cache that was just opened does a page have the flag kFlagInitialize.
pub run-IsUnmarked :
    (page_size : ℕ) (file : ℕ → List ℕ) (s : System) (n : ℕ)
    → Steps (opened page_size file) s
    → IsUnmarked (s.cache.present_pages n)
run-IsUnmarked page_size file s n steps =
    IsPage-IsUnmarked s n (opened-Steps-IsSound page_size file s steps n)
