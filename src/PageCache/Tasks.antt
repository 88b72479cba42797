-- ===== src/PageCache/Tasks.antt =====
-- page-cache.cpp:123-141, 169-208 and 323-331: the tasks of a page, and the closures that are posted.
use d3b.Base.{
  ℕ, suc, ◌+◌, ◌<◌, ◌≡◌, refl, ap, Bool, true, false, List, [], ◌∷◌, ◌++◌, Option, none, some, ok,
  length, some_eq, length-append, ◌==◌, arith,
}
use d3b.PageCache.Host.{put_at}
use d3b.PageCache.Pages.{
  acquire_task, after_release, disk_read_task, PageInfo, PageCache, page_at, set_page, post_all,
  run_first, run_task, acquire, finish_release, finish_release_on_wait, complete, zero_bytes,
  disk_read, disk_write,
}
use d3b.PageCache.States.{
  System, view, IsPage, absent, asked, reading, staying, leaving, writing, finishing, IsSound,
  IsIdle, Agrees, unloaded, resident, after_complete, after_task,
}
use d3b.PageCache.Moves.{IsSound-step}

abbrev pub HasTask : Option PageInfo → Type 0
HasTask none = ⊥
HasTask (some info) = 0 < length info.tasks

no_tasks :
    (o : Option PageInfo) (b q : List ℕ) (uses : ℕ) (dirty l : Bool)
    → o ≡ some (resident b q uses dirty l)
    → HasTask o
    → ⊥
no_tasks none b q uses dirty l e t = t
no_tasks (some info) b q uses dirty l e t =
    let k = ap (λ (x : PageInfo). length x.tasks) (some_eq e) in omega (arith, k, t)

no_page : (o : Option PageInfo) → o ≡ none → HasTask o → ⊥
no_page none e t = t
no_page (some info) e t = cc

module _ (s : System) (n : ℕ) (h : IsSound s) where
  same : (n == n) ≡ true
  same = ground arith

  abbrev pub Runs : Type 0
  Runs = (c : PageCache) × (run_first n s.cache ≡ ok c) × IsSound (after_task s n c)

  abbrev read_done : ℕ → List ℕ → PageInfo → PageCache
  read_done k q info = set_page n info (post_all n (k ∷ q) s.cache)

  -- Every request that waited is one of the uses.
  all_use :
      (k : ℕ) (q : List ℕ)
      → IsIdle (view s n)
      → length (k ∷ q) ≡ length (s.cache.posted n ++ k ∷ q) + s.held n
  all_use k q (p, z) = omega (arith, length-append (s.cache.posted n) (k ∷ q), ap length p, z)

  pub run_first-Runs : HasTask (s.cache.present_pages n) → IsPage (view s n) → Runs
  unfolding run_first run_task acquire disk_read disk_write finish_release finish_release_on_wait
      page_at
  run_first-Runs t (absent e a i f) = absurd (no_page (s.cache.present_pages n) e t)
  run_first-Runs t (asked k q e a i f) =
      let info =
        unloaded (some (zero_bytes s.cache.page_size)) (k ∷ q) false false disk_read_task in
      let c = set_page n info s.cache in
      (
        c,
        rw (e, run_first) refl,
        IsSound-step s (after_task s n c) n (record (view s n) { page = some info; alive = true }) h
            (rw (same, e) refl) (λ j o. rw o refl)
            (reading (zero_bytes s.cache.page_size) k q false refl refl i f),
      )
  run_first-Runs t (reading b k q true e a i f) =
      let info = resident (s.cache.file n) [] (length (k ∷ q)) false true in
      (
        read_done k q info,
        rw (e, run_first) refl,
        IsSound-step s (after_task s n (read_done k q info)) n
            (record (view s n) { page = some info; posted = s.cache.posted n ++ k ∷ q }) h
            (rw (same, e) refl) (λ j o. rw o refl)
            (leaving (s.cache.file n) [] (length q) false refl a (all_use k q i) f f),
      )
  run_first-Runs t (reading b k q false e a i f) =
      let info = resident (s.cache.file n) [] (length (k ∷ q)) false false in
      (
        read_done k q info,
        rw (e, run_first) refl,
        IsSound-step s (after_task s n (read_done k q info)) n
            (record (view s n) { page = some info; posted = s.cache.posted n ++ k ∷ q }) h
            (rw (same, e) refl) (λ j o. rw o refl)
            (staying (s.cache.file n) (length (k ∷ q)) false refl a (all_use k q i) f f),
      )
  run_first-Runs t (staying b uses dirty e a u f g) =
      absurd (no_tasks (s.cache.present_pages n) b [] uses dirty false e t)
  run_first-Runs t (leaving b q uses dirty e a u f g) =
      absurd (no_tasks (s.cache.present_pages n) b q (suc uses) dirty true e t)
  run_first-Runs t (writing b q e a i f) =
      let info = unloaded none q false false after_release in
      let c = set_page n info (record s.cache { file = put_at n b s.cache.file }) in
      (
        c,
        rw (e, run_first) refl,
        IsSound-step s (after_task s n c) n (record (view s n) { page = some info; file = b }) h
            (rw (same, e) refl) (λ j o. rw o refl) (finishing q refl a i f),
      )
  run_first-Runs t (finishing [] e a i f) =
      let c : PageCache = record s.cache { present_pages = put_at n none s.cache.present_pages } in
      (
        c,
        rw (e, run_first) refl,
        IsSound-step s (after_task s n c) n (record (view s n) { page = none }) h
            (rw (same, e) refl) (λ j o. rw o refl) (absent refl a i f),
      )
  run_first-Runs t (finishing (k ∷ q) e a i f) =
      let info = unloaded none (k ∷ q) false false acquire_task in
      let c = set_page n info s.cache in
      (
        c,
        rw (e, run_first) refl,
        IsSound-step s (after_task s n c) n (record (view s n) { page = some info }) h
            (rw (same, e) refl) (λ j o. rw o refl) (asked k q refl a i f),
      )

  abbrev pub Completes : Type 0
  Completes =
      (c : PageCache) × (b : List ℕ) × (complete n s.cache ≡ ok (c, b))
      × IsSound (after_complete s n c)
      × Agrees b (s.contents n)

  completed :
      (k : ℕ) (r b q : List ℕ) (uses : ℕ) (dirty l : Bool)
      → s.cache.posted n ≡ k ∷ r
      → s.cache.present_pages n ≡ some (resident b q uses dirty l)
      → Agrees b (s.contents n)
      → IsPage (record (view s n) { posted = r; held = suc (s.held n) })
      → Completes
  unfolding complete
  completed k r b q uses dirty l t e f p =
      let c : PageCache = record s.cache { posted = put_at n r s.cache.posted } in
      (
        c,
        b,
        rw (t, complete) (rw e refl),
        IsSound-step s (after_complete s n c) n
            (record (view s n) { posted = r; held = suc (s.held n) }) h (rw same refl)
            (λ j o. rw o refl) p,
        f,
      )

  not_idle : (k : ℕ) (r : List ℕ) → s.cache.posted n ≡ k ∷ r → IsIdle (view s n) → ⊥
  not_idle k r t (p, z) = omega (arith, ap length p, ap length t)

  pub complete-Completes :
      (k : ℕ) (r : List ℕ) → s.cache.posted n ≡ k ∷ r → IsPage (view s n) → Completes
  complete-Completes k r t (absent e a i f) = absurd (not_idle k r t i)
  complete-Completes k r t (asked c q e a i f) = absurd (not_idle k r t i)
  complete-Completes k r t (reading b c q l e a i f) = absurd (not_idle k r t i)
  complete-Completes k r t (staying b uses dirty e a u f g) =
      completed k r b [] uses dirty false t e f
        (staying b uses dirty e a (omega (arith, u, ap length t)) f g)
  complete-Completes k r t (leaving b q uses dirty e a u f g) =
      completed k r b q (suc uses) dirty true t e f
        (leaving b q uses dirty e a (omega (arith, u, ap length t)) f g)
  complete-Completes k r t (writing b q e a i f) = absurd (not_idle k r t i)
  complete-Completes k r t (finishing q e a i f) = absurd (not_idle k r t i)
