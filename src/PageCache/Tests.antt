-- ===== src/PageCache/Tests.antt =====
-- page-cache.cpp: small runs of the cache host and of the page cache.
use d3b.Base.{
  ℕ, ◌≤◌, ◌<◌, ◌≡◌, ◌⊎◌, refl, true, false, List, [], ◌∷◌, ◌++◌, map, none, some, ok, take, drop,
  arith,
}
use d3b.PageCache.Host.{CacheHost, acquires, releases, put_at, request_acquire}
use d3b.PageCache.Entering.{Represents}
use d3b.PageCache.Eviction.{IsLeast, request_acquire-Represents}
use d3b.PageCache.Pages.{
  PageCache, Handed, page_at, new_page, acquire, finish_release, finish_release_on_wait, do_release,
  release, disk_write, disk_read, run_task, run_first, initialize_present, initialize_page,
  read_present, read_page, store_bytes, write_page, release_page, complete,
}
use d3b.PageCache.States.{
  System, reads, writes, releases_page, completes, releases_item, runs, Steps, start, next, opened,
  IsSound, Agrees,
}
use d3b.PageCache.Moves.{IsLatest}
use d3b.PageCache.Soundness.{opened-Steps-IsSound, handed-IsLatest}
use d3b.PageCache.Service.{run-IsServed, IsServed, HasNone, IsFree, run-IsUnmarked, IsUnmarked}

abbrev four : ℕ → ℕ
four k = 4

-- Items 1 and 2 in memory, of 4 bytes each.
abbrev two_items : CacheHost
two_items = record {
  more_recently_used = put_at 0 1 (put_at 1 2 (λ _. 0));
  less_recently_used = put_at 0 2 (put_at 2 1 (λ _. 0));
  alive = put_at 1 true (put_at 2 true (λ _. false));
  active_footprint = 8;
  limit = 10;
}

two_items-Represents : Represents four two_items (1 ∷ 2 ∷ [])
two_items-Represents = record {
  chain = (refl, refl, (refl, refl, (refl, refl)));
  distinct = ((omega arith, tt), (tt, tt));
  no_sentinel = (omega arith, (omega arith, tt));
  alive = λ k. ground arith;
  active = refl;
}

request_acquire-Represents_example :
    (n : ℕ) × (h' : CacheHost) × (n ≤ 2)
    × (request_acquire four 9 3 two_items
        ≡ ok (h', acquires 3 ∷ map releases (take n (1 ∷ 2 ∷ []))))
    × Represents four h' (drop n (1 ∷ 2 ∷ []) ++ 3 ∷ [])
    × IsLeast four 10 (1 ∷ 2 ∷ 3 ∷ []) n
request_acquire-Represents_example =
    request_acquire-Represents four 9 3 two_items (1 ∷ 2 ∷ []) two_items-Represents (omega arith)
      refl (omega arith) (omega arith)

-- Two pages of two bytes.
abbrev file : ℕ → List ℕ
file n = n ∷ n ∷ []

abbrev s0 : System
s0 = opened 2 file

one_pos : 0 < 1
one_pos = omega arith

program : Unit {0}
unfolding page_at new_page acquire finish_release finish_release_on_wait do_release release
    disk_write disk_read run_task run_first initialize_present initialize_page read_present
    read_page store_bytes write_page release_page complete
program = tt

-- Page 3 is asked for twice, read, changed, asked for again when it was asked to leave, given back,
-- written, and read again.
abbrev reached : (s : System) × Steps s0 s
unfolding program
reached =
    let a =
      next (next (next (next start (reads 3 7 _ _ refl)) (runs 3 _ refl)) (reads 3 8 _ _ refl))
        (runs 3 _ refl) in
    let b = next (next a (completes 3 _ _ refl)) (writes 3 (9 ∷ 8 ∷ []) _ _ one_pos refl refl) in
    let c = next (next b (releases_item 3 _ refl refl)) (reads 3 9 _ _ refl) in
    let d =
      next (next (next c (releases_page 3 _ one_pos refl)) (completes 3 _ _ refl))
        (releases_page 3 _ one_pos refl) in
    (_, next (next (next (next d (runs 3 _ refl)) (runs 3 _ refl)) (runs 3 _ refl)) (runs 3 _ refl))

reached_lem :
    (complete 3 (reached.0).cache
      ≡ ok (record (reached.0).cache { posted = put_at 3 [] (reached.0).cache.posted }, 9 ∷ 8 ∷ []))
    × ((reached.0).cache.file 3 ≡ 9 ∷ 8 ∷ [])
    × ((reached.0).contents 3 ≡ some (9 ∷ 8 ∷ []))
unfolding program
reached_lem = (refl, refl, refl)

opened-Steps-IsSound_example : IsSound (reached.0)
opened-Steps-IsSound_example = opened-Steps-IsSound 2 file (reached.0) (reached.1)

handed-IsLatest_example :
    ((c : PageCache) × (handed : Handed) × (read_page 3 5 (reached.0).cache ≡ ok (c, handed))
      × IsLatest handed ((reached.0).contents 3))
    × (((reached.0).cache.posted 3 ≡ [])
        ⊎ ((c : PageCache) × (b : List ℕ) × (complete 3 (reached.0).cache ≡ ok (c, b))
            × Agrees b ((reached.0).contents 3)))
handed-IsLatest_example = handed-IsLatest 2 file (reached.0) 3 5 (reached.1)

run-IsServed_example :
    (HasNone ((reached.0).cache.present_pages 3)
      ⊎ ((c : PageCache) × (run_first 3 (reached.0).cache ≡ ok c)))
    × (((reached.0).held 3 ≡ 0) ⊎ IsFree (reached.0) 3 (1 ∷ 1 ∷ []))
    × (((reached.0).alive 3 ≡ false) ⊎ ((c : PageCache) × (release 3 (reached.0).cache ≡ ok c)))
    × IsServed ((reached.0).cache.present_pages 3)
run-IsServed_example = run-IsServed 2 file (reached.0) 3 (1 ∷ 1 ∷ []) (reached.1)

run-IsUnmarked_example : IsUnmarked ((reached.0).cache.present_pages 3)
run-IsUnmarked_example = run-IsUnmarked 2 file (reached.0) 3 (reached.1)

-- A page that is initialized and not present is read from the file.
initialized :
    (c1 c2 c3 : PageCache) × (initialize_page 4 1 s0.cache ≡ ok (c1, none))
    × (run_first 4 c1 ≡ ok c2)
    × (run_first 4 c2 ≡ ok c3)
    × (c3.posted 4 ≡ 1 ∷ [])
    × (complete 4 c3 ≡ ok (record c3 { posted = put_at 4 [] c3.posted }, 4 ∷ 4 ∷ []))
unfolding program
initialized = (_, _, _, refl, refl, refl, refl, refl)
