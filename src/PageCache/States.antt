-- ===== src/PageCache/States.antt =====
-- page-cache.cpp:116-331: the runs of the page cache. Clients call it, the cache host asks pages to leave, and
-- tasks and posted closures run, in any order. `held` counts the callbacks that have been called for a
-- page and have not been followed by `releasePage`, `alive` is the flag of the cache host, and `contents`
-- are the bytes that a client stored last, none after `initializePage`. A client stores to a page, and
-- calls `writePage` and `releasePage`, only while it holds the page.
use d3b.Base.{
  ℕ, suc, ◌+◌, ◌-◌, ◌<◌, ◌≡◌, Bool, true, false, not, ◌||◌, List, [], ◌∷◌, Option, none, some, ok,
  length,
}
use d3b.PageCache.Host.{put_at}
use d3b.PageCache.Pages.{
  Task, acquire_task, after_release, disk_read_task, disk_write_task, PageInfo, PageCache, Handed,
  run_first, initialize_page, read_page, store_bytes, write_page, release_page, release, complete,
}

pub record System : Type 0 where
  pub cache : PageCache
  pub held : ℕ → ℕ
  pub alive : ℕ → Bool
  pub contents : ℕ → Option (List ℕ)

-- An open cache over a file.
abbrev pub opened : ℕ → (ℕ → List ℕ) → System
opened page_size file = record {
  cache = record {
    page_size = page_size;
    present_pages = λ _. none;
    file = file;
    posted = λ _. [];
  };
  held = λ _. 0;
  alive = λ _. false;
  contents = λ n. some (file n);
}

abbrev pub hold : ℕ → Handed → (ℕ → ℕ) → ℕ → ℕ
hold n none held = held
hold n (some b) held = put_at n (suc (held n)) held

-- The first task of a page is its `requestAcquire`.
abbrev pub starts : List Task → Bool
starts [] = false
starts (acquire_task ∷ tasks) = true
starts (after_release ∷ tasks) = false
starts (disk_read_task ∷ tasks) = false
starts (disk_write_task ∷ tasks) = false

abbrev pub is_asked : Option PageInfo → Bool
is_asked none = false
is_asked (some info) = starts info.tasks

-- What each kind of step leaves, where the call gives `c`.
module _ (s : System) (n : ℕ) (c : PageCache) where
  abbrev pub after_read : Handed → System
  after_read h = record s { cache = c; held = hold n h s.held }

  abbrev pub after_initialize : Handed → System
  after_initialize h = record s {
    cache = c;
    held = hold n h s.held;
    contents = put_at n none s.contents;
  }

  abbrev pub after_write : List ℕ → System
  after_write bytes = record s { cache = c; contents = put_at n (some bytes) s.contents }

  abbrev pub after_release_page : System
  after_release_page = record s { cache = c; held = put_at n (s.held n - 1) s.held }

  abbrev pub after_complete : System
  after_complete = record s { cache = c; held = put_at n (suc (s.held n)) s.held }

  abbrev pub after_release_item : System
  after_release_item = record s { cache = c; alive = put_at n false s.alive }

  abbrev pub after_task : System
  after_task = record s {
    cache = c;
    alive = put_at n (is_asked (s.cache.present_pages n) || s.alive n) s.alive;
  }

pub data Step (s : System) : System → Type 0 where
  reads :
      (n callback : ℕ) (c : PageCache) (h : Handed)
      → read_page n callback s.cache ≡ ok (c, h)
      → Step s (after_read s n c h)
  initializes :
      (n callback : ℕ) (c : PageCache) (h : Handed)
      → initialize_page n callback s.cache ≡ ok (c, h)
      → Step s (after_initialize s n c h)
  writes :
      (n : ℕ) (bytes : List ℕ) (c1 c2 : PageCache)
      → 0 < s.held n
      → store_bytes n bytes s.cache ≡ ok c1
      → write_page n c1 ≡ ok c2
      → Step s (after_write s n c2 bytes)
  releases_page :
      (n : ℕ) (c : PageCache)
      → 0 < s.held n
      → release_page n s.cache ≡ ok c
      → Step s (after_release_page s n c)
  completes :
      (n : ℕ) (c : PageCache) (bytes : List ℕ)
      → complete n s.cache ≡ ok (c, bytes)
      → Step s (after_complete s n c)
  releases_item :
      (n : ℕ) (c : PageCache)
      → s.alive n ≡ true
      → release n s.cache ≡ ok c
      → Step s (after_release_item s n c)
  runs : (n : ℕ) (c : PageCache) → run_first n s.cache ≡ ok c → Step s (after_task s n c)

pub data Steps (s : System) : System → Type 0 where
  start : Steps s s
  next : {r t : System} → Steps s r → Step r t → Steps s t

-- What the invariant looks at for one page.
pub record View : Type 0 where
  pub page : Option PageInfo
  pub posted : List ℕ
  pub held : ℕ
  pub alive : Bool
  pub file : List ℕ
  pub contents : Option (List ℕ)

abbrev pub view : System → ℕ → View
view s n = record {
  page = s.cache.present_pages n;
  posted = s.cache.posted n;
  held = s.held n;
  alive = s.alive n;
  file = s.cache.file n;
  contents = s.contents n;
}

abbrev pub Agrees : List ℕ → Option (List ℕ) → Type 0
Agrees bytes none = Unit
Agrees bytes (some w) = bytes ≡ w

-- A page that has changed need not be in the file.
abbrev pub IsSaved : Bool → List ℕ → Option (List ℕ) → Type 0
IsSaved true bytes contents = Unit
IsSaved false bytes contents = Agrees bytes contents

-- A page that is neither loaded nor read, with requests that wait for it.
abbrev pub unloaded : Option (List ℕ) → List ℕ → Bool → Bool → Task → PageInfo
unloaded buffer wait_queue dirty leaving task = record {
  buffer = buffer;
  wait_queue = wait_queue;
  use_count = 0;
  loaded = false;
  dirty = dirty;
  initialize = false;
  release = leaving;
  tasks = task ∷ [];
}

abbrev pub resident : List ℕ → List ℕ → ℕ → Bool → Bool → PageInfo
resident buffer wait_queue use_count dirty leaving = record {
  buffer = some buffer;
  wait_queue = wait_queue;
  use_count = use_count;
  loaded = true;
  dirty = dirty;
  initialize = false;
  release = leaving;
  tasks = [];
}

abbrev pub IsIdle : View → Type 0
IsIdle v = (v.posted ≡ []) × (v.held ≡ 0)

-- The states of a page.
pub data IsPage (v : View) : Type 0 where
  absent : v.page ≡ none → v.alive ≡ false → IsIdle v → Agrees v.file v.contents → IsPage v
  asked :
      (k : ℕ) (q : List ℕ)
      → v.page ≡ some (unloaded none (k ∷ q) false false acquire_task)
      → v.alive ≡ false
      → IsIdle v
      → Agrees v.file v.contents
      → IsPage v
  reading :
      (b : List ℕ) (k : ℕ) (q : List ℕ) (leaving : Bool)
      → v.page ≡ some (unloaded (some b) (k ∷ q) false leaving disk_read_task)
      → v.alive ≡ not leaving
      → IsIdle v
      → Agrees v.file v.contents
      → IsPage v
  staying :
      (b : List ℕ) (uses : ℕ) (dirty : Bool)
      → v.page ≡ some (resident b [] uses dirty false)
      → v.alive ≡ true
      → uses ≡ length v.posted + v.held
      → Agrees b v.contents
      → IsSaved dirty v.file v.contents
      → IsPage v
  leaving :
      (b q : List ℕ) (uses : ℕ) (dirty : Bool)
      → v.page ≡ some (resident b q (suc uses) dirty true)
      → v.alive ≡ false
      → suc uses ≡ length v.posted + v.held
      → Agrees b v.contents
      → IsSaved dirty v.file v.contents
      → IsPage v
  writing :
      (b q : List ℕ)
      → v.page ≡ some (unloaded (some b) q true false disk_write_task)
      → v.alive ≡ false
      → IsIdle v
      → Agrees b v.contents
      → IsPage v
  finishing :
      (q : List ℕ)
      → v.page ≡ some (unloaded none q false false after_release)
      → v.alive ≡ false
      → IsIdle v
      → Agrees v.file v.contents
      → IsPage v

abbrev pub IsSound : System → Type 0
IsSound s = (n : ℕ) → IsPage (view s n)
