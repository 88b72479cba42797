-- ===== src/PageCache/Pages.antt =====
-- page-cache.cpp:116-331: `PageInfo` and `PageCache`. A section under the mutex of the cache is one step:
-- what runs after it, in the pool or after the lock is given up, is a task of the page, and a read
-- closure that was posted to its event loop is in `posted`. A callback is a number.
use d3b.Base.{
  ℕ, zero, suc, ◌-◌, Bool, true, false, not, ◌&&◌, List, [], ◌∷◌, ◌++◌, Option, none, some, Result,
  ok, throws, ◌>>=◌, or_throw, assert, dangling, assertion_failed, out_of_range, length, ltb, ◌==◌,
  if◌then◌else◌,
}
use d3b.PageCache.Host.{put_at}

pub data Task : Type 0 where
  -- `requestAcquire(this)`, the rest of `finishRelease` from `afterRelease` on, and the members that
  -- are given to the pool
  acquire_task after_release disk_read_task disk_write_task : Task

-- The four flags of `p_flags` are fields; `tasks` are those that are still to run.
pub record PageInfo : Type 0 where
  pub buffer : Option (List ℕ)
  pub wait_queue : List ℕ
  pub use_count : ℕ
  pub loaded : Bool
  pub dirty : Bool
  pub initialize : Bool
  pub release : Bool
  pub tasks : List Task

pub record PageCache : Type 0 where
  pub page_size : ℕ
  pub present_pages : ℕ → Option PageInfo
  -- the pages of `p_file`
  pub file : ℕ → List ℕ
  pub posted : ℕ → List ℕ

abbrev pub zero_bytes : ℕ → List ℕ
zero_bytes zero = []
zero_bytes (suc n) = 0 ∷ zero_bytes n

-- `PageInfo::PageInfo`, with its first request, for which the cache host is asked.
unfoldable pub new_page : ℕ → PageInfo
new_page callback = record {
  buffer = none;
  wait_queue = callback ∷ [];
  use_count = 0;
  loaded = false;
  dirty = false;
  initialize = false;
  release = false;
  tasks = acquire_task ∷ [];
}

abbrev pub set_page : ℕ → PageInfo → PageCache → PageCache
set_page number info c = record c { present_pages = put_at number (some info) c.present_pages }

-- The callbacks of the wait queue are posted.
abbrev pub post_all : ℕ → List ℕ → PageCache → PageCache
post_all number callbacks c = record c {
  posted = put_at number (c.posted number ++ callbacks) c.posted;
}

unfoldable pub page_at : ℕ → PageCache → Result PageInfo
page_at number c = or_throw (c.present_pages number) dangling

unfoldable pub acquire : ℕ → PageInfo → PageCache → Result PageCache
acquire number info c =
    let info1 : PageInfo = record info { buffer = some (zero_bytes c.page_size) } in
    if info.initialize
    then assert (info.use_count == 0) (
        assert (length info.wait_queue == 1) (
          ok (
            set_page number
              (record info1 { initialize = false; loaded = true; use_count = 1; wait_queue = [] })
              (post_all number info.wait_queue c))))
    else ok (set_page number (record info1 { tasks = info1.tasks ++ disk_read_task ∷ [] }) c)

-- `finishRelease` up to where it gives up the lock.
unfoldable pub finish_release : ℕ → PageInfo → PageCache → Result PageCache
finish_release number info c =
    ok (set_page number (record info { buffer = none; tasks = info.tasks ++ after_release ∷ [] }) c)

-- The rest of it, with the lock again.
unfoldable pub finish_release_on_wait : ℕ → PageInfo → PageCache → Result PageCache
finish_release_on_wait number info c = elim info.wait_queue [
  | [] ↦ ok (record c { present_pages = put_at number none c.present_pages })
  | callback ∷ rest ↦
      ok (set_page number (record info { tasks = info.tasks ++ acquire_task ∷ [] }) c)
]

unfoldable pub do_release : ℕ → PageInfo → PageCache → Result PageCache
unfolding finish_release
do_release number info c = assert (info.loaded && info.release) (
    assert (info.use_count == 0) (
      let info1 : PageInfo = record info { loaded = false; release = false } in
      if info.dirty
      then ok (set_page number (record info1 { tasks = info1.tasks ++ disk_write_task ∷ [] }) c)
      else finish_release number info1 c))

unfoldable pub release : ℕ → PageCache → Result PageCache
unfolding page_at do_release
release number c = do
  info ← page_at number c
  let info1 : PageInfo = record info { release = true }
  if info1.loaded && info1.use_count == 0
      then do_release number info1 c
      else ok (set_page number info1 c)

unfoldable pub disk_write : ℕ → PageInfo → PageCache → Result PageCache
unfolding finish_release
disk_write number info c = do
  buffer ← or_throw info.buffer dangling
  finish_release number (record info { dirty = false })
      (record c { file = put_at number buffer c.file })

unfoldable pub disk_read : ℕ → PageInfo → PageCache → Result PageCache
disk_read number info c = do
  buffer ← or_throw info.buffer dangling
  assert (info.use_count == 0) (
      ok (
        set_page number
          (record info {
            buffer = some (c.file number);
            loaded = true;
            use_count = length info.wait_queue;
            wait_queue = [];
          })
          (post_all number info.wait_queue c)))

-- One of the tasks of a page is run.
unfoldable pub run_task : Task → ℕ → PageInfo → PageCache → Result PageCache
unfolding acquire finish_release_on_wait disk_read disk_write
run_task acquire_task number info c = acquire number info c
run_task after_release number info c = finish_release_on_wait number info c
run_task disk_read_task number info c = disk_read number info c
run_task disk_write_task number info c = disk_write number info c

unfoldable pub run_first : ℕ → PageCache → Result PageCache
unfolding page_at run_task
run_first number c = do
  info ← page_at number c
  elim info.tasks [
    | [] ↦ throws dangling
    | task ∷ tasks ↦ run_task task number (record info { tasks = tasks }) c
  ]

-- A call that hands out a page: the buffer where the callback is called at once.
abbrev pub Handed : Type 0
Handed = Option (List ℕ)

-- `initializePage`, where the page is present.
unfoldable pub initialize_present : ℕ → ℕ → PageInfo → PageCache → Result (PageCache × Handed)
initialize_present number callback info c = assert (length info.wait_queue == 0) (
    assert info.loaded (
      assert (info.use_count == 0) (
        if info.release
        then ok (
          set_page number
              (record info { initialize = true; wait_queue = info.wait_queue ++ callback ∷ [] }) c,
          none,
        )
        else ok (set_page number (record info { use_count = 1 }) c, info.buffer))))

unfoldable pub initialize_page : ℕ → ℕ → PageCache → Result (PageCache × Handed)
unfolding new_page initialize_present
initialize_page number callback c = elim (c.present_pages number) [
  | none ↦ ok (set_page number (new_page callback) c, none)
  | some info ↦ initialize_present number callback info c
]

-- `readPage`, where the page is present.
unfoldable pub read_present : ℕ → ℕ → PageInfo → PageCache → Result (PageCache × Handed)
read_present number callback info c = assert (not info.initialize) (
    if info.loaded && not info.release
    then ok (set_page number (record info { use_count = suc info.use_count }) c, info.buffer)
    else ok
        (set_page number (record info { wait_queue = info.wait_queue ++ callback ∷ [] }) c, none))

unfoldable pub read_page : ℕ → ℕ → PageCache → Result (PageCache × Handed)
unfolding new_page read_present
read_page number callback c = elim (c.present_pages number) [
  | none ↦ ok (set_page number (new_page callback) c, none)
  | some info ↦ read_present number callback info c
]

-- The bytes that a client stores through the pointer that it was handed.
unfoldable pub store_bytes : ℕ → List ℕ → PageCache → Result PageCache
unfolding page_at
store_bytes number bytes c = do
  info ← page_at number c
  buffer ← or_throw info.buffer dangling
  ok (set_page number (record info { buffer = some bytes }) c)

unfoldable pub write_page : ℕ → PageCache → Result PageCache
write_page number c = do
  info ← or_throw (c.present_pages number) out_of_range
  ok (set_page number (record info { dirty = true }) c)

unfoldable pub release_page : ℕ → PageCache → Result PageCache
unfolding do_release
release_page number c = do
  info ← or_throw (c.present_pages number) assertion_failed
  assert (ltb 0 info.use_count) (
      let info1 : PageInfo = record info { use_count = info.use_count - 1 } in
      if info1.use_count == 0 && info1.release
      then do_release number info1 c
      else ok (set_page number info1 c))

-- `ReadClosure::complete`: the buffer that the callback is called with.
unfoldable pub complete : ℕ → PageCache → Result (PageCache × List ℕ)
complete number c = elim (c.posted number) [
  | [] ↦ throws dangling
  | callback ∷ rest ↦ do
    info ← or_throw (c.present_pages number) out_of_range
    buffer ← or_throw info.buffer dangling
    ok (record c { posted = put_at number rest c.posted }, buffer)
]
