-- ===== src/PageCache/Host.antt =====
-- page-cache.cpp:12-114: `CacheHost`, which says which items are in memory. Items are numbers, and 0 is the
-- sentinel; `footprint` is `getFootprint`. A call of the virtual `acquire` or `release` of an item is an
-- entry of the list of calls that is returned.
use d3b.Base.{
  ℕ, zero, suc, ◌+◌, ◌-◌, Bool, true, false, not, List, [], ◌∷◌, Result, ok, throws, ◌>>=◌, assert,
  dangling, ltb, ◌==◌, if◌then◌else◌,
}

pub data HostCall : Type 0 where
  acquires releases : ℕ → HostCall

-- A write to a field of the item `k`.
abbrev pub put_at {ℓ} : {A : Type ℓ} → ℕ → A → (ℕ → A) → ℕ → A
put_at k v f j = if k == j then v else f j

pub record CacheHost : Type 0 where
  pub more_recently_used : ℕ → ℕ
  pub less_recently_used : ℕ → ℕ
  pub alive : ℕ → Bool
  pub active_footprint : ℕ
  pub limit : ℕ

-- `CacheHost::CacheHost`, with `Cacheable::Cacheable` of every item
unfoldable pub new_host : CacheHost
new_host = record {
  more_recently_used = λ _. 0;
  less_recently_used = λ _. 0;
  alive = λ _. false;
  active_footprint = 0;
  limit = 0;
}

unfoldable pub set_limit : ℕ → CacheHost → CacheHost
set_limit limit h = record h { limit = limit }

unfoldable pub most_recently : CacheHost → ℕ
most_recently h = h.less_recently_used 0

unfoldable pub least_recently : CacheHost → ℕ
least_recently h = h.more_recently_used 0

-- `insert the item at the end of the lru queue`
unfoldable pub insert_last : ℕ → CacheHost → CacheHost
unfolding most_recently
insert_last item h =
    let h1 : CacheHost = record h {
      more_recently_used = put_at item 0 h.more_recently_used;
      less_recently_used = put_at item (most_recently h) h.less_recently_used;
    } in
    let h2 : CacheHost = record h1 {
      more_recently_used = put_at (most_recently h1) item h1.more_recently_used;
    } in
    record h2 { less_recently_used = put_at 0 item h2.less_recently_used }

-- `remove the item from the list`
unfoldable pub unlink_item : ℕ → CacheHost → CacheHost
unlink_item item h =
    let less_recently = h.less_recently_used item in
    let more_recently = h.more_recently_used item in
    record h {
      more_recently_used = put_at less_recently more_recently h.more_recently_used;
      less_recently_used = put_at more_recently less_recently h.less_recently_used;
    }

unfoldable pub on_access : ℕ → CacheHost → CacheHost
unfolding insert_last unlink_item
on_access item h = if h.alive item then insert_last item (unlink_item item h) else h

module _ (footprint : ℕ → ℕ) where
  -- `releaseItem`, to where the lock is given up.
  unfoldable pub release_item : ℕ → CacheHost → Result CacheHost
  unfolding unlink_item
  release_item item h = assert (not (item == 0)) (
      ok (
        unlink_item item (record h {
          alive = put_at item false h.alive;
          active_footprint = h.active_footprint - footprint item;
        })))

  -- The loop of `requestAcquire`, with a bound on its rounds.
  unfoldable pub release_excess : ℕ → CacheHost → Result (CacheHost × List HostCall)
  unfolding least_recently release_item
  release_excess zero h = throws dangling
  release_excess (suc fuel) h =
      let item = least_recently h in
      let round = (do
        h1 ← release_item item h
        (h2, calls) ← release_excess fuel h1
        ok (h2, releases item ∷ calls)) in
      if ltb h.limit h.active_footprint then round else ok (h, [])

  -- The source gives up the lock around each `release`; here no call of another thread comes between the
  -- rounds of the loop.
  unfoldable pub request_acquire : ℕ → ℕ → CacheHost → Result (CacheHost × List HostCall)
  unfolding insert_last release_excess
  request_acquire fuel item h = assert (ltb (footprint item) h.limit) (
      assert (not (h.alive item)) (do
        (h', calls) ← release_excess fuel (
            insert_last item (record h {
              alive = put_at item true h.alive;
              active_footprint = h.active_footprint + footprint item;
            }))
        ok (h', acquires item ∷ calls)))
