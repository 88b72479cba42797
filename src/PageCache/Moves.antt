-- ===== src/PageCache/Moves.antt =====
-- page-cache.cpp:116-331: what each call does to a page in each of its states.
use d3b.Base.{
  ℕ, zero, suc, ◌≡◌, refl, sym, subst, Bool, true, false, Bool-cases, inl, inr, ◌⊎◌, List, [], ◌∷◌,
  ◌++◌, Option, none, some, Result, ok, throws, assertion_failed, length, ◌==◌, arith,
}
use d3b.PageCache.Pages.{
  PageInfo, PageCache, Handed, new_page, set_page, initialize_page, initialize_present, read_page,
  read_present,
}
use d3b.PageCache.States.{
  System, View, view, IsPage, absent, asked, reading, staying, leaving, writing, finishing, IsSound,
  Agrees, IsSaved, resident, after_read, after_initialize,
}

-- A step that changes one page.
pub IsSound-step :
    (s s' : System) (n : ℕ) (v : View)
    → IsSound s
    → view s' n ≡ v
    → ((j : ℕ) → (n == j) ≡ false → view s' j ≡ view s j)
    → IsPage v
    → IsSound s'
IsSound-step s s' n v h e others p j = elim (Bool-cases (n == j)) [
  | inl same ↦
      let q : n ≡ j = ground (arith, same) in
      subst (λ (k : ℕ). IsPage (view s' k)) q (subst (λ (w : View). IsPage w) (sym e) p)
  | inr other ↦ subst (λ (w : View). IsPage w) (sym (others j other)) (h j)
]

pub not_zero : (k : ℕ) → (suc k == 0) ≡ false
not_zero k = ground arith

IsSaved-none : (dirty : Bool) (bytes : List ℕ) → IsSaved dirty bytes none
IsSaved-none true bytes = tt
IsSaved-none false bytes = tt

-- The buffer that a callback gets is what was stored last.
abbrev pub IsLatest : Handed → Option (List ℕ) → Type 0
IsLatest none contents = Unit
IsLatest (some b) contents = Agrees b contents

module _ (s : System) (n : ℕ) (h : IsSound s) where
  same : (n == n) ≡ true
  same = ground arith

  abbrev pub Reads : Result (PageCache × Handed) → Type 0
  Reads r =
      (c : PageCache) × (handed : Handed) × (r ≡ ok (c, handed))
      × IsSound (after_read s n c handed)
      × IsLatest handed (s.contents n)

  -- The request waits.
  waits :
      (callback : ℕ) (info : PageInfo)
      → s.cache.present_pages n ≡ some info
      → read_present n callback info s.cache
        ≡ ok (
          set_page n (record info { wait_queue = info.wait_queue ++ callback ∷ [] }) s.cache,
          none,
        )
      → IsPage (record (view s n) {
        page = some (record info { wait_queue = info.wait_queue ++ callback ∷ [] });
      })
      → Reads (read_page n callback s.cache)
  unfolding read_page
  waits callback info e r p =
      let c = set_page n (record info { wait_queue = info.wait_queue ++ callback ∷ [] }) s.cache in
      (
        c,
        none,
        rw (e, read_page) r,
        IsSound-step s (after_read s n c none) n
            (record (view s n) {
              page = some (record info { wait_queue = info.wait_queue ++ callback ∷ [] });
            })
            h (rw same refl) (λ j o. rw o refl) p,
        tt,
      )

  pub read_page-Reads : (callback : ℕ) → IsPage (view s n) → Reads (read_page n callback s.cache)
  unfolding read_page read_present new_page
  read_page-Reads callback (absent e a i f) =
      let c = set_page n (new_page callback) s.cache in
      (
        c,
        none,
        rw (e, read_page) refl,
        IsSound-step s (after_read s n c none) n
            (record (view s n) { page = some (new_page callback) }) h (rw same refl)
            (λ j o. rw o refl) (asked callback [] refl a i f),
        tt,
      )
  read_page-Reads callback (asked k q e a i f) =
      waits callback _ e refl (asked k (q ++ callback ∷ []) refl a i f)
  read_page-Reads callback (reading b k q l e a i f) =
      waits callback _ e refl (reading b k (q ++ callback ∷ []) l refl a i f)
  read_page-Reads callback (staying b uses dirty e a u f g) =
      let c = set_page n (resident b [] (suc uses) dirty false) s.cache in
      (
        c,
        some b,
        rw (e, read_page) refl,
        IsSound-step s (after_read s n c (some b)) n
            (record (view s n) {
              page = some (resident b [] (suc uses) dirty false);
              held = suc (s.held n);
            })
            h (rw same refl) (λ j o. rw o refl)
            (staying b (suc uses) dirty refl a (omega (arith, u)) f g),
        f,
      )
  read_page-Reads callback (leaving b q uses dirty e a u f g) =
      waits callback _ e refl (leaving b (q ++ callback ∷ []) uses dirty refl a u f g)
  read_page-Reads callback (writing b q e a i f) =
      waits callback _ e refl (writing b (q ++ callback ∷ []) refl a i f)
  read_page-Reads callback (finishing q e a i f) =
      waits callback _ e refl (finishing (q ++ callback ∷ []) refl a i f)

  -- `initializePage` succeeds, or an assertion of it fails on a page that is present.
  abbrev pub Initializes : Result (PageCache × Handed) → Type 0
  Initializes r =
      ((c : PageCache) × (handed : Handed) × (r ≡ ok (c, handed))
        × IsSound (after_initialize s n c handed))
      ⊎ (r ≡ throws assertion_failed)

  pub initialize_page-Initializes :
      (callback : ℕ) → IsPage (view s n) → Initializes (initialize_page n callback s.cache)
  unfolding initialize_page initialize_present new_page
  initialize_page-Initializes callback (absent e a i f) =
      let c = set_page n (new_page callback) s.cache in
      inl (
        c,
        none,
        rw (e, initialize_page) refl,
        IsSound-step s (after_initialize s n c none) n
            (record (view s n) { page = some (new_page callback); contents = none }) h
            (rw same refl) (λ j o. rw o refl) (asked callback [] refl a i tt),
      )
  initialize_page-Initializes callback (asked k q e a i f) =
      inr (rw (e, initialize_page) (rw (not_zero (length q)) refl))
  initialize_page-Initializes callback (reading b k q l e a i f) =
      inr (rw (e, initialize_page) (rw (not_zero (length q)) refl))
  initialize_page-Initializes callback (staying b zero dirty e a u f g) =
      let c = set_page n (resident b [] 1 dirty false) s.cache in
      inl (
        c,
        some b,
        rw (e, initialize_page) refl,
        IsSound-step s (after_initialize s n c (some b)) n
            (record (view s n) {
              page = some (resident b [] 1 dirty false);
              held = suc (s.held n);
              contents = none;
            })
            h (rw same refl) (λ j o. rw o refl)
            (staying b 1 dirty refl a (omega (arith, u)) tt (IsSaved-none dirty (s.cache.file n))),
      )
  initialize_page-Initializes callback (staying b (suc uses) dirty e a u f g) =
      inr (rw (e, initialize_page) (rw (not_zero uses) refl))
  initialize_page-Initializes callback (leaving b [] uses dirty e a u f g) =
      inr (rw (e, initialize_page) (rw (not_zero uses) refl))
  initialize_page-Initializes callback (leaving b (k ∷ q) uses dirty e a u f g) =
      inr (rw (e, initialize_page) (rw (not_zero (length q)) refl))
  initialize_page-Initializes callback (writing b [] e a i f) = inr (rw (e, initialize_page) refl)
  initialize_page-Initializes callback (writing b (k ∷ q) e a i f) =
      inr (rw (e, initialize_page) (rw (not_zero (length q)) refl))
  initialize_page-Initializes callback (finishing [] e a i f) = inr (rw (e, initialize_page) refl)
  initialize_page-Initializes callback (finishing (k ∷ q) e a i f) =
      inr (rw (e, initialize_page) (rw (not_zero (length q)) refl))
