-- ===== src/Flex/Fetching.antt =====
-- flex-storage.cpp:175-271: `FetchClosure`, over the versions that the storage holds.
use d3b.Base.{
  ℕ, ◌<◌, ◌≤◌, ◌≡◌, ◌⊎◌, refl, ap, sym, subst, ◌∙◌, Bool, true, not, ◌&&◌, Bool-cases, inl, inr,
  List, Option, none, some, ok, length, get_elem?, All, All-mono, leb, ◌==◌, arith, same_bytes_iff,
}
use d3b.Types.{DocumentId, SequenceId, Buffer}
use d3b.Btree.Find.{find_prev}
use d3b.Btree.Contents.{tally, IsStored}
use d3b.Btree.Neighbours.{IsPrev}
use d3b.Btree.Empty.{InLeaves-total}
use d3b.Flex.{Index, pack_reference, compare_to, FlexFiles, on_index_found, fetch_document}
use d3b.Flex.Documents.{index_of}
use d3b.Flex.Versions.{
  two_64, rank_of, IsId, above_all, Version, index_at, entry, entries, IsReadable, Holds,
}
use d3b.Flex.Newest.{
  tally-All, tally-get, All-get_elem?, same_entry, read_at, IsNewest, above-IsElse, passes_not,
  passes_none, beside-IsElse, other-IsElse,
}

module _ (d : DocumentId) (s : SequenceId) (f : FlexFiles) (vs : List Version)
    (top : f.data_pointer < two_64) (fits : IsId (index_of d s)) (holds : Holds f vs) where
  abbrev target : Index
  target = index_of d s

  abbrev pub Fetches : Type 0
  Fetches = (r : Option (SequenceId × Buffer)) × (fetch_document d s f ≡ ok r) × IsNewest d s vs r

  pub fetched_none :
      find_prev (compare_to target) f.index_tree ≡ ok none
      → IsPrev rank_of IsId above_all (rank_of target) f.index_tree none
      → Fetches
  unfolding fetch_document on_index_found
  fetched_none e absent =
      let (g, level, pages, balanced, sorted, counts, readable) = holds in
      let p : Index × List ℕ → Bool = λ x. leb (rank_of (x.0)) (rank_of target) in
      let zero_total =
        InLeaves-total rank_of IsId above_all
          (λ (x : Index × List ℕ). rank_of target < rank_of (x.0)) p (λ x l. ground (arith, l))
          f.index_tree sorted.no_block absent in
      let none_passes = tally-All p vs (sym (counts p) ∙ zero_total) in
      (none, rw e refl, All-mono _ _ vs (λ v l. above-IsElse d s v (ground (arith, l))) none_passes)

  -- The version of the entry found.
  found_version :
      (e : Index × List ℕ)
      → IsStored f.index_tree e
      → (v : Version) × (i : ℕ) × (get_elem? vs i ≡ some v)
        × (index_at v ≡ e.0)
        × (e.1 ≡ pack_reference (record { offset = v.offset; length = length v.buffer }))
        × IsReadable f v
  found_version e stored =
      let (g, level, pages, balanced, sorted, counts, readable) = holds in
      let p = same_entry e in
      let itself : p e ≡ true = ground (arith, (same_bytes_iff (e.1) (e.1)).1 refl) in
      let some_passes : 0 < tally p (entries vs) = ground (arith, stored p, counts p, itself) in
      let (v, i, q, passes) = tally-get p vs some_passes in
      let bytes = (same_bytes_iff (e.1) (entry v).1).0 (ground (arith, passes)) in
      (v, i, q, ground (arith, passes), bytes, All-get_elem? (IsReadable f) i v vs q readable)

  pub fetched_some :
      (n i : ℕ)
      → find_prev (compare_to target) f.index_tree ≡ ok (some (n, i))
      → IsPrev rank_of IsId above_all (rank_of target) f.index_tree (some (n, i))
      → Fetches
  unfolding fetch_document
  fetched_some n i found (e, at, stored, le, beside) =
      let (g, level, pages, balanced, sorted, counts, readable) = holds in
      let (v, k, q, same, bytes, (v_fits, inside, back)) = found_version e stored in
      let p : Index × List ℕ → Bool =
        λ x. leb (rank_of (x.0)) (rank_of target) && not (leb (rank_of (x.0)) (rank_of (e.0))) in
      let zero_total =
        InLeaves-total rank_of IsId above_all
          (λ (x : Index × List ℕ).
            (rank_of target < rank_of (x.0)) ⊎ (rank_of (x.0) ≤ rank_of (e.0)))
          p (λ x l. passes_none (rank_of (x.0)) (rank_of target) (rank_of (e.0)) l) f.index_tree
          sorted.no_block beside in
      let none_passes = tally-All p vs (sym (counts p) ∙ zero_total) in
      let others : All
          (λ w. (rank_of target < rank_of (index_at w)) ⊎ (rank_of (index_at w) ≤ rank_of (e.0)))
          vs =
        All-mono _ _ vs
          (λ w l. passes_not (rank_of (index_at w)) (rank_of target) (rank_of (e.0)) l)
          none_passes in
      let e_fits = subst IsId same v_fits in
      let answer =
        read_at d n i e f v.offset v.buffer at bytes (omega (arith, inside, top))
          (omega (arith, inside, top)) pages back in
      elim (Bool-cases ((e.0).document_id == d)) [
        | inl m ↦
            let here : (e.0).document_id ≡ d = ground (arith, m) in
            (
              some ((e.0).sequence_id, v.buffer),
              rw found (answer ∙ rw m refl),
              (
                (
                  v,
                  k,
                  q,
                  ap (λ (x : Index). x.document_id) same ∙ here,
                  ap (λ (x : Index). x.sequence_id) same,
                  refl,
                ),
                omega (arith, le, here),
                All-mono _ _ vs (λ w l. beside-IsElse d s (e.0) w here e_fits l) others,
              ),
            )
        | inr m ↦ (
          none,
          rw found (answer ∙ rw m refl),
          All-mono _ _ vs
              (λ w l.
                other-IsElse d s (e.0) w (λ z. absurd (ground (arith, m, z))) e_fits
                  (omega (arith, fits.1)) le l)
              others,
        )
      ]
