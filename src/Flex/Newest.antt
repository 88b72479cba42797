-- ===== src/Flex/Newest.antt =====
-- flex-storage.cpp:175-271: the newest version of a document, and the entry of the index that has it.
use d3b.Base.{
  ℕ, zero, suc, ◌<◌, ◌≤◌, ◌≡◌, ◌≢◌, ◌⊎◌, refl, ap, sym, subst, ◌∙◌, Bool, true, false, not, ◌&&◌,
  Bool-cases, inl, inr, List, [], ◌∷◌, ◌++◌, drop, Option, none, some, some_eq, ok, ◌>>=◌,
  >>=-eq-ok, length, get_elem?, All, leb, ◌==◌, if◌then◌else◌, append_nil, arith, same_bytes,
}
use d3b.Types.{DocumentId, SequenceId, Buffer}
use d3b.Btree.{Block, Btree, read_block}
use d3b.Btree.Find.{leaf_at, get_entry, get_key, get_value, seek}
use d3b.Btree.Contents.{tally}
use d3b.RandomAccess.{read}
use d3b.RandomAccess.Bytes.{ArePages, file_bytes}
use d3b.RandomAccess.Transfers.{read_lem}
use d3b.Flex.{
  Index, Reference, pack_le, unpack_le, pack_reference, unpack_reference, FlexFiles, on_seek,
  on_index_found,
}
use d3b.Flex.Documents.{index_of, first_le, second_le}
use d3b.Flex.Versions.{two_64, rank_of, IsId, Version, index_at, entry, entries}

-- Where a tally is 0, no version passes the test.
pub tally-All :
    (p : Index × List ℕ → Bool) (vs : List Version)
    → tally p (entries vs) ≡ 0
    → All (λ v. p (entry v) ≡ false) vs
tally-All p [] h = tt
tally-All p (v ∷ vs) h = (ground (arith, h), tally-All p vs (ground (arith, h)))

-- Where it is not, one does.
pub tally-get :
    (p : Index × List ℕ → Bool) (vs : List Version)
    → 0 < tally p (entries vs)
    → (v : Version) × (i : ℕ) × (get_elem? vs i ≡ some v) × (p (entry v) ≡ true)
tally-get p [] h = absurd (omega (arith, h))
tally-get p (v ∷ vs) h = elim (Bool-cases (p (entry v))) [
  | inl e ↦ (v, 0, refl, e)
  | inr e ↦ let (w, i, q, r) = tally-get p vs (ground (arith, h, e)) in (w, suc i, q, r)
]

pub All-get_elem? :
    (P : Version → Type 0) (i : ℕ) (v : Version) (vs : List Version)
    → get_elem? vs i ≡ some v
    → All P vs
    → P v
All-get_elem? P i v [] q h = absurd (cc)
All-get_elem? P zero v (x ∷ vs) q h = subst P (some_eq q) h.0
All-get_elem? P (suc i) v (x ∷ vs) q h = All-get_elem? P i v vs q h.1

abbrev pub same_entry : Index × List ℕ → Index × List ℕ → Bool
same_entry (a, xs) (b, ys) =
    a.document_id == b.document_id && (a.sequence_id == b.sequence_id && same_bytes xs ys)

pub unpack_reference-pack_reference :
    (offset size : ℕ)
    → offset < two_64
    → size < two_64
    → unpack_reference (pack_reference (record { offset = offset; length = size }))
      ≡ record { offset = offset; length = size }
unfolding unpack_reference pack_reference
unpack_reference-pack_reference offset size h k =
    let bytes = pack_le 8 offset ++ pack_le 8 size in
    let o : unpack_le 8 bytes ≡ offset =
      ap (λ (l : List ℕ). unpack_le 8 l) (sym (append_nil bytes)) ∙ first_le offset size [] h in
    let s : unpack_le 8 (drop 8 bytes) ≡ size =
      ap (λ (l : List ℕ). unpack_le 8 (drop 8 l)) (sym (append_nil bytes))
      ∙ second_le offset size [] k in
    rw (o, s) refl

pub has_block :
    {K : Type 0} {V : Type 0} (n i : ℕ) (t : Btree K V) (e : K × V)
    → get_entry (some (n, i)) t ≡ ok e
    → (b : Block K V) × (read_block n t ≡ ok b)
unfolding get_entry leaf_at
has_block n i t e q =
    let (x, at, rest) = >>=-eq-ok (leaf_at n t) _ q in
    let (b, r, rest') = >>=-eq-ok (read_block n t) _ at in (b, r)

-- The entry that is read at a reference.
pub read_at :
    (document_id : DocumentId) (n i : ℕ) (e : Index × List ℕ) (f : FlexFiles) (offset : ℕ)
    (buffer : Buffer)
    → get_entry (some (n, i)) f.index_tree ≡ ok e
    → e.1 ≡ pack_reference (record { offset = offset; length = length buffer })
    → offset < two_64
    → length buffer < two_64
    → ArePages f.data_file
    → file_bytes f.data_file offset (length buffer) ≡ buffer
    → on_index_found document_id (some (n, i)) f
      ≡ ok (if (e.0).document_id == document_id then some ((e.0).sequence_id, buffer) else none)
unfolding on_index_found on_seek seek get_key get_value
read_at document_id n i e f offset buffer q r o l pages b =
    let (block, at) = has_block n i f.index_tree e q in
    let ref = ap unpack_reference r ∙ unpack_reference-pack_reference offset (length buffer) o l in
    let bytes : read offset (length buffer) f.data_file ≡ ok buffer =
      read_lem offset (length buffer) f.data_file pages ∙ ap (λ (x : List ℕ). ok x) b in
    elim (Bool-cases ((e.0).document_id == document_id)) [
      | inl m ↦
          let found : (read (unpack_reference (e.1)).offset (unpack_reference (e.1)).length
                  f.data_file
                >>= (λ (x : List ℕ). ok (some ((e.0).sequence_id, x))))
              ≡ ok (some ((e.0).sequence_id, buffer)) =
            ap
              (λ (x : Reference).
                read x.offset x.length f.data_file
                >>= (λ (y : List ℕ). ok (some ((e.0).sequence_id, y))))
              ref
            ∙ rw bytes refl in
          rw (at, q, m) found
      | inr m ↦ rw (at, q, m) refl
    ]

-- A version of another document, or after the sequence id.
abbrev pub IsElse : DocumentId → SequenceId → Version → Type 0
IsElse d s v = (v.document_id ≢ d) ⊎ (s < v.sequence_id)

-- What a fetch answers.
abbrev pub IsNewest : DocumentId → SequenceId → List Version → Option (SequenceId × Buffer) → Type 0
IsNewest d s vs none = All (IsElse d s) vs
IsNewest d s vs (some (q, buffer)) =
    ((v : Version) × (i : ℕ) × (get_elem? vs i ≡ some v)
      × (v.document_id ≡ d)
      × (v.sequence_id ≡ q)
      × (v.buffer ≡ buffer))
    × (q ≤ s)
    × All (λ v. IsElse d s v ⊎ (v.sequence_id ≤ q)) vs

-- Every version is of another kind, where its rank is above that of the key.
pub above-IsElse :
    (d : DocumentId) (s : SequenceId) (v : Version)
    → rank_of (index_of d s) < rank_of (index_at v)
    → IsElse d s v
above-IsElse d s v l = elim (Bool-cases (v.document_id == d)) [
  | inl e ↦ let same : v.document_id ≡ d = ground (arith, e) in inr (omega (arith, same, l))
  | inr e ↦ inl (λ z. absurd (ground (arith, e, z)))
]

pub passes_not : (r t b : ℕ) → (leb r t && not (leb r b)) ≡ false → (t < r) ⊎ (r ≤ b)
passes_not r t b h = elim (Bool-cases (leb r t)) [
  | inl z ↦ inr (ground (arith, z, h))
  | inr z ↦ inl (ground (arith, z))
]

pub passes_none : (r t b : ℕ) → (t < r) ⊎ (r ≤ b) → (leb r t && not (leb r b)) ≡ false
passes_none r t b (inl l) = ground (arith, l)
passes_none r t b (inr l) = ground (arith, l)

-- The versions beside the one found, where it is of the document, and where it is of another.
pub beside-IsElse :
    (d : DocumentId) (s : SequenceId) (e : Index) (v : Version)
    → e.document_id ≡ d
    → IsId e
    → (rank_of (index_of d s) < rank_of (index_at v)) ⊎ (rank_of (index_at v) ≤ rank_of e)
    → IsElse d s v ⊎ (v.sequence_id ≤ e.sequence_id)
beside-IsElse d s e v same fits (inl l) = inl (above-IsElse d s v l)
beside-IsElse d s e v same fits (inr l) = elim (Bool-cases (v.document_id == d)) [
  | inl z ↦ let here : v.document_id ≡ d = ground (arith, z) in inr (omega (arith, here, same, l))
  | inr z ↦ inl (inl (λ w. absurd (ground (arith, w, z))))
]

pub other-IsElse :
    (d : DocumentId) (s : SequenceId) (e : Index) (v : Version)
    → e.document_id ≢ d
    → IsId e
    → s < two_64
    → rank_of e ≤ rank_of (index_of d s)
    → (rank_of (index_of d s) < rank_of (index_at v)) ⊎ (rank_of (index_at v) ≤ rank_of e)
    → IsElse d s v
other-IsElse d s e v other fits s_fits le (inl l) = above-IsElse d s v l
other-IsElse d s e v other (ed, es) s_fits le (inr l) = elim (Bool-cases (v.document_id == d)) [
  | inl z ↦
      let here : v.document_id ≡ d = ground (arith, z) in
      absurd (other (omega (arith, here, le, l, es, s_fits)))
  | inr z ↦ inl (λ w. absurd (ground (arith, w, z)))
]
