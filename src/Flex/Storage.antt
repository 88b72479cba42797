-- ===== src/Flex/Storage.antt =====
-- flex-storage.cpp: documents that are inserted into a new storage, and a fetch.
use d3b.Base.{
  ℕ, ◌+◌, ◌<◌, ◌≡◌, refl, ap, subst, ◌∙◌, inl, List, [], ◌∷◌, Option, none, some, Result, ok, ◌>>=◌,
  length, find, arith,
}
use d3b.Types.{DocumentId, SequenceId, Buffer}
use d3b.Btree.{leaf, create_tree}
use d3b.Btree.Find.{Ref, find_prev}
use d3b.Btree.Balance.{HasBlock, AreBlocks}
use d3b.Btree.Neighbours.{IsPrev}
use d3b.Btree.Previous.{find_prev-IsPrev}
use d3b.Btree.Empty.{whole, create_tree-IsSorted}
use d3b.Btree.Layout.{ents_per_leaf}
use d3b.RandomAccess.{Pages}
use d3b.RandomAccess.Bytes.{ArePages}
use d3b.Flex.{Index, compare_to, FlexFiles, create_files, insert_document, fetch_document}
use d3b.Flex.Documents.{leaf_capacity, inner_capacity, index_of}
use d3b.Flex.Versions.{
  two_64, rank_of, IsId, above_all, rank_of_bounds, compare_to-rank_of, Version, Holds,
  insert_document-Holds,
}
use d3b.Flex.Newest.{IsNewest}
use d3b.Flex.Fetching.{Fetches, fetched_none, fetched_some}

abbrev pub Document : Type 0
Document = DocumentId × (SequenceId × Buffer)

-- The documents are inserted in order.
abbrev pub insert_all : List Document → FlexFiles → Result FlexFiles
insert_all [] f = ok f
insert_all ((d, (s, buffer)) ∷ documents) f = do
  f' ← insert_document d s buffer f
  insert_all documents f'

-- The documents with where they lie, the last one first.
abbrev pub versions : ℕ → List Document → List Version → List Version
versions offset [] vs = vs
versions offset ((d, (s, buffer)) ∷ documents) vs =
    versions (offset + length buffer) documents
      (record { document_id = d; sequence_id = s; buffer = buffer; offset = offset } ∷ vs)

abbrev pub size_of : List Document → ℕ
size_of [] = 0
size_of ((d, (s, buffer)) ∷ documents) = length buffer + size_of documents

abbrev pub AreIds : List Document → Type 0
AreIds [] = Unit
AreIds ((d, (s, buffer)) ∷ documents) = IsId (index_of d s) × AreIds documents

insert_all-Holds :
    (documents : List Document) (f : FlexFiles) (vs : List Version)
    → AreIds documents
    → Holds f vs
    → (f' : FlexFiles) × (insert_all documents f ≡ ok f')
      × (f'.data_pointer ≡ f.data_pointer + size_of documents)
      × Holds f' (versions f.data_pointer documents vs)
insert_all-Holds [] f vs fits h = (f, refl, omega arith, h)
insert_all-Holds ((d, (s, buffer)) ∷ documents) f vs (fit, fits) h =
    let (f1, e1, p1, h1) = insert_document-Holds d s buffer f vs fit h in
    let v : Version = record {
      document_id = d;
      sequence_id = s;
      buffer = buffer;
      offset = f.data_pointer;
    } in
    let (f2, e2, p2, h2) = insert_all-Holds documents f1 (v ∷ vs) fits h1 in
    (
      f2,
      rw e1 e2,
      omega (arith, p1, p2),
      subst (λ (p : ℕ). Holds f2 (versions p documents (v ∷ vs))) p1 h2,
    )

new_tree-AreBlocks :
    AreBlocks {K = Index} {V = List ℕ} leaf_capacity inner_capacity
      (λ _. 0)
      2
      ((1, leaf 0 0 []) ∷ [])
unfolding find ents_per_leaf
new_tree-AreBlocks n n0 n1 =
    let e : 1 ≡ n = omega (arith, n0, n1) in
    subst
      (λ (j : ℕ).
        HasBlock {K = Index} {V = List ℕ} leaf_capacity inner_capacity (λ _. 0) 2 j
          ((1, leaf 0 0 []) ∷ []))
      e (leaf 0 0 [], refl, (refl, omega arith, inl refl))

new-Holds :
    (pages : Pages)
    → ArePages pages
    → (f : FlexFiles) × (create_files pages ≡ f) × (f.data_pointer ≡ 0) × Holds f []
unfolding create_files create_tree find
new-Holds pages are = (
  _,
  refl,
  refl,
  (
    whole above_all,
    λ _. 0,
    are,
    (omega arith, omega arith, refl, new_tree-AreBlocks),
    create_tree-IsSorted rank_of IsId above_all,
    λ p. refl,
    tt,
  ),
)

fetch_document-Fetches :
    (d : DocumentId) (s : SequenceId) (f : FlexFiles) (vs : List Version)
    (top : f.data_pointer < two_64) (fits : IsId (index_of d s)) (holds : Holds f vs)
    → Fetches d s f vs top fits holds
fetch_document-Fetches d s f vs top fits holds =
    let (g, level, pages, balanced, sorted, counts, readable) = holds in
    let target = index_of d s in
    let (ref, e, prev) =
      find_prev-IsPrev leaf_capacity inner_capacity rank_of IsId above_all rank_of_bounds
        (compare_to target) (rank_of target) (λ k h. compare_to-rank_of target k fits h) g level
        f.index_tree balanced sorted (rank_of_bounds target fits).1 in
    go ref e prev
  where
    go :
        (ref : Ref)
        → find_prev (compare_to (index_of d s)) f.index_tree ≡ ok ref
        → IsPrev rank_of IsId above_all (rank_of (index_of d s)) f.index_tree ref
        → Fetches d s f vs top fits holds
    go none e prev = fetched_none d s f vs top fits holds e prev
    go (some (n, i)) e prev = fetched_some d s f vs top fits holds n i e prev

-- Documents with ids below 2^63, of less than 2^64 bytes in all, are inserted into the files of a new
-- storage over pages of 4096 bytes, and then a version of a document is fetched up to a sequence id,
-- with ids below 2^63. All calls succeed. The answer is nothing where no inserted version of the
-- document has a sequence id up to the desired one. Else it is the sequence id and the bytes of one
-- that was inserted, up to the desired sequence id, and no other inserted version of the document up
-- to it has a later one.
pub fetch_document-IsNewest :
    (documents : List Document) (pages : Pages) (d : DocumentId) (s : SequenceId)
    → ArePages pages
    → AreIds documents
    → size_of documents < two_64
    → IsId (index_of d s)
    → (f : FlexFiles) × (r : Option (SequenceId × Buffer)) × (insert_all documents
          (create_files pages)
        ≡ ok f)
      × (fetch_document d s f ≡ ok r)
      × IsNewest d s (versions 0 documents []) r
fetch_document-IsNewest documents pages d s are fits size target_fits =
    let (f0, e0, p0, h0) = new-Holds pages are in
    let (f, e, p, h) = insert_all-Holds documents f0 [] fits h0 in
    let (r, q, newest) =
      fetch_document-Fetches d s f _ (omega (arith, p, p0, size)) target_fits h in
    (
      f,
      r,
      ap (λ (x : FlexFiles). insert_all documents x) e0 ∙ e,
      q,
      subst (λ (x : ℕ). IsNewest d s (versions x documents []) r) p0 newest,
    )
