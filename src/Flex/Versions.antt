-- ===== src/Flex/Versions.antt =====
-- flex-storage.cpp:82-271: the versions of documents that a storage holds, and what an insertion does to them.
use d3b.Base.{
  ℕ, zero, suc, ◌+◌, ◌*◌, ◌<◌, ◌≤◌, ◌≡◌, refl, sym, ◌∙◌, Bool, List, [], ◌∷◌, ok, ok-injective,
  length, All, All-mono, leb, arith,
}
use d3b.Types.{DocumentId, SequenceId, Buffer}
use d3b.Btree.Search.{at_most}
use d3b.Btree.Balance.{IsBalanced}
use d3b.Btree.Contents.{tally, total}
use d3b.Btree.Ranges.{Ranges}
use d3b.Btree.Sorted.{IsSorted}
use d3b.Btree.Sorting.{insert_entry-IsSorted}
use d3b.Btree.Totality.{insert_entry-Adds}
use d3b.RandomAccess.{Pages}
use d3b.RandomAccess.Bytes.{ArePages, byte_at, file_bytes}
use d3b.RandomAccess.Transfers.{write_lem, read_lem, read-write}
use d3b.Flex.{Index, pack_reference, compare_to, signed_rank, FlexFiles, insert_document}
use d3b.Flex.Documents.{
  leaf_capacity, inner_capacity, capacities, index_of, reference_to, insert_document_lem,
}

abbrev pub two_64 : ℕ
two_64 = 18446744073709551616

-- The order of the index: by document, and then by sequence id.
abbrev pub rank_of : Index → ℕ
rank_of index = suc (index.document_id * two_64 + index.sequence_id)

-- The ids are not negative as `int64_t`.
abbrev pub IsId : Index → Type 0
IsId index = (index.document_id < 9223372036854775808) × (index.sequence_id < 9223372036854775808)

abbrev pub above_all : ℕ
above_all = suc (suc (two_64 * two_64))

pub rank_of_bounds :
    (index : Index) → IsId index → (0 < rank_of index) × (rank_of index < above_all)
rank_of_bounds index (d, s) = (omega arith, omega (arith, d, s))

signed_rank_lem : (n : ℕ) → n < 9223372036854775808 → signed_rank n ≡ n + 9223372036854775808
unfolding signed_rank
signed_rank_lem n h = omega (arith, h)

pub compare_to-rank_of :
    (target index : Index)
    → IsId target
    → IsId index
    → at_most (compare_to target index) ≡ leb (rank_of index) (rank_of target)
unfolding compare_to
compare_to-rank_of target index (td, ts) (d, s) =
    let e = signed_rank_lem target.document_id td in
    let e' = signed_rank_lem index.document_id d in
    let u = signed_rank_lem target.sequence_id ts in
    let u' = signed_rank_lem index.sequence_id s in rw (e, e', u, u') (ground (arith, td, ts, d, s))

-- A document in the storage, and where it lies.
pub record Version : Type 0 where
  pub document_id : DocumentId
  pub sequence_id : SequenceId
  pub buffer : Buffer
  pub offset : ℕ

abbrev pub index_at : Version → Index
index_at v = index_of v.document_id v.sequence_id

abbrev pub entry : Version → Index × List ℕ
entry v = (index_at v, pack_reference (record { offset = v.offset; length = length v.buffer }))

abbrev pub entries : List Version → List (Index × List ℕ)
entries [] = []
entries (v ∷ vs) = entry v ∷ entries vs

abbrev pub IsReadable : FlexFiles → Version → Type 0
IsReadable f v =
    IsId (index_at v)
    × (v.offset + length v.buffer ≤ f.data_pointer)
    × (file_bytes f.data_file v.offset (length v.buffer) ≡ v.buffer)

-- The files of a storage that holds these versions and no others.
abbrev pub Holds : FlexFiles → List Version → Type 0
Holds f vs =
    (g : Ranges) × (level : ℕ → ℕ) × ArePages f.data_file
    × IsBalanced leaf_capacity inner_capacity level f.index_tree
    × IsSorted rank_of IsId above_all g level f.index_tree
    × ((p : Index × List ℕ → Bool)
        → total p f.index_tree.num_blocks f.index_tree.pages ≡ tally p (entries vs))
    × All (IsReadable f) vs

file_bytes_agree :
    (pages pages' : Pages) (n position end : ℕ)
    → ((i : ℕ) → i < end → byte_at pages' i ≡ byte_at pages i)
    → position + n ≤ end
    → file_bytes pages' position n ≡ file_bytes pages position n
file_bytes_agree pages pages' zero position end h l = refl
file_bytes_agree pages pages' (suc n) position end h l =
    let first = h position (omega (arith, l)) in
    let rest = file_bytes_agree pages pages' n (suc position) end h (omega (arith, l)) in
    rw (first, rest) refl

pub insert_document-Holds :
    (document_id : DocumentId) (sequence_id : SequenceId) (buffer : Buffer) (f : FlexFiles)
    (vs : List Version)
    → IsId (index_of document_id sequence_id)
    → Holds f vs
    → (f' : FlexFiles) × (insert_document document_id sequence_id buffer f ≡ ok f')
      × (f'.data_pointer ≡ f.data_pointer + length buffer)
      × Holds f' (
          record {
            document_id = document_id;
            sequence_id = sequence_id;
            buffer = buffer;
            offset = f.data_pointer;
          }
          ∷ vs)
insert_document-Holds document_id sequence_id buffer f vs fits
      (g, level, are_pages, balanced, sorted, holds, readable) =
    let (room, inner_room) = capacities in
    let index = index_of document_id sequence_id in
    let ref = reference_to buffer f in
    let (pages, w, are_pages', bytes) = write_lem f.data_pointer buffer f.data_file are_pages in
    let (g', level', tree, i, balanced', sorted') =
      insert_entry-IsSorted leaf_capacity inner_capacity room inner_room rank_of IsId above_all
        rank_of_bounds (compare_to index) index fits
        (λ k k_fits. compare_to-rank_of index k fits k_fits) g level ref f.index_tree balanced
        sorted in
    let adds =
      insert_entry-Adds leaf_capacity inner_capacity room inner_room (compare_to index) level index
        ref f.index_tree tree balanced i in
    let back : file_bytes pages f.data_pointer (length buffer) ≡ buffer = ok-injective (
      sym (read_lem f.data_pointer (length buffer) pages are_pages')
      ∙ read-write f.data_pointer buffer f.data_file pages are_pages w) in
    (
      record {
        data_pointer = f.data_pointer + length buffer;
        index_tree = tree;
        data_file = pages;
      },
      insert_document_lem document_id sequence_id buffer f pages tree w i,
      refl,
      (
        g',
        level',
        are_pages',
        balanced',
        sorted',
        λ p. omega (arith, adds p, holds p),
        (
          (fits, omega arith, back),
          All-mono _ _ vs
              (λ v (fv, l, r). (
                fv,
                omega (arith, l),
                file_bytes_agree f.data_file pages (length v.buffer) v.offset f.data_pointer
                      (λ j lt. bytes j ∙ ground (arith, lt)) l
                    ∙ r,
              ))
              readable,
        ),
      ),
    )
