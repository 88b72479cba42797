-- ===== src/Flex/Documents.antt =====
-- flex-storage.cpp:82-173: what an insertion leaves in the files of a storage.
use d3b.Base.{
  ℕ, zero, suc, ◌+◌, ◌*◌, ◌/◌, ◌<◌, ◌≤◌, ◌≡◌, ◌∙◌, refl, ap, List, ◌++◌, ok, append_assoc, length,
  drop, arith,
}
use d3b.Types.{DocumentId, SequenceId, Buffer}
use d3b.Btree.{Btree}
use d3b.Btree.Layout.{ents_per_leaf, ents_per_inner}
use d3b.Btree.Insert.{insert_entry}
use d3b.Btree.Balance.{IsBalanced}
use d3b.Btree.Contents.{Adds}
use d3b.Btree.Totality.{insert_entry-IsBalanced, insert_entry-Adds}
use d3b.RandomAccess.{Pages, read, write}
use d3b.RandomAccess.Bytes.{ArePages, byte_at}
use d3b.RandomAccess.Transfers.{write_lem, read-write}
use d3b.Flex.{
  pack_le, unpack_le, Index, write_index, read_index, pack_reference, compare_to, index_sizes,
  FlexFiles, insert_document,
}

-- The number of values of some bytes.
abbrev pub values : ℕ → ℕ
values zero = 1
values (suc k) = 256 * values k

unpack_le-pack_le : (k n : ℕ) (rest : List ℕ) → n < values k → unpack_le k (pack_le k n ++ rest) ≡ n
unfolding unpack_le pack_le
unpack_le-pack_le zero n rest h = omega (arith, h)
unpack_le-pack_le (suc k) n rest h =
    omega (arith, unpack_le-pack_le k (n / 256) rest (omega (arith, h)))

drop-pack_le : (k n : ℕ) (rest : List ℕ) → drop k (pack_le k n ++ rest) ≡ rest
unfolding pack_le
drop-pack_le zero n rest = refl
drop-pack_le (suc k) n rest = drop-pack_le k (n / 256) rest

-- Two numbers of 64 bits, one behind the other.
pub first_le :
    (a b : ℕ) (rest : List ℕ)
    → a < values 8
    → unpack_le 8 ((pack_le 8 a ++ pack_le 8 b) ++ rest) ≡ a
first_le a b rest h =
    ap (λ (l : List ℕ). unpack_le 8 l) (append_assoc (pack_le 8 a) (pack_le 8 b) rest)
    ∙ unpack_le-pack_le 8 a (pack_le 8 b ++ rest) h

pub second_le :
    (a b : ℕ) (rest : List ℕ)
    → b < values 8
    → unpack_le 8 (drop 8 ((pack_le 8 a ++ pack_le 8 b) ++ rest)) ≡ b
second_le a b rest h =
    ap (λ (l : List ℕ). unpack_le 8 (drop 8 l)) (append_assoc (pack_le 8 a) (pack_le 8 b) rest)
    ∙ ap (λ (l : List ℕ). unpack_le 8 l) (drop-pack_le 8 a (pack_le 8 b ++ rest))
    ∙ unpack_le-pack_le 8 b rest h

-- An index whose ids are below 2^64 is read back from the key that was written, whatever follows the
-- key.
pub read_index-write_index :
    (index : Index) (rest : List ℕ)
    → index.document_id < 18446744073709551616
    → index.sequence_id < 18446744073709551616
    → read_index (write_index index ++ rest) ≡ index
unfolding read_index write_index
read_index-write_index index rest h k = ground (
  arith,
  first_le index.document_id index.sequence_id rest (omega (arith, h)),
  second_le index.document_id index.sequence_id rest (omega (arith, k)),
)

abbrev pub leaf_capacity : ℕ
leaf_capacity = ents_per_leaf index_sizes

abbrev pub inner_capacity : ℕ
inner_capacity = ents_per_inner index_sizes

pub capacities : (3 ≤ leaf_capacity) × (4 ≤ inner_capacity)
unfolding ents_per_leaf ents_per_inner
capacities = (omega arith, omega arith)

-- Sound files: whole pages, and a balanced index.
abbrev pub AreSound : (ℕ → ℕ) → FlexFiles → Type 0
AreSound level f = ArePages f.data_file × IsBalanced leaf_capacity inner_capacity level f.index_tree

abbrev pub index_of : DocumentId → SequenceId → Index
index_of document_id sequence_id = record { document_id = document_id; sequence_id = sequence_id }

-- Where the document will lie.
abbrev pub reference_to : Buffer → FlexFiles → List ℕ
reference_to buffer f = pack_reference (record { offset = f.data_pointer; length = length buffer })

pub insert_document_lem :
    (document_id : DocumentId) (sequence_id : SequenceId) (buffer : Buffer) (f : FlexFiles)
    (pages : Pages) (tree : Btree Index (List ℕ))
    → write f.data_pointer buffer f.data_file ≡ ok pages
    → insert_entry leaf_capacity inner_capacity
        (compare_to (index_of document_id sequence_id))
        (index_of document_id sequence_id)
        (reference_to buffer f)
        f.index_tree
      ≡ ok tree
    → insert_document document_id sequence_id buffer f
      ≡ ok (record {
        data_pointer = f.data_pointer + length buffer;
        index_tree = tree;
        data_file = pages;
      })
unfolding insert_document
insert_document_lem document_id sequence_id buffer f pages tree w i = rw (w, i) refl

-- An insertion of a document into the files of a storage, whole pages and a balanced index, succeeds
-- and leaves such files. The document is read back from where the data pointer stood, the bytes before
-- it are as they were, the data pointer goes to the end of the document, and the index has one entry
-- more, the key with the reference to the document, and else the same entries as before.
pub insert_document-AreSound :
    (level : ℕ → ℕ) (document_id : DocumentId) (sequence_id : SequenceId) (buffer : Buffer)
    (f : FlexFiles)
    → AreSound level f
    → (level' : ℕ → ℕ) × (f' : FlexFiles) × (insert_document document_id sequence_id buffer f
        ≡ ok f')
      × AreSound level' f'
      × (f'.data_pointer ≡ f.data_pointer + length buffer)
      × (read f.data_pointer (length buffer) f'.data_file ≡ ok buffer)
      × ((i : ℕ) → i < f.data_pointer → byte_at f'.data_file i ≡ byte_at f.data_file i)
      × Adds (index_of document_id sequence_id) (reference_to buffer f) f.index_tree f'.index_tree
insert_document-AreSound level document_id sequence_id buffer f (pages_are, balanced) =
    let (room, inner_room) = capacities in
    let index = index_of document_id sequence_id in
    let (pages, w, pages_are', bytes) = write_lem f.data_pointer buffer f.data_file pages_are in
    let (level', tree, i, balanced') =
      insert_entry-IsBalanced leaf_capacity inner_capacity room inner_room (compare_to index) level
        index (reference_to buffer f) f.index_tree balanced in
    (
      level',
      record {
        data_pointer = f.data_pointer + length buffer;
        index_tree = tree;
        data_file = pages;
      },
      insert_document_lem document_id sequence_id buffer f pages tree w i,
      (pages_are', balanced'),
      refl,
      read-write f.data_pointer buffer f.data_file pages pages_are w,
      λ j l. bytes j ∙ ground (arith, l),
      insert_entry-Adds leaf_capacity inner_capacity room inner_room (compare_to index) level index
          (reference_to buffer f) f.index_tree tree balanced i,
    )
