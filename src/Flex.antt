-- ===== src/Flex.antt =====
-- shard/src/db/flex-storage.cpp with shard/include/db/flex-storage.hpp: the files of a storage. The data file
-- holds the documents one behind the other, and the index maps a document and a sequence id to where
-- the document lies. A closure is one call, from `apply` or `process` to its callback.
pub mod Documents
pub mod Versions
pub mod Newest
pub mod Fetching
pub mod Storage
pub mod Tests
use d3b.Base.{
  ℕ, zero, suc, ◌+◌, ◌*◌, ◌/◌, ◌%◌, List, [], ◌∷◌, ◌++◌, Option, none, some, Result, ok, ◌>>=◌, ℤ,
  pos, negsuc, length, drop, ltb, ◌==◌, if◌then◌else◌,
}
use d3b.Types.{DocumentId, SequenceId, Buffer}
use d3b.Btree.{Btree, create_tree}
use d3b.Btree.Layout.{Sizes, ents_per_leaf, ents_per_inner}
use d3b.Btree.Insert.{insert_entry}
use d3b.Btree.Find.{Ref, find_prev, seek, get_key, get_value}
use d3b.RandomAccess.{Pages, read, write}

-- `packLe64` and `unpackLe64`, byte by byte
unfoldable pub pack_le : ℕ → ℕ → List ℕ
pack_le zero n = []
pack_le (suc k) n = n % 256 ∷ pack_le k (n / 256)

unfoldable pub unpack_le : ℕ → List ℕ → ℕ
unpack_le zero bytes = 0
unpack_le (suc k) [] = 0
unpack_le (suc k) (b ∷ bytes) = b + 256 * unpack_le k bytes

pub record Index : Type 0 where
  pub document_id : DocumentId
  pub sequence_id : SequenceId

unfoldable pub write_index : Index → List ℕ
unfolding pack_le
write_index index = pack_le 8 index.document_id ++ pack_le 8 index.sequence_id

unfoldable pub read_index : List ℕ → Index
unfolding unpack_le
read_index buffer = record {
  document_id = unpack_le 8 buffer;
  sequence_id = unpack_le 8 (drop 8 buffer);
}

pub record Reference : Type 0 where
  pub offset : ℕ
  pub length : ℕ

-- `p_refBuffer`, and what `onSeek` reads from it
unfoldable pub pack_reference : Reference → List ℕ
unfolding pack_le
pack_reference ref = pack_le 8 ref.offset ++ pack_le 8 ref.length

unfoldable pub unpack_reference : List ℕ → Reference
unfolding unpack_le
unpack_reference buffer = record {
  offset = unpack_le 8 buffer;
  length = unpack_le 8 (drop 8 buffer);
}

-- An `int64_t` that is kept as its 64 bits, moved up by 2^63: the order of these is that of the signed
-- numbers.
unfoldable pub signed_rank : ℕ → ℕ
signed_rank n = (n + 9223372036854775808) % 18446744073709551616

-- `compareToInserted` and `compareToFetched`
unfoldable pub compare_to : Index → Index → ℤ
unfolding signed_rank
compare_to target other =
    if ltb (signed_rank other.document_id) (signed_rank target.document_id)
    then negsuc 0
    else (if ltb (signed_rank target.document_id) (signed_rank other.document_id)
        then pos 1
        else (if ltb (signed_rank other.sequence_id) (signed_rank target.sequence_id)
            then negsuc 0
            else (if ltb (signed_rank target.sequence_id) (signed_rank other.sequence_id)
                then pos 1
                else pos 0)))

-- The sizes that the constructor gives the index.
abbrev pub index_sizes : Sizes
index_sizes = record { block_size = 4096; key_size = 16; val_size = 16 }

pub record FlexFiles : Type 0 where
  pub data_pointer : ℕ
  pub index_tree : Btree Index (List ℕ)
  pub data_file : Pages

-- `createStorage`, with the pages that the data file has.
unfoldable pub create_files : Pages → FlexFiles
unfolding create_tree
create_files pages = record { data_pointer = 0; index_tree = create_tree; data_file = pages }

-- `InsertClosure`
unfoldable pub insert_document : DocumentId → SequenceId → Buffer → FlexFiles → Result FlexFiles
unfolding write insert_entry pack_reference ents_per_leaf ents_per_inner compare_to
insert_document document_id sequence_id buffer f =
    let index : Index = record { document_id = document_id; sequence_id = sequence_id } in
    let ref = pack_reference (record { offset = f.data_pointer; length = length buffer }) in
    (do
      data_file ← write f.data_pointer buffer f.data_file
      index_tree ←
          insert_entry (ents_per_leaf index_sizes) (ents_per_inner index_sizes) (compare_to index)
            index ref f.index_tree
      ok (record {
        data_pointer = f.data_pointer + length buffer;
        index_tree = index_tree;
        data_file = data_file;
      }))

-- The rest of `onSeek` and `onDataRead`; nothing where the entry is of another document.
unfoldable pub on_seek : DocumentId → Ref → FlexFiles → Result (Option (SequenceId × Buffer))
unfolding get_key get_value read unpack_reference
on_seek document_id r f = do
  index ← get_key r f.index_tree
  value ← get_value r f.index_tree
  let ref = unpack_reference value
  let found = (do
    buffer ← read ref.offset ref.length f.data_file
    ok (some (index.sequence_id, buffer)))
  if index.document_id == document_id then found else ok none

unfoldable pub on_index_found : DocumentId → Ref → FlexFiles → Result (Option (SequenceId × Buffer))
unfolding seek on_seek
on_index_found document_id none f = ok none
on_index_found document_id (some ref) f = do
  r ← seek (some ref) f.index_tree
  on_seek document_id r f

-- `FetchClosure`: `kFetchDocumentNotFound` is `none`.
unfoldable pub fetch_document :
    DocumentId → SequenceId → FlexFiles → Result (Option (SequenceId × Buffer))
unfolding find_prev on_index_found
fetch_document document_id sequence_id f = do
  r ←
      find_prev (compare_to (record { document_id = document_id; sequence_id = sequence_id }))
        f.index_tree
  on_index_found document_id r f
