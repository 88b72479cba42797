-- ===== src/Storage.antt =====
-- The drivers as the engine sees them. shard/include/db/storage-driver.hpp with the allocation of
-- document ids of shard/src/db/flex-storage.cpp, the one storage driver that is registered, and
-- shard/include/db/view-driver.hpp. The queue of each is that of `Driver`.
use d3b.Base.{◌+◌, Bool, ℤ, String, List, ltb, if◌then◌else◌, minus_one, false}
use d3b.Types.{DocumentId, SequenceId, Buffer, Mutation, MutationType, type_insert}
use d3b.Driver.{QueuedDriver, new_driver, sequence, request}

pub record FetchRequest : Type 0 where
  pub storage_index : ℤ
  pub document_id : DocumentId
  pub sequence_id : SequenceId

pub data FetchError : Type 0 where
  fetch_none fetch_success fetch_document_not_found : FetchError

pub record FlexStorage : Type 0 where
  pub identifier : String
  pub queue : QueuedDriver FetchRequest
  pub last_document_id : DocumentId

pub record QueryRequest : Type 0 where
  pub view_index : ℤ
  pub sequence_id : SequenceId
  pub use_from_key : Bool
  pub use_to_key : Bool
  pub from_key : Buffer
  pub to_key : Buffer
  pub limit : ℤ

-- The constructor's defaults; `viewIndex` and `sequenceId` are set by whoever makes the request.
unfoldable pub new_query : ℤ → SequenceId → QueryRequest
new_query v s = record {
  view_index = v;
  sequence_id = s;
  use_from_key = false;
  use_to_key = false;
  from_key = List.[];
  to_key = List.[];
  limit = minus_one;
}

pub record View : Type 0 where
  pub identifier : String
  pub queue : QueuedDriver QueryRequest

unfoldable pub new_storage : String → FlexStorage
unfolding new_driver
new_storage name = record { identifier = name; queue = new_driver; last_document_id = 0 }

unfoldable pub new_view : String → View
unfolding new_driver
new_view name = record { identifier = name; queue = new_driver }

-- `return ++p_lastDocumentId;`
unfoldable pub allocate : FlexStorage → FlexStorage × DocumentId
allocate s = (record s { last_document_id = s.last_document_id + 1 }, s.last_document_id + 1)

reinspect_insert : DocumentId → FlexStorage → FlexStorage
reinspect_insert id s = if ltb s.last_document_id id then record s { last_document_id = id } else s

abbrev is_insert : MutationType → Bool
is_insert type_insert = Bool.true
is_insert _ = false

-- `reinspect`, for a mutation that is replayed from the log.
unfoldable pub reinspect : Mutation → FlexStorage → FlexStorage
unfolding reinspect_insert
reinspect m s = if is_insert m.type then reinspect_insert m.document_id s else s

unfoldable pub sequence_storage : SequenceId → List Mutation → FlexStorage → FlexStorage
unfolding sequence
sequence_storage id ms s = record s { queue = sequence id ms s.queue }

unfoldable pub sequence_view : SequenceId → List Mutation → View → View
unfolding sequence
sequence_view id ms v = record v { queue = sequence id ms v.queue }

unfoldable pub fetch_storage : FetchRequest → FlexStorage → FlexStorage
unfolding request
fetch_storage r s = record s { queue = request r s.queue }

unfoldable pub query_view : QueryRequest → View → View
unfolding request
query_view r v = record v { queue = request r v.queue }
