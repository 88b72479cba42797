-- ===== src/Api.antt =====
-- shard/src/api/server.cpp: what a connection of the server makes of a request, over the engine. The
-- messages of Api.proto are records; an optional field without a value that the code asks for by
-- `has_` is an `Option`, every other one has its default. The generated parsers are the fields of
-- `Parsers`. A closure that waits for the engine stands in `waiting`, and answers are in `posted`,
-- each with the sequence number of its request. The bytes on the wire are those of `Framing`.
pub mod Requests
pub mod Framing
pub mod Updates
pub mod Tests
use d3b.Base.{
  ℕ, Bool, List, [], ◌∷◌, ◌++◌, Option, none, Result, ok, throws, not_available, ℤ, String,
}
use d3b.Types.{
  Mutation, type_insert, type_modify, Constraint, type_document_state, Buffer, DocumentId,
  TransactionId, SequenceId,
}
use d3b.Storage.{FetchRequest, QueryRequest}
use d3b.Engine.{Engine}
use d3b.Engine.Registry.{get_storage}

pub data PbMutationType : Type 0 where
  pb_mutation_none pb_insert pb_modify : PbMutationType

pub record PbMutation : Type 0 where
  pub type : PbMutationType
  pub document_id : DocumentId
  pub storage_name : String
  pub buffer : Buffer

pub data PbConstraintType : Type 0 where
  pb_constraint_none pb_document_state : PbConstraintType

pub record PbConstraint : Type 0 where
  pub type : PbConstraintType
  pub storage_name : String
  pub document_id : DocumentId
  pub sequence_id : SequenceId
  pub must_exist : Bool
  pub match_sequence_id : Bool

pub record CqFetch : Type 0 where
  pub storage_name : String
  pub sequence_id : Option SequenceId
  pub document_id : DocumentId

pub record CqQuery : Type 0 where
  pub view_name : String
  pub sequence_id : Option SequenceId
  pub from_key : Option Buffer
  pub to_key : Option Buffer
  pub limit : Option ℕ

pub record CqUpdate : Type 0 where
  pub transaction_id : TransactionId
  pub mutations : List PbMutation
  pub constraints : List PbConstraint

pub record CqShortTransact : Type 0 where
  pub mutations : List PbMutation
  pub constraints : List PbConstraint

pub data ApplyType : Type 0 where
  apply_none apply_submit apply_submit_commit apply_commit apply_rollback : ApplyType

pub record CqApply : Type 0 where
  pub transaction_id : TransactionId
  pub type : ApplyType

pub record CqCreate : Type 0 where
  pub driver : String
  pub identifier : String

-- `ParseFromArray` of each message; `unlink` is both that of a storage and that of a view, which
-- are alike.
pub record Parsers : Type 0 where
  pub fetch : Buffer → Option CqFetch
  pub query : Buffer → Option CqQuery
  pub short_transact : Buffer → Option CqShortTransact
  pub transaction : Buffer → Option (Unit {0})
  pub update : Buffer → Option CqUpdate
  pub apply : Buffer → Option CqApply
  pub create : Buffer → Option CqCreate
  pub unlink : Buffer → Option String

pub data ErrorCode : Type 0 where
  code_none code_success code_illegal_request code_parse_error code_illegal_state : ErrorCode
  code_constraint_violation code_constraint_conflict code_mutation_conflict : ErrorCode

pub record Fin : Type 0 where
  pub error : ErrorCode
  pub transaction_id : Option TransactionId
  pub sequence_id : Option ℤ
  pub mutations : List DocumentId

pub data Response : Type 0 where
  sr_fin : Fin → Response
  sr_rows : List Buffer → Response
  sr_blob : Buffer → Response

abbrev pub fin : ErrorCode → Response
fin error =
    sr_fin (record { error = error; transaction_id = none; sequence_id = none; mutations = [] })

pub data Closure : Type 0 where
  fetch_closure : FetchRequest → Closure
  query_closure : QueryRequest → Closure
  -- `ShortTransactClosure`, with its transaction and `p_mutations`
  short_closure : TransactionId → List Mutation → Closure
  apply_closure : TransactionId → Closure

pub record Connection : Type 0 where
  pub engine : Engine
  pub waiting : List (ℕ × Closure)
  pub posted : List (ℕ × Response)
  pub shut_down : Bool

-- `postResponse`
abbrev pub post : ℕ → Response → Connection → Connection
post seq r c = record c { posted = c.posted ++ (seq, r) ∷ [] }

abbrev pub wait_for : ℕ → Closure → Connection → Connection
wait_for seq x c = record c { waiting = c.waiting ++ (seq, x) ∷ [] }

-- The `documentId` of an insert is not set here: `updateMutation` sets it.
unfoldable pub parse_mutation : PbMutation → Engine → Result Mutation
unfolding get_storage
parse_mutation m e = elim m.type [
  | pb_insert ↦ ok (record {
    type = type_insert;
    storage_index = get_storage e m.storage_name;
    document_id = 0;
    buffer = m.buffer;
  })
  | pb_modify ↦ ok (record {
    type = type_modify;
    storage_index = get_storage e m.storage_name;
    document_id = m.document_id;
    buffer = m.buffer;
  })
  | pb_mutation_none ↦ throws not_available
]

unfoldable pub parse_constraint : PbConstraint → Engine → Result Constraint
unfolding get_storage
parse_constraint c e = elim c.type [
  | pb_document_state ↦ ok (record {
    type = type_document_state;
    storage_index = get_storage e c.storage_name;
    document_id = c.document_id;
    sequence_id = c.sequence_id;
    must_exist = c.must_exist;
    match_sequence_id = c.match_sequence_id;
  })
  | pb_constraint_none ↦ throws not_available
]
