-- ===== src/Types.antt =====
-- shard/include/db/types.hpp: what a transaction holds. Identifiers are non-negative numbers, and
-- the contents of a document are its bytes.
use d3b.Base.{ℕ, Bool, List, ℤ}

abbrev pub DocumentId : Type 0
DocumentId = ℕ

abbrev pub TransactionId : Type 0
TransactionId = ℕ

abbrev pub SequenceId : Type 0
SequenceId = ℕ

abbrev pub Buffer : Type 0
Buffer = List ℕ

pub data MutationType : Type 0 where
  type_none type_insert type_modify : MutationType

pub record Mutation : Type 0 where
  pub type : MutationType
  pub storage_index : ℤ
  pub document_id : DocumentId
  pub buffer : Buffer

pub data ConstraintType : Type 0 where
  type_unset type_document_state : ConstraintType

pub record Constraint : Type 0 where
  pub type : ConstraintType
  pub storage_index : ℤ
  pub document_id : DocumentId
  pub sequence_id : SequenceId
  pub must_exist : Bool
  pub match_sequence_id : Bool
