-- ===== src/Engine.antt =====
-- shard/include/db/engine.hpp: the state of the engine. A transaction pointer is written as the id
-- of its transaction, which is its key in `active_transactions`. Callbacks are `replies`, the
-- write-ahead log is the list of its entries, and `disk` holds the files that the engine writes.
-- Reference counts are not modelled: what the drivers share with a transaction after it is freed
-- from the engine is its list of mutations, which no longer changes, and it is passed by value.
pub mod Pointers
pub mod Registry
pub mod Transactions
pub mod Conflicts
pub mod Completion
pub mod Processing
pub mod Steps
pub mod Status
pub mod Safety
pub mod Guarantee
pub mod Ledger
pub mod Rollback
pub mod Replay
pub mod Tests
use d3b.Base.{ℕ, Bool, false, List, [], ◌∷◌, Option, none, Map, ℤ, String}
use d3b.Types.{SequenceId, TransactionId, DocumentId, Buffer, Mutation, Constraint}
use d3b.Storage.{FlexStorage, View}

pub data SubmitError : Type 0 where
  submit_none submit_success submit_constraint_violation submit_constraint_conflict : SubmitError
  submit_mutation_conflict : SubmitError

pub data QueueType : Type 0 where
  queue_none queue_submit queue_submit_commit queue_commit queue_rollback : QueueType

pub record QueueItem : Type 0 where
  pub type : QueueType
  pub trid : TransactionId

pub data State : Type 0 where
  state_none state_open state_in_submit state_submitted state_in_commit_or_rollback : State

pub record Transaction : Type 0 where
  pub mutations : List Mutation
  pub constraints : List Constraint
  pub state : State

-- `Proto::LogEntry` and `Proto::LogMutation`; an optional field that is not set is 0.
pub data LogType : Type 0 where
  log_none log_submit log_submit_commit log_commit log_rollback : LogType

pub data LogMutationType : Type 0 where
  log_mutation_none log_insert log_modify : LogMutationType

pub record LogMutation : Type 0 where
  pub type : LogMutationType
  pub storage_name : String
  pub document_id : DocumentId
  pub buffer : Buffer

pub record LogEntry : Type 0 where
  pub type : LogType
  pub sequence_id : SequenceId
  pub transaction_id : TransactionId
  pub mutations : List LogMutation

-- The calls of `submitCallback`, `submitCommitCallback`, `commitCallback` and `rollbackCallback`.
pub data Reply : Type 0 where
  submit_reply : TransactionId → SubmitError → Reply
  submit_commit_reply : TransactionId → SubmitError → ℤ → Reply
  commit_reply : TransactionId → SequenceId → Reply
  rollback_reply : TransactionId → Reply

-- What will call the `ProcessQueueClosure` next.
pub data Stage : Type 0 where
  -- `p_eventFd->wait` or the local task queue will call `process`
  to_process : Stage
  -- the local task queue will call `submitCheckConstraint`
  to_check : Stage
  -- a storage will call `checkStateOnFetch`
  fetching : Stage

pub record ProcessQueue : Type 0 where
  pub stage : Stage
  pub queue_item : QueueItem
  pub sequence_id : SequenceId
  pub index : ℕ
  pub check_okay : Bool

-- `Proto::Config`, and the descriptor of each storage and view: the directory that holds it, and
-- the name of the driver.
pub record Config : Type 0 where
  pub storages : List String
  pub views : List String

pub record Disk : Type 0 where
  pub config : Option Config
  pub storage_descriptors : List (String × String)
  pub view_descriptors : List (String × String)

-- `storage_drivers` and `view_drivers` are the names in the two global registries. A null pointer
-- in `storages` or `views` is `none`.
pub record Engine : Type 0 where
  pub storage_drivers : List String
  pub view_drivers : List String
  pub submit_queue : List QueueItem
  pub next_transact_id : TransactionId
  pub current_sequence_id : SequenceId
  pub active_transactions : Map Transaction
  pub submitted_transactions : List TransactionId
  pub log : List LogEntry
  pub storages : List (Option FlexStorage)
  pub views : List (Option View)
  pub closure : ProcessQueue
  pub replies : List Reply
  pub disk : Disk

-- The constructor; the registries are filled by `main`.
unfoldable pub new_engine : List String → List String → Engine
new_engine storage_drivers view_drivers = record {
  storage_drivers = storage_drivers;
  view_drivers = view_drivers;
  submit_queue = [];
  next_transact_id = 1;
  current_sequence_id = 0;
  active_transactions = [];
  submitted_transactions = [];
  log = [];
  storages = none ∷ [];
  views = none ∷ [];
  closure = record {
    stage = to_process;
    queue_item = record { type = queue_none; trid = 0 };
    sequence_id = 0;
    index = 0;
    check_okay = false;
  };
  replies = [];
  disk = record { config = none; storage_descriptors = []; view_descriptors = [] };
}
