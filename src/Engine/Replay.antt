-- ===== src/Engine/Replay.antt =====
-- engine.cpp:52-99 and 394-536: what a restart makes of the configuration and the log. The three
-- virtual functions of `ReplayClosure` are the arguments of a section, over the state `S` that they
-- work on. The order in which `replay` walks the transactions that are left is that of a hash
-- table, and unspecified: here it is the order of the association list.
pub mod Recovery
pub mod Numbers
pub mod LogFile
pub mod Tests
use d3b.Base.{
  ◌+◌, List, [], ◌∷◌, ◌++◌, Option, none, some, Result, ok, throws, ◌>>=◌, or_throw,
  illegal_transaction, logic_error, does_not_exist, Map, ℤ, find, insert, erase, String, ltb,
  if◌then◌else◌,
}
use d3b.Types.{TransactionId, SequenceId, Mutation, MutationType, type_insert}
use d3b.Storage.{FlexStorage, View, reinspect, sequence_storage, sequence_view}
use d3b.Engine.{
  Engine, Transaction, state_none, state_submitted, LogEntry, log_submit, log_submit_commit,
  log_commit, LogMutation, LogMutationType, log_mutation_none, log_insert, log_modify,
}
use d3b.Engine.Registry.{get_storage, load_storages, load_views}

-- `mutation.type` of a replayed mutation: an insert in both branches.
unfoldable pub replayed_type : LogMutationType → Result MutationType
replayed_type log_insert = ok type_insert
replayed_type log_modify = ok type_insert
replayed_type log_mutation_none = throws logic_error

unfoldable pub replayed_mutation : (String → ℤ) → LogMutation → Result Mutation
unfolding replayed_type
replayed_mutation index_of m = do
  type ← replayed_type m.type
  ok (record {
    type = type;
    storage_index = index_of m.storage_name;
    document_id = m.document_id;
    buffer = m.buffer;
  })

unfoldable pub replayed_mutations : (String → ℤ) → List LogMutation → Result (List Mutation)
unfolding replayed_mutation
replayed_mutations index_of [] = ok []
replayed_mutations index_of (m ∷ ms) = do
  x ← replayed_mutation index_of m
  xs ← replayed_mutations index_of ms
  ok (x ∷ xs)

abbrev pub replayed : List Mutation → Transaction
replayed ms = record { mutations = ms; constraints = []; state = state_none }

-- `index_of` is `getStorage` of the engine.
module _ {ℓ} {S : Type ℓ} (index_of : String → ℤ)
    (on_transaction : TransactionId → Transaction → S → S)
    (on_commit : Transaction → SequenceId → S → S)
    (on_submitted : TransactionId → Transaction → S → S) where
  unfoldable pub on_entry : LogEntry → Map Transaction × S → Result (Map Transaction × S)
  unfolding replayed_mutations
  on_entry entry (open_ones, s) = elim entry.type [
    | log_submit ↦ do
      ms ← replayed_mutations index_of entry.mutations
      let t = replayed ms
      ok (insert entry.transaction_id t open_ones, on_transaction entry.transaction_id t s)
    | log_submit_commit ↦ do
      ms ← replayed_mutations index_of entry.mutations
      let t = replayed ms
      ok (open_ones, on_commit t entry.sequence_id (on_transaction entry.transaction_id t s))
    | log_commit ↦ do
      t ← or_throw (find entry.transaction_id open_ones) illegal_transaction
      ok (erase entry.transaction_id open_ones, on_commit t entry.sequence_id s)
    | _ ↦ throws logic_error
  ]

  unfoldable pub on_entries : List LogEntry → Map Transaction × S → Result (Map Transaction × S)
  unfolding on_entry
  on_entries [] p = ok p
  on_entries (entry ∷ log) p = do p' ← on_entry entry p; on_entries log p'

  unfoldable pub submit_rest : Map Transaction → S → S
  submit_rest [] s = s
  submit_rest ((id, t) ∷ rest) s = submit_rest rest (on_submitted id t s)

  unfoldable pub replay : List LogEntry → S → Result S
  unfolding on_entries submit_rest
  replay log s = do (rest, s') ← on_entries log ([], s); ok (submit_rest rest s')

-- `ReplayMetaClosure`, which works on the engine.
unfoldable pub meta_transaction : TransactionId → Transaction → Engine → Engine
meta_transaction id t e =
    if ltb e.next_transact_id (id + 1) then record e { next_transact_id = id + 1 } else e

unfoldable pub meta_commit : Transaction → SequenceId → Engine → Engine
meta_commit t s e = if ltb e.current_sequence_id s then record e { current_sequence_id = s } else e

unfoldable pub meta_submitted : TransactionId → Transaction → Engine → Engine
meta_submitted id t e = record e {
  active_transactions = insert id (record t { state = state_submitted }) e.active_transactions;
  submitted_transactions = e.submitted_transactions ++ id ∷ [];
}

unfoldable pub replay_meta : List LogEntry → Engine → Result Engine
unfolding replay meta_transaction meta_commit meta_submitted
replay_meta log e = replay (get_storage e) meta_transaction meta_commit meta_submitted log e

-- `ReplayDataClosure`, which works on one storage or view. Views do nothing in `reinspect`.
unfoldable pub reinspect_all : List Mutation → FlexStorage → FlexStorage
unfolding reinspect
reinspect_all [] s = s
reinspect_all (m ∷ ms) s = reinspect_all ms (reinspect m s)

unfoldable pub replay_storage : (String → ℤ) → List LogEntry → FlexStorage → Result FlexStorage
unfolding replay reinspect_all sequence_storage
replay_storage index_of log s =
    replay index_of (λ id t. reinspect_all t.mutations) (λ t id. sequence_storage id t.mutations)
      (λ id t x. x) log s

unfoldable pub replay_view : (String → ℤ) → List LogEntry → View → Result View
unfolding replay sequence_view
replay_view index_of log v =
    replay index_of (λ id t x. x) (λ t id. sequence_view id t.mutations) (λ id t x. x) log v

-- The loops of `loadConfig` over the drivers.
module _ {D : Type 0} where
  unfoldable pub replay_each : (D → Result D) → List (Option D) → Result (List (Option D))
  replay_each f [] = ok []
  replay_each f (none ∷ ds) = do rest ← replay_each f ds; ok (none ∷ rest)
  replay_each f (some d ∷ ds) = do d' ← f d; rest ← replay_each f ds; ok (some d' ∷ rest)

-- `loadConfig`, of an engine that has been made and not used; the log is read already.
unfoldable pub load_config : Engine → Result Engine
unfolding load_storages load_views replay_meta replay_each replay_storage replay_view
load_config e = do
  config ← or_throw e.disk.config does_not_exist
  e1 ← load_storages config.storages e
  e2 ← load_views config.views e1
  e3 ← replay_meta e2.log e2
  storages ← replay_each (replay_storage (get_storage e3) e3.log) e3.storages
  views ← replay_each (replay_view (get_storage e3) e3.log) e3.views
  ok (record e3 { storages = storages; views = views })
