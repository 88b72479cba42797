-- ===== src/Engine/Completion.antt =====
-- engine.cpp:658-690, 710-749 and 774-827: how the `ProcessQueueClosure` logs and ends a queued call.
-- Each function runs to the point where the closure waits.
use d3b.Base.{
  ◌+◌, List, [], ◌∷◌, ◌++◌, Option, Result, ok, throws, ◌>>=◌, or_throw, assert, assertion_failed,
  logic_error, find, erase, elem, remove_first, pos, minus_one,
}
use d3b.Types.{
  TransactionId, SequenceId, Mutation, MutationType, type_none, type_insert, type_modify,
}
use d3b.Storage.{FlexStorage, sequence_storage, sequence_view}
use d3b.Engine.{
  Engine, Transaction, state_submitted, QueueItem, QueueType, queue_submit, queue_submit_commit,
  queue_commit, SubmitError, submit_success, LogEntry, log_submit, log_submit_commit, log_commit,
  LogMutation, LogMutationType, log_insert, log_modify, Reply, submit_reply, submit_commit_reply,
  commit_reply, to_process,
}
use d3b.Engine.Pointers.{at_index, for_each}
use d3b.Engine.Transactions.{store}

-- A callback, after which the local task queue calls `process`.
abbrev pub answer : Reply → Engine → Engine
answer r e = record e {
  replies = e.replies ++ r ∷ [];
  closure = record (e.closure) { stage = to_process };
}

unfoldable pub failure_reply : QueueType → TransactionId → SubmitError → Result Reply
failure_reply queue_submit id x = ok (submit_reply id x)
failure_reply queue_submit_commit id x = ok (submit_commit_reply id x minus_one)
failure_reply _ id x = throws logic_error

unfoldable pub submit_failure : SubmitError → Engine → Result Engine
unfolding failure_reply
submit_failure x e = do
  t ← or_throw (find item.trid e.active_transactions) assertion_failed
  r ← failure_reply item.type item.trid x
  ok (answer r (record e { active_transactions = erase item.trid e.active_transactions }))
  where
    item : QueueItem
    item = e.closure.queue_item

-- The loop of `writeAhead` over the mutations.
unfoldable pub log_type : MutationType → Result LogMutationType
log_type type_insert = ok log_insert
log_type type_modify = ok log_modify
log_type type_none = throws logic_error

unfoldable pub log_mutation : List (Option FlexStorage) → Mutation → Result LogMutation
unfolding log_type
log_mutation storages m = do
  type ← log_type m.type
  driver ← at_index storages m.storage_index
  ok (record {
    type = type;
    storage_name = driver.identifier;
    document_id = m.document_id;
    buffer = m.buffer;
  })

unfoldable pub log_mutations : List (Option FlexStorage) → List Mutation → Result (List LogMutation)
unfolding log_mutation
log_mutations storages [] = ok []
log_mutations storages (m ∷ ms) = do
  l ← log_mutation storages m
  ls ← log_mutations storages ms
  ok (l ∷ ls)

-- The entry that `writeAhead` hands to the log.
unfoldable pub log_entry : QueueItem → Transaction → Engine → Result LogEntry
unfolding log_mutations
log_entry item t e = elim item.type [
  | queue_submit ↦ do
    ms ← log_mutations e.storages t.mutations
    ok (record { type = log_submit; sequence_id = 0; transaction_id = item.trid; mutations = ms })
  | queue_submit_commit ↦ do
    ms ← log_mutations e.storages t.mutations
    ok (record {
      type = log_submit_commit;
      sequence_id = e.current_sequence_id;
      transaction_id = item.trid;
      mutations = ms;
    })
  | queue_commit ↦ ok (record {
    type = log_commit;
    sequence_id = e.current_sequence_id;
    transaction_id = item.trid;
    mutations = [];
  })
  | _ ↦ throws logic_error
]

unfoldable pub commit_success : QueueType → TransactionId → SequenceId → Result Reply
commit_success queue_commit id s = ok (commit_reply id s)
commit_success queue_submit_commit id s = ok (submit_commit_reply id submit_success (pos s))
commit_success _ id s = throws logic_error

-- The two loops of `commitComplete`: every storage and every view is told.
unfoldable pub sequence_all : SequenceId → List Mutation → Engine → Engine
unfolding sequence_storage sequence_view
sequence_all s ms e = record e {
  storages = for_each (sequence_storage s ms) e.storages;
  views = for_each (sequence_view s ms) e.views;
}

unfoldable pub commit_complete : Transaction → Engine → Result Engine
unfolding sequence_all commit_success
commit_complete t e =
    let e' = sequence_all e.closure.sequence_id t.mutations e in
    do
      t' ← or_throw (find item.trid e.active_transactions) assertion_failed
      r ← commit_success item.type item.trid e.closure.sequence_id
      assert (elem item.trid e.submitted_transactions) (
          ok (
            answer r (record e' {
              active_transactions = erase item.trid e.active_transactions;
              submitted_transactions = remove_first item.trid e.submitted_transactions;
            })))
  where
    item : QueueItem
    item = e.closure.queue_item

unfoldable pub submit_complete : Transaction → Engine → Result Engine
unfolding commit_complete
submit_complete t e = elim item.type [
  | queue_submit ↦ ok (
      answer (submit_reply item.trid submit_success)
        (store item.trid (record t { state = state_submitted }) pushed))
  | queue_submit_commit ↦ commit_complete t pushed
  | _ ↦ throws logic_error
]
  where
    item : QueueItem
    item = e.closure.queue_item

    pushed : Engine
    pushed = record e { submitted_transactions = e.submitted_transactions ++ item.trid ∷ [] }

unfoldable pub after_write_ahead : Transaction → Engine → Result Engine
unfolding submit_complete commit_complete
after_write_ahead t e = elim e.closure.queue_item.type [
  | queue_submit ↦ submit_complete t e
  | queue_submit_commit ↦ submit_complete t e
  | queue_commit ↦ commit_complete t e
  | _ ↦ throws logic_error
]

unfoldable pub write_ahead : Transaction → Engine → Result Engine
unfolding log_entry after_write_ahead
write_ahead t e = do
  entry ← log_entry e.closure.queue_item t e
  after_write_ahead t (record e { log = e.log ++ entry ∷ [] })

-- The sequence id is advanced, for the transaction at hand.
abbrev pub advance : Engine → Engine
advance e = record e {
  current_sequence_id = e.current_sequence_id + 1;
  closure = record (e.closure) { sequence_id = e.current_sequence_id + 1 };
}
