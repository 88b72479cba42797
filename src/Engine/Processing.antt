-- ===== src/Engine/Processing.antt =====
-- engine.cpp:546-657, 692-708 and 751-772: the `ProcessQueueClosure`, which takes the queued calls one
-- by one. Each function below runs to the point where the closure waits; a storage answers the
-- fetch of a constraint by `check_state_on_fetch`.
use d3b.Base.{
  suc, Bool, true, false, [], ◌∷◌, Option, none, some, Result, ok, throws, ◌>>=◌, or_throw, assert,
  illegal_transaction, assertion_failed, logic_error, dangling, find, erase, elem, remove_first,
  get_elem?, pos, if◌then◌else◌,
}
use d3b.Types.{Constraint, ConstraintType, type_unset, type_document_state}
use d3b.Storage.{
  FetchRequest, FetchError, fetch_none, fetch_success, fetch_document_not_found, fetch_storage,
}
use d3b.Engine.{
  Engine, Transaction, QueueItem, queue_none, queue_submit, queue_submit_commit, queue_commit,
  queue_rollback, submit_constraint_violation, rollback_reply, to_process, to_check, fetching,
}
use d3b.Engine.Pointers.{at_index, set_index}
use d3b.Engine.Transactions.{is_submitted}
use d3b.Engine.Conflicts.{find_conflict}
use d3b.Engine.Completion.{answer, submit_failure, write_ahead, advance}

-- The use of `p_transaction`, which points to the transaction of the queue item.
abbrev pub current : Engine → Result Transaction
current e = or_throw (find e.closure.queue_item.trid e.active_transactions) dangling

-- The closure asks the storage for the state of the document. `storageIndex` of the request is not
-- set, and storages do not read it.
unfoldable pub start_fetch : Constraint → ConstraintType → Engine → Result Engine
unfolding fetch_storage
start_fetch c type_unset e = throws logic_error
start_fetch c type_document_state e = do
  driver ← at_index e.storages c.storage_index
  ok (record e {
    storages = set_index e.storages c.storage_index (fetch_storage r driver);
    closure = record (e.closure) { stage = fetching; check_okay = true };
  })
  where
    r : FetchRequest
    r = record {
      storage_index = pos 0;
      document_id = c.document_id;
      sequence_id = e.current_sequence_id;
    }

-- `submitCheckConstraint`, with the constraint at `p_index` if there is one left.
unfoldable pub check_at : Option Constraint → Transaction → Engine → Result Engine
unfolding start_fetch
check_at none t e = write_ahead t (advance e)
check_at (some c) t e = start_fetch c c.type e

unfoldable pub submit_check_constraint : Engine → Result Engine
unfolding check_at
submit_check_constraint e = do t ← current e; check_at (get_elem? t.constraints e.closure.index) t e

-- `p_checkOkay` when the fetch of constraint `c` has ended. `checkStateOnData` does nothing.
unfoldable pub state_okay : Constraint → FetchError → Result Bool
state_okay c fetch_success = ok true
state_okay c fetch_document_not_found = ok (if c.must_exist then false else true)
state_okay c fetch_none = throws logic_error

-- The end of `checkStateOnFetch`, with `p_checkOkay`.
unfoldable pub checked : Bool → Engine → Result Engine
checked true e =
    ok (record e {
      closure = record (e.closure) { stage = to_check; index = suc (e.closure.index) };
    })
checked false e =
    submit_failure submit_constraint_violation
      (record e { closure = record (e.closure) { check_okay = false } })

unfoldable pub check_state_on_fetch : FetchError → Engine → Result Engine
unfolding state_okay checked
check_state_on_fetch error e = do
  t ← current e
  c ← or_throw (get_elem? t.constraints e.closure.index) dangling
  okay ← state_okay c error
  checked okay e

unfoldable pub process_submit : Engine → Result Engine
unfolding submit_check_constraint
process_submit e = do
  t ← or_throw (find e.closure.queue_item.trid e.active_transactions) illegal_transaction
  conflict ← find_conflict e.active_transactions t e.submitted_transactions
  (elim conflict [
    | none ↦ submit_check_constraint (record e { closure = record (e.closure) { index = 0 } })
    | some x ↦ submit_failure x e
  ])

unfoldable pub process_commit : Engine → Result Engine
process_commit e = do
  t ← or_throw (find e.closure.queue_item.trid e.active_transactions) illegal_transaction
  write_ahead t (advance e)

-- The end of `processRollback`, for a transaction that is in the list of submitted ones or not.
unfoldable pub roll_back : Bool → QueueItem → Engine → Result Engine
roll_back true item e = assert (elem item.trid e.submitted_transactions) (
    ok (
      answer (rollback_reply item.trid) (record e {
        active_transactions = erase item.trid e.active_transactions;
        submitted_transactions = remove_first item.trid e.submitted_transactions;
      })))
roll_back false item e = ok (
    answer (rollback_reply item.trid)
      (record e { active_transactions = erase item.trid e.active_transactions }))

unfoldable pub process_rollback : Engine → Result Engine
unfolding roll_back
process_rollback e = do
  t ← or_throw (find e.closure.queue_item.trid e.active_transactions) assertion_failed
  roll_back (is_submitted t.state) e.closure.queue_item e

-- The dispatch of `process` on the type of the item.
unfoldable pub process_item : QueueItem → Engine → Result Engine
unfolding process_submit process_commit process_rollback
process_item item e = elim item.type [
  | queue_submit ↦ process_submit e
  | queue_submit_commit ↦ process_submit e
  | queue_commit ↦ process_commit e
  | queue_rollback ↦ process_rollback e
  | queue_none ↦ throws logic_error
]

unfoldable pub process : Engine → Result Engine
unfolding process_item
process e = elim e.submit_queue [
  | [] ↦ ok (record e { closure = record (e.closure) { stage = to_process } })
  | item ∷ rest ↦
      process_item item
        (record e { submit_queue = rest; closure = record (e.closure) { queue_item = item } })
]
