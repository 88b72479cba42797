-- ===== src/Engine/Transactions.antt =====
-- engine.cpp:169-301: the calls that clients make on a transaction.
use d3b.Base.{
  ◌+◌, Bool, true, false, ◌||◌, [], ◌∷◌, ◌++◌, Result, ok, ◌>>=◌, or_throw, assert,
  illegal_transaction, find, assign, insert, if◌then◌else◌,
}
use d3b.Types.{TransactionId, Mutation, MutationType, type_insert, Constraint}
use d3b.Storage.{allocate}
use d3b.Engine.{
  Engine, Transaction, State, state_open, state_in_submit, state_submitted,
  state_in_commit_or_rollback, QueueType, queue_submit, queue_submit_commit, queue_commit,
  queue_rollback,
}
use d3b.Engine.Pointers.{at_index, set_index}

abbrev pub is_open : State → Bool
is_open state_open = true
is_open _ = false

abbrev pub is_submitted : State → Bool
is_submitted state_submitted = true
is_submitted _ = false

abbrev pub is_insert : MutationType → Bool
is_insert type_insert = true
is_insert _ = false

abbrev pub new_transaction : Transaction
new_transaction = record { mutations = []; constraints = []; state = state_open }

unfoldable pub transaction : Engine → Engine × TransactionId
transaction e = (
  record e {
    next_transact_id = e.next_transact_id + 1;
    active_transactions = insert e.next_transact_id new_transaction e.active_transactions;
  },
  e.next_transact_id,
)

-- The transaction of a call, which throws if there is none.
abbrev pub lookup : TransactionId → Engine → Result Transaction
lookup id e = or_throw (find id e.active_transactions) illegal_transaction

-- A write through the pointer to a transaction.
abbrev pub store : TransactionId → Transaction → Engine → Engine
store id t e = record e { active_transactions = assign id t e.active_transactions }

unfoldable pub push_mutation : TransactionId → Transaction → Mutation → Engine → Engine × Mutation
push_mutation id t m e = (store id (record t { mutations = t.mutations ++ m ∷ [] }) e, m)

unfoldable pub push_insert :
    TransactionId → Transaction → Mutation → Engine → Result (Engine × Mutation)
unfolding push_mutation
push_insert id t m e = do
  s ← at_index e.storages m.storage_index
  let (s', document_id) = allocate s
  ok (
      push_mutation id t (record m { document_id = document_id })
        (record e { storages = set_index e.storages m.storage_index s' }))

-- The mutation is passed by reference: the caller reads the document id of an insert in it.
unfoldable pub update_mutation : TransactionId → Mutation → Engine → Result (Engine × Mutation)
unfolding push_mutation push_insert
update_mutation id m e = do
  t ← lookup id e
  assert (is_open t.state)
      (if is_insert m.type then push_insert id t m e else ok (push_mutation id t m e))

unfoldable pub update_constraint : TransactionId → Constraint → Engine → Result Engine
update_constraint id c e = do
  t ← lookup id e
  assert (is_open t.state) (ok (store id (record t { constraints = t.constraints ++ c ∷ [] }) e))

-- The end of the four calls below: the state of the transaction is set, and the call is queued.
abbrev pub enqueue : TransactionId → Transaction → State → QueueType → Engine → Engine
enqueue id t state type e = record (store id (record t { state = state }) e) {
  submit_queue = e.submit_queue ++ record { type = type; trid = id } ∷ [];
}

unfoldable pub submit : TransactionId → Engine → Result Engine
submit id e = do
  t ← lookup id e
  assert (is_open t.state) (ok (enqueue id t state_in_submit queue_submit e))

unfoldable pub submit_commit : TransactionId → Engine → Result Engine
submit_commit id e = do
  t ← lookup id e
  assert (is_open t.state) (ok (enqueue id t state_in_submit queue_submit_commit e))

unfoldable pub commit : TransactionId → Engine → Result Engine
commit id e = do
  t ← lookup id e
  assert (is_submitted t.state) (ok (enqueue id t state_in_commit_or_rollback queue_commit e))

unfoldable pub rollback : TransactionId → Engine → Result Engine
rollback id e = do
  t ← lookup id e
  assert (is_open t.state || is_submitted t.state)
      (ok (enqueue id t state_in_commit_or_rollback queue_rollback e))
