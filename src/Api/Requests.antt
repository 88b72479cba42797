-- ===== src/Api/Requests.antt =====
-- server.cpp:144-311 and 365-602: the dispatch of `processMessage`, the closures that it makes, and
-- what they answer when the engine calls them back. The transfer of files (`kCqUploadExtern`,
-- `kCqDownloadExtern`) is not modelled, since no part of the engine reads those files.
use d3b.Base.{
  ℕ, true, List, [], ◌∷◌, Option, none, some, Result, ok, throws, ◌>>=◌, logic_error, ℤ, pos,
  negsuc, map, ltb, if◌then◌else◌, ◌-◌,
}
use d3b.Types.{Mutation, Buffer, DocumentId, TransactionId, SequenceId}
use d3b.Storage.{
  FetchRequest, FetchError, fetch_success, QueryRequest, new_query, fetch_storage, query_view,
}
use d3b.Engine.{
  Engine, SubmitError, submit_none, submit_success, submit_constraint_violation,
  submit_constraint_conflict, submit_mutation_conflict,
}
use d3b.Engine.Pointers.{at_index, set_index}
use d3b.Engine.Registry.{
  get_storage, get_view, create_storage, create_view, unlink_storage, unlink_view,
}
use d3b.Engine.Transactions.{
  transaction, update_mutation, update_constraint, submit, submit_commit, commit, rollback,
}
use d3b.Api.{
  PbMutation, PbConstraint, CqFetch, CqQuery, CqUpdate, CqShortTransact, apply_submit, apply_commit,
  apply_rollback, CqApply, Parsers, code_none, code_success, code_illegal_request, code_parse_error,
  code_illegal_state, code_constraint_violation, code_constraint_conflict, code_mutation_conflict,
  Response, sr_fin, fin, fetch_closure, query_closure, short_closure, apply_closure, Connection,
  post, wait_for, parse_mutation, parse_constraint,
}

-- The opcodes of Api.proto that are modelled, and all those that are none.
pub data Opcode : Type 0 where
  cq_fetch cq_query cq_short_transact cq_transaction cq_update cq_apply : Opcode
  cq_create_storage cq_create_view cq_unlink_storage cq_unlink_view cq_shutdown : Opcode
  cq_unknown : Opcode

-- Every handler first parses its request.
abbrev pub parsed {ℓ} :
    {A : Type ℓ} → Option A → ℕ → (A → Result Connection) → Connection → Result Connection
parsed none seq f c = ok (post seq (fin code_parse_error) c)
parsed (some a) seq f c = f a

abbrev pub or_current : Option SequenceId → Engine → SequenceId
or_current (some s) e = s
or_current none e = e.current_sequence_id

-- `Engine::fetch` and `Engine::query`
unfoldable pub engine_fetch : FetchRequest → Engine → Result Engine
unfolding fetch_storage
engine_fetch r e = do
  driver ← at_index e.storages r.storage_index
  ok (record e { storages = set_index e.storages r.storage_index (fetch_storage r driver) })

unfoldable pub engine_query : QueryRequest → Engine → Result Engine
unfolding query_view
engine_query r e = do
  driver ← at_index e.views r.view_index
  ok (record e { views = set_index e.views r.view_index (query_view r driver) })

unfoldable pub execute_fetch : ℕ → CqFetch → Connection → Result Connection
unfolding engine_fetch
execute_fetch seq q c = do
  e ← engine_fetch r c.engine
  ok (wait_for seq (fetch_closure r) (record c { engine = e }))
  where
    r : FetchRequest
    r = record {
      storage_index = get_storage c.engine q.storage_name;
      document_id = q.document_id;
      sequence_id = or_current q.sequence_id c.engine;
    }

abbrev pub with_key : Option Buffer → QueryRequest → QueryRequest
with_key none r = r
with_key (some k) r = record r { use_from_key = true; from_key = k }

-- A `uint32` as an `int`.
abbrev pub to_int : ℕ → ℤ
to_int n = if ltb n 2147483648 then pos n else negsuc (4294967296 - n - 1)

abbrev pub with_limit : Option ℕ → QueryRequest → QueryRequest
with_limit none r = r
with_limit (some n) r = record r { limit = to_int n }

-- The request that `QueryClosure::execute` makes: both keys go to `fromKey`.
unfoldable pub query_request : CqQuery → Engine → QueryRequest
unfolding new_query get_view
query_request q e = with_limit q.limit (
    with_key q.to_key
      (with_key q.from_key (new_query (get_view e q.view_name) (or_current q.sequence_id e))))

unfoldable pub execute_query : ℕ → CqQuery → Connection → Result Connection
unfolding engine_query query_request
execute_query seq q c = do
  e ← engine_query (query_request q c.engine) c.engine
  ok (wait_for seq (query_closure (query_request q c.engine)) (record c { engine = e }))

-- The loops over the mutations and the constraints of a request. The first hands back the mutations
-- with the document ids that `updateMutation` left in them. (It moves the contents to the
-- transaction; the callers read only the document ids.)
unfoldable pub update_mutations :
    TransactionId → List PbMutation → Engine → Result (Engine × List Mutation)
unfolding parse_mutation update_mutation
update_mutations id [] e = ok (e, [])
update_mutations id (m ∷ ms) e = do
  x ← parse_mutation m e
  (e', x') ← update_mutation id x e
  (e'', xs) ← update_mutations id ms e'
  ok (e'', x' ∷ xs)

unfoldable pub update_constraints : TransactionId → List PbConstraint → Engine → Result Engine
unfolding parse_constraint update_constraint
update_constraints id [] e = ok e
update_constraints id (c ∷ cs) e = do
  x ← parse_constraint c e
  e' ← update_constraint id x e
  update_constraints id cs e'

abbrev pub document_ids : List Mutation → List DocumentId
document_ids ms = map (λ (m : Mutation). m.document_id) ms

unfoldable pub execute_update : ℕ → CqUpdate → Connection → Result Connection
unfolding update_mutations update_constraints
execute_update seq q c = do
  (e, ms) ← update_mutations q.transaction_id q.mutations c.engine
  e' ← update_constraints q.transaction_id q.constraints e
  ok (
      post seq
        (sr_fin (record {
          error = code_success;
          transaction_id = none;
          sequence_id = none;
          mutations = document_ids ms;
        }))
        (record c { engine = e' }))

unfoldable pub execute_short_transact : ℕ → CqShortTransact → Connection → Result Connection
unfolding transaction update_mutations update_constraints submit_commit
execute_short_transact seq q c =
    let (e, id) = transaction c.engine in
    do
      (e', ms) ← update_mutations id q.mutations e
      e'' ← update_constraints id q.constraints e'
      f ← submit_commit id e''
      ok (wait_for seq (short_closure id ms) (record c { engine = f }))

unfoldable pub execute_apply : ℕ → CqApply → Connection → Result Connection
unfolding submit commit rollback
execute_apply seq q c = elim q.type [
  | apply_submit ↦ do
    e ← submit q.transaction_id c.engine
    ok (wait_for seq (apply_closure q.transaction_id) (record c { engine = e }))
  | apply_commit ↦ do
    e ← commit q.transaction_id c.engine
    ok (wait_for seq (apply_closure q.transaction_id) (record c { engine = e }))
  | apply_rollback ↦ do
    e ← rollback q.transaction_id c.engine
    ok (wait_for seq (apply_closure q.transaction_id) (record c { engine = e }))
  | _ ↦ ok (post seq (fin code_illegal_state) c)
]

unfoldable pub execute_transaction : ℕ → Connection → Connection
unfolding transaction
execute_transaction seq c =
    let (e, id) = transaction c.engine in
    post seq
      (sr_fin (record {
        error = code_success;
        transaction_id = some id;
        sequence_id = none;
        mutations = [];
      }))
      (record c { engine = e })

-- A call of the engine, and then a response whose error code is not set.
abbrev pub then_fin : ℕ → Connection → Result Engine → Result Connection
then_fin seq c r = do e ← r; ok (post seq (fin code_none) (record c { engine = e }))

unfoldable pub process_message : Parsers → Opcode → ℕ → Buffer → Connection → Result Connection
unfolding execute_fetch execute_query execute_short_transact execute_transaction execute_update
    execute_apply
process_message p cq_fetch seq b c = parsed (p.fetch b) seq (λ q. execute_fetch seq q c) c
process_message p cq_query seq b c = parsed (p.query b) seq (λ q. execute_query seq q c) c
process_message p cq_short_transact seq b c =
    parsed (p.short_transact b) seq (λ q. execute_short_transact seq q c) c
process_message p cq_transaction seq b c =
    parsed (p.transaction b) seq (λ _. ok (execute_transaction seq c)) c
process_message p cq_update seq b c = parsed (p.update b) seq (λ q. execute_update seq q c) c
process_message p cq_apply seq b c = parsed (p.apply b) seq (λ q. execute_apply seq q c) c
process_message p cq_create_storage seq b c =
    parsed (p.create b) seq (λ q. then_fin seq c (create_storage q.driver q.identifier c.engine)) c
process_message p cq_create_view seq b c =
    parsed (p.create b) seq (λ q. then_fin seq c (create_view q.driver q.identifier c.engine)) c
process_message p cq_unlink_storage seq b c =
    parsed (p.unlink b) seq (λ k. then_fin seq c (unlink_storage (get_storage c.engine k) c.engine))
      c
process_message p cq_unlink_view seq b c =
    parsed (p.unlink b) seq (λ k. then_fin seq c (unlink_view (get_view c.engine k) c.engine)) c
process_message p cq_shutdown seq b c = ok (record c { shut_down = true })
process_message p cq_unknown seq b c = ok (post seq (fin code_illegal_request) c)

-- `FetchClosure::complete`
unfoldable pub fetch_complete : FetchError → Result Response
fetch_complete fetch_success = ok (fin code_success)
fetch_complete _ = throws logic_error

-- `ShortTransactClosure::onSubmitCommit`
unfoldable pub on_submit_commit : List Mutation → SubmitError → ℤ → Result Response
on_submit_commit ms submit_success s = ok (
    sr_fin (record {
      error = code_success;
      transaction_id = none;
      sequence_id = some s;
      mutations = document_ids ms;
    }))
on_submit_commit ms submit_constraint_violation s = ok (fin code_constraint_violation)
on_submit_commit ms _ s = throws logic_error

-- `ApplyClosure::onSubmit`, `onCommit` and `onRollback`
unfoldable pub on_submit : SubmitError → Result Response
on_submit submit_success = ok (fin code_success)
on_submit submit_constraint_violation = ok (fin code_constraint_violation)
on_submit submit_constraint_conflict = ok (fin code_constraint_conflict)
on_submit submit_mutation_conflict = ok (fin code_mutation_conflict)
on_submit submit_none = throws logic_error

unfoldable pub on_commit : SequenceId → Response
on_commit s = sr_fin (record {
  error = code_success;
  transaction_id = none;
  sequence_id = some (pos s);
  mutations = [];
})

unfoldable pub on_rollback : Response
on_rollback = fin code_success
