-- ===== src/Engine/Ledger/Runs.antt =====
-- The ledger along the runs of an engine (engine.cpp:169-301 and 546-827).
use d3b.Base.{
  ◌≡◌, refl, ◌∙◌, Bool, true, false, List, [], ◌∷◌, ◌++◌, Option, none, some, Result, ok,
  assertion_failed, dangling, illegal_transaction, inl, inr, ◌||◌, if◌then◌else◌, String, find,
  or_throw, get_elem?, List-cases, subst, elem,
}
use d3b.Types.{Mutation, Constraint, ConstraintType, type_unset, type_document_state}
use d3b.Storage.{FetchError}
use d3b.Engine.{
  Engine, new_engine, Transaction, QueueItem, QueueType, queue_none, queue_submit,
  queue_submit_commit, queue_commit, queue_rollback, rollback_reply, SubmitError,
  submit_constraint_violation,
}
use d3b.Engine.Pointers.{at_index}
use d3b.Engine.Transactions.{
  transaction, update_mutation, update_constraint, submit, submit_commit, commit, rollback, is_open,
  is_submitted, is_insert, lookup, push_insert, push_mutation,
}
use d3b.Engine.Conflicts.{find_conflict}
use d3b.Engine.Completion.{submit_failure}
use d3b.Engine.Processing.{
  start_fetch, check_at, submit_check_constraint, state_okay, checked, check_state_on_fetch,
  process_submit, process_commit, roll_back, process_rollback, process_item, process,
}
use d3b.Engine.Steps.{
  Call, call_transaction, call_mutation, call_constraint, call_submit, call_submit_commit,
  call_commit, call_rollback, drivers_change, Next, runs_process, runs_check, is_answered, calls,
  works, Reach, here, next,
}
use d3b.Engine.Ledger.{logged, acknowledged, Rising, Recorded, IsRecorded}
use d3b.Engine.Ledger.Writes.{
  After, After-bind, After-assert, told_nothing, write_ahead-Recorded, submit_failure-Recorded,
}

module _ (e : Engine) where
  abbrev item : QueueItem
  item = e.closure.queue_item

  start_fetch-Recorded :
      (c : Constraint) (t : ConstraintType) → IsRecorded e → After IsRecorded (start_fetch c t e)
  unfolding start_fetch IsRecorded
  start_fetch-Recorded c type_unset v = tt
  start_fetch-Recorded c type_document_state v =
      After-bind IsRecorded (at_index e.storages c.storage_index) _ λ d _. v

  check_at-Recorded :
      (c : Option Constraint) (t : Transaction) → IsRecorded e → After IsRecorded (check_at c t e)
  unfolding check_at
  check_at-Recorded none t v = write_ahead-Recorded e t v
  check_at-Recorded (some c) t v = start_fetch-Recorded c c.type v

  check-Recorded : IsRecorded e → After IsRecorded (submit_check_constraint e)
  unfolding submit_check_constraint
  check-Recorded v =
      After-bind IsRecorded (or_throw (find item.trid e.active_transactions) dangling) _
        λ t _. check_at-Recorded (get_elem? t.constraints e.closure.index) t v

  checked-Recorded : (b : Bool) → IsRecorded e → After IsRecorded (checked b e)
  unfolding checked IsRecorded
  checked-Recorded true v = v
  checked-Recorded false v =
      submit_failure-Recorded (record e { closure = record (e.closure) { check_okay = false } })
        submit_constraint_violation v

  check_state-Recorded :
      (x : FetchError) → IsRecorded e → After IsRecorded (check_state_on_fetch x e)
  unfolding check_state_on_fetch
  check_state-Recorded x v =
      After-bind IsRecorded (or_throw (find item.trid e.active_transactions) dangling) _ λ t _.
        After-bind IsRecorded (or_throw (get_elem? t.constraints e.closure.index) dangling) _
          λ c _. After-bind IsRecorded (state_okay c x) _ λ b _. checked-Recorded b v

  roll_back-Recorded :
      (b : Bool) (i : QueueItem) → IsRecorded e → After IsRecorded (roll_back b i e)
  unfolding roll_back IsRecorded
  roll_back-Recorded true i v = After-assert IsRecorded (elem i.trid e.submitted_transactions) _ p
    where
      p : Recorded (e.replies ++ rollback_reply i.trid ∷ []) e.log e.current_sequence_id
      p = (told_nothing e.replies (rollback_reply i.trid) refl ∙ v.0, v.1)
  roll_back-Recorded false i v = (told_nothing e.replies (rollback_reply i.trid) refl ∙ v.0, v.1)

module _ (e : Engine) where
  process_submit-Recorded : IsRecorded e → After IsRecorded (process_submit e)
  unfolding process_submit IsRecorded
  process_submit-Recorded v =
      After-bind IsRecorded
        (or_throw (find e.closure.queue_item.trid e.active_transactions) illegal_transaction) _
        λ t _.
          After-bind IsRecorded (find_conflict e.active_transactions t e.submitted_transactions) _
            λ c _. go c
    where
      go :
          (c : Option SubmitError)
          → After IsRecorded (elim c [
            | none ↦
                submit_check_constraint (record e { closure = record (e.closure) { index = 0 } })
            | some x ↦ submit_failure x e
          ])
      go none = check-Recorded (record e { closure = record (e.closure) { index = 0 } }) v
      go (some x) = submit_failure-Recorded e x v

  process_commit-Recorded : IsRecorded e → After IsRecorded (process_commit e)
  unfolding process_commit
  process_commit-Recorded v =
      After-bind IsRecorded
        (or_throw (find e.closure.queue_item.trid e.active_transactions) illegal_transaction) _
        λ t _. write_ahead-Recorded e t v

  process_rollback-Recorded : IsRecorded e → After IsRecorded (process_rollback e)
  unfolding process_rollback
  process_rollback-Recorded v =
      After-bind IsRecorded
        (or_throw (find e.closure.queue_item.trid e.active_transactions) assertion_failed) _
        λ t _. roll_back-Recorded e (is_submitted t.state) e.closure.queue_item v

  process_item-Recorded :
      (i : QueueItem) (q : QueueType)
      → i.type ≡ q
      → IsRecorded e
      → After IsRecorded (process_item i e)
  unfolding process_item
  process_item-Recorded i queue_submit h v = rw (h, process_item) (process_submit-Recorded v)
  process_item-Recorded i queue_submit_commit h v = rw (h, process_item) (process_submit-Recorded v)
  process_item-Recorded i queue_commit h v = rw (h, process_item) (process_commit-Recorded v)
  process_item-Recorded i queue_rollback h v = rw (h, process_item) (process_rollback-Recorded v)
  process_item-Recorded i queue_none h v = rw (h, process_item) tt

module _ (e : Engine) where
  process-Recorded : IsRecorded e → After IsRecorded (process e)
  unfolding process IsRecorded
  process-Recorded v = elim (List-cases e.submit_queue) [
    | inl h ↦ rw (h, process) v
    | inr (i, rest, h) ↦
        rw (h, process)
          (process_item-Recorded
            (record e { submit_queue = rest; closure = record (e.closure) { queue_item = i } }) i
            i.type refl v)
  ]

  Next-Recorded : (r : Result Engine) → Next e r → IsRecorded e → After IsRecorded r
  Next-Recorded r (runs_process s) v = process-Recorded v
  Next-Recorded r (runs_check s) v = check-Recorded e v
  Next-Recorded r (is_answered x s) v = check_state-Recorded e x v

Call-Recorded : {e e' : Engine} → Call e e' → IsRecorded e → IsRecorded e'
unfolding transaction update_mutation update_constraint submit submit_commit commit rollback
    push_insert push_mutation IsRecorded
Call-Recorded {e} (call_transaction h) v = rw h v
Call-Recorded {e} (call_mutation id m m' h) v = subst (After (λ p. IsRecorded p.0)) h (
    After-bind _ (lookup id e) _
      λ t _. After-assert _ (is_open t.state) _ (go t (is_insert m.type)))
  where
    go :
        (t : Transaction) (b : Bool)
        → After
            (λ (p : Engine × Mutation). IsRecorded p.0)
            (if b then push_insert id t m e else ok (push_mutation id t m e))
    go t true = After-bind _ (at_index e.storages m.storage_index) _ λ d _. v
    go t false = v
Call-Recorded {e} (call_constraint id c h) v =
    subst (After IsRecorded) h
      (After-bind IsRecorded (lookup id e) _ λ t _. After-assert IsRecorded (is_open t.state) _ v)
Call-Recorded {e} (call_submit id h) v =
    subst (After IsRecorded) h
      (After-bind IsRecorded (lookup id e) _ λ t _. After-assert IsRecorded (is_open t.state) _ v)
Call-Recorded {e} (call_submit_commit id h) v =
    subst (After IsRecorded) h
      (After-bind IsRecorded (lookup id e) _ λ t _. After-assert IsRecorded (is_open t.state) _ v)
Call-Recorded {e} (call_commit id h) v = subst (After IsRecorded) h (
    After-bind IsRecorded (lookup id e) _ λ t _. After-assert IsRecorded (is_submitted t.state) _ v)
Call-Recorded {e} (call_rollback id t f o h) v = subst (After IsRecorded) h (
    After-bind IsRecorded (lookup id e) _
      λ t _. After-assert IsRecorded (is_open t.state || is_submitted t.state) _ v)
Call-Recorded {e} (drivers_change ss vs disk h) v = rw h v

Reach-Recorded : {d e : Engine} → Reach d e → IsRecorded d → IsRecorded e
Reach-Recorded here v = v
Reach-Recorded (next r (calls c)) v = Call-Recorded c (Reach-Recorded r v)
Reach-Recorded (next r (works x n h)) v =
    subst (After IsRecorded) h (Next-Recorded _ x n (Reach-Recorded r v))

-- After any run of a new engine in which no submitted transaction is rolled back, the commits that clients were told of, with their sequence ids and
-- in the order of the answers, are those that stand in the log: no client learns of a commit that
-- is not logged, or of another sequence id, and none is logged and not answered.
pub Reach-acknowledged :
    (ss vs : List String) (e : Engine)
    → Reach (new_engine ss vs) e
    → acknowledged e.replies ≡ logged e.log
unfolding IsRecorded new_engine
Reach-acknowledged ss vs e r = (Reach-Recorded r (refl, tt)).0

-- After any run of a new engine in which no submitted transaction is rolled back, the sequence ids of the logged commits strictly go up, in the order
-- of the log, and none is above the current one.
pub Reach-Rising :
    (ss vs : List String) (e : Engine)
    → Reach (new_engine ss vs) e
    → Rising (logged e.log) e.current_sequence_id
unfolding IsRecorded new_engine
Reach-Rising ss vs e r = (Reach-Recorded r (refl, tt)).1
