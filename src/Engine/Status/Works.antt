-- ===== src/Engine/Status/Works.antt =====
-- The steps of the closure (engine.cpp:546-827), the place of every transaction, and the errors.
use d3b.Base.{
  ℕ, suc, ◌≡◌, refl, Bool, true, false, List, [], ◌∷◌, Option, none, some, Result, arith, find, inl,
  inr, ◌≢◌, subst, Option-cases, Bool-cases, get_elem?,
}
use d3b.Types.{Constraint, ConstraintType, type_unset, type_document_state}
use d3b.Storage.{FlexStorage, FetchError}
use d3b.Engine.{
  Engine, Transaction, QueueItem, QueueType, queue_none, queue_submit, queue_submit_commit,
  queue_commit, queue_rollback, Stage, to_process, to_check, fetching, rollback_reply, SubmitError,
}
use d3b.Engine.Transactions.{is_submitted}
use d3b.Engine.Completion.{submit_failure, advance}
use d3b.Engine.Processing.{
  start_fetch, check_at, submit_check_constraint, state_okay, checked, check_state_on_fetch,
  process_submit, process_commit, roll_back, process_rollback, process_item, process,
}
use d3b.Engine.Steps.{Next, runs_process, runs_check, is_answered}
use d3b.Engine.Status.{is_submit, is_commit, is_rollback, queued, NoneUntyped, IsPlaced}
use d3b.Engine.Status.Held.{
  Fine, Fine-bind, Any, IsHeld, at_index-Fine, find_conflict-Fine, left-IsPlaced,
  submit_failure-Fine,
}
use d3b.Engine.Status.Writes.{advance-IsHeld, write_ahead-Fine}

-- The closure goes on with the submission of its item, at another stage.
resume-IsPlaced :
    (e : Engine) (ss : List (Option FlexStorage)) (stage : Stage) (index : ℕ) (okay : Bool)
    → stage ≢ to_process
    → is_submit e.closure.queue_item.type ≡ true
    → IsHeld e
    → ((t : Transaction)
        → stage ≡ fetching
        → find e.closure.queue_item.trid e.active_transactions ≡ some t
        → get_elem? t.constraints index ≢ none)
    → IsPlaced (record e {
      storages = ss;
      closure = record (e.closure) { stage = stage; index = index; check_okay = okay };
    })
resume-IsPlaced e ss stage index okay n k v there = record {
  placed = λ j. ground (arith, v.held j, k, n);
  fresh = v.fresh;
  typed = v.typed;
  busy_type = ground (arith, n, k);
  fetched = there;
}

start_fetch-Fine :
    (c : Constraint) (t : ConstraintType) (e : Engine)
    → is_submit e.closure.queue_item.type ≡ true
    → ((t : Transaction)
        → find e.closure.queue_item.trid e.active_transactions ≡ some t
        → get_elem? t.constraints e.closure.index ≢ none)
    → IsHeld e
    → Fine IsPlaced (start_fetch c t e)
unfolding start_fetch
start_fetch-Fine c type_unset e k there v = tt
start_fetch-Fine c type_document_state e k there v =
    Fine-bind Any IsPlaced _ _ (at_index-Fine e.storages c.storage_index)
      λ d _. resume-IsPlaced e _ fetching e.closure.index true (λ h. cc) k v (λ t g f. there t f)

-- A transaction of which the item is held is active.
held-active :
    (e : Engine)
    → is_submit e.closure.queue_item.type ≡ true
    → IsHeld e
    → find e.closure.queue_item.trid e.active_transactions ≢ none
held-active e k v n = ground (arith, v.held e.closure.queue_item.trid, k, n)

check_at-Fine :
    (o : Option Constraint) (t : Transaction) (e : Engine)
    → get_elem? t.constraints e.closure.index ≡ o
    → find e.closure.queue_item.trid e.active_transactions ≡ some t
    → is_submit e.closure.queue_item.type ≡ true
    → IsHeld e
    → Fine IsPlaced (check_at o t e)
unfolding check_at
check_at-Fine none t e h f k v = write_ahead-Fine (advance e) t f (advance-IsHeld e v)
check_at-Fine (some c) t e h f k v =
    start_fetch-Fine c c.type e k (λ t' f' n. ground (arith, h, f, f', n)) v

submit_check_constraint-Fine :
    (e : Engine)
    → is_submit e.closure.queue_item.type ≡ true
    → IsHeld e
    → Fine IsPlaced (submit_check_constraint e)
unfolding submit_check_constraint
submit_check_constraint-Fine e k v =
    elim (Option-cases (find e.closure.queue_item.trid e.active_transactions)) [
      | inl n ↦ absurd (held-active e k v n)
      | inr (t, f) ↦ rw f (check_at-Fine _ t e refl f k v)
    ]

state_okay-Fine : (c : Constraint) (error : FetchError) → Fine Any (state_okay c error)
unfolding state_okay
state_okay-Fine c error = ground arith

checked-Fine :
    (okay : Bool) (e : Engine)
    → is_submit e.closure.queue_item.type ≡ true
    → IsHeld e
    → Fine IsPlaced (checked okay e)
unfolding checked
checked-Fine true e k v =
    resume-IsPlaced e e.storages to_check (suc (e.closure.index)) e.closure.check_okay (λ h. cc) k v
      (λ t g f. cc)
checked-Fine false e k v =
    submit_failure-Fine (record e { closure = record (e.closure) { check_okay = false } }) _ k
      (record { held = v.held; fresh = v.fresh; typed = v.typed })

-- The constraint that was fetched for is there: the caller says so.
check_state_on_fetch-Fine :
    (error : FetchError) (e : Engine)
    → is_submit e.closure.queue_item.type ≡ true
    → ((t : Transaction)
        → find e.closure.queue_item.trid e.active_transactions ≡ some t
        → get_elem? t.constraints e.closure.index ≢ none)
    → IsHeld e
    → Fine IsPlaced (check_state_on_fetch error e)
unfolding check_state_on_fetch
check_state_on_fetch-Fine error e k there v =
    elim (Option-cases (find e.closure.queue_item.trid e.active_transactions)) [
      | inl n ↦ absurd (held-active e k v n)
      | inr (t, f) ↦ elim (Option-cases (get_elem? t.constraints e.closure.index)) [
        | inl n ↦ absurd (there t f n)
        | inr (c, g) ↦ rw f (
            rw g (
              Fine-bind Any IsPlaced (state_okay c error) _ (state_okay-Fine c error)
                λ okay _. checked-Fine okay e k v))
      ]
    ]

-- In the middle of a submission the item of the closure is held.
busy-IsHeld : (e : Engine) → e.closure.stage ≢ to_process → IsPlaced e → IsHeld e
busy-IsHeld e n v = record {
  held = λ j. ground (arith, v.placed j, v.busy_type, n);
  fresh = v.fresh;
  typed = v.typed;
}

process_submit-Fine :
    (e : Engine)
    → is_submit e.closure.queue_item.type ≡ true
    → IsHeld e
    → Fine IsPlaced (process_submit e)
unfolding process_submit
process_submit-Fine e k v =
    elim (Option-cases (find e.closure.queue_item.trid e.active_transactions)) [
      | inl n ↦ absurd (held-active e k v n)
      | inr (t, f) ↦ rw f (
          Fine-bind Any IsPlaced _ _
            (find_conflict-Fine e.active_transactions t e.submitted_transactions
              (λ j l n. ground (arith, v.held j, l, n)))
            (decided e k v))
    ]
  where
    decided :
        (e : Engine)
        → is_submit e.closure.queue_item.type ≡ true
        → IsHeld e
        → (conflict : Option SubmitError) → Any conflict
        → Fine IsPlaced (elim conflict [
          | none ↦ submit_check_constraint (record e { closure = record (e.closure) { index = 0 } })
          | some x ↦ submit_failure x e
        ])
    decided e k v none _ =
        submit_check_constraint-Fine (record e { closure = record (e.closure) { index = 0 } }) k
          (record { held = v.held; fresh = v.fresh; typed = v.typed })
    decided e k v (some x) _ = submit_failure-Fine e x k v

process_commit-Fine :
    (e : Engine)
    → is_commit e.closure.queue_item.type ≡ true
    → IsHeld e
    → Fine IsPlaced (process_commit e)
unfolding process_commit
process_commit-Fine e k v =
    elim (Option-cases (find e.closure.queue_item.trid e.active_transactions)) [
      | inl n ↦ ground (arith, v.held e.closure.queue_item.trid, k, n)
      | inr (t, f) ↦ rw f (write_ahead-Fine (advance e) t f (advance-IsHeld e v))
    ]

process_rollback-Fine :
    (e : Engine)
    → is_rollback e.closure.queue_item.type ≡ true
    → IsHeld e
    → Fine IsPlaced (process_rollback e)
unfolding process_rollback roll_back
process_rollback-Fine e k v =
    elim (Option-cases (find e.closure.queue_item.trid e.active_transactions)) [
      | inl n ↦ ground (arith, v.held e.closure.queue_item.trid, k, n)
      | inr (t, f) ↦ elim (Bool-cases (is_submitted t.state)) [
        | inl s ↦ ground (arith, v.held e.closure.queue_item.trid, k, f, s)
        | inr s ↦ rw (f, s) (left-IsPlaced e (inr k) v (rollback_reply e.closure.queue_item.trid))
      ]
    ]

process_item-Fine :
    (t : QueueType) (e : Engine)
    → e.closure.queue_item.type ≡ t
    → t ≢ queue_none
    → IsHeld e
    → Fine IsPlaced (process_item e.closure.queue_item e)
unfolding process_item
process_item-Fine queue_submit e h n v = rw (h, process_item) (process_submit-Fine e (rw h) v)
process_item-Fine queue_submit_commit e h n v =
    rw (h, process_item) (process_submit-Fine e (rw h) v)
process_item-Fine queue_commit e h n v = rw (h, process_item) (process_commit-Fine e (rw h) v)
process_item-Fine queue_rollback e h n v = rw (h, process_item) (process_rollback-Fine e (rw h) v)
process_item-Fine queue_none e h n v = absurd (n refl)

-- `process` takes the first item of the queue.
process_queue-Fine :
    (q : List QueueItem) (e : Engine)
    → e.submit_queue ≡ q
    → e.closure.stage ≡ to_process
    → IsPlaced e
    → Fine IsPlaced (process e)
unfolding process queued
process_queue-Fine [] e h s v =
    rw (h, process)
      (record {
        placed = λ j. ground (arith, v.placed j, s, h);
        fresh = v.fresh;
        typed = ground (arith, v.typed, h);
        busy_type = tt;
        fetched = λ x g f. cc;
      })
process_queue-Fine (i ∷ rest) e h s v =
    rw (h, process)
      (process_item-Fine i.type
        (record e { submit_queue = rest; closure = record (e.closure) { queue_item = i } }) refl
        (subst NoneUntyped h v.typed).0
        (record {
          held = λ j. ground (arith, v.placed j, s, h);
          fresh = v.fresh;
          typed = (subst NoneUntyped h v.typed).1;
        }))

pub Next-Fine : (e : Engine) {r : Result Engine} → Next e r → IsPlaced e → Fine IsPlaced r
Next-Fine e (runs_process s) v = process_queue-Fine e.submit_queue e refl s v
Next-Fine e (runs_check s) v =
    submit_check_constraint-Fine e (ground (arith, v.busy_type, s))
      (busy-IsHeld e (ground (arith, s)) v)
Next-Fine e (is_answered error s) v =
    check_state_on_fetch-Fine error e (ground (arith, v.busy_type, s)) (λ t f. v.fetched t s f)
      (busy-IsHeld e (ground (arith, s)) v)
