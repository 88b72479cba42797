-- ===== src/Engine/Rollback.antt =====
-- The rollback of a submitted transaction (engine.cpp:272-292 and 751-772): `rollback` has set the
-- state to `kStateInCommitOrRollback` before `processRollback` asks whether it is
-- `kStateSubmitted`.
use d3b.Base.{
  ℕ, ◌≡◌, false, [], ◌∷◌, some, ok, throws, find, assign, erase, find-assign, find-erase,
  out_of_range, ◌==◌, arith, ◌>>=◌,
}
use d3b.Engine.{
  Engine, Transaction, state_submitted, state_in_commit_or_rollback, queue_rollback, rollback_reply,
  state_open, state_in_submit,
}
use d3b.Engine.Transactions.{rollback, submit}
use d3b.Engine.Completion.{answer}
use d3b.Engine.Conflicts.{find_conflict}
use d3b.Engine.Processing.{process, process_item, process_rollback, roll_back, process_submit}

-- What the closure makes of a rollback that was queued alone, when the transaction was submitted.
abbrev rolled_back : (id : ℕ) (t : Transaction) (e : Engine) → Engine
rolled_back id t e = answer (rollback_reply id) (record e {
  submit_queue = [];
  active_transactions =
      erase id (assign id (record t { state = state_in_commit_or_rollback }) e.active_transactions);
  closure = record (e.closure) { queue_item = record { type = queue_rollback; trid = id } };
})

rollback-process :
    (id : ℕ) (t : Transaction) (e : Engine)
    → find id e.active_transactions ≡ some t
    → t.state ≡ state_submitted
    → e.submit_queue ≡ []
    → (rollback id e >>= process) ≡ ok (rolled_back id t e)
unfolding rollback process process_item process_rollback roll_back
rollback-process id t e f s q = ground (
  arith,
  f,
  find-assign id id (record t { state = state_in_commit_or_rollback }) e.active_transactions,
)

-- The next submission throws.
submit-process :
    (id k : ℕ) (t u : Transaction) (e : Engine)
    → find k e.active_transactions ≡ some u
    → u.state ≡ state_open
    → (id == k) ≡ false
    → e.submitted_transactions ≡ id ∷ []
    → (submit k (rolled_back id t e) >>= process) ≡ throws out_of_range
unfolding submit process process_item process_submit find_conflict
submit-process id k t u e f o n l = ground (
  arith,
  f,
  find-erase k id
      (assign id (record t { state = state_in_commit_or_rollback }) e.active_transactions),
  find-assign k id (record t { state = state_in_commit_or_rollback }) e.active_transactions,
  find-erase id id
      (assign id (record t { state = state_in_commit_or_rollback }) e.active_transactions),
  find-assign id k (record u { state = state_in_submit })
      (erase id
        (assign id (record t { state = state_in_commit_or_rollback }) e.active_transactions)),
  find-assign k k (record u { state = state_in_submit })
      (erase id
        (assign id (record t { state = state_in_commit_or_rollback }) e.active_transactions)),
)

-- The rollback of the only submitted transaction, and then the submission of another open one: the
-- closure answers the rollback, and the submission ends with `std::out_of_range`, whatever the two
-- transactions hold.
pub rollback_breaks_submit :
    (id k : ℕ) (t u : Transaction) (e : Engine)
    → find id e.active_transactions ≡ some t
    → t.state ≡ state_submitted
    → find k e.active_transactions ≡ some u
    → u.state ≡ state_open
    → (id == k) ≡ false
    → e.submit_queue ≡ []
    → e.submitted_transactions ≡ id ∷ []
    → (rollback id e >>= process >>= submit k >>= process) ≡ throws out_of_range
rollback_breaks_submit id k t u e f s g o n q l =
    rw (rollback-process id t e f s q) (submit-process id k t u e g o n l)
