-- ===== src/Engine/Ledger/Writes.antt =====
-- What `writeAhead` and the ends of a call add to the log and to the answers (engine.cpp:658-690, 710-749
-- and 774-827).
use d3b.Base.{
  ℕ, ◌+◌, ◌≡◌, refl, sym, ◌∙◌, ap, Bool, true, false, List, [], ◌∷◌, ◌++◌, Result, ok, throws,
  assertion_failed, arith, find, ◌>>=◌, or_throw, append_nil, subst, assert, elem,
}
use d3b.Types.{SequenceId, TransactionId}
use d3b.Engine.{
  Engine, Transaction, QueueItem, QueueType, queue_none, queue_submit, queue_submit_commit,
  queue_commit, queue_rollback, LogEntry, Reply, submit_reply, SubmitError, submit_success,
}
use d3b.Engine.Completion.{
  failure_reply, submit_failure, log_entry, commit_success, commit_complete, submit_complete,
  after_write_ahead, write_ahead, advance,
}
use d3b.Engine.Ledger.{
  logged, acknowledged, Rising, Recorded, IsRecorded, logged-append, acknowledged-append,
  Rising-suc, Rising-append,
}

-- `P` holds of what the call returns, if it returns.
abbrev pub After {ℓ} : {A : Type ℓ} → (A → Type 0) → Result A → Type 0
After P (ok a) = P a
After P (throws x) = Unit

pub After-bind {ℓ κ} :
    {A : Type ℓ} {B : Type κ} (Q : B → Type 0) (m : Result A) (f : A → Result B)
    → ((a : A) → m ≡ ok a → After Q (f a))
    → After Q (m >>= f)
After-bind Q (ok a) f k = k a refl
After-bind Q (throws x) f k = tt

pub After-assert {ℓ} :
    {A : Type ℓ} (Q : A → Type 0) (b : Bool) (r : Result A) → After Q r → After Q (assert b r)
After-assert Q true r k = k
After-assert Q false r k = tt

module _ (e : Engine) where
  abbrev item : QueueItem
  item = e.closure.queue_item

  -- What the log entry of a call commits.
  abbrev committed : QueueType → List (TransactionId × SequenceId)
  committed queue_submit_commit = (item.trid, e.current_sequence_id) ∷ []
  committed queue_commit = (item.trid, e.current_sequence_id) ∷ []
  committed _ = []

  log_entry-logged :
      (t : Transaction) (entry : LogEntry) (q : QueueType)
      → item.type ≡ q
      → log_entry item t e ≡ ok entry
      → logged (entry ∷ []) ≡ committed q
  unfolding log_entry
  log_entry-logged t entry queue_submit h g = ground (arith, h, g)
  log_entry-logged t entry queue_submit_commit h g = ground (arith, h, g)
  log_entry-logged t entry queue_commit h g = ground (arith, h, g)
  log_entry-logged t entry queue_rollback h g = ground (arith, h, g)
  log_entry-logged t entry queue_none h g = ground (arith, h, g)

  commit_success-acknowledged :
      (q : QueueType) (id s : ℕ) (x : Reply)
      → commit_success q id s ≡ ok x
      → acknowledged (x ∷ []) ≡ (id, s) ∷ []
  unfolding commit_success
  commit_success-acknowledged queue_submit id s x h = cc h
  commit_success-acknowledged queue_submit_commit id s x h = ground (arith, h)
  commit_success-acknowledged queue_commit id s x h = ground (arith, h)
  commit_success-acknowledged queue_rollback id s x h = cc h
  commit_success-acknowledged queue_none id s x h = cc h

  commit_complete-Recorded :
      (t : Transaction)
      → (acknowledged e.replies ++ (item.trid, e.closure.sequence_id) ∷ []) ≡ logged e.log
      → Rising (logged e.log) e.current_sequence_id
      → After IsRecorded (commit_complete t e)
  unfolding commit_complete IsRecorded
  commit_complete-Recorded t a r =
      After-bind IsRecorded (or_throw (find item.trid e.active_transactions) assertion_failed) _
        λ u _.
          After-bind IsRecorded (commit_success item.type item.trid e.closure.sequence_id) _ λ x h.
            let p : Recorded (e.replies ++ x ∷ []) e.log e.current_sequence_id = (
              (acknowledged-append e.replies (x ∷ [])
                    ∙ ap (λ l. acknowledged e.replies ++ l)
                        (commit_success-acknowledged item.type item.trid e.closure.sequence_id x h))
                  ∙ a,
              r,
            ) in
            After-assert IsRecorded (elem item.trid e.submitted_transactions) _ p

-- What the answer to a submission alone tells of commits: nothing.
pub told_nothing :
    (rs : List Reply) (x : Reply)
    → acknowledged (x ∷ []) ≡ []
    → acknowledged (rs ++ x ∷ []) ≡ acknowledged rs
told_nothing rs x h =
    acknowledged-append rs (x ∷ [])
    ∙ ap (λ l. acknowledged rs ++ l) h
    ∙ append_nil (acknowledged rs)

failure_reply-acknowledged :
    (q : QueueType) (id : ℕ) (x : SubmitError) (y : Reply)
    → failure_reply q id x ≡ ok y
    → acknowledged (y ∷ []) ≡ []
unfolding failure_reply
failure_reply-acknowledged queue_submit id x y h = ground (arith, h)
failure_reply-acknowledged queue_submit_commit id x y h = ground (arith, h)
failure_reply-acknowledged queue_commit id x y h = cc h
failure_reply-acknowledged queue_rollback id x y h = cc h
failure_reply-acknowledged queue_none id x y h = cc h

module _ (e : Engine) where
  abbrev handled : QueueItem
  handled = e.closure.queue_item

  submit_complete-Recorded :
      (t : Transaction) (q : QueueType)
      → handled.type ≡ q
      → e.closure.sequence_id ≡ e.current_sequence_id
      → (acknowledged e.replies ++ committed e q) ≡ logged e.log
      → Rising (logged e.log) e.current_sequence_id
      → After IsRecorded (submit_complete t e)
  unfolding submit_complete IsRecorded
  submit_complete-Recorded t queue_submit h s a r =
      rw (h, submit_complete)
        (
          told_nothing e.replies (submit_reply handled.trid submit_success) refl
              ∙ (sym (append_nil (acknowledged e.replies)) ∙ a),
          r,
        )
  submit_complete-Recorded t queue_submit_commit h s a r =
      rw (h, submit_complete)
        (commit_complete-Recorded
          (record e { submitted_transactions = e.submitted_transactions ++ handled.trid ∷ [] }) t
          (rw s a) r)
  submit_complete-Recorded t queue_commit h s a r = rw (h, submit_complete) tt
  submit_complete-Recorded t queue_rollback h s a r = rw (h, submit_complete) tt
  submit_complete-Recorded t queue_none h s a r = rw (h, submit_complete) tt

  after_write_ahead-Recorded :
      (t : Transaction) (q : QueueType)
      → handled.type ≡ q
      → e.closure.sequence_id ≡ e.current_sequence_id
      → (acknowledged e.replies ++ committed e q) ≡ logged e.log
      → Rising (logged e.log) e.current_sequence_id
      → After IsRecorded (after_write_ahead t e)
  unfolding after_write_ahead
  after_write_ahead-Recorded t queue_submit h s a r =
      rw (h, after_write_ahead) (submit_complete-Recorded t queue_submit h s a r)
  after_write_ahead-Recorded t queue_submit_commit h s a r =
      rw (h, after_write_ahead) (submit_complete-Recorded t queue_submit_commit h s a r)
  after_write_ahead-Recorded t queue_commit h s a r =
      rw (h, after_write_ahead) (commit_complete-Recorded e t (rw s a) r)
  after_write_ahead-Recorded t queue_rollback h s a r = rw (h, after_write_ahead) tt
  after_write_ahead-Recorded t queue_none h s a r = rw (h, after_write_ahead) tt

module _ (e : Engine) where
  abbrev subject : QueueItem
  subject = e.closure.queue_item

  committed-Rising :
      (q : QueueType) (cs : List (TransactionId × SequenceId))
      → Rising cs e.current_sequence_id
      → Rising (cs ++ committed (advance e) q) (e.current_sequence_id + 1)
  committed-Rising queue_submit_commit cs r = Rising-append cs subject.trid e.current_sequence_id r
  committed-Rising queue_commit cs r = Rising-append cs subject.trid e.current_sequence_id r
  committed-Rising queue_submit cs r = rw (append_nil cs) (Rising-suc cs e.current_sequence_id r)
  committed-Rising queue_rollback cs r = rw (append_nil cs) (Rising-suc cs e.current_sequence_id r)
  committed-Rising queue_none cs r = rw (append_nil cs) (Rising-suc cs e.current_sequence_id r)

  pub write_ahead-Recorded :
      (t : Transaction) → IsRecorded e → After IsRecorded (write_ahead t (advance e))
  unfolding write_ahead IsRecorded
  write_ahead-Recorded t (a, r) =
      After-bind IsRecorded (log_entry subject t (advance e)) _ λ entry g.
        let c = log_entry-logged (advance e) t entry subject.type refl g in
        let l = logged-append e.log (entry ∷ []) ∙ ap (λ l. logged e.log ++ l) c in
        after_write_ahead-Recorded (record (advance e) { log = e.log ++ entry ∷ [] }) t subject.type
          refl refl (ap (λ l. l ++ committed (advance e) subject.type) a ∙ sym l)
          (subst (λ l. Rising l (e.current_sequence_id + 1)) (sym l)
            (committed-Rising subject.type (logged e.log) r))

  pub submit_failure-Recorded :
      (x : SubmitError) → IsRecorded e → After IsRecorded (submit_failure x e)
  unfolding submit_failure IsRecorded
  submit_failure-Recorded x (a, r) =
      After-bind IsRecorded (or_throw (find subject.trid e.active_transactions) assertion_failed) _
        λ t _. After-bind IsRecorded (failure_reply subject.type subject.trid x) _ λ y h.
          let p : Recorded (e.replies ++ y ∷ []) e.log e.current_sequence_id = (
            told_nothing e.replies y (failure_reply-acknowledged subject.type subject.trid x y h)
                ∙ a,
            r,
          ) in
          p
