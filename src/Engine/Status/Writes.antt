-- ===== src/Engine/Status/Writes.antt =====
-- The log entry of a queued call and its end (engine.cpp:658-672, 774-827), for the place of every
-- transaction.
use d3b.Base.{◌≡◌, refl, true, List, [], ◌∷◌, ◌++◌, some, arith, find, find-assign, ==_iff}
use d3b.Engine.{
  Engine, Transaction, state_submitted, QueueItem, QueueType, queue_none, queue_submit,
  queue_submit_commit, queue_commit, queue_rollback, LogEntry, submit_reply, submit_success,
}
use d3b.Engine.Transactions.{store}
use d3b.Engine.Completion.{
  answer, log_entry, submit_complete, after_write_ahead, write_ahead, advance,
}
use d3b.Engine.Status.{is_submit, is_commit, count-append, IsPlaced}
use d3b.Engine.Status.Held.{
  Fine, Fine-bind, Any, IsHeld, IsCommitting, log_mutations-Fine, commit_complete-Fine,
}

module _ (e : Engine) where
  abbrev item : QueueItem
  item = e.closure.queue_item

  abbrev pushed : Engine
  pushed = record e { submitted_transactions = e.submitted_transactions ++ item.trid ∷ [] }

  commit-IsCommitting : is_commit item.type ≡ true → IsHeld e → IsCommitting e
  commit-IsCommitting k v = record {
    others = λ j n. ground (arith, v.held j, k, n);
    unqueued = ground (arith, v.held item.trid, k);
    listed = ground (arith, v.held item.trid, k);
    active = λ n. ground (arith, v.held item.trid, k, n);
    fresh = v.fresh;
    typed = v.typed;
  }

  pushed-IsCommitting : is_submit item.type ≡ true → IsHeld e → IsCommitting pushed
  pushed-IsCommitting k v = record {
    others =
        λ j n. ground (arith, v.held j, k, n, count-append j item.trid e.submitted_transactions);
    unqueued = ground (arith, v.held item.trid, k);
    listed =
        ground
          (arith, v.held item.trid, k, count-append item.trid item.trid e.submitted_transactions);
    active = λ n. ground (arith, v.held item.trid, k, n);
    fresh = v.fresh;
    typed = v.typed;
  }

  submit_complete-Fine :
      (t : Transaction)
      → find item.trid e.active_transactions ≡ some t
      → is_submit item.type ≡ true
      → IsHeld e
      → Fine IsPlaced (submit_complete t e)
  unfolding submit_complete
  submit_complete-Fine t f k v = go item.type refl
    where
      submitted :
          (item.type ≡ queue_submit)
          → IsPlaced (
              answer
                (submit_reply item.trid submit_success)
                (store item.trid (record t { state = state_submitted }) pushed))
      submitted q = record {
        placed = λ j. ground (
          arith,
          ==_iff item.trid j,
          find-assign j item.trid (record t { state = state_submitted }) e.active_transactions,
          v.held j,
          q,
          f,
          count-append j item.trid e.submitted_transactions,
        );
        fresh = λ j l. ground (
          arith,
          find-assign j item.trid (record t { state = state_submitted }) e.active_transactions,
          v.fresh j l,
        );
        typed = v.typed;
        busy_type = tt;
        fetched = λ x g h. cc;
      }

      go : (q : QueueType) → item.type ≡ q → Fine IsPlaced (submit_complete t e)
      go queue_submit h = rw (h, submit_complete) (submitted h)
      go queue_submit_commit h =
          rw (h, submit_complete) (commit_complete-Fine pushed t (pushed-IsCommitting k v))
      go queue_commit h = ground (arith, h, k)
      go queue_rollback h = ground (arith, h, k)
      go queue_none h = ground (arith, h, k)

  after_write_ahead-Fine :
      (t : Transaction) (q : QueueType)
      → item.type ≡ q
      → find item.trid e.active_transactions ≡ some t
      → IsHeld e
      → Fine IsPlaced (after_write_ahead t e)
  unfolding after_write_ahead
  after_write_ahead-Fine t queue_submit h f v =
      rw (h, after_write_ahead) (submit_complete-Fine t f (rw h) v)
  after_write_ahead-Fine t queue_submit_commit h f v =
      rw (h, after_write_ahead) (submit_complete-Fine t f (rw h) v)
  after_write_ahead-Fine t queue_commit h f v =
      rw (h, after_write_ahead) (commit_complete-Fine e t (commit-IsCommitting (rw h) v))
  after_write_ahead-Fine t queue_rollback h f v = rw (h, after_write_ahead) tt
  after_write_ahead-Fine t queue_none h f v = rw (h, after_write_ahead) tt

  log_entry-Fine : (t : Transaction) (q : QueueType) → item.type ≡ q → Fine Any (log_entry item t e)
  unfolding log_entry
  log_entry-Fine t queue_submit h =
      rw (h, log_entry)
        (Fine-bind Any Any _ _ (log_mutations-Fine e.storages t.mutations) λ l _. tt)
  log_entry-Fine t queue_submit_commit h =
      rw (h, log_entry)
        (Fine-bind Any Any _ _ (log_mutations-Fine e.storages t.mutations) λ l _. tt)
  log_entry-Fine t queue_commit h = rw (h, log_entry) tt
  log_entry-Fine t queue_rollback h = rw (h, log_entry) tt
  log_entry-Fine t queue_none h = rw (h, log_entry) tt

-- The log and the sequence id are not part of the matter.
set_log-IsHeld : (e : Engine) (l : List LogEntry) → IsHeld e → IsHeld (record e { log = l })
set_log-IsHeld e l v = record { held = v.held; fresh = v.fresh; typed = v.typed }

pub advance-IsHeld : (e : Engine) → IsHeld e → IsHeld (advance e)
advance-IsHeld e v = record { held = v.held; fresh = v.fresh; typed = v.typed }

pub write_ahead-Fine :
    (e : Engine) (t : Transaction)
    → find e.closure.queue_item.trid e.active_transactions ≡ some t
    → IsHeld e
    → Fine IsPlaced (write_ahead t e)
unfolding write_ahead
write_ahead-Fine e t f v =
    Fine-bind Any IsPlaced _ _ (log_entry-Fine e t e.closure.queue_item.type refl) λ entry _.
      after_write_ahead-Fine (record e { log = e.log ++ entry ∷ [] }) t e.closure.queue_item.type
        refl f (set_log-IsHeld e _ v)
