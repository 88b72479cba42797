-- ===== src/Engine/Guarantee.antt =====
-- The promise of engine.hpp:51 on the commit of a submitted transaction: engine.cpp:252-271, 546-566 and
-- 693-749.
use d3b.Base.{
  ℕ, ◌+◌, ◌≡◌, refl, true, List, Option, [], ◌∷◌, ◌++◌, none, some, ok, ◌>>=◌, find, assign, erase,
  find-assign, find-erase, elem, remove_first, arith,
}
use d3b.Types.{SequenceId, Mutation}
use d3b.Driver.{QueuedDriver, sequence}
use d3b.Storage.{FlexStorage, View, sequence_storage, sequence_view}
use d3b.Engine.Pointers.{for_each}
use d3b.Engine.{
  Engine, Transaction, state_submitted, state_in_commit_or_rollback, queue_commit, LogEntry,
  log_commit, commit_reply,
}
use d3b.Engine.Transactions.{commit}
use d3b.Engine.Completion.{
  log_entry, commit_success, sequence_all, commit_complete, after_write_ahead, write_ahead, answer,
}
use d3b.Engine.Processing.{process, process_item, process_commit}
use d3b.Engine.Steps.{Reach}
use d3b.Engine.Status.{IsPlaced, count, elem-count, count-remove_first}
use d3b.Engine.Safety.{Reach-IsPlaced}

-- The entry of the log that makes the commit last.
abbrev pub commit_entry : ℕ → Engine → LogEntry
commit_entry id e = record {
  type = log_commit;
  sequence_id = e.current_sequence_id + 1;
  transaction_id = id;
  mutations = [];
}

-- The second queue is the first with one item more at the end, and one event more.
abbrev pub IsTold :
    {R : Type 0} → SequenceId → List Mutation → QueuedDriver R → QueuedDriver R → Type 0
IsTold id ms d d' = d' ≡ record d {
  sequence_queue = d.sequence_queue ++ record { sequence_id = id; mutations = ms } ∷ [];
  event_fd = d.event_fd + 1;
}

abbrev pub IsToldStorage : SequenceId → List Mutation → FlexStorage → FlexStorage → Type 0
IsToldStorage id ms x y =
    (y.identifier ≡ x.identifier)
    × (y.last_document_id ≡ x.last_document_id)
    × IsTold id ms x.queue y.queue

abbrev pub IsToldView : SequenceId → List Mutation → View → View → Type 0
IsToldView id ms x y = (y.identifier ≡ x.identifier) × IsTold id ms x.queue y.queue

-- The lists have null pointers at the same indices, and at the others drivers that `R` relates.
pub AtEach : {D : Type 0} → (D → D → Type 0) → List (Option D) → List (Option D) → Type 0
AtEach R [] [] = Unit
AtEach R (none ∷ xs) (none ∷ ys) = AtEach R xs ys
AtEach R (some x ∷ xs) (some y ∷ ys) = R x y × AtEach R xs ys
AtEach R _ _ = ⊥

for_each-AtEach :
    {D : Type 0} (R : D → D → Type 0) (f : D → D) (xs : List (Option D))
    → ((x : D) → R x (f x))
    → AtEach R xs (for_each f xs)
unfolding for_each AtEach
for_each-AtEach R f [] h = tt
for_each-AtEach R f (none ∷ xs) h = for_each-AtEach R f xs h
for_each-AtEach R f (some x ∷ xs) h = (h x, for_each-AtEach R f xs h)

storages_told :
    (id : SequenceId) (ms : List Mutation) (xs : List (Option FlexStorage))
    → AtEach (IsToldStorage id ms) xs (for_each (sequence_storage id ms) xs)
unfolding sequence_storage sequence
storages_told id ms xs = for_each-AtEach _ _ xs (λ x. (refl, refl, refl))

views_told :
    (id : SequenceId) (ms : List Mutation) (xs : List (Option View))
    → AtEach (IsToldView id ms) xs (for_each (sequence_view id ms) xs)
unfolding sequence_view sequence
views_told id ms xs = for_each-AtEach _ _ xs (λ x. (refl, refl))

-- What a commit leaves of the engine.
abbrev after_commit : ℕ → Transaction → Engine → Engine
unfolding sequence_all
after_commit id t e =
    answer (commit_reply id (e.current_sequence_id + 1))
      (record (sequence_all (e.current_sequence_id + 1) t.mutations e) {
        submit_queue = [];
        current_sequence_id = e.current_sequence_id + 1;
        active_transactions =
            erase id
              (assign id (record t { state = state_in_commit_or_rollback }) e.active_transactions);
        submitted_transactions = remove_first id e.submitted_transactions;
        log = e.log ++ commit_entry id e ∷ [];
        closure = record (e.closure) {
          queue_item = record { type = queue_commit; trid = id };
          sequence_id = e.current_sequence_id + 1;
        };
      })

commit-process :
    (id : ℕ) (t : Transaction) (e : Engine)
    → find id e.active_transactions ≡ some t
    → t.state ≡ state_submitted
    → e.submit_queue ≡ []
    → elem id e.submitted_transactions ≡ true
    → (commit id e >>= process) ≡ ok (after_commit id t e)
unfolding commit process process_item process_commit write_ahead log_entry after_write_ahead
    commit_complete commit_success sequence_all after_commit
commit-process id t e f s q m = ground (
  arith,
  f,
  find-assign id id (record t { state = state_in_commit_or_rollback }) e.active_transactions,
)

-- In every engine that a run without rollbacks of submitted transactions reaches from a start where
-- every transaction stands at its place: the commit of a submitted transaction, queued alone,
-- succeeds. The closure logs it with the next sequence id, answers that id, and puts the mutations of
-- the transaction, under that id, at the end of the queue of every storage and view, with an event
-- for each; else those are as they were. The transaction is gone.
pub commit_succeeds :
    (d e : Engine) (id : ℕ) (t : Transaction)
    → IsPlaced d
    → Reach d e
    → find id e.active_transactions ≡ some t
    → t.state ≡ state_submitted
    → e.submit_queue ≡ []
    → (e' : Engine) × ((commit id e >>= process) ≡ ok e')
      × (e'.log ≡ e.log ++ commit_entry id e ∷ [])
      × (e'.replies ≡ e.replies ++ commit_reply id (e.current_sequence_id + 1) ∷ [])
      × AtEach (IsToldStorage (e.current_sequence_id + 1) t.mutations) e.storages e'.storages
      × AtEach (IsToldView (e.current_sequence_id + 1) t.mutations) e.views e'.views
      × (find id e'.active_transactions ≡ none)
      × (count id e'.submitted_transactions ≡ 0)
unfolding after_commit sequence_all
commit_succeeds d e id t v reach f s q =
    let p = (Reach-IsPlaced reach v).placed id in
    let l : count id e.submitted_transactions ≡ 1 = ground (arith, p, f, s) in
    let m = elem-count id e.submitted_transactions (omega (arith, l)) in
    (
      after_commit id t e,
      commit-process id t e f s q m,
      refl,
      refl,
      storages_told (e.current_sequence_id + 1) t.mutations e.storages,
      views_told (e.current_sequence_id + 1) t.mutations e.views,
      ground (
        arith,
        find-erase id id
            (assign id (record t { state = state_in_commit_or_rollback }) e.active_transactions),
      ),
      ground (arith, l, count-remove_first id id e.submitted_transactions m),
    )
