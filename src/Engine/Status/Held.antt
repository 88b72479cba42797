-- ===== src/Engine/Status/Held.antt =====
-- The closure with a queued call in hand: the ends of `submitFailure` and `commitComplete`
-- (engine.cpp:673-690, 728-749), for the place of every other transaction.
use d3b.Base.{
  ℕ, ◌+◌, ◌≤◌, ◌≡◌, true, false, List, [], ◌∷◌, Option, none, Result, ok, throws, arith, find,
  erase, find-erase, ◌==◌, ==_iff, inl, inr, ◌≢◌, Option-cases, ◌>>=◌, remove_first, Error,
  logic_error, ◌⊎◌, bad_driver, ℤ, Map,
}
use d3b.Types.{Mutation, MutationType}
use d3b.Storage.{FlexStorage, View}
use d3b.Engine.{Engine, Transaction, QueueItem, QueueType, SubmitError, Reply}
use d3b.Engine.Pointers.{at_index}
use d3b.Engine.Conflicts.{find_conflict}
use d3b.Engine.Completion.{
  answer, submit_failure, log_type, log_mutations, failure_reply, commit_success, commit_complete,
}
use d3b.Engine.Status.{
  is_submit, is_commit, is_rollback, hit, queued, count, AtPlace, NoneUntyped, IsPlaced,
  count-remove_first, elem-count,
}

-- Errors that come from an unknown storage, or from a mutation, a constraint or an answer of no
-- legal type.
abbrev pub IsBenign : Error → Type 0
IsBenign logic_error = Unit
IsBenign bad_driver = Unit
IsBenign _ = ⊥

-- The call returns a value of `P`, or throws such an error.
abbrev pub Fine {ℓ} : {A : Type ℓ} → (A → Type 0) → Result A → Type 0
Fine P (ok a) = P a
Fine P (throws x) = IsBenign x

pub Fine-bind {ℓ κ} :
    {A : Type ℓ} {B : Type κ} (P : A → Type 0) (Q : B → Type 0) (m : Result A) (f : A → Result B)
    → Fine P m
    → ((a : A) → P a → Fine Q (f a))
    → Fine Q (m >>= f)
Fine-bind P Q (ok a) f h k = k a h
Fine-bind P Q (throws x) f h k = h

abbrev pub Any {ℓ} : {A : Type ℓ} → A → Type 0
Any a = Unit

-- Each transaction at its place, with the item of the closure counted as if it were queued.
abbrev pub Held : Engine → ℕ → Type 0
Held e j =
    AtPlace (find j e.active_transactions)
      (queued is_submit j e.submit_queue + hit is_submit j e.closure.queue_item)
      (queued is_commit j e.submit_queue + hit is_commit j e.closure.queue_item)
      (queued is_rollback j e.submit_queue + hit is_rollback j e.closure.queue_item)
      (count j e.submitted_transactions) 0

pub record IsHeld (e : Engine) : Type 0 where
  pub held : (j : ℕ) → Held e j
  pub fresh : (j : ℕ) → e.next_transact_id ≤ j → find j e.active_transactions ≡ none
  pub typed : NoneUntyped e.submit_queue

pub at_index-Fine : (ds : List (Option FlexStorage)) (i : ℤ) → Fine Any (at_index ds i)
unfolding at_index
at_index-Fine ds i = ground arith

log_type-Fine : (t : MutationType) → Fine Any (log_type t)
unfolding log_type
log_type-Fine t = ground arith

pub log_mutations-Fine :
    (ss : List (Option FlexStorage)) (ms : List Mutation) → Fine Any (log_mutations ss ms)
unfolding log_mutations
log_mutations-Fine ss [] = tt
log_mutations-Fine ss (m ∷ ms) =
    Fine-bind Any Any _ _
      (Fine-bind Any Any _ _ (log_type-Fine m.type)
        λ t _. Fine-bind Any Any _ _ (at_index-Fine ss m.storage_index) λ d _. tt)
      λ l _. Fine-bind Any Any _ _ (log_mutations-Fine ss ms) λ ls _. tt

-- A submitted transaction is active, so the loop over them finds each.
pub find_conflict-Fine :
    (active : Map Transaction) (t : Transaction) (ids : List ℕ)
    → ((j : ℕ) → 1 ≤ count j ids → find j active ≢ none)
    → Fine Any (find_conflict active t ids)
unfolding find_conflict count
find_conflict-Fine active t [] h = tt
find_conflict-Fine active t (k ∷ ids) h = elim (Option-cases (find k active)) [
  | inl n ↦ absurd (h k (ground arith) n)
  | inr (other, f) ↦
      let rest = find_conflict-Fine active t ids (λ j l. h j (ground arith)) in
      ground (arith, f, rest)
]

failure_reply-Fine : (t : QueueType) (id : ℕ) (x : SubmitError) → Fine Any (failure_reply t id x)
unfolding failure_reply
failure_reply-Fine t id x = ground arith

commit_success-Fine : (t : QueueType) (id s : ℕ) → Fine Any (commit_success t id s)
unfolding commit_success
commit_success-Fine t id s = ground arith

-- The transaction of the item is submitted, and commits: it is queued no more, and once in the list.
pub record IsCommitting (e : Engine) : Type 0 where
  pub others :
      (j : ℕ)
      → (e.closure.queue_item.trid == j) ≡ false
      → AtPlace
          (find j e.active_transactions)
          (queued is_submit j e.submit_queue)
          (queued is_commit j e.submit_queue)
          (queued is_rollback j e.submit_queue)
          (count j e.submitted_transactions)
          0
  pub unqueued :
      (queued is_submit e.closure.queue_item.trid e.submit_queue ≡ 0)
      × (queued is_commit e.closure.queue_item.trid e.submit_queue ≡ 0)
      × (queued is_rollback e.closure.queue_item.trid e.submit_queue ≡ 0)
  pub listed : count e.closure.queue_item.trid e.submitted_transactions ≡ 1
  pub active : find e.closure.queue_item.trid e.active_transactions ≢ none
  pub fresh : (j : ℕ) → e.next_transact_id ≤ j → find j e.active_transactions ≡ none
  pub typed : NoneUntyped e.submit_queue

module _ (e : Engine) where
  abbrev pub item : QueueItem
  item = e.closure.queue_item

  -- The transaction of the item leaves the engine.
  abbrev pub left : Reply → Engine
  left r = answer r (record e { active_transactions = erase item.trid e.active_transactions })

  left-fresh :
      ((j : ℕ) → e.next_transact_id ≤ j → find j e.active_transactions ≡ none)
      → (j : ℕ) → e.next_transact_id ≤ j
      → find j (erase item.trid e.active_transactions) ≡ none
  left-fresh h j l = ground (arith, find-erase j item.trid e.active_transactions, h j l)

  pub left-IsPlaced :
      (is_submit item.type ≡ true) ⊎ (is_rollback item.type ≡ true)
      → IsHeld e
      → (r : Reply) → IsPlaced (left r)
  left-IsPlaced k v r = record {
    placed = λ j.
        ground
          (arith, k, ==_iff item.trid j, find-erase j item.trid e.active_transactions, v.held j);
    fresh = left-fresh v.fresh;
    typed = v.typed;
    busy_type = tt;
    fetched = λ x g h. cc;
  }

  pub submit_failure-Fine :
      (x : SubmitError) → is_submit item.type ≡ true → IsHeld e → Fine IsPlaced (submit_failure x e)
  unfolding submit_failure
  submit_failure-Fine x s v = elim (Option-cases (find item.trid e.active_transactions)) [
    | inl n ↦ ground (arith, n, s, v.held item.trid)
    | inr (t, f) ↦ rw f (
        Fine-bind Any IsPlaced (failure_reply item.type item.trid x) _
          (failure_reply-Fine item.type item.trid x) λ r _. left-IsPlaced (inl s) v r)
  ]

  -- What `commit_complete` leaves, whatever it has told the drivers.
  committed-IsPlaced :
      (r : Reply) (ss : List (Option FlexStorage)) (vs : List (Option View))
      → IsCommitting e
      → IsPlaced (record (left r) {
        storages = ss;
        views = vs;
        submitted_transactions = remove_first item.trid e.submitted_transactions;
      })
  committed-IsPlaced r ss vs v = record {
    placed = λ j. ground (
      arith,
      ==_iff item.trid j,
      find-erase j item.trid e.active_transactions,
      count-remove_first j item.trid e.submitted_transactions
          (elem-count item.trid e.submitted_transactions (omega (arith, v.listed))),
      v.others j,
      v.unqueued,
      v.listed,
    );
    fresh = left-fresh v.fresh;
    typed = v.typed;
    busy_type = tt;
    fetched = λ x g h. cc;
  }

  pub commit_complete-Fine :
      (t : Transaction) → IsCommitting e → Fine IsPlaced (commit_complete t e)
  unfolding commit_complete
  commit_complete-Fine t v = elim (Option-cases (find item.trid e.active_transactions)) [
    | inl n ↦ absurd (v.active n)
    | inr (t', f) ↦
        rw (f, elem-count item.trid e.submitted_transactions (omega (arith, v.listed)))
          (Fine-bind Any IsPlaced (commit_success item.type item.trid e.closure.sequence_id) _
            (commit_success-Fine item.type item.trid e.closure.sequence_id)
            λ r _. committed-IsPlaced r _ _ v)
  ]
