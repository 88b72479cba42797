-- ===== src/Engine/Status/Calls.antt =====
-- The calls of clients (engine.cpp:175-292) and the place of every transaction.
use d3b.Base.{
  ℕ, ◌≤◌, ◌≡◌, Bool, true, List, [], ◌∷◌, ◌++◌, Option, none, some, ok, ok-injective, arith, find,
  assign, find-assign, find-insert, ==_iff, inl, inr, ◌≢◌, Option-cases, Bool-cases, assert, subst,
  ap, ◌>>=◌, >>=-eq-ok,
}
use d3b.Types.{Mutation, Constraint}
use d3b.Engine.{
  Engine, Disk, Transaction, State, state_open, state_in_submit, state_submitted,
  state_in_commit_or_rollback, QueueItem, QueueType, queue_none, queue_submit, queue_submit_commit,
  queue_commit, queue_rollback,
}
use d3b.Engine.Transactions.{
  transaction, new_transaction, update_mutation, update_constraint, submit, submit_commit, commit,
  rollback, is_open, is_submitted, enqueue, store, lookup, is_insert, push_insert,
}
use d3b.Storage.{FlexStorage, View}
use d3b.Engine.Pointers.{at_index}
use d3b.Engine.Steps.{
  Call, call_transaction, call_mutation, call_constraint, call_submit, call_submit_commit,
  call_commit, call_rollback, drivers_change,
}
use d3b.Engine.Status.{
  is_submit, is_commit, is_rollback, queued-append, Placed, NoneUntyped, IsPlaced,
}

NoneUntyped-append :
    (q : List QueueItem) (i : QueueItem)
    → NoneUntyped q
    → i.type ≢ queue_none
    → NoneUntyped (q ++ i ∷ [])
NoneUntyped-append [] i h n = (n, tt)
NoneUntyped-append (x ∷ q) i h n = (h.0, NoneUntyped-append q i h.1 n)

-- Writing to a transaction that is there keeps the others out of the map.
assign-fresh :
    (id n : ℕ) (t : Transaction) (e : Engine)
    → ((j : ℕ) → n ≤ j → find j e.active_transactions ≡ none)
    → (j : ℕ) → n ≤ j
    → find j (assign id t e.active_transactions) ≡ none
assign-fresh id n t e h j l = ground (arith, find-assign j id t e.active_transactions, h j l)

-- A transaction that keeps its state keeps its place.
store-IsPlaced :
    (id : ℕ) (t t' : Transaction) (e : Engine)
    → find id e.active_transactions ≡ some t
    → t.state ≡ state_open
    → t'.state ≡ state_open
    → IsPlaced e
    → IsPlaced (store id t' e)
store-IsPlaced id t t' e f o s v = record {
  placed = λ j. ground (arith, find-assign j id t' e.active_transactions, v.placed j, ==_iff id j);
  fresh = assign-fresh id e.next_transact_id t' e v.fresh;
  typed = v.typed;
  busy_type = v.busy_type;
  fetched = λ x g h. ground (
    arith,
    find-assign e.closure.queue_item.trid id t' e.active_transactions,
    ==_iff id e.closure.queue_item.trid,
    v.placed e.closure.queue_item.trid,
    v.fetched x g,
    h,
  );
}

transaction-IsPlaced : (e : Engine) → IsPlaced e → IsPlaced (transaction e).0
unfolding transaction
transaction-IsPlaced e v = record {
  placed = λ j. ground (
    arith,
    find-insert j e.next_transact_id new_transaction e.active_transactions unused,
    v.placed j,
    v.placed e.next_transact_id,
    unused,
  );
  fresh = λ j l. ground (
    arith,
    find-insert j e.next_transact_id new_transaction e.active_transactions unused,
    v.fresh j,
  );
  typed = v.typed;
  busy_type = v.busy_type;
  fetched = λ x g h. ground (
    arith,
    find-insert e.closure.queue_item.trid e.next_transact_id new_transaction e.active_transactions
        unused,
    ==_iff e.next_transact_id e.closure.queue_item.trid,
    v.placed e.closure.queue_item.trid,
    v.fetched x g,
    unused,
    h,
  );
}
  where
    unused : find e.next_transact_id e.active_transactions ≡ none
    unused = v.fresh e.next_transact_id (omega arith)

-- The four moves that a queued call makes.
data Move : State → State → QueueType → Type 0 where
  to_submit : Move state_open state_in_submit queue_submit
  to_submit_commit : Move state_open state_in_submit queue_submit_commit
  to_commit : Move state_submitted state_in_commit_or_rollback queue_commit
  to_rollback : Move state_open state_in_commit_or_rollback queue_rollback

module _ (id : ℕ) (t : Transaction) (e : Engine) (f : find id e.active_transactions ≡ some t) where
  enqueue-Placed :
      {old s : State} {type : QueueType}
      → Move old s type
      → t.state ≡ old
      → (j : ℕ) → Placed e j
      → Placed (enqueue id t s type e) j
  enqueue-Placed to_submit o j p = ground (
    arith,
    ==_iff id j,
    find-assign j id (record t { state = state_in_submit }) e.active_transactions,
    queued-append is_submit j e.submit_queue (record { type = queue_submit; trid = id }),
    queued-append is_commit j e.submit_queue (record { type = queue_submit; trid = id }),
    queued-append is_rollback j e.submit_queue (record { type = queue_submit; trid = id }),
  )
  enqueue-Placed to_submit_commit o j p = ground (
    arith,
    ==_iff id j,
    find-assign j id (record t { state = state_in_submit }) e.active_transactions,
    queued-append is_submit j e.submit_queue (record { type = queue_submit_commit; trid = id }),
    queued-append is_commit j e.submit_queue (record { type = queue_submit_commit; trid = id }),
    queued-append is_rollback j e.submit_queue (record { type = queue_submit_commit; trid = id }),
  )
  enqueue-Placed to_commit o j p = ground (
    arith,
    ==_iff id j,
    find-assign j id (record t { state = state_in_commit_or_rollback }) e.active_transactions,
    queued-append is_submit j e.submit_queue (record { type = queue_commit; trid = id }),
    queued-append is_commit j e.submit_queue (record { type = queue_commit; trid = id }),
    queued-append is_rollback j e.submit_queue (record { type = queue_commit; trid = id }),
  )
  enqueue-Placed to_rollback o j p = ground (
    arith,
    ==_iff id j,
    find-assign j id (record t { state = state_in_commit_or_rollback }) e.active_transactions,
    queued-append is_submit j e.submit_queue (record { type = queue_rollback; trid = id }),
    queued-append is_commit j e.submit_queue (record { type = queue_rollback; trid = id }),
    queued-append is_rollback j e.submit_queue (record { type = queue_rollback; trid = id }),
  )

  typed-move : {old s : State} {type : QueueType} → Move old s type → type ≢ queue_none
  typed-move to_submit = λ e. cc
  typed-move _ = λ e. cc

  enqueue-IsPlaced :
      {old s : State} {type : QueueType}
      → Move old s type
      → t.state ≡ old
      → IsPlaced e
      → IsPlaced (enqueue id t s type e)
  enqueue-IsPlaced {s = s} {type = type} m o v = record {
    placed = λ j. enqueue-Placed m o j (v.placed j);
    fresh = assign-fresh id e.next_transact_id (record t { state = s }) e v.fresh;
    typed =
        NoneUntyped-append e.submit_queue (record { type = type; trid = id }) v.typed
          (typed-move m);
    busy_type = v.busy_type;
    fetched = λ x g h. ground (
      arith,
      find-assign e.closure.queue_item.trid id (record t { state = s }) e.active_transactions,
      ==_iff id e.closure.queue_item.trid,
      v.fetched x g,
      v.fetched t g,
      f,
      h,
    );
  }

-- `submit`, `submit_commit` and `commit` test the state of the transaction and queue the call.
queue_call-IsPlaced :
    {old s : State} {type : QueueType} (test : State → Bool) (id : ℕ) (e e' : Engine)
    → Move old s type
    → ((x : State) → test x ≡ true → x ≡ old)
    → (lookup id e >>= λ t. assert (test t.state) (ok (enqueue id t s type e))) ≡ ok e'
    → IsPlaced e
    → IsPlaced e'
queue_call-IsPlaced test id e e' m pass h v = elim (Option-cases (find id e.active_transactions)) [
  | inl n ↦ ground (arith, h, n)
  | inr (t, f) ↦ elim (Bool-cases (test t.state)) [
    | inl o ↦
        subst IsPlaced (ok-injective (rw (f, o) at h))
          (enqueue-IsPlaced id t e f m (pass t.state o) v)
    | inr o ↦ ground (arith, h, f, o)
  ]
]

open_passes : (x : State) → is_open x ≡ true → x ≡ state_open
open_passes x h = ground arith

submitted_passes : (x : State) → is_submitted x ≡ true → x ≡ state_submitted
submitted_passes x h = ground arith

update_constraint-IsPlaced :
    (id : ℕ) (c : Constraint) (e e' : Engine)
    → update_constraint id c e ≡ ok e'
    → IsPlaced e
    → IsPlaced e'
unfolding update_constraint
update_constraint-IsPlaced id c e e' h v = elim (Option-cases (find id e.active_transactions)) [
  | inl n ↦ ground (arith, h, n)
  | inr (t, f) ↦ elim (Bool-cases (is_open t.state)) [
    | inl o ↦
        subst IsPlaced (ok-injective (rw (f, o) at h))
          (store-IsPlaced id t _ e f (open_passes t.state o) (open_passes t.state o) v)
    | inr o ↦ ground (arith, h, f, o)
  ]
]

-- The drivers and the disk are not part of the matter.
set_drivers-IsPlaced :
    (e : Engine) (ss : List (Option FlexStorage)) (vs : List (Option View)) (disk : Disk)
    → IsPlaced e
    → IsPlaced (record e { storages = ss; views = vs; disk = disk })
set_drivers-IsPlaced e ss vs disk v = record {
  placed = v.placed;
  fresh = v.fresh;
  typed = v.typed;
  busy_type = v.busy_type;
  fetched = v.fetched;
}

set_storages-IsPlaced :
    (e : Engine) (ss : List (Option FlexStorage))
    → IsPlaced e
    → IsPlaced (record e { storages = ss })
set_storages-IsPlaced e ss v = record {
  placed = v.placed;
  fresh = v.fresh;
  typed = v.typed;
  busy_type = v.busy_type;
  fetched = v.fetched;
}

push_insert-IsPlaced :
    (id : ℕ) (t : Transaction) (m m' : Mutation) (e e' : Engine)
    → find id e.active_transactions ≡ some t
    → t.state ≡ state_open
    → push_insert id t m e ≡ ok (e', m')
    → IsPlaced e
    → IsPlaced e'
unfolding push_insert
push_insert-IsPlaced id t m m' e e' f o h v =
    let (s, _, g) = >>=-eq-ok (at_index e.storages m.storage_index) _ h in
    subst IsPlaced (ap (λ p. p.0) (ok-injective g))
      (store-IsPlaced id t _ _ f o o (set_storages-IsPlaced e _ v))

update_mutation-IsPlaced :
    (id : ℕ) (m m' : Mutation) (e e' : Engine)
    → update_mutation id m e ≡ ok (e', m')
    → IsPlaced e
    → IsPlaced e'
unfolding update_mutation
update_mutation-IsPlaced id m m' e e' h v = elim (Option-cases (find id e.active_transactions)) [
  | inl n ↦ ground (arith, h, n)
  | inr (t, f) ↦ elim (Bool-cases (is_open t.state)) [
    | inl o ↦ elim (Bool-cases (is_insert m.type)) [
      | inl i ↦ push_insert-IsPlaced id t m m' e e' f (open_passes t.state o) (rw (f, o, i) at h) v
      | inr i ↦
          subst IsPlaced (ap (λ p. p.0) (ok-injective (rw (f, o, i) at h)))
            (store-IsPlaced id t _ e f (open_passes t.state o) (open_passes t.state o) v)
    ]
    | inr o ↦ ground (arith, h, f, o)
  ]
]

rollback-IsPlaced :
    (id : ℕ) (t : Transaction) (e e' : Engine)
    → find id e.active_transactions ≡ some t
    → is_open t.state ≡ true
    → rollback id e ≡ ok e'
    → IsPlaced e
    → IsPlaced e'
unfolding rollback
rollback-IsPlaced id t e e' f o h v =
    subst IsPlaced (ok-injective (rw (f, o) at h))
      (enqueue-IsPlaced id t e f to_rollback (open_passes t.state o) v)

pub Call-IsPlaced : {e e' : Engine} → Call e e' → IsPlaced e → IsPlaced e'
unfolding submit submit_commit commit
Call-IsPlaced {e} (call_transaction h) v = rw h (transaction-IsPlaced e v)
Call-IsPlaced {e} {e'} (call_mutation id m m' h) v = update_mutation-IsPlaced id m m' e e' h v
Call-IsPlaced {e} {e'} (call_constraint id c h) v = update_constraint-IsPlaced id c e e' h v
Call-IsPlaced {e} {e'} (call_submit id h) v =
    queue_call-IsPlaced is_open id e e' to_submit open_passes h v
Call-IsPlaced {e} {e'} (call_submit_commit id h) v =
    queue_call-IsPlaced is_open id e e' to_submit_commit open_passes h v
Call-IsPlaced {e} {e'} (call_commit id h) v =
    queue_call-IsPlaced is_submitted id e e' to_commit submitted_passes h v
Call-IsPlaced {e} {e'} (call_rollback id t f o h) v = rollback-IsPlaced id t e e' f o h v
Call-IsPlaced {e} (drivers_change ss vs disk h) v = rw h (set_drivers-IsPlaced e ss vs disk v)
