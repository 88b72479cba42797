-- ===== src/Engine/Steps.antt =====
-- The runs of an engine (engine.cpp): calls of clients, and the steps of its `ProcessQueueClosure`, in
-- any order. The rollback of a submitted transaction is left out, and is the matter of `Rollback`.
use d3b.Base.{◌≡◌, Result, ok, true, find, List, Option, some}
use d3b.Types.{TransactionId, Mutation, Constraint}
use d3b.Storage.{FetchError, FlexStorage, View}
use d3b.Engine.{Engine, Disk, Transaction, to_process, to_check, fetching}
use d3b.Engine.Transactions.{
  transaction, update_mutation, update_constraint, submit, submit_commit, commit, rollback, is_open,
}
use d3b.Engine.Processing.{process, submit_check_constraint, check_state_on_fetch}

-- A call of a client that returns.
pub data Call (e : Engine) (e' : Engine) : Type 0 where
  call_transaction : e' ≡ (transaction e).0 → Call e e'
  call_mutation :
      (id : TransactionId) (m m' : Mutation) → update_mutation id m e ≡ ok (e', m') → Call e e'
  call_constraint :
      (id : TransactionId) (c : Constraint) → update_constraint id c e ≡ ok e' → Call e e'
  call_submit : (id : TransactionId) → submit id e ≡ ok e' → Call e e'
  call_submit_commit : (id : TransactionId) → submit_commit id e ≡ ok e' → Call e e'
  call_commit : (id : TransactionId) → commit id e ≡ ok e' → Call e e'
  -- the rollback of a transaction that was not submitted
  call_rollback :
      (id : TransactionId) (t : Transaction)
      → find id e.active_transactions ≡ some t
      → is_open t.state ≡ true
      → rollback id e ≡ ok e'
      → Call e e'
  -- storages and views are created, unlinked, or do their own work
  drivers_change :
      (storages : List (Option FlexStorage)) (views : List (Option View)) (disk : Disk)
      → e' ≡ record e { storages = storages; views = views; disk = disk }
      → Call e e'

-- What the closure does when it is called next.
pub data Next (e : Engine) : Result Engine → Type 0 where
  runs_process : e.closure.stage ≡ to_process → Next e (process e)
  runs_check : e.closure.stage ≡ to_check → Next e (submit_check_constraint e)
  is_answered :
      (error : FetchError) → e.closure.stage ≡ fetching → Next e (check_state_on_fetch error e)

pub data Step (e : Engine) (e' : Engine) : Type 0 where
  calls : Call e e' → Step e e'
  works : (r : Result Engine) → Next e r → r ≡ ok e' → Step e e'

pub data Reach (e : Engine) : Engine → Type 0 where
  here : Reach e e
  next : {f g : Engine} → Reach e f → Step f g → Reach e g
