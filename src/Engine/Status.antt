-- ===== src/Engine/Status.antt =====
-- Where each transaction stands: what the state of a transaction says of the queue, of the list of
-- submitted transactions and of the closure (engine.hpp:99-109).
pub mod Calls
pub mod Held
pub mod Writes
pub mod Works
use d3b.Base.{
  ℕ, ◌+◌, ◌≤◌, ◌≡◌, Bool, true, false, List, [], ◌∷◌, ◌++◌, Option, none, some, arith, find,
  remove_first, ◌==◌, if◌then◌else◌, elem, ◌≢◌, get_elem?,
}
use d3b.Engine.{
  Engine, Transaction, State, state_none, state_open, state_in_submit, state_submitted,
  state_in_commit_or_rollback, QueueItem, QueueType, queue_none, queue_submit, queue_submit_commit,
  queue_commit, queue_rollback, Stage, to_process, fetching,
}

abbrev pub is_submit : QueueType → Bool
is_submit queue_submit = true
is_submit queue_submit_commit = true
is_submit _ = false

abbrev pub is_commit : QueueType → Bool
is_commit queue_commit = true
is_commit _ = false

abbrev pub is_rollback : QueueType → Bool
is_rollback queue_rollback = true
is_rollback _ = false

abbrev pub one_if : Bool → ℕ
one_if true = 1
one_if false = 0

-- 1 if the item is of a kind and for transaction `j`.
abbrev pub hit : (QueueType → Bool) → ℕ → QueueItem → ℕ
hit kind j i = if i.trid == j then one_if (kind i.type) else 0

-- How often transaction `j` is queued for a kind of call, and how often it is in a list.
unfoldable pub queued : (QueueType → Bool) → ℕ → List QueueItem → ℕ
queued kind j [] = 0
queued kind j (i ∷ q) = hit kind j i + queued kind j q

unfoldable pub count : ℕ → List ℕ → ℕ
count j [] = 0
count j (i ∷ l) = (if i == j then 1 else 0) + count j l

-- 1 if the closure is in the middle of the submission of `j`.
abbrev pub busy_at : Stage → ℕ → ℕ → ℕ
busy_at to_process k j = 0
busy_at _ k j = if k == j then 1 else 0

abbrev pub busy : Engine → ℕ → ℕ
busy e j = busy_at e.closure.stage e.closure.queue_item.trid j

pub queued-append :
    (kind : QueueType → Bool) (j : ℕ) (q : List QueueItem) (i : QueueItem)
    → queued kind j (q ++ i ∷ []) ≡ queued kind j q + hit kind j i
unfolding queued
queued-append kind j [] i = omega arith
queued-append kind j (x ∷ q) i = omega (arith, queued-append kind j q i)

pub count-append :
    (j k : ℕ) (l : List ℕ) → count j (l ++ k ∷ []) ≡ count j l + (if k == j then 1 else 0)
unfolding count
count-append j k [] = omega arith
count-append j k (x ∷ l) = omega (arith, count-append j k l)

pub count-remove_first :
    (j k : ℕ) (l : List ℕ)
    → elem k l ≡ true
    → count j (remove_first k l) + (if k == j then 1 else 0) ≡ count j l
unfolding count
count-remove_first j k [] h = cc
count-remove_first j k (x ∷ l) h = ground (arith, count-remove_first j k l)

pub elem-count : (k : ℕ) (l : List ℕ) → 1 ≤ count k l → elem k l ≡ true
unfolding count
elem-count k [] h = absurd (omega arith)
elem-count k (x ∷ l) h = ground (arith, elem-count k l)

-- `s`, `c` and `r`: how often the transaction is queued for a submit, a commit and a rollback; `b`:
-- whether it is being submitted; `n`: how often it is in the list of submitted transactions.
abbrev pub AtState : State → (s c r n b : ℕ) → Type 0
AtState state_none s c r n b = ⊥
AtState state_open s c r n b = (s + b ≡ 0) × (c + r ≡ 0) × (n ≡ 0)
AtState state_in_submit s c r n b = (s + b ≡ 1) × (c + r ≡ 0) × (n ≡ 0)
AtState state_submitted s c r n b = (s + b ≡ 0) × (c + r ≡ 0) × (n ≡ 1)
AtState state_in_commit_or_rollback s c r n b = (s + b ≡ 0) × (c + r ≡ 1) × (n ≡ c)

abbrev pub AtPlace : Option Transaction → (s c r n b : ℕ) → Type 0
AtPlace none s c r n b = (s + b ≡ 0) × (c + r ≡ 0) × (n ≡ 0)
AtPlace (some t) s c r n b = AtState t.state s c r n b

abbrev pub Placed : Engine → ℕ → Type 0
Placed e j =
    AtPlace (find j e.active_transactions) (queued is_submit j e.submit_queue)
      (queued is_commit j e.submit_queue) (queued is_rollback j e.submit_queue)
      (count j e.submitted_transactions) (busy e j)

abbrev pub NoneUntyped : List QueueItem → Type 0
NoneUntyped [] = Unit {0}
NoneUntyped (i ∷ q) = (i.type ≢ queue_none) × NoneUntyped q

abbrev pub BusyType : Stage → QueueType → Type 0
BusyType to_process t = Unit {0}
BusyType _ t = is_submit t ≡ true

-- While a storage is asked for the state of a document, the constraint that asks is there.
abbrev pub Fetched : Engine → Type 0
Fetched e =
    (t : Transaction)
    → e.closure.stage ≡ fetching
    → find e.closure.queue_item.trid e.active_transactions ≡ some t
    → get_elem? t.constraints e.closure.index ≢ none

pub record IsPlaced (e : Engine) : Type 0 where
  pub placed : (j : ℕ) → Placed e j
  pub fresh : (j : ℕ) → e.next_transact_id ≤ j → find j e.active_transactions ≡ none
  pub typed : NoneUntyped e.submit_queue
  pub busy_type : BusyType e.closure.stage e.closure.queue_item.type
  pub fetched : Fetched e
