-- ===== src/Driver.antt =====
-- shard/src/db/storage-driver.cpp and its twin shard/src/db/view-driver.cpp: the queue in front of
-- a storage or a view. Requests (fetches, queries) run side by side while the driver is in its
-- request phase; committed transactions are applied one mutation at a time outside of it.
-- `R` is the type of a queued request. A driver is modelled with the one `ProcessClosure` that
-- works for it, in `stage`, with its `EventFd`, and with the calls that it makes of the virtual
-- functions: `running` holds the requests that `processFetch` or `processQuery` was given and that
-- have not called `finishRequest`, `applied` what `processInsert` and `processModify` were given.
-- A step is one locked section with the calls that follow it.
pub mod Steps
pub mod Exclusion
pub mod Order
pub mod Stall
pub mod Tests
use d3b.Base.{
  ℕ, suc, ◌+◌, ◌-◌, Bool, true, false, List, [], ◌∷◌, ◌++◌, none, some, length, get_elem?, ◌==◌,
  if◌then◌else◌, Result, ok, throws, logic_error,
}
use d3b.Types.{SequenceId, Mutation, MutationType, type_none}

pub record SequenceQueueItem : Type 0 where
  pub sequence_id : SequenceId
  pub mutations : List Mutation

-- What the `ProcessClosure` waits for.
pub data Stage : Type 0 where
  -- `p_eventFd->wait` will call `process`
  wait_process : Stage
  -- `p_eventFd->wait` will call `endRequestPhase`
  wait_end : Stage
  -- the local task queue will call `sequencePhase`
  task_sequence : Stage
  -- a mutation is with the driver, which will call `onSequenceItem`: the item and `p_index`
  applying : SequenceQueueItem → ℕ → Stage
  -- so many tasks of the pool will call `unqueueRequest`
  unqueuing : ℕ → Stage

pub record QueuedDriver (R : Type 0) : Type 0 where
  pub current_sequence_id : SequenceId
  pub sequence_queue : List SequenceQueueItem
  pub request_queue : List R
  pub event_fd : ℕ
  pub active_requests : ℕ
  pub request_phase : Bool
  pub stage : Stage
  pub running : List R
  pub applied : List (SequenceId × Mutation)

module _ {R : Type 0} where
  -- The constructor; `processQueue` then calls `process`, which finds nothing to do and waits.
  unfoldable pub new_driver : QueuedDriver R
  new_driver = record {
    current_sequence_id = 0;
    sequence_queue = [];
    request_queue = [];
    event_fd = 0;
    active_requests = 0;
    request_phase = true;
    stage = wait_process;
    running = [];
    applied = [];
  }

  unfoldable pub sequence : SequenceId → List Mutation → QueuedDriver R → QueuedDriver R
  sequence sequence_id mutations d = record d {
    sequence_queue =
        d.sequence_queue ++ record { sequence_id = sequence_id; mutations = mutations } ∷ [];
    event_fd = d.event_fd + 1;
  }

  -- `fetch` of a storage, `query` of a view.
  unfoldable pub request : R → QueuedDriver R → QueuedDriver R
  request r d =
      if d.request_phase
      then record d {
        active_requests = d.active_requests + 1;
        running = r ∷ d.running;
        event_fd = d.event_fd + 1;
      }
      else record d { request_queue = d.request_queue ++ r ∷ []; event_fd = d.event_fd + 1 }

  -- The counter is above 0 here: only a running request calls this, once (`Exclusion`). `rest` are
  -- the requests that still run.
  unfoldable pub finish_request : List R → QueuedDriver R → QueuedDriver R
  finish_request rest d = record d { active_requests = d.active_requests - 1; running = rest }

  -- The dispatch of `processSequence` on the type of mutation `index`.
  unfoldable pub process_mutation :
      SequenceQueueItem → ℕ → Mutation → MutationType → QueuedDriver R → Result (QueuedDriver R)
  process_mutation item index m type_none d = throws logic_error
  process_mutation item index m _ d =
      ok (record d {
        stage = applying item index;
        applied = d.applied ++ (item.sequence_id, m) ∷ [];
      })

  -- `processSequence`, at mutation `index` of `item`.
  unfoldable pub process_sequence : SequenceQueueItem → ℕ → QueuedDriver R → Result (QueuedDriver R)
  unfolding process_mutation
  process_sequence item index d = elim (get_elem? item.mutations index) [
    | none ↦ ok (record d { current_sequence_id = item.sequence_id; stage = task_sequence })
    | some m ↦ process_mutation item index m m.type d
  ]

  -- `onSequenceItem`: the driver is done with mutation `index`.
  unfoldable pub on_sequence_item : SequenceQueueItem → ℕ → QueuedDriver R → Result (QueuedDriver R)
  unfolding process_sequence
  on_sequence_item item index d = process_sequence item (suc index) d

  unfoldable pub sequence_phase : QueuedDriver R → Result (QueuedDriver R)
  unfolding process_sequence
  sequence_phase d = elim d.sequence_queue [
    | [] ↦ ok (record d { request_phase = true; stage = unqueuing (length d.request_queue + 1) })
    | item ∷ rest ↦ process_sequence item 0 (record d { sequence_queue = rest })
  ]

  unfoldable pub end_request_phase : QueuedDriver R → Result (QueuedDriver R)
  unfolding sequence_phase
  end_request_phase d =
      if d.active_requests == 0 then sequence_phase d else ok (record d { stage = wait_end })

  unfoldable pub process : QueuedDriver R → Result (QueuedDriver R)
  unfolding end_request_phase
  process d = elim d.sequence_queue [
    | [] ↦ ok (record d { stage = wait_process })
    | _ ∷ _ ↦ end_request_phase (record d { request_phase = false })
  ]

  -- `unqueueRequest`, run by one of `suc n` tasks.
  unfoldable pub unqueue_request : ℕ → QueuedDriver R → Result (QueuedDriver R)
  unfolding process
  unqueue_request n d = elim d.request_queue [
    | [] ↦ process d
    | r ∷ rest ↦ ok (record d {
      request_queue = rest;
      active_requests = d.active_requests + 1;
      running = r ∷ d.running;
      stage = unqueuing n;
    })
  ]
