-- ===== src/Driver/Steps.antt =====
-- The runs of a queued driver (storage-driver.cpp, view-driver.cpp): calls from outside, requests
-- that end, and the steps of its `ProcessClosure`, in any order.
use d3b.Base.{ℕ, suc, ◌<◌, ◌≡◌, List, ◌∷◌, ◌++◌, ok}
use d3b.Types.{SequenceId, Mutation}
use d3b.Driver.{
  SequenceQueueItem, wait_process, wait_end, task_sequence, applying, unqueuing, QueuedDriver,
  sequence, request, finish_request, on_sequence_item, sequence_phase, end_request_phase, process,
  unqueue_request,
}

module _ {R : Type 0} where
  -- What the closure does: an event wakes it, a task of its runs, or the driver calls it back.
  pub data Work (d : QueuedDriver R) (d' : QueuedDriver R) : Type 0 where
    wake_process :
        d.stage ≡ wait_process
        → 0 < d.event_fd
        → process (record d { event_fd = 0 }) ≡ ok d'
        → Work d d'
    wake_end :
        d.stage ≡ wait_end
        → 0 < d.event_fd
        → end_request_phase (record d { event_fd = 0 }) ≡ ok d'
        → Work d d'
    run_sequence : d.stage ≡ task_sequence → sequence_phase d ≡ ok d' → Work d d'
    item_done :
        (item : SequenceQueueItem) (index : ℕ)
        → d.stage ≡ applying item index
        → on_sequence_item item index d ≡ ok d'
        → Work d d'
    run_unqueue : (n : ℕ) → d.stage ≡ unqueuing (suc n) → unqueue_request n d ≡ ok d' → Work d d'

  pub data Step (d : QueuedDriver R) (d' : QueuedDriver R) : Type 0 where
    call_sequence :
        (sequence_id : SequenceId) (mutations : List Mutation)
        → d' ≡ sequence sequence_id mutations d
        → Step d d'
    call_request : (r : R) → d' ≡ request r d → Step d d'
    -- some running request ends
    call_finish :
        (before : List R) (r : R) (after : List R)
        → d.running ≡ before ++ r ∷ after
        → d' ≡ finish_request (before ++ after) d
        → Step d d'
    works : Work d d' → Step d d'

  pub data Reach (d : QueuedDriver R) : QueuedDriver R → Type 0 where
    here : Reach d d
    next : {e f : QueuedDriver R} → Reach d e → Step e f → Reach d f
