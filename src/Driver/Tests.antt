-- ===== src/Driver/Tests.antt =====
-- Runs of a driver on concrete calls (storage-driver.cpp).
use d3b.Base.{ℕ, ◌+◌, ◌≡◌, refl, false, [], ◌∷◌, ◌++◌, pos, length, ◌⊎◌, arith}
use d3b.Types.{Mutation, type_insert}
use d3b.Driver.{
  SequenceQueueItem, QueuedDriver, new_driver, sequence, request, process, end_request_phase,
  sequence_phase, process_sequence, process_mutation, applying, unqueuing,
}
use d3b.Driver.Steps.{Work, wake_process, call_sequence, works, Reach, here, next}
use d3b.Driver.Exclusion.{applying_excludes_requests, Reach-accounts}
use d3b.Driver.Order.{Reach-applied, unfinished, queued, given}
use d3b.Driver.Stall.{stalls, stalled, IsStalled}

abbrev hello : Mutation
hello = record { type = type_insert; storage_index = pos 1; document_id = 1; buffer = 7 ∷ [] }

abbrev item : SequenceQueueItem
item = record { sequence_id = 2; mutations = hello ∷ [] }

abbrev busy : QueuedDriver ℕ
busy = record {
  current_sequence_id = 0;
  sequence_queue = [];
  request_queue = [];
  event_fd = 0;
  active_requests = 0;
  request_phase = false;
  stage = applying item 0;
  running = [];
  applied = (2, hello) ∷ [];
}

-- A transaction is committed, and its first mutation is with the driver.
abbrev run_to_busy : Reach (new_driver {R = ℕ}) busy
unfolding new_driver sequence process end_request_phase sequence_phase process_sequence
    process_mutation
run_to_busy =
    next (next here (call_sequence 2 (hello ∷ []) refl))
      (works (wake_process refl (omega arith) refl))

applying_excludes_requests_example :
    (busy.running ≡ [])
    × ((request 9 busy).running ≡ [])
    × ((request 9 busy).request_queue ≡ busy.request_queue ++ 9 ∷ [])
applying_excludes_requests_example = applying_excludes_requests busy 9 item 0 run_to_busy refl

Reach-accounts_example :
    (busy.active_requests ≡ length busy.running)
    × ((busy.request_queue ≡ [])
        ⊎ (busy.request_phase ≡ false)
        ⊎ (busy.stage ≡ unqueuing (length busy.request_queue + 1)))
Reach-accounts_example = Reach-accounts busy run_to_busy

Reach-applied_example :
    busy.applied ++ (unfinished busy.stage ++ queued busy.sequence_queue) ≡ given run_to_busy
Reach-applied_example = Reach-applied run_to_busy

stalls_example :
    Reach {R = ℕ} new_driver (stalled 9 2 (hello ∷ []))
    × IsStalled {R = ℕ} (stalled 9 2 (hello ∷ []))
    × ((d : QueuedDriver ℕ) → ¬ Work {R = ℕ} (stalled 9 2 (hello ∷ [])) d)
stalls_example = stalls 9 2 (hello ∷ [])
