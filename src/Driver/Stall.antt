-- ===== src/Driver/Stall.antt =====
-- A lost wake-up: `finishRequest` (storage-driver.cpp:65, view-driver.cpp:66) lowers the counter that
-- `endRequestPhase` waits for, and does not signal the event.
use d3b.Base.{◌≡◌, ◌≢◌, refl, false, List, [], arith}
use d3b.Types.{SequenceId, Mutation}
use d3b.Driver.{
  wait_process, wait_end, QueuedDriver, new_driver, sequence, request, finish_request, process,
}
use d3b.Driver.Steps.{
  Work, wake_process, wake_end, run_sequence, item_done, run_unqueue, call_sequence, call_request,
  call_finish, works, Reach, here, next,
}

module _ {R : Type 0} where
  -- A transaction waits, no request is active, and the closure sleeps on an event that is not
  -- signalled.
  pub record IsStalled (d : QueuedDriver R) : Type 0 where
    pub has_work : d.sequence_queue ≢ []
    pub none_active : d.active_requests ≡ 0
    pub asleep : d.stage ≡ wait_end
    pub unsignalled : d.event_fd ≡ 0

  -- A stalled driver does nothing by itself.
  IsStalled-stuck : (d d' : QueuedDriver R) → IsStalled d → ¬ Work d d'
  IsStalled-stuck d d' v (wake_process s p e) = ground (arith, v.asleep)
  IsStalled-stuck d d' v (wake_end s p e) = omega (arith, v.unsignalled)
  IsStalled-stuck d d' v (run_sequence s e) = ground (arith, v.asleep)
  IsStalled-stuck d d' v (item_done item index s e) = ground (arith, v.asleep)
  IsStalled-stuck d d' v (run_unqueue n s e) = ground (arith, v.asleep)

  abbrev requested : R → QueuedDriver R
  requested r = record (request r new_driver) { event_fd = 0; stage = wait_process }

  abbrev ending : R → SequenceId → List Mutation → QueuedDriver R
  ending r s ms = record (sequence s ms (requested r)) {
    event_fd = 0;
    stage = wait_end;
    request_phase = false;
  }

  -- A request starts, a transaction is committed, and then the request ends.
  unfoldable pub stalled : R → SequenceId → List Mutation → QueuedDriver R
  stalled r s ms = finish_request [] (ending r s ms)

  stalled-reached :
      (r : R) (s : SequenceId) (ms : List Mutation) → Reach new_driver (stalled r s ms)
  unfolding stalled new_driver sequence request finish_request process
  stalled-reached r s ms =
      next
        (next
          (next
            (next (next here (call_request r refl)) (works (wake_process refl (omega arith) refl)))
            (call_sequence s ms refl))
          (works (wake_process refl (omega arith) refl)))
        (call_finish [] r [] refl refl)

  stalled-IsStalled : (r : R) (s : SequenceId) (ms : List Mutation) → IsStalled (stalled r s ms)
  unfolding stalled new_driver sequence request finish_request
  stalled-IsStalled r s ms = record {
    has_work = λ e. cc;
    none_active = refl;
    asleep = refl;
    unsignalled = refl;
  }

  -- For every request and every transaction there is a run in which the driver stalls: the
  -- transaction has been handed to `sequence`, the request has ended, and from there the closure
  -- takes no step.
  pub stalls :
      (r : R) (s : SequenceId) (ms : List Mutation)
      → Reach new_driver (stalled r s ms)
        × IsStalled (stalled r s ms)
        × ((d : QueuedDriver R) → ¬ Work (stalled r s ms) d)
  stalls r s ms =
      let v = stalled-IsStalled r s ms in
      (stalled-reached r s ms, v, λ d. IsStalled-stuck (stalled r s ms) d v)
