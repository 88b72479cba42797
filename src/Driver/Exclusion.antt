-- ===== src/Driver/Exclusion.antt =====
-- The phases of a queued driver (storage-driver.cpp:42-139): which requests run when.
use d3b.Base.{
  ℕ, suc, ◌+◌, ◌≡◌, refl, ap, subst, true, false, List, [], ◌∷◌, ◌++◌, length, length-append, ok,
  arith, inl, inr, Option-cases, Bool-cases, List-cases, nil_of_length, ◌⊎◌, get_elem?, ◌==◌,
  ==_iff,
}
use d3b.Types.{Mutation, MutationType, type_none}
use d3b.Driver.{
  SequenceQueueItem, Stage, wait_process, wait_end, task_sequence, applying, unqueuing,
  QueuedDriver, new_driver, sequence, request, finish_request, process_mutation, process_sequence,
  on_sequence_item, sequence_phase, end_request_phase, process, unqueue_request,
}
use d3b.Driver.Steps.{
  Work, wake_process, wake_end, run_sequence, item_done, run_unqueue, Step, call_sequence,
  call_request, call_finish, works, Reach, here, next,
}

module _ {R : Type 0} where
  -- What holds of the phase, the counter and the queue at each stage.
  abbrev pub AtStage : Stage → QueuedDriver R → Type 0
  AtStage wait_process d = (d.request_phase ≡ true) × (d.request_queue ≡ [])
  AtStage wait_end d = d.request_phase ≡ false
  AtStage task_sequence d = (d.request_phase ≡ false) × (d.active_requests ≡ 0)
  AtStage (applying item index) d = (d.request_phase ≡ false) × (d.active_requests ≡ 0)
  AtStage (unqueuing n) d = (d.request_phase ≡ true) × (n ≡ length d.request_queue + 1)

  pub record IsPhased (d : QueuedDriver R) : Type 0 where
    pub counted : d.active_requests ≡ length d.running
    pub at_stage : AtStage d.stage d

  pub new_driver-IsPhased : IsPhased new_driver
  unfolding new_driver
  new_driver-IsPhased = record { counted = refl; at_stage = (refl, refl) }

  sequence-IsPhased :
      (s : ℕ) (ms : List Mutation) (d : QueuedDriver R) → IsPhased d → IsPhased (sequence s ms d)
  unfolding sequence
  sequence-IsPhased s ms d v = ground arith

  request-IsPhased : (r : R) (d : QueuedDriver R) → IsPhased d → IsPhased (request r d)
  unfolding request
  request-IsPhased r d v = ground arith

  finish_request-IsPhased :
      (before : List R) (r : R) (after : List R) (d : QueuedDriver R)
      → d.running ≡ before ++ r ∷ after
      → IsPhased d
      → IsPhased (finish_request (before ++ after) d)
  unfolding finish_request
  finish_request-IsPhased before r after d e v =
      ground (arith, ap length e, length-append before (r ∷ after), length-append before after)

  process_mutation-IsPhased :
      (item : SequenceQueueItem) (index : ℕ) (m : Mutation) (t : MutationType)
      (d d' : QueuedDriver R)
      → d.active_requests ≡ length d.running
      → d.request_phase ≡ false
      → d.active_requests ≡ 0
      → process_mutation item index m t d ≡ ok d'
      → IsPhased d'
  unfolding process_mutation
  process_mutation-IsPhased item index m type_none d d' c p a e = cc
  process_mutation-IsPhased item index m _ d d' c p a e = ground arith

  process_sequence-IsPhased :
      (item : SequenceQueueItem) (index : ℕ) (d d' : QueuedDriver R)
      → d.active_requests ≡ length d.running
      → d.request_phase ≡ false
      → d.active_requests ≡ 0
      → process_sequence item index d ≡ ok d'
      → IsPhased d'
  unfolding process_sequence
  process_sequence-IsPhased item index d d' c p a e =
      elim (Option-cases (get_elem? item.mutations index)) [
        | inl n ↦ ground arith
        | inr (m, f) ↦
            process_mutation-IsPhased item index m m.type d d' c p a (rw (f, process_sequence) at e)
      ]

  sequence_phase-IsPhased :
      (d d' : QueuedDriver R)
      → d.active_requests ≡ length d.running
      → d.request_phase ≡ false
      → d.active_requests ≡ 0
      → sequence_phase d ≡ ok d'
      → IsPhased d'
  unfolding sequence_phase
  sequence_phase-IsPhased d d' c p a e = elim (List-cases d.sequence_queue) [
    | inl n ↦ ground arith
    | inr (item, rest, f) ↦
        process_sequence-IsPhased item 0 (record d { sequence_queue = rest }) d' c p a
          (rw (f, sequence_phase) at e)
  ]

  end_request_phase-IsPhased :
      (d d' : QueuedDriver R)
      → d.active_requests ≡ length d.running
      → d.request_phase ≡ false
      → end_request_phase d ≡ ok d'
      → IsPhased d'
  unfolding end_request_phase
  end_request_phase-IsPhased d d' c p e = elim (Bool-cases (d.active_requests == 0)) [
    | inl z ↦ sequence_phase-IsPhased d d' c p ((==_iff _ 0).0 z) (rw (z, end_request_phase) at e)
    | inr z ↦ ground arith
  ]

  -- `process` starts from the request phase with no request queued.
  process-IsPhased :
      (d d' : QueuedDriver R)
      → d.active_requests ≡ length d.running
      → d.request_phase ≡ true
      → d.request_queue ≡ []
      → process d ≡ ok d'
      → IsPhased d'
  unfolding process
  process-IsPhased d d' c p q e = elim (List-cases d.sequence_queue) [
    | inl n ↦ ground arith
    | inr (item, rest, f) ↦
        end_request_phase-IsPhased (record d { request_phase = false }) d' c refl
          (rw (f, process) at e)
  ]

  unqueue_request-IsPhased :
      (n : ℕ) (d d' : QueuedDriver R)
      → d.active_requests ≡ length d.running
      → d.request_phase ≡ true
      → suc n ≡ length d.request_queue + 1
      → unqueue_request n d ≡ ok d'
      → IsPhased d'
  unfolding unqueue_request
  unqueue_request-IsPhased n d d' c p q e = elim (List-cases d.request_queue) [
    | inl f ↦ process-IsPhased d d' c p f (rw (f, unqueue_request) at e)
    | inr (r, rest, f) ↦ ground (arith, ap length f)
  ]

  Work-IsPhased : {d d' : QueuedDriver R} → Work d d' → IsPhased d → IsPhased d'
  Work-IsPhased {d} {d'} (wake_process s _ e) v =
      let h = subst (λ t. AtStage t d) s v.at_stage in
      process-IsPhased (record d { event_fd = 0 }) d' v.counted h.0 h.1 e
  Work-IsPhased {d} {d'} (wake_end s _ e) v =
      end_request_phase-IsPhased (record d { event_fd = 0 }) d' v.counted
        (subst (λ t. AtStage t d) s v.at_stage) e
  Work-IsPhased {d} {d'} (run_sequence s e) v =
      let h = subst (λ t. AtStage t d) s v.at_stage in
      sequence_phase-IsPhased d d' v.counted h.0 h.1 e
  Work-IsPhased {d} {d'} (item_done item index s e) v =
      let h = subst (λ t. AtStage t d) s v.at_stage in
      process_sequence-IsPhased item (suc index) d d' v.counted h.0 h.1
        (unfold on_sequence_item in e)
  Work-IsPhased {d} {d'} (run_unqueue n s e) v =
      let h = subst (λ t. AtStage t d) s v.at_stage in
      unqueue_request-IsPhased n d d' v.counted h.0 h.1 e

  pub Step-IsPhased : {d d' : QueuedDriver R} → Step d d' → IsPhased d → IsPhased d'
  Step-IsPhased {d} (call_sequence s ms e) v = rw e (sequence-IsPhased s ms d v)
  Step-IsPhased {d} (call_request r e) v = rw e (request-IsPhased r d v)
  Step-IsPhased {d} (call_finish before r after f e) v =
      rw e (finish_request-IsPhased before r after d f v)
  Step-IsPhased (works w) v = Work-IsPhased w v

  pub Reach-IsPhased : {d : QueuedDriver R} → Reach new_driver d → IsPhased d
  Reach-IsPhased here = new_driver-IsPhased
  Reach-IsPhased (next r s) = Step-IsPhased s (Reach-IsPhased r)

  -- In every run of a driver: while a mutation is with the driver, no request runs, and a request
  -- that is made then is queued and not started.
  pub applying_excludes_requests :
      (d : QueuedDriver R) (r : R) (item : SequenceQueueItem) (index : ℕ)
      → Reach new_driver d
      → d.stage ≡ applying item index
      → (d.running ≡ [])
        × ((request r d).running ≡ [])
        × ((request r d).request_queue ≡ d.request_queue ++ r ∷ [])
  unfolding request
  applying_excludes_requests d r item index reach s =
      let v = Reach-IsPhased reach in
      let h = subst (λ t. AtStage t d) s v.at_stage in
      let idle = nil_of_length d.running (omega (arith, v.counted, h.1)) in
      (idle, ground (arith, idle, h.0), ground (arith, h.0))

  -- In every run of a driver the counter of active requests is the number of requests that run, so
  -- it never falls below 0, and queued requests wait only outside the request phase or for the
  -- tasks that start them, of which there is one more than requests.
  pub Reach-accounts :
      (d : QueuedDriver R)
      → Reach new_driver d
      → (d.active_requests ≡ length d.running)
        × ((d.request_queue ≡ [])
            ⊎ (d.request_phase ≡ false)
            ⊎ (d.stage ≡ unqueuing (length d.request_queue + 1)))
  Reach-accounts d reach = let v = Reach-IsPhased reach in ground (arith, v.counted, v.at_stage)
