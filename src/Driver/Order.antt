-- ===== src/Driver/Order.antt =====
-- What a queued driver applies (storage-driver.cpp:104-162) against what the calls of `sequence` gave it.
use mathlib.Core.List.{append_assoc, append-nil}
use d3b.Base.{
  ℕ, zero, suc, ◌≡◌, refl, sym, ap, ◌∙◌, false, List, [], ◌∷◌, ◌++◌, map, none, some, ok,
  ok-injective, arith, inl, inr, Option-cases, Bool-cases, List-cases, get_elem?, drop, ◌==◌,
}
use d3b.Types.{SequenceId, Mutation, MutationType, type_none}
use d3b.Driver.{
  SequenceQueueItem, Stage, applying, QueuedDriver, new_driver, sequence, request, finish_request,
  process_mutation, process_sequence, on_sequence_item, sequence_phase, end_request_phase, process,
  unqueue_request,
}
use d3b.Driver.Steps.{
  Work, wake_process, wake_end, run_sequence, item_done, run_unqueue, Step, call_sequence,
  call_request, call_finish, works, Reach, here, next,
}

abbrev pub Tagged : Type 0
Tagged = SequenceId × Mutation

abbrev pub tag : SequenceId → List Mutation → List Tagged
tag s ms = map (λ m. (s, m)) ms

abbrev pub queued : List SequenceQueueItem → List Tagged
queued [] = []
queued (item ∷ rest) = tag item.sequence_id item.mutations ++ queued rest

-- What is left of the transaction that is being applied.
abbrev pub unfinished : Stage → List Tagged
unfinished (applying item index) = drop (suc index) (tag item.sequence_id item.mutations)
unfinished _ = []

queued-append :
    (s : ℕ) (ms : List Mutation) (q : List SequenceQueueItem)
    → queued (q ++ record { sequence_id = s; mutations = ms } ∷ []) ≡ queued q ++ tag s ms
queued-append s ms [] = append-nil (tag s ms)
queued-append s ms (i ∷ q) =
    rw (queued-append s ms q)
      (sym (append_assoc (tag i.sequence_id i.mutations) (queued q) (tag s ms)))

drop-tag-some :
    (s : ℕ) (ms : List Mutation) (i : ℕ) (m : Mutation)
    → get_elem? ms i ≡ some m
    → drop i (tag s ms) ≡ (s, m) ∷ drop (suc i) (tag s ms)
drop-tag-some s [] i m e = cc
drop-tag-some s (x ∷ ms) zero m e = ground arith
drop-tag-some s (x ∷ ms) (suc i) m e = drop-tag-some s ms i m e

drop-tag-none :
    (s : ℕ) (ms : List Mutation) (i : ℕ) → get_elem? ms i ≡ none → drop i (tag s ms) ≡ []
drop-tag-none s [] zero e = refl
drop-tag-none s [] (suc i) e = refl
drop-tag-none s (x ∷ ms) zero e = cc
drop-tag-none s (x ∷ ms) (suc i) e = drop-tag-none s ms i e

module _ {R : Type 0} where
  -- Applied, then unfinished, then queued.
  abbrev pub accounted : QueuedDriver R → List Tagged
  accounted d = d.applied ++ (unfinished d.stage ++ queued d.sequence_queue)

  process_mutation-accounted :
      (item : SequenceQueueItem) (i : ℕ) (m : Mutation) (t : MutationType) (d d' : QueuedDriver R)
      → process_mutation item i m t d ≡ ok d'
      → accounted d'
        ≡ d.applied
          ++ (((item.sequence_id, m) ∷ drop (suc i) (tag item.sequence_id item.mutations))
              ++ queued d.sequence_queue)
  unfolding process_mutation
  process_mutation-accounted item i m type_none d d' e = cc
  process_mutation-accounted item i m _ d d' e = rw (← ok-injective e, append_assoc)

  process_sequence-accounted :
      (item : SequenceQueueItem) (i : ℕ) (d d' : QueuedDriver R)
      → process_sequence item i d ≡ ok d'
      → accounted d'
        ≡ d.applied ++ (drop i (tag item.sequence_id item.mutations) ++ queued d.sequence_queue)
  unfolding process_sequence
  process_sequence-accounted item i d d' e = elim (Option-cases (get_elem? item.mutations i)) [
    | inl n ↦
        rw (drop-tag-none item.sequence_id item.mutations i n)
          (ground (arith, rw (n, process_sequence) at e))
    | inr (m, f) ↦
        rw (drop-tag-some item.sequence_id item.mutations i m f)
          (process_mutation-accounted item i m m.type d d' (rw (f, process_sequence) at e))
  ]

  sequence_phase-accounted :
      (d d' : QueuedDriver R)
      → sequence_phase d ≡ ok d'
      → unfinished d.stage ≡ []
      → accounted d' ≡ accounted d
  unfolding sequence_phase
  sequence_phase-accounted d d' e u = elim (List-cases d.sequence_queue) [
    | inl n ↦ rw (u, ← ok-injective (rw (n, sequence_phase) at e)) (ground arith)
    | inr (item, rest, f) ↦
        rw (u, f)
          (process_sequence-accounted item 0 (record d { sequence_queue = rest }) d'
            (rw (f, sequence_phase) at e))
  ]

  end_request_phase-accounted :
      (d d' : QueuedDriver R)
      → end_request_phase d ≡ ok d'
      → unfinished d.stage ≡ []
      → accounted d' ≡ accounted d
  unfolding end_request_phase
  end_request_phase-accounted d d' e u = elim (Bool-cases (d.active_requests == 0)) [
    | inl z ↦ sequence_phase-accounted d d' (rw (z, end_request_phase) at e) u
    | inr z ↦ rw (u, ← ok-injective (rw (z, end_request_phase) at e))
  ]

  process-accounted :
      (d d' : QueuedDriver R)
      → process d ≡ ok d'
      → unfinished d.stage ≡ []
      → accounted d' ≡ accounted d
  unfolding process
  process-accounted d d' e u = elim (List-cases d.sequence_queue) [
    | inl n ↦ rw (u, ← ok-injective (rw (n, process) at e))
    | inr (item, rest, f) ↦
        end_request_phase-accounted (record d { request_phase = false }) d' (rw (f, process) at e) u
  ]

  unqueue_request-accounted :
      (n : ℕ) (d d' : QueuedDriver R)
      → unqueue_request n d ≡ ok d'
      → unfinished d.stage ≡ []
      → accounted d' ≡ accounted d
  unfolding unqueue_request
  unqueue_request-accounted n d d' e u = elim (List-cases d.request_queue) [
    | inl f ↦ process-accounted d d' (rw (f, unqueue_request) at e) u
    | inr (r, rest, f) ↦ rw (u, ← ok-injective (rw (f, unqueue_request) at e))
  ]

  -- A step of the closure neither loses a mutation nor makes one up, nor changes their order.
  Work-accounted : {d d' : QueuedDriver R} → Work d d' → accounted d' ≡ accounted d
  Work-accounted {d} {d'} (wake_process s _ e) =
      process-accounted (record d { event_fd = 0 }) d' e (ap unfinished s)
  Work-accounted {d} {d'} (wake_end s _ e) =
      end_request_phase-accounted (record d { event_fd = 0 }) d' e (ap unfinished s)
  Work-accounted {d} {d'} (run_sequence s e) = sequence_phase-accounted d d' e (ap unfinished s)
  Work-accounted {d} {d'} (item_done item index s e) =
      rw s (process_sequence-accounted item (suc index) d d' (unfold on_sequence_item in e))
  Work-accounted {d} {d'} (run_unqueue n s e) = unqueue_request-accounted n d d' e (ap unfinished s)

  -- The mutations that the calls of `sequence` in a step or a run were given.
  abbrev pub given_by : {d d' : QueuedDriver R} → Step d d' → List Tagged
  given_by (call_sequence s ms e) = tag s ms
  given_by _ = []

  abbrev pub given : {d d' : QueuedDriver R} → Reach d d' → List Tagged
  given here = []
  given (next r s) = given r ++ given_by s

  request-accounted : (r : R) (d : QueuedDriver R) → accounted (request r d) ≡ accounted d
  unfolding request
  request-accounted r d = ground arith

  Step-accounted :
      {d d' : QueuedDriver R} (s : Step d d') → accounted d' ≡ accounted d ++ given_by s
  unfolding sequence request finish_request
  Step-accounted {d} (call_sequence s ms e) =
      rw (e, queued-append s ms d.sequence_queue) (simp append_assoc)
  Step-accounted {d} (call_request r e) = rw (e, append-nil) (request-accounted r d)
  Step-accounted (call_finish before r after f e) = rw (e, append-nil)
  Step-accounted (works w) = rw append-nil (Work-accounted w)

  -- In every run of a driver, what it has applied, followed by what it has still to apply, is what
  -- the calls of `sequence` gave it: each mutation is applied at most once, in the order of the
  -- commits, under the sequence id of its commit, and none is lost.
  pub Reach-applied :
      {d : QueuedDriver R} (reach : Reach new_driver d)
      → d.applied ++ (unfinished d.stage ++ queued d.sequence_queue) ≡ given reach
  unfolding new_driver
  Reach-applied here = refl
  Reach-applied (next r s) = Step-accounted s ∙ ap (λ l. l ++ given_by s) (Reach-applied r)
