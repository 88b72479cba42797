-- ===== src/Engine/Tests.antt =====
-- Runs of the engine on concrete transactions (engine.cpp).
use d3b.Base.{
  ℕ, ◌+◌, ◌≤◌, ◌≡◌, ◌≢◌, refl, true, List, [], ◌∷◌, none, some, Result, ok, throws, out_of_range,
  logic_error, ℤ, pos, String, All, find, insert, assign, erase, arith, ◌↔◌, ◌++◌, ◌>>=◌,
}
use d3b.Types.{Mutation, type_none, type_insert, type_modify, type_document_state}
use d3b.Storage.{FlexStorage, new_storage, allocate, sequence_storage, sequence_view, reinspect}
use d3b.Engine.{
  Engine, new_engine, Transaction, state_open, state_submitted, submit_constraint_conflict,
  submit_success, commit_reply, submit_reply, to_process,
}
use d3b.Engine.Pointers.{at_index, set_index, for_each}
use d3b.Engine.Transactions.{
  transaction, update_mutation, push_insert, push_mutation, submit, commit, rollback,
}
use d3b.Engine.Conflicts.{find_conflict, check_other, any_rejects, rejects, compatible}
use d3b.Engine.Completion.{
  log_type, log_mutation, log_mutations, log_entry, sequence_all, commit_success, commit_complete,
  submit_complete, after_write_ahead, write_ahead,
}
use d3b.Engine.Processing.{
  process, process_item, process_submit, process_commit, submit_check_constraint, check_at,
}
use d3b.Engine.Replay.{
  replay_meta, replay, on_entries, on_entry, replayed_mutations, replayed_mutation, replayed_type,
  submit_rest, meta_transaction, meta_commit, meta_submitted, replay_storage, reinspect_all,
}
use d3b.Engine.Steps.{
  call_transaction, call_mutation, call_submit, call_commit, drivers_change, runs_process, calls,
  works, Reach, here, next,
}
use d3b.Engine.Status.{count}
use d3b.Engine.Status.Held.{IsBenign}
use d3b.Engine.Safety.{new_engine-IsPlaced, Reach-Next_safe, Reach-submitted}
use d3b.Engine.Ledger.{acknowledged, logged, Rising}
use d3b.Engine.Ledger.Runs.{Reach-acknowledged, Reach-Rising}
use d3b.Engine.Conflicts.Exactness.{Agrees, Answers, find_conflict-none_iff, find_conflict-some}
use d3b.Engine.Replay.Numbers.{Counted, UnusedAs, replay_meta-Counted, replay_storage-allocate}
use d3b.Engine.Guarantee.{commit_entry, IsToldStorage, IsToldView, AtEach, commit_succeeds}
use d3b.Engine.Rollback.{rollback_breaks_submit}

abbrev from_ok : Result Engine → Engine → Engine
from_ok (ok e) d = e
from_ok (throws x) d = d

abbrev empty : Engine
unfolding new_engine
empty = new_engine ("FlexStorage" ∷ []) []

-- One storage.
abbrev with_docs : Engine
unfolding new_storage
with_docs = record empty { storages = none ∷ some (new_storage "docs") ∷ [] }

abbrev opened : Engine
unfolding transaction
opened = (transaction with_docs).0

abbrev hello : Mutation
hello = record { type = type_insert; storage_index = pos 1; document_id = 0; buffer = 7 ∷ [] }

abbrev result : {A : Type 0} → Result A → A → A
result (ok a) d = a
result (throws x) d = d

abbrev updated : Engine × Mutation
unfolding update_mutation push_insert push_mutation at_index set_index allocate
updated = result (update_mutation 1 hello opened) (opened, hello)

abbrev waiting : Engine
unfolding submit
waiting = result (submit 1 updated.0) updated.0

abbrev submitted : Engine
unfolding process process_item process_submit find_conflict submit_check_constraint check_at
    write_ahead log_entry log_mutations log_mutation log_type at_index after_write_ahead
    submit_complete
submitted = result (process waiting) waiting

abbrev committing : Engine
unfolding commit
committing = result (commit 1 submitted) submitted

abbrev committed : Engine
unfolding process process_item process_commit write_ahead log_entry after_write_ahead
    commit_complete commit_success sequence_all sequence_storage sequence_view for_each
committed = result (process committing) committing

committed-replies : committed.replies ≡ submit_reply 1 submit_success ∷ commit_reply 1 2 ∷ []
unfolding committed committing submitted waiting updated opened with_docs empty find insert assign
committed-replies = refl

run_to_committed : Reach (new_engine ("FlexStorage" ∷ []) []) committed
unfolding committed committing submitted waiting updated opened with_docs empty find insert assign
    new_engine transaction update_mutation push_insert push_mutation at_index set_index allocate
    submit process process_item process_submit find_conflict submit_check_constraint check_at
    write_ahead log_entry log_mutations log_mutation log_type after_write_ahead submit_complete
    commit process_commit commit_complete commit_success sequence_all sequence_storage sequence_view
    for_each new_storage
run_to_committed =
    next
      (next
        (next
          (next
            (next
              (next
                (next here (
                  calls (
                    drivers_change (none ∷ some (new_storage "docs") ∷ []) (none ∷ []) empty.disk
                      refl)))
                (calls (call_transaction refl)))
              (calls (call_mutation 1 hello updated.1 refl)))
            (calls (call_submit 1 refl)))
          (works (process waiting) (runs_process refl) refl))
        (calls (call_commit 1 refl)))
      (works (process committing) (runs_process refl) refl)

Reach-acknowledged_example : acknowledged committed.replies ≡ logged committed.log
Reach-acknowledged_example = Reach-acknowledged ("FlexStorage" ∷ []) [] committed run_to_committed

Reach-Rising_example : Rising (logged committed.log) committed.current_sequence_id
Reach-Rising_example = Reach-Rising ("FlexStorage" ∷ []) [] committed run_to_committed

run_to_submitted : Reach (new_engine ("FlexStorage" ∷ []) []) submitted
unfolding submitted waiting updated opened with_docs empty find insert assign new_engine transaction
    update_mutation push_insert push_mutation at_index set_index allocate submit process
    process_item process_submit find_conflict submit_check_constraint check_at write_ahead log_entry
    log_mutations log_mutation log_type after_write_ahead submit_complete new_storage
run_to_submitted =
    next
      (next
        (next
          (next
            (next here (
              calls (
                drivers_change (none ∷ some (new_storage "docs") ∷ []) (none ∷ []) empty.disk
                  refl)))
            (calls (call_transaction refl)))
          (calls (call_mutation 1 hello updated.1 refl)))
        (calls (call_submit 1 refl)))
      (works (process waiting) (runs_process refl) refl)

one-submitted : 1 ≤ count 1 submitted.submitted_transactions
unfolding submitted waiting updated opened with_docs empty find insert assign count
one-submitted = omega arith

Reach-submitted_example :
    (find 1 submitted.active_transactions ≢ none) × (count 1 submitted.submitted_transactions ≡ 1)
Reach-submitted_example =
    Reach-submitted (new_engine ("FlexStorage" ∷ []) []) submitted 1
      (new_engine-IsPlaced ("FlexStorage" ∷ []) []) run_to_submitted one-submitted

-- A transaction whose mutation has no legal type.
abbrev wrong : Engine
unfolding transaction
wrong = (transaction empty).0

abbrev typeless : Mutation
typeless = record { type = type_none; storage_index = pos 1; document_id = 0; buffer = [] }

abbrev wrong_updated : Engine × Mutation
unfolding update_mutation push_mutation
wrong_updated = result (update_mutation 1 typeless wrong) (wrong, typeless)

abbrev wrong_waiting : Engine
unfolding submit
wrong_waiting = result (submit 1 wrong_updated.0) wrong_updated.0

run_to_wrong : Reach (new_engine ("FlexStorage" ∷ []) []) wrong_waiting
unfolding wrong_waiting wrong_updated wrong empty new_engine find insert assign transaction
    update_mutation push_mutation submit
run_to_wrong =
    next
      (next (next here (calls (call_transaction refl)))
        (calls (call_mutation 1 typeless wrong_updated.1 refl)))
      (calls (call_submit 1 refl))

wrong-throws : process wrong_waiting ≡ throws logic_error
unfolding wrong_waiting wrong_updated wrong empty find insert assign process process_item
    process_submit find_conflict submit_check_constraint check_at write_ahead log_entry
    log_mutations log_mutation log_type
wrong-throws = refl

wrong-to_process : wrong_waiting.closure.stage ≡ to_process
unfolding wrong_waiting wrong_updated wrong empty find insert assign
wrong-to_process = refl

Reach-Next_safe_example : IsBenign logic_error
Reach-Next_safe_example =
    Reach-Next_safe (new_engine ("FlexStorage" ∷ []) []) wrong_waiting (process wrong_waiting)
      logic_error (new_engine-IsPlaced ("FlexStorage" ∷ []) []) run_to_wrong
      (runs_process wrong-to_process) wrong-throws

-- A submitted transaction that modifies document 5 of one storage, and one that pins the version of
-- document 5 of another.
abbrev modifier : Transaction
modifier = record {
  mutations =
      record { type = type_modify; storage_index = pos 1; document_id = 5; buffer = [] } ∷ [];
  constraints = [];
  state = state_submitted;
}

abbrev pinning : Transaction
pinning = record {
  mutations = [];
  constraints =
      record {
        type = type_document_state;
        storage_index = pos 2;
        document_id = 5;
        sequence_id = 1;
        must_exist = true;
        match_sequence_id = true;
      }
      ∷ [];
  state = state_open;
}

find_conflict-none_iff_example :
    (find_conflict ((4, modifier) ∷ []) modifier (4 ∷ []) ≡ ok none)
    ↔ All (Agrees ((4, modifier) ∷ []) modifier) (4 ∷ [])
find_conflict-none_iff_example = find_conflict-none_iff ((4, modifier) ∷ []) modifier (4 ∷ [])

pinning-conflicts :
    find_conflict ((4, modifier) ∷ []) pinning (4 ∷ []) ≡ ok (some submit_constraint_conflict)
unfolding find_conflict check_other any_rejects rejects compatible find
pinning-conflicts = refl

find_conflict-some_example :
    (before after : List ℕ) × (id : ℕ) × (other : Transaction) × (4 ∷ [] ≡ before ++ id ∷ after)
    × All (Agrees ((4, modifier) ∷ []) pinning) before
    × (find id ((4, modifier) ∷ []) ≡ some other)
    × Answers other pinning submit_constraint_conflict
find_conflict-some_example =
    find_conflict-some ((4, modifier) ∷ []) pinning (4 ∷ []) submit_constraint_conflict
      pinning-conflicts

-- The engine after a restart with the log of the run above.
abbrev restarted : Engine
unfolding replay_meta replay on_entries on_entry replayed_mutations replayed_mutation replayed_type
    submit_rest meta_transaction meta_commit meta_submitted
restarted = result (replay_meta committed.log with_docs) with_docs

committed-replays : replay_meta committed.log with_docs ≡ ok restarted
unfolding restarted committed committing submitted waiting updated opened with_docs empty find
    insert assign erase replay_meta replay on_entries on_entry replayed_mutations replayed_mutation
    replayed_type submit_rest meta_transaction meta_commit meta_submitted
committed-replays = refl

replay_meta-Counted_example : All (Counted restarted) committed.log
replay_meta-Counted_example =
    replay_meta-Counted committed.log with_docs restarted committed-replays

abbrev docs_index : String → ℤ
docs_index k = pos 1

abbrev docs : FlexStorage
unfolding new_storage
docs = new_storage "docs"

abbrev docs_restarted : FlexStorage
unfolding replay_storage replay on_entries on_entry replayed_mutations replayed_mutation
    replayed_type submit_rest reinspect_all reinspect sequence_storage
docs_restarted = result (replay_storage docs_index committed.log docs) docs

docs-replays : replay_storage docs_index committed.log docs ≡ ok docs_restarted
unfolding docs_restarted docs committed committing submitted waiting updated opened with_docs empty
    find insert assign erase replay_storage replay on_entries on_entry replayed_mutations
    replayed_mutation replayed_type submit_rest reinspect_all reinspect sequence_storage
docs-replays = refl

replay_storage-allocate_example :
    All (λ x. UnusedAs x.type (allocate docs_restarted).1 x) committed.log
replay_storage-allocate_example =
    replay_storage-allocate docs_index committed.log docs docs_restarted docs-replays

-- A second transaction is opened beside the submitted one.
abbrev two_open : Engine
unfolding transaction
two_open = (transaction submitted).0

abbrev first : Transaction
first = record { mutations = updated.1 ∷ []; constraints = []; state = state_submitted }

abbrev second : Transaction
second = record { mutations = []; constraints = []; state = state_open }

two_open-lookups :
    (find 1 two_open.active_transactions ≡ some first)
    × (find 2 two_open.active_transactions ≡ some second)
    × (two_open.submit_queue ≡ [])
    × (two_open.submitted_transactions ≡ 1 ∷ [])
unfolding two_open submitted waiting updated opened with_docs empty find insert assign
two_open-lookups = (refl, refl, refl, refl)

rollback_breaks_submit_example :
    (rollback 1 two_open >>= process >>= submit 2 >>= process) ≡ throws out_of_range
rollback_breaks_submit_example =
    rollback_breaks_submit 1 2 first second two_open two_open-lookups.0 refl two_open-lookups.1 refl
      refl two_open-lookups.2 two_open-lookups.3

submitted-lookups :
    (find 1 submitted.active_transactions ≡ some first) × (submitted.submit_queue ≡ [])
unfolding submitted waiting updated opened with_docs empty find insert assign
submitted-lookups = (refl, refl)

commit_succeeds_example :
    (e' : Engine) × ((commit 1 submitted >>= process) ≡ ok e')
    × (e'.log ≡ submitted.log ++ commit_entry 1 submitted ∷ [])
    × (e'.replies ≡ submitted.replies ++ commit_reply 1 (submitted.current_sequence_id + 1) ∷ [])
    × AtEach
        (IsToldStorage (submitted.current_sequence_id + 1) first.mutations)
        submitted.storages
        e'.storages
    × AtEach
        (IsToldView (submitted.current_sequence_id + 1) first.mutations)
        submitted.views
        e'.views
    × (find 1 e'.active_transactions ≡ none)
    × (count 1 e'.submitted_transactions ≡ 0)
commit_succeeds_example =
    commit_succeeds (new_engine ("FlexStorage" ∷ []) []) submitted 1 first
      (new_engine-IsPlaced ("FlexStorage" ∷ []) []) run_to_submitted submitted-lookups.0 refl
      submitted-lookups.1
