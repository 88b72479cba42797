-- ===== src/Engine/Replay/Numbers.antt =====
-- The numbers that a restarted engine hands out (engine.cpp:407-536, flex-storage.cpp:54-59) against
-- those in its log.
use d3b.Base.{
  ℕ, ◌≤◌, ◌<◌, ◌≡◌, refl, sym, subst, List, [], ◌∷◌, ok, >>=-eq-ok, ok-injective, Map, ℤ, String,
  All, All-mono, arith, ◌∙◌,
}
use d3b.Types.{DocumentId, TransactionId, SequenceId, Mutation, type_insert}
use d3b.Storage.{FlexStorage, reinspect, sequence_storage, allocate}
use d3b.Engine.{
  Engine, Transaction, LogEntry, LogType, log_none, log_submit, log_submit_commit, log_commit,
  log_rollback, LogMutation, LogMutationType, log_mutation_none, log_insert, log_modify,
}
use d3b.Engine.Registry.{get_storage}
use d3b.Engine.Replay.{
  replayed_type, replayed_mutation, replayed_mutations, on_entries, submit_rest, replay,
  meta_transaction, meta_commit, meta_submitted, replay_meta, reinspect_all, replay_storage,
}
use d3b.Engine.Replay.Recovery.{Called, on_entries-Covers}

-- The numbers of an entry are below those that come next.
abbrev pub CountedAs : LogType → LogEntry → TransactionId → SequenceId → Type 0
CountedAs log_submit x next current = x.transaction_id < next
CountedAs log_submit_commit x next current = (x.transaction_id < next) × (x.sequence_id ≤ current)
CountedAs log_commit x next current = x.sequence_id ≤ current
CountedAs _ x next current = Unit

pub Counted : Engine → LogEntry → Type 0
Counted e x = CountedAs x.type x e.next_transact_id e.current_sequence_id

CountedAs-mono :
    (q : LogType) (x : LogEntry) (n n' s s' : ℕ)
    → n ≤ n'
    → s ≤ s'
    → CountedAs q x n s
    → CountedAs q x n' s'
CountedAs-mono log_submit x n n' s s' h k c = omega (arith, h, c)
CountedAs-mono log_submit_commit x n n' s s' h k c = (omega (arith, h, c.0), omega (arith, k, c.1))
CountedAs-mono log_commit x n n' s s' h k c = omega (arith, k, c)
CountedAs-mono log_rollback x n n' s s' h k c = tt
CountedAs-mono log_none x n n' s s' h k c = tt

-- The engine's numbers do not go down.
abbrev Grows : Engine → Engine → Type 0
Grows e e' =
    (e.next_transact_id ≤ e'.next_transact_id) × (e.current_sequence_id ≤ e'.current_sequence_id)

module _ (f : String → ℤ) where
  Called-Grows :
      (y : LogEntry) (q : LogType) (e e' : Engine)
      → Called f meta_transaction meta_commit meta_submitted y q e e'
      → Grows e e'
  unfolding meta_transaction meta_commit
  Called-Grows y log_submit e e' (ms, _, k) = (ground (arith, k), ground (arith, k))
  Called-Grows y log_submit_commit e e' (ms, _, k) = (ground (arith, k), ground (arith, k))
  Called-Grows y log_commit e e' (t, k) = (ground (arith, k), ground (arith, k))
  Called-Grows y log_rollback e e' c = absurd c
  Called-Grows y log_none e e' c = absurd c

  Called-CountedAs :
      (y : LogEntry) (q : LogType) (e e' : Engine)
      → Called f meta_transaction meta_commit meta_submitted y q e e'
      → CountedAs q y e'.next_transact_id e'.current_sequence_id
  unfolding meta_transaction meta_commit
  Called-CountedAs y log_submit e e' (ms, _, k) = ground (arith, k)
  Called-CountedAs y log_submit_commit e e' (ms, _, k) = (ground (arith, k), ground (arith, k))
  Called-CountedAs y log_commit e e' (t, k) = ground (arith, k)
  Called-CountedAs y log_rollback e e' c = absurd c
  Called-CountedAs y log_none e e' c = absurd c

  submit_rest-Counted :
      (rest : Map Transaction) (e : Engine) (x : LogEntry)
      → Counted e x
      → Counted (submit_rest f meta_transaction meta_commit meta_submitted rest e) x
  unfolding submit_rest meta_submitted Counted
  submit_rest-Counted [] e x c = c
  submit_rest-Counted ((id, t) ∷ rest) e x c = submit_rest-Counted rest (meta_submitted id t e) x c

-- After the replay of a log that can be read, the engine has counted every entry: the transaction id
-- that it hands out next is above the id of every transaction submitted in the log, and the current
-- sequence id is not below that of any commit.
pub replay_meta-Counted :
    (log : List LogEntry) (e e' : Engine) → replay_meta log e ≡ ok e' → All (Counted e') log
unfolding replay_meta replay Counted
replay_meta-Counted log e e' h =
    let (p, g, k) =
      >>=-eq-ok (on_entries (get_storage e) meta_transaction meta_commit meta_submitted log ([], e))
        _ h in
    subst (λ x. All (Counted x) log) (ok-injective k)
      (All-mono (Counted p.1) _ log (submit_rest-Counted (get_storage e) p.0 p.1) (
        on_entries-Covers (get_storage e) meta_transaction meta_commit meta_submitted
          (λ x d. Counted d x)
          (λ x y q d d' c k.
            let m = Called-Grows (get_storage e) y q d d' c in
            CountedAs-mono x.type x d.next_transact_id d'.next_transact_id d.current_sequence_id
              d'.current_sequence_id m.0 m.1 k)
          (λ y q d d' t c.
            subst (λ q. CountedAs q y d'.next_transact_id d'.current_sequence_id) (sym t)
              (Called-CountedAs (get_storage e) y q d d' c))
          log ([], e) p g))

-- A storage has seen the document ids of some mutations of the log.
abbrev pub Seen : FlexStorage → List LogMutation → Type 0
Seen s ms = All (λ (m : LogMutation). m.document_id ≤ s.last_document_id) ms

abbrev pub SeenAs : LogType → FlexStorage → LogEntry → Type 0
SeenAs log_submit s x = Seen s x.mutations
SeenAs log_submit_commit s x = Seen s x.mutations
SeenAs _ s x = Unit

SeenAs-mono :
    (q : LogType) (x : LogEntry) (s s' : FlexStorage)
    → s.last_document_id ≤ s'.last_document_id
    → SeenAs q s x
    → SeenAs q s' x
SeenAs-mono log_submit x s s' h k = All-mono _ _ x.mutations (λ m l. omega (arith, h, l)) k
SeenAs-mono log_submit_commit x s s' h k = All-mono _ _ x.mutations (λ m l. omega (arith, h, l)) k
SeenAs-mono log_commit x s s' h k = tt
SeenAs-mono log_rollback x s s' h k = tt
SeenAs-mono log_none x s s' h k = tt

reinspect_all_mono :
    (ms : List Mutation) (s : FlexStorage)
    → s.last_document_id ≤ (reinspect_all ms s).last_document_id
unfolding reinspect_all reinspect
reinspect_all_mono [] s = omega arith
reinspect_all_mono (m ∷ ms) s = ground (arith, reinspect_all_mono ms (reinspect m s))

replayed_mutation-insert :
    (f : String → ℤ) (l : LogMutation) (q : LogMutationType) (x : Mutation)
    → l.type ≡ q
    → replayed_mutation f l ≡ ok x
    → (x.type ≡ type_insert) × (x.document_id ≡ l.document_id)
unfolding replayed_mutation replayed_type
replayed_mutation-insert f l log_insert x t h = (ground (arith, t, h), ground (arith, t, h))
replayed_mutation-insert f l log_modify x t h = (ground (arith, t, h), ground (arith, t, h))
replayed_mutation-insert f l log_mutation_none x t h = (ground (arith, t, h), ground (arith, t, h))

reinspect-covers :
    (x : Mutation) (s : FlexStorage)
    → x.type ≡ type_insert
    → x.document_id ≤ (reinspect x s).last_document_id
unfolding reinspect
reinspect-covers x s t = ground (arith, t)

reinspect_all-Seen :
    (f : String → ℤ) (ls : List LogMutation) (ms : List Mutation) (s : FlexStorage)
    → replayed_mutations f ls ≡ ok ms
    → Seen (reinspect_all ms s) ls
unfolding replayed_mutations reinspect_all
reinspect_all-Seen f [] ms s h = tt
reinspect_all-Seen f (l ∷ ls) ms s h =
    let (x, e, g) = >>=-eq-ok (replayed_mutation f l) _ h in
    let (xs, e', k) = >>=-eq-ok (replayed_mutations f ls) _ g in
    let (t, d) = replayed_mutation-insert f l l.type x refl e in
    subst (λ ms. Seen (reinspect_all ms s) (l ∷ ls)) (ok-injective k)
      (
        omega (arith, d, reinspect-covers x s t, reinspect_all_mono xs (reinspect x s)),
        reinspect_all-Seen f ls xs (reinspect x s) e',
      )

abbrev storage_transaction : TransactionId → Transaction → FlexStorage → FlexStorage
storage_transaction id t = reinspect_all t.mutations

abbrev storage_commit : Transaction → SequenceId → FlexStorage → FlexStorage
storage_commit t id = sequence_storage id t.mutations

abbrev storage_submitted : TransactionId → Transaction → FlexStorage → FlexStorage
storage_submitted id t x = x

module _ (f : String → ℤ) where
  Called-grows :
      (y : LogEntry) (q : LogType) (s s' : FlexStorage)
      → Called f storage_transaction storage_commit storage_submitted y q s s'
      → s.last_document_id ≤ s'.last_document_id
  unfolding sequence_storage
  Called-grows y log_submit s s' (ms, _, k) = rw k (reinspect_all_mono ms s)
  Called-grows y log_submit_commit s s' (ms, _, k) = rw k (reinspect_all_mono ms s)
  Called-grows y log_commit s s' (t, k) = rw k (omega arith)
  Called-grows y log_rollback s s' c = absurd c
  Called-grows y log_none s s' c = absurd c

  Called-SeenAs :
      (y : LogEntry) (q : LogType) (s s' : FlexStorage)
      → Called f storage_transaction storage_commit storage_submitted y q s s'
      → SeenAs q s' y
  unfolding sequence_storage
  Called-SeenAs y log_submit s s' (ms, e, k) = rw k (reinspect_all-Seen f y.mutations ms s e)
  Called-SeenAs y log_submit_commit s s' (ms, e, k) = rw k (reinspect_all-Seen f y.mutations ms s e)
  Called-SeenAs y log_commit s s' (t, k) = tt
  Called-SeenAs y log_rollback s s' c = absurd c
  Called-SeenAs y log_none s s' c = absurd c

submit_rest-same :
    (f : String → ℤ) (rest : Map Transaction) (s : FlexStorage)
    → submit_rest f storage_transaction storage_commit storage_submitted rest s ≡ s
unfolding submit_rest
submit_rest-same f [] s = refl
submit_rest-same f ((id, t) ∷ rest) s = submit_rest-same f rest s

-- `k` is the document id of no mutation of an entry, nor is any above it.
abbrev pub UnusedAs : LogType → DocumentId → LogEntry → Type 0
UnusedAs log_submit k x = All (λ (m : LogMutation). m.document_id < k) x.mutations
UnusedAs log_submit_commit k x = All (λ (m : LogMutation). m.document_id < k) x.mutations
UnusedAs _ k x = Unit

SeenAs-UnusedAs :
    (q : LogType) (s : FlexStorage) (x : LogEntry) → SeenAs q s x → UnusedAs q (allocate s).1 x
unfolding allocate
SeenAs-UnusedAs log_submit s x h = All-mono _ _ x.mutations (λ m l. omega (arith, l)) h
SeenAs-UnusedAs log_submit_commit s x h = All-mono _ _ x.mutations (λ m l. omega (arith, l)) h
SeenAs-UnusedAs log_commit s x h = tt
SeenAs-UnusedAs log_rollback s x h = tt
SeenAs-UnusedAs log_none s x h = tt

-- After the replay of a log that can be read, the next document id that a storage allocates is above
-- those of all mutations of the log.
pub replay_storage-allocate :
    (f : String → ℤ) (log : List LogEntry) (s s' : FlexStorage)
    → replay_storage f log s ≡ ok s'
    → All (λ x. UnusedAs x.type (allocate s').1 x) log
unfolding replay_storage replay
replay_storage-allocate f log s s' h =
    let (p, g, k) =
      >>=-eq-ok (on_entries f storage_transaction storage_commit storage_submitted log ([], s)) _
        h in
    subst (λ x. All (λ y. UnusedAs y.type (allocate x).1 y) log)
      (sym (submit_rest-same f p.0 p.1) ∙ ok-injective k)
      (All-mono _ _ log (λ x c. SeenAs-UnusedAs x.type p.1 x c)
        (on_entries-Covers f storage_transaction storage_commit storage_submitted
          (λ x d. SeenAs x.type d x)
          (λ x y q d d' c. SeenAs-mono x.type x d d' (Called-grows f y q d d' c))
          (λ y q d d' t c. subst (λ q. SeenAs q d' y) (sym t) (Called-SeenAs f y q d d' c)) log
          ([], s) p g))
