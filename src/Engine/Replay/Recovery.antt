-- ===== src/Engine/Replay/Recovery.antt =====
-- The calls that the replay of a log makes (engine.cpp:397-473), and facts that they bring about.
use d3b.Base.{
  ◌≡◌, refl, sym, subst, List, [], ◌∷◌, Result, ok, >>=-eq-ok, ok-injective, or_throw,
  illegal_transaction, Map, ℤ, find, String, All, ap,
}
use d3b.Types.{TransactionId, SequenceId, Mutation}
use d3b.Engine.{
  Transaction, LogEntry, LogType, log_none, log_submit, log_submit_commit, log_commit, log_rollback,
}
use d3b.Engine.Replay.{replayed_mutations, replayed, on_entry, on_entries}

module _ {S : Type 0} (index_of : String → ℤ) (on_transaction : TransactionId → Transaction → S → S)
    (on_commit : Transaction → SequenceId → S → S)
    (on_submitted : TransactionId → Transaction → S → S) where
  abbrev entry_step : LogEntry → Map Transaction × S → Result (Map Transaction × S)
  entry_step = on_entry index_of on_transaction on_commit on_submitted

  abbrev entries_step : List LogEntry → Map Transaction × S → Result (Map Transaction × S)
  entries_step = on_entries index_of on_transaction on_commit on_submitted

  -- The calls that an entry makes.
  abbrev pub Called : LogEntry → LogType → S → S → Type 0
  Called x log_submit s s' =
      (ms : List Mutation) × (replayed_mutations index_of x.mutations ≡ ok ms)
      × (s' ≡ on_transaction x.transaction_id (replayed ms) s)
  Called x log_submit_commit s s' =
      (ms : List Mutation) × (replayed_mutations index_of x.mutations ≡ ok ms)
      × (s'
          ≡ on_commit (replayed ms) x.sequence_id (on_transaction x.transaction_id (replayed ms) s))
  Called x log_commit s s' = (t : Transaction) × (s' ≡ on_commit t x.sequence_id s)
  Called x _ s s' = ⊥

  on_entry-Called :
      (x : LogEntry) (q : LogType) (p p' : Map Transaction × S)
      → x.type ≡ q
      → entry_step x p ≡ ok p'
      → Called x q p.1 p'.1
  unfolding on_entry
  on_entry-Called x log_submit (m, s) p' h g =
      let (ms, e, k) = >>=-eq-ok (replayed_mutations index_of x.mutations) _ (rw h at g) in
      (ms, e, ap (λ p. p.1) (sym (ok-injective k)))
  on_entry-Called x log_submit_commit (m, s) p' h g =
      let (ms, e, k) = >>=-eq-ok (replayed_mutations index_of x.mutations) _ (rw h at g) in
      (ms, e, ap (λ p. p.1) (sym (ok-injective k)))
  on_entry-Called x log_commit (m, s) p' h g =
      let (t, e, k) =
        >>=-eq-ok (or_throw (find x.transaction_id m) illegal_transaction) _ (rw h at g) in
      (t, ap (λ p. p.1) (sym (ok-injective k)))
  on_entry-Called x log_rollback (m, s) p' h g = cc (rw h at g)
  on_entry-Called x log_none (m, s) p' h g = cc (rw h at g)

  -- A fact about an entry that its own calls bring about and that later calls keep.
  module _ (Covers : LogEntry → S → Type 0)
      (keeps : (x y : LogEntry) (q : LogType) (s s' : S)
        → Called y q s s'
        → Covers x s
        → Covers x s')
      (brings : (x : LogEntry) (q : LogType) (s s' : S)
        → x.type ≡ q
        → Called x q s s'
        → Covers x s') where
    on_entries-keeps :
        (log : List LogEntry) (x : LogEntry) (p p' : Map Transaction × S)
        → entries_step log p ≡ ok p'
        → Covers x p.1
        → Covers x p'.1
    unfolding on_entries
    on_entries-keeps [] x p p' h c = subst (λ p. Covers x p.1) (ok-injective h) c
    on_entries-keeps (y ∷ log) x p p' h c =
        let (r, e, k) = >>=-eq-ok (entry_step y p) _ h in
        on_entries-keeps log x r p' k
          (keeps x y y.type p.1 r.1 (on_entry-Called y y.type p r refl e) c)

    pub on_entries-Covers :
        (log : List LogEntry) (p p' : Map Transaction × S)
        → entries_step log p ≡ ok p'
        → All (λ x. Covers x p'.1) log
    unfolding on_entries
    on_entries-Covers [] p p' h = tt
    on_entries-Covers (y ∷ log) p p' h =
        let (r, e, k) = >>=-eq-ok (entry_step y p) _ h in
        (
          on_entries-keeps log y r p' k
              (brings y y.type p.1 r.1 refl (on_entry-Called y y.type p r refl e)),
          on_entries-Covers log r p' k,
        )
