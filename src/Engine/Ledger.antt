-- ===== src/Engine/Ledger.antt =====
-- The log of the engine against the answers it gives, with the sequence ids of both (engine.cpp:546-827).
pub mod Writes
pub mod Runs
use d3b.Base.{
  ℕ, ◌+◌, ◌≤◌, ◌<◌, ◌≡◌, refl, ◌∙◌, ap, List, [], ◌∷◌, ◌++◌, arith, All, All-append, pos, negsuc,
}
use d3b.Types.{SequenceId, TransactionId}
use d3b.Engine.{
  Engine, LogEntry, LogType, log_none, log_submit, log_submit_commit, log_commit, log_rollback,
  Reply, submit_reply, submit_commit_reply, commit_reply, rollback_reply,
}

-- The transactions that the log commits, each with its sequence id.
abbrev pub logged : List LogEntry → List (TransactionId × SequenceId)
logged [] = []
logged (entry ∷ log) = elim entry.type [
  | log_submit_commit ↦ (entry.transaction_id, entry.sequence_id) ∷ logged log
  | log_commit ↦ (entry.transaction_id, entry.sequence_id) ∷ logged log
  | _ ↦ logged log
]

-- The commits that the clients were told of.
abbrev pub acknowledged : List Reply → List (TransactionId × SequenceId)
acknowledged [] = []
acknowledged (commit_reply id s ∷ rs) = (id, s) ∷ acknowledged rs
acknowledged (submit_commit_reply id x (pos s) ∷ rs) = (id, s) ∷ acknowledged rs
acknowledged (submit_commit_reply id x (negsuc s) ∷ rs) = acknowledged rs
acknowledged (submit_reply id x ∷ rs) = acknowledged rs
acknowledged (rollback_reply id ∷ rs) = acknowledged rs

-- The sequence ids go up, and none is above `n`.
abbrev pub Rising : List (TransactionId × SequenceId) → SequenceId → Type 0
Rising [] n = Unit
Rising ((id, s) ∷ cs) n = All (λ c. s < c.1) cs × (s ≤ n) × Rising cs n

abbrev pub Recorded : List Reply → List LogEntry → SequenceId → Type 0
Recorded rs log n = (acknowledged rs ≡ logged log) × Rising (logged log) n

pub IsRecorded : Engine → Type 0
IsRecorded e = Recorded e.replies e.log e.current_sequence_id

-- One more entry, by what it commits.
logged_cons : LogEntry → List (TransactionId × SequenceId) → List (TransactionId × SequenceId)
logged_cons x cs = elim x.type [
  | log_submit_commit ↦ (x.transaction_id, x.sequence_id) ∷ cs
  | log_commit ↦ (x.transaction_id, x.sequence_id) ∷ cs
  | _ ↦ cs
]

logged_cons-append :
    (x : LogEntry) (t : LogType) (xs ys : List (TransactionId × SequenceId))
    → x.type ≡ t
    → logged_cons x (xs ++ ys) ≡ logged_cons x xs ++ ys
unfolding logged_cons
logged_cons-append x log_none xs ys h = rw (h, logged_cons) refl
logged_cons-append x log_submit xs ys h = rw (h, logged_cons) refl
logged_cons-append x log_submit_commit xs ys h = rw (h, logged_cons) refl
logged_cons-append x log_commit xs ys h = rw (h, logged_cons) refl
logged_cons-append x log_rollback xs ys h = rw (h, logged_cons) refl

logged-append : (xs ys : List LogEntry) → logged (xs ++ ys) ≡ logged xs ++ logged ys
unfolding logged_cons
logged-append [] ys = refl
logged-append (x ∷ xs) ys =
    ap (logged_cons x) (logged-append xs ys)
    ∙ logged_cons-append x x.type (logged xs) (logged ys) refl

acknowledged-append :
    (xs ys : List Reply) → acknowledged (xs ++ ys) ≡ acknowledged xs ++ acknowledged ys
acknowledged-append [] ys = refl
acknowledged-append (commit_reply id s ∷ rs) ys = ap (λ l. (id, s) ∷ l) (acknowledged-append rs ys)
acknowledged-append (submit_commit_reply id x (pos s) ∷ rs) ys =
    ap (λ l. (id, s) ∷ l) (acknowledged-append rs ys)
acknowledged-append (submit_commit_reply id x (negsuc s) ∷ rs) ys = acknowledged-append rs ys
acknowledged-append (submit_reply id x ∷ rs) ys = acknowledged-append rs ys
acknowledged-append (rollback_reply id ∷ rs) ys = acknowledged-append rs ys

Rising-below :
    (cs : List (TransactionId × SequenceId)) (n : ℕ) → Rising cs n → All (λ c. c.1 < n + 1) cs
Rising-below [] n h = tt
Rising-below ((id, s) ∷ cs) n (a, b, h) = (omega (arith, b), Rising-below cs n h)

Rising-suc : (cs : List (TransactionId × SequenceId)) (n : ℕ) → Rising cs n → Rising cs (n + 1)
Rising-suc [] n h = tt
Rising-suc ((id, s) ∷ cs) n (a, b, h) = (a, omega (arith, b), Rising-suc cs n h)

Rising-append :
    (cs : List (TransactionId × SequenceId)) (id n : ℕ)
    → Rising cs n
    → Rising (cs ++ (id, n + 1) ∷ []) (n + 1)
Rising-append [] id n h = (tt, omega arith, tt)
Rising-append ((k, s) ∷ cs) id n (a, b, h) =
    (All-append _ cs _ a (omega (arith, b), tt), omega (arith, b), Rising-append cs id n h)
