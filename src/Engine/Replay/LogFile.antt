-- ===== src/Engine/Replay/LogFile.antt =====
-- engine.cpp:394-402 over write-ahead.cpp:35-59: the replay closures over the file that the engine wrote
-- (engine.cpp:813).
use d3b.Base.{
  ℕ, ◌≡◌, refl, ap, ◌∙◌, List, [], ◌∷◌, Option, some, Result, ok, ◌>>=◌, length, Map, ℤ, String,
  append_nil,
}
use d3b.Types.{TransactionId, SequenceId}
use d3b.Engine.{Transaction, LogEntry}
use d3b.Engine.Replay.{on_entry, on_entries, submit_rest, replay}
use d3b.WriteAhead
use d3b.WriteAhead.{File, create_log, load_log, log_all, seek_end}
use d3b.WriteAhead.Reading.{on_all, bind_ext, bind_assoc}
use d3b.WriteAhead.Replay.{replay-log_all}

module _ {S : Type 0} (index_of : String → ℤ) (on_transaction : TransactionId → Transaction → S → S)
    (on_commit : Transaction → SequenceId → S → S)
    (on_submitted : TransactionId → Transaction → S → S) where
  -- `replay` of a closure, over the log file.
  unfoldable pub replay_file :
      (ℕ → List ℕ) → (List ℕ → List ℕ) → (List ℕ → Option LogEntry) → File → S → Result S
  unfolding submit_rest
  replay_file noise md5 parse f s = do
    (f', p) ←
        WriteAhead.replay noise md5 parse (on_entry index_of on_transaction on_commit on_submitted)
          f ([], s)
    ok (submit_rest index_of on_transaction on_commit on_submitted (p.0) (p.1))

  on_all-on_entries :
      (log : List LogEntry) (p : Map Transaction × S)
      → on_all (on_entry index_of on_transaction on_commit on_submitted) log p
        ≡ on_entries index_of on_transaction on_commit on_submitted log p
  unfolding on_entries
  on_all-on_entries [] p = refl
  on_all-on_entries (entry ∷ log) p =
      bind_ext (on_entry index_of on_transaction on_commit on_submitted entry p) _ _
        (λ q. on_all-on_entries log q)

  module _ (noise : ℕ → List ℕ) (md5 : List ℕ → List ℕ) (serialize : LogEntry → Option (List ℕ))
      (parse : List ℕ → Option LogEntry) (length_noise : (n : ℕ) → length (noise n) ≡ n)
      (length_md5 : (m : List ℕ) → length (md5 m) ≡ 16)
      (parse_serialize : (e : LogEntry) (m : List ℕ)
        → serialize e ≡ some m
        → parse m ≡ some e) where
    -- A replay closure over the log file that the log entries were written to does what it does over
    -- the list of the entries, the errors of the closure included, for a hash of 16 bytes, buffers of
    -- the size asked for, and messages that parse back.
    pub replay_file-log_all :
        (log : List LogEntry) (f : File) (s : S)
        → log_all md5 serialize log create_log ≡ ok f
        → replay_file noise md5 parse (load_log f.bytes) s
          ≡ replay index_of on_transaction on_commit on_submitted log s
    unfolding replay replay_file load_log seek_end log_all
    replay_file-log_all log f s q =
        let file = load_log f.bytes in
        let r =
          replay-log_all noise md5 serialize parse
            (on_entry index_of on_transaction on_commit on_submitted) length_noise length_md5
            parse_serialize log [] f file ([], s) q refl in
        let entries =
          ap
            (λ (l : List LogEntry).
              on_all (on_entry index_of on_transaction on_commit on_submitted) l ([], s))
            (append_nil log)
          ∙ on_all-on_entries log ([], s) in
        ap
          (λ (x : Result (File × (Map Transaction × S))). x >>= λ y.
            ok (submit_rest index_of on_transaction on_commit on_submitted (y.1.0) (y.1.1)))
          (r ∙ ap (λ (x : Result (Map Transaction × S)). x >>= λ p. ok (file, p)) entries)
        ∙ bind_assoc (on_entries index_of on_transaction on_commit on_submitted log ([], s)) _ _
