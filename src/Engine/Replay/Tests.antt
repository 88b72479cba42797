-- ===== src/Engine/Replay/Tests.antt =====
-- Tests of the replay over a log file, with a serializer for entries without mutations.
use d3b.Base.{
  ℕ, zero, suc, ◌≡◌, refl, List, [], ◌∷◌, ◌++◌, Option, none, some, ok, length, arith, String, ℤ,
  pos,
}
use d3b.Engine.{
  LogEntry, LogType, log_none, log_submit, log_submit_commit, log_commit, log_rollback, LogMutation,
}
use d3b.WriteAhead.{File, create_log, load_log, log_all, log, frame, write_sync}
use d3b.Base.{subst, some_eq}
use d3b.Engine.Replay.{replay}
use d3b.Engine.Replay.LogFile.{replay_file, replay_file-log_all}

abbrev zeros : ℕ → List ℕ
zeros zero = []
zeros (suc n) = 0 ∷ zeros n

length-zeros : (n : ℕ) → length (zeros n) ≡ n
length-zeros zero = refl
length-zeros (suc n) = omega (arith, length-zeros n)

abbrev test_hash : List ℕ → List ℕ
test_hash m = zeros 16

abbrev entry_of : LogType → ℕ → ℕ → LogEntry
entry_of type s t = record { type = type; sequence_id = s; transaction_id = t; mutations = [] }

abbrev encode_parts : LogType → ℕ → ℕ → List LogMutation → Option (List ℕ)
encode_parts log_submit s t [] = some (1 ∷ s ∷ t ∷ [])
encode_parts log_commit s t [] = some (2 ∷ s ∷ t ∷ [])
encode_parts log_submit s t (m ∷ ms) = none
encode_parts log_commit s t (m ∷ ms) = none
encode_parts log_submit_commit s t ms = none
encode_parts log_none s t ms = none
encode_parts log_rollback s t ms = none

abbrev encode : LogEntry → Option (List ℕ)
encode e = encode_parts e.type e.sequence_id e.transaction_id e.mutations

abbrev type_of : ℕ → LogType
type_of zero = log_none
type_of (suc zero) = log_submit
type_of (suc (suc n)) = log_commit

abbrev decode : List ℕ → Option LogEntry
decode (a ∷ s ∷ t ∷ []) = some (entry_of (type_of a) s t)
decode _ = none

decode-encode_parts :
    (type : LogType) (s t : ℕ) (ms : List LogMutation) (m : List ℕ)
    → encode_parts type s t ms ≡ some m
    → decode m ≡ some (record { type = type; sequence_id = s; transaction_id = t; mutations = ms })
decode-encode_parts log_submit s t [] m h =
    subst (λ (l : List ℕ). decode l ≡ some (entry_of log_submit s t)) (some_eq h) refl
decode-encode_parts log_commit s t [] m h =
    subst (λ (l : List ℕ). decode l ≡ some (entry_of log_commit s t)) (some_eq h) refl
decode-encode_parts log_submit s t (x ∷ ms) m h = cc
decode-encode_parts log_commit s t (x ∷ ms) m h = cc
decode-encode_parts log_submit_commit s t ms m h = cc
decode-encode_parts log_none s t ms m h = cc
decode-encode_parts log_rollback s t ms m h = cc

abbrev two_entries : List LogEntry
two_entries = entry_of log_submit 0 7 ∷ entry_of log_commit 1 7 ∷ []

abbrev two_frames : File
two_frames = record {
  bytes =
      3 ∷ 0 ∷ 0 ∷ 0 ∷ (zeros 16 ++ (1 ∷ 0 ∷ 7 ∷ 3 ∷ 0 ∷ 0 ∷ 0 ∷ (zeros 16 ++ (2 ∷ 1 ∷ 7 ∷ []))));
  position = 46;
}

two_entries-logged : log_all test_hash encode two_entries create_log ≡ ok two_frames
unfolding log_all create_log log frame write_sync
two_entries-logged = refl

-- The sequence ids of the commits.
abbrev nowhere : String → ℤ
nowhere k = pos 0

replay_file-log_all_example :
    replay_file nowhere
      (λ id t ids. ids)
      (λ t id ids. id ∷ ids)
      (λ id t ids. ids)
      zeros
      test_hash
      decode
      (load_log two_frames.bytes)
      []
    ≡ replay nowhere (λ id t ids. ids) (λ t id ids. id ∷ ids) (λ id t ids. ids) two_entries []
replay_file-log_all_example =
    replay_file-log_all nowhere (λ id t ids. ids) (λ t id ids. id ∷ ids) (λ id t ids. ids) zeros
      test_hash encode decode length-zeros (λ m. refl)
      (λ e. decode-encode_parts e.type e.sequence_id e.transaction_id e.mutations) two_entries
      two_frames [] two_entries-logged
