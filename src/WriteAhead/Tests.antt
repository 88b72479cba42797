-- ===== src/WriteAhead/Tests.antt =====
-- Tests of the log file, with a serializer and a hash for them.
use d3b.Base.{
  unpack_le32, ℕ, zero, suc, ◌+◌, ◌≡◌, ◌≢◌, refl, List, [], ◌∷◌, ◌++◌, Option, none, some, Result,
  ok, throws, ◌>>=◌, hash_mismatch, dangling, some-injective, length, arith,
}
use d3b.WriteAhead.{
  File, create_log, load_log, seek_end, write_sync, frame, log, log_all, replay, read_sync,
}
use d3b.WriteAhead.Reading.{on_all}
use d3b.WriteAhead.Replay.{IsDamaged, replay-log_all, replay-IsDamaged}
use d3b.WriteAhead.Termination.{replay_returns}

abbrev zeros : ℕ → List ℕ
zeros zero = []
zeros (suc n) = 0 ∷ zeros n

length-zeros : (n : ℕ) → length (zeros n) ≡ n
length-zeros zero = refl
length-zeros (suc n) = omega (arith, length-zeros n)

abbrev test_hash : List ℕ → List ℕ
test_hash m = (length m + 1) ∷ zeros 15

abbrev encode : ℕ → Option (List ℕ)
encode n = some (n ∷ [])

abbrev decode : List ℕ → Option ℕ
decode (n ∷ []) = some n
decode _ = none

decode-encode : (n : ℕ) (m : List ℕ) → encode n ≡ some m → decode m ≡ some n
decode-encode n m h = ground (arith, some-injective h)

abbrev collect : ℕ → List ℕ → Result (List ℕ)
collect n s = ok (s ++ n ∷ [])

collect_returns : (n : ℕ) (s : List ℕ) → collect n s ≢ throws dangling
collect_returns n s = λ q. cc

abbrev first_file : File
first_file = record { bytes = 1 ∷ 0 ∷ 0 ∷ 0 ∷ 2 ∷ (zeros 15 ++ (7 ∷ [])); position = 21 }

abbrev second_file : File
second_file = record {
  bytes = 1 ∷ 0 ∷ 0 ∷ 0 ∷ 2 ∷ (zeros 15 ++ (7 ∷ 1 ∷ 0 ∷ 0 ∷ 0 ∷ 2 ∷ (zeros 15 ++ (9 ∷ []))));
  position = 42;
}

first_log : log_all test_hash encode (7 ∷ []) create_log ≡ ok first_file
unfolding log_all create_log log frame write_sync
first_log = refl

second_log : log_all test_hash encode (9 ∷ []) (load_log first_file.bytes) ≡ ok second_file
unfolding log_all log frame write_sync load_log seek_end
second_log = refl

replay-log_all_example :
    replay zeros test_hash decode collect (load_log second_file.bytes) []
    ≡ (on_all collect (7 ∷ 9 ∷ []) [] >>= λ s'. ok (second_file, s'))
replay-log_all_example =
    replay-log_all zeros test_hash encode decode collect length-zeros (λ m. refl) decode-encode
      (7 ∷ []) (9 ∷ []) first_file second_file [] first_log second_log

torn-IsDamaged : IsDamaged zeros test_hash (1 ∷ [])
unfolding read_sync unpack_le32
torn-IsDamaged = (omega arith, refl)

not_nil : ◌≢◌ {A = List ℕ} (1 ∷ []) []
not_nil = λ q. cc

replay-IsDamaged_example :
    replay zeros test_hash decode collect (load_log (first_file.bytes ++ 1 ∷ [])) []
    ≡ (on_all collect (7 ∷ []) [] >>= λ s'. throws hash_mismatch)
replay-IsDamaged_example =
    replay-IsDamaged zeros test_hash encode decode collect length-zeros (λ m. refl) decode-encode
      (7 ∷ []) first_file (1 ∷ []) [] first_log not_nil torn-IsDamaged

replay_returns_example :
    replay zeros test_hash decode collect (load_log (1 ∷ [])) [] ≢ throws dangling
replay_returns_example =
    replay_returns zeros test_hash decode collect collect_returns (load_log (1 ∷ [])) []
