-- ===== src/WriteAhead.antt =====
-- shard/src/ll/write-ahead.cpp: the log file of the engine. The calls of os/linux.cpp:45-73 that it makes
-- are those of a POSIX file: `::write` and `::read` at the position, of which `::read` gives fewer bytes at the
-- end of the file. `noise` is what a buffer of a given size holds before it is read into.
-- `md5`, `serialize` and `parse` stand for `Md5::hash`, `SerializeToArray` and `ParseFromArray`. A call of the
-- system that fails is left out, and so is one that transfers a part of what is there. `msg_length` is an
-- `int` in `log` and a `uint32_t` in `replay`, which hands it to functions that take an `int`. `Frames` has the file as a list of entries.
pub mod Frames
pub mod Reading
pub mod Replay
pub mod Termination
pub mod Tests
use d3b.Base.{
  ℕ, zero, suc, ◌+◌, ◌%◌, List, [], ◌∷◌, ◌++◌, Option, Result, ok, throws, ◌>>=◌, or_throw,
  dangling, logic_error, hash_mismatch, int_overflow, parse_failed, length, take, drop, ltb,
  pack_le32, unpack_le32, same_bytes, if◌then◌else◌,
}

pub record File : Type 0 where
  pub bytes : List ℕ
  pub position : ℕ

-- `createLog`, where there was no file.
unfoldable pub create_log : File
create_log = record { bytes = []; position = 0 }

unfoldable pub seek_end : File → File
seek_end f = record f { position = length f.bytes }

unfoldable pub seek_to : ℕ → File → File
seek_to n f = record f { position = n }

-- `loadLog`, of the bytes that the file has.
unfoldable pub load_log : List ℕ → File
unfolding seek_end
load_log bytes = seek_end (record { bytes = bytes; position = 0 })

unfoldable pub write_sync : List ℕ → File → File
write_sync data_bytes f = record {
  bytes = take f.position f.bytes ++ (data_bytes ++ drop (f.position + length data_bytes) f.bytes);
  position = f.position + length data_bytes;
}

module _ (noise : ℕ → List ℕ) where
  -- The buffer after `readSync`, and the file.
  unfoldable pub read_sync : ℕ → File → List ℕ × File
  read_sync size f =
      let got = take size (drop f.position f.bytes) in
      (got ++ drop (length got) (noise size), record f { position = f.position + length got })

-- The bytes of one call of `log`: the head, with the length and the hash, and the message.
unfoldable pub frame : (List ℕ → List ℕ) → List ℕ → List ℕ
unfolding pack_le32
frame md5 message = pack_le32 (length message) ++ (md5 message ++ message)

module _ {E : Type 0} (md5 : List ℕ → List ℕ) (serialize : E → Option (List ℕ)) where
  unfoldable pub log : E → File → Result File
  unfolding frame write_sync
  log entry f = do
    message ← or_throw (serialize entry) logic_error
    (if ltb (length message + 20) 2147483648
        then ok (write_sync (frame md5 message) f)
        else throws int_overflow)

  -- The calls of the engine, one after the other.
  unfoldable pub log_all : List E → File → Result File
  unfolding log
  log_all [] f = ok f
  log_all (entry ∷ entries) f = do f' ← log entry f; log_all entries f'

module _ {E S : Type 0} (noise : ℕ → List ℕ) (md5 : List ℕ → List ℕ) (parse : List ℕ → Option E)
    (on_entry : E → S → Result S) where
  -- The hash is checked, and the entry is parsed and handed on, for a message of a length that is an `int`.
  unfoldable pub check_message : ℕ → List ℕ → List ℕ → S → Result S
  check_message msg_length hash message s =
      if ltb msg_length 2147483648
      then (if same_bytes hash (md5 message)
          then (do entry ← or_throw (parse message) parse_failed; on_entry entry s)
          else throws hash_mismatch)
      else throws int_overflow

  -- The loop of `replay`, with a bound on its rounds. `20 + msg_length` is a `uint32_t`.
  unfoldable pub replay_loop : ℕ → ℕ → ℕ → File → S → Result (File × S)
  replay_loop zero position size f s = throws dangling
  replay_loop (suc fuel) position size f s =
      let (head, f1) = read_sync noise 20 f in
      let msg_length = unpack_le32 head in
      let (message, f2) = read_sync noise msg_length f1 in
      let rest = (do
        s' ← check_message msg_length (drop 4 head) message s
        replay_loop fuel (position + (20 + msg_length) % 4294967296) size f2 s') in
      if ltb position size then rest else ok (f, s)

  unfoldable pub replay : File → S → Result (File × S)
  unfolding replay_loop seek_to
  replay f s = replay_loop (suc (length f.bytes)) 0 (length f.bytes) (seek_to 0 f) s
