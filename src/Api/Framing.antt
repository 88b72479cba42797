-- ===== src/Api/Framing.antt =====
-- server.cpp:53-90 with server.hpp:31-46 and os/linux.hpp:77-85: `onReadTls`, which cuts the bytes that
-- arrive into packets, a head of 12 bytes and then a body. `read` is what was copied of the current
-- buffer, the first `p_readOffset` bytes of `p_headBuffer` or of `p_bodyBuffer`. The calls of
-- `processMessage` are recorded in `messages`. The server runs on a little-endian machine.
pub mod Chunks
pub mod Packets
use d3b.Base.{
  ℕ, zero, suc, ◌-◌, Bool, true, false, List, [], ◌∷◌, ◌++◌, length, take, drop, Result, ok, throws,
  dangling, min, pack_le32, unpack_le32, ltb, ◌==◌, if◌then◌else◌,
}

pub record PacketHead : Type 0 where
  pub opcode : ℕ
  pub length : ℕ
  pub seq_number : ℕ

pub record Reader : Type 0 where
  pub read : List ℕ
  pub valid_head : Bool
  pub cur_packet : PacketHead
  pub messages : List (PacketHead × List ℕ)

abbrev pub new_reader : Reader
new_reader = record {
  read = [];
  valid_head = false;
  cur_packet = record { opcode = 0; length = 0; seq_number = 0 };
  messages = [];
}

unfoldable pub unpack_head : List ℕ → PacketHead
unfolding unpack_le32
unpack_head bytes = record {
  opcode = unpack_le32 bytes;
  length = unpack_le32 (drop 4 bytes);
  seq_number = unpack_le32 (drop 8 bytes);
}

-- The fields that `postResponse` stores, and the packet that it sends.
unfoldable pub pack_head : ℕ → ℕ → ℕ → List ℕ
unfolding pack_le32
pack_head opcode size seq_number = pack_le32 opcode ++ pack_le32 size ++ pack_le32 seq_number

unfoldable pub packet : ℕ → ℕ → List ℕ → List ℕ
unfolding pack_head
packet opcode seq_number body = pack_head opcode (length body) seq_number ++ body

-- The head is complete: an empty body is a message at once.
unfoldable pub with_head : PacketHead → Reader → Reader
with_head head c =
    if head.length == 0
    then record c { read = []; cur_packet = head; messages = c.messages ++ (head, []) ∷ [] }
    else record c { read = []; cur_packet = head; valid_head = true }

unfoldable pub head_read : List ℕ → Reader → Reader
unfolding unpack_head with_head
head_read bytes c = with_head (unpack_head bytes) c

-- The body is complete.
unfoldable pub body_read : List ℕ → Reader → Reader
body_read bytes c = record c {
  read = [];
  valid_head = false;
  messages = c.messages ++ (c.cur_packet, bytes) ∷ [];
}

-- What follows a copy: the buffer is full or not.
unfoldable pub copied : List ℕ → Reader → Reader
unfolding head_read body_read
copied bytes c =
    if c.valid_head
    then (if length bytes == c.cur_packet.length
        then body_read bytes c
        else record c { read = bytes })
    else (if length bytes == 12 then head_read bytes c else record c { read = bytes })

-- The size of the buffer that is being read. The length of a body is cast to a signed number.
abbrev pub target : Reader → ℕ
target c = if c.valid_head then c.cur_packet.length else 12

-- The loop, with a bound on its rounds; a body whose length is negative after the cast is copied out
-- of bounds.
unfoldable pub read_loop : ℕ → List ℕ → Reader → Result Reader
unfolding copied
read_loop fuel [] c = ok c
read_loop zero (b ∷ bs) c = throws dangling
read_loop (suc fuel) (b ∷ bs) c =
    let copy = min (target c - length c.read) (length (b ∷ bs)) in
    let rest = read_loop fuel (drop copy (b ∷ bs)) (copied (c.read ++ take copy (b ∷ bs)) c) in
    if ltb (target c) 2147483648 then rest else throws dangling

unfoldable pub on_read_tls : List ℕ → Reader → Result Reader
unfolding read_loop
on_read_tls buffer c = read_loop (length buffer) buffer c
