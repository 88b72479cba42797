-- ===== src/Api/Framing/Packets.antt =====
-- server.cpp:35-90: the packets of `postResponse`, as `onReadTls` of a peer reads them.
use d3b.Base.{
  ℕ, ◌<◌, ◌≡◌, refl, sym, subst, ◌%◌, ◌∙◌, ap, true, false, List, [], ◌∷◌, ◌++◌, length, ok, ◌==◌,
  arith, ==_refl, pack_le32, unpack_le32,
}
use d3b.Api.Framing.{
  PacketHead, Reader, unpack_head, head_read, with_head, body_read, copied, on_read_tls, pack_head,
  packet,
}
use d3b.Api.Framing.Chunks.{feed, feed-copied, feed-append, feed-nil, on_read_tls-feed}

unpack_head-pack_head :
    (opcode size seq_number : ℕ)
    → opcode < 4294967296
    → size < 4294967296
    → seq_number < 4294967296
    → unpack_head (pack_head opcode size seq_number)
      ≡ record { opcode = opcode; length = size; seq_number = seq_number }
unfolding unpack_head pack_head pack_le32 unpack_le32
unpack_head-pack_head o l s ho hl hs = ground (arith, ho, hl, hs)

-- A reader between two packets.
abbrev pub IsIdle : Reader → Type 0
IsIdle c = (c.read ≡ []) × (c.valid_head ≡ false)

abbrev pub received : ℕ → ℕ → List ℕ → Reader → Reader
received opcode seq_number body c = record c {
  cur_packet = record { opcode = opcode; length = length body; seq_number = seq_number };
  messages =
      c.messages
      ++ (record { opcode = opcode; length = length body; seq_number = seq_number }, body) ∷ [];
}

module _ (p : PacketHead) (ms : List (PacketHead × List ℕ)) where
  abbrev idle : Reader
  idle = record { read = []; valid_head = false; cur_packet = p; messages = ms }

  -- The head is read, and the body is awaited.
  abbrev awaiting : PacketHead → Reader
  awaiting h = record { read = []; valid_head = true; cur_packet = h; messages = ms }

  feed-head :
      (o l s : ℕ)
      → o < 4294967296
      → l < 4294967296
      → s < 4294967296
      → feed (pack_head o l s) idle ≡ ok (head_read (pack_head o l s) idle)
  unfolding pack_head pack_le32 copied
  feed-head o l s ho hl hs = feed-copied (o % 256) _ idle refl (omega arith)

  head_read-pack_head :
      (o l s : ℕ)
      → o < 4294967296
      → l < 4294967296
      → s < 4294967296
      → (l == 0) ≡ false
      → head_read (pack_head o l s) idle
        ≡ awaiting (record { opcode = o; length = l; seq_number = s })
  unfolding head_read with_head
  head_read-pack_head o l s ho hl hs n =
      ap (λ h. with_head h idle) (unpack_head-pack_head o l s ho hl hs) ∙ rw n refl

  head_read-empty :
      (o s : ℕ)
      → o < 4294967296
      → s < 4294967296
      → head_read (pack_head o 0 s) idle ≡ received o s [] idle
  unfolding head_read with_head
  head_read-empty o s ho hs =
      ap (λ h. with_head h idle) (unpack_head-pack_head o 0 s ho (omega arith) hs)

  feed-body :
      (o s b : ℕ) (bs : List ℕ)
      → length (b ∷ bs) < 2147483648
      → feed (b ∷ bs) (awaiting (record { opcode = o; length = length (b ∷ bs); seq_number = s }))
        ≡ ok (received o s (b ∷ bs) idle)
  unfolding copied body_read
  feed-body o s b bs h =
      feed-copied b bs (awaiting (record { opcode = o; length = length (b ∷ bs); seq_number = s }))
        (ground (arith, h)) (omega arith)
      ∙ rw (==_refl (length (b ∷ bs))) refl

  feed-packet :
      (o s : ℕ) (body : List ℕ)
      → o < 4294967296
      → s < 4294967296
      → length body < 2147483648
      → feed (packet o s body) idle ≡ ok (received o s body idle)
  unfolding packet
  feed-packet o s [] ho hs hl =
      feed-append (pack_head o 0 s) [] idle
      ∙ rw (feed-head o 0 s ho (omega arith) hs)
          (feed-nil _ ∙ ap (λ r. ok r) (head_read-empty o s ho hs))
  feed-packet o s (b ∷ bs) ho hs hl =
      feed-append (pack_head o (length (b ∷ bs)) s) (b ∷ bs) idle
      ∙ rw
          (
            feed-head o (length (b ∷ bs)) s ho (omega (arith, hl)) hs,
            head_read-pack_head o (length (b ∷ bs)) s ho (omega (arith, hl)) hs (ground arith),
          )
          (feed-body o s b bs hl)

-- A packet that `postResponse` sends is read as one message, with its opcode, its sequence number
-- and its body, by a reader between two packets, and the reader is between two packets again; the
-- numbers have 32 bits, and the body is shorter than 2^31 bytes.
pub on_read_tls-packet :
    (o s : ℕ) (body : List ℕ) (c : Reader)
    → IsIdle c
    → o < 4294967296
    → s < 4294967296
    → length body < 2147483648
    → on_read_tls (packet o s body) c ≡ ok (received o s body c)
on_read_tls-packet o s body c (r, v) ho hs hl =
    on_read_tls-feed (packet o s body) c (ground (arith, r, v))
    ∙ subst (λ x. feed (packet o s body) x ≡ ok (received o s body x)) (sym (rw (r, v) refl))
        (feed-packet c.cur_packet c.messages o s body ho hs hl)
