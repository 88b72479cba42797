-- ===== src/WriteAhead/Reading.antt =====
-- write-ahead.cpp:36-59: `replay`, over bytes that are frames.
use d3b.Base.{
  ℕ, suc, ◌+◌, ◌<◌, ◌≤◌, ◌≡◌, refl, sym, ap, ◌∙◌, List, [], ◌∷◌, ◌++◌, Option, some, Result, ok,
  throws, ◌>>=◌, length, length-append, append_nil, append_assoc, arith, ◌%◌, ltb, true, pack_le32,
  unpack_le32-pack_le32, length-pack_le32, same_bytes_iff,
}
use d3b.WriteAhead.{File, read_sync, frame, check_message, replay_loop}
use d3b.WriteAhead.Frames.{drop_past, take_self, drop_self, file_at, Frames}

-- Reading what lies at the position of a file.
pub read_sync_lem :
    (noise : ℕ → List ℕ) (bytes front part back : List ℕ) (size position : ℕ)
    → ((n : ℕ) → length (noise n) ≡ n)
    → bytes ≡ front ++ (part ++ back)
    → position ≡ length front
    → size ≡ length part
    → read_sync noise size (file_at bytes position) ≡ (part, file_at bytes (position + size))
unfolding read_sync
read_sync_lem noise bytes front part back size position h e p l = ground (
  arith,
  e,
  p,
  l,
  drop_self front (part ++ back),
  take_self part back,
  append_nil part,
  drop_past (length part) (noise size) (omega (arith, h size)),
)

abbrev pub on_all : {E : Type 0} → {S : Type 0} → (E → S → Result S) → List E → S → Result S
on_all on_entry [] s = ok s
on_all on_entry (e ∷ es) s = do s' ← on_entry e s; on_all on_entry es s'

-- The head of a frame, apart from its message.
abbrev pub head_of : (List ℕ → List ℕ) → List ℕ → List ℕ
head_of md5 message = pack_le32 (length message) ++ md5 message

frame_lem :
    (md5 : List ℕ → List ℕ) (front message back : List ℕ)
    → (front ++ (frame md5 message ++ back)) ≡ (front ++ (head_of md5 message ++ (message ++ back)))
unfolding frame
frame_lem md5 front message back =
    let head = pack_le32 (length message) in
    ap (λ (l : List ℕ). front ++ l)
      (append_assoc head (md5 message ++ message) back
        ∙ ap (λ (l : List ℕ). head ++ l) (append_assoc (md5 message) message back)
        ∙ sym (append_assoc head (md5 message) (message ++ back)))

module _ {E S : Type 0} (noise : ℕ → List ℕ) (md5 : List ℕ → List ℕ) (parse : List ℕ → Option E)
    (on_entry : E → S → Result S) (length_noise : (n : ℕ) → length (noise n) ≡ n)
    (length_md5 : (m : List ℕ) → length (md5 m) ≡ 16) where
  check_message_lem :
      (e : E) (message : List ℕ) (s : S)
      → length message < 2147483648
      → parse message ≡ some e
      → check_message noise md5 parse on_entry (length message) (md5 message) message s
        ≡ on_entry e s
  unfolding check_message
  check_message_lem e message s l h =
      let short : ltb (length message) 2147483648 ≡ true = ground (arith, l) in
      rw (short, h, (same_bytes_iff (md5 message) (md5 message)).1 refl) refl

  read_head :
      (front message back : List ℕ)
      → read_sync noise 20 (file_at (front ++ (frame md5 message ++ back)) (length front))
        ≡ (head_of md5 message, file_at (front ++ (frame md5 message ++ back)) (length front + 20))
  read_head front message back =
      read_sync_lem noise _ front (head_of md5 message) (message ++ back) 20 _ length_noise
        (frame_lem md5 front message back) refl
        (omega (
          arith,
          length-append (pack_le32 (length message)) (md5 message),
          length-pack_le32 (length message),
          length_md5 message,
        ))

  read_message :
      (front message back : List ℕ)
      → read_sync noise
          (length message)
          (file_at (front ++ (frame md5 message ++ back)) (length front + 20))
        ≡ (
          message,
          file_at (front ++ (frame md5 message ++ back)) (length front + (20 + length message)),
        )
  read_message front message back =
      let e = length-append front (head_of md5 message) in
      let l = length-append (pack_le32 (length message)) (md5 message) in
      let p = length-pack_le32 (length message) in
      ground (
        arith,
        read_sync_lem noise (front ++ (frame md5 message ++ back)) (front ++ (head_of md5 message))
            message back (length message) (length front + 20) length_noise
            (frame_lem md5 front message back
              ∙ sym (append_assoc front (head_of md5 message) (message ++ back)))
            (omega (arith, e, l, p, length_md5 message)) refl,
      )

  replay_step :
      (fuel size : ℕ) (front message back : List ℕ) (e : E) (s : S)
      → length front < size
      → length message + 20 < 2147483648
      → parse message ≡ some e
      → replay_loop noise md5 parse on_entry
          (suc fuel)
          (length front)
          size
          (file_at (front ++ (frame md5 message ++ back)) (length front))
          s
        ≡ (on_entry e s >>= λ s'.
            replay_loop noise md5 parse on_entry fuel
              (length front + (20 + length message))
              size
              (file_at
                (front ++ (frame md5 message ++ back))
                (length front + (20 + length message)))
              s')
  unfolding replay_loop
  replay_step fuel size front message back e s h short p =
      let r = unpack_le32-pack_le32 (length message) (md5 message) (omega (arith, short)) in
      let wrap : (20 + length message) % 4294967296 ≡ 20 + length message = omega (arith, short) in
      ground (
        arith,
        read_head front message back,
        r,
        wrap,
        read_message front message back,
        h,
        append_assoc (pack_le32 (length message)) (md5 message) [],
        drop_self (pack_le32 (length message)) (md5 message),
        length-pack_le32 (length message),
        check_message_lem e message s (omega (arith, short)) p,
        append_nil (md5 message),
      )

pub bind_ext :
    {X Y : Type 0} (r : Result X) (f g : X → Result Y)
    → ((x : X) → f x ≡ g x)
    → (r >>= f) ≡ (r >>= g)
bind_ext (ok x) f g h = h x
bind_ext (throws e) f g h = refl

pub bind_assoc :
    {X Y Z : Type 0} (r : Result X) (f : X → Result Y) (g : Y → Result Z)
    → ((r >>= f) >>= g) ≡ (r >>= λ x. f x >>= g)
bind_assoc (ok x) f g = refl
bind_assoc (throws e) f g = refl

-- The loop, at a position of a file.
module _ {E S : Type 0} (noise : ℕ → List ℕ) (md5 : List ℕ → List ℕ) (parse : List ℕ → Option E)
    (on_entry : E → S → Result S) where
  abbrev pub resume : List ℕ → ℕ → ℕ → ℕ → S → Result (File × S)
  resume whole size fuel position s =
      replay_loop noise md5 parse on_entry fuel position size (file_at whole position) s

module _ {E S : Type 0} (noise : ℕ → List ℕ) (md5 : List ℕ → List ℕ)
    (serialize : E → Option (List ℕ)) (parse : List ℕ → Option E) (on_entry : E → S → Result S)
    (length_noise : (n : ℕ) → length (noise n) ≡ n)
    (length_md5 : (m : List ℕ) → length (md5 m) ≡ 16)
    (parse_serialize : (e : E) (m : List ℕ) → serialize e ≡ some m → parse m ≡ some e) where
  length-frame : (m : List ℕ) → length (frame md5 m) ≡ 20 + length m
  unfolding frame
  length-frame m = omega (
    arith,
    length-append (pack_le32 (length m)) (md5 m ++ m),
    length-append (md5 m) m,
    length-pack_le32 (length m),
    length_md5 m,
  )

  resume_step :
      (whole front message back : List ℕ) (e : E) (fuel size n position : ℕ) (s : S)
      → serialize e ≡ some message
      → length message + 20 < 2147483648
      → whole ≡ front ++ (frame md5 message ++ back)
      → n ≡ suc fuel
      → position ≡ length front
      → position < size
      → resume noise md5 parse on_entry whole size n position s ≡ (
          on_entry e s >>= λ s'.
          resume noise md5 parse on_entry whole size fuel (position + (20 + length message)) s')
  resume_step whole front message back e fuel size n position s some_e short w q p h =
      let parsed = parse_serialize e message some_e in
      rw (w, q, p)
        (replay_step noise md5 parse on_entry length_noise length_md5 fuel size front message back e
          s (omega (arith, h, p)) short parsed)

  pub resume-Frames :
      (es : List E) (whole front bytes tail : List ℕ) (n fuel size position end : ℕ) (s : S)
      → Frames md5 serialize es bytes
      → whole ≡ front ++ (bytes ++ tail)
      → n ≡ length es + fuel
      → position ≡ length front
      → end ≡ position + length bytes
      → end ≤ size
      → resume noise md5 parse on_entry whole size n position s
        ≡ (on_all on_entry es s >>= λ s'. resume noise md5 parse on_entry whole size fuel end s')
  resume-Frames [] whole front bytes tail n fuel size position end s h w q p l b =
      let e : end ≡ position = omega (arith, l, ap length h) in
      let e' : n ≡ fuel = omega (arith, q) in rw (e, e') refl
  resume-Frames (e ∷ es) whole front bytes tail n fuel size position end s
        (m, rest, some_e, short, bytes_lem, frames) w q p l b =
      let lf = length-frame m in
      let lb : length bytes ≡ 20 + length m + length rest =
        omega (arith, ap length bytes_lem, length-append (frame md5 m) rest, lf) in
      let w' : whole ≡ front ++ (frame md5 m ++ (rest ++ tail)) =
        w
        ∙ ap (λ (x : List ℕ). front ++ (x ++ tail)) bytes_lem
        ∙ ap (λ (x : List ℕ). front ++ x) (append_assoc (frame md5 m) rest tail) in
      let w'' : whole ≡ (front ++ frame md5 m) ++ (rest ++ tail) =
        w' ∙ sym (append_assoc front (frame md5 m) (rest ++ tail)) in
      resume_step whole front m (rest ++ tail) e (length es + fuel) size n position s some_e short
        w' (omega (arith, q)) p (omega (arith, l, lb, b))
      ∙ bind_ext (on_entry e s) _ _ (λ s'.
        resume-Frames es whole (front ++ frame md5 m) rest tail (length es + fuel) fuel size
          (position + (20 + length m)) end s' frames w'' refl
          (omega (arith, p, length-append front (frame md5 m), lf)) (omega (arith, l, lb)) b)
      ∙ sym (bind_assoc (on_entry e s) _ _)

  pub length-Frames :
      (es : List E) (bytes : List ℕ) → Frames md5 serialize es bytes → length es ≤ length bytes
  length-Frames [] bytes h = omega arith
  length-Frames (e ∷ es) bytes (m, rest, some_e, short, bytes_lem, frames) = omega (
    arith,
    length-Frames es rest frames,
    ap length bytes_lem,
    length-append (frame md5 m) rest,
    length-frame m,
  )
