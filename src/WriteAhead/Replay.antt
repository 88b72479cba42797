-- ===== src/WriteAhead/Replay.antt =====
-- write-ahead.cpp:36-77: what `replay` makes of a file that `log` wrote, and of one that is damaged.
use d3b.Base.{
  ℕ, suc, ◌+◌, ◌-◌, ◌<◌, ◌≡◌, ◌≢◌, refl, sym, ap, ◌∙◌, false, List, [], ◌∷◌, ◌++◌, Option, some,
  Result, ok, throws, ◌>>=◌, hash_mismatch, length, length-append, append_nil, append_assoc, subst,
  drop, arith, unpack_le32, same_bytes,
}
use d3b.WriteAhead.{
  File, create_log, frame, load_log, seek_end, seek_to, read_sync, log_all, check_message,
  replay_loop, replay,
}
use d3b.WriteAhead.Frames.{IsAtEnd, file_at, Frames, log_all-Frames}
use d3b.WriteAhead.Reading.{on_all, resume, resume-Frames, length-Frames, bind_ext}

drop-append {ℓ} :
    {A : Type ℓ} (xs ys : List A) (n : ℕ) → drop (length xs + n) (xs ++ ys) ≡ drop n ys
drop-append [] ys n = ground arith
drop-append (x ∷ xs) ys n =
    let e : suc (length xs) + n ≡ suc (length xs + n) = omega arith in rw e (drop-append xs ys n)

-- What `replay` reads at the start of these bytes: a head, and a message of the length that it names.
abbrev pub first_head : (ℕ → List ℕ) → List ℕ → List ℕ
first_head noise bytes = (read_sync noise 20 (file_at bytes 0)).0

abbrev pub first_message : (ℕ → List ℕ) → List ℕ → List ℕ
first_message noise bytes =
    (read_sync noise (unpack_le32 (first_head noise bytes))
      (read_sync noise 20 (file_at bytes 0)).1).0

-- The head names a length that is an `int`, and the hash in it is not that of the message.
abbrev pub IsDamaged : (ℕ → List ℕ) → (List ℕ → List ℕ) → List ℕ → Type 0
IsDamaged noise md5 bytes =
    (unpack_le32 (first_head noise bytes) < 2147483648)
    × (same_bytes (drop 4 (first_head noise bytes)) (md5 (first_message noise bytes)) ≡ false)

read_sync-append :
    (noise : ℕ → List ℕ) (front : List ℕ) (f : File) (n : ℕ) (whole : List ℕ) (q : ℕ)
    → whole ≡ front ++ f.bytes
    → q ≡ length front + f.position
    → read_sync noise n (file_at whole q)
      ≡ ((read_sync noise n f).0, file_at whole (length front + (read_sync noise n f).1.position))
unfolding read_sync
read_sync-append noise front f n whole q w h =
    ground (arith, w, h, drop-append front f.bytes f.position)

read_sync-bytes : (noise : ℕ → List ℕ) (n : ℕ) (f : File) → (read_sync noise n f).1.bytes ≡ f.bytes
unfolding read_sync
read_sync-bytes noise n f = refl

module _ {E S : Type 0} (noise : ℕ → List ℕ) (md5 : List ℕ → List ℕ)
    (serialize : E → Option (List ℕ)) (parse : List ℕ → Option E) (on_entry : E → S → Result S)
    (length_noise : (n : ℕ) → length (noise n) ≡ n)
    (length_md5 : (m : List ℕ) → length (md5 m) ≡ 16)
    (parse_serialize : (e : E) (m : List ℕ) → serialize e ≡ some m → parse m ≡ some e) where
  resume_end :
      (whole : List ℕ) (n position : ℕ) (s : S)
      → position ≡ length whole
      → resume noise md5 parse on_entry whole (length whole) (suc n) position s
        ≡ ok (file_at whole position, s)
  unfolding replay_loop
  resume_end whole n position s h = ground (arith, h)

  resume-damaged :
      (whole front tail : List ℕ) (n position : ℕ) (s : S)
      → whole ≡ front ++ tail
      → position ≡ length front
      → tail ≢ []
      → IsDamaged noise md5 tail
      → resume noise md5 parse on_entry whole (length whole) (suc n) position s
        ≡ throws hash_mismatch
  unfolding replay_loop check_message
  resume-damaged whole front [] n position s w p h d = absurd (h refl)
  resume-damaged whole front (b ∷ tail) n position s w p h (short, d) =
      let f0 = file_at (b ∷ tail) 0 in
      let f1 = (read_sync noise 20 f0).1 in
      let e1 = read_sync-append noise front f0 20 whole position w (omega (arith, p)) in
      let e2 =
        read_sync-append noise front f1 (unpack_le32 (first_head noise (b ∷ tail))) whole
          (length front + f1.position)
          (w ∙ ap (λ (l : List ℕ). front ++ l) (sym (read_sync-bytes noise 20 f0))) refl in
      let lt : position < length whole =
        omega (arith, p, ap length w, length-append front (b ∷ tail)) in
      ground (arith, d, short, lt, e1, e2)

  Frames-append :
      (es ds : List E) (bytes more : List ℕ)
      → Frames md5 serialize es bytes
      → Frames md5 serialize ds more
      → Frames md5 serialize (es ++ ds) (bytes ++ more)
  Frames-append [] ds bytes more h k = rw h k
  Frames-append (e ∷ es) ds bytes more (m, rest, some_e, short, bytes_lem, frames) k = (
    m,
    rest ++ more,
    some_e,
    short,
    ap (λ (l : List ℕ). l ++ more) bytes_lem ∙ append_assoc (frame md5 m) rest more,
    Frames-append es ds rest more frames k,
  )

  -- The file of a server that ran once, was started again, and ran on.
  logged_twice :
      (es ds : List E) (f f' : File)
      → log_all md5 serialize es create_log ≡ ok f
      → log_all md5 serialize ds (load_log f.bytes) ≡ ok f'
      → IsAtEnd f' × Frames md5 serialize (es ++ ds) f'.bytes
  unfolding create_log load_log seek_end
  logged_twice es ds f f' q q' =
      let (bytes, e, at_end, frames) = log_all-Frames md5 serialize es create_log f refl q in
      let (more, e', at_end', frames') =
        log_all-Frames md5 serialize ds (load_log f.bytes) f' refl q' in
      (
        at_end',
        subst (λ (b : List ℕ). Frames md5 serialize (es ++ ds) b)
            (sym (e' ∙ ap (λ (l : List ℕ). l ++ more) e))
            (Frames-append es ds bytes more frames frames'),
      )

  -- Where entries are logged to a new file and, after it is loaded again, more entries are, a replay
  -- hands on all of them once and in the order of the calls of log, and leaves the file as it was, for
  -- a hash of 16 bytes, buffers of the size asked for, and messages that parse back.
  pub replay-log_all :
      (es ds : List E) (f f' : File) (s : S)
      → log_all md5 serialize es create_log ≡ ok f
      → log_all md5 serialize ds (load_log f.bytes) ≡ ok f'
      → replay noise md5 parse on_entry (load_log f'.bytes) s
        ≡ (on_all on_entry (es ++ ds) s >>= λ s'. ok (f', s'))
  unfolding replay load_log seek_end seek_to
  replay-log_all es ds f f' s q q' =
      let (at_end, frames) = logged_twice es ds f f' q q' in
      let l =
        length-Frames noise md5 serialize parse on_entry length_noise length_md5 parse_serialize
          (es ++ ds) f'.bytes frames in
      let n = length f'.bytes - length (es ++ ds) in
      resume-Frames noise md5 serialize parse on_entry length_noise length_md5 parse_serialize
        (es ++ ds) f'.bytes [] f'.bytes [] (suc (length f'.bytes)) (suc n) (length f'.bytes) 0
        (length f'.bytes) s frames (sym (append_nil f'.bytes)) (omega (arith, l)) refl (omega arith)
        (omega arith)
      ∙ bind_ext (on_all on_entry (es ++ ds) s) _ _
          (λ s'. resume_end f'.bytes n (length f'.bytes) s' refl ∙ ground (arith, at_end))

  -- Where the entries that were logged to a new file are followed by bytes that name a length below
  -- 2^31 and a hash that is not that of the bytes behind, such as a frame that was written in part, a
  -- replay hands on the entries and then throws the error of the hash, for a hash of 16 bytes, buffers
  -- of the size asked for, and messages that parse back.
  pub replay-IsDamaged :
      (es : List E) (f : File) (tail : List ℕ) (s : S)
      → log_all md5 serialize es create_log ≡ ok f
      → tail ≢ []
      → IsDamaged noise md5 tail
      → replay noise md5 parse on_entry (load_log (f.bytes ++ tail)) s
        ≡ (on_all on_entry es s >>= λ s'. throws hash_mismatch)
  unfolding replay load_log seek_end seek_to create_log
  replay-IsDamaged es f tail s q h d =
      let (bytes, e, at_end, frames) = log_all-Frames md5 serialize es create_log f refl q in
      let whole = f.bytes ++ tail in
      let l =
        length-Frames noise md5 serialize parse on_entry length_noise length_md5 parse_serialize es
          bytes frames in
      let n = length whole - length es in
      let la = length-append f.bytes tail in
      let lb = ap length e in
      resume-Frames noise md5 serialize parse on_entry length_noise length_md5 parse_serialize es
        whole [] bytes tail (suc (length whole)) (suc n) (length whole) 0 (length f.bytes) s frames
        (ap (λ (l : List ℕ). l ++ tail) e) (omega (arith, l, la, lb)) refl (omega (arith, lb))
        (omega (arith, la))
      ∙ bind_ext (on_all on_entry es s) _ _
          (λ s'. resume-damaged whole f.bytes tail n (length f.bytes) s' refl refl h d)
