-- ===== src/WriteAhead/Frames.antt =====
-- write-ahead.cpp:36-77: the file as a list of entries, each in a frame.
use d3b.Base.{
  ℕ, zero, suc, ◌+◌, ◌≤◌, ◌≡◌, refl, sym, ap, ◌∙◌, inl, inr, ◌⊎◌, Bool-cases, Option-cases,
  ok-injective, List, [], ◌∷◌, ◌++◌, Option, none, some, ok, throws, logic_error, int_overflow, ltb,
  ◌<◌, >>=-eq-ok, length, length-append, append_nil, append_assoc, take, drop, arith,
}
use d3b.WriteAhead.{File, write_sync, frame, log, log_all}

pub take_self {ℓ} : {A : Type ℓ} (xs ys : List A) → take (length xs) (xs ++ ys) ≡ xs
take_self [] ys = refl
take_self (x ∷ xs) ys = ap (λ l. x ∷ l) (take_self xs ys)

pub drop_self {ℓ} : {A : Type ℓ} (xs ys : List A) → drop (length xs) (xs ++ ys) ≡ ys
drop_self [] ys = refl
drop_self (x ∷ xs) ys = drop_self xs ys

take_all {ℓ} : {A : Type ℓ} (xs : List A) → take (length xs) xs ≡ xs
take_all [] = refl
take_all (x ∷ xs) = ap (λ l. x ∷ l) (take_all xs)

pub drop_past {ℓ} : {A : Type ℓ} (n : ℕ) (xs : List A) → length xs ≤ n → drop n xs ≡ []
drop_past zero [] h = refl
drop_past zero (x ∷ xs) h = absurd (omega arith)
drop_past (suc n) [] h = refl
drop_past (suc n) (x ∷ xs) h = drop_past n xs (omega arith)

abbrev pub IsAtEnd : File → Type 0
IsAtEnd f = f.position ≡ length f.bytes

abbrev pub file_at : List ℕ → ℕ → File
file_at bytes position = record { bytes = bytes; position = position }

write_sync_end :
    (d : List ℕ) (f : File)
    → IsAtEnd f
    → write_sync d f ≡ file_at (f.bytes ++ d) (length (f.bytes ++ d))
unfolding write_sync
write_sync_end d f h = ground (
  arith,
  h,
  take_all f.bytes,
  drop_past (f.position + length d) f.bytes (omega arith),
  length-append f.bytes d,
  append_nil d,
)

module _ {E : Type 0} (md5 : List ℕ → List ℕ) (serialize : E → Option (List ℕ)) where
  -- The bytes hold these entries, and nothing else.
  abbrev pub Frames : List E → List ℕ → Type 0
  Frames [] bytes = bytes ≡ []
  Frames (e ∷ es) bytes =
      (message : List ℕ) × (rest : List ℕ) × (serialize e ≡ some message)
      × (length message + 20 < 2147483648)
      × (bytes ≡ frame md5 message ++ rest)
      × Frames es rest

  log_none : (e : E) (f : File) → serialize e ≡ none → log md5 serialize e f ≡ throws logic_error
  unfolding log
  log_none e f h = rw h refl

  log_some :
      (e : E) (message : List ℕ) (f : File)
      → serialize e ≡ some message
      → (length message + 20 < 2147483648)
          × (log md5 serialize e f ≡ ok (write_sync (frame md5 message) f))
        ⊎ (log md5 serialize e f ≡ throws int_overflow)
  unfolding log
  log_some e message f h = elim (Bool-cases (ltb (length message + 20) 2147483648)) [
    | inl short ↦ inl (ground (arith, short), rw (h, short) refl)
    | inr long ↦ inr (rw (h, long) refl)
  ]

  log-Frames :
      (e : E) (f f' : File)
      → IsAtEnd f
      → log md5 serialize e f ≡ ok f'
      → (message : List ℕ) × (serialize e ≡ some message)
        × (length message + 20 < 2147483648)
        × (f' ≡ file_at (f.bytes ++ frame md5 message) (length (f.bytes ++ frame md5 message)))
  log-Frames e f f' h q = elim (Option-cases (serialize e)) [
    | inl none_e ↦ let bad = log_none e f none_e in cc
    | inr (message, some_e) ↦ elim (log_some e message f some_e) [
      | inl (short, good) ↦ (
        message,
        some_e,
        short,
        ok-injective (sym q ∙ good) ∙ write_sync_end (frame md5 message) f h,
      )
      | inr long ↦ cc (q, long)
    ]
  ]

  pub log_all-Frames :
      (es : List E) (f f' : File)
      → IsAtEnd f
      → log_all md5 serialize es f ≡ ok f'
      → (bytes : List ℕ) × (f'.bytes ≡ f.bytes ++ bytes) × IsAtEnd f' × Frames es bytes
  unfolding log_all
  log_all-Frames [] f f' h q =
      ([], ground (arith, q, append_nil f.bytes), ground (arith, q, h), refl)
  log_all-Frames (e ∷ es) f f' h q =
      let (f1, q1, q2) = >>=-eq-ok (log md5 serialize e f) _ q in
      let (message, some_e, short, f1_lem) = log-Frames e f f1 h q1 in
      let at_end : IsAtEnd f1 = ground (arith, f1_lem) in
      let (rest, bytes_lem, at_end', frames) = log_all-Frames es f1 f' at_end q2 in
      (
        frame md5 message ++ rest,
        ground (
          arith,
          bytes_lem,
          ap (λ (x : File). x.bytes) f1_lem,
          append_assoc f.bytes (frame md5 message) rest,
        ),
        at_end',
        (message, rest, some_e, short, refl, frames),
      )
