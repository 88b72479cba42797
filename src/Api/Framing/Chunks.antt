-- ===== src/Api/Framing/Chunks.antt =====
-- server.cpp:53-90: the bytes of a connection come in pieces of any size. `feed` takes them one at a
-- time, as a reference for `onReadTls`.
use d3b.Base.{
  ℕ, zero, suc, ◌+◌, ◌-◌, ◌≤◌, ◌<◌, ◌≡◌, refl, subst, ok-injective, >>=-eq-ok, sym, ◌∙◌, ap, true,
  false, List, [], ◌∷◌, ◌++◌, length, take, drop, Result, ok, throws, ◌>>=◌, dangling, min, ltb,
  if◌then◌else◌, arith, length-append, append_assoc, length-drop, length-take_le, take-append-drop,
  Bool-cases, inl, inr,
}
use d3b.Api.Framing.{
  Reader, head_read, body_read, copied, target, with_head, read_loop, on_read_tls,
}

-- One byte: it is copied, unless the length of the body is negative after the cast.
feed_byte : ℕ → Reader → Result Reader
feed_byte b c =
    if ltb (target c) 2147483648 then ok (copied (c.read ++ b ∷ []) c) else throws dangling

pub feed : List ℕ → Reader → Result Reader
feed [] c = ok c
feed (b ∷ bs) c = feed_byte b c >>= feed bs

bind_assoc :
    (r : Result Reader) (f g h : Reader → Result Reader)
    → ((d : Reader) → h d ≡ (f d >>= g))
    → (r >>= h) ≡ ((r >>= f) >>= g)
bind_assoc (ok d) f g h k = k d
bind_assoc (throws x) f g h k = refl

pub feed-append : (xs ys : List ℕ) (c : Reader) → feed (xs ++ ys) c ≡ (feed xs c >>= feed ys)
unfolding feed
feed-append [] ys c = refl
feed-append (b ∷ xs) ys c =
    bind_assoc (feed_byte b c) (feed xs) (feed ys) (feed (xs ++ ys)) (feed-append xs ys)

-- The buffer that is being read has room.
abbrev pub HasRoom : Reader → Type 0
HasRoom c = length c.read < target c

copied-HasRoom : (bytes : List ℕ) (c : Reader) → length bytes ≤ target c → HasRoom (copied bytes c)
unfolding copied head_read with_head body_read
copied-HasRoom bytes c h = ground (arith, h)

copied-partial :
    (bytes : List ℕ) (c : Reader)
    → length bytes < target c
    → copied bytes c ≡ record c { read = bytes }
unfolding copied
copied-partial bytes c h = ground (arith, h)

copied-read :
    (bytes r : List ℕ) (c : Reader) → copied bytes (record c { read = r }) ≡ copied bytes c
unfolding copied head_read with_head body_read
copied-read bytes r c = refl

-- The bytes that fit in the buffer, one at a time or at once.
pub feed-copied :
    (x : ℕ) (xs : List ℕ) (c : Reader)
    → ltb (target c) 2147483648 ≡ true
    → length c.read + suc (length xs) ≤ target c
    → feed (x ∷ xs) c ≡ ok (copied (c.read ++ x ∷ xs) c)
unfolding feed feed_byte
feed-copied x [] c s h = rw s refl
feed-copied x (y ∷ ys) c s h =
    let l : length (c.read ++ x ∷ []) ≡ length c.read + 1 = length-append c.read (x ∷ []) in
    rw (s, copied-partial (c.read ++ x ∷ []) c (omega (arith, h, l)))
      (feed-copied y ys (record c { read = c.read ++ x ∷ [] }) s (omega (arith, h, l))
        ∙ ap (λ r. ok r)
            (copied-read ((c.read ++ x ∷ []) ++ y ∷ ys) (c.read ++ x ∷ []) c
              ∙ ap (λ l. copied l c) (append_assoc c.read (x ∷ []) (y ∷ ys))))

feed-take :
    (k b : ℕ) (bs : List ℕ) (c : Reader)
    → ltb (target c) 2147483648 ≡ true
    → 1 ≤ k
    → length c.read + k ≤ target c
    → feed (take k (b ∷ bs)) c ≡ ok (copied (c.read ++ take k (b ∷ bs)) c)
feed-take zero b bs c s l h = absurd (omega (arith, l))
feed-take (suc k) b bs c s l h =
    feed-copied b (take k bs) c s (omega (arith, h, length-take_le k bs))

-- One round of the loop, and the bytes that it leaves.
feed-round :
    (k b : ℕ) (bs : List ℕ) (c : Reader)
    → ltb (target c) 2147483648 ≡ true
    → 1 ≤ k
    → length c.read + k ≤ target c
    → feed (b ∷ bs) c ≡ feed (drop k (b ∷ bs)) (copied (c.read ++ take k (b ∷ bs)) c)
feed-round k b bs c s l h =
    ap (λ xs. feed xs c) (sym (take-append-drop k (b ∷ bs)))
    ∙ feed-append (take k (b ∷ bs)) (drop k (b ∷ bs)) c
    ∙ ap (λ r. r >>= feed (drop k (b ∷ bs))) (feed-take k b bs c s l h)

pub feed-nil : (c : Reader) → feed [] c ≡ ok c
unfolding feed
feed-nil c = refl

feed_over :
    (b : ℕ) (bs : List ℕ) (c : Reader)
    → ltb (target c) 2147483648 ≡ false
    → feed (b ∷ bs) c ≡ throws dangling
unfolding feed feed_byte
feed_over b bs c s = rw s refl

pub read_loop-feed :
    (fuel : ℕ) (bs : List ℕ) (c : Reader)
    → length bs ≤ fuel
    → HasRoom c
    → read_loop fuel bs c ≡ feed bs c
unfolding read_loop
read_loop-feed zero [] c l h = sym (feed-nil c)
read_loop-feed (suc fuel) [] c l h = sym (feed-nil c)
read_loop-feed zero (b ∷ bs) c l h = absurd (omega (arith, l))
read_loop-feed (suc fuel) (b ∷ bs) c l h = elim (Bool-cases (ltb (target c) 2147483648)) [
  | inl s ↦
      let k : ℕ = min (target c - length c.read) (length (b ∷ bs)) in
      rw s (
        read_loop-feed fuel (drop k (b ∷ bs)) (copied (c.read ++ take k (b ∷ bs)) c)
          (omega (arith, l, length-drop k (b ∷ bs)))
          (copied-HasRoom (c.read ++ take k (b ∷ bs)) c
            (omega (arith, h, length-append c.read (take k (b ∷ bs)), length-take_le k (b ∷ bs))))
        ∙ sym (feed-round k b bs c s (omega (arith, h)) (omega (arith, h))))
  | inr s ↦ rw s (sym (feed_over b bs c s))
]

-- `onReadTls` hands the connection the same messages as one byte after the other, from a state where
-- the buffer that is being read has room, whatever the length of the piece.
pub on_read_tls-feed : (bs : List ℕ) (c : Reader) → HasRoom c → on_read_tls bs c ≡ feed bs c
unfolding on_read_tls
on_read_tls-feed bs c h = read_loop-feed (length bs) bs c (omega arith) h

feed_byte-HasRoom : (b : ℕ) (c d : Reader) → HasRoom c → feed_byte b c ≡ ok d → HasRoom d
unfolding feed_byte copied head_read with_head body_read
feed_byte-HasRoom b c d h e = ground (arith, h, e, length-append c.read (b ∷ []))

feed-HasRoom : (bs : List ℕ) (c d : Reader) → HasRoom c → feed bs c ≡ ok d → HasRoom d
unfolding feed
feed-HasRoom [] c d h e = subst HasRoom (ok-injective e) h
feed-HasRoom (b ∷ bs) c d h e =
    let (x, f, g) = >>=-eq-ok (feed_byte b c) _ e in
    feed-HasRoom bs x d (feed_byte-HasRoom b c x h f) g

-- How the bytes of a connection are cut into pieces does not matter: two calls of `onReadTls` with
-- two pieces end as one call with both, from a state where the buffer has room, errors included.
pub on_read_tls-append :
    (xs ys : List ℕ) (c : Reader)
    → HasRoom c
    → on_read_tls (xs ++ ys) c ≡ (on_read_tls xs c >>= on_read_tls ys)
on_read_tls-append xs ys c h =
    on_read_tls-feed (xs ++ ys) c h
    ∙ feed-append xs ys c
    ∙ sym (rw (on_read_tls-feed xs c h) (go (feed xs c) refl))
  where
    go : (r : Result Reader) → feed xs c ≡ r → (r >>= on_read_tls ys) ≡ (r >>= feed ys)
    go (ok d) e = on_read_tls-feed ys d (feed-HasRoom xs c d h e)
    go (throws x) e = refl
