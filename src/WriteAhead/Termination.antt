-- ===== src/WriteAhead/Termination.antt =====
-- write-ahead.cpp:36-59: the loop of `replay` over a file of any contents.
use d3b.Base.{
  ℕ, zero, suc, ◌+◌, ◌%◌, ◌<◌, true, ◌≤◌, ◌≡◌, ◌≢◌, false, inl, inr, Bool-cases, Option-cases, List,
  Option, Result, ok, throws, ◌>>=◌, dangling, length, ltb, arith, same_bytes,
}
use d3b.WriteAhead.{File, seek_to, check_message, replay_loop, replay}

bind_≢ :
    {X Y : Type 0} (r : Result X) (k : X → Result Y)
    → r ≢ throws dangling
    → ((x : X) → k x ≢ throws dangling)
    → (r >>= k) ≢ throws dangling
bind_≢ (ok x) k h g = g x
bind_≢ (throws e) k h g = λ q. h (ground (arith, q))

module _ {E S : Type 0} (noise : ℕ → List ℕ) (md5 : List ℕ → List ℕ) (parse : List ℕ → Option E)
    (on_entry : E → S → Result S)
    (on_entry_returns : (e : E) (s : S) → on_entry e s ≢ throws dangling) where
  check_message_returns :
      (n : ℕ) (hash message : List ℕ) (s : S)
      → n < 2147483648
      → check_message noise md5 parse on_entry n hash message s ≢ throws dangling
  unfolding check_message
  check_message_returns n hash message s l =
      let short : ltb n 2147483648 ≡ true = ground (arith, l) in
      rw short (elim (Bool-cases (same_bytes hash (md5 message))) [
        | inl same ↦ elim (Option-cases (parse message)) [
          | inl p ↦ rw (same, p) (λ q. cc)
          | inr (e, p) ↦ rw (same, p) (on_entry_returns e s)
        ]
        | inr other ↦ rw other (λ q. cc)
      ])

  -- One round, of a head that names the length `n`: it goes on behind where it stood, or throws.
  round_returns :
      (fuel position size n : ℕ) (hash message : List ℕ) (f : File) (s : S)
      → size ≤ position + suc fuel
      → ((p : ℕ) (f' : File) (s' : S)
          → size ≤ p + fuel
          → replay_loop noise md5 parse on_entry (suc fuel) p size f' s' ≢ throws dangling)
      → (check_message noise md5 parse on_entry n hash message s >>= λ s'.
          replay_loop noise md5 parse on_entry
            (suc fuel)
            (position + (20 + n) % 4294967296)
            size
            f
            s')
        ≢ throws dangling
  unfolding check_message
  round_returns fuel position size n hash message f s h ih = elim (Bool-cases (ltb n 2147483648)) [
    | inl short ↦
        let l : n < 2147483648 = ground (arith, short) in
        bind_≢ _ _ (check_message_returns n hash message s l)
          (λ s'. ih _ f s' (omega (arith, h, l)))
    | inr long ↦ rw long (λ q. cc)
  ]

  replay_loop_returns :
      (fuel position size : ℕ) (f : File) (s : S)
      → size ≤ position + fuel
      → replay_loop noise md5 parse on_entry (suc fuel) position size f s ≢ throws dangling
  unfolding replay_loop
  replay_loop_returns zero position size f s h =
      let e : ltb position size ≡ false = ground (arith, h) in rw e (λ q. cc)
  replay_loop_returns (suc fuel) position size f s h = elim (Bool-cases (ltb position size)) [
    | inl more ↦ rw more (
        round_returns fuel position size _ _ _ _ s h
          (λ p f' s' l. replay_loop_returns fuel p size f' s' l))
    | inr stop ↦ rw stop (λ q. cc)
  ]

  -- The loop of replay ends on every file, where a head that names a length of 2^31 or more, which is
  -- no int, is an error: the error for a loop that was cut off does not occur unless the callback
  -- gives it.
  pub replay_returns : (f : File) (s : S) → replay noise md5 parse on_entry f s ≢ throws dangling
  unfolding replay
  replay_returns f s =
      replay_loop_returns (length f.bytes) 0 (length f.bytes) (seek_to 0 f) s (omega arith)
