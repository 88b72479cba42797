-- ===== src/RandomAccess/Bytes.antt =====
-- The bytes of the file that the pages make up (random-access-file.cpp:45-62 and 93-110).
use d3b.Base.{
  ℕ, zero, suc, ◌+◌, ◌-◌, ◌*◌, ◌/◌, ◌%◌, ◌<◌, ◌≤◌, ◌≡◌, refl, ap, ◌∙◌, false, ◌&&◌, Bool-cases, inl,
  inr, List, [], ◌∷◌, ◌++◌, length, length-append, length-drop, take, drop, ltb, leb, ◌==◌,
  if◌then◌else◌, arith,
}
use d3b.RandomAccess.{page_size, Pages, put, put_page}

-- A byte that is not there is 0.
abbrev pub get_or_zero : List ℕ → ℕ → ℕ
get_or_zero [] i = 0
get_or_zero (x ∷ xs) zero = x
get_or_zero (x ∷ xs) (suc i) = get_or_zero xs i

abbrev pub byte_at : Pages → ℕ → ℕ
byte_at pages i = get_or_zero (pages (i / page_size)) (i % page_size)

abbrev pub file_bytes : Pages → ℕ → ℕ → List ℕ
file_bytes pages position zero = []
file_bytes pages position (suc n) = byte_at pages position ∷ file_bytes pages (suc position) n

abbrev pub ArePages : Pages → Type 0
ArePages pages = (n : ℕ) → length (pages n) ≡ page_size

get_or_zero-append :
    (xs ys : List ℕ) (i : ℕ)
    → get_or_zero (xs ++ ys) i
      ≡ (if ltb i (length xs) then get_or_zero xs i else get_or_zero ys (i - length xs))
get_or_zero-append [] ys i = ground arith
get_or_zero-append (x ∷ xs) ys zero = ground arith
get_or_zero-append (x ∷ xs) ys (suc i) = ground (arith, get_or_zero-append xs ys i)

pub get_or_zero-take :
    (n : ℕ) (xs : List ℕ) (i : ℕ) → i < n → get_or_zero (take n xs) i ≡ get_or_zero xs i
get_or_zero-take zero xs i h = absurd (omega (arith, h))
get_or_zero-take (suc n) [] i h = refl
get_or_zero-take (suc n) (x ∷ xs) zero h = refl
get_or_zero-take (suc n) (x ∷ xs) (suc i) h = get_or_zero-take n xs i (omega (arith, h))

pub get_or_zero-drop :
    (n : ℕ) (xs : List ℕ) (i : ℕ) → get_or_zero (drop n xs) i ≡ get_or_zero xs (n + i)
get_or_zero-drop zero xs i = ground arith
get_or_zero-drop (suc n) [] i = refl
get_or_zero-drop (suc n) (x ∷ xs) i =
    let e : suc n + i ≡ suc (n + i) = omega arith in rw e (get_or_zero-drop n xs i)

pub length-take : (n : ℕ) (xs : List ℕ) → n ≤ length xs → length (take n xs) ≡ n
length-take zero xs h = refl
length-take (suc n) [] h = absurd (omega (arith, h))
length-take (suc n) (x ∷ xs) h = ap suc (length-take n xs (omega (arith, h)))

drop_cons : (n : ℕ) (xs : List ℕ) → n < length xs → drop n xs ≡ get_or_zero xs n ∷ drop (suc n) xs
drop_cons n [] h = absurd (omega (arith, h))
drop_cons zero (x ∷ xs) h = refl
drop_cons (suc n) (x ∷ xs) h = drop_cons n xs (omega (arith, h))

-- Some bytes of one page.
pub file_bytes_page :
    (pages : Pages) (q r position n : ℕ)
    → length (pages q) ≡ page_size
    → position ≡ page_size * q + r
    → r + n ≤ page_size
    → file_bytes pages position n ≡ take n (drop r (pages q))
file_bytes_page pages q r position zero l p h = refl
file_bytes_page pages q r position (suc n) l p h =
    let a : position / page_size ≡ q = omega (arith, p, h) in
    let b : position % page_size ≡ r = omega (arith, p, h) in
    let c = drop_cons r (pages q) (omega (arith, l, h)) in
    let ih =
      file_bytes_page pages q (suc r) (suc position) n l (omega (arith, p)) (omega (arith, h)) in
    rw (a, b, c, ih) refl

pub file_bytes-append :
    (pages : Pages) (position m n k : ℕ)
    → k ≡ m + n
    → file_bytes pages position k ≡ file_bytes pages position m ++ file_bytes pages (position + m) n
file_bytes-append pages position zero n k e =
    let a : k ≡ n = omega (arith, e) in
    let b : position + 0 ≡ position = omega arith in rw (a, b) refl
file_bytes-append pages position (suc m) n k e =
    let a : k ≡ suc (m + n) = omega (arith, e) in
    let b : position + suc m ≡ suc position + m = omega arith in
    rw (a, b, file_bytes-append pages (suc position) m n (m + n) refl) refl

put_lem :
    (r : ℕ) (chunk page : List ℕ) (j : ℕ)
    → r + length chunk ≤ length page
    → get_or_zero (put r chunk page) j ≡ (
        if leb r j && ltb j (r + length chunk)
        then get_or_zero chunk (j - r)
        else get_or_zero page j)
unfolding put
put_lem r chunk page j h =
    let t = length-take r page (omega (arith, h)) in
    let e1 = get_or_zero-append (take r page) (chunk ++ drop (r + length chunk) page) j in
    let e2 = get_or_zero-append chunk (drop (r + length chunk) page) (j - r) in
    let e3 = get_or_zero-drop (r + length chunk) page (j - r - length chunk) in
    elim (Bool-cases (ltb j r)) [
      | inl low ↦ ground (arith, t, e1, get_or_zero-take r page j (ground (arith, low)), low)
      | inr high ↦ elim (Bool-cases (ltb j (r + length chunk))) [
        | inl low ↦ ground (arith, t, e1, e2, low, high)
        | inr past ↦
            let e : r + length chunk + (j - r - length chunk) ≡ j = ground (arith, past) in
            ground (arith, t, e1, e2, e3, e, past, high)
      ]
    ]

-- A chunk that is put into its page.
pub byte_at-put :
    (pages : Pages) (q r : ℕ) (chunk : List ℕ) (i : ℕ)
    → length (pages q) ≡ page_size
    → r + length chunk ≤ page_size
    → byte_at (put_page q (put r chunk (pages q)) pages) i ≡ (
        if leb (page_size * q + r) i && ltb i (page_size * q + r + length chunk)
        then get_or_zero chunk (i - (page_size * q + r))
        else byte_at pages i)
unfolding put_page
byte_at-put pages q r chunk i l h =
    let e = put_lem r chunk (pages q) (i % page_size) (omega (arith, l, h)) in
    elim (Bool-cases (i / page_size == q)) [
      | inl same ↦
          let s : i / page_size ≡ q = ground (arith, same) in
          let low : leb (page_size * q + r) i ≡ leb r (i % page_size) = ground (arith, s) in
          let high : ltb i (page_size * q + r + length chunk)
              ≡ ltb (i % page_size) (r + length chunk) =
            ground (arith, s) in
          let back : i - (page_size * q + r) ≡ i % page_size - r = omega (arith, s) in
          let whole : byte_at pages i ≡ get_or_zero (pages q) (i % page_size) =
            ap (λ (n : ℕ). get_or_zero (pages n) (i % page_size)) s in
          rw (same, low, high, back, whole) e
      | inr other ↦
          let o : (leb (page_size * q + r) i && ltb i (page_size * q + r + length chunk)) ≡ false =
            ground (arith, other, h) in
          rw (other, o) refl
    ]

length-put :
    (r : ℕ) (chunk page : List ℕ)
    → r + length chunk ≤ length page
    → length (put r chunk page) ≡ length page
unfolding put
length-put r chunk page h = omega (
  arith,
  h,
  length-append (take r page) (chunk ++ drop (r + length chunk) page),
  length-append chunk (drop (r + length chunk) page),
  length-take r page (omega (arith, h)),
  length-drop (r + length chunk) page,
)

pub put_page-ArePages :
    (pages : Pages) (q r : ℕ) (chunk : List ℕ)
    → ArePages pages
    → r + length chunk ≤ page_size
    → ArePages (put_page q (put r chunk (pages q)) pages)
unfolding put_page
put_page-ArePages pages q r chunk a h n = elim (Bool-cases (n == q)) [
  | inl same ↦ rw same (length-put r chunk (pages q) (omega (arith, h, a q)) ∙ a q)
  | inr other ↦ rw other (a n)
]
