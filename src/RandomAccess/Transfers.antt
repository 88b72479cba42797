-- ===== src/RandomAccess/Transfers.antt =====
-- random-access-file.cpp:27-122: what the chunks of a request add up to.
use d3b.Base.{
  ℕ, zero, suc, ◌+◌, ◌-◌, ◌*◌, ◌/◌, ◌%◌, ◌<◌, ◌≤◌, ◌≡◌, refl, ap, ◌∙◌, sym, Bool, false, ◌&&◌,
  Bool-cases, inl, inr, List, [], ◌∷◌, ◌++◌, ok, ok-injective, subst, length, length-drop,
  append_assoc, take, drop, ltb, leb, ◌==◌, if◌then◌else◌, arith,
}
use d3b.RandomAccess.{
  page_size, Pages, put, put_page, chunk_size, read_chunks, read, write_chunks, write,
}
use d3b.RandomAccess.Bytes.{
  get_or_zero, byte_at, file_bytes, ArePages, file_bytes_page, file_bytes-append, byte_at-put,
  put_page-ArePages, length-take, get_or_zero-take, get_or_zero-drop,
}

chunk_size_lem :
    (position total offset : ℕ)
    → offset < total
    → (0 < chunk_size position total offset)
      × (offset + chunk_size position total offset ≤ total)
      × ((position + offset) % page_size + chunk_size position total offset ≤ page_size)
unfolding chunk_size
chunk_size_lem position total offset h = (omega (arith, h), omega (arith, h), omega (arith, h))

read_chunk :
    (pages : Pages) (position total offset : ℕ)
    → ArePages pages
    → offset < total
    → take
        (chunk_size position total offset)
        (drop ((position + offset) % page_size) (pages ((position + offset) / page_size)))
      ≡ file_bytes pages (position + offset) (chunk_size position total offset)
read_chunk pages position total offset a h =
    let (c0, c1, c2) = chunk_size_lem position total offset h in
    sym (
      file_bytes_page pages ((position + offset) / page_size) ((position + offset) % page_size)
        (position + offset) (chunk_size position total offset) (a ((position + offset) / page_size))
        (omega arith) c2)

read_chunks_lem :
    (fuel position total offset : ℕ) (out : List ℕ) (pages : Pages)
    → ArePages pages
    → offset < total
    → total ≤ offset + fuel
    → read_chunks fuel position total offset out pages
      ≡ ok (out ++ file_bytes pages (position + offset) (total - offset))
unfolding read_chunks
read_chunks_lem zero position total offset out pages a h f = absurd (omega (arith, h, f))
read_chunks_lem (suc fuel) position total offset out pages a h f =
    let (c0, c1, c2) = chunk_size_lem position total offset h in
    let c = chunk_size position total offset in
    let e = read_chunk pages position total offset a h in
    let s =
      file_bytes-append pages (position + offset) c (total - (offset + c)) (total - offset)
        (omega (arith, c1)) in
    elim (Bool-cases (offset + c == total)) [
      | inl last ↦
          let t : total - offset ≡ c = ground (arith, last) in
          rw (last, e) (ap (λ (n : ℕ). ok (out ++ file_bytes pages (position + offset) n)) (sym t))
      | inr more ↦
          let rest = file_bytes pages (position + offset + c) (total - (offset + c)) in
          let ih =
            read_chunks_lem fuel position total (offset + c)
              (out ++ file_bytes pages (position + offset) c) pages a (ground (arith, more, c1))
              (omega (arith, f, c0)) in
          let p : position + (offset + c) ≡ position + offset + c = omega arith in
          let ih' = (rw p at ih) in
          rw (more, e)
            (ih'
              ∙ ap (λ (l : List ℕ). ok l)
                  (append_assoc out (file_bytes pages (position + offset) c) rest
                    ∙ ap (λ (l : List ℕ). out ++ l) (sym s)))
    ]

-- A read over pages of 4096 bytes gives the bytes of the file in that range, however it lies across
-- the pages.
pub read_lem :
    (position total : ℕ) (pages : Pages)
    → ArePages pages
    → read position total pages ≡ ok (file_bytes pages position total)
unfolding read
read_lem position zero pages a = refl
read_lem position (suc n) pages a =
    let p : position + 0 ≡ position = omega arith in
    let q : suc n - 0 ≡ suc n = omega arith in
    let r = read_chunks_lem (suc n) position (suc n) 0 [] pages a (omega arith) (omega arith) in
    let z : (suc n == 0) ≡ false = ground arith in
    rw z (
      r
      ∙ ap (λ (m : ℕ). ok (file_bytes pages m (suc n - 0))) p
      ∙ ap (λ (m : ℕ). ok (file_bytes pages position m)) q)

-- The test of the bytes of a request, from one offset to another.
abbrev pub in_range : ℕ → ℕ → ℕ → Bool
in_range position end i = leb position i && ltb i end

write_page :
    (pages : Pages) (position : ℕ) (buffer : List ℕ) (offset i : ℕ)
    → ArePages pages
    → offset < length buffer
    → let c = chunk_size position (length buffer) offset in
      let q = (position + offset) / page_size in
      let pages' =
        put_page q
          (put ((position + offset) % page_size) (take c (drop offset buffer)) (pages q))
          pages in
      ArePages pages'
      × (byte_at pages' i ≡ (
          if in_range (position + offset) (position + (offset + c)) i
          then get_or_zero buffer (i - position)
          else byte_at pages i))
write_page pages position buffer offset i a h =
    let (c0, c1, c2) = chunk_size_lem position (length buffer) offset h in
    let c = chunk_size position (length buffer) offset in
    let q = (position + offset) / page_size in
    let r = (position + offset) % page_size in
    let chunk = take c (drop offset buffer) in
    let l : length chunk ≡ c =
      length-take c (drop offset buffer) (omega (arith, c1, length-drop offset buffer)) in
    let b = byte_at-put pages q r chunk i (a q) (omega (arith, l, c2)) in
    let st : page_size * q + r ≡ position + offset = omega arith in
    let en : page_size * q + r + length chunk ≡ position + (offset + c) = omega (arith, l) in
    let b' = (rw (en, st) at b) in
    (
      put_page-ArePages pages q r chunk a (omega (arith, l, c2)),
      elim (Bool-cases (in_range (position + offset) (position + (offset + c)) i)) [
        | inl inside ↦
            let low : i - (position + offset) < c = ground (arith, inside) in
            let e : offset + (i - (position + offset)) ≡ i - position = ground (arith, inside) in
            b'
            ∙ rw inside (
                get_or_zero-take c (drop offset buffer) (i - (position + offset)) low
                ∙ get_or_zero-drop offset buffer (i - (position + offset))
                ∙ ap (λ (n : ℕ). get_or_zero buffer n) e)
        | inr outside ↦ b' ∙ rw outside refl
      ],
    )

write_chunks_lem :
    (fuel position : ℕ) (buffer : List ℕ) (offset : ℕ) (pages : Pages)
    → ArePages pages
    → offset < length buffer
    → length buffer ≤ offset + fuel
    → (pages' : Pages) × (write_chunks fuel position buffer offset pages ≡ ok pages')
      × ArePages pages'
      × ((i : ℕ)
          → byte_at pages' i ≡ (
              if in_range (position + offset) (position + length buffer) i
              then get_or_zero buffer (i - position)
              else byte_at pages i))
unfolding write_chunks
write_chunks_lem zero position buffer offset pages a h f = absurd (omega (arith, h, f))
write_chunks_lem (suc fuel) position buffer offset pages a h f =
    let (c0, c1, c2) = chunk_size_lem position (length buffer) offset h in
    let c = chunk_size position (length buffer) offset in
    let w = write_page pages position buffer offset in
    let q = (position + offset) / page_size in
    let pages' =
      put_page q (put ((position + offset) % page_size) (take c (drop offset buffer)) (pages q))
        pages in
    elim (Bool-cases (offset + c == length buffer)) [
      | inl last ↦
          let e : offset + c ≡ length buffer = ground (arith, last) in
          rw last (
            pages',
            refl,
            (w 0 a h).0,
            λ i.
                (w i a h).1
                ∙ ap
                    (λ (n : ℕ).
                      if in_range (position + offset) (position + n) i
                      then get_or_zero buffer (i - position)
                      else byte_at pages i)
                    e,
          )
      | inr more ↦
          let (pages'', r, a'', b) =
            write_chunks_lem fuel position buffer (offset + c) pages' (w 0 a h).0
              (ground (arith, more, c1)) (omega (arith, f, c0)) in
          rw more (pages'', r, a'', λ i. ground (arith, b i, (w i a h).1, c0, c1))
    ]

-- A write over pages of 4096 bytes succeeds, keeps the sizes of the pages, puts the bytes of the
-- buffer at the position, and leaves every other byte of the file as it was.
pub write_lem :
    (position : ℕ) (buffer : List ℕ) (pages : Pages)
    → ArePages pages
    → (pages' : Pages) × (write position buffer pages ≡ ok pages')
      × ArePages pages'
      × ((i : ℕ)
          → byte_at pages' i ≡ (
              if in_range position (position + length buffer) i
              then get_or_zero buffer (i - position)
              else byte_at pages i))
unfolding write
write_lem position [] pages a = (pages, refl, a, λ i. ground arith)
write_lem position (x ∷ buffer) pages a =
    let z : (suc (length buffer) == 0) ≡ false = ground arith in
    let (pages', r, a', b) =
      write_chunks_lem (suc (length buffer)) position (x ∷ buffer) 0 pages a (omega arith)
        (omega arith) in
    rw z (pages', r, a', λ i. ground (arith, b i))

pub file_bytes_ext :
    (pages : Pages) (buffer : List ℕ) (position : ℕ)
    → ((i : ℕ) → i < length buffer → byte_at pages (position + i) ≡ get_or_zero buffer i)
    → file_bytes pages position (length buffer) ≡ buffer
file_bytes_ext pages [] position h = refl
file_bytes_ext pages (x ∷ buffer) position h =
    let e : position + 0 ≡ position = omega arith in
    let first : byte_at pages position ≡ x =
      sym (ap (λ (n : ℕ). byte_at pages n) e) ∙ h 0 (omega arith) in
    let rest = file_bytes_ext pages buffer (suc position) (λ i l.
      let e' : suc position + i ≡ position + suc i = omega arith in
      ap (λ (n : ℕ). byte_at pages n) e' ∙ h (suc i) (omega (arith, l))) in
    rw (first, rest) refl

-- What was written over pages of 4096 bytes is read back.
pub read-write :
    (position : ℕ) (buffer : List ℕ) (pages pages' : Pages)
    → ArePages pages
    → write position buffer pages ≡ ok pages'
    → read position (length buffer) pages' ≡ ok buffer
read-write position buffer pages pages' a q =
    let (p, r, a', b) = write_lem position buffer pages a in
    let e : p ≡ pages' = ok-injective (sym r ∙ q) in
    let e' =
      read_lem position (length buffer) p a'
      ∙ ap (λ (l : List ℕ). ok l)
          (file_bytes_ext p buffer position (λ i l. b (position + i) ∙ ground (arith, l))) in
    subst (λ (x : Pages). read position (length buffer) x ≡ ok buffer) e e'
