-- ===== src/RandomAccess/Tests.antt =====
-- Tests of the random access file, over pages of zeros.
use d3b.Base.{ℕ, zero, suc, ◌+◌, ◌≡◌, refl, List, [], ◌∷◌, ok, length, if◌then◌else◌, ◌-◌, arith}
use d3b.RandomAccess.{Pages, page_size, put, put_page, read, write}
use d3b.RandomAccess.Bytes.{ArePages, byte_at, file_bytes, get_or_zero}
use d3b.RandomAccess.Transfers.{in_range, read_lem, write_lem}

abbrev zeros : ℕ → List ℕ
zeros zero = []
zeros (suc n) = 0 ∷ zeros n

length-zeros : (n : ℕ) → length (zeros n) ≡ n
length-zeros zero = refl
length-zeros (suc n) = omega (arith, length-zeros n)

abbrev blank : Pages
blank n = zeros page_size

blank-ArePages : ArePages blank
blank-ArePages n = length-zeros page_size

abbrev buffer : List ℕ
buffer = 1 ∷ 2 ∷ 3 ∷ []

-- Three bytes across the end of a page.
abbrev written : Pages
written =
    put_page 1 (put 0 (2 ∷ 3 ∷ []) (put_page 0 (put 4095 (1 ∷ []) (blank 0)) blank 1))
      (put_page 0 (put 4095 (1 ∷ []) (blank 0)) blank)

write-written : write 4095 buffer blank ≡ ok written
unfolding write
write-written = refl

read_lem_example : read 4095 3 blank ≡ ok (file_bytes blank 4095 3)
read_lem_example = read_lem 4095 3 blank blank-ArePages

write_lem_example :
    (pages' : Pages) × (write 4095 buffer blank ≡ ok pages')
    × ArePages pages'
    × ((i : ℕ)
        → byte_at pages' i ≡ (
            if in_range 4095 (4095 + length buffer) i
            then get_or_zero buffer (i - 4095)
            else byte_at blank i))
write_lem_example = write_lem 4095 buffer blank blank-ArePages
