-- ===== src/RandomAccess.antt =====
-- shard/src/ll/random-access-file.cpp: a file of bytes on top of a page cache, whose pages are taken by
-- number. `Pages` is what `readPage` finds there, and `writePage` and `releasePage` leave it as it is. No
-- other request works on the same pages between two chunks of one request.
pub mod Bytes
pub mod Transfers
pub mod Tests
use d3b.Base.{
  ℕ, zero, suc, ◌+◌, ◌-◌, ◌/◌, ◌%◌, min, List, [], ◌++◌, Result, ok, throws, dangling, length, take,
  drop, ◌==◌, if◌then◌else◌,
}

-- `getPageSize()`, which the constructor sets
abbrev pub page_size : ℕ
page_size = 4096

abbrev pub Pages : Type 0
Pages = ℕ → List ℕ

-- `chunk_size` at `p_offset` of `p_length`
unfoldable pub chunk_size : ℕ → ℕ → ℕ → ℕ
chunk_size position total offset =
    min (total - offset) (page_size - (position + offset) % page_size)

-- `memcpy` into a page, at an offset.
unfoldable pub put : ℕ → List ℕ → List ℕ → List ℕ
put offset chunk page = take offset page ++ (chunk ++ drop (offset + length chunk) page)

unfoldable pub put_page : ℕ → List ℕ → Pages → Pages
put_page n page pages = λ m. if m == n then page else pages m

-- `ReadClosure`: `fetchPage` and `onPageLoad`, with a bound on the chunks. `out` is the start of the buffer,
-- up to `p_offset`.
unfoldable pub read_chunks : ℕ → ℕ → ℕ → ℕ → List ℕ → Pages → Result (List ℕ)
unfolding chunk_size
read_chunks zero position total offset out pages = throws dangling
read_chunks (suc fuel) position total offset out pages =
    let file_offset = position + offset in
    let chunk = chunk_size position total offset in
    let out' =
      out ++ take chunk (drop (file_offset % page_size) (pages (file_offset / page_size))) in
    let rest = read_chunks fuel position total (offset + chunk) out' pages in
    if offset + chunk == total then ok out' else rest

unfoldable pub read : ℕ → ℕ → Pages → Result (List ℕ)
unfolding read_chunks
read position total pages =
    let rest = read_chunks total position total 0 [] pages in if total == 0 then ok [] else rest

-- `WriteClosure`
unfoldable pub write_chunks : ℕ → ℕ → List ℕ → ℕ → Pages → Result Pages
unfolding chunk_size put put_page
write_chunks zero position buffer offset pages = throws dangling
write_chunks (suc fuel) position buffer offset pages =
    let file_offset = position + offset in
    let chunk = chunk_size position (length buffer) offset in
    let page_number = file_offset / page_size in
    let page =
      put (file_offset % page_size) (take chunk (drop offset buffer)) (pages page_number) in
    let pages' = put_page page_number page pages in
    let rest = write_chunks fuel position buffer (offset + chunk) pages' in
    if offset + chunk == length buffer then ok pages' else rest

unfoldable pub write : ℕ → List ℕ → Pages → Result Pages
unfolding write_chunks
write position buffer pages =
    let rest = write_chunks (length buffer) position buffer 0 pages in
    if length buffer == 0 then ok pages else rest
