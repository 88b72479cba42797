-- ===== src/Flex/Tests.antt =====
-- Tests of the files of a storage.
use d3b.Base.{
  ℕ, zero, suc, ◌+◌, ◌<◌, ◌≡◌, refl, List, [], ◌∷◌, Option, ◌++◌, ok, length, find, inl, arith,
}
use d3b.Btree.{leaf, create_tree}
use d3b.Btree.Balance.{AreBlocks}
use d3b.Btree.Contents.{Adds}
use d3b.Btree.Layout.{ents_per_leaf}
use d3b.RandomAccess.{Pages, page_size, read}
use d3b.RandomAccess.Bytes.{byte_at}
use d3b.Flex.{
  Index, write_index, read_index, FlexFiles, create_files, insert_document, fetch_document,
}
use d3b.Types.{SequenceId, Buffer}
use d3b.Flex.Newest.{IsNewest}
use d3b.Flex.Storage.{Document, insert_all, versions, fetch_document-IsNewest}
use d3b.Flex.Documents.{
  read_index-write_index, insert_document-AreSound, AreSound, index_of, reference_to, leaf_capacity,
  inner_capacity,
}

abbrev zeros : ℕ → List ℕ
zeros zero = []
zeros (suc n) = 0 ∷ zeros n

length-zeros : (n : ℕ) → length (zeros n) ≡ n
length-zeros zero = refl
length-zeros (suc n) = omega (arith, length-zeros n)

abbrev blank : Pages
blank n = zeros page_size

abbrev new_files : FlexFiles
new_files = record { data_pointer = 0; index_tree = create_tree; data_file = blank }

new_files-created : create_files blank ≡ new_files
unfolding create_files
new_files-created = refl

abbrev no_level : ℕ → ℕ
no_level n = 0

new_tree-AreBlocks :
    AreBlocks {K = Index} {V = List ℕ} leaf_capacity inner_capacity no_level 2
      ((1, leaf 0 0 []) ∷ [])
unfolding find ents_per_leaf
new_tree-AreBlocks zero n0 n1 = absurd (omega (arith, n0))
new_tree-AreBlocks (suc zero) n0 n1 = (leaf 0 0 [], refl, (refl, omega arith, inl refl))
new_tree-AreBlocks (suc (suc n)) n0 n1 = absurd (omega (arith, n1))

new_files-AreSound : AreSound no_level new_files
unfolding create_tree
new_files-AreSound =
    (λ n. length-zeros page_size, (omega arith, omega arith, refl, new_tree-AreBlocks))

read_index-write_index_example : read_index (write_index (index_of 7 300) ++ []) ≡ index_of 7 300
read_index-write_index_example =
    read_index-write_index (index_of 7 300) [] (omega arith) (omega arith)

insert_document-AreSound_example :
    (level' : ℕ → ℕ) × (f' : FlexFiles) × (insert_document 1 2 (5 ∷ 6 ∷ []) new_files ≡ ok f')
    × AreSound level' f'
    × (f'.data_pointer ≡ 0 + 2)
    × (read 0 2 f'.data_file ≡ ok (5 ∷ 6 ∷ []))
    × ((i : ℕ) → i < 0 → byte_at f'.data_file i ≡ byte_at blank i)
    × Adds (index_of 1 2) (reference_to (5 ∷ 6 ∷ []) new_files) create_tree f'.index_tree
insert_document-AreSound_example =
    insert_document-AreSound no_level 1 2 (5 ∷ 6 ∷ []) new_files new_files-AreSound

-- Two versions of document 1 and one of document 2.
abbrev three_documents : List Document
three_documents = (1, (5, 10 ∷ [])) ∷ (2, (6, 20 ∷ 21 ∷ [])) ∷ (1, (8, 11 ∷ 12 ∷ [])) ∷ []

fetch_document-IsNewest_example :
    (f : FlexFiles) × (r : Option (SequenceId × Buffer)) × (insert_all three_documents
        (create_files blank)
      ≡ ok f)
    × (fetch_document 1 7 f ≡ ok r)
    × IsNewest 1 7 (versions 0 three_documents []) r
fetch_document-IsNewest_example =
    fetch_document-IsNewest three_documents blank 1 7 (λ n. length-zeros page_size)
      ((omega arith, omega arith), ((omega arith, omega arith), ((omega arith, omega arith), tt)))
      (omega arith) (omega arith, omega arith)
