-- ===== src/Api/Tests.antt =====
-- The connection on concrete bytes and requests (server.cpp).
use d3b.Base.{
  ◌≡◌, refl, List, [], ◌∷◌, ◌++◌, none, some, find, insert, assign, Result, ok, throws, ◌>>=◌,
  arith,
}
use d3b.Types.{Mutation}
use d3b.Storage.{new_storage, allocate}
use d3b.Engine.{Engine, new_engine}
use d3b.Engine.Pointers.{at_index, set_index}
use d3b.Engine.Registry.{get_storage, index_of, index_from}
use d3b.Engine.Transactions.{
  transaction, update_mutation, push_insert, push_mutation, new_transaction,
}
use d3b.Api.{PbMutation, pb_insert, parse_mutation}
use d3b.Api.Requests.{update_mutations}
use d3b.Api.Framing.{new_reader, packet, on_read_tls}
use d3b.Api.Framing.Chunks.{on_read_tls-append}
use d3b.Api.Framing.Packets.{IsIdle, received, on_read_tls-packet}
use d3b.Api.Updates.{update_mutations-find}

-- A packet of three bytes that arrives in two pieces.
on_read_tls-append_example :
    on_read_tls
      ((1 ∷ 0 ∷ 0 ∷ 0 ∷ 3 ∷ []) ++ (0 ∷ 0 ∷ 0 ∷ 9 ∷ 0 ∷ 0 ∷ 0 ∷ 5 ∷ 6 ∷ 7 ∷ []))
      new_reader
    ≡ (on_read_tls (1 ∷ 0 ∷ 0 ∷ 0 ∷ 3 ∷ []) new_reader
        >>= on_read_tls (0 ∷ 0 ∷ 0 ∷ 9 ∷ 0 ∷ 0 ∷ 0 ∷ 5 ∷ 6 ∷ 7 ∷ []))
on_read_tls-append_example =
    on_read_tls-append (1 ∷ 0 ∷ 0 ∷ 0 ∷ 3 ∷ []) (0 ∷ 0 ∷ 0 ∷ 9 ∷ 0 ∷ 0 ∷ 0 ∷ 5 ∷ 6 ∷ 7 ∷ [])
      new_reader (omega arith)

new_reader-IsIdle : IsIdle new_reader
new_reader-IsIdle = (refl, refl)

on_read_tls-packet_example :
    on_read_tls (packet 1 9 (5 ∷ 6 ∷ 7 ∷ [])) new_reader
    ≡ ok (received 1 9 (5 ∷ 6 ∷ 7 ∷ []) new_reader)
on_read_tls-packet_example =
    on_read_tls-packet 1 9 (5 ∷ 6 ∷ 7 ∷ []) new_reader new_reader-IsIdle (omega arith) (omega arith)
      (omega arith)

abbrev opened : Engine
unfolding new_engine new_storage transaction
opened =
    (transaction (record (new_engine ("FlexStorage" ∷ []) []) {
      storages = none ∷ some (new_storage "docs") ∷ [];
    })).0

abbrev pb_hello : PbMutation
pb_hello = record { type = pb_insert; document_id = 0; storage_name = "docs"; buffer = 7 ∷ [] }

abbrev none_updated : Engine × List Mutation
none_updated = (opened, [])

abbrev result : {A : Type 0} → Result A → A → A
result (ok a) d = a
result (throws x) d = d

abbrev hello_updated : Engine × List Mutation
unfolding update_mutations parse_mutation get_storage index_of index_from update_mutation
    push_insert push_mutation at_index set_index allocate
hello_updated = result (update_mutations 1 (pb_hello ∷ []) opened) none_updated

hello-updates : update_mutations 1 (pb_hello ∷ []) opened ≡ ok hello_updated
unfolding hello_updated opened find insert assign update_mutations parse_mutation get_storage
    index_of index_from update_mutation push_insert push_mutation at_index set_index allocate
hello-updates = refl

opened-finds : find 1 opened.active_transactions ≡ some new_transaction
unfolding opened find insert
opened-finds = refl

update_mutations-find_example :
    find 1 hello_updated.0.active_transactions
    ≡ some (record new_transaction { mutations = hello_updated.1 })
update_mutations-find_example =
    update_mutations-find 1 (pb_hello ∷ []) hello_updated.1 opened hello_updated.0 new_transaction
      hello-updates opened-finds
