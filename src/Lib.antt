-- ===== src/Lib.antt =====
-- d3b: a verification library for the shard server of the d3b document database.
--
-- A shard keeps documents in storages and derives views from them. Clients work in transactions, which
-- hold mutations (insert, modify) and constraints (a document exists, or has a given version). A
-- transaction is opened, filled, submitted (checked against the other submitted transactions and
-- against the storages), and committed or rolled back. The engine logs submissions and commits ahead
-- of time, gives each commit a sequence id, and hands the committed mutations to every storage and
-- view. A restart replays the log.
--
-- - Types: shard/include/db/types.hpp (Mutation, Constraint, the identifiers).
-- - Driver: shard/src/db/storage-driver.cpp and shard/src/db/view-driver.cpp, the queue in front of a
--   storage or a view. `sequence`, `request` (fetch, query), `finish_request` and the functions of
--   ProcessClosure bear the names of the source. Driver.Steps has the runs, in any order of calls,
--   events and tasks.
-- - Storage: the state of a FlexStorage and of a view that the engine sees, with `allocate` and
--   `reinspect` (shard/src/db/flex-storage.cpp).
-- - Engine: shard/include/db/engine.hpp and shard/src/db/engine.cpp. Engine.Transactions has the calls
--   of clients, Engine.Conflicts the conflict checks, Engine.Processing and Engine.Completion the
--   ProcessQueueClosure, Engine.Registry the storages, views and the configuration, Engine.Replay the
--   replay closures and loadConfig. Engine.Steps has the runs: calls of clients and steps of the
--   closure in any order. Engine.Status says where a transaction stands, and Engine.Ledger what the
--   log and the answers say of commits.
-- - Api: shard/src/api/server.cpp. Api.Framing has onReadTls, and Api.Requests the dispatch of
--   processMessage and its closures, over the engine.
-- - WriteAhead: shard/src/ll/write-ahead.cpp, the log file of the engine. Its file is bytes and a
--   position (shard/src/os/linux.cpp). WriteAhead.Frames is about `log`, WriteAhead.Reading and
--   WriteAhead.Replay about `replay`, which Engine.Replay has over the list of entries;
--   Engine.Replay.LogFile joins the two.
-- - Btree: shard/include/ll/btree.hpp, the index of a storage, as blocks by number. Btree.Layout has
--   the offsets within a page, Btree.Search the search of one block, Btree.Split SplitClosure,
--   Btree.Insert `insert`, and Btree.Find FindClosure and IterateClosure. Btree.Balance says what a
--   balanced tree is, Btree.Contents counts its entries, Btree.Sorted says what a tree in order is,
--   over ranges of keys that are not stored (Btree.Ranges), and the other files there have the steps.
-- - RandomAccess: shard/src/ll/random-access-file.cpp, the data file of a storage, over its pages.
-- - Flex: the files of a storage in shard/src/db/flex-storage.cpp. `insert_document` is InsertClosure and
--   `fetch_document` FetchClosure, over Btree and RandomAccess. Flex.Versions has the versions that a
--   storage holds, and Flex.Storage a storage that is filled and asked.
-- - PageCache: shard/src/ll/page-cache.cpp, the pages of a file in memory. PageCache.Host is CacheHost,
--   whose links PageCache.Queue reads as a list, PageCache.Pages the calls and tasks of PageInfo and
--   PageCache, and PageCache.States the runs of them.
-- - Base: tests, lists, association lists and results that the parts share.
--
-- A call that throws, fails an assertion or dereferences a pointer that is gone returns an error value
-- (Base.Results). A call under a mutex is one step. Identifiers and counters are natural numbers: no
-- run comes near 2^63 of them, and an index has less than 2^31 blocks (8 TB). The keys of the index
-- are compared as the signed numbers that they are. A length in the log that is no `int` is an error.
-- The loop of onReadTls runs on fuel, the number of bytes, of which each round takes at least one.
--
-- In Btree the loops of `insert` and of the finds run on fuel, the depth of the tree and one more for a
-- root that is split; in RandomAccess on the length of the request, of which each chunk takes at least
-- one byte; and in WriteAhead on the length of the file. Comparisons of keys, MD5, and the serializer and
-- parser of protocol buffers are parameters.
--
-- In PageCache the loop of requestAcquire runs on fuel, of which each round takes one and releases an
-- item; the source gives up the mutex around each release, and no other call comes in between here. A
-- section under the mutex of a cache is one step; what runs after it is a task of the page. The write
-- of a page to its file counts as one step with the section after it.
--
-- Not modelled: the directory that is left where a storage or view of an unknown driver is created;
-- the B-tree and the random access file take the pages of a file as always in memory, with no step of
-- the page cache in between; the integrity check of the B-tree, which nothing calls; the JavaScript
-- views; and the bindings of the operating system, TLS and MD5. The engine sees a storage by its queue
-- and its answers, and an answer may be any. A rollback of a submitted transaction is left out of the
-- runs of the engine, since it breaks the list of submitted transactions; Engine.Rollback is about it.
pub mod Base
pub mod Types
pub mod Driver
pub mod Storage
pub mod Engine
pub mod Api
pub mod Btree
pub mod WriteAhead
pub mod RandomAccess
pub mod Flex
pub mod PageCache
