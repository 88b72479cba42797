-- ===== src/PageCache.antt =====
-- shard/src/ll/page-cache.cpp with shard/include/ll/page-cache.hpp: the pages of a file that are in memory.
-- `Host` is the cache host, which says which pages may stay, and `Pages` the pages of one cache.
pub mod Host
pub mod Queue
pub mod Entering
pub mod Eviction
pub mod Pages
pub mod States
pub mod Moves
pub mod Releases
pub mod Tasks
pub mod Soundness
pub mod Service
pub mod Tests
