-- ===== src/Cache.antt =====
-- src/mineru_gateway/scheduler/cache_service.py: the cache of results, with an object store.
-- `Entries` holds the operations; `Hits` and `Races` prove what they keep.
pub mod Entries
pub mod Digests
pub mod TaskRows
pub mod Hits
pub mod Races
