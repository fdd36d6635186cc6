-- ===== src/Cache.antt =====
-- backend/shared/cache/redis_cache.py: the in-process stand-in for Redis, and the interface
-- through which the rest of the program reads and writes keys. The lock of the source makes each
-- operation atomic, which one function for each operation is.
pub mod Client
pub mod Memory
pub mod Slices
