-- ===== src/Mng.antt =====
-- The management layer of external memory (include/stxxl/bits/mng, lib/mng).
pub mod Allocator
pub mod Strategies
pub mod BlockManager
