-- ===== src/Containers.antt =====
-- The containers in external memory (include/stxxl/bits/containers).
pub mod ListStack
pub mod NormalStack
pub mod GrowShrinkStack
pub mod Pager
pub mod Deque
pub mod Vector
