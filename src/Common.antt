-- ===== src/Common.antt =====
-- Tools that all layers use (include/stxxl/bits/common, lib/common).
pub mod UintPair
pub mod SizeParser
pub mod BinaryBuffer
pub mod Ilog2
pub mod WinnerTree
