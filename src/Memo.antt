-- ===== src/Memo.antt =====
-- src/memo.c: the capture trees.
pub mod Capture
pub mod Heap
pub mod Table
pub mod Children
mod Tests
