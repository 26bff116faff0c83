-- ===== src/IntervalTree.antt =====
-- src/interval_tree.c: the interval tree with lazy shifts that holds the memo entries.
pub mod Node
pub mod Shifts
pub mod Balance
pub mod Current
pub mod Order
pub mod Contents
pub mod Eager
pub mod Heights
pub mod Avl
pub mod Edit
pub mod Evict
pub mod Api
pub mod Replay
pub mod Covered
pub mod Inserted
pub mod Grown
pub mod Added
pub mod Walks
mod Tests
