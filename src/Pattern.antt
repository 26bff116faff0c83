-- ===== src/Pattern.antt =====
-- The grammar compiler of src/pattern.c: the files below this module.
pub mod Ast
pub mod Semantics
pub mod Simplify
pub mod Ir
pub mod Inline
pub mod Shapes
pub mod Grammar
pub mod Compile
pub mod Optimize
pub mod Encode
pub mod OneByte
pub mod Placed
pub mod Sound
pub mod Core
pub mod Views
pub mod Simplified
pub mod Merged
pub mod Kept
pub mod Correct
pub mod Promise
pub mod Inlined
mod Tests
