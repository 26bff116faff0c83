-- ===== src/Code.antt =====
-- src/vm_code.c: the program builder, the byte encoder and the pre-decoder.
pub mod Op
pub mod Bytes
pub mod Insn
pub mod Builder
pub mod Decode
pub mod Finish
pub mod Assembler
pub mod Interned
pub mod Tables
pub mod Operands
pub mod Layout
pub mod Scan
pub mod Patch
pub mod Assembled
pub mod Build
mod Tests
pub mod RoundTrip
pub mod Emit
pub mod Calls
