-- ===== src/Lib.antt =====
-- Verification of libpeg, an incremental PEG parser in C.
--
-- A pattern (src/pattern.c) is compiled with the program builder (src/vm_code.c) to instructions
-- that a machine (src/vm.c) runs over a subject. The machine reads the subject through a chunk cache,
-- tests bytes against byte sets (include/peg/vm.h), and keeps matches in a memo table (src/memo.c),
-- which stores them in an interval tree (src/interval_tree.c) that an edit of the subject (src/peg.c)
-- prunes and shifts.
--
-- Modules, and the code that they model:
-- Charset: `vm_charset` of include/peg/vm.h, four 64-bit words, with all of its operations.
-- Input: `struct vm_input` of src/vm.c, the cache of 4096 bytes and the furthest position read. Its
--   reference is a position in the flat subject. Reads are sequences of `Access`.
-- Machine: `vm_exec` of src/vm.c. Stack has its value stack, with capture lists and reference counts,
--   State the state of a run; Match, Control, Capturing and Memoize have the instructions, by what they
--   work on, and Exec the checkers, the dispatch, the unwinding after a failure and the result.
-- Code: src/vm_code.c. Builder has `struct vm_prog` and the raw emitters, Emit the `vm_emit_…`
--   functions, Finish `vm_prog_finish`, Decode `vm_predecode`. Assembler says what they implement:
--   instructions with symbolic labels and whole byte sets, their bytes, and their decoded form.
--   Build relates runs of the builder to lists of such instructions.
-- IntervalTree: src/interval_tree.c. Node has the data and the helpers of one node, Shifts the replay
--   of the shift log, Balance the rotations and `iv_rebalance`, Edit `iv_add`, `iv_remove` and
--   `iv_remove_overlaps`, Api the public operations. A tree is a value: a child that the code brings up
--   to date in place is replaced. Handles are numbers that stay with their group of intervals. Eager says
--   what the lazy shifts stand for: intervals that are shifted at once.
-- Memo: src/memo.c. Capture has the capture trees as values, and the functions that read them; Heap
--   the captures and entries as objects, with the positions of captures relative to their entry; Table
--   the memo table.
-- Pattern: src/pattern.c. Ast has the patterns, Simplify `get_pat`, Inline the inlining of definitions, Ir
--   the instruction list, Shapes the code around the parts of a pattern, Grammar `compile_grammar`,
--   Compile `compile_pat`, Optimize `pat_optimize`, Encode the lowering to the builder and `pat_compile`.
--   Semantics says what parsing expressions mean, Placed where code stands in a program, Sound when code
--   runs as a pattern means, over the runs of Machine.Runs; Core has the patterns that this is about.
-- Peg: the subject buffer of src/peg.c.
-- Prelude: Boolean tests, lists, integers and bits that these share.
--
-- An abort, a null pointer that is dereferenced, an index out of bounds or fuel that runs out is `none`
-- of Option, as the module says. Loops that are not structural run on fuel: `input_span` on the length
-- of the subject and two, since every round but one moves the window; the pre-decoder on the length of
-- the stream and one, since an instruction has two bytes or more; `iv_rebalance` on the sum of the
-- heights and four, since each round brings the heights of the two trees closer; `iv_remove` and
-- `iv_remove_overlaps` on the number of nodes, since each call is on fewer; the loops of `vm_exec` over
-- the stack on its height, since each round pops an entry; `vm_exec` itself, which need not end, and
-- `compile_pat` on any fuel; `get_pat` on the number of nodes, since a simplified pattern is no larger;
-- `grammar_inline` on the number of unresolved non-terminals and one, since every pass but the last
-- replaces one; the walks over captures on their number, since a child is older. Positions of the interval
-- tree are unbounded integers, and subject positions numbers: overflow of a C `int` is undefined.
--
-- Not modelled: memory release, allocation failure and capacities other than the subject buffer's;
-- the destruction of a capture; `pat_prettify`; what `peg_parse`, `peg_edit` and `peg_reparse` do besides
-- the subject; the tests and the benchmark. The checkers of a program belong to the embedder: a run is
-- given them as functions.

pub mod Prelude
pub mod Charset
pub mod Code
pub mod Input
pub mod IntervalTree
pub mod Machine
pub mod Memo
pub mod Pattern
pub mod Peg
