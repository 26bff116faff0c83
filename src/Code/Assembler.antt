-- ===== src/Code/Assembler.antt =====
-- The assembler that the builder implements: instructions with symbolic labels and whole byte
-- sets, and what each is to become, in the byte stream and in the pre-decoded program.
use libpeg.Prelude.{ℕ, ◌^◌, ◌<◌, ◌≡◌, Option, none, some, List, [], ◌∷◌, ◌++◌}
use libpeg.Prelude.Int.{ℤ, pos}
use libpeg.Charset.{Charset}
use libpeg.Code.Bytes.{u24, i16, FitsI16}
use libpeg.Code.Insn.{Insn, insn}
use libpeg.Code.Op
use libpeg.Code.Op.{Op}
use libpeg.Code.Builder.{
  Prog, find_set, emit1, emit_op_u8, emit_op_label, emit_op_i16, emit_op_label_i16,
  emit_op_u8_label, emit_op_set_label, emit_op_set, emit_op_u24, emit_op_i16_i16, emit_op_u8_i16,
}

-- the operand layouts
pub data Shape : Type 0 where
  no_args u8_arg label_arg i16_arg label_i16_args u8_label_args : Shape
  u24_arg i16_i16_args u8_i16_args set_arg set_label_args : Shape

unfoldable pub shape : Op → Shape
shape Op.char = u8_arg
shape Op.jump = label_arg
shape Op.choice = label_arg
shape Op.call = label_arg
shape Op.commit = label_arg
shape Op.return = no_args
shape Op.fail = no_args
shape Op.set = set_arg
shape Op.any = u8_arg
shape Op.partial_commit = label_arg
shape Op.span = set_arg
shape Op.back_commit = label_arg
shape Op.fail_twice = no_args
shape Op.empty = u8_arg
shape Op.test_char = u8_label_args
shape Op.test_char_nochoice = u8_label_args
shape Op.test_set = set_label_args
shape Op.test_set_nochoice = set_label_args
shape Op.test_any = u8_label_args
shape Op.end = u8_arg
shape Op.nop = no_args
shape Op.capture_begin = i16_arg
shape Op.capture_late = u8_i16_args
shape Op.capture_end = no_args
shape Op.capture_full = u8_i16_args
shape Op.check_begin = i16_i16_args
shape Op.check_end = u24_arg
shape Op.memo_open = label_i16_args
shape Op.memo_close = no_args
shape Op.memo_tree_open = label_i16_args
shape Op.memo_tree_insert = no_args
shape Op.memo_tree = no_args
shape Op.memo_tree_close = i16_arg
shape Op.error = u24_arg

-- An instruction as the builder is asked for it. Labels are numbers, as `label` gives them out.
pub data Line : Type 0 where
  plain : Op → Line
  byte : Op → ℕ → Line
  target : Op → ℕ → Line
  word : Op → ℤ → Line
  target_word : Op → ℕ → ℤ → Line
  byte_target : Op → ℕ → ℕ → Line
  wide : Op → ℕ → Line
  words : Op → ℤ → ℤ → Line
  byte_word : Op → ℕ → ℤ → Line
  with_set : Op → Charset → Line
  set_target : Op → Charset → ℕ → Line

-- The raw emitter for a line.
unfoldable pub emit_line : Prog → Line → Option (Prog × ℕ)
unfolding emit1 emit_op_u8 emit_op_label emit_op_i16 emit_op_label_i16 emit_op_u8_label emit_op_u24
    emit_op_i16_i16 emit_op_u8_i16
emit_line p (plain op) = some (emit1 p op)
emit_line p (byte op a) = some (emit_op_u8 p op a)
emit_line p (target op l) = some (emit_op_label p op l)
emit_line p (word op a) = some (emit_op_i16 p op a)
emit_line p (target_word op l b) = some (emit_op_label_i16 p op l b)
emit_line p (byte_target op c l) = some (emit_op_u8_label p op c l)
emit_line p (wide op a) = some (emit_op_u24 p op a)
emit_line p (words op a b) = some (emit_op_i16_i16 p op a b)
emit_line p (byte_word op b a) = some (emit_op_u8_i16 p op b a)
emit_line p (with_set op s) = emit_op_set p op s
emit_line p (set_target op s l) = emit_op_set_label p op s l

-- The opcode takes these operands, and they fit their fields.
unfoldable pub IsLine : Line → Type 0
IsLine (plain op) = shape op ≡ no_args
IsLine (byte op a) = (shape op ≡ u8_arg) × (a < 256)
IsLine (target op l) = shape op ≡ label_arg
IsLine (word op a) = (shape op ≡ i16_arg) × FitsI16 a
IsLine (target_word op l b) = (shape op ≡ label_i16_args) × FitsI16 b
IsLine (byte_target op c l) = (shape op ≡ u8_label_args) × (c < 256)
IsLine (wide op a) = (shape op ≡ u24_arg) × (a < 2 ^ 24)
IsLine (words op a b) = (shape op ≡ i16_i16_args) × FitsI16 a × FitsI16 b
IsLine (byte_word op b a) = (shape op ≡ u8_i16_args) × (b < 256) × FitsI16 a
IsLine (with_set op s) = shape op ≡ set_arg
IsLine (set_target op s l) = shape op ≡ set_label_args

-- the index of a set in a table (0 where it is missing)
unfoldable pub set_index : List Charset → Charset → ℕ
unfolding find_set
set_index sets s = elim (find_set sets s 0) [ none ↦ 0 | some i ↦ i ]

-- The bytes of a line over a set table, with the labels at these offsets.
module _ (sets : List Charset) (place : ℕ → ℕ) where
  unfoldable pub layout : Line → List ℕ
  unfolding u24 i16
  layout (plain op) = Op.code op ∷ 0 ∷ []
  layout (byte op a) = Op.code op ∷ a ∷ []
  layout (target op l) = Op.code op ∷ u24 (place l)
  layout (word op a) = Op.code op ∷ 0 ∷ i16 a
  layout (target_word op l b) = Op.code op ∷ (u24 (place l) ++ i16 b)
  layout (byte_target op c l) = Op.code op ∷ 0 ∷ c ∷ u24 (place l)
  layout (wide op a) = Op.code op ∷ u24 a
  layout (words op a b) = Op.code op ∷ 0 ∷ (i16 a ++ i16 b)
  layout (byte_word op b a) = Op.code op ∷ b ∷ i16 a
  layout (with_set op s) = Op.code op ∷ set_index sets s ∷ []
  layout (set_target op s l) = Op.code op ∷ 0 ∷ set_index sets s ∷ u24 (place l)

  unfoldable pub layouts : List Line → List ℕ
  unfolding layout
  layouts [] = []
  layouts (i ∷ is) = layout i ++ layouts is

-- The instruction that a line stands for, with the labels at these targets.
module _ (resolve : ℕ → ℕ) where
  unfoldable pub meaning : Line → Insn
  meaning (plain op) = insn op
  meaning (byte op a) = record (insn op) { a = pos a }
  meaning (target op l) = record (insn op) { a = pos (resolve l) }
  meaning (word op a) = record (insn op) { a = a }
  meaning (target_word op l b) = record (insn op) { a = pos (resolve l); b = b }
  meaning (byte_target op c l) = record (insn op) { a = pos (resolve l); b = pos c }
  meaning (wide op a) = record (insn op) { a = pos a }
  meaning (words op a b) = record (insn op) { a = a; b = b }
  meaning (byte_word op b a) = record (insn op) { a = a; b = pos b }
  meaning (with_set op s) = record (insn op) { set = some s }
  meaning (set_target op s l) = record (insn op) { a = pos (resolve l); set = some s }

-- the label that a line refers to
unfoldable pub label_of : Line → Option ℕ
label_of (target op l) = some l
label_of (target_word op l b) = some l
label_of (byte_target op c l) = some l
label_of (set_target op s l) = some l
label_of i = none
