-- ===== src/Code/Emit.antt =====
-- The emitters that clients of the builder call, the `vm_emit_…` functions of src/vm_code.c: one
-- constructor of `Call` for each, with its arguments.
use libpeg.Prelude.{ℕ, ◌+◌, ◌<◌, Bool, Option, some, List, if◌then◌else◌}
use libpeg.Prelude.Int.{ℤ}
use libpeg.Charset.{Charset}
use libpeg.Code.Bytes.{FitsI16}
use libpeg.Code.Op
use libpeg.Code.Builder.{
  Prog, emit1, emit_op_u8, emit_op_label, emit_op_i16, emit_op_label_i16, emit_op_u8_label,
  emit_op_set_label, emit_op_set, emit_op_u24, emit_op_i16_i16, emit_op_u8_i16, add_error,
}
use libpeg.Code.Assembler.{
  Line, plain, byte, target, word, target_word, byte_target, wide, words, byte_word, with_set,
  set_target,
}

pub data Call : Type 0 where
  char : ℕ → Call
  jump choice call commit partial_commit back_commit : ℕ → Call
  return fail fail_twice : Call
  set span : Charset → Call
  any empty : ℕ → Call
  test_char test_char_nochoice test_any : ℕ → ℕ → Call
  test_set test_set_nochoice : Charset → ℕ → Call
  capture_begin : ℤ → Call
  capture_late capture_full : ℕ → ℤ → Call
  capture_end : Call
  memo_open memo_tree_open : ℕ → ℤ → Call
  memo_close memo_tree_insert memo_tree : Call
  memo_tree_close : ℤ → Call
  error : List ℕ → Call
  check_begin : ℤ → ℤ → Call
  check_end : Call
  end : Bool → Call

-- `none` is the abort of `add_set`.
unfoldable pub emit : Prog → Call → Option (Prog × ℕ)
unfolding emit1 emit_op_u8 emit_op_label emit_op_i16 emit_op_label_i16 emit_op_u8_label emit_op_u24
    emit_op_i16_i16 emit_op_u8_i16
emit p (char c) = some (emit_op_u8 p Op.char c)
emit p (jump l) = some (emit_op_label p Op.jump l)
emit p (choice l) = some (emit_op_label p Op.choice l)
emit p (call l) = some (emit_op_label p Op.call l)
emit p (commit l) = some (emit_op_label p Op.commit l)
emit p return = some (emit1 p Op.return)
emit p fail = some (emit1 p Op.fail)
emit p (set s) = emit_op_set p Op.set s
emit p (any n) = some (emit_op_u8 p Op.any n)
emit p (partial_commit l) = some (emit_op_label p Op.partial_commit l)
emit p (span s) = emit_op_set p Op.span s
emit p (back_commit l) = some (emit_op_label p Op.back_commit l)
emit p fail_twice = some (emit1 p Op.fail_twice)
emit p (empty op) = some (emit_op_u8 p Op.empty op)
emit p (test_char c l) = some (emit_op_u8_label p Op.test_char c l)
emit p (test_char_nochoice c l) = some (emit_op_u8_label p Op.test_char_nochoice c l)
emit p (test_set s l) = emit_op_set_label p Op.test_set s l
emit p (test_set_nochoice s l) = emit_op_set_label p Op.test_set_nochoice s l
emit p (test_any n l) = some (emit_op_u8_label p Op.test_any n l)
emit p (capture_begin id) = some (emit_op_i16 p Op.capture_begin id)
emit p (capture_late back id) = some (emit_op_u8_i16 p Op.capture_late back id)
emit p capture_end = some (emit1 p Op.capture_end)
emit p (capture_full back id) = some (emit_op_u8_i16 p Op.capture_full back id)
emit p (memo_open l id) = some (emit_op_label_i16 p Op.memo_open l id)
emit p memo_close = some (emit1 p Op.memo_close)
emit p (memo_tree_open l id) = some (emit_op_label_i16 p Op.memo_tree_open l id)
emit p memo_tree_insert = some (emit1 p Op.memo_tree_insert)
emit p memo_tree = some (emit1 p Op.memo_tree)
emit p (memo_tree_close id) = some (emit_op_i16 p Op.memo_tree_close id)
emit p (error msg) = some (emit_op_u24 (add_error p msg).0 Op.error (add_error p msg).1)
emit p (check_begin id flag) = some (emit_op_i16_i16 p Op.check_begin id flag)
emit p check_end =
    some (emit_op_u24 (record p { ncheckers = p.ncheckers + 1 }) Op.check_end p.ncheckers)
emit p (end failed) = some (emit_op_u8 p Op.end (if failed then 1 else 0))

-- the arguments have the C types' ranges
abbrev pub Fits : Call → Type 0
Fits (char c) = c < 256
Fits (any n) = n < 256
Fits (empty op) = op < 256
Fits (test_char c l) = c < 256
Fits (test_char_nochoice c l) = c < 256
Fits (test_any n l) = n < 256
Fits (capture_begin id) = FitsI16 id
Fits (capture_late back id) = (back < 256) × FitsI16 id
Fits (capture_full back id) = (back < 256) × FitsI16 id
Fits (memo_open l id) = FitsI16 id
Fits (memo_tree_open l id) = FitsI16 id
Fits (memo_tree_close id) = FitsI16 id
Fits (check_begin id flag) = FitsI16 id × FitsI16 flag
Fits c = Unit

-- what a call does before it writes
abbrev pub prepared : Prog → Call → Prog
prepared p (error msg) = (add_error p msg).0
prepared p check_end = record p { ncheckers = p.ncheckers + 1 }
prepared p c = p

-- the line that a call appends
abbrev pub line_of : Prog → Call → Line
line_of p (char c) = byte Op.char c
line_of p (jump l) = target Op.jump l
line_of p (choice l) = target Op.choice l
line_of p (call l) = target Op.call l
line_of p (commit l) = target Op.commit l
line_of p return = plain Op.return
line_of p fail = plain Op.fail
line_of p (set s) = with_set Op.set s
line_of p (any n) = byte Op.any n
line_of p (partial_commit l) = target Op.partial_commit l
line_of p (span s) = with_set Op.span s
line_of p (back_commit l) = target Op.back_commit l
line_of p fail_twice = plain Op.fail_twice
line_of p (empty op) = byte Op.empty op
line_of p (test_char c l) = byte_target Op.test_char c l
line_of p (test_char_nochoice c l) = byte_target Op.test_char_nochoice c l
line_of p (test_set s l) = set_target Op.test_set s l
line_of p (test_set_nochoice s l) = set_target Op.test_set_nochoice s l
line_of p (test_any n l) = byte_target Op.test_any n l
line_of p (capture_begin id) = word Op.capture_begin id
line_of p (capture_late back id) = byte_word Op.capture_late back id
line_of p capture_end = plain Op.capture_end
line_of p (capture_full back id) = byte_word Op.capture_full back id
line_of p (memo_open l id) = target_word Op.memo_open l id
line_of p memo_close = plain Op.memo_close
line_of p (memo_tree_open l id) = target_word Op.memo_tree_open l id
line_of p memo_tree_insert = plain Op.memo_tree_insert
line_of p memo_tree = plain Op.memo_tree
line_of p (memo_tree_close id) = word Op.memo_tree_close id
line_of p (error msg) = wide Op.error (add_error p msg).1
line_of p (check_begin id flag) = words Op.check_begin id flag
line_of p check_end = wide Op.check_end p.ncheckers
line_of p (end failed) = byte Op.end (if failed then 1 else 0)
