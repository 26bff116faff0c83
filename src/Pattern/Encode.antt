-- ===== src/Pattern/Encode.antt =====
-- The encoding of the instruction list and `pat_compile`, of src/pattern.c.
use libpeg.Prelude.{
  ℕ, ◌+◌, not, List, [], ◌∷◌, ◌++◌, Option, none, some, ◌>>=◌, get_elem?, length, replicate, ◌-◌,
}
use libpeg.Prelude.{set as set_at}
use libpeg.Prelude.Int.{ℤ, pos, pos_part}
use libpeg.Code.Op.{Op}
use libpeg.Code.Insn.{Code}
use libpeg.Code.Builder
use libpeg.Code.Builder.{Prog}
use libpeg.Code.Bytes.{u16, signed16}
use libpeg.Code.Emit
use libpeg.Code.Emit.{Call, emit}
use libpeg.Code.Finish.{finish}
use libpeg.Memo.Table.{same_ℤ}
use libpeg.Machine.State.{Checker, byte_of}
use libpeg.Pattern.Ast.{Name, Pat}
use libpeg.Pattern.Ir.{vm, pir_label, pir_opencall, Pir, Ctx, set_err}
use libpeg.Pattern.Compile.{compile_pat}
use libpeg.Pattern.Optimize.{pat_optimize}

-- `struct encoder`: `none` in the map is -1. Of the CheckEnd instructions the checkers are kept.
pub record Encoder : Type 0 where
  pub b : Prog
  pub map : List (Option ℕ)
  pub checkers : List (Option Checker)

-- `(int16_t)a`
abbrev to_i16 : ℤ → ℤ
to_i16 a = signed16 (u16 a)

-- the builder's label that the map has for a label of the list
abbrev mapped : List (Option ℕ) → ℕ → Option ℕ
mapped map l = elim (get_elem? map l) [ none ↦ none | some m ↦ m ]

-- the map, grown until it has an entry for a label
abbrev grown : List (Option ℕ) → ℕ → List (Option ℕ)
grown map l = map ++ replicate (l + 1 - length map) none

unfoldable pub enc_label : Encoder → ℕ → Encoder × ℕ
enc_label e l = elim (mapped e.map l) [
  | some m ↦ (e, m)
  | none ↦
      let (b, m) = Builder.label e.b in
      (record e { b = b; map = set_at (grown e.map l) l (some m) }, m)
]

abbrev emitted : Encoder → Call → Option Encoder
emitted e c = do (b, _) ← emit e.b c; some (record e { b = b })

-- a call that has the label of the instruction as its operand
abbrev with_label : Encoder → Pir → (ℕ → Call) → Option Encoder
with_label e i call = do l ← i.label; let (e', m) = enc_label e l; emitted e' (call m)

abbrev enc_error : Encoder → Option (List ℕ) → Option Encoder
enc_error e none = none
enc_error e (some msg) = emitted e (Emit.error msg)

-- the instructions of the machine
unfoldable pub enc_vm : Encoder → Pir → Op → Option Encoder
unfolding enc_label emit u16 signed16
enc_vm e i Op.char = emitted e (Emit.char (byte_of i.a))
enc_vm e i Op.jump = with_label e i Emit.jump
enc_vm e i Op.choice = with_label e i Emit.choice
enc_vm e i Op.call = with_label e i Emit.call
enc_vm e i Op.commit = with_label e i Emit.commit
enc_vm e i Op.return = emitted e Emit.return
enc_vm e i Op.fail = emitted e Emit.fail
enc_vm e i Op.set = emitted e (Emit.set i.set)
enc_vm e i Op.any = emitted e (Emit.any (byte_of i.a))
enc_vm e i Op.partial_commit = with_label e i Emit.partial_commit
enc_vm e i Op.span = emitted e (Emit.span i.set)
enc_vm e i Op.back_commit = with_label e i Emit.back_commit
enc_vm e i Op.fail_twice = emitted e Emit.fail_twice
enc_vm e i Op.empty = emitted e (Emit.empty (byte_of i.a))
enc_vm e i Op.test_char = with_label e i (Emit.test_char (byte_of i.b))
enc_vm e i Op.test_char_nochoice = with_label e i (Emit.test_char_nochoice (byte_of i.b))
enc_vm e i Op.test_set = with_label e i (Emit.test_set i.set)
enc_vm e i Op.test_set_nochoice = with_label e i (Emit.test_set_nochoice i.set)
enc_vm e i Op.test_any = with_label e i (Emit.test_any (byte_of i.b))
enc_vm e i Op.end = emitted e (Emit.end (not (same_ℤ i.a (pos 0))))
enc_vm e i Op.nop = some e
enc_vm e i Op.capture_begin = emitted e (Emit.capture_begin (to_i16 i.a))
enc_vm e i Op.capture_late = emitted e (Emit.capture_late (byte_of i.b) (to_i16 i.a))
enc_vm e i Op.capture_end = emitted e Emit.capture_end
enc_vm e i Op.capture_full = emitted e (Emit.capture_full (byte_of i.b) (to_i16 i.a))
enc_vm e i Op.check_begin = emitted e (Emit.check_begin (to_i16 i.a) (to_i16 i.b))
enc_vm e i Op.check_end = emitted (record e { checkers = e.checkers ++ (i.fn ∷ []) }) Emit.check_end
enc_vm e i Op.memo_open = with_label e i (λ l. Emit.memo_open l (to_i16 i.b))
enc_vm e i Op.memo_close = emitted e Emit.memo_close
enc_vm e i Op.memo_tree_open = with_label e i (λ l. Emit.memo_tree_open l (to_i16 i.b))
enc_vm e i Op.memo_tree_insert = emitted e Emit.memo_tree_insert
enc_vm e i Op.memo_tree = emitted e Emit.memo_tree
enc_vm e i Op.memo_tree_close = emitted e (Emit.memo_tree_close (to_i16 i.a))
enc_vm e i Op.error = enc_error e i.msg

-- `none` is an abort.
unfoldable pub enc : Encoder → Pir → Option Encoder
unfolding enc_vm enc_label
enc e i = elim i.op [
  | pir_label ↦
      let (e', m) = enc_label e (pos_part i.a) in
      do b ← Builder.mark e'.b m; some (record e' { b = b })
  | pir_opencall ↦ none
  | vm op ↦ enc_vm e i op
]

unfoldable pub enc_all : Encoder → List Pir → Option Encoder
unfolding enc
enc_all e [] = some e
enc_all e (i ∷ is) = do e' ← enc e i; enc_all e' is

-- the open calls that no grammar resolved: the first sets the error
unfoldable pub open_calls : Ctx → List Pir → Ctx
open_calls c [] = c
open_calls c (i ∷ is) = elim i.op [
  | pir_opencall ↦ elim i.name [ none ↦ open_calls c is | some n ↦ open_calls (set_err c n) is ]
  | _ ↦ open_calls c is
]

-- What `pat_compile` returns: an error, or the program with its registered checkers.
pub data Compiled : Type 0 where
  missing : Name → Compiled
  program : Code → List (Option Checker) → Compiled

-- the encoding of a list and the end of the builder
unfoldable pub encode : List Pir → Option Compiled
unfolding enc_all finish
encode code = do
  e ← enc_all (record { b = Builder.new; map = []; checkers = [] }) code
  out ← finish e.b
  some (program out e.checkers)

-- On the fuel of `compile_pat`; with the counter of memo ids before, and after.
unfoldable pub pat_compile : ℕ → ℤ → Pat → Option (Compiled × ℤ)
unfolding compile_pat open_calls pat_optimize encode
pat_compile fuel counter p = do
  (code, c) ← compile_pat fuel (record { nlabels = 0; memo_counter = counter; err = none }) p
  elim (open_calls c code).err [
    | some name ↦ some (missing name, c.memo_counter)
    | none ↦ do code' ← pat_optimize code; out ← encode code'; some (out, c.memo_counter)
  ]
