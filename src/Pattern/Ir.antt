-- ===== src/Pattern/Ir.antt =====
-- The instruction list of src/pattern.c (`pir`) and the compilation context (`pctx`). A list stands
-- for the array. The transient nodes are memory management and are left out.
use libpeg.Prelude.{
  ℕ, suc, ◌+◌, Bool, true, false, ◌||◌, List, [], ◌∷◌, Option, none, some, drop, if◌then◌else◌,
}
use libpeg.Prelude.Int.{ℤ, pos}
use libpeg.Charset
use libpeg.Charset.{Charset}
use libpeg.Code.Op.{Op}
use libpeg.Code.Builder.{same_bytes}
use libpeg.Machine.State.{Checker}
use libpeg.Pattern.Ast.{Name, Defs, end, def, Pat}

-- a `vm_op`, or one of the two entries that only the list has
pub data PirOp : Type 0 where
  vm : Op → PirOp
  pir_label pir_opencall : PirOp

-- `pir_insn`: `none` is the label -1, and a null pointer.
pub record Pir : Type 0 where
  pub op : PirOp
  pub a : ℤ
  pub b : ℤ
  pub label : Option ℕ
  pub set : Charset
  pub msg : Option (List ℕ)
  pub name : Option Name
  pub fn : Option Checker

abbrev pub insn_of : PirOp → Pir
insn_of op = record {
  op = op;
  a = pos 0;
  b = pos 0;
  label = none;
  set = Charset.empty;
  msg = none;
  name = none;
  fn = none;
}

abbrev pub insn_basic : Op → Pir
insn_basic op = insn_of (vm op)

abbrev pub insn_label : ℕ → Pir
insn_label l = record (insn_of pir_label) { a = pos l }

abbrev pub insn_jump : Op → ℕ → Pir
insn_jump op l = record (insn_basic op) { label = some l }

abbrev pub insn_u8 : Op → ℤ → Pir
insn_u8 op a = record (insn_basic op) { a = a }

abbrev pub insn_set : Op → Charset → Pir
insn_set op set = record (insn_basic op) { set = set }

abbrev pub insn_test_set : Op → Charset → ℕ → Pir
insn_test_set op set l = record (insn_set op set) { label = some l }

abbrev pub insn_test_char : Op → ℕ → ℕ → Pir
insn_test_char op byte l = record (insn_basic op) { b = pos byte; label = some l }

abbrev pub insn_opencall : Name → Pir
insn_opencall name = record (insn_of pir_opencall) { name = some name }

-- whether an entry is passed over: a label or a nop
abbrev pub skipped : Pir → Bool
skipped i = elim i.op [ pir_label ↦ true | vm Op.nop ↦ true | _ ↦ false ]

abbrev pub is_label : Pir → Bool
is_label i = elim i.op [ pir_label ↦ true | _ ↦ false ]

-- the number of entries before the first that is not passed over
unfoldable pub skip : List Pir → ℕ
skip [] = 0
skip (i ∷ is) = let rest = skip is in if skipped i then suc rest else 0

-- `next_insn_idx`
unfoldable pub next_insn_idx : List Pir → ℕ → ℕ
unfolding skip
next_insn_idx p from = from + skip (drop from p)

-- whether a label is among the entries that are passed over
unfoldable pub skips_label : List Pir → Bool
skips_label [] = false
skips_label (i ∷ is) = let rest = skips_label is in if skipped i then is_label i || rest else false

-- `next_insn_label_idx`, and its `hadlabel`
unfoldable pub next_insn_label_idx : List Pir → ℕ → ℕ × Bool
unfolding next_insn_idx skips_label
next_insn_label_idx p from = (next_insn_idx p from, skips_label (drop from p))

-- `pctx`, with the counter of memo ids, which is global in the source
pub record Ctx : Type 0 where
  pub nlabels : ℕ
  pub memo_counter : ℤ
  pub err : Option Name

abbrev pub set_err : Ctx → Name → Ctx
set_err c name = elim c.err [ none ↦ record c { err = some name } | some _ ↦ c ]

-- `n` calls of `pctx_label`: the labels are the next ones from `c.nlabels` on
abbrev pub fresh : ℕ → Ctx → Ctx
fresh n c = record c { nlabels = c.nlabels + n }

-- `find_def` from index `i` on, with the definition
unfoldable pub find_def : Defs → Name → ℕ → Option (ℕ × Pat)
unfolding same_bytes
find_def end name i = none
find_def (def n p ds) name i =
    let rest = find_def ds name (i + 1) in if same_bytes n name then some (i, p) else rest
