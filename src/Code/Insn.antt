-- ===== src/Code/Insn.antt =====
-- The pre-decoded program of src/vm_internal.h: `vm_insn` and `struct vm_code`.
use libpeg.Prelude.{ℕ, Option, none, List}
use libpeg.Prelude.Int.{ℤ, pos}
use libpeg.Charset.{Charset}
use libpeg.Code.Op.{Op}

-- `set` is the byte set that the pointer refers to: `none` for NULL, and for a pointer past the
-- table, which no run may follow.
pub record Insn : Type 0 where
  pub op : Op
  pub a : ℤ
  pub b : ℤ
  pub set : Option Charset

-- `(vm_insn){ .op = op, .a = 0, .b = 0, .set = NULL }`
abbrev pub insn : Op → Insn
insn op = record { op = op; a = pos 0; b = pos 0; set = none }

-- A message is its bytes. The checkers are functions of the embedder and stand elsewhere, as
-- parameters; `predecoded` is always true here and is left out.
pub record Code : Type 0 where
  pub insns : List ℕ
  pub sets : List Charset
  pub errors : List (List ℕ)
  pub prog : List Insn
