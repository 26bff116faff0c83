-- ===== src/Pattern/Optimize.antt =====
-- `pat_optimize` of src/pattern.c. `none` is a read of an entry of its label table that it did not
-- write: a jump to a label that the code does not have.
use libpeg.Prelude.{
  ℕ, zero, suc, ◌+◌, Bool, true, false, List, [], ◌∷◌, Option, none, some, ◌>>=◌, get_elem?, length,
  ◌==◌, if◌then◌else◌,
}
use libpeg.Prelude.{set as set_at}
use libpeg.Prelude.Int.{pos_part}
use libpeg.Code.Op.{Op}
use libpeg.Pattern.Ir.{vm, pir_label, Pir, next_insn_idx}

-- `labidx` at a label: the index of the last entry that places it, from index `i` on
unfoldable pub label_idx : List Pir → ℕ → ℕ → Option ℕ
label_idx [] l i = none
label_idx (x ∷ xs) l i = elim (label_idx xs l (i + 1)) [
  | some j ↦ some j
  | none ↦ elim x.op [ pir_label ↦ if pos_part x.a == l then some i else none | _ ↦ none ]
]

-- a choice and the instruction after it: the test that replaces the two, if one does
unfoldable pub head_fail : Pir → Pir → Option Pir
head_fail i next = elim next.op [
  | vm Op.char ↦ some (record i { op = vm Op.test_char; b = next.a })
  | vm Op.set ↦ some (record i { op = vm Op.test_set; set = next.set })
  | vm Op.any ↦ some (record i { op = vm Op.test_any; b = next.a })
  | _ ↦ none
]

-- the first half of a round, at a choice `x`
unfoldable pub optimize_choice : List Pir → ℕ → Pir → List Pir
unfolding head_fail
optimize_choice code i x = elim (get_elem? code (i + 1)) [
  | none ↦ code
  | some next ↦ elim (head_fail x next) [
    | none ↦ code
    | some test ↦ set_at (set_at code i test) (i + 1) (record next { op = vm Op.nop })
  ]
]

-- whether a jump to an instruction is replaced by it
abbrev pub replaces_jump : Pir → Bool
replaces_jump i = elim i.op [
  | vm Op.partial_commit ↦ true
  | vm Op.back_commit ↦ true
  | vm Op.commit ↦ true
  | vm Op.jump ↦ true
  | vm Op.return ↦ true
  | vm Op.fail ↦ true
  | vm Op.fail_twice ↦ true
  | vm Op.end ↦ true
  | _ ↦ false
]

-- the second half of a round, at a jump `x`
unfoldable pub optimize_jump : List Pir → ℕ → Pir → Option (List Pir)
unfolding label_idx next_insn_idx
optimize_jump code i x = do
  l ← x.label
  from ← label_idx code l 0
  elim (get_elem? code (next_insn_idx code from)) [
    | none ↦ some code
    | some y ↦ some (if replaces_jump y then set_at code i y else code)
  ]

-- A round of the loop. A choice is no jump, also after the first half of its round.
unfoldable pub optimize_at : List Pir → ℕ → Option (List Pir)
unfolding optimize_choice optimize_jump
optimize_at code i = do
  x ← get_elem? code i
  elim x.op [
    | vm Op.choice ↦ some (optimize_choice code i x)
    | vm Op.jump ↦ optimize_jump code i x
    | _ ↦ some code
  ]

-- the loop, with the rounds that are left
unfoldable pub optimize_loop : ℕ → ℕ → List Pir → Option (List Pir)
unfolding optimize_at
optimize_loop zero i code = some code
optimize_loop (suc left) i code = do code' ← optimize_at code i; optimize_loop left (i + 1) code'

unfoldable pub pat_optimize : List Pir → Option (List Pir)
unfolding optimize_loop
pat_optimize code = optimize_loop (length code) 0 code
