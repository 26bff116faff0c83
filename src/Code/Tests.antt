-- ===== src/Code/Tests.antt =====
-- Concrete programs of the builder.
use libpeg.Prelude.{ℕ, ◌≡◌, refl, Option, none, some, List, [], ◌∷◌, arith, get_elem?}
use libpeg.Prelude.Int.{pos}
use libpeg.Code.Op
use libpeg.Code.Insn.{Insn, insn, Code}
use libpeg.Code.Builder.{
  Prog, find_error, same_bytes, here, emit_op_u24, new, add_error, mark, label, emit_op_u8,
}
use libpeg.Code.Assembler.{byte, target, IsLine, shape, emit_line, meaning, layouts, layout}
use libpeg.Code.Build.{plan, Action, new_label, mark_label, emit, build}
use libpeg.Code.Interned.{Interned, add_error_lem}
use libpeg.Code.Calls.{TablesAfter, emit_lem}
use libpeg.Code.Emit
use libpeg.Code.Emit.{line_of, prepared}
use libpeg.Code.Assembled.{Emitted}
use libpeg.Code.Finish.{finish, patch, patch_all}
use libpeg.Code.Decode.{
  predecode, scan_loop, translate_all, translate, is_target, operands, index_of_int,
}
use libpeg.Code.Layout.{offset}
use libpeg.Code.Scan.{AtLabel}
use libpeg.Code.RoundTrip.{finish-build}

-- `choice L; char 'a'; commit L; L:` with the label made first and marked last
abbrev optional_a : List Action
optional_a =
    new_label
    ∷ emit (target Op.choice 0)
    ∷ emit (byte Op.char 97)
    ∷ emit (target Op.commit 0)
    ∷ mark_label 0
    ∷ []

abbrev made : Prog
made = elim (build new optional_a) [ none ↦ new | some p ↦ p ]

abbrev instructions : Option Code → List Insn
instructions none = []
instructions (some c) = c.prog

finish_optional :
    instructions (finish made)
    ≡ record (insn Op.choice) { a = pos 3 }
      ∷ record (insn Op.char) { a = pos 97 }
      ∷ record (insn Op.commit) { a = pos 3 }
      ∷ insn Op.end
      ∷ []
unfolding finish build patch_all emit_op_u8 emit_line mark label patch predecode scan_loop Op.op_of
    Op.code Op.size translate_all translate is_target operands index_of_int
finish_optional = refl

finish-build_example :
    finish made
    ≡ some (record {
      insns = 2 ∷ 0 ∷ 10 ∷ 0 ∷ 0 ∷ 97 ∷ 4 ∷ 0 ∷ 10 ∷ 0 ∷ 19 ∷ 0 ∷ [];
      sets = [];
      errors = [];
      prog =
          record (insn Op.choice) { a = pos 3 }
          ∷ record (insn Op.char) { a = pos 97 }
          ∷ record (insn Op.commit) { a = pos 3 }
          ∷ insn Op.end
          ∷ [];
    })
unfolding build IsLine shape offset emit_line mark label emit_op_u8 plan AtLabel layouts meaning
    Op.code layout
finish-build_example =
    finish-build optional_a made (refl, ((refl, omega arith), (refl, tt))) refl
      (omega arith, (tt, (omega arith, (tt, tt)))) (omega arith)

abbrev greeting : List ℕ
greeting = 104 ∷ 105 ∷ []

-- a builder that has the message already
abbrev greeted : Prog
greeted = record new { errors = greeting ∷ [] }

add_error_lem_example :
    Interned greeted.errors greeting (greeting ∷ []) 0
    × (get_elem? (greeting ∷ []) 0 ≡ some greeting)
    × (greeted ≡ record greeted { errors = greeting ∷ [] })
unfolding add_error find_error same_bytes
add_error_lem_example = add_error_lem greeted greeting

emit_lem_example :
    IsLine (line_of new (Emit.error greeting))
    × Emitted
        (prepared new (Emit.error greeting))
        (line_of new (Emit.error greeting))
        (emit_op_u24 (add_error new greeting).0 Op.error (add_error new greeting).1).0
    × (0 ≡ here new)
    × TablesAfter new
        (Emit.error greeting)
        (emit_op_u24 (add_error new greeting).0 Op.error (add_error new greeting).1).0
unfolding Emit.emit emit_op_u24 add_error find_error
emit_lem_example =
    emit_lem new _ (Emit.error greeting) 0 tt (omega arith) (omega arith) (omega arith) refl
