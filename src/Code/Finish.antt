-- ===== src/Code/Finish.antt =====
-- `vm_prog_finish` of src/vm_code.c. `none` is its abort on a target past 24 bits, or undefined
-- behaviour that is not checked for: a label that was never made, and those of `Code.Decode`.
use libpeg.Prelude.{ℕ, ◌+◌, Option, none, some, List, [], ◌∷◌, ltb, if◌then◌else◌, get_elem?}
use libpeg.Prelude.{set as set_at}
use libpeg.Code.Bytes.{u24}
use libpeg.Code.Op.{Op}
use libpeg.Code.Insn.{Code}
use libpeg.Code.Builder.{Fixup, Prog, emit_op_u8}
use libpeg.Code.Decode.{predecode}

-- `w[0] = …; w[1] = …; w[2] = …;` at an offset
unfoldable pub overwrite : List ℕ → ℕ → List ℕ → List ℕ
overwrite code at [] = code
overwrite code at (b ∷ bs) = overwrite (set_at code at b) (at + 1) bs

-- One round of the backpatching loop.
unfoldable pub patch : List ℕ → Fixup → List ℕ → Option (List ℕ)
unfolding overwrite u24
patch labels f code = elim (get_elem? labels f.label) [
  | none ↦ none
  | some off ↦ if ltb 0xffffff off then none else some (overwrite code f.at (u24 off))
]

unfoldable pub patch_all : List ℕ → List Fixup → List ℕ → Option (List ℕ)
patch_all labels [] code = some code
patch_all labels (f ∷ fs) code = elim (patch labels f code) [
  | none ↦ none
  | some code' ↦ patch_all labels fs code'
]

-- The arrays of the builder move into the program.
unfoldable pub finish : Prog → Option Code
finish p =
    let q = (emit_op_u8 p Op.end 0).0 in
    elim (patch_all q.labels q.fixups q.code) [
      | none ↦ none
      | some bytes ↦ elim (predecode q.sets bytes) [
        | none ↦ none
        | some prog ↦ some (record { insns = bytes; sets = q.sets; errors = q.errors; prog = prog })
      ]
    ]
