-- ===== src/Code/Decode.antt =====
-- `vm_predecode` of src/vm_code.c. `none` stands for undefined behaviour that the source does not
-- check for: an opcode out of range, or a jump into the middle of an instruction. A read past the
-- stream, which only a truncated last instruction makes, gives 0.
use libpeg.Prelude.{
  ℕ, zero, suc, ◌+◌, Bool, true, false, Option, none, some, List, [], ◌∷◌, ◌++◌, ◌==◌, ltb,
  if◌then◌else◌, length, get_elem?, get_or,
}
use libpeg.Prelude.Int.{ℤ, pos, negsuc}
use libpeg.Charset.{Charset}
use libpeg.Code.Bytes.{decode_u24, decode_i16}
use libpeg.Code.Insn.{Insn, insn}
use libpeg.Code.Op
use libpeg.Code.Op.{Op}

-- the operands of the instruction at offset `ip`
module _ (bytes : List ℕ) (ip : ℕ) where
  unfoldable pub byte_at : ℕ → ℕ
  byte_at k = get_or bytes (ip + k) 0

  unfoldable pub u24_at : ℕ → ℤ
  unfolding byte_at decode_u24
  u24_at k = pos (decode_u24 (byte_at k) (byte_at (k + 1)) (byte_at (k + 2)))

  unfoldable pub i16_at : ℕ → ℤ
  unfolding byte_at decode_i16
  i16_at k = decode_i16 (byte_at k) (byte_at (k + 1))

-- The operand switch. `&c->sets[i]` is the set at that index.
unfoldable pub operands : List Charset → List ℕ → ℕ → Op → Insn
unfolding byte_at u24_at i16_at
operands sets bs ip Op.char = record (insn Op.char) { a = pos (byte_at bs ip 1) }
operands sets bs ip Op.any = record (insn Op.any) { a = pos (byte_at bs ip 1) }
operands sets bs ip Op.empty = record (insn Op.empty) { a = pos (byte_at bs ip 1) }
operands sets bs ip Op.end = record (insn Op.end) { a = pos (byte_at bs ip 1) }
operands sets bs ip Op.jump = record (insn Op.jump) { a = u24_at bs ip 1 }
operands sets bs ip Op.choice = record (insn Op.choice) { a = u24_at bs ip 1 }
operands sets bs ip Op.call = record (insn Op.call) { a = u24_at bs ip 1 }
operands sets bs ip Op.commit = record (insn Op.commit) { a = u24_at bs ip 1 }
operands sets bs ip Op.partial_commit = record (insn Op.partial_commit) { a = u24_at bs ip 1 }
operands sets bs ip Op.back_commit = record (insn Op.back_commit) { a = u24_at bs ip 1 }
operands sets bs ip Op.error = record (insn Op.error) { a = u24_at bs ip 1 }
operands sets bs ip Op.check_end = record (insn Op.check_end) { a = u24_at bs ip 1 }
operands sets bs ip Op.set = record (insn Op.set) { set = get_elem? sets (byte_at bs ip 1) }
operands sets bs ip Op.span = record (insn Op.span) { set = get_elem? sets (byte_at bs ip 1) }
operands sets bs ip Op.test_char = record (insn Op.test_char) {
  b = pos (byte_at bs ip 2);
  a = u24_at bs ip 3;
}
operands sets bs ip Op.test_char_nochoice = record (insn Op.test_char_nochoice) {
  b = pos (byte_at bs ip 2);
  a = u24_at bs ip 3;
}
operands sets bs ip Op.test_any = record (insn Op.test_any) {
  b = pos (byte_at bs ip 2);
  a = u24_at bs ip 3;
}
operands sets bs ip Op.test_set = record (insn Op.test_set) {
  set = get_elem? sets (byte_at bs ip 2);
  a = u24_at bs ip 3;
}
operands sets bs ip Op.test_set_nochoice = record (insn Op.test_set_nochoice) {
  set = get_elem? sets (byte_at bs ip 2);
  a = u24_at bs ip 3;
}
operands sets bs ip Op.capture_begin = record (insn Op.capture_begin) { a = i16_at bs ip 2 }
operands sets bs ip Op.memo_tree_close = record (insn Op.memo_tree_close) { a = i16_at bs ip 2 }
operands sets bs ip Op.capture_late = record (insn Op.capture_late) {
  b = pos (byte_at bs ip 1);
  a = i16_at bs ip 2;
}
operands sets bs ip Op.capture_full = record (insn Op.capture_full) {
  b = pos (byte_at bs ip 1);
  a = i16_at bs ip 2;
}
operands sets bs ip Op.check_begin = record (insn Op.check_begin) {
  a = i16_at bs ip 2;
  b = i16_at bs ip 4;
}
operands sets bs ip Op.memo_open = record (insn Op.memo_open) {
  a = u24_at bs ip 1;
  b = i16_at bs ip 4;
}
operands sets bs ip Op.memo_tree_open = record (insn Op.memo_tree_open) {
  a = u24_at bs ip 1;
  b = i16_at bs ip 4;
}
operands sets bs ip op = insn op

-- The first pass: the instructions, and which of them starts at which offset (`idx`).
pub record Scan : Type 0 where
  pub prog : List Insn
  pub idx : List (ℕ × ℕ)

-- `while (ip < len)` on fuel; every round moves `ip` by two at least.
unfoldable pub scan_loop : ℕ → List Charset → List ℕ → ℕ → Scan → Option Scan
scan_loop zero sets bs ip s = none
scan_loop (suc fuel) sets bs ip s =
    let round : Option Scan = elim (Op.op_of (get_or bs ip 0)) [
      | none ↦ none
      | some op ↦ scan_loop fuel sets bs (ip + Op.size op) (record {
        prog = s.prog ++ (operands sets bs ip op ∷ []);
        idx = (ip, length s.prog) ∷ s.idx;
      })
    ] in
    if ltb ip (length bs) then round else some s

-- `idx[off]`; `none` where the first pass wrote nothing
unfoldable pub index_of : List (ℕ × ℕ) → ℕ → Option ℕ
index_of [] off = none
index_of ((o, n) ∷ idx) off = if o == off then some n else index_of idx off

-- The opcodes whose primary operand is a jump target.
unfoldable pub is_target : Op → Bool
is_target Op.jump = true
is_target Op.choice = true
is_target Op.call = true
is_target Op.commit = true
is_target Op.partial_commit = true
is_target Op.back_commit = true
is_target Op.test_char = true
is_target Op.test_char_nochoice = true
is_target Op.test_set = true
is_target Op.test_set_nochoice = true
is_target Op.test_any = true
is_target Op.memo_open = true
is_target Op.memo_tree_open = true
is_target op = false

-- `idx[a]` for an offset that `decode_u24` gave
unfoldable pub index_of_int : List (ℕ × ℕ) → ℤ → Option ℕ
unfolding index_of
index_of_int idx (pos off) = index_of idx off
index_of_int idx (negsuc _) = none

unfoldable pub translate : List (ℕ × ℕ) → Insn → Option Insn
translate idx i =
    if is_target i.op
    then elim (index_of_int idx i.a) [ none ↦ none | some n ↦ some (record i { a = pos n }) ]
    else some i

-- The second pass.
unfoldable pub translate_all : List (ℕ × ℕ) → List Insn → Option (List Insn)
translate_all idx [] = some []
translate_all idx (i ∷ is) = elim (translate idx i) [
  | none ↦ none
  | some j ↦ elim (translate_all idx is) [ none ↦ none | some js ↦ some (j ∷ js) ]
]

unfoldable pub predecode : List Charset → List ℕ → Option (List Insn)
predecode sets bs = elim (scan_loop (length bs + 1) sets bs 0 (record { prog = []; idx = [] })) [
  | none ↦ none
  | some s ↦ translate_all ((length bs, length s.prog) ∷ s.idx) s.prog
]
