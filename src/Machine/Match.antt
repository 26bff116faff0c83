-- ===== src/Machine/Match.antt =====
-- The instructions of `vm_exec` that read the subject.
use libpeg.Prelude.{
  ℕ, zero, suc, Bool, true, false, List, Option, none, some, ◌>>=◌, ◌==◌, if◌then◌else◌, get_elem?,
}
use Prim.Native.Nat.{bit_and}
use libpeg.Prelude.Int.{ℤ, pos_part}
use libpeg.Charset
use libpeg.Charset.{Charset}
use libpeg.Input
use libpeg.Code.Op
use libpeg.Code.Insn.{Insn}
use libpeg.Machine.{empty_op_context}
use libpeg.Machine.Stack.{btrack}
use libpeg.Machine.State.{
  State, Outcome, fail, at, next, goto, seek, advance_by, byte_of, peek_test, consume, push,
}

-- VM_CHAR, VM_SET: a byte that passes is consumed
unfoldable pub match_byte : (ℕ → Bool) → State → Option Outcome
unfolding peek_test
match_byte test s =
    let (s', ok) = peek_test test s in if ok then next (consume s') else some (fail s')

-- VM_TEST_CHAR, VM_TEST_SET: the choice is pushed before the byte is consumed
unfoldable pub test_byte : (ℕ → Bool) → ℤ → State → Option Outcome
unfolding peek_test
test_byte test a s =
    let (s', ok) = peek_test test s in
    if ok then next (consume (push (btrack a (at s')) s')) else goto a s'

-- VM_TEST_CHAR_NOCHOICE, VM_TEST_SET_NOCHOICE
unfoldable pub test_byte_nochoice : (ℕ → Bool) → ℤ → State → Option Outcome
unfolding peek_test
test_byte_nochoice test a s =
    let (s', ok) = peek_test test s in if ok then next (consume s') else goto a s'

-- VM_ANY
unfoldable pub match_any : ℤ → State → Option Outcome
match_any n s = do (s', ok) ← advance_by n s; if ok then next s' else some (fail s')

-- VM_TEST_ANY
unfoldable pub test_any : ℤ → ℤ → State → Option Outcome
test_any n a s = do
  (s', ok) ← advance_by n s
  elim ok [ true ↦ next (push (btrack a (at s)) s') | false ↦ do s'' ← seek (at s) s'; goto a s'' ]

-- VM_SPAN
unfoldable pub match_span : Charset → State → Option Outcome
match_span set s = do i ← Input.span s.input set; next (record s { input = i })

-- the byte before the position and the byte at it
abbrev pub byte_before : List ℕ → ℕ → Option ℕ
byte_before bytes zero = none
byte_before bytes (suc p) = get_elem? bytes p

-- VM_EMPTY. The operand is a byte.
unfoldable pub match_empty : ℤ → State → Option Outcome
unfolding empty_op_context
match_empty a s =
    let p = Input.position s.input in
    let op = empty_op_context (byte_before s.input.bytes p) (get_elem? s.input.bytes p) in
    if bit_and op (pos_part a) == 0 then some (fail s) else next s

abbrev in_set : Option Charset → (Charset → Option Outcome) → Option Outcome
in_set none f = none
in_set (some set) f = f set

-- Each opcode of this group, and `none` for the others.
unfoldable pub exec_match : Insn → State → Option Outcome
unfolding match_byte test_byte test_byte_nochoice match_any test_any match_span match_empty
exec_match i s = elim i.op [
  | Op.char ↦ match_byte (λ b. b == byte_of i.a) s
  | Op.set ↦ in_set i.set (λ set. match_byte (Charset.has set) s)
  | Op.any ↦ match_any i.a s
  | Op.span ↦ in_set i.set (λ set. match_span set s)
  | Op.empty ↦ match_empty i.a s
  | Op.test_char ↦ test_byte (λ b. b == byte_of i.b) i.a s
  | Op.test_char_nochoice ↦ test_byte_nochoice (λ b. b == byte_of i.b) i.a s
  | Op.test_set ↦ in_set i.set (λ set. test_byte (Charset.has set) i.a s)
  | Op.test_set_nochoice ↦ in_set i.set (λ set. test_byte_nochoice (Charset.has set) i.a s)
  | Op.test_any ↦ test_any i.b i.a s
  | _ ↦ none
]
