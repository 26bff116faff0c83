-- ===== src/Code/Op.antt =====
-- The opcodes of include/peg/vm.h (`enum vm_op`) and their encoded sizes (`op_sizes` of
-- src/vm_code.c). The byte of an opcode is its place in the enumeration.
use libpeg.Prelude.{ℕ, ◌≡◌, refl, Option, some, [], ◌∷◌, get_elem?}

pub data Op : Type 0 where
  char jump choice call commit return fail set any partial_commit span back_commit : Op
  fail_twice empty test_char test_char_nochoice test_set test_set_nochoice test_any end : Op
  nop capture_begin capture_late capture_end capture_full check_begin check_end memo_open : Op
  memo_close memo_tree_open memo_tree_insert memo_tree memo_tree_close error : Op

unfoldable pub code : Op → ℕ
code char = 0
code jump = 1
code choice = 2
code call = 3
code commit = 4
code return = 5
code fail = 6
code set = 7
code any = 8
code partial_commit = 9
code span = 10
code back_commit = 11
code fail_twice = 12
code empty = 13
code test_char = 14
code test_char_nochoice = 15
code test_set = 16
code test_set_nochoice = 17
code test_any = 18
code end = 19
code nop = 20
code capture_begin = 21
code capture_late = 22
code capture_end = 23
code capture_full = 24
code check_begin = 25
code check_end = 26
code memo_open = 27
code memo_close = 28
code memo_tree_open = 29
code memo_tree_insert = 30
code memo_tree = 31
code memo_tree_close = 32
code error = 33

-- `op_sizes[op]`: opcode, padding and operands, in bytes
unfoldable pub size : Op → ℕ
size char = 2
size jump = 4
size choice = 4
size call = 4
size commit = 4
size return = 2
size fail = 2
size set = 2
size any = 2
size partial_commit = 4
size span = 2
size back_commit = 4
size fail_twice = 2
size empty = 2
size test_char = 6
size test_char_nochoice = 6
size test_set = 6
size test_set_nochoice = 6
size test_any = 6
size end = 2
size nop = 2
size capture_begin = 4
size capture_late = 4
size capture_end = 2
size capture_full = 4
size check_begin = 6
size check_end = 4
size memo_open = 6
size memo_close = 2
size memo_tree_open = 6
size memo_tree_insert = 2
size memo_tree = 2
size memo_tree_close = 4
size error = 4

-- The opcode of a byte; `none` from VM_NUM_OPS on, where `op_sizes[op]` is out of bounds.
unfoldable pub op_of : ℕ → Option Op
op_of n =
    get_elem?
      (char ∷ jump ∷ choice ∷ call ∷ commit ∷ return ∷ fail ∷ set ∷ any ∷ partial_commit ∷ span
        ∷ back_commit ∷ fail_twice ∷ empty ∷ test_char ∷ test_char_nochoice ∷ test_set
        ∷ test_set_nochoice ∷ test_any ∷ end ∷ nop ∷ capture_begin ∷ capture_late ∷ capture_end
        ∷ capture_full ∷ check_begin ∷ check_end ∷ memo_open ∷ memo_close ∷ memo_tree_open
        ∷ memo_tree_insert ∷ memo_tree ∷ memo_tree_close ∷ error ∷ [])
      n

pub op_of-code : (o : Op) → op_of (code o) ≡ some o
unfolding op_of code
op_of-code char = refl
op_of-code jump = refl
op_of-code choice = refl
op_of-code call = refl
op_of-code commit = refl
op_of-code return = refl
op_of-code fail = refl
op_of-code set = refl
op_of-code any = refl
op_of-code partial_commit = refl
op_of-code span = refl
op_of-code back_commit = refl
op_of-code fail_twice = refl
op_of-code empty = refl
op_of-code test_char = refl
op_of-code test_char_nochoice = refl
op_of-code test_set = refl
op_of-code test_set_nochoice = refl
op_of-code test_any = refl
op_of-code end = refl
op_of-code nop = refl
op_of-code capture_begin = refl
op_of-code capture_late = refl
op_of-code capture_end = refl
op_of-code capture_full = refl
op_of-code check_begin = refl
op_of-code check_end = refl
op_of-code memo_open = refl
op_of-code memo_close = refl
op_of-code memo_tree_open = refl
op_of-code memo_tree_insert = refl
op_of-code memo_tree = refl
op_of-code memo_tree_close = refl
op_of-code error = refl
