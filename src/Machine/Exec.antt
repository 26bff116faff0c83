-- ===== src/Machine/Exec.antt =====
-- `vm_exec` of src/vm.c: the dispatch, the unwinding after a failure, and the result.
use libpeg.Prelude.{
  ℕ, zero, suc, ◌+◌, ◌-◌, Bool, true, false, not, ◌&&◌, List, [], ◌∷◌, length, take, drop, Option,
  none, some, ◌>>=◌, get_elem?, if◌then◌else◌, ltb,
}
use libpeg.Prelude.Int.{ℤ, pos, negsuc, pos_part, ltb_ℤ, ◌-ℤ◌}
use libpeg.Input
use libpeg.Code.Op.{Op}
use libpeg.Code.Insn.{Insn}
use libpeg.Memo.Heap.{Heap, capture_dummy, add_children}
use libpeg.Memo.Table
use libpeg.Machine.{VmError, errlist_add}
use libpeg.Machine.Stack.{btrack, memo, check}
use libpeg.Machine.State.{
  Checker, Run, windowed, State, Outcome, loop, fail, done, at, next, seek, advance_by, push, pop,
  drop_top, release, unref_all,
}
use libpeg.Machine.Match.{exec_match}
use libpeg.Machine.Control.{exec_control}
use libpeg.Machine.Capturing.{exec_capture}
use libpeg.Machine.Memoize.{memoize, exec_memo}

-- the checker of an index; `none` if there is none, or it is NULL
abbrev pub checker_at : List (Option Checker) → ℕ → Option Checker
checker_at cs i = elim (get_elem? cs i) [ none ↦ none | some f ↦ f ]

-- what follows the call of a checker that returned `n`
abbrev checked : ℤ → State → Option Outcome
checked (negsuc n) s = some (fail s)
checked (pos n) s = elim (ltb (length s.input.bytes) (Input.position s.input + n)) [
  | true ↦ some (fail s)
  | false ↦ do (s', _) ← advance_by (pos n) s; next s'
]

-- VM_CHECK_END
unfoldable pub check_end : Run → ℤ → State → Option Outcome
check_end r a s = do
  (s', k) ← drop_top true s
  elim k [
    | check id start flag ↦ elim (checker_at r.checkers (pos_part a)) [
      | none ↦ next s'
      | some f ↦
          let from = pos_part start in
          let match = take (Input.position s'.input - from) (drop from s'.input.bytes) in
          checked (f match s'.input.bytes id flag) s'
    ]
    | _ ↦ none
  ]

-- the message of an index; an index past the table has the empty one
abbrev message_at : List (List ℕ) → ℕ → List ℕ
message_at es i = elim (get_elem? es i) [ none ↦ [] | some m ↦ m ]

unfoldable pub exec_check : Run → Insn → State → Option Outcome
unfolding check_end errlist_add
exec_check r i s = elim i.op [
  | Op.check_begin ↦ next (push (check i.a (at s) i.b) s)
  | Op.check_end ↦ check_end r i.a s
  | Op.error ↦
      next (record s { errs = errlist_add s.errs (at s) (message_at r.errors (pos_part i.a)) })
  | _ ↦ none
]

-- which of the parts of the dispatch an opcode belongs to
pub data Group : Type 0 where
  matching control capturing memoizing checking invalid : Group

abbrev pub group_of : Op → Group
group_of Op.char = matching
group_of Op.set = matching
group_of Op.any = matching
group_of Op.span = matching
group_of Op.empty = matching
group_of Op.test_char = matching
group_of Op.test_char_nochoice = matching
group_of Op.test_set = matching
group_of Op.test_set_nochoice = matching
group_of Op.test_any = matching
group_of Op.capture_begin = capturing
group_of Op.capture_late = capturing
group_of Op.capture_full = capturing
group_of Op.capture_end = capturing
group_of Op.memo_open = memoizing
group_of Op.memo_close = memoizing
group_of Op.memo_tree_open = memoizing
group_of Op.memo_tree_insert = memoizing
group_of Op.memo_tree = memoizing
group_of Op.memo_tree_close = memoizing
group_of Op.check_begin = checking
group_of Op.check_end = checking
group_of Op.error = checking
group_of Op.nop = invalid
group_of op = control

-- the `switch`
unfoldable pub exec : Run → Insn → State → Option Outcome
unfolding exec_match exec_control exec_capture exec_memo exec_check
exec r i s = elim (group_of i.op) [
  | matching ↦ exec_match i s
  | control ↦ exec_control i s
  | capturing ↦ exec_capture r i s
  | memoizing ↦ exec_memo r i s
  | checking ↦ exec_check r i s
  | invalid ↦ none
]

-- The loop after the label `fail`, on the height of the stack. `none` in the result: the stack is
-- empty, and the run has failed.
unfoldable pub unwind : ℕ → Run → State → Option (State × Bool)
unwind zero r s = some (s, false)
unwind (suc fuel) r s = elim (pop false s) [
  | none ↦ some (s, false)
  | some (s', e) ↦ elim e.kind [
    | btrack back off ↦ (do
      s'' ← seek off (release e.capts s')
      elim back [ pos ip ↦ some (record s'' { ip = ip }, true) | negsuc _ ↦ none ])
    | memo id start ↦ (do s'' ← memoize r id start (negsuc 0) (pos 0) e.capts s'; unwind fuel r s'')
    | _ ↦ unwind fuel r (release e.capts s')
  ]
]

-- Where a run stops: `success` and `failed` of the source.
pub data Stop : Type 0 where
  ended : Bool → Stop
  failed : Stop

-- one round of the loop: the next state, and where the run stops if it does
unfoldable pub step : Run → State → Option (State × Option Stop)
unfolding exec unwind
step r s = do
  i ← get_elem? r.prog s.ip
  o ← exec r i s
  elim o [
    | loop s' ↦ some (s', none)
    | done ok s' ↦ some (s', some (ended ok))
    | fail s' ↦ do
      (s'', back) ← unwind (length s'.stack.entries) r s'
      some (s'', if back then none else some failed)
  ]

-- the loop, on fuel; `none` if it runs out
unfoldable pub run_loop : ℕ → Run → State → Option (State × Stop)
unfolding step
run_loop zero r s = none
run_loop (suc fuel) r s = do
  (s', stop) ← step r s
  elim stop [ none ↦ run_loop fuel r s' | some st ↦ some (s', st) ]

-- `vm_result`; the captures are NULL after a failure
pub record VmResult : Type 0 where
  pub success : Bool
  pub pos : ℤ
  pub captures : Option ℕ
  pub errors : List VmError

-- the label `done`
unfoldable pub result : Run → State → Stop → Option (Heap × VmResult)
unfolding capture_dummy add_children
result r s failed =
    some (s.heap, record { success = false; pos = at s; captures = none; errors = s.errs })
result r s (ended ok) = do
  let (h, c) =
      if windowed r
      then capture_dummy s.heap s.low (s.high -ℤ s.low)
      else capture_dummy s.heap (pos 0) (at s)
  h' ← add_children h c s.stack.capts
  some (h', record { success = ok; pos = at s; captures = some c; errors = s.errs })

-- the state in which a run starts
abbrev pub start : Heap → (ℕ → ℕ) → List ℕ → State
start h refs bytes = record {
  ip = 0;
  input = Input.new bytes;
  stack = record { entries = []; capts = []; refs = refs };
  heap = h;
  low = pos 0;
  high = pos 0;
  errs = [];
}

-- the edit that clears a window that is not empty, and the captures whose references it drops
abbrev clear_window : Run → Heap → Option (Heap × List ℕ)
clear_window r h = elim (windowed r && ltb_ℤ r.window_low r.window_high) [
  | true ↦ Table.apply_edit h r.window_low r.window_high (r.window_high -ℤ r.window_low)
  | false ↦ some (h, [])
]

-- `vm_exec`, with the reference counts `refs` of the captures in the heap
unfoldable pub vm_exec : ℕ → Run → Heap → (ℕ → ℕ) → List ℕ → Option (Heap × VmResult)
unfolding run_loop result
vm_exec fuel r h refs bytes = elim (windowed r && not r.table) [
  | true ↦ none
  | false ↦ elim r.prog [
    | [] ↦
        let (h', c) = capture_dummy h (pos 0) (pos 0) in
        some (h', record { success = true; pos = pos 0; captures = some c; errors = [] })
    | _ ∷ _ ↦ do
      (h', dropped) ← clear_window r h
      (s, stop) ← run_loop fuel r (start h' (unref_all dropped refs) bytes)
      result r s stop
  ]
]
