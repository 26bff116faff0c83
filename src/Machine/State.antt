-- ===== src/Machine/State.antt =====
-- The state of `vm_exec` in src/vm.c, and what its instructions share. `none` is an abort, or undefined
-- behaviour that the source does not check for. Dropping the last reference destroys a capture, which
-- is memory release and not modelled.
use libpeg.Prelude.{
  ℕ, ◌+◌, ◌-◌, ◌%◌, Bool, false, not, List, [], ◌∷◌, Option, none, some, ◌>>=◌, ◌==◌, if◌then◌else◌,
}
use libpeg.Prelude.Int.{ℤ, pos, negsuc, ltb_ℤ}
use libpeg.Input
use libpeg.Input.{Input, position}
use libpeg.Code.Insn.{Insn}
use libpeg.Memo.Heap.{Heap}
use libpeg.Machine.{VmError}
use libpeg.Machine.Stack
use libpeg.Machine.Stack.{Stack, Entry, Kind}

-- The checkers are functions of the embedder: of the match, the subject, the id and the flag.
abbrev pub Checker : Type 0
Checker = List ℕ → List ℕ → ℤ → ℤ → ℤ

-- What one run is given. `table` is false where the memo table is NULL.
pub record Run : Type 0 where
  pub prog : List Insn
  pub errors : List (List ℕ)
  pub checkers : List (Option Checker)
  pub table : Bool
  pub window_low : ℤ
  pub window_high : ℤ

abbrev pub windowed : Run → Bool
windowed r = not (ltb_ℤ r.window_low (pos 0))

pub record State : Type 0 where
  pub ip : ℕ
  pub input : Input
  pub stack : Stack
  pub heap : Heap
  pub low : ℤ
  pub high : ℤ
  pub errs : List VmError

-- Where an instruction leads: back to the loop, to the label `fail`, or to the label `done`.
pub data Outcome : Type 0 where
  loop fail : State → Outcome
  done : Bool → State → Outcome

-- `vm_input_pos(src)`
abbrev pub at : State → ℤ
at s = pos (position s.input)

-- `ip++`
abbrev pub next : State → Option Outcome
next s = some (loop (record s { ip = s.ip + 1 }))

-- `ip = (size_t)a`
abbrev pub goto : ℤ → State → Option Outcome
goto (pos a) s = some (loop (record s { ip = a }))
goto (negsuc a) s = none

-- `input_seek_to(src, a)`
abbrev pub seek : ℤ → State → Option State
seek (pos a) s = some (record s { input = Input.seek_to s.input a })
seek (negsuc a) s = none

-- `input_advance(src, a)`
abbrev pub advance_by : ℤ → State → Option (State × Bool)
advance_by (pos a) s = let (i, ok) = Input.advance s.input a in some (record s { input = i }, ok)
advance_by (negsuc a) s = none

-- `(uint8_t)a`
abbrev pub byte_of : ℤ → ℕ
byte_of (pos a) = a % 256
byte_of (negsuc a) = 255 - a % 256

-- `input_peek(src, &b)`, and whether there is a byte and it passes
abbrev pub passes : (ℕ → Bool) → Option ℕ → Bool
passes test none = false
passes test (some b) = test b

unfoldable pub peek_test : (ℕ → Bool) → State → State × Bool
peek_test test s = let (i, b) = Input.peek s.input in (record s { input = i }, passes test b)

-- `input_advance(src, 1)`, its result unused
abbrev pub consume : State → State
consume s = record s { input = (Input.advance s.input 1).0 }

abbrev pub push : Kind → State → State
push k s = record s { stack = Stack.push k s.stack }

-- the references that a list of captures held
unfoldable pub unref_all : List ℕ → (ℕ → ℕ) → ℕ → ℕ
unref_all [] refs c = refs c
unref_all (d ∷ ds) refs c = unref_all ds refs c - (if c == d then 1 else 0)

unfoldable pub release : List ℕ → State → State
unfolding unref_all
release cs s = record s { stack = record s.stack { refs = unref_all cs s.stack.refs } }

-- `stack_pop`
abbrev pub pop : Bool → State → Option (State × Entry)
pop propagate s = do (st, e) ← Stack.stack_pop s.stack propagate; some (record s { stack = st }, e)

-- `stack_pop` with `entry_clear_capt` and `free` of what was popped
abbrev pub drop_top : Bool → State → Option (State × Kind)
drop_top propagate s = do (s', e) ← pop propagate s; some (release e.capts s', e.kind)

abbrev pub add_capts : List ℕ → State → State
add_capts cs s = record s { stack = Stack.stack_add_capt s.stack cs }
