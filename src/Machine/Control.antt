-- ===== src/Machine/Control.antt =====
-- The instructions of `vm_exec` that move the instruction pointer and the backtrack stack.
use libpeg.Prelude.{◌+◌, true, false, not, [], ◌∷◌, Option, none, some, ◌>>=◌}
use libpeg.Prelude.Int.{ℤ, pos}
use libpeg.Code.Op
use libpeg.Code.Insn.{Insn}
use libpeg.Memo.Table.{same_ℤ}
use libpeg.Machine.Stack.{ret, btrack, stack_prop_capt}
use libpeg.Machine.State.{State, Outcome, fail, done, at, next, goto, seek, push, drop_top}

-- VM_COMMIT
unfoldable pub commit : ℤ → State → Option Outcome
commit a s = do (s', _) ← drop_top true s; goto a s'

-- VM_RETURN
unfoldable pub return_from : State → Option Outcome
return_from s = do (s', k) ← drop_top true s; elim k [ ret back ↦ goto back s' | _ ↦ none ]

-- VM_PARTIAL_COMMIT
unfoldable pub partial_commit : ℤ → State → Option Outcome
partial_commit a s = elim s.stack.entries [
  | [] ↦ none
  | e ∷ es ↦ elim e.kind [
    | btrack back off ↦ goto a (record s {
      stack =
          stack_prop_capt
            (record s.stack { entries = record e { kind = btrack back (at s) } ∷ es });
    })
    | _ ↦ none
  ]
]

-- VM_BACK_COMMIT
unfoldable pub back_commit : ℤ → State → Option Outcome
back_commit a s = do
  (s', k) ← drop_top true s
  elim k [ btrack back off ↦ (do s'' ← seek off s'; goto a s'') | _ ↦ none ]

-- VM_FAIL_TWICE: the stack may be empty
unfoldable pub fail_twice : State → Option Outcome
fail_twice s = elim (drop_top false s) [ none ↦ some (fail s) | some (s', _) ↦ some (fail s') ]

unfoldable pub exec_control : Insn → State → Option Outcome
unfolding commit return_from partial_commit back_commit fail_twice
exec_control i s = elim i.op [
  | Op.jump ↦ goto i.a s
  | Op.choice ↦ next (push (btrack i.a (at s)) s)
  | Op.call ↦ goto i.a (push (ret (pos (s.ip + 1))) s)
  | Op.commit ↦ commit i.a s
  | Op.return ↦ return_from s
  | Op.fail ↦ some (fail s)
  | Op.partial_commit ↦ partial_commit i.a s
  | Op.back_commit ↦ back_commit i.a s
  | Op.fail_twice ↦ fail_twice s
  | Op.end ↦ some (done (not (same_ℤ i.a (pos 1))) s)
  | _ ↦ none
]
