-- ===== src/Machine/Tests.antt =====
-- Small states of the machine.
use libpeg.Prelude.Int.{pos, negsuc}
use libpeg.Input
use libpeg.Input.Inv.{new-IsInput}
use libpeg.Memo.Heap
use libpeg.Machine.State.{Run, State}
use libpeg.Machine.Exec.{unwind, start}
use libpeg.Machine.Runs.{At}
use libpeg.Machine.Effects.{Reads-advance}
use libpeg.Machine.Unwound.{unwind-At}
use libpeg.Machine.Stack.{
  Entry, Stack, btrack, ret, capt, stack_add_capt, stack_prop_capt, stack_pop,
}
use libpeg.Machine.Ownership.{times, times_on, stack_lem}
use libpeg.Prelude.{
  Bool, List, [], ◌∷◌, ◌==◌, if◌then◌else◌, ◌+◌, ◌≡◌, refl, true, false, none, some,
}
use libpeg.Machine.{is_word_byte, is_newline, combine, empty_op_context}
use libpeg.Machine.Context.{flag, empty_op_context_lem}

begin_of_word : empty_op_context none (some b'a') ≡ 21
unfolding is_word_byte is_newline combine empty_op_context
begin_of_word = refl

empty_op_context_lem_example :
    let op = empty_op_context none (some b'a') in
    (flag op 0 ≡ true)
    × (flag op 1 ≡ false)
    × (flag op 2 ≡ true)
    × (flag op 3 ≡ false)
    × (flag op 4 ≡ true)
    × (flag op 5 ≡ false)
unfolding is_word_byte is_newline
empty_op_context_lem_example = empty_op_context_lem none (some b'a')

-- two entries: a backtrack point with the captures 7 and 8 over a return with 7
abbrev stack : Stack
stack = record {
  entries =
      record { kind = btrack (pos 3) (pos 0); capts = 7 ∷ 8 ∷ [] }
      ∷ record { kind = ret (pos 1); capts = 7 ∷ [] }
      ∷ [];
  capts = [];
  refs = λ c. if c == 7 then 2 else 1;
}

stack_lem_example :
    let t = stack_add_capt stack (7 ∷ []) in
    let u = stack_prop_capt stack in
    (t.refs 7 + times_on 7 stack ≡ stack.refs 7 + times_on 7 t)
    × (u.refs 7 + times_on 7 stack ≡ stack.refs 7 + times_on 7 u)
    × ((e : Entry) (es : List Entry) (p : Bool)
        → (v : Stack) × (stack_pop (record stack { entries = e ∷ es }) p ≡ some (v, e))
          × (v.refs 7 + times_on 7 (record stack { entries = e ∷ es })
              ≡ stack.refs 7 + (times_on 7 v + times 7 e.capts)))
stack_lem_example = stack_lem stack (7 ∷ []) 7

-- a failure at 2 of "abc", in a capture over a choice at 0
abbrev lost : State
lost = record (start (Heap.new (pos 0)) (λ c. 0) (97 ∷ 98 ∷ 99 ∷ [])) {
  input = (Input.advance (Input.new (97 ∷ 98 ∷ 99 ∷ [])) 2).0;
  stack = record {
    entries =
        record { kind = capt (pos 5) (pos 1); capts = [] }
        ∷ record { kind = btrack (pos 3) (pos 0); capts = [] }
        ∷ record { kind = ret (pos 1); capts = [] }
        ∷ [];
    capts = [];
    refs = λ c. 0;
  };
}

abbrev any_run : Run
any_run = record {
  prog = [];
  errors = [];
  checkers = [];
  table = true;
  window_low = negsuc 0;
  window_high = pos 0;
}

unwind-At_example :
    (s' : State) × (unwind 3 any_run lost ≡ some (s', true))
    × At (97 ∷ 98 ∷ 99 ∷ []) s' 3 0 (ret (pos 1) ∷ [])
    × (s'.heap ≡ lost.heap)
unfolding Input.new
unwind-At_example =
    unwind-At (97 ∷ 98 ∷ 99 ∷ []) any_run lost (capt (pos 5) (pos 1) ∷ []) (ret (pos 1) ∷ []) 3 0 2
      tt refl
      (Reads-advance (Input.new (97 ∷ 98 ∷ 99 ∷ [])) 2
        (record { valid = new-IsInput (97 ∷ 98 ∷ 99 ∷ []); subject = refl; position = refl }))
