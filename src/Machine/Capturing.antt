-- ===== src/Machine/Capturing.antt =====
-- The instructions of `vm_exec` that make captures.
use libpeg.Prelude.{
  ℕ, Bool, true, false, not, ◌||◌, List, [], ◌∷◌, Option, none, some, ◌>>=◌, if◌then◌else◌,
}
use libpeg.Prelude.Int.{ℤ, ltb_ℤ, ◌-ℤ◌}
use libpeg.Code.Op
use libpeg.Code.Insn.{Insn}
use libpeg.Memo.Heap.{capture_node, add_children}
use libpeg.Machine.{overlaps}
use libpeg.Machine.Stack.{capt, ref_all}
use libpeg.Machine.State.{Run, windowed, State, Outcome, at, next, push, pop, release, add_capts}

-- `imin`
abbrev imin : ℤ → ℤ → ℤ
imin a b = if ltb_ℤ a b then a else b

-- `imax`
abbrev imax : ℤ → ℤ → ℤ
imax a b = if ltb_ℤ a b then b else a

-- whether a capture of this extent is built
abbrev pub wanted : Run → ℤ → ℤ → Bool
wanted r low high = not (windowed r) || overlaps r.window_low r.window_high low high

-- the extent of the captures of a windowed run
abbrev widen : Run → ℤ → ℤ → State → State
widen r low high s =
    if windowed r then record s { low = imin s.low low; high = imax s.high high } else s

-- references to captures, as `memo_capture_ref` counts them
abbrev pub add_refs : List ℕ → State → State
add_refs cs s = record s { stack = record s.stack { refs = ref_all cs s.stack.refs } }

-- A new capture over `kids`, added to the stack: the creator's reference is taken and dropped again,
-- and the capture holds one for each child.
unfoldable pub emit_node : ℤ → ℤ → ℤ → List ℕ → State → Option State
unfolding capture_node add_children
emit_node id start len kids s = do
  let (h, c) = capture_node s.heap id start len
  h' ← add_children h c kids
  some (
      release (c ∷ [])
        (add_capts (c ∷ []) (add_refs kids (add_refs (c ∷ []) (record s { heap = h' })))))

-- VM_CAPTURE_FULL
unfoldable pub capture_full : Run → ℤ → ℤ → State → Option Outcome
unfolding emit_node
capture_full r id back s = elim (wanted r (at s -ℤ back) (at s)) [
  | true ↦ do s' ← emit_node id (at s -ℤ back) back [] (widen r (at s -ℤ back) (at s) s); next s'
  | false ↦ next s
]

-- VM_CAPTURE_END
unfoldable pub capture_end : Run → State → Option Outcome
unfolding emit_node
capture_end r s = do
  (s', e) ← pop false s
  elim e.kind [
    | capt id start ↦ elim (wanted r start (at s')) [
      | true ↦ do
        s'' ← emit_node id start (at s' -ℤ start) e.capts (widen r start (at s') s')
        next (release e.capts s'')
      | false ↦ next (release e.capts s')
    ]
    | _ ↦ none
  ]

unfoldable pub exec_capture : Run → Insn → State → Option Outcome
unfolding capture_full capture_end
exec_capture r i s = elim i.op [
  | Op.capture_begin ↦ next (push (capt i.a (at s)) s)
  | Op.capture_late ↦ next (push (capt i.a (at s -ℤ i.b)) s)
  | Op.capture_full ↦ capture_full r i.a i.b s
  | Op.capture_end ↦ capture_end r s
  | _ ↦ none
]
