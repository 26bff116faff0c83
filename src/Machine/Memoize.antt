-- ===== src/Machine/Memoize.antt =====
-- The instructions of `vm_exec` that use the memo table.
use libpeg.Prelude.{
  ℕ, zero, suc, ◌+◌, max, Bool, true, false, not, ◌||◌, List, [], ◌∷◌, length, Option, none, some,
  ◌>>=◌, get_elem?, if◌then◌else◌,
}
use libpeg.Prelude.Int.{ℤ, pos, negsuc, ltb_ℤ, ◌+ℤ◌, ◌-ℤ◌}
use libpeg.Input
use libpeg.Code.Op
use libpeg.Code.Insn.{Insn}
use libpeg.Memo.Heap.{MemoEntry, capture_dummy, add_children}
use libpeg.Memo.Table
use libpeg.Memo.Table.{same_ℤ}
use libpeg.Machine.Stack.{Entry, Kind, memo, memo_tree}
use libpeg.Machine.State.{
  Run, windowed, State, Outcome, fail, at, next, goto, advance_by, peek_test, push, pop, drop_top,
  release, add_capts,
}
use libpeg.Machine.Capturing.{add_refs}

-- `memoize`, which owns a reference to each of `cs`
unfoldable pub memoize : Run → ℤ → ℤ → ℤ → ℤ → List ℕ → State → Option State
memoize r id start mlen count cs s = elim (not r.table || windowed r) [
  | true ↦ some (release cs s)
  | false ↦ do
    let furthest = max s.input.furthest (Input.position s.input)
    (h, dropped) ← Table.put s.heap id start mlen (pos furthest -ℤ start +ℤ pos 1) count cs
    some (release dropped (record s { heap = h }))
]

-- the entry for an id at the position, if there is a table
unfoldable pub look_up : Run → ℤ → State → Option (State × Option MemoEntry)
look_up r id s =
    let (h, found) = Table.get s.heap id (at s) in
    elim r.table [
      | false ↦ some (s, none)
      | true ↦ elim found [
        | none ↦ some (record s { heap = h }, none)
        | some e ↦ do entry ← get_elem? h.entries e; some (record s { heap = h }, some entry)
      ]
    ]

-- `stack_add_capt` for each
abbrev add_each : List ℕ → State → State
add_each [] s = s
add_each (c ∷ cs) s = add_each cs (add_capts (c ∷ []) s)

-- the entry of a failed match
abbrev is_failure : MemoEntry → Bool
is_failure e = same_ℤ e.length (negsuc 0)

-- VM_MEMO_OPEN
unfoldable pub memo_open : Run → ℤ → ℤ → State → Option Outcome
unfolding look_up
memo_open r id a s = do
  (s', found) ← look_up r id s
  elim found [
    | none ↦ next (push (memo id (at s')) s')
    | some e ↦ elim (is_failure e) [
      | true ↦ some (fail s')
      | false ↦ do (s'', _) ← advance_by e.length (add_each e.captures s'); goto a s''
    ]
  ]

-- VM_MEMO_CLOSE
unfoldable pub memo_close : Run → State → Option Outcome
unfolding memoize
memo_close r s = do
  (s', e) ← pop true s
  elim e.kind [
    | memo id start ↦ (do s'' ← memoize r id start (at s' -ℤ start) (pos 1) e.capts s'; next s'')
    | _ ↦ none
  ]

-- VM_MEMO_TREE_OPEN
unfoldable pub memo_tree_open : Run → ℤ → ℤ → State → Option Outcome
unfolding look_up peek_test
memo_tree_open r id a s = do
  (s', found) ← look_up r id s
  elim found [
    | none ↦ next (push (memo_tree id (at s') (pos 0)) s')
    | some e ↦ elim (is_failure e) [
      | true ↦ some (fail s')
      | false ↦ do
        (s'', _) ←
            advance_by e.length (add_each e.captures (push (memo_tree id (at s') e.count) s'))
        goto a (peek_test (λ b. true) s'').0
    ]
  ]

abbrev is_tree : ℤ → Kind → Bool
is_tree id (memo_tree id' start count) = same_ℤ id' id
is_tree id k = false

abbrev top_is_tree : ℤ → List Entry → Bool
top_is_tree id [] = false
top_is_tree id (e ∷ es) = is_tree id e.kind

-- the loop of VM_MEMO_TREE_CLOSE, on the height of the stack
unfoldable pub close_trees : ℕ → ℤ → State → Option State
close_trees zero id s = some s
close_trees (suc fuel) id s = elim (top_is_tree id s.stack.entries) [
  | false ↦ some s
  | true ↦ do (s', _) ← drop_top true s; close_trees fuel id s'
]

-- VM_MEMO_TREE_INSERT
unfoldable pub memo_tree_insert : Run → State → Option Outcome
unfolding memoize
memo_tree_insert r s = elim s.stack.entries [
  | [] ↦ none
  | e ∷ es ↦ elim e.kind [
    | memo_tree id start count ↦ (do
      let counted = record e { kind = memo_tree id start (count +ℤ pos 1) }
      let s' = record s { stack = record s.stack { entries = counted ∷ es } }
      s'' ← memoize r id start (at s -ℤ start) (count +ℤ pos 1) e.capts (add_refs e.capts s')
      next s'')
    | _ ↦ none
  ]
]

abbrev count_of : Kind → Option ℤ
count_of (memo_tree id start count) = some count
count_of k = none

-- The walk down the stack of VM_MEMO_TREE: how many entries to merge into the next, and their count.
unfoldable pub find_merge : List Entry → ℕ → ℤ → Option (ℕ × ℤ)
find_merge [] seen accum = none
find_merge (t ∷ []) seen accum = none
find_merge (t ∷ n ∷ es) seen accum = do
  top ← count_of t.kind
  below ← count_of n.kind
  let deeper = find_merge (n ∷ es) (seen + 1) (accum +ℤ top)
  if ltb_ℤ (accum +ℤ top) below then deeper else some (seen + 1, accum +ℤ top)

unfoldable pub drop_many : ℕ → State → Option State
drop_many zero s = some s
drop_many (suc k) s = do (s', _) ← drop_top true s; drop_many k s'

-- A dummy over the captures of the last merged entry takes their place on the stack.
unfoldable pub wrap : ℤ → List ℕ → State → Option State
wrap start cs s = do
  let (h, c) = capture_dummy s.heap start (at s -ℤ start)
  h' ← add_children h c cs
  some (
      release (c ∷ []) (
        add_capts (c ∷ []) (release cs (add_refs cs (add_refs (c ∷ []) (record s { heap = h' }))))))

abbrev merge_capts : Run → ℤ → List ℕ → State → Option State
merge_capts r start [] s = some s
merge_capts r start cs s = elim (windowed r) [
  | false ↦ wrap start cs s
  | true ↦ some (release cs (add_capts cs s))
]

-- the merge of `k + 1` entries into the one below them
unfoldable pub merge : Run → ℕ → ℤ → State → Option State
unfolding drop_many wrap memoize
merge r k accum s = do
  s1 ← drop_many k s
  (s2, e) ← pop false s1
  elim e.kind [
    | memo_tree _ start _ ↦ (do
      s3 ← merge_capts r start e.capts s2
      elim s3.stack.entries [
        | [] ↦ none
        | n ∷ ns ↦ elim n.kind [
          | memo_tree id start' count ↦ (do
            let merged = record n { kind = memo_tree id start' (accum +ℤ count) }
            let s4 = record s3 { stack = record s3.stack { entries = merged ∷ ns } }
            memoize r id start' (at s3 -ℤ start') (accum +ℤ count) n.capts (add_refs n.capts s4))
          | _ ↦ none
        ]
      ])
    | _ ↦ none
  ]

-- the outer loop of VM_MEMO_TREE: every merge removes an entry
unfoldable pub merge_loop : ℕ → Run → State → Option State
unfolding find_merge merge
merge_loop zero r s = some s
merge_loop (suc fuel) r s = elim (find_merge s.stack.entries 0 (pos 0)) [
  | none ↦ some s
  | some (seen, accum) ↦ elim seen [
    | zero ↦ none
    | suc k ↦ do s' ← merge r k accum s; merge_loop fuel r s'
  ]
]

unfoldable pub exec_memo : Run → Insn → State → Option Outcome
unfolding memo_open memo_close memo_tree_open memo_tree_insert close_trees merge_loop
exec_memo r i s = elim i.op [
  | Op.memo_open ↦ memo_open r i.b i.a s
  | Op.memo_close ↦ memo_close r s
  | Op.memo_tree_open ↦ memo_tree_open r i.b i.a s
  | Op.memo_tree_insert ↦ memo_tree_insert r s
  | Op.memo_tree ↦ do s' ← merge_loop (length s.stack.entries) r s; next s'
  | Op.memo_tree_close ↦ do s' ← close_trees (length s.stack.entries) i.a s; next s'
  | _ ↦ none
]
