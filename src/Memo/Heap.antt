-- ===== src/Memo/Heap.antt =====
-- The objects of src/memo.c: captures and entries by their pointers, which are numbers in the order
-- of allocation, and the interval tree of the table. An object that was freed keeps its number.
-- Reference counts are kept by the owner of the heap: an operation that drops references yields the
-- list of the captures. `none` is a pointer to no object, or a recursion deeper than the heap.
use libpeg.Prelude.{
  ℕ, zero, suc, Bool, true, false, List, [], ◌∷◌, ◌++◌, Option, none, some, ◌>>=◌, ◌==◌, ltb,
  if◌then◌else◌, length, get_elem?,
}
use libpeg.Prelude.{set as set_at}
use libpeg.Prelude.Int.{ℤ, ltb_ℤ, ◌+ℤ◌, ◌-ℤ◌}
use libpeg.IntervalTree.Api
use libpeg.IntervalTree.Api.{Itree}

-- `struct memo_capture`
pub record CapNode : Type 0 where
  pub id : ℤ
  pub dummy : Bool
  pub off : ℤ
  pub length : ℤ
  pub ment : Option ℕ
  pub children : List ℕ

-- `struct memo_entry`
pub record MemoEntry : Type 0 where
  pub length : ℤ
  pub examined : ℤ
  pub count : ℤ
  pub captures : List ℕ
  pub handle : ℕ

-- the objects, and `struct memo_table`
pub record Heap : Type 0 where
  pub caps : List CapNode
  pub entries : List MemoEntry
  pub tree : Itree
  pub threshold : ℤ

-- `memo_table_new`, over no objects
abbrev pub new : ℤ → Heap
new threshold = record { caps = []; entries = []; tree = Api.new; threshold = threshold }

unfoldable pub capture_node : Heap → ℤ → ℤ → ℤ → Heap × ℕ
capture_node h id start len = (
  record h {
    caps =
        h.caps
        ++ (record { id = id; dummy = false; off = start; length = len; ment = none; children = [] }
            ∷ []);
  },
  length h.caps,
)

unfoldable pub capture_dummy : Heap → ℤ → ℤ → Heap × ℕ
capture_dummy h start len = (
  record h {
    caps =
        h.caps
        ++ (record {
          id = libpeg.Prelude.Int.pos 0;
          dummy = true;
          off = start;
          length = len;
          ment = none;
          children = [];
        }
            ∷ []);
  },
  length h.caps,
)

-- `memo_capture_add`, without the reference that it takes
unfoldable pub add_child : Heap → ℕ → ℕ → Option Heap
add_child h c d = do
  n ← get_elem? h.caps c
  some (record h { caps = set_at h.caps c (record n { children = n.children ++ (d ∷ []) }) })

unfoldable pub add_children : Heap → ℕ → List ℕ → Option Heap
unfolding add_child
add_children h c [] = some h
add_children h c (d ∷ ds) = do h' ← add_child h c d; add_children h' c ds

unfoldable pub entry_pos : Heap → ℕ → Option (Heap × ℤ)
entry_pos h e = do
  entry ← get_elem? h.entries e
  (tree, at) ← Api.loc_pos h.tree entry.handle
  some (record h { tree = tree }, at)

unfoldable pub capture_start : Heap → ℕ → Option (Heap × ℤ)
unfolding entry_pos
capture_start h c = do
  n ← get_elem? h.caps c
  elim n.ment [
    | none ↦ some (h, n.off)
    | some e ↦ do (h', at) ← entry_pos h e; some (h', at +ℤ n.off)
  ]

unfoldable pub capture_end : Heap → ℕ → Option (Heap × ℤ)
unfolding capture_start
capture_end h c = do n ← get_elem? h.caps c; (h', at) ← capture_start h c; some (h', at +ℤ n.length)

-- one operation for each capture of a list
abbrev pub for_each : (Heap → ℕ → Option Heap) → Heap → List ℕ → Option Heap
for_each f h [] = some h
for_each f h (c ∷ cs) = do h' ← f h c; for_each f h' cs

abbrev same_entry : Option ℕ → ℕ → Bool
same_entry none e = false
same_entry (some d) e = d == e

-- `memo_capture_absolutize`, where the entry stands at `at`, on fuel
unfoldable pub absolutize_loop : ℕ → ℕ → ℤ → Heap → ℕ → Option Heap
absolutize_loop zero e at h c = none
absolutize_loop (suc fuel) e at h c = do
  n ← get_elem? h.caps c
  let freed = record h { caps = set_at h.caps c (record n { off = n.off +ℤ at; ment = none }) }
  for_each (absolutize_loop fuel e at) (if same_entry n.ment e then freed else h) n.children

-- `capture_set_ment`, on fuel
unfoldable pub set_ment_loop : ℕ → ℕ → Heap → ℕ → Option Heap
unfolding entry_pos
set_ment_loop zero e h c = none
set_ment_loop (suc fuel) e h c = do
  n ← get_elem? h.caps c
  elim n.ment [
    | some _ ↦ some h
    | none ↦ do
      (h', at) ← entry_pos h e
      for_each (set_ment_loop fuel e)
          (record h' { caps = set_at h'.caps c (record n { off = n.off -ℤ at; ment = some e }) })
          n.children
  ]

-- A child is older than its parent, so the number of captures bounds the depth.
unfoldable pub absolutize : ℕ → ℤ → Heap → ℕ → Option Heap
unfolding absolutize_loop
absolutize e at h c = absolutize_loop (length h.caps) e at h c

unfoldable pub set_ment : ℕ → Heap → ℕ → Option Heap
unfolding set_ment_loop
set_ment e h c = set_ment_loop (length h.caps) e h c
