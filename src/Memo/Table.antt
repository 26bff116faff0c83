-- ===== src/Memo/Table.antt =====
-- The memo table of src/memo.c.
use libpeg.Prelude.{
  ℕ, Bool, ◌&&◌, ◌||◌, not, List, [], ◌∷◌, ◌++◌, Option, some, ◌>>=◌, if◌then◌else◌, length,
  get_elem?,
}
use libpeg.Prelude.Int.{ℤ, pos, ltb_ℤ, ◌+ℤ◌, ◌-ℤ◌}
use libpeg.IntervalTree.Node.{Ins}
use libpeg.IntervalTree.Api
use libpeg.Memo.Heap.{Heap, for_each, absolutize, set_ment}

-- `a == b`
abbrev pub same_ℤ : ℤ → ℤ → Bool
same_ℤ a b = not (ltb_ℤ a b) && not (ltb_ℤ b a)

-- `entry_set_pos`
unfoldable pub entry_set_pos : Heap → ℕ → List ℕ → Option Heap
unfolding set_ment
entry_set_pos h e cs = for_each (set_ment e) h cs

unfoldable pub get : Heap → ℤ → ℤ → Heap × Option ℕ
get h id at = let (tree, found) = Api.find_largest h.tree id at in (record h { tree = tree }, found)

-- the first test of `memo_table_put`
abbrev pub useless : Heap → ℤ → ℤ → Bool
useless h len examined =
    ltb_ℤ (pos 0) h.threshold && ltb_ℤ examined h.threshold || same_ℤ len (pos 0)

-- an entry for the examined extent `examined`
abbrev stored : Heap → ℤ → ℤ → ℤ → ℤ → ℤ → List ℕ → Option (Heap × List ℕ)
stored h id start len examined count cs = do
  (tree, handle) ← Api.add h.tree id start (start +ℤ examined) (length h.entries)
  h' ←
      entry_set_pos
        (record h {
          tree = tree;
          entries =
              h.entries
              ++ (record {
                length = len;
                examined = examined;
                count = count;
                captures = cs;
                handle = handle;
              }
                  ∷ []);
        })
        (length h.entries) cs
  some (h', [])

-- `memo_table_put`, and the captures whose references it drops
unfoldable pub put : Heap → ℤ → ℤ → ℤ → ℤ → ℤ → List ℕ → Option (Heap × List ℕ)
unfolding entry_set_pos
put h id start len examined count cs =
    let kept = stored h id start len (if ltb_ℤ examined len then len else examined) count cs in
    if useless h len examined then some (h, cs) else kept

-- `table_free_entry` of an entry that is called back with its interval. The group of the interval
-- still stands at its node then, at the interval's lower end, which is the entry's position.
unfoldable pub free_entry : Heap → Ins → Option (Heap × List ℕ)
unfolding absolutize
free_entry h i = do
  entry ← get_elem? h.entries i.value
  h' ← for_each (absolutize i.value i.low) h entry.captures
  some (h', entry.captures)

unfoldable pub free_entries : Heap → List Ins → Option (Heap × List ℕ)
unfolding free_entry
free_entries h [] = some (h, [])
free_entries h (i ∷ is) = do
  (h', cs) ← free_entry h i
  (h'', ds) ← free_entries h' is
  some (h'', cs ++ ds)

-- `memo_table_free`
unfoldable pub table_free : Heap → Option (Heap × List ℕ)
unfolding free_entries
table_free h = let (tree, is) = Api.each h.tree in free_entries (record h { tree = tree }) is

unfoldable pub apply_edit : Heap → ℤ → ℤ → ℤ → Option (Heap × List ℕ)
unfolding free_entries
apply_edit h start end len = do
  let high = if same_ℤ start end then start +ℤ pos 1 else end
  (tree, gone) ← Api.remove_and_shift h.tree start high (len -ℤ (end -ℤ start))
  free_entries (record h { tree = tree }) gone

abbrev pub size : Heap → ℕ
size h = Api.size h.tree
