-- ===== src/IntervalTree/Edit.antt =====
-- Insertion and deletion in src/interval_tree.c: `iv_add`, `iv_remove`, `iv_remove_overlaps`.
-- `none` is as in `Balance`. Handles are numbered in the order of their allocation.
use libpeg.Prelude.{
  ℕ, zero, suc, ◌+◌, true, false, List, [], ◌∷◌, ◌++◌, Option, none, some, length, ◌>>=◌,
  if◌then◌else◌,
}
use libpeg.Prelude.Int.{ℤ, ltb_ℤ}
use libpeg.IntervalTree.Node.{
  Key, key_cmp, less, same, more, Ins, Ivals, Node, Tree, leaf, node, Shift, overlaps, group_push,
}
use libpeg.IntervalTree.Shifts.{apply_shifts}
use libpeg.IntervalTree.Balance.{rebalance}

-- `iv_add`: the tree, and the handle of the group that the interval joined. `fresh` numbers the
-- group that a new node allocates.
module _ (log : List Shift) (stamp : ℕ) (key : Key) (high : ℤ) (value fresh : ℕ) where
  abbrev pub added : Node
  added = record {
    key = key;
    max = high;
    iv = group_push (record { ins = []; handle = fresh }) key.pos high value;
    tstamp = stamp;
    height = 1;
  }

  unfoldable pub add : Tree → Option (Tree × ℕ)
  unfolding group_push
  add leaf = some (node added leaf leaf, fresh)
  add (node n0 l r) =
      let n = apply_shifts log n0 l r in
      elim (key_cmp key n.key) [
        | less ↦ do (l', h) ← add l; t ← rebalance log (node n l' r); some (t, h)
        | more ↦ do (r', h) ← add r; t ← rebalance log (node n l r'); some (t, h)
        | same ↦ do
          t ←
              rebalance log
                (node (record n { iv = group_push n.iv key.pos high value; tstamp = stamp }) l r)
          some (t, n.iv.handle)
      ]

-- `iv_find_smallest` of a current node, and the exchange of the group of what it finds for `iv`:
-- the tree, and the smallest node as it was.
unfoldable pub swap_smallest : List Shift → Ivals → Node → Tree → Tree → Tree × Node
swap_smallest log iv n leaf r = (node (record n { iv = iv }) leaf r, n)
swap_smallest log iv n (node m a b) r =
    let (t, smallest) = swap_smallest log iv (apply_shifts log m a b) a b in (node n t r, smallest)

unfoldable pub nodes : Tree → ℕ
nodes leaf = 0
nodes (node n l r) = nodes l + nodes r + 1

-- `iv_remove` on fuel; the number of nodes is enough.
module _ (log : List Shift) where
  unfoldable pub remove_loop : ℕ → Key → Tree → Option Tree
  unfolding swap_smallest
  remove_loop fuel key leaf = some leaf
  remove_loop zero key (node n0 l r) = none
  remove_loop (suc fuel) key (node n0 l r) =
      let n = apply_shifts log n0 l r in
      elim (key_cmp key n.key) [
        | less ↦ do l' ← remove_loop fuel key l; rebalance log (node n l' r)
        | more ↦ do r' ← remove_loop fuel key r; rebalance log (node n l r')
        | same ↦ elim l [
          | leaf ↦ elim r [
            | leaf ↦ some leaf
            | node m a b ↦ rebalance log (node (apply_shifts log m a b) a b)
          ]
          | node m a b ↦ elim r [
            | leaf ↦ rebalance log (node (apply_shifts log m a b) a b)
            | node k c d ↦ do
              let (r', succ) = swap_smallest log n.iv (apply_shifts log k c d) c d
              r'' ← remove_loop fuel succ.key r'
              rebalance log (
                  node (record n { key = succ.key; iv = succ.iv; tstamp = succ.tstamp })
                    (node (apply_shifts log m a b) a b) r'')
          ]
        ]
      ]

  unfoldable pub remove : Key → Tree → Option Tree
  unfolding nodes remove_loop
  remove key t = remove_loop (nodes t) key t

-- the last element moved to the front
unfoldable pub last_first : List Ins → List Ins
last_first [] = []
last_first (x ∷ xs) = elim (last_first xs) [ [] ↦ x ∷ [] | y ∷ ys ↦ y ∷ x ∷ ys ]

-- The loop that drops overlapping intervals, from index `i` on: what is kept, and what was
-- evicted, in order. Fuel for one round each is enough.
unfoldable pub evict_loop : ℕ → ℤ → ℤ → List Ins → List Ins × List Ins
unfolding last_first
evict_loop zero low high is = (is, [])
evict_loop (suc fuel) low high [] = ([], [])
evict_loop (suc fuel) low high (i ∷ is) =
    let drop = evict_loop fuel low high (last_first is) in
    let keep = evict_loop fuel low high is in
    if overlaps i low high then (drop.0, i ∷ drop.1) else (i ∷ keep.0, keep.1)

unfoldable pub evict : ℤ → ℤ → List Ins → List Ins × List Ins
unfolding evict_loop
evict low high is = evict_loop (length is) low high is

-- `iv_remove_overlaps` on fuel: the tree, and the evicted intervals in order.
module _ (log : List Shift) (low high : ℤ) where
  unfoldable pub remove_overlaps_loop : ℕ → Tree → Option (Tree × List Ins)
  unfolding evict
  remove_overlaps_loop fuel leaf = some (leaf, [])
  remove_overlaps_loop zero (node n0 l r) = none
  remove_overlaps_loop (suc fuel) (node n0 l r) =
      let n = apply_shifts log n0 l r in
      elim (ltb_ℤ n.max low) [
        | true ↦ some (node n l r, [])
        | false ↦ do
          (l', gone) ← remove_overlaps_loop fuel l
          let (kept, here) = evict low high n.iv.ins
          let m = record n { iv = record n.iv { ins = kept } }
          elim kept [
            | [] ↦ do
              t ← remove log m.key (node m l' r)
              (t', after) ← elim (ltb_ℤ high n.key.pos) [
                | true ↦ some (t, [])
                | false ↦ remove_overlaps_loop fuel t
              ]
              t'' ← rebalance log t'
              some (t'', gone ++ here ++ after)
            | _ ∷ _ ↦ elim (ltb_ℤ high n.key.pos) [
              | true ↦ do t ← rebalance log (node m l' r); some (t, gone ++ here)
              | false ↦ do
                (r', after) ← remove_overlaps_loop fuel r
                t ← rebalance log (node m l' r')
                some (t, gone ++ here ++ after)
            ]
          ]
      ]

  unfoldable pub remove_overlaps : Tree → Option (Tree × List Ins)
  unfolding remove_overlaps_loop nodes
  remove_overlaps t = remove_overlaps_loop (nodes t) t
