-- ===== src/IntervalTree/Shifts.antt =====
-- The lazy shifts of src/interval_tree.c: `iv_apply_shift`, `iv_apply_shifts`.
use libpeg.Prelude.{
  ℕ, zero, suc, ◌-◌, Bool, false, List, [], ◌∷◌, Option, none, some, drop, get_elem?, length, leb,
  ltb, if◌then◌else◌,
}
use libpeg.Prelude.Int.{ltb_ℤ, ◌+ℤ◌}
use libpeg.IntervalTree.Node.{Node, Tree, Shift, group_shift, update_max}

-- the branch of `iv_apply_shift` on a subtree that the shift may affect
unfoldable pub absorb : Node → Shift → Node
unfolding group_shift
absorb n s =
    let moved = record n { max = n.max +ℤ s.amt } in
    if ltb_ℤ n.key.pos s.idx then moved else record moved {
      key = record n.key { pos = n.key.pos +ℤ s.amt };
      iv = group_shift n.iv s.amt;
    }

unfoldable pub apply_shift : Node → Shift → Node
unfolding absorb
apply_shift n s =
    let n' = record n { tstamp = s.tstamp } in
    if leb s.tstamp n.tstamp then n else if ltb_ℤ n.max s.idx then n' else absorb n' s

-- `shifts[j].tstamp > ts`
abbrev pub newer : Option Shift → ℕ → Bool
newer none ts = false
newer (some s) ts = ltb ts s.tstamp

-- the backward walk from `j` to the first pending shift
unfoldable pub first_pending : List Shift → ℕ → ℕ → ℕ
first_pending log ts zero = 0
first_pending log ts (suc j) =
    let earlier = first_pending log ts j in if newer (get_elem? log j) ts then earlier else suc j

unfoldable pub apply_each : Node → List Shift → Node
unfolding apply_shift
apply_each n [] = n
apply_each n (s ∷ ss) = apply_each (apply_shift n s) ss

-- the node after the replay, before its `max` is recomputed
unfoldable pub replay : List Shift → Node → Node
unfolding apply_each first_pending
replay log n =
    if newer (get_elem? log (length log - 1)) n.tstamp
    then apply_each n (drop (first_pending log n.tstamp (length log)) log)
    else n

-- `iv_apply_shifts` of a node with these children
unfoldable pub apply_shifts : List Shift → Node → Tree → Tree → Node
apply_shifts [] n l r = n
apply_shifts (s ∷ ss) n l r = update_max (replay (s ∷ ss) n) l r
