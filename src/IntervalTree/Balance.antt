-- ===== src/IntervalTree/Balance.antt =====
-- The AVL rotations and `iv_rebalance` of src/interval_tree.c. `none` stands for a null child
-- that is dereferenced, and for fuel that ran out.
use libpeg.Prelude.{ℕ, zero, suc, ◌+◌, Bool, true, false, List, Option, none, some, ltb, ◌>>=◌}
use libpeg.IntervalTree.Node.{Node, Tree, leaf, node, Shift, update_max, update_height, height_of}
use libpeg.IntervalTree.Shifts.{apply_shifts}

-- `iv_update_height(n); iv_update_max(n);`
unfoldable pub update : Node → Tree → Tree → Node
update n l r = update_max (update_height n l r) l r

-- the node over its two children, with its height and `max` updated
abbrev pub join : Node → Tree → Tree → Tree
join n l r = node (update n l r) l r

abbrev pub left_of : Tree → Tree
left_of leaf = leaf
left_of (node n l r) = l

abbrev pub right_of : Tree → Tree
right_of leaf = leaf
right_of (node n l r) = r

-- `n->left = d`
abbrev pub with_left : Tree → Tree → Tree
with_left leaf d = leaf
with_left (node n l r) d = node n d r

-- `n->right = d`
abbrev pub with_right : Tree → Tree → Tree
with_right leaf d = leaf
with_right (node n l r) d = node n l d

module _ (log : List Shift) where
  unfoldable pub rotate_left : Tree → Option Tree
  rotate_left (node n l (node m b r)) =
      let n' = apply_shifts log n l (node m b r) in
      some (join (apply_shifts log m b r) (join n' l b) r)
  rotate_left t = none

  unfoldable pub rotate_right : Tree → Option Tree
  rotate_right (node n (node m l b) r) =
      let n' = apply_shifts log n (node m l b) r in
      some (join (apply_shifts log m l b) l (join n' b r))
  rotate_right t = none

  -- the signs of `iv_balance`
  abbrev pub leans_left : Tree → Bool
  leans_left leaf = false
  leans_left (node n l r) = ltb (height_of r) (height_of l)

  abbrev pub leans_right : Tree → Bool
  leans_right leaf = false
  leans_right (node n l r) = ltb (height_of l) (height_of r)

  -- the pre-rotation of a tall child
  abbrev pub left_ready : Tree → Option Tree
  left_ready l = elim (leans_right l) [ true ↦ rotate_left l | false ↦ some l ]

  abbrev pub right_ready : Tree → Option Tree
  right_ready r = elim (leans_left r) [ true ↦ rotate_right r | false ↦ some r ]

  unfoldable pub rebalance_loop : ℕ → Tree → Option Tree
  unfolding update
  rebalance_loop fuel leaf = some leaf
  rebalance_loop zero (node n l r) = none
  rebalance_loop (suc fuel) (node n l r) =
      let n' = update n l r in
      elim (ltb (1 + height_of r) (height_of l)) [
        | true ↦ do
          l' ← left_ready l
          t ← rotate_right (node n' l' r)
          d ← rebalance_loop fuel (right_of t)
          rebalance_loop fuel (with_right t d)
        | false ↦ elim (ltb (1 + height_of l) (height_of r)) [
          | true ↦ do
            r' ← right_ready r
            t ← rotate_left (node n' l r')
            d ← rebalance_loop fuel (left_of t)
            rebalance_loop fuel (with_left t d)
          | false ↦ some (node n' l r)
        ]
      ]

  -- `iv_rebalance`. The recursion is on the two lower trees and then once more on the new root.
  unfoldable pub rebalance : Tree → Option Tree
  unfolding rebalance_loop
  rebalance leaf = some leaf
  rebalance (node n l r) = rebalance_loop (height_of l + height_of r + 4) (node n l r)
