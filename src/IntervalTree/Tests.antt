-- ===== src/IntervalTree/Tests.antt =====
-- Runs of the interval tree.
use libpeg.Prelude.{
  true, ◌++◌, false, arith, ℕ, ◌+◌, ◌≡◌, refl, List, [], ◌∷◌, Option, none, some, ◌>>=◌,
}
use libpeg.Prelude.Int.{ℤ, pos, negsuc}
use libpeg.Prelude.Int.{◌+ℤ◌, ◌-ℤ◌}
use libpeg.IntervalTree.Avl.{IsRebalanced, rebalance-IsRebalanced}
use libpeg.IntervalTree.Added.{IsAdded, add-IsAdded}
use libpeg.IntervalTree.Node.{
  Node, Tree, leaf, node, Shift, key_cmp, update_max, update_height, group_high, group_push,
  overlaps, group_shift, ins_shift,
}
use libpeg.IntervalTree.Shifts.{
  apply_shifts, replay, apply_each, first_pending, apply_shift, absorb,
}
use libpeg.IntervalTree.Balance.{rebalance, rebalance_loop, rotate_left, rotate_right, update}
use libpeg.IntervalTree.Edit
use mathlib.Core.List.{Perm}
use libpeg.IntervalTree.Evict.{Answer, evict_lem}
use libpeg.IntervalTree.Node.{Ins}
use libpeg.IntervalTree.Order.{Ascending}
use libpeg.IntervalTree.Eager.{present, stored, shifted, moved, IsLog, AllCovered, Covers, slid}
use libpeg.IntervalTree.Walks.{
  intervals, AllRooted, InOrder, each_lem, each-InOrder, apply_all_shifts_lem,
}
use libpeg.IntervalTree.Edit.{
  remove_overlaps, remove_overlaps_loop, nodes, evict, evict_loop, last_first, remove, remove_loop,
}
use libpeg.IntervalTree.Api.{
  each, apply_all, apply_all_shifts, record_shift, find_loop, longest, Itree, new, add,
  remove_and_shift, find_largest,
}

-- Two intervals that start at 40 under a root at 30; the longer is evicted, then 70 bytes at 50
-- are deleted and 5 inserted at 10. The interval now starts at 45, but the tree has it at 40.
abbrev history : Option Itree
history = do
  (t0, _) ← add new (pos 1) (pos 30) (pos 35) 7
  (t1, _) ← add t0 (pos 1) (pos 40) (pos 50) 8
  (t2, _) ← add t1 (pos 1) (pos 40) (pos 60) 9
  (t3, _) ← remove_and_shift t2 (pos 55) (pos 56) (pos 0)
  (t4, _) ← remove_and_shift t3 (pos 50) (pos 120) (negsuc 69)
  (t5, _) ← remove_and_shift t4 (pos 10) (pos 10) (pos 5)
  some t5

abbrev looked_up : ℤ → Option ℕ
looked_up at = do t ← history; (find_largest t (pos 1) at).1

stale_at_40 : looked_up (pos 40) ≡ some 8
unfolding add Edit.add key_cmp apply_shifts rebalance rebalance_loop rotate_left rotate_right update
    update_max update_height group_high group_push remove_and_shift remove_overlaps
    remove_overlaps_loop nodes evict evict_loop overlaps last_first remove remove_loop record_shift
    find_largest find_loop longest replay apply_each first_pending apply_shift absorb group_shift
    ins_shift ◌+ℤ◌ ◌-ℤ◌
stale_at_40 = refl

lost_at_45 : looked_up (pos 45) ≡ none
unfolding add Edit.add key_cmp apply_shifts rebalance rebalance_loop rotate_left rotate_right update
    update_max update_height group_high group_push remove_and_shift remove_overlaps
    remove_overlaps_loop nodes evict evict_loop overlaps last_first remove remove_loop record_shift
    find_largest find_loop longest replay apply_each first_pending apply_shift absorb group_shift
    ins_shift ◌+ℤ◌ ◌-ℤ◌
lost_at_45 = refl

abbrev leaf_at : ℕ → Node
leaf_at p = record {
  key = record { pos = pos p; id = pos 1 };
  max = pos (p + 5);
  iv = record { ins = record { low = pos p; high = pos (p + 5); value = p } ∷ []; handle = p };
  tstamp = 0;
  height = 1;
}

abbrev one : Tree
one = node (leaf_at 10) leaf leaf

abbrev two_levels : Tree
two_levels = node (record (leaf_at 30) { height = 2 }) one leaf

-- bytes inserted at 20
abbrev one_shift : List Shift
one_shift = record { idx = pos 20; amt = pos 3; tstamp = 1 } ∷ []

rebalance-IsRebalanced_example :
    (t : Tree) × (rebalance one_shift (node (record (leaf_at 40) { tstamp = 1 }) two_levels leaf)
      ≡ some t)
    × IsRebalanced one_shift (record (leaf_at 40) { tstamp = 1 }) two_levels leaf t
rebalance-IsRebalanced_example =
    rebalance-IsRebalanced one_shift (record (leaf_at 40) { tstamp = 1 }) two_levels leaf
      ((tt, tt, refl, omega arith, omega arith), tt, refl, omega arith, omega arith) tt refl

one_shift-IsLog : IsLog one_shift
one_shift-IsLog = (omega arith, tt)

two_levels-AllCovered : AllCovered one_shift two_levels
unfolding Covers slid
two_levels-AllCovered = ((λ e. omega arith, tt), ((λ e. omega arith, tt), tt, tt), tt)

two_levels-Ascending : Ascending (present one_shift two_levels)
unfolding present shifted moved key_cmp ◌+ℤ◌
two_levels-Ascending = ((refl, tt), (tt, tt))

two_levels-AllRooted : AllRooted (present one_shift two_levels)
unfolding present shifted moved ◌+ℤ◌
two_levels-AllRooted = ((refl, tt), ((refl, tt), tt))

-- The interval joins the group that stands at 33 since the shift.
add-IsAdded_example :
    (t : Tree) × (h : ℕ) × (Edit.add one_shift 1
        (record { pos = pos 33; id = pos 1 })
        (pos 50)
        7
        9
        two_levels
      ≡ some (t, h))
    × IsAdded one_shift 1 (record { pos = pos 33; id = pos 1 }) (pos 50) 7 9 two_levels t h
add-IsAdded_example =
    add-IsAdded one_shift 1 (record { pos = pos 33; id = pos 1 }) (pos 50) 7 9 two_levels
      ((tt, tt, refl, omega arith, omega arith), tt, refl, omega arith, omega arith) refl
      one_shift-IsLog two_levels-AllCovered two_levels-Ascending

abbrev tree : Itree
tree = record { root = two_levels; shifts = one_shift; tstamp = 1; fresh = 31 }

each_lem_example :
    ((each tree).1 ≡ intervals (present one_shift two_levels))
    × (stored (apply_all (each tree).0.shifts (each tree).0.root) ≡ present one_shift two_levels)
each_lem_example = each_lem tree one_shift-IsLog two_levels-AllCovered

each-InOrder_example : InOrder (each tree).1
each-InOrder_example =
    each-InOrder tree one_shift-IsLog two_levels-AllCovered two_levels-Ascending
      two_levels-AllRooted

apply_all_shifts_lem_example :
    ((apply_all_shifts tree).shifts ≡ [])
    × (stored (apply_all_shifts tree).root ≡ present one_shift two_levels)
apply_all_shifts_lem_example = apply_all_shifts_lem tree one_shift-IsLog two_levels-AllCovered

abbrev three : List Ins
three =
    record { low = pos 1; high = pos 9; value = 1 }
    ∷ record { low = pos 1; high = pos 3; value = 2 }
    ∷ record { low = pos 1; high = pos 8; value = 3 }
    ∷ []

evict_lem_example :
    let (kept, gone) = evict (pos 5) (pos 6) three in
    Answer (pos 5) (pos 6) false kept × Answer (pos 5) (pos 6) true gone × Perm (gone ++ kept) three
evict_lem_example = evict_lem (pos 5) (pos 6) three
