-- ===== src/IntervalTree/Walks.antt =====
-- The walks of src/interval_tree.c over the whole tree: `iv_each` and `iv_apply_all`.
use libpeg.Prelude.{◌≡◌, refl, sym, ap, ◌∙◌, List, [], ◌∷◌, ◌++◌}
use mathlib.Core.List.{append_assoc}
use libpeg.Prelude.{arith}
use libpeg.Prelude.Int.{ℤ, ◌≤ℤ◌}
use libpeg.IntervalTree.Order.{After, Ascending, Precedes-pos}
use libpeg.IntervalTree.Eager.{present, stored, IsLog, AllCovered}
use libpeg.IntervalTree.Replay.{contents-present, stored-apply_all}
use libpeg.IntervalTree.Node.{Key, Ins, Tree, leaf, node, Shift}
use libpeg.IntervalTree.Shifts.{apply_shifts}
use libpeg.IntervalTree.Current.{Group, held, group, held-apply_shifts, group-apply_shifts}
use libpeg.IntervalTree.Contents.{contents}
use libpeg.IntervalTree.Api.{Itree, each_loop, each, apply_all, apply_all_shifts}

-- the intervals of groups, in order
abbrev pub intervals : List Group → List Ins
intervals [] = []
intervals (g ∷ gs) = g.iv.ins ++ intervals gs

intervals-append : (gs hs : List Group) → intervals (gs ++ hs) ≡ intervals gs ++ intervals hs
intervals-append [] hs = refl
intervals-append (g ∷ gs) hs =
    ap (λ is. g.iv.ins ++ is) (intervals-append gs hs)
    ∙ sym (append_assoc g.iv.ins (intervals gs) (intervals hs))

module _ (log : List Shift) where
  each_loop_lem :
      (t : Tree)
      → ((each_loop log t).1 ≡ intervals (contents log t))
        × (contents log (each_loop log t).0 ≡ contents log t)
  unfolding each_loop contents
  each_loop_lem leaf = (refl, refl)
  each_loop_lem (node n l r) =
      let (before, kept_l) = each_loop_lem l in
      let (after, kept_r) = each_loop_lem r in
      let n' = apply_shifts log n (each_loop log l).0 r in
      let here : held n' ≡ group log n = held-apply_shifts log n (each_loop log l).0 r in
      (
        rw (before, after, intervals-append (contents log l) (group log n ∷ contents log r))
            (append_assoc (intervals (contents log l)) n'.iv.ins (intervals (contents log r))
              ∙ ap
                  (λ (g : Group).
                    intervals (contents log l) ++ (g.iv.ins ++ intervals (contents log r)))
                  here),
        rw (kept_l, kept_r, group-apply_shifts log n (each_loop log l).0 r) refl,
      )

-- every interval of a group starts at the group's key
abbrev pub StartAt : ℤ → List Ins → Type 0
StartAt at [] = Unit
StartAt at (i ∷ is) = (i.low ≡ at) × StartAt at is

abbrev pub AllRooted : List Group → Type 0
AllRooted [] = Unit
AllRooted (g ∷ gs) = StartAt g.key.pos g.iv.ins × AllRooted gs

-- No interval starts before `at`.
abbrev pub NoneBefore : ℤ → List Ins → Type 0
NoneBefore at [] = Unit
NoneBefore at (i ∷ is) = (at ≤ℤ i.low) × NoneBefore at is

-- the starts do not descend
abbrev pub InOrder : List Ins → Type 0
InOrder [] = Unit
InOrder (i ∷ is) = NoneBefore i.low is × InOrder is

NoneBefore-append :
    (at : ℤ) (is js : List Ins) → NoneBefore at is → NoneBefore at js → NoneBefore at (is ++ js)
NoneBefore-append at [] js h k = k
NoneBefore-append at (i ∷ is) js (h, hs) k = (h, NoneBefore-append at is js hs k)

StartAt-NoneBefore : (at from : ℤ) (is : List Ins) → from ≤ℤ at → StartAt at is → NoneBefore from is
StartAt-NoneBefore at from [] h s = tt
StartAt-NoneBefore at from (i ∷ is) h (s, ss) = (rw s h, StartAt-NoneBefore at from is h ss)

After-NoneBefore :
    (k : Key) (gs : List Group) → After k gs → AllRooted gs → NoneBefore k.pos (intervals gs)
After-NoneBefore k [] a r = tt
After-NoneBefore k (g ∷ gs) (a, as') (r, rs) =
    NoneBefore-append k.pos g.iv.ins (intervals gs)
      (StartAt-NoneBefore g.key.pos k.pos g.iv.ins (Precedes-pos k g.key a) r)
      (After-NoneBefore k gs as' rs)

InOrder-group :
    (at : ℤ) (is js : List Ins) → StartAt at is → NoneBefore at js → InOrder js → InOrder (is ++ js)
InOrder-group at [] js s n o = o
InOrder-group at (i ∷ is) js (s, ss) n o = (
  rw s (NoneBefore-append at is js (StartAt-NoneBefore at at is (omega arith) ss) n),
  InOrder-group at is js ss n o,
)

intervals-InOrder : (gs : List Group) → Ascending gs → AllRooted gs → InOrder (intervals gs)
intervals-InOrder [] a r = tt
intervals-InOrder (g ∷ gs) (a, as') (r, rs) =
    InOrder-group g.key.pos g.iv.ins (intervals gs) r (After-NoneBefore g.key gs a rs)
      (intervals-InOrder gs as' rs)

-- Under a log with rising time stamps, where the `max` of each node covers its position throughout the
-- pending shifts, `itree_each` visits the intervals that shifting at once gives, and the walk leaves
-- the same groups in the tree.
pub each_lem :
    (t : Itree)
    → IsLog t.shifts
    → AllCovered t.shifts t.root
    → ((each t).1 ≡ intervals (present t.shifts t.root))
      × (stored (apply_all (each t).0.shifts (each t).0.root) ≡ present t.shifts t.root)
unfolding each
each_lem t i c =
    let (visited, kept) = each_loop_lem t.shifts t.root in
    let same = contents-present t.shifts t.root i c in
    (
      visited ∙ ap intervals same,
      stored-apply_all t.shifts (each_loop t.shifts t.root).0 ∙ kept ∙ same,
    )

-- `itree_each` visits the intervals in the order of their starts, if the groups that shifting at once
-- gives have ascending keys and every interval starts at its key. The log has rising time stamps, and
-- the `max` of each node covers its position throughout the pending shifts.
pub each-InOrder :
    (t : Itree)
    → IsLog t.shifts
    → AllCovered t.shifts t.root
    → Ascending (present t.shifts t.root)
    → AllRooted (present t.shifts t.root)
    → InOrder (each t).1
each-InOrder t i c a r = rw ((each_lem t i c).0) (intervals-InOrder (present t.shifts t.root) a r)

-- After `itree_apply_all_shifts` the log is empty, and the nodes store the groups that shifting at
-- once gives: under a log with rising time stamps, where the `max` of each node covers its position
-- throughout the pending shifts.
pub apply_all_shifts_lem :
    (t : Itree)
    → IsLog t.shifts
    → AllCovered t.shifts t.root
    → ((apply_all_shifts t).shifts ≡ [])
      × (stored (apply_all_shifts t).root ≡ present t.shifts t.root)
unfolding apply_all_shifts
apply_all_shifts_lem t i c =
    (refl, stored-apply_all t.shifts t.root ∙ contents-present t.shifts t.root i c)
