-- ===== src/IntervalTree/Added.antt =====
-- `iv_add` of src/interval_tree.c, against the groups that shifting at once gives.
use libpeg.Prelude.{ℕ, ◌+◌, ◌≤◌, ◌≡◌, List, some}
use libpeg.Prelude.Int.{ℤ}
use libpeg.IntervalTree.Node.{Key, Tree, Shift, height_of}
use libpeg.IntervalTree.Current.{IsCurrent}
use libpeg.IntervalTree.Heights.{IsAvl}
use libpeg.IntervalTree.Edit.{add, added}
use libpeg.IntervalTree.Order.{Ascending}
use libpeg.IntervalTree.Eager.{present, IsLog, AllCovered}
use libpeg.IntervalTree.Replay.{contents-present}
use libpeg.IntervalTree.Inserted.{Inserted, Inserted-Ascending}
use libpeg.IntervalTree.Grown.{add-Grown}

module _ (log : List Shift) (stamp : ℕ) (key : Key) (high : ℤ) (value fresh : ℕ) where
  -- what an insertion makes of a tree
  pub record IsAdded (t t' : Tree) (handle : ℕ) : Type 0 where
    pub avl : IsAvl t'
    pub lower : height_of t ≤ height_of t'
    pub upper : height_of t' ≤ height_of t + 1
    pub covered : AllCovered log t'
    pub inserted : Inserted key high value fresh (present log t) (present log t') handle
    pub ascending : Ascending (present log t')

  -- `iv_add` into an AVL tree whose keys ascend returns an AVL tree whose keys ascend, at most one
  -- level higher, and the handle of a group. The groups in order, shifted at once by the log, are the
  -- same but for one place: if no group has the key, a group of the interval alone is new, between the
  -- smaller and the larger keys; otherwise the group of the key has the interval in addition. The
  -- handle is that group's. The log has rising time stamps, the new one is not older, and the
  -- `max` of each node covers its position throughout the pending shifts, which the new tree keeps.
  pub add-IsAdded :
      (t : Tree)
      → IsAvl t
      → IsCurrent log (added log stamp key high value fresh)
      → IsLog log
      → AllCovered log t
      → Ascending (present log t)
      → (t' : Tree) × (h : ℕ) × (add log stamp key high value fresh t ≡ some (t', h))
        × IsAdded t t' h
  add-IsAdded t av c i cov o =
      let same = contents-present log t i cov in
      let (t', h, e, g) = add-Grown log stamp key high value fresh t av c i cov (rw same o) in
      let ins : Inserted key high value fresh (present log t) (present log t') h =
        rw (← same, ← contents-present log t' i g.covered) g.inserted in
      (
        t',
        h,
        e,
        record {
          avl = g.avl;
          lower = g.lower;
          upper = g.upper;
          covered = g.covered;
          inserted = ins;
          ascending = Inserted-Ascending key high value fresh _ _ h ins o;
        },
      )
