-- ===== src/IntervalTree/Replay.antt =====
-- The groups that `iv_apply_shifts` of src/interval_tree.c brings up to date are those that shifting
-- at once gives.
use libpeg.Prelude.{
  ℕ, zero, suc, ◌-◌, ◌≤◌, ◌≡◌, refl, sym, ap, ◌∙◌, ◌⊎◌, inl, inr, false, List, [], ◌∷◌, ◌++◌, some,
  drop, get_elem?, length, arith, Bool-cases,
}
use libpeg.IntervalTree.Node.{Node, Tree, leaf, node, Shift}
use libpeg.IntervalTree.Shifts.{newer, first_pending, apply_each, replay}
use libpeg.IntervalTree.Current.{
  held, group, held-apply_shifts, get_elem?-inside, replay_more, first_pending-le,
}
use libpeg.IntervalTree.Contents.{contents}
use libpeg.IntervalTree.Eager.{
  present, stored, shifted, IsLog, Covers, AllCovered, apply_each-drop, apply_each-shifted,
}
use libpeg.IntervalTree.Api.{apply_all}

-- The backward walk stops at the start of the log or behind a shift that is not newer.
first_pending-stops :
    (log : List Shift) (ts j : ℕ)
    → (first_pending log ts j ≡ 0)
      ⊎ ((i : ℕ) × (first_pending log ts j ≡ suc i) × (newer (get_elem? log i) ts ≡ false))
unfolding first_pending
first_pending-stops log ts zero = inl refl
first_pending-stops log ts (suc j) = elim (Bool-cases (newer (get_elem? log j) ts)) [
  | inl more ↦ rw (more, first_pending) (first_pending-stops log ts j)
  | inr stop ↦ rw (stop, first_pending) (inr (j, refl, stop))
]

-- A skipped start of a rising log does not matter.
skips :
    (log : List Shift) (n : Node) (i : ℕ)
    → IsLog log
    → suc i ≤ length log
    → newer (get_elem? log i) n.tstamp ≡ false
    → apply_each n (drop (suc i) log) ≡ apply_each n log
skips log n i r h old =
    let (t, e) = get_elem?-inside log i (omega arith) in
    let old' : newer (some t) n.tstamp ≡ false = rw e at old in
    apply_each-drop 0 log i t n r e (ground arith)

drop-length : (log : List Shift) → drop (length log) log ≡ []
drop-length [] = refl
drop-length (s ∷ ss) = drop-length ss

replay_each : (log : List Shift) (n : Node) → IsLog log → replay log n ≡ apply_each n log
unfolding replay apply_each
replay_each [] n r = refl
replay_each (s ∷ ss) n r =
    let log : List Shift = s ∷ ss in
    let last : length log - 1 ≡ length ss = omega arith in
    elim (Bool-cases (newer (get_elem? log (length log - 1)) n.tstamp)) [
      | inl more ↦ replay_more log n more ∙ elim (first_pending-stops log n.tstamp (length log)) [
        | inl z ↦ rw z refl
        | inr (i, e, old) ↦
            let le : first_pending log n.tstamp (length log) ≤ length log =
              first_pending-le log n.tstamp (length log) in
            rw e (skips log n i r (rw e at le) old)
      ]
      | inr done ↦
          rw (done, replay)
            (sym (ap (apply_each n) (drop-length log))
              ∙ skips log n (length ss) r (omega arith) (rw last at done))
    ]

-- What the tree's operations read in a node is what shifting at once makes of it.
pub group-shifted :
    (log : List Shift) (n : Node)
    → IsLog log
    → Covers n.tstamp log n.key.pos n.max
    → group log n ≡ shifted n.tstamp log (held n)
group-shifted log n r c = ap held (replay_each log n r) ∙ apply_each-shifted 0 log n r c

pub contents-present :
    (log : List Shift) (t : Tree) → IsLog log → AllCovered log t → contents log t ≡ present log t
unfolding contents present
contents-present log leaf r c = refl
contents-present log (node n l r) i (c, cl, cr) =
    rw (contents-present log l i cl, contents-present log r i cr, group-shifted log n i c) refl

-- After `iv_apply_all` the nodes store what the tree's operations read before.
pub stored-apply_all : (log : List Shift) (t : Tree) → stored (apply_all log t) ≡ contents log t
unfolding stored apply_all contents
stored-apply_all log leaf = refl
stored-apply_all log (node n l r) =
    rw (stored-apply_all log l, stored-apply_all log r)
      (ap (λ g. contents log l ++ (g ∷ contents log r))
        (held-apply_shifts log n (apply_all log l) (apply_all log r)))
