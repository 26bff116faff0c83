-- ===== src/IntervalTree/Eager.antt =====
-- What the lazy shifts of src/interval_tree.c stand for: every shift moves at once all intervals that
-- start at its index or after it. Where `max` bounds the position of its node all along, the replay
-- of `iv_apply_shifts` comes to the same.
use libpeg.Prelude.{
  ℕ, zero, suc, ◌≤◌, ◌<◌, ◌≡◌, refl, sym, ◌∙◌, inl, inr, true, false, ◌&&◌, not, List, [], ◌∷◌,
  ◌++◌, map, some, drop, get_elem?, ltb, leb, arith, Bool-cases, if◌then◌else◌,
}
use libpeg.Prelude.Int.{ℤ, ltb_ℤ, ◌+ℤ◌, ◌≤ℤ◌}
use libpeg.IntervalTree.Node.{Ins, Node, Tree, leaf, node, Shift, group_shift, ins_shift}
use libpeg.IntervalTree.Shifts.{absorb, apply_shift, apply_each}
use libpeg.IntervalTree.Current.{Group, held}

abbrev pub ins_moved : ℤ → Ins → Ins
ins_moved amt i = record i { low = i.low +ℤ amt; high = i.high +ℤ amt }

-- a group after one shift
unfoldable pub moved : Shift → Group → Group
moved s g = if ltb_ℤ g.key.pos s.idx then g else record {
  key = record g.key { pos = g.key.pos +ℤ s.amt };
  iv = record g.iv { ins = map (ins_moved s.amt) g.iv.ins };
}

-- a group after the shifts that are newer than its node
unfoldable pub shifted : ℕ → List Shift → Group → Group
unfolding moved
shifted ts [] g = g
shifted ts (s ∷ ss) g = shifted ts ss (if ltb ts s.tstamp then moved s g else g)

-- the groups of a tree in order, in the coordinates after all shifts
unfoldable pub present : List Shift → Tree → List Group
unfolding shifted
present log leaf = []
present log (node n l r) = present log l ++ (shifted n.tstamp log (held n) ∷ present log r)

-- the groups of a tree in order, as its nodes store them
unfoldable pub stored : Tree → List Group
stored leaf = []
stored (node n l r) = stored l ++ (held n ∷ stored r)

-- Time stamps rise strictly, from above `lo`.
abbrev pub Rising : ℕ → List Shift → Type 0
Rising lo [] = Unit
Rising lo (s ∷ ss) = (lo < s.tstamp) × Rising s.tstamp ss

abbrev pub IsLog : List Shift → Type 0
IsLog log = Rising 0 log

-- a position after one shift, where the shift is newer than `ts`
unfoldable pub slid : ℕ → Shift → ℤ → ℤ
slid ts s x = if ltb ts s.tstamp && not (ltb_ℤ x s.idx) then x +ℤ s.amt else x

-- A bound `m` that is shifted like a position stays at the position `p` or above it.
unfoldable pub Covers : ℕ → List Shift → ℤ → ℤ → Type 0
unfolding slid
Covers ts [] p m = Unit
Covers ts (s ∷ ss) p m =
    (ltb ts s.tstamp ≡ true → p ≤ℤ m) × Covers ts ss (slid ts s p) (slid ts s m)

-- The `max` of each node covers its position.
abbrev pub AllCovered : List Shift → Tree → Type 0
AllCovered log leaf = Unit
AllCovered log (node n l r) =
    Covers n.tstamp log n.key.pos n.max × AllCovered log l × AllCovered log r

-- A shift that is not newer is skipped.
apply_shift_old : (n : Node) (s : Shift) → s.tstamp ≤ n.tstamp → apply_shift n s ≡ n
unfolding apply_shift
apply_shift_old n s h =
    let e : leb s.tstamp n.tstamp ≡ true = ground arith in rw (e, apply_shift) refl

record Absorbed (ts : ℕ) (n : Node) (s : Shift) (m : Node) : Type 0 where
  holds : held m ≡ moved s (held n)
  place : m.key.pos ≡ slid ts s n.key.pos
  bound : m.max ≡ slid ts s n.max
  time : m.tstamp ≡ s.tstamp

-- A newer shift moves the node as it moves the group.
apply_shift_new :
    (ts : ℕ) (n : Node) (s : Shift)
    → ts < s.tstamp
    → n.tstamp < s.tstamp
    → n.key.pos ≤ℤ n.max
    → Absorbed ts n s (apply_shift n s)
unfolding apply_shift absorb moved group_shift ins_shift slid
apply_shift_new ts n s h k c =
    let e : leb s.tstamp n.tstamp ≡ false = ground arith in
    let e' : ltb ts s.tstamp ≡ true = ground arith in
    elim (Bool-cases (ltb_ℤ n.max s.idx)) [
      | inl past ↦
          let low : ltb_ℤ n.key.pos s.idx ≡ true = ground arith in
          rw (e, past, apply_shift)
            (record {
              holds = rw low refl;
              place = rw (e', low) refl;
              bound = rw (e', past) refl;
              time = refl;
            })
      | inr near ↦ elim (Bool-cases (ltb_ℤ n.key.pos s.idx)) [
        | inl low ↦
            rw (e, near, apply_shift, absorb, low)
              (record {
                holds = rw low refl;
                place = rw (e', low) refl;
                bound = rw (e', near) refl;
                time = refl;
              })
        | inr high ↦
            rw (e, near, apply_shift, absorb, high)
              (record {
                holds = rw high refl;
                place = rw (e', high) refl;
                bound = rw (e', near) refl;
                time = refl;
              })
      ]
    ]

-- The replay of shifts that are all newer than `ts` and than the node.
apply_each_newer :
    (ts : ℕ) (ss : List Shift) (n : Node)
    → ts ≤ n.tstamp
    → Rising n.tstamp ss
    → Covers ts ss n.key.pos n.max
    → held (apply_each n ss) ≡ shifted ts ss (held n)
unfolding apply_each shifted Covers
apply_each_newer ts [] n h r c = refl
apply_each_newer ts (s ∷ ss) n h (lo, r) (bound, c) =
    let e : ltb ts s.tstamp ≡ true = ground arith in
    let a = apply_shift_new ts n s (omega arith) lo (bound e) in
    let next =
      apply_each_newer ts ss (apply_shift n s) (omega (arith, a.time)) (rw a.time r)
        (rw (a.place, a.bound) c) in
    next ∙ rw (e, a.holds) refl

-- The replay of a whole log.
pub apply_each-shifted :
    (lo : ℕ) (ss : List Shift) (n : Node)
    → Rising lo ss
    → Covers n.tstamp ss n.key.pos n.max
    → held (apply_each n ss) ≡ shifted n.tstamp ss (held n)
unfolding apply_each shifted Covers slid
apply_each-shifted lo [] n r c = refl
apply_each-shifted lo (s ∷ ss) n (l, r) (bound, c) = elim (Bool-cases (ltb n.tstamp s.tstamp)) [
  | inl e ↦
      let a = apply_shift_new n.tstamp n s (ground arith) (ground arith) (bound e) in
      let next =
        apply_each_newer n.tstamp ss (apply_shift n s) (ground (arith, a.time)) (rw a.time r)
          (rw (a.place, a.bound) c) in
      next ∙ rw (e, a.holds) refl
  | inr e ↦
      let old : apply_shift n s ≡ n = apply_shift_old n s (ground arith) in
      let c' : Covers n.tstamp ss n.key.pos n.max = rw e at c in
      rw (e, old, apply_each, shifted) (apply_each-shifted s.tstamp ss n r c')
]

pub Rising-below :
    (lo : ℕ) (ss : List Shift) (i : ℕ) (t : Shift)
    → Rising lo ss
    → get_elem? ss i ≡ some t
    → lo < t.tstamp
Rising-below lo [] i t r e = absurd (ground arith)
Rising-below lo (s ∷ ss) zero t (l, r) e = let same : s ≡ t = ground arith in rw (sym same) l
Rising-below lo (s ∷ ss) (suc i) t (l, r) e = omega (arith, Rising-below s.tstamp ss i t r e)

-- The shifts up to one that is not newer are skipped.
pub apply_each-drop :
    (lo : ℕ) (ss : List Shift) (i : ℕ) (t : Shift) (n : Node)
    → Rising lo ss
    → get_elem? ss i ≡ some t
    → t.tstamp ≤ n.tstamp
    → apply_each n (drop (suc i) ss) ≡ apply_each n ss
unfolding apply_each
apply_each-drop lo [] i t n r e h = absurd (ground arith)
apply_each-drop lo (s ∷ ss) zero t n (l, r) e h =
    let same : s ≡ t = ground arith in
    let old : s.tstamp ≤ n.tstamp = rw same h in rw (apply_shift_old n s old) refl
apply_each-drop lo (s ∷ ss) (suc i) t n (l, r) e h =
    let old : s.tstamp ≤ n.tstamp = omega (arith, Rising-below s.tstamp ss i t r e) in
    rw (apply_shift_old n s old) (apply_each-drop s.tstamp ss i t n r e h)
