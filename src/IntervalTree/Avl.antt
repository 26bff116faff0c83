-- ===== src/IntervalTree/Avl.antt =====
-- `iv_rebalance` of AVL trees, however far their heights are apart, returns an AVL tree that holds
-- the same. The fuel that `rebalance` gives is enough.
use libpeg.Prelude.{
  ℕ, zero, suc, ◌+◌, ◌≤◌, ◌<◌, ◌≡◌, max, refl, true, false, List, some, ltb, lt→ltb, arith,
}
use native.Mathlib.Decide.{dec_lt}
use libpeg.IntervalTree.Node.{Node, Tree, leaf, node, Shift, height_of}
use libpeg.IntervalTree.Shifts.{apply_shifts}
use libpeg.IntervalTree.Balance.{
  update, join, rotate_left, rotate_right, leans_left, leans_right, left_ready, right_ready,
  rebalance_loop, rebalance, left_of, right_of, with_left, with_right,
}
use libpeg.IntervalTree.Heights.{
  IsAvl, IsFixed, update_height_lem, lt_false, level-IsFixed, single_right, double_right,
  single_left, double_left,
}
use libpeg.IntervalTree.Contents.{contents, IsCurrentRoot, rebalance_loop-contents}
use libpeg.IntervalTree.Current.{IsCurrent}

module _ (log : List Shift) where
  abbrev Rebalanced : ℕ → Node → Tree → Tree → Type 0
  Rebalanced fuel n l r =
      (t : Tree) × (rebalance_loop log fuel (node n l r) ≡ some t) × IsFixed l r t

  abbrev Enough : ℕ → Tree → Tree → Type 0
  Enough fuel l r = (height_of l + 2 ≤ height_of r + fuel) × (height_of r + 2 ≤ height_of l + fuel)

  abbrev Induction : ℕ → Type 0
  Induction fuel =
      (n : Node) (l r : Tree) → IsAvl l → IsAvl r → Enough fuel l r → Rebalanced fuel n l r

  right_chain :
      (fuel : ℕ) (n : Node) (l r l' u d t : Tree)
      → ltb (1 + height_of r) (height_of l) ≡ true
      → left_ready log l ≡ some l'
      → rotate_right log (node (update n l r) l' r) ≡ some u
      → rebalance_loop log fuel (right_of u) ≡ some d
      → rebalance_loop log fuel (with_right u d) ≡ some t
      → rebalance_loop log (suc fuel) (node n l r) ≡ some t
  unfolding rebalance_loop
  right_chain fuel n l r l' u d t first ready turn low rest =
      rw (first, rebalance_loop) (rw ready (rw turn (rw low rest)))

  left_chain :
      (fuel : ℕ) (n : Node) (l r r' u d t : Tree)
      → ltb (1 + height_of r) (height_of l) ≡ false
      → ltb (1 + height_of l) (height_of r) ≡ true
      → right_ready log r ≡ some r'
      → rotate_left log (node (update n l r) l r') ≡ some u
      → rebalance_loop log fuel (left_of u) ≡ some d
      → rebalance_loop log fuel (with_left u d) ≡ some t
      → rebalance_loop log (suc fuel) (node n l r) ≡ some t
  unfolding rebalance_loop
  left_chain fuel n l r r' u d t stay first ready turn low rest =
      rw (stay, first, rebalance_loop) (rw ready (rw turn (rw low rest)))

  right_single :
      (fuel : ℕ) (n m : Node) (a b r : Tree)
      → Induction fuel
      → IsAvl (node m a b)
      → IsAvl r
      → height_of b ≤ height_of a
      → height_of r + 1 < m.height
      → Enough (suc fuel) (node m a b) r
      → Rebalanced (suc fuel) n (node m a b) r
  unfolding rotate_right
  right_single fuel n m a b r ih (ia, ib, hm, p, q) ar e far (u, v) =
      let lean : leans_right log (node m a b) ≡ false = lt_false _ _ e in
      let l = node m a b in
      let n' = apply_shifts log (update n l r) l r in
      let m' = apply_shifts log m a b in
      let (d, de, fd) = ih (update n' b r) b r ib ar (omega arith, omega arith) in
      let (t, te, ft) =
        ih (update m' a (join n' b r)) a d ia fd.avl
          (omega (arith, fd.lower, fd.upper), omega (arith, fd.lower, fd.upper)) in
      (
        t,
        right_chain fuel n l r l (join m' a (join n' b r)) d t (lt→ltb _ _ (omega arith))
            (rw (lean, left_ready) refl) refl de te,
        single_right m a b r d t (ia, ib, hm, p, q) e far fd ft,
      )

  right_double :
      (fuel : ℕ) (n m k : Node) (a b c r : Tree)
      → Induction fuel
      → IsAvl (node m a (node k b c))
      → IsAvl r
      → height_of a < k.height
      → height_of r + 1 < m.height
      → Enough (suc fuel) (node m a (node k b c)) r
      → Rebalanced (suc fuel) n (node m a (node k b c)) r
  unfolding rotate_right rotate_left
  right_double fuel n m k a b c r ih (ia, (ib, ic, hk, p', q'), hm, p, q) ar e far (u, v) =
      let lean : leans_right log (node m a (node k b c)) ≡ true = lt→ltb _ _ e in
      let l = node m a (node k b c) in
      let m' = apply_shifts log m a (node k b c) in
      let x = update m' a b in
      let hx : x.height ≡ 1 + max (height_of a) (height_of b) = update_height_lem m' a b in
      let k' = update (apply_shifts log k b c) (node x a b) c in
      let l' = node k' (node x a b) c in
      let n' = apply_shifts log (update n l r) l' r in
      let k'' = apply_shifts log k' (node x a b) c in
      let (d, de, fd) = ih (update n' c r) c r ic ar (omega arith, omega arith) in
      let (t, te, ft) =
        ih (update k'' (node x a b) (join n' c r)) (node x a b) d
          (ia, ib, hx, omega arith, omega arith) fd.avl
          (omega (arith, fd.lower, fd.upper), omega (arith, fd.lower, fd.upper)) in
      (
        t,
        right_chain fuel n l r l' (join k'' (node x a b) (join n' c r)) d t
            (lt→ltb _ _ (omega arith)) (rw (lean, left_ready) refl) refl de te,
        double_right m k x a b c r d t (ia, (ib, ic, hk, p', q'), hm, p, q) e far hx fd ft,
      )

  left_single :
      (fuel : ℕ) (n m : Node) (a b l : Tree)
      → Induction fuel
      → IsAvl (node m b a)
      → IsAvl l
      → height_of b ≤ height_of a
      → height_of l + 1 < m.height
      → Enough (suc fuel) l (node m b a)
      → Rebalanced (suc fuel) n l (node m b a)
  unfolding rotate_left
  left_single fuel n m a b l ih (ib, ia, hm, p, q) al e far (u, v) =
      let lean : leans_left log (node m b a) ≡ false = lt_false _ _ e in
      let r = node m b a in
      let n' = apply_shifts log (update n l r) l r in
      let m' = apply_shifts log m b a in
      let (d, de, fd) = ih (update n' l b) l b al ib (omega arith, omega arith) in
      let (t, te, ft) =
        ih (update m' (join n' l b) a) d a fd.avl ia
          (omega (arith, fd.lower, fd.upper), omega (arith, fd.lower, fd.upper)) in
      (
        t,
        left_chain fuel n l r r (join m' (join n' l b) a) d t (lt_false _ _ (omega arith))
            (lt→ltb _ _ (omega arith)) (rw (lean, right_ready) refl) refl de te,
        single_left m a b l d t (ib, ia, hm, p, q) e far fd ft,
      )

  left_double :
      (fuel : ℕ) (n m k : Node) (a b c l : Tree)
      → Induction fuel
      → IsAvl (node m (node k c b) a)
      → IsAvl l
      → height_of a < k.height
      → height_of l + 1 < m.height
      → Enough (suc fuel) l (node m (node k c b) a)
      → Rebalanced (suc fuel) n l (node m (node k c b) a)
  unfolding rotate_right rotate_left
  left_double fuel n m k a b c l ih ((ic, ib, hk, p', q'), ia, hm, p, q) al e far (u, v) =
      let lean : leans_left log (node m (node k c b) a) ≡ true = lt→ltb _ _ e in
      let r = node m (node k c b) a in
      let m' = apply_shifts log m (node k c b) a in
      let x = update m' b a in
      let hx : x.height ≡ 1 + max (height_of b) (height_of a) = update_height_lem m' b a in
      let k' = update (apply_shifts log k c b) c (node x b a) in
      let r' = node k' c (node x b a) in
      let n' = apply_shifts log (update n l r) l r' in
      let k'' = apply_shifts log k' c (node x b a) in
      let (d, de, fd) = ih (update n' l c) l c al ic (omega arith, omega arith) in
      let (t, te, ft) =
        ih (update k'' (join n' l c) (node x b a)) d (node x b a) fd.avl
          (ib, ia, hx, omega arith, omega arith)
          (omega (arith, fd.lower, fd.upper), omega (arith, fd.lower, fd.upper)) in
      (
        t,
        left_chain fuel n l r r' (join k'' (join n' l c) (node x b a)) d t
            (lt_false _ _ (omega arith)) (lt→ltb _ _ (omega arith)) (rw (lean, right_ready) refl)
            refl de te,
        double_left m k x a b c l d t ((ic, ib, hk, p', q'), ia, hm, p, q) e far hx fd ft,
      )

  right_heavy :
      (fuel : ℕ) (n : Node) (l r : Tree)
      → Induction fuel
      → IsAvl l
      → IsAvl r
      → height_of r + 1 < height_of l
      → Enough (suc fuel) l r
      → Rebalanced (suc fuel) n l r
  right_heavy fuel n leaf r ih al ar far en = absurd (omega arith)
  right_heavy fuel n (node m a leaf) r ih al ar far en =
      right_single fuel n m a leaf r ih al ar (omega arith) far en
  right_heavy fuel n (node m a (node k b c)) r ih al ar far en =
      elim (dec_lt (height_of a) k.height) [
        | yes p ↦ right_double fuel n m k a b c r ih al ar p far en
        | no p ↦ right_single fuel n m a (node k b c) r ih al ar (omega arith) far en
      ]

  left_heavy :
      (fuel : ℕ) (n : Node) (l r : Tree)
      → Induction fuel
      → IsAvl l
      → IsAvl r
      → height_of l + 1 < height_of r
      → Enough (suc fuel) l r
      → Rebalanced (suc fuel) n l r
  left_heavy fuel n l leaf ih al ar far en = absurd (omega arith)
  left_heavy fuel n l (node m leaf a) ih al ar far en =
      left_single fuel n m a leaf l ih ar al (omega arith) far en
  left_heavy fuel n l (node m (node k c b) a) ih al ar far en =
      elim (dec_lt (height_of a) k.height) [
        | yes p ↦ left_double fuel n m k a b c l ih ar al p far en
        | no p ↦ left_single fuel n m a (node k c b) l ih ar al (omega arith) far en
      ]

  rebalance_loop-IsFixed : (fuel : ℕ) → Induction fuel
  unfolding rebalance_loop
  rebalance_loop-IsFixed zero n l r al ar en = absurd (omega arith)
  rebalance_loop-IsFixed (suc fuel) n l r al ar en = elim (dec_lt (height_of r + 1) (height_of l)) [
    | yes p ↦ right_heavy fuel n l r (rebalance_loop-IsFixed fuel) al ar p en
    | no p ↦ elim (dec_lt (height_of l + 1) (height_of r)) [
      | yes q ↦ left_heavy fuel n l r (rebalance_loop-IsFixed fuel) al ar q en
      | no q ↦
          let a = lt_false (1 + height_of r) (height_of l) (omega arith) in
          let b = lt_false (1 + height_of l) (height_of r) (omega arith) in
          (
            node (update n l r) l r,
            rw (a, b, rebalance_loop) refl,
            level-IsFixed n l r al ar (omega arith) (omega arith),
          )
    ]
  ]

  -- What `iv_rebalance` makes of a current node over two AVL trees.
  pub record IsRebalanced (n : Node) (l r t : Tree) : Type 0 where
    pub avl : IsAvl t
    pub lower : max (height_of l) (height_of r) ≤ height_of t
    pub upper : height_of t ≤ 1 + max (height_of l) (height_of r)
    pub level :
        height_of l ≤ height_of r + 1
        → height_of r ≤ height_of l + 1
        → height_of t ≡ 1 + max (height_of l) (height_of r)
    pub keeps : contents log t ≡ contents log (node n l r)
    pub current : IsCurrentRoot log t

  -- Rebalancing a current node over two AVL trees of any heights returns an AVL tree with the same
  -- contents in the same order, at most one level higher than the higher of the two and no lower
  -- than it.
  pub rebalance-IsRebalanced :
      (n : Node) (l r : Tree)
      → IsAvl l
      → IsAvl r
      → IsCurrent log n
      → (t : Tree) × (rebalance log (node n l r) ≡ some t) × IsRebalanced n l r t
  unfolding rebalance
  rebalance-IsRebalanced n l r al ar c =
      let fuel = height_of l + height_of r + 4 in
      let (t, e, f) = rebalance_loop-IsFixed fuel n l r al ar (omega arith, omega arith) in
      let kept = rebalance_loop-contents log fuel (node n l r) t c e in
      (
        t,
        e,
        record {
          avl = f.avl;
          lower = f.lower;
          upper = f.upper;
          level = f.level;
          keeps = kept.0;
          current = kept.1;
        },
      )
