-- ===== src/IntervalTree/Heights.antt =====
-- The heights that rotations make of AVL trees.
use libpeg.Prelude.{ℕ, ◌+◌, ◌≤◌, ◌<◌, ◌≡◌, max, refl, sym, false, ltb, arith}
use native.Mathlib.Decide.{dec_lt}
use libpeg.IntervalTree.Node.{Node, Tree, leaf, node, update_max, update_height, height_of}
use libpeg.IntervalTree.Balance.{update}

abbrev pub IsAvl : Tree → Type 0
IsAvl leaf = Unit
IsAvl (node n l r) =
    IsAvl l
    × IsAvl r
    × (n.height ≡ 1 + max (height_of l) (height_of r))
    × (height_of l ≤ height_of r + 1)
    × (height_of r ≤ height_of l + 1)

abbrev pub IsEven : Tree → Type 0
IsEven leaf = ⊥
IsEven (node n l r) = height_of l ≡ height_of r

-- what rebalancing makes of two AVL trees
pub record IsFixed (l r t : Tree) : Type 0 where
  pub avl : IsAvl t
  pub lower : max (height_of l) (height_of r) ≤ height_of t
  pub upper : height_of t ≤ 1 + max (height_of l) (height_of r)
  pub level :
      height_of l ≤ height_of r + 1
      → height_of r ≤ height_of l + 1
      → height_of t ≡ 1 + max (height_of l) (height_of r)
  pub left_even : IsEven l → height_of l ≡ height_of r + 2 → height_of t ≡ 1 + height_of l
  pub right_even : IsEven r → height_of r ≡ height_of l + 2 → height_of t ≡ 1 + height_of r

pub update_height_lem :
    (n : Node) (l r : Tree) → (update n l r).height ≡ 1 + max (height_of l) (height_of r)
unfolding update update_max update_height
update_height_lem n l r = refl

pub lt_false : (a b : ℕ) → b ≤ a → ltb a b ≡ false
lt_false a b h = ground arith

pub level-IsFixed :
    (n : Node) (l r : Tree)
    → IsAvl l
    → IsAvl r
    → height_of l ≤ height_of r + 1
    → height_of r ≤ height_of l + 1
    → IsFixed l r (node (update n l r) l r)
level-IsFixed n l r al ar p q =
    let h = update_height_lem n l r in
    record {
      avl = (al, ar, h, p, q);
      lower = omega arith;
      upper = omega arith;
      level = λ _ _. h;
      left_even = λ _ e. absurd (omega arith);
      right_even = λ _ e. absurd (omega arith);
    }

-- A single rotation to the right: `d` is the rebalanced demoted node.
pub single_right :
    (m : Node) (a b r d t : Tree)
    → IsAvl (node m a b)
    → height_of b ≤ height_of a
    → height_of r + 1 < m.height
    → IsFixed b r d
    → IsFixed a d t
    → IsFixed (node m a b) r t
single_right m a b r d t (_, _, hm, p, q) e far fd ft =
    let h : height_of t ≡ 1 + max (height_of a) (height_of d) =
      ft.level (omega (arith, fd.lower, fd.upper)) (omega (arith, fd.lower, fd.upper)) in
    record {
      avl = ft.avl;
      lower = omega (arith, fd.lower, fd.upper);
      upper = omega (arith, fd.lower, fd.upper);
      level = λ x _. absurd (omega arith);
      left_even = λ even two.
          let hd : height_of d ≡ 1 + max (height_of b) (height_of r) =
            fd.level (omega arith) (omega arith) in
          omega arith;
      right_even = λ _ two. absurd (omega arith);
    }

-- A double rotation to the right: `x` is the lower left node after the first.
pub double_right :
    (m k x : Node) (a b c r d t : Tree)
    → IsAvl (node m a (node k b c))
    → height_of a < k.height
    → height_of r + 1 < m.height
    → x.height ≡ 1 + max (height_of a) (height_of b)
    → IsFixed c r d
    → IsFixed (node x a b) d t
    → IsFixed (node m a (node k b c)) r t
double_right m k x a b c r d t (_, (_, _, hk, p', q'), hm, p, q) e far hx fd ft =
    let (lo, hi) : (m.height ≤ height_of t) × (height_of t ≤ 1 + m.height) =
      elim (dec_lt (height_of d + 1) x.height) [
        | no near ↦
            let h : height_of t ≡ 1 + max x.height (height_of d) =
              ft.level (omega arith) (omega (arith, fd.lower, fd.upper)) in
            (omega (arith, fd.lower, fd.upper), omega (arith, fd.lower, fd.upper))
        | yes apart ↦
            let h : height_of t ≡ 1 + x.height =
              ft.left_even (omega (arith, fd.lower, fd.upper))
                (omega (arith, fd.lower, fd.upper)) in
            (omega (arith, fd.lower, fd.upper), omega (arith, fd.lower, fd.upper))
      ] in
    record {
      avl = ft.avl;
      lower = omega arith;
      upper = omega arith;
      level = λ u _. absurd (omega arith);
      left_even = λ even two. absurd (omega arith);
      right_even = λ _ two. absurd (omega arith);
    }

-- `IsFixed` reads only heights, so it holds of the mirror images as well.
mirror :
    (l r l' r' t : Tree)
    → height_of l' ≡ height_of l
    → (IsEven l' → IsEven l)
    → height_of r' ≡ height_of r
    → (IsEven r' → IsEven r)
    → IsFixed l r t
    → IsFixed r' l' t
mirror l r l' r' t hl el hr er f = record {
  avl = f.avl;
  lower = omega (arith, f.lower);
  upper = omega (arith, f.upper);
  level = λ p q. omega (arith, f.level (omega arith) (omega arith));
  left_even = λ e two. omega (arith, f.right_even (er e) (omega arith));
  right_even = λ e two. omega (arith, f.left_even (el e) (omega arith));
}

pub single_left :
    (m : Node) (a b l d t : Tree)
    → IsAvl (node m b a)
    → height_of b ≤ height_of a
    → height_of l + 1 < m.height
    → IsFixed l b d
    → IsFixed d a t
    → IsFixed l (node m b a) t
single_left m a b l d t (ib, ia, hm, p, q) e far fd ft =
    mirror (node m a b) l (node m b a) l t refl (λ x. sym x) refl (λ x. x)
      (single_right m a b l d t (ia, ib, omega arith, q, p) e far
        (mirror l b l b d refl (λ x. x) refl (λ x. x) fd)
        (mirror d a d a t refl (λ x. x) refl (λ x. x) ft))

pub double_left :
    (m k x : Node) (a b c l d t : Tree)
    → IsAvl (node m (node k c b) a)
    → height_of a < k.height
    → height_of l + 1 < m.height
    → x.height ≡ 1 + max (height_of b) (height_of a)
    → IsFixed l c d
    → IsFixed d (node x b a) t
    → IsFixed l (node m (node k c b) a) t
double_left m k x a b c l d t ((ic, ib, hk, p', q'), ia, hm, p, q) e far hx fd ft =
    mirror (node m a (node k b c)) l (node m (node k c b) a) l t refl (λ e. sym e) refl (λ e. e)
      (double_right m k x a b c l d t (ia, (ib, ic, omega arith, q', p'), omega arith, q, p) e far
        (omega arith) (mirror l c l c d refl (λ e. e) refl (λ e. e) fd)
        (mirror d (node x b a) d (node x a b) t refl (λ e. e) refl (λ e. sym e) ft))
