-- ===== src/IntervalTree/Covered.antt =====
-- Rebalancing in src/interval_tree.c leaves the `max` of every node a bound on its position.
use libpeg.Prelude.{
  ℕ, zero, suc, ◌+◌, ◌-◌, ◌≤◌, ◌≡◌, refl, sym, false, List, [], ◌∷◌, some, get_elem?, length, ltb,
  arith, Bool-cases, inl, inr, >>=-eq-some,
}
use mathlib.Core.Path.{subst}
use mathlib.Core.Option.{some-injective, some-ne-none}
use libpeg.Prelude.Int.{ℤ}
use libpeg.IntervalTree.Node.{Node, Tree, leaf, node, Shift, height_of}
use libpeg.IntervalTree.Shifts.{newer, apply_shifts}
use libpeg.IntervalTree.Balance.{
  update, left_of, right_of, with_left, with_right, rotate_left, rotate_right, leans_left,
  leans_right, left_ready, right_ready, rebalance_loop, rebalance,
}
use libpeg.IntervalTree.Current.{IsCurrent, get_elem?-inside, apply_shifts-IsCurrent}
use libpeg.IntervalTree.Contents.{
  IsCurrentRoot, update-IsCurrent, rotate_left-contents, rotate_right-contents,
}
use libpeg.IntervalTree.Eager.{Rising, IsLog, Covers, AllCovered, Rising-below}

-- A log without newer shifts asks nothing of the bound.
old-Covers :
    (lo : ℕ) (ss : List Shift) (k : ℕ) (t : Shift) (ts : ℕ) (p m : ℤ)
    → Rising lo ss
    → length ss ≡ suc k
    → get_elem? ss k ≡ some t
    → t.tstamp ≤ ts
    → Covers ts ss p m
unfolding Covers
old-Covers lo [] k t ts p m r n e h = tt
old-Covers lo (s ∷ []) zero t ts p m r n e h =
    let same : s ≡ t = ground arith in
    let old : s.tstamp ≤ ts = rw same h in (λ more. ground arith, tt)
old-Covers lo (s ∷ x ∷ ss) zero t ts p m r n e h = absurd (omega arith)
old-Covers lo (s ∷ ss) (suc k) t ts p m (l, r) n e h =
    let later = Rising-below s.tstamp ss k t r e in
    (λ more. ground arith, old-Covers s.tstamp ss k t ts _ _ r (omega arith) e h)

module _ (log : List Shift) (i : IsLog log) where
  pub current-Covers : (n : Node) → IsCurrent log n → Covers n.tstamp log n.key.pos n.max
  unfolding Covers
  current-Covers n c = go log refl
    where
      go : (ss : List Shift) → log ≡ ss → Covers n.tstamp log n.key.pos n.max
      go [] e = rw e tt
      go (s ∷ ss) e =
          let size : length log ≡ suc (length ss) = rw e refl in
          let last : length log - 1 ≡ length ss = omega arith in
          let (t, f) = get_elem?-inside log (length ss) (omega arith) in
          let old : newer (some t) n.tstamp ≡ false = rw (last, f) at c in
          old-Covers 0 log (length ss) t n.tstamp n.key.pos n.max i size f (ground arith)

  -- a node that is brought up to date, and then updated over any children
  fresh-Covers :
      (n : Node) (l r l' r' : Tree)
      → let m = update (apply_shifts log n l r) l' r' in Covers m.tstamp log m.key.pos m.max
  fresh-Covers n l r l' r' =
      current-Covers (update (apply_shifts log n l r) l' r')
        (update-IsCurrent log (apply_shifts log n l r) l' r' (apply_shifts-IsCurrent log n l r))

  rotate_right-AllCovered :
      (t t' : Tree) → rotate_right log t ≡ some t' → AllCovered log t → AllCovered log t'
  unfolding rotate_right
  rotate_right-AllCovered leaf t' e c = absurd (some-ne-none _ (sym e))
  rotate_right-AllCovered (node n leaf r) t' e c = absurd (some-ne-none _ (sym e))
  rotate_right-AllCovered (node n (node m a b) r) t' e (cn, (cm, ca, cb), cr) =
      subst (AllCovered log) (some-injective _ t' e)
        (fresh-Covers m a b a _, ca, (fresh-Covers n (node m a b) r b r, cb, cr))

  rotate_left-AllCovered :
      (t t' : Tree) → rotate_left log t ≡ some t' → AllCovered log t → AllCovered log t'
  unfolding rotate_left
  rotate_left-AllCovered leaf t' e c = absurd (some-ne-none _ (sym e))
  rotate_left-AllCovered (node n l leaf) t' e c = absurd (some-ne-none _ (sym e))
  rotate_left-AllCovered (node n l (node m b r)) t' e (cn, cl, (cm, cb, cr)) =
      subst (AllCovered log) (some-injective _ t' e)
        (fresh-Covers m b r _ r, (fresh-Covers n l (node m b r) l b, cl, cb), cr)

  left_ready-AllCovered :
      (l l' : Tree) → left_ready log l ≡ some l' → AllCovered log l → AllCovered log l'
  left_ready-AllCovered l l' e c = elim (Bool-cases (leans_right log l)) [
    | inl tall ↦ rotate_left-AllCovered l l' (rw (tall, left_ready) at e) c
    | inr even ↦ subst (AllCovered log) (some-injective l l' (rw (even, left_ready) at e)) c
  ]

  right_ready-AllCovered :
      (r r' : Tree) → right_ready log r ≡ some r' → AllCovered log r → AllCovered log r'
  right_ready-AllCovered r r' e c = elim (Bool-cases (leans_left log r)) [
    | inl tall ↦ rotate_right-AllCovered r r' (rw (tall, right_ready) at e) c
    | inr even ↦ subst (AllCovered log) (some-injective r r' (rw (even, right_ready) at e)) c
  ]

  right_of-AllCovered : (t : Tree) → AllCovered log t → AllCovered log (right_of t)
  right_of-AllCovered leaf c = tt
  right_of-AllCovered (node n l r) (cn, cl, cr) = cr

  left_of-AllCovered : (t : Tree) → AllCovered log t → AllCovered log (left_of t)
  left_of-AllCovered leaf c = tt
  left_of-AllCovered (node n l r) (cn, cl, cr) = cl

  -- a new child under a covered and current root
  with_right-AllCovered :
      (t d : Tree)
      → AllCovered log t
      → IsCurrentRoot log t
      → AllCovered log d
      → AllCovered log (with_right t d) × IsCurrentRoot log (with_right t d)
  with_right-AllCovered leaf d c k h = (tt, tt)
  with_right-AllCovered (node n l r) d (cn, cl, cr) k h = ((cn, cl, h), k)

  with_left-AllCovered :
      (t d : Tree)
      → AllCovered log t
      → IsCurrentRoot log t
      → AllCovered log d
      → AllCovered log (with_left t d) × IsCurrentRoot log (with_left t d)
  with_left-AllCovered leaf d c k h = (tt, tt)
  with_left-AllCovered (node n l r) d (cn, cl, cr) k h = ((cn, h, cr), k)

  rebalance_loop-AllCovered :
      (fuel : ℕ) (t t' : Tree)
      → IsCurrentRoot log t
      → AllCovered log t
      → rebalance_loop log fuel t ≡ some t'
      → AllCovered log t'
  unfolding rebalance_loop
  rebalance_loop-AllCovered fuel leaf t' k c e =
      subst (AllCovered log) (some-injective leaf t' e) tt
  rebalance_loop-AllCovered zero (node n l r) t' k c e = absurd (some-ne-none _ (sym e))
  rebalance_loop-AllCovered (suc fuel) (node n l r) t' k (cn, cl, cr) e =
      let root = current-Covers (update n l r) (update-IsCurrent log n l r k) in
      elim (Bool-cases (ltb (1 + height_of r) (height_of l))) [
        | inl left ↦
            let e1 = rw (left, rebalance_loop) at e in
            let (l', ready, e2) = >>=-eq-some (left_ready log l) _ e1 in
            let (u, rotated, e3) = >>=-eq-some (rotate_right log (node (update n l r) l' r)) _ e2 in
            let (d, low, e4) = >>=-eq-some (rebalance_loop log fuel (right_of u)) _ e3 in
            let turn = rotate_right-contents log _ u rotated in
            let cu =
              rotate_right-AllCovered _ u rotated (root, left_ready-AllCovered l l' ready cl, cr) in
            let cd =
              rebalance_loop-AllCovered fuel (right_of u) d turn.2 (right_of-AllCovered u cu) low in
            let put = with_right-AllCovered u d cu turn.1 cd in
            rebalance_loop-AllCovered fuel (with_right u d) t' put.1 put.0 e4
        | inr keep ↦ elim (Bool-cases (ltb (1 + height_of l) (height_of r))) [
          | inl right ↦
              let e1 = rw (keep, right, rebalance_loop) at e in
              let (r', ready, e2) = >>=-eq-some (right_ready log r) _ e1 in
              let (u, rotated, e3) =
                >>=-eq-some (rotate_left log (node (update n l r) l r')) _ e2 in
              let (d, low, e4) = >>=-eq-some (rebalance_loop log fuel (left_of u)) _ e3 in
              let turn = rotate_left-contents log _ u rotated in
              let cu =
                rotate_left-AllCovered _ u rotated
                  (root, cl, right_ready-AllCovered r r' ready cr) in
              let cd =
                rebalance_loop-AllCovered fuel (left_of u) d turn.2 (left_of-AllCovered u cu) low in
              let put = with_left-AllCovered u d cu turn.1 cd in
              rebalance_loop-AllCovered fuel (with_left u d) t' put.1 put.0 e4
          | inr even ↦
              subst (AllCovered log) (some-injective _ t' (rw (keep, even, rebalance_loop) at e))
                (root, cl, cr)
        ]
      ]

  -- Rebalancing a current node over covered trees gives a covered tree.
  pub rebalance-AllCovered :
      (n : Node) (l r t : Tree)
      → IsCurrent log n
      → AllCovered log l
      → AllCovered log r
      → rebalance log (node n l r) ≡ some t
      → AllCovered log t
  unfolding rebalance
  rebalance-AllCovered n l r t k cl cr e =
      rebalance_loop-AllCovered (height_of l + height_of r + 4) (node n l r) t k
        (current-Covers n k, cl, cr) e
