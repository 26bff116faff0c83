-- ===== src/IntervalTree/Contents.antt =====
-- What the operations of src/interval_tree.c read in a tree, in order: each node as the replay of the
-- log leaves it. Rotating and rebalancing do not change it. Replay compares it with shifting at once.
use libpeg.Prelude.{
  ℕ, zero, suc, ◌+◌, ◌≡◌, refl, sym, ap, ◌∙◌, List, [], ◌∷◌, ◌++◌, some, ltb, Bool-cases,
  >>=-eq-some, inl, inr,
}
use mathlib.Core.Path.{subst}
use mathlib.Core.List.{append_assoc}
use mathlib.Core.Option.{some-injective, some-ne-none}
use libpeg.IntervalTree.Node.{Node, Tree, leaf, node, Shift, update_max, update_height, height_of}
use libpeg.IntervalTree.Shifts.{apply_shifts}
use libpeg.IntervalTree.Balance.{
  update, left_of, right_of, with_left, with_right, rotate_left, rotate_right, leans_left,
  leans_right, left_ready, right_ready, rebalance_loop,
}
use libpeg.IntervalTree.Current.{
  IsCurrent, Group, held, group, replay_done, group-apply_shifts, apply_shifts-IsCurrent,
}

module _ (log : List Shift) where
  unfoldable pub contents : Tree → List Group
  contents leaf = []
  contents (node n l r) = contents l ++ (group log n ∷ contents r)

  -- the root is up to date
  abbrev pub IsCurrentRoot : Tree → Type 0
  IsCurrentRoot leaf = Unit
  IsCurrentRoot (node n l r) = IsCurrent log n

  pub update-IsCurrent : (n : Node) (l r : Tree) → IsCurrent log n → IsCurrent log (update n l r)
  unfolding update update_max update_height
  update-IsCurrent n l r c = c

  group-update : (n : Node) (l r : Tree) → IsCurrent log n → group log (update n l r) ≡ group log n
  unfolding update update_max update_height
  group-update n l r c =
      ap held (replay_done log _ (update-IsCurrent n l r c)) ∙ sym (ap held (replay_done log n c))

  -- a node that is brought up to date and then updated over other children
  group-moved :
      (n : Node) (l r l' r' : Tree)
      → group log (update (apply_shifts log n l r) l' r') ≡ group log n
  group-moved n l r l' r' =
      group-update _ l' r' (apply_shifts-IsCurrent log n l r) ∙ group-apply_shifts log n l r

  -- A rotation keeps the contents and leaves a current root.
  pub rotate_right-contents :
      (t t' : Tree)
      → rotate_right log t ≡ some t'
      → (contents t' ≡ contents t) × IsCurrentRoot t' × IsCurrentRoot (right_of t')
  unfolding rotate_right contents
  rotate_right-contents leaf t' e = absurd (some-ne-none _ (sym e))
  rotate_right-contents (node n leaf r) t' e = absurd (some-ne-none _ (sym e))
  rotate_right-contents (node n (node m a b) r) t' e =
      subst
        (λ t.
          (contents t ≡ contents (node n (node m a b) r))
          × IsCurrentRoot t
          × IsCurrentRoot (right_of t))
        (some-injective _ t' e)
        (
          rw (group-moved n (node m a b) r b r, group-moved m a b a _)
              (sym
                (append_assoc (contents a) (group log m ∷ contents b) (group log n ∷ contents r))),
          update-IsCurrent _ _ _ (apply_shifts-IsCurrent log m a b),
          update-IsCurrent _ _ _ (apply_shifts-IsCurrent log n (node m a b) r),
        )

  pub rotate_left-contents :
      (t t' : Tree)
      → rotate_left log t ≡ some t'
      → (contents t' ≡ contents t) × IsCurrentRoot t' × IsCurrentRoot (left_of t')
  unfolding rotate_left contents
  rotate_left-contents leaf t' e = absurd (some-ne-none _ (sym e))
  rotate_left-contents (node n l leaf) t' e = absurd (some-ne-none _ (sym e))
  rotate_left-contents (node n l (node m b r)) t' e =
      subst
        (λ t.
          (contents t ≡ contents (node n l (node m b r)))
          × IsCurrentRoot t
          × IsCurrentRoot (left_of t))
        (some-injective _ t' e)
        (
          rw (group-moved n l (node m b r) l b, group-moved m b r _ r)
              (append_assoc (contents l) (group log n ∷ contents b) (group log m ∷ contents r)),
          update-IsCurrent _ _ _ (apply_shifts-IsCurrent log m b r),
          update-IsCurrent _ _ _ (apply_shifts-IsCurrent log n l (node m b r)),
        )

  left_ready-contents : (l l' : Tree) → left_ready log l ≡ some l' → contents l' ≡ contents l
  left_ready-contents l l' e = elim (Bool-cases (leans_right log l)) [
    | inl tall ↦ (rotate_left-contents l l' (rw (tall, left_ready) at e)).0
    | inr even ↦ ap contents (sym (some-injective l l' (rw (even, left_ready) at e)))
  ]

  right_ready-contents : (r r' : Tree) → right_ready log r ≡ some r' → contents r' ≡ contents r
  right_ready-contents r r' e = elim (Bool-cases (leans_left log r)) [
    | inl tall ↦ (rotate_right-contents r r' (rw (tall, right_ready) at e)).0
    | inr even ↦ ap contents (sym (some-injective r r' (rw (even, right_ready) at e)))
  ]

  with_right-contents :
      (t d : Tree)
      → contents d ≡ contents (right_of t)
      → IsCurrentRoot t
      → (contents (with_right t d) ≡ contents t) × IsCurrentRoot (with_right t d)
  unfolding contents
  with_right-contents leaf d e c = (refl, tt)
  with_right-contents (node n l r) d e c = (ap (λ x. contents l ++ (group log n ∷ x)) e, c)

  with_left-contents :
      (t d : Tree)
      → contents d ≡ contents (left_of t)
      → IsCurrentRoot t
      → (contents (with_left t d) ≡ contents t) × IsCurrentRoot (with_left t d)
  unfolding contents
  with_left-contents leaf d e c = (refl, tt)
  with_left-contents (node n l r) d e c = (ap (λ x. x ++ (group log n ∷ contents r)) e, c)

  Kept : Tree → Tree → Type 0
  Kept t t' = (contents t' ≡ contents t) × IsCurrentRoot t'

  contents-update :
      (n : Node) (l r : Tree)
      → IsCurrent log n
      → contents (node (update n l r) l r) ≡ contents (node n l r)
  unfolding contents
  contents-update n l r c = ap (λ g. contents l ++ (g ∷ contents r)) (group-update n l r c)

  -- Whatever `iv_rebalance` returns holds what the tree held.
  pub rebalance_loop-contents :
      (fuel : ℕ) (t t' : Tree)
      → IsCurrentRoot t
      → rebalance_loop log fuel t ≡ some t'
      → (contents t' ≡ contents t) × IsCurrentRoot t'
  unfolding rebalance_loop contents
  rebalance_loop-contents fuel leaf t' c e =
      subst (λ t. (contents t ≡ contents leaf) × IsCurrentRoot t) (some-injective leaf t' e)
        (refl, tt)
  rebalance_loop-contents zero (node n l r) t' c e = absurd (some-ne-none _ (sym e))
  rebalance_loop-contents (suc fuel) (node n l r) t' c e =
      elim (Bool-cases (ltb (1 + height_of r) (height_of l))) [
        | inl left ↦
            let e1 = rw (left, rebalance_loop) at e in
            let (l', ready, e2) = >>=-eq-some (left_ready log l) _ e1 in
            let (u, rotated, e3) = >>=-eq-some (rotate_right log (node (update n l r) l' r)) _ e2 in
            let (d, low, e4) = >>=-eq-some (rebalance_loop log fuel (right_of u)) _ e3 in
            let turn = rotate_right-contents _ u rotated in
            let lower = rebalance_loop-contents fuel (right_of u) d turn.2 low in
            let put = with_right-contents u d lower.0 turn.1 in
            let rest = rebalance_loop-contents fuel (with_right u d) t' put.1 e4 in
            let before : contents (node (update n l r) l' r) ≡ contents (node n l r) =
              ap (λ x. x ++ (group log (update n l r) ∷ contents r))
                (left_ready-contents l l' ready)
              ∙ contents-update n l r c in
            (rest.0 ∙ put.0 ∙ turn.0 ∙ before, rest.1)
        | inr keep ↦ elim (Bool-cases (ltb (1 + height_of l) (height_of r))) [
          | inl right ↦
              let e1 = rw (keep, right, rebalance_loop) at e in
              let (r', ready, e2) = >>=-eq-some (right_ready log r) _ e1 in
              let (u, rotated, e3) =
                >>=-eq-some (rotate_left log (node (update n l r) l r')) _ e2 in
              let (d, low, e4) = >>=-eq-some (rebalance_loop log fuel (left_of u)) _ e3 in
              let turn = rotate_left-contents _ u rotated in
              let lower = rebalance_loop-contents fuel (left_of u) d turn.2 low in
              let put = with_left-contents u d lower.0 turn.1 in
              let rest = rebalance_loop-contents fuel (with_left u d) t' put.1 e4 in
              let before : contents (node (update n l r) l r') ≡ contents (node n l r) =
                ap (λ x. contents l ++ (group log (update n l r) ∷ x))
                  (right_ready-contents r r' ready)
                ∙ contents-update n l r c in
              (rest.0 ∙ put.0 ∙ turn.0 ∙ before, rest.1)
          | inr even ↦
              let e1 = rw (keep, even, rebalance_loop) at e in
              subst (λ t. (contents t ≡ contents (node n l r)) × IsCurrentRoot t)
                (some-injective _ t' e1) (contents-update n l r c, update-IsCurrent n l r c)
        ]
      ]
