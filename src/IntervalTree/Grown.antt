-- ===== src/IntervalTree/Grown.antt =====
-- `iv_add` of src/interval_tree.c: it returns, the tree stays an AVL tree, and one place of what its
-- operations read in it changes.
use libpeg.Prelude.{
  ℕ, ◌+◌, ◌≤◌, ◌≡◌, refl, sym, ap, ◌⊎◌, inl, inr, List, [], ◌∷◌, ◌++◌, some, arith,
}
use native.Mathlib.Decide.{dec_lt}
use libpeg.Prelude.Int.{ℤ}
use libpeg.IntervalTree.Node.{
  Key, Sign, key_cmp, less, same, more, Node, Tree, leaf, node, Shift, group_push, height_of,
}
use libpeg.IntervalTree.Shifts.{apply_shifts}
use libpeg.IntervalTree.Balance.{rebalance}
use libpeg.IntervalTree.Current.{
  IsCurrent, Group, held, group, replay_done, group-apply_shifts, held-apply_shifts,
  apply_shifts-IsCurrent,
}
use libpeg.IntervalTree.Contents.{contents}
use libpeg.IntervalTree.Heights.{IsAvl}
use libpeg.IntervalTree.Avl.{rebalance-IsRebalanced}
use libpeg.IntervalTree.Edit.{add, added}
use libpeg.IntervalTree.Order.{
  Precedes, more→Precedes, Ascending, After-trans, Before-trans, Ascending-left, Ascending-right,
  Ascending-Before,
}
use libpeg.IntervalTree.Eager.{IsLog, AllCovered}
use libpeg.IntervalTree.Covered.{current-Covers, rebalance-AllCovered}
use libpeg.IntervalTree.Inserted.{Inserted, new_group, old_group, Inserted-Before, Inserted-After}

Sign-cases : (s : Sign) → (s ≡ less) ⊎ (s ≡ more) ⊎ (s ≡ same)
Sign-cases less = inl refl
Sign-cases more = inr (inl refl)
Sign-cases same = inr (inr refl)

module _ (log : List Shift) (stamp : ℕ) (key : Key) (high : ℤ) (value fresh : ℕ) where
  -- what an insertion makes of a tree, in terms of what the tree's operations read
  pub record Grown (t t' : Tree) (handle : ℕ) : Type 0 where
    pub avl : IsAvl t'
    pub lower : height_of t ≤ height_of t'
    pub upper : height_of t' ≤ height_of t + 1
    pub covered : AllCovered log t'
    pub inserted : Inserted key high value fresh (contents log t) (contents log t') handle

  -- The interval joins the group of a current node.
  group-joined :
      (n : Node)
      → IsCurrent log (added log stamp key high value fresh)
      → group log (record n { iv = group_push n.iv key.pos high value; tstamp = stamp })
        ≡ record (held n) { iv = group_push n.iv key.pos high value }
  group-joined n c = ap held (replay_done log _ c)

  -- The `rebalance` that ends each branch.
  closing :
      (i : IsLog log) (n0 n : Node) (l r l' r' : Tree) (h : ℕ)
      → IsCurrent log n
      → AllCovered log l'
      → AllCovered log r'
      → IsAvl (node n0 l r)
      → IsAvl l'
      → IsAvl r'
      → height_of l ≤ height_of l'
      → height_of l' ≤ height_of l + 1
      → height_of r ≤ height_of r'
      → height_of r' ≤ height_of r + 1
      → (height_of l' ≡ height_of l) ⊎ (height_of r' ≡ height_of r)
      → Inserted key high value fresh (contents log (node n0 l r)) (contents log (node n l' r')) h
      → (t' : Tree) × (rebalance log (node n l' r') ≡ some t') × Grown (node n0 l r) t' h
  closing i n0 n l r l' r' h c cl cr (al, ar, hn, p, q) al' ar' a b d e one ins =
      let (t', eq, f) = rebalance-IsRebalanced log n l' r' al' ar' c in
      (
        t',
        eq,
        record {
          avl = f.avl;
          lower = elim (dec_lt (height_of r' + 1) (height_of l')) [
            | yes apart ↦ omega (arith, f.lower)
            | no near ↦ elim (dec_lt (height_of l' + 1) (height_of r')) [
              | yes apart ↦ omega (arith, f.lower)
              | no near' ↦ omega (arith, f.level (omega arith) (omega arith))
            ]
          ];
          upper = elim one [ inl x ↦ omega (arith, f.upper) | inr x ↦ omega (arith, f.upper) ];
          covered = rebalance-AllCovered log i n l' r' t' c cl cr eq;
          inserted = rw f.keeps ins;
        },
      )

  contents_node :
      (n0 : Node) (l r : Tree)
      → contents log (node (apply_shifts log n0 l r) l r) ≡ contents log (node n0 l r)
  unfolding contents
  contents_node n0 l r =
      ap (λ g. contents log l ++ (g ∷ contents log r)) (group-apply_shifts log n0 l r)

  pub add-Grown :
      (t : Tree)
      → IsAvl t
      → IsCurrent log (added log stamp key high value fresh)
      → IsLog log
      → AllCovered log t
      → Ascending (contents log t)
      → (t' : Tree) × (h : ℕ) × (add log stamp key high value fresh t ≡ some (t', h)) × Grown t t' h
  unfolding add contents
  add-Grown leaf av c i cov o =
      let n = added log stamp key high value fresh in
      (
        node n leaf leaf,
        fresh,
        refl,
        record {
          avl = (tt, tt, refl, omega arith, omega arith);
          lower = omega arith;
          upper = omega arith;
          covered = (current-Covers log i n c, tt, tt);
          inserted = new_group [] [] tt tt refl (ap (λ m. held m ∷ []) (replay_done log n c)) refl;
        },
      )
  add-Grown (node n0 l r) (al, ar, hn, p, q) c i (cn, cl, cr) o =
      let n = apply_shifts log n0 l r in
      let nc = apply_shifts-IsCurrent log n0 l r in
      let g0 = group log n0 in
      let k : n.key ≡ g0.key = ap (λ (g : Group). g.key) (held-apply_shifts log n0 l r) in
      let ol = Ascending-left (contents log l) (g0 ∷ contents log r) o in
      let or = Ascending-right (contents log l) (g0 ∷ contents log r) o in
      let smaller = Ascending-Before (contents log l) g0 (contents log r) o in
      elim (Sign-cases (key_cmp key n.key)) [
        | inl e ↦
            let first : Precedes key g0.key = rw k at e in
            let (l', h, eq, f) = add-Grown l al c i cl ol in
            let ins : Inserted key high value fresh (contents log (node n0 l r))
                (contents log (node n l' r)) h =
              rw (group-apply_shifts log n0 l r) (
                Inserted-After key high value fresh (group log n0 ∷ contents log r) _ _ h
                  (first, After-trans key g0.key (contents log r) first or.0) f.inserted) in
            let (t', re, g) =
              closing i n0 n l r l' r h nc f.covered cr (al, ar, hn, p, q) f.avl ar f.lower f.upper
                (omega arith) (omega arith) (inr refl) ins in
            (t', h, rw (e, add) (rw eq (rw re refl)), g)
        | inr (inl e) ↦
            let last : Precedes g0.key key = more→Precedes key g0.key (rw k at e) in
            let (r', h, eq, f) = add-Grown r ar c i cr or.1 in
            let ins : Inserted key high value fresh (contents log (node n0 l r))
                (contents log (node n l r')) h =
              rw (group-apply_shifts log n0 l r) (
                Inserted-Before key high value fresh (contents log l) _ _ h
                  (Before-trans g0.key key (contents log l) last smaller)
                  (Inserted-Before key high value fresh (group log n0 ∷ []) _ _ h (last, tt)
                    f.inserted)) in
            let (t', re, g) =
              closing i n0 n l r l r' h nc cl f.covered (al, ar, hn, p, q) al f.avl (omega arith)
                (omega arith) f.lower f.upper (inl refl) ins in
            (t', h, rw (e, add) (rw eq (rw re refl)), g)
        | inr (inr e) ↦
            let m = record n { iv = group_push n.iv key.pos high value; tstamp = stamp } in
            let held_is : held n ≡ group log n0 = held-apply_shifts log n0 l r in
            let ins : Inserted key high value fresh (contents log (node n0 l r))
                (contents log (node m l r)) n.iv.handle =
              old_group (contents log l) (contents log r) (held n)
                (ap (λ g. contents log l ++ (g ∷ contents log r)) (sym held_is))
                (ap (λ g. contents log l ++ (g ∷ contents log r)) (group-joined n c)) e refl in
            let (t', re, g) =
              closing i n0 m l r l r n.iv.handle c cl cr (al, ar, hn, p, q) al ar (omega arith)
                (omega arith) (omega arith) (omega arith) (inl refl) ins in
            (t', n.iv.handle, rw (e, add) (rw re refl), g)
      ]
