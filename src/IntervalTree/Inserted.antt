-- ===== src/IntervalTree/Inserted.antt =====
-- How a list of groups changes when `iv_add` of src/interval_tree.c puts an interval into its tree.
use libpeg.Prelude.{ℕ, ◌≡◌, sym, List, [], ◌∷◌, ◌++◌}
use mathlib.Core.List.{append_assoc}
use libpeg.Prelude.Int.{ℤ}
use libpeg.IntervalTree.Node.{Key, key_cmp, same, group_push}
use libpeg.IntervalTree.Current.{Group}
use libpeg.IntervalTree.Order.{
  Before, After, Ascending, Before-append, After-append, Ascending-left, Ascending-right,
  Ascending-Before, Ascending-between,
}

-- One place of the list differs: a new group, between the groups of smaller and of larger keys, or an
-- old one with the same key and one interval more. The handle is that group's.
module _ (key : Key) (high : ℤ) (value fresh : ℕ) where
  pub data Inserted (gs hs : List Group) (handle : ℕ) : Type 0 where
    new_group :
        (xs ys : List Group)
        → Before key xs
        → After key ys
        → gs ≡ xs ++ ys
        → hs
          ≡ xs
            ++ (record {
              key = key;
              iv = group_push (record { ins = []; handle = fresh }) key.pos high value;
            }
                ∷ ys)
        → handle ≡ fresh
        → Inserted gs hs handle
    old_group :
        (xs ys : List Group) (g : Group)
        → gs ≡ xs ++ (g ∷ ys)
        → hs ≡ xs ++ (record g { iv = group_push g.iv key.pos high value } ∷ ys)
        → key_cmp key g.key ≡ same
        → handle ≡ g.iv.handle
        → Inserted gs hs handle

  pub Inserted-Before :
      (zs gs hs : List Group) (h : ℕ)
      → Before key zs
      → Inserted gs hs h
      → Inserted (zs ++ gs) (zs ++ hs) h
  Inserted-Before zs gs hs h b (new_group xs ys p q e e' k) =
      new_group (zs ++ xs) ys (Before-append key zs xs b p) q (rw e (sym (append_assoc zs xs ys)))
        (rw e' (sym (append_assoc zs xs _))) k
  Inserted-Before zs gs hs h b (old_group xs ys g e e' s k) =
      old_group (zs ++ xs) ys g (rw e (sym (append_assoc zs xs (g ∷ ys))))
        (rw e' (sym (append_assoc zs xs _))) s k

  pub Inserted-After :
      (zs gs hs : List Group) (h : ℕ)
      → After key zs
      → Inserted gs hs h
      → Inserted (gs ++ zs) (hs ++ zs) h
  Inserted-After zs gs hs h b (new_group xs ys p q e e' k) =
      new_group xs (ys ++ zs) p (After-append key ys zs q b) (rw e (append_assoc xs ys zs))
        (rw e' (append_assoc xs _ zs)) k
  Inserted-After zs gs hs h b (old_group xs ys g e e' s k) =
      old_group xs (ys ++ zs) g (rw e (append_assoc xs (g ∷ ys) zs)) (rw e' (append_assoc xs _ zs))
        s k

  -- The keys still ascend.
  pub Inserted-Ascending :
      (gs hs : List Group) (h : ℕ) → Inserted gs hs h → Ascending gs → Ascending hs
  Inserted-Ascending gs hs h (new_group xs ys p q e e' k) a =
      let a' : Ascending (xs ++ ys) = rw e at a in
      rw e' (Ascending-between xs _ ys (Ascending-left xs ys a') p q (Ascending-right xs ys a'))
  Inserted-Ascending gs hs h (old_group xs ys g e e' s k) a =
      let a' : Ascending (xs ++ (g ∷ ys)) = rw e at a in
      let b = Ascending-right xs (g ∷ ys) a' in
      rw e' (
        Ascending-between xs _ ys (Ascending-left xs (g ∷ ys) a') (Ascending-Before xs g ys a') b.0
          b.1)
