-- ===== src/IntervalTree/Evict.antt =====
-- The loop of `iv_remove_overlaps` over the intervals of one node, which swaps the last interval into
-- the place of one that it drops.
use libpeg.Prelude.{
  ℕ, zero, suc, ◌≤◌, ◌≡◌, refl, ap, ◌∙◌, Bool, true, false, List, [], ◌∷◌, ◌++◌, length, arith,
  Bool-cases, inl, inr,
}
use mathlib.Core.List.{Perm, perm_middle}
use mathlib.Core.List.Perm
use libpeg.Prelude.Int.{ℤ}
use libpeg.IntervalTree.Node.{Ins, overlaps}
use libpeg.IntervalTree.Edit.{last_first, evict_loop, evict}

abbrev front : Ins → List Ins → List Ins
front x [] = x ∷ []
front x (y ∷ ys) = y ∷ x ∷ ys

last_first_cons : (x : Ins) (xs : List Ins) → last_first (x ∷ xs) ≡ front x (last_first xs)
unfolding last_first
last_first_cons x xs = go (last_first xs)
  where
    go : (ys : List Ins) → elim ys [ [] ↦ x ∷ [] | z ∷ zs ↦ z ∷ x ∷ zs ] ≡ front x ys
    go [] = refl
    go (y ∷ ys) = refl

Perm-front : (x : Ins) (ys : List Ins) → Perm (front x ys) (x ∷ ys)
Perm-front x [] = Perm.refl (x ∷ [])
Perm-front x (y ∷ ys) = Perm.swap x y ys

length-front : (x : Ins) (ys : List Ins) → length (front x ys) ≡ suc (length ys)
length-front x [] = refl
length-front x (y ∷ ys) = refl

Perm-last_first : (xs : List Ins) → Perm (last_first xs) xs
Perm-last_first [] = unfold last_first in Perm.refl []
Perm-last_first (x ∷ xs) =
    rw (last_first_cons x xs)
      (Perm.trans (Perm-front x (last_first xs)) (Perm.cons x (Perm-last_first xs)))

length-last_first : (xs : List Ins) → length (last_first xs) ≡ length xs
length-last_first [] = unfold last_first in refl
length-last_first (x ∷ xs) =
    rw (last_first_cons x xs) (length-front x (last_first xs) ∙ ap suc (length-last_first xs))

module _ (low high : ℤ) where
  -- every interval answers the overlap test so
  abbrev pub Answer : Bool → List Ins → Type 0
  Answer b [] = Unit
  Answer b (i ∷ is) = (overlaps i low high ≡ b) × Answer b is

  evict_loop_lem :
      (fuel : ℕ) (is : List Ins)
      → length is ≤ fuel
      → let (kept, gone) = evict_loop fuel low high is in
        Answer false kept × Answer true gone × Perm (gone ++ kept) is
  unfolding evict_loop
  evict_loop_lem zero [] h = (tt, tt, Perm.refl [])
  evict_loop_lem zero (i ∷ is) h = absurd (omega arith)
  evict_loop_lem (suc fuel) [] h = (tt, tt, Perm.refl [])
  evict_loop_lem (suc fuel) (i ∷ is) h = elim (Bool-cases (overlaps i low high)) [
    | inl hit ↦
        let (kept, gone, perm) =
          evict_loop_lem fuel (last_first is) (omega (arith, length-last_first is)) in
        rw (hit, evict_loop) (kept, (hit, gone), Perm.cons i (Perm.trans perm (Perm-last_first is)))
    | inr miss ↦
        let (kept, gone, perm) = evict_loop_lem fuel is (omega arith) in
        rw (miss, evict_loop) ((miss, kept), gone, Perm.trans (perm_middle _ _) (Perm.cons i perm))
  ]

-- The loop that drops the overlapping intervals of one node keeps exactly those that do not overlap
-- the range and evicts exactly those that do: every interval, as often as it stands there, is in one
-- of the two, in some order.
pub evict_lem :
    (low high : ℤ) (is : List Ins)
    → let (kept, gone) = evict low high is in
      Answer low high false kept × Answer low high true gone × Perm (gone ++ kept) is
unfolding evict
evict_lem low high is = evict_loop_lem low high (length is) is (omega arith)
