-- ===== src/IntervalTree/Order.antt =====
-- The order of the keys of src/interval_tree.c, and lists of groups in its order.
use libpeg.Prelude.{◌≡◌, ◌⊎◌, List, [], ◌∷◌, ◌++◌, arith}
use libpeg.Prelude.Int.{◌≤ℤ◌, ◌<ℤ◌}
use libpeg.IntervalTree.Node.{Key, key_cmp, less, more}
use libpeg.IntervalTree.Current.{Group}

-- `a` comes before `b`
abbrev pub Precedes : Key → Key → Type 0
Precedes a b = key_cmp a b ≡ less

abbrev Lexical : Key → Key → Type 0
Lexical a b = (a.pos <ℤ b.pos) ⊎ ((a.pos ≤ℤ b.pos) × (b.pos ≤ℤ a.pos) × (a.id <ℤ b.id))

Precedes→Lexical : (a b : Key) → Precedes a b → Lexical a b
unfolding key_cmp
Precedes→Lexical a b h = ground arith

Lexical→Precedes : (a b : Key) → Lexical a b → Precedes a b
unfolding key_cmp
Lexical→Precedes a b h = ground arith

pub Precedes-trans : (a b c : Key) → Precedes a b → Precedes b c → Precedes a c
Precedes-trans a b c p q =
    let x = Precedes→Lexical a b p in
    let y = Precedes→Lexical b c q in Lexical→Precedes a c (omega (arith, x, y))

pub Precedes-pos : (a b : Key) → Precedes a b → a.pos ≤ℤ b.pos
Precedes-pos a b p = omega (arith, Precedes→Lexical a b p)

more→Lexical : (a b : Key) → key_cmp a b ≡ more → Lexical b a
unfolding key_cmp
more→Lexical a b h = ground arith

pub more→Precedes : (a b : Key) → key_cmp a b ≡ more → Precedes b a
more→Precedes a b h = Lexical→Precedes b a (more→Lexical a b h)

-- all groups come after the key, and before it
abbrev pub After : Key → List Group → Type 0
After k [] = Unit
After k (g ∷ gs) = Precedes k g.key × After k gs

abbrev pub Before : Key → List Group → Type 0
Before k [] = Unit
Before k (g ∷ gs) = Precedes g.key k × Before k gs

-- The keys ascend strictly.
abbrev pub Ascending : List Group → Type 0
Ascending [] = Unit
Ascending (g ∷ gs) = After g.key gs × Ascending gs

pub After-trans : (a b : Key) (gs : List Group) → Precedes a b → After b gs → After a gs
After-trans a b [] p h = tt
After-trans a b (g ∷ gs) p (h, hs) = (Precedes-trans a b g.key p h, After-trans a b gs p hs)

pub Before-trans : (a b : Key) (gs : List Group) → Precedes a b → Before a gs → Before b gs
Before-trans a b [] p h = tt
Before-trans a b (g ∷ gs) p (h, hs) = (Precedes-trans g.key a b h p, Before-trans a b gs p hs)

module _ (k : Key) where
  pub After-append : (xs ys : List Group) → After k xs → After k ys → After k (xs ++ ys)
  After-append [] ys h i = i
  After-append (x ∷ xs) ys (h, hs) i = (h, After-append xs ys hs i)

  pub Before-append : (xs ys : List Group) → Before k xs → Before k ys → Before k (xs ++ ys)
  Before-append [] ys h i = i
  Before-append (x ∷ xs) ys (h, hs) i = (h, Before-append xs ys hs i)

  pub After-left : (xs ys : List Group) → After k (xs ++ ys) → After k xs
  After-left [] ys h = tt
  After-left (x ∷ xs) ys (h, hs) = (h, After-left xs ys hs)

  pub After-right : (xs ys : List Group) → After k (xs ++ ys) → After k ys
  After-right [] ys h = h
  After-right (x ∷ xs) ys (h, hs) = After-right xs ys hs

pub Ascending-left : (xs ys : List Group) → Ascending (xs ++ ys) → Ascending xs
Ascending-left [] ys h = tt
Ascending-left (x ∷ xs) ys (h, hs) = (After-left x.key xs ys h, Ascending-left xs ys hs)

pub Ascending-right : (xs ys : List Group) → Ascending (xs ++ ys) → Ascending ys
Ascending-right [] ys h = h
Ascending-right (x ∷ xs) ys (h, hs) = Ascending-right xs ys hs

pub Ascending-Before :
    (xs : List Group) (g : Group) (ys : List Group) → Ascending (xs ++ (g ∷ ys)) → Before g.key xs
Ascending-Before [] g ys h = tt
Ascending-Before (x ∷ xs) g ys (h, hs) =
    ((After-right x.key xs (g ∷ ys) h).0, Ascending-Before xs g ys hs)

-- A group between two lists.
pub Ascending-between :
    (xs : List Group) (g : Group) (ys : List Group)
    → Ascending xs
    → Before g.key xs
    → After g.key ys
    → Ascending ys
    → Ascending (xs ++ (g ∷ ys))
Ascending-between [] g ys a b c d = (c, d)
Ascending-between (x ∷ xs) g ys (a, as') (b, bs) c d = (
  After-append x.key xs (g ∷ ys) a (b, After-trans x.key g.key ys b c),
  Ascending-between xs g ys as' bs c d,
)
