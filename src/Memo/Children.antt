-- ===== src/Memo/Children.antt =====
-- The three views of a capture's children agree: they are one flat list.
use libpeg.Prelude.{
  ℕ, zero, suc, ◌+◌, ◌-◌, ◌≤◌, ◌<◌, ◌≡◌, refl, ap, ◌∙◌, true, false, List, [], ◌∷◌, ◌++◌, none,
  some, ◌==◌, length, length-append, get_elem?, arith,
}
use native.Mathlib.Decide.{dec_lt}
use libpeg.Memo.Capture.{
  Capture, Captures, node, dummy, end, capture, children_of, num_loop, num_children, each_loop,
  each_child, child_loop, child,
}

num_loop-each : (cs : Captures) → num_loop cs ≡ length (each_loop cs)
unfolding num_loop each_loop
num_loop-each end = refl
num_loop-each (capture (node id cs) ds) = ap suc (num_loop-each ds)
num_loop-each (capture (dummy cs) ds) =
    omega (arith, num_loop-each cs, num_loop-each ds, length-append (each_loop cs) (each_loop ds))

get_elem?-left :
    (xs ys : List Capture) (n : ℕ) → n < length xs → get_elem? (xs ++ ys) n ≡ get_elem? xs n
get_elem?-left [] ys n h = absurd (omega arith)
get_elem?-left (x ∷ xs) ys zero h = refl
get_elem?-left (x ∷ xs) ys (suc n) h = get_elem?-left xs ys n (omega arith)

get_elem?-right :
    (xs ys : List Capture) (n : ℕ)
    → length xs ≤ n
    → get_elem? (xs ++ ys) n ≡ get_elem? ys (n - length xs)
get_elem?-right [] ys n h = let e : n - 0 ≡ n = omega arith in rw e refl
get_elem?-right (x ∷ xs) ys zero h = absurd (omega arith)
get_elem?-right (x ∷ xs) ys (suc n) h =
    let e : suc n - suc (length xs) ≡ n - length xs = omega arith in
    rw e (get_elem?-right xs ys n (omega arith))

get_elem?-inside :
    (xs : List Capture) (n : ℕ) → n < length xs → (c : Capture) × (get_elem? xs n ≡ some c)
get_elem?-inside [] n h = absurd (omega arith)
get_elem?-inside (x ∷ xs) zero h = (x, refl)
get_elem?-inside (x ∷ xs) (suc n) h = get_elem?-inside xs n (omega arith)

get_elem?-past : (xs : List Capture) (n : ℕ) → length xs ≤ n → get_elem? xs n ≡ none
get_elem?-past [] n h = refl
get_elem?-past (x ∷ xs) zero h = absurd (omega arith)
get_elem?-past (x ∷ xs) (suc n) h = get_elem?-past xs n (omega arith)

child_loop_lem :
    (cs : Captures) (i n : ℕ) → i ≤ n → child_loop cs i n ≡ get_elem? (each_loop cs) (n - i)
unfolding child_loop each_loop
child_loop_lem end i n h = refl
child_loop_lem (capture (node id cs) ds) i n h = elim (dec_lt i n) [
  | yes p ↦
      let miss : (i == n) ≡ false = ground arith in
      let e : n - i ≡ suc (n - (i + 1)) = omega arith in
      rw (miss, e) (child_loop_lem ds (i + 1) n (omega arith))
  | no p ↦
      let hit : (i == n) ≡ true = ground arith in
      let e : n - i ≡ 0 = omega arith in rw (hit, e) refl
]
child_loop_lem (capture (dummy cs) ds) i n h =
    let here = child_loop_lem cs 0 (n - i) (omega arith) in
    let z : n - i - 0 ≡ n - i = omega arith in
    let count = num_loop-each cs in
    elim (dec_lt (n - i) (length (each_loop cs))) [
      | yes p ↦
          let (c, got) = get_elem?-inside (each_loop cs) (n - i) p in
          rw
            (
              here ∙ ap (get_elem? (each_loop cs)) z ∙ got,
              get_elem?-left (each_loop cs) (each_loop ds) (n - i) p,
              got,
            )
            refl
      | no p ↦
          let over = get_elem?-past (each_loop cs) (n - i) (omega arith) in
          let e : n - (i + num_loop cs) ≡ n - i - length (each_loop cs) = omega arith in
          rw
            (
              here ∙ ap (get_elem? (each_loop cs)) z ∙ over,
              get_elem?-right (each_loop cs) (each_loop ds) (n - i) (omega arith),
            )
            (child_loop_lem ds (i + num_loop cs) n (omega arith) ∙ ap (get_elem? (each_loop ds)) e)
    ]

-- `memo_capture_num_children` counts the captures that `memo_capture_each_child` visits, those inside
-- dummies among them (include/peg/memo.h says that it leaves these out), and `memo_capture_child` gives
-- the one with the index, from 0 on, or NULL past the last.
pub children_agree :
    (c : Capture)
    → (num_children c ≡ length (each_child c)) × ((n : ℕ) → child c n ≡ get_elem? (each_child c) n)
unfolding num_children each_child child
children_agree c = (
  num_loop-each (children_of c),
  λ n.
      let z : n - 0 ≡ n = omega arith in
      child_loop_lem (children_of c) 0 n (omega arith)
      ∙ ap (get_elem? (each_loop (children_of c))) z,
)
