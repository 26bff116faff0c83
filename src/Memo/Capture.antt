-- ===== src/Memo/Capture.antt =====
-- The capture trees of src/memo.c and the operations that read them. A capture stands for its
-- value: the positions, which move with a memo entry, and the reference counts are left out.
use libpeg.Prelude.{
  ℕ, zero, suc, ◌+◌, ◌-◌, Bool, true, false, List, [], ◌∷◌, ◌++◌, Option, none, some, ◌==◌,
  if◌then◌else◌,
}
use libpeg.Prelude.Int.{ℤ}

-- `dummy` is CAP_DUMMY, whose children count as its parent's.
mutual
  pub data Capture : Type 0 where
    node : ℤ → Captures → Capture
    dummy : Captures → Capture

  pub data Captures : Type 0 where
    end : Captures
    capture : Capture → Captures → Captures

abbrev pub children_of : Capture → Captures
children_of (node id cs) = cs
children_of (dummy cs) = cs

-- `memo_capture_add`: the new child goes to the end of the array.
unfoldable pub append : Captures → Capture → Captures
append end c = capture c end
append (capture d ds) c = capture d (append ds c)

unfoldable pub add : Capture → Capture → Capture
unfolding append
add (node id cs) c = node id (append cs c)
add (dummy cs) c = dummy (append cs c)

-- `memo_capture_id`: a dummy's is 0.
abbrev pub id_of : Capture → ℤ
id_of (node id cs) = id
id_of (dummy cs) = libpeg.Prelude.Int.pos 0

-- `memo_capture_dummy_p`
abbrev pub dummy_p : Capture → Bool
dummy_p (node id cs) = false
dummy_p (dummy cs) = true

-- the loop of `memo_capture_num_children` over the array
unfoldable pub num_loop : Captures → ℕ
num_loop end = 0
num_loop (capture (node id cs) ds) = suc (num_loop ds)
num_loop (capture (dummy cs) ds) = num_loop cs + num_loop ds

unfoldable pub num_children : Capture → ℕ
unfolding num_loop
num_children c = num_loop (children_of c)

-- `capture_each`: the captures in the order of the callbacks
unfoldable pub each_loop : Captures → List Capture
each_loop end = []
each_loop (capture (node id cs) ds) = node id cs ∷ each_loop ds
each_loop (capture (dummy cs) ds) = each_loop cs ++ each_loop ds

unfoldable pub each_child : Capture → List Capture
unfolding each_loop
each_child c = each_loop (children_of c)

-- The loop of `memo_capture_child` for an index from 0 on. It counts `i` up to `n` at most, since it
-- goes past a dummy only when all of its children come before the child that is asked for.
unfoldable pub child_loop : Captures → ℕ → ℕ → Option Capture
unfolding num_loop
child_loop end i n = none
child_loop (capture (node id cs) ds) i n =
    let next = child_loop ds (i + 1) n in if i == n then some (node id cs) else next
child_loop (capture (dummy cs) ds) i n =
    let rest = child_loop ds (i + num_loop cs) n in
    elim (child_loop cs 0 (n - i)) [ some sub ↦ some sub | none ↦ rest ]

unfoldable pub child : Capture → ℕ → Option Capture
unfolding child_loop
child c n = child_loop (children_of c) 0 n
