-- ===== src/IntervalTree/Api.antt =====
-- `struct itree` and its public operations, of src/interval_tree.c.
use libpeg.Prelude.{
  ℕ, zero, ◌+◌, max, Bool, true, false, ◌&&◌, not, List, [], ◌∷◌, ◌++◌, Option, none, some, length,
  ltb, leb, ◌==◌, ◌>>=◌, if◌then◌else◌,
}
use libpeg.Prelude.Int.{ℤ, pos, ltb_ℤ, ◌-ℤ◌}
use libpeg.IntervalTree.Node.{
  Key, Sign, key_cmp, less, same, more, Ins, Tree, leaf, node, Shift, group_high, max_with,
}
use libpeg.IntervalTree.Shifts.{apply_shifts}
use libpeg.IntervalTree.Edit

-- `fresh` numbers the next group of intervals that is allocated.
pub record Itree : Type 0 where
  pub root : Tree
  pub shifts : List Shift
  pub tstamp : ℕ
  pub fresh : ℕ

abbrev pub new : Itree
new = record { root = leaf; shifts = []; tstamp = 0; fresh = 0 }

unfoldable pub add : Itree → ℤ → ℤ → ℤ → ℕ → Option (Itree × ℕ)
add t id low high value = do
  (root, handle) ←
      Edit.add t.shifts t.tstamp (record { pos = low; id = id }) high value t.fresh t.root
  some (record t { root = root; fresh = t.fresh + 1 }, handle)

-- `iv_record_shift`
unfoldable pub record_shift : Itree → ℤ → ℤ → Itree
record_shift t idx (pos zero) = t
record_shift t idx amt = record t {
  shifts = t.shifts ++ (record { idx = idx; amt = amt; tstamp = t.tstamp + 1 } ∷ []);
  tstamp = t.tstamp + 1;
}

-- `itree_remove_and_shift_cb`, with the evicted intervals in the order of the callbacks
unfoldable pub remove_and_shift : Itree → ℤ → ℤ → ℤ → Option (Itree × List Ins)
unfolding record_shift
remove_and_shift t low high amt = do
  (root, gone) ← Edit.remove_overlaps t.shifts low high t.root
  some (record_shift (record t { root = root }) low amt, gone)

-- the loop of `itree_find_largest` over a group: the best interval so far against the rest
unfoldable pub longest : Ins → List Ins → Ins
longest best [] = best
longest best (i ∷ is) =
    longest (if ltb_ℤ (best.high -ℤ best.low) (i.high -ℤ i.low) then i else best) is

abbrev pub largest : List Ins → Option ℕ
largest [] = none
largest (i ∷ is) = some (longest i is).value

-- the walk of `itree_find_largest`, which brings the nodes on its way up to date
unfoldable pub find_loop : List Shift → Key → Tree → Tree × Option ℕ
unfolding longest
find_loop log key leaf = (leaf, none)
find_loop log key (node n0 l r) =
    let n = apply_shifts log n0 l r in
    let left = find_loop log key l in
    let right = find_loop log key r in
    elim (key_cmp key n.key) [
      | less ↦ (node n left.0 r, left.1)
      | more ↦ (node n l right.0, right.1)
      | same ↦ (node n l r, largest n.iv.ins)
    ]

-- `none` is the null pointer.
unfoldable pub find_largest : Itree → ℤ → ℤ → Itree × Option ℕ
unfolding find_loop
find_largest t id at =
    let (root, found) = find_loop t.shifts (record { pos = at; id = id }) t.root in
    (record t { root = root }, found)

unfoldable pub size_loop : Tree → ℕ
size_loop leaf = 0
size_loop (node n l r) = size_loop l + size_loop r + length n.iv.ins

abbrev pub size : Itree → ℕ
size t = size_loop t.root

-- `iv_each`: the tree, and the intervals in the order of the callbacks
unfoldable pub each_loop : List Shift → Tree → Tree × List Ins
each_loop log leaf = (leaf, [])
each_loop log (node n0 l r) =
    let (l', before) = each_loop log l in
    let n = apply_shifts log n0 l' r in
    let (r', after) = each_loop log r in (node n l' r', before ++ n.iv.ins ++ after)

unfoldable pub each : Itree → Itree × List Ins
unfolding each_loop
each t = let (root, is) = each_loop t.shifts t.root in (record t { root = root }, is)

-- `itree_loc_pos`: the node that holds the group. `none`: the group was freed.
unfoldable pub loc_loop : List Shift → ℕ → Tree → Option (Tree × ℤ)
loc_loop log handle leaf = none
loc_loop log handle (node n l r) =
    let n' = apply_shifts log n l r in
    let left = loc_loop log handle l in
    let right = loc_loop log handle r in
    if n.iv.handle == handle then some (node n' l r, n'.key.pos) else elim left [
      | some (l', at) ↦ some (node n l' r, at)
      | none ↦ elim right [ some (r', at) ↦ some (node n l r', at) | none ↦ none ]
    ]

unfoldable pub loc_pos : Itree → ℕ → Option (Itree × ℤ)
unfolding loc_loop
loc_pos t handle = do
  (root, at) ← loc_loop t.shifts handle t.root
  some (record t { root = root }, at)

-- `iv_apply_all`
unfoldable pub apply_all : List Shift → Tree → Tree
apply_all log leaf = leaf
apply_all log (node n l r) =
    let l' = apply_all log l in let r' = apply_all log r in node (apply_shifts log n l' r') l' r'

unfoldable pub apply_all_shifts : Itree → Itree
unfolding apply_all
apply_all_shifts t = record t { root = apply_all t.shifts t.root; shifts = [] }

-- the checks of `iv_verify_node` on one node's intervals
unfoldable pub verify_ins : ℤ → List Ins → Bool
verify_ins at [] = true
verify_ins at (i ∷ is) =
    not (ltb_ℤ i.low at) && not (ltb_ℤ at i.low) && not (ltb_ℤ i.high i.low) && verify_ins at is

abbrev pub is_less : Sign → Bool
is_less less = true
is_less s = false

abbrev pub above : Key → Option Key → Bool
above k none = true
above k (some lo) = is_less (key_cmp lo k)

abbrev pub below : Key → Option Key → Bool
below k none = true
below k (some hi) = is_less (key_cmp k hi)

-- `iv_verify_node`: the height, if every check passes
unfoldable pub verify_loop : Option Key → Option Key → Tree → Option ℕ
unfolding verify_ins
verify_loop lo hi leaf = some 0
verify_loop lo hi (node n l r) =
    let left = verify_loop lo (some n.key) l in
    let right = verify_loop (some n.key) hi r in
    let exact = max_with (max_with (group_high (pos 0) n.iv.ins) l) r in
    if above n.key lo && below n.key hi && ltb 0 (length n.iv.ins) && verify_ins n.key.pos n.iv.ins
    then (do
      lh ← left
      rh ← right
      elim (n.height == 1 + max lh rh
          && leb lh (rh + 1)
          && leb rh (lh + 1)
          && not (ltb_ℤ n.max exact)) [ true ↦ some n.height | false ↦ none ])
    else none

abbrev pub is_some : Option ℕ → Bool
is_some none = false
is_some (some n) = true

-- `itree_verify`
unfoldable pub verify : Itree → Itree × Bool
unfolding apply_all_shifts verify_loop
verify t = let t' = apply_all_shifts t in (t', is_some (verify_loop none none t'.root))
