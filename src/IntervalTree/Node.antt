-- ===== src/IntervalTree/Node.antt =====
-- The nodes of src/interval_tree.c and the helpers on one node. Positions are unbounded integers:
-- overflow of a C `int` is undefined and not modelled. A value is its pointer, a number.
use libpeg.Prelude.{ℕ, ◌+◌, max, Bool, ◌&&◌, List, [], ◌∷◌, ◌++◌, map, if◌then◌else◌}
use libpeg.Prelude.Int.{ℤ, pos, ltb_ℤ, ◌+ℤ◌}

pub record Key : Type 0 where
  pub pos : ℤ
  pub id : ℤ

pub data Sign : Type 0 where
  less same more : Sign

-- the sign of `iv_key_cmp(a, b)`
unfoldable pub key_cmp : Key → Key → Sign
key_cmp a b =
    if ltb_ℤ a.pos b.pos
    then less
    else if ltb_ℤ b.pos a.pos
    then more
    else if ltb_ℤ a.id b.id
    then less
    else if ltb_ℤ b.id a.id
    then more
    else same

-- `iv_ins`: one interval [low, high) and its value
pub record Ins : Type 0 where
  pub low : ℤ
  pub high : ℤ
  pub value : ℕ

-- `struct itree_ivals`: the intervals of one key. `handle` is the identity of the structure, which
-- an `itree_loc` points to; its back pointer is the node that holds it.
pub record Ivals : Type 0 where
  pub ins : List Ins
  pub handle : ℕ

-- `iv_node` without its children. The owning tree is passed to the operations that use its log.
pub record Node : Type 0 where
  pub key : Key
  pub max : ℤ
  pub iv : Ivals
  pub tstamp : ℕ
  pub height : ℕ

-- `leaf` is the null pointer.
pub data Tree : Type 0 where
  leaf : Tree
  node : Node → Tree → Tree → Tree

-- `iv_shift`: intervals that start at `idx` or after it move by `amt`
pub record Shift : Type 0 where
  pub idx : ℤ
  pub amt : ℤ
  pub tstamp : ℕ

-- `iv_max`
abbrev pub iv_max : ℤ → ℤ → ℤ
iv_max a b = if ltb_ℤ b a then a else b

-- the loop of `iv_group_high`
unfoldable pub group_high : ℤ → List Ins → ℤ
group_high m [] = m
group_high m (i ∷ is) = group_high (iv_max m i.high) is

unfoldable pub overlaps : Ins → ℤ → ℤ → Bool
overlaps i low high = ltb_ℤ i.low high && ltb_ℤ low i.high

unfoldable pub group_push : Ivals → ℤ → ℤ → ℕ → Ivals
group_push iv low high value = record iv {
  ins = iv.ins ++ (record { low = low; high = high; value = value } ∷ []);
}

unfoldable pub ins_shift : ℤ → Ins → Ins
ins_shift amt i = record i { low = i.low +ℤ amt; high = i.high +ℤ amt }

unfoldable pub group_shift : Ivals → ℤ → Ivals
group_shift iv amt = record iv { ins = map (ins_shift amt) iv.ins }

-- the maximum of `m` and a child's `max`
abbrev pub max_with : ℤ → Tree → ℤ
max_with m leaf = m
max_with m (node n l r) = iv_max m n.max

-- `iv_update_max` of a node with these children: it never shrinks `max`.
unfoldable pub update_max : Node → Tree → Tree → Node
update_max n l r =
    let m = max_with (max_with (group_high (pos 0) n.iv.ins) l) r in
    record n { max = iv_max m n.max }

abbrev pub height_of : Tree → ℕ
height_of leaf = 0
height_of (node n l r) = n.height

unfoldable pub update_height : Node → Tree → Tree → Node
update_height n l r = record n { height = 1 + max (height_of l) (height_of r) }
