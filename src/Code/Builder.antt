-- ===== src/Code/Builder.antt =====
-- The program builder (`struct vm_prog`) and the raw emitters of src/vm_code.c. A list stands for
-- an array, its length and its capacity. A position that `vm_prog_finish` fills in later holds
-- whatever the allocator left there: 0 here, and never read.
use libpeg.Prelude.{
  ℕ, ◌+◌, ◌%◌, Bool, true, false, Option, none, some, List, [], ◌∷◌, ◌++◌, ◌&&◌, ◌==◌, leb, ltb,
  if◌then◌else◌, length,
}
use libpeg.Prelude.Int.{ℤ}
use libpeg.Prelude.{set as set_at}
use libpeg.Charset
use libpeg.Charset.{Charset}
use libpeg.Code.Bytes.{u24, i16}
use libpeg.Code.Op
use libpeg.Code.Op.{Op}

-- a pending label operand: the offset of its three bytes, and the label
pub record Fixup : Type 0 where
  pub at : ℕ
  pub label : ℕ

pub record Prog : Type 0 where
  pub code : List ℕ
  pub sets : List Charset
  pub errors : List (List ℕ)
  pub labels : List ℕ
  pub fixups : List Fixup
  pub ncheckers : ℕ

-- `vm_prog_new`
abbrev pub new : Prog
new = record { code = []; sets = []; errors = []; labels = []; fixups = []; ncheckers = 0 }

-- the position of the next byte, `vm_prog_here`
abbrev pub here : Prog → ℕ
here p = length p.code

-- `vm_prog_label`: a new label, placed at the cursor, and its number
unfoldable pub label : Prog → Prog × ℕ
label p = (record p { labels = p.labels ++ (here p ∷ []) }, length p.labels)

-- `vm_prog_mark`. `none`: the label was never made, and the write is out of bounds.
unfoldable pub mark : Prog → ℕ → Option Prog
mark p l =
    if ltb l (length p.labels)
    then some (record p { labels = set_at p.labels l (here p) })
    else none

unfoldable pub add_fixup : Prog → ℕ → ℕ → Prog
add_fixup p at l = record p { fixups = p.fixups ++ (record { at = at; label = l } ∷ []) }

-- `prog_reserve`, and the writes to what it reserved
unfoldable pub write : Prog → List ℕ → Prog
write p bytes = record p { code = p.code ++ bytes }

-- The search of `add_set` from index `i` on.
unfoldable pub find_set : List Charset → Charset → ℕ → Option ℕ
find_set [] set i = none
find_set (s ∷ ss) set i =
    let rest = find_set ss set (i + 1) in if Charset.eq s set then some i else rest

-- `none` is the abort on the 257th set.
unfoldable pub add_set : Prog → Charset → Option (Prog × ℕ)
add_set p set = elim (find_set p.sets set 0) [
  | some i ↦ some (p, i % 256)
  | none ↦
      if leb 256 (length p.sets)
      then none
      else some (record p { sets = p.sets ++ (set ∷ []) }, length p.sets % 256)
]

-- `strcmp(a, b) == 0`
unfoldable pub same_bytes : List ℕ → List ℕ → Bool
same_bytes [] [] = true
same_bytes [] (b ∷ bs) = false
same_bytes (a ∷ as') [] = false
same_bytes (a ∷ as') (b ∷ bs) = a == b && same_bytes as' bs

unfoldable pub find_error : List (List ℕ) → List ℕ → ℕ → Option ℕ
unfolding same_bytes
find_error [] msg i = none
find_error (e ∷ es) msg i =
    let rest = find_error es msg (i + 1) in if same_bytes e msg then some i else rest

unfoldable pub add_error : Prog → List ℕ → Prog × ℕ
add_error p msg = elim (find_error p.errors msg 0) [
  | some i ↦ (p, i)
  | none ↦ (record p { errors = p.errors ++ (msg ∷ []) }, length p.errors)
]

-- The raw emitters. Each yields the builder and the offset that it wrote at.
unfoldable pub emit1 : Prog → Op → Prog × ℕ
unfolding write
emit1 p op = (write p (Op.code op ∷ 0 ∷ []), here p)

unfoldable pub emit_op_u8 : Prog → Op → ℕ → Prog × ℕ
unfolding write
emit_op_u8 p op a = (write p (Op.code op ∷ a ∷ []), here p)

unfoldable pub emit_op_label : Prog → Op → ℕ → Prog × ℕ
unfolding write add_fixup
emit_op_label p op l = (add_fixup (write p (Op.code op ∷ 0 ∷ 0 ∷ 0 ∷ [])) (here p + 1) l, here p)

unfoldable pub emit_op_i16 : Prog → Op → ℤ → Prog × ℕ
unfolding write i16
emit_op_i16 p op a = (write p (Op.code op ∷ 0 ∷ i16 a), here p)

unfoldable pub emit_op_label_i16 : Prog → Op → ℕ → ℤ → Prog × ℕ
unfolding write add_fixup i16
emit_op_label_i16 p op l b =
    (add_fixup (write p (Op.code op ∷ 0 ∷ 0 ∷ 0 ∷ i16 b)) (here p + 1) l, here p)

-- `vm_emit_test_char` and its kin write these bytes themselves.
unfoldable pub emit_op_u8_label : Prog → Op → ℕ → ℕ → Prog × ℕ
unfolding write add_fixup
emit_op_u8_label p op c l =
    (add_fixup (write p (Op.code op ∷ 0 ∷ c ∷ 0 ∷ 0 ∷ 0 ∷ [])) (here p + 3) l, here p)

unfoldable pub emit_op_set_label : Prog → Op → Charset → ℕ → Option (Prog × ℕ)
unfolding emit_op_u8_label
emit_op_set_label p op set l = elim (add_set p set) [
  | none ↦ none
  | some (q, i) ↦ some (emit_op_u8_label q op i l)
]

unfoldable pub emit_op_set : Prog → Op → Charset → Option (Prog × ℕ)
unfolding emit_op_u8
emit_op_set p op set = elim (add_set p set) [ none ↦ none | some (q, i) ↦ some (emit_op_u8 q op i) ]

unfoldable pub emit_op_u24 : Prog → Op → ℕ → Prog × ℕ
unfolding write u24
emit_op_u24 p op a = (write p (Op.code op ∷ u24 a), here p)

unfoldable pub emit_op_i16_i16 : Prog → Op → ℤ → ℤ → Prog × ℕ
unfolding write i16
emit_op_i16_i16 p op a b = (write p (Op.code op ∷ 0 ∷ (i16 a ++ i16 b)), here p)

unfoldable pub emit_op_u8_i16 : Prog → Op → ℕ → ℤ → Prog × ℕ
unfolding write i16
emit_op_u8_i16 p op b a = (write p (Op.code op ∷ b ∷ i16 a), here p)
