-- ===== src/Code/Layout.antt =====
-- Where the lines of a program stand in its byte stream.
use libpeg.Prelude.{
  ℕ, zero, suc, ◌+◌, ◌≤◌, ◌<◌, ◌≡◌, refl, sym, ◌∙◌, ap, List, [], ◌∷◌, ◌++◌, arith, length,
  length-append, get_or,
}
use mathlib.Core.List.{append_assoc}
use libpeg.Charset.{Charset}
use libpeg.Code.Op
use libpeg.Code.Op.{Op}
use libpeg.Code.Assembler.{
  Shape, no_args, u8_arg, label_arg, i16_arg, label_i16_args, u8_label_args, u24_arg, i16_i16_args,
  u8_i16_args, set_arg, set_label_args, shape, Line, plain, byte, target, word, target_word,
  byte_target, wide, words, byte_word, with_set, set_target, IsLine, layout, layouts,
}
use libpeg.Code.Operands.{op_of_line}

-- the number of bytes of a line
unfoldable pub width : Line → ℕ
width (plain op) = 2
width (byte op a) = 2
width (target op l) = 4
width (word op a) = 4
width (target_word op l b) = 6
width (byte_target op c l) = 6
width (wide op a) = 4
width (words op a b) = 6
width (byte_word op b a) = 4
width (with_set op s) = 2
width (set_target op s l) = 6

-- the offset of the line with this index; the end of the stream from the last index on
unfoldable pub offset : List Line → ℕ → ℕ
unfolding width
offset [] k = 0
offset (i ∷ is) zero = 0
offset (i ∷ is) (suc k) = width i + offset is k

pub width_pos : (i : Line) → 2 ≤ width i
unfolding width
width_pos (plain op) = omega arith
width_pos i = omega arith

pub length-layout :
    (sets : List Charset) (place : ℕ → ℕ) (i : Line) → length (layout sets place i) ≡ width i
unfolding layout width
length-layout sets place (plain op) = refl
length-layout sets place i = refl

-- The first byte is the opcode, which gives the width of the line.
pub head-layout :
    (sets : List Charset) (place : ℕ → ℕ) (i : Line) (post : List ℕ)
    → get_or (layout sets place i ++ post) 0 0 ≡ Op.code (op_of_line i)
unfolding layout op_of_line
head-layout sets place (plain op) post = refl
head-layout sets place i post = refl

abbrev shape_size : Shape → ℕ
shape_size no_args = 2
shape_size u8_arg = 2
shape_size label_arg = 4
shape_size i16_arg = 4
shape_size label_i16_args = 6
shape_size u8_label_args = 6
shape_size u24_arg = 4
shape_size i16_i16_args = 6
shape_size u8_i16_args = 4
shape_size set_arg = 2
shape_size set_label_args = 6

size-shape_size : (op : Op) → Op.size op ≡ shape_size (shape op)
unfolding Op.size shape
size-shape_size Op.char = refl
size-shape_size op = refl

-- `op_sizes` agrees with what the emitters write.
pub size-width : (i : Line) → IsLine i → Op.size (op_of_line i) ≡ width i
unfolding IsLine op_of_line width
size-width (plain op) h = size-shape_size op ∙ ap shape_size h
size-width (byte op a) h = size-shape_size op ∙ ap shape_size h.0
size-width (target op l) h = size-shape_size op ∙ ap shape_size h
size-width (word op a) h = size-shape_size op ∙ ap shape_size h.0
size-width (target_word op l b) h = size-shape_size op ∙ ap shape_size h.0
size-width (byte_target op c l) h = size-shape_size op ∙ ap shape_size h.0
size-width (wide op a) h = size-shape_size op ∙ ap shape_size h.0
size-width (words op a b) h = size-shape_size op ∙ ap shape_size h.0
size-width (byte_word op b a) h = size-shape_size op ∙ ap shape_size h.0
size-width (with_set op s) h = size-shape_size op ∙ ap shape_size h
size-width (set_target op s l) h = size-shape_size op ∙ ap shape_size h

pub length-layouts :
    (sets : List Charset) (place : ℕ → ℕ) (is : List Line)
    → length (layouts sets place is) ≡ offset is (length is)
unfolding layouts offset
length-layouts sets place [] = refl
length-layouts sets place (i ∷ is) = omega (
  arith,
  length-append (layout sets place i) (layouts sets place is),
  length-layout sets place i,
  length-layouts sets place is,
)

pub layouts-append :
    (sets : List Charset) (place : ℕ → ℕ) (is js : List Line)
    → layouts sets place (is ++ js) ≡ layouts sets place is ++ layouts sets place js
unfolding layouts
layouts-append sets place [] js = refl
layouts-append sets place (i ∷ is) js =
    rw (layouts-append sets place is js)
      (sym (append_assoc (layout sets place i) (layouts sets place is) (layouts sets place js)))

-- The offset of a line does not depend on what follows it.
pub offset-append : (is js : List Line) (k : ℕ) → k ≤ length is → offset (is ++ js) k ≡ offset is k
unfolding offset
offset-append [] [] zero h = refl
offset-append [] (j ∷ js) zero h = refl
offset-append [] js (suc k) h = elim h [ ]
offset-append (i ∷ is) js zero h = refl
offset-append (i ∷ is) js (suc k) h = ap (λ n. width i + n) (offset-append is js k (omega arith))

pub offset-lt : (is : List Line) (j k : ℕ) → j < k → k ≤ length is → offset is j < offset is k
unfolding offset
offset-lt [] j k p h = absurd (omega arith)
offset-lt (i ∷ is) j zero p h = elim p [ ]
offset-lt (i ∷ is) zero (suc k) p h = omega (arith, width_pos i)
offset-lt (i ∷ is) (suc j) (suc k) p h = omega (arith, offset-lt is j k (omega arith) (omega arith))

pub le-offset : (is : List Line) → length is ≤ offset is (length is)
unfolding offset
le-offset [] = omega arith
le-offset (i ∷ is) = omega (arith, width_pos i, le-offset is)
