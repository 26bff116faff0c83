-- ===== src/Code/Scan.antt =====
-- The two passes of the pre-decoder over a laid-out program.
use libpeg.Prelude.{
  ℕ, zero, suc, ◌+◌, ◌≤◌, ◌<◌, ◌≡◌, refl, sym, ◌∙◌, ap, Bool, true, false, some, List, [], ◌∷◌,
  ◌++◌, map, arith, ltb, lt→ltb, ◌==◌, length, length-append, length-map, get_or,
}
use mathlib.Core.List.{append_assoc, append-nil}
use native.Mathlib.Decide.{dec_lt}
use libpeg.Charset.{Charset}
use libpeg.Code.Op
use libpeg.Code.Op.{Op, op_of-code}
use libpeg.Code.Insn.{Insn}
use libpeg.Code.Decode.{
  Scan, scan_loop, index_of, is_target, index_of_int, translate, translate_all, predecode,
}
use libpeg.Code.Assembler.{
  Shape, label_arg, label_i16_args, u8_label_args, set_label_args, shape, Line, plain, byte, target,
  word, target_word, byte_target, wide, words, byte_word, with_set, set_target, IsLine, layout,
  layouts, meaning,
}
use libpeg.Code.Operands.{get_or-append, IsPlaced, op_of_line, operands-layout}
use libpeg.Code.Layout.{
  width, offset, width_pos, length-layout, head-layout, size-width, length-layouts, offset-lt,
  le-offset,
}

-- what the first pass adds to `idx`
pub entries : ℕ → ℕ → List Line → List (ℕ × ℕ) → List (ℕ × ℕ)
entries off n [] acc = acc
entries off n (i ∷ is) acc = entries (off + width i) (n + 1) is ((off, n) ∷ acc)

abbrev pub AllLines : (Line → Type 0) → List Line → Type 0
AllLines P [] = Unit
AllLines P (i ∷ is) = P i × AllLines P is

module _ (sets : List Charset) (place : ℕ → ℕ) where
  scanned : List Line → ℕ → Scan → Scan
  scanned is off s = record {
    prog = s.prog ++ map (meaning place) is;
    idx = entries off (length s.prog) is s.idx;
  }

  scanned_none : (off : ℕ) (s : Scan) → s ≡ scanned [] off s
  unfolding scanned entries
  scanned_none off s = ap (λ prog. record s { prog = prog }) (sym (append-nil s.prog))

  abbrev scanned_one : Line → ℕ → Scan → Scan
  scanned_one i off s = record {
    prog = s.prog ++ (meaning place i ∷ []);
    idx = (off, length s.prog) ∷ s.idx;
  }

  -- one round at the start of a line
  scan_round :
      (fuel : ℕ) (pre post : List ℕ) (i : Line) (s : Scan)
      → IsLine i
      → IsPlaced sets place i
      → scan_loop (suc fuel) sets (pre ++ (layout sets place i ++ post)) (length pre) s
        ≡ scan_loop fuel sets
            (pre ++ (layout sets place i ++ post))
            (length pre + width i)
            (scanned_one i (length pre) s)
  unfolding scan_loop
  scan_round fuel pre post i s h p =
      let bs : List ℕ = pre ++ (layout sets place i ++ post) in
      let e : length pre + 0 ≡ length pre = omega arith in
      let more : length pre < length bs = omega (
        arith,
        length-append pre (layout sets place i ++ post),
        length-append (layout sets place i) post,
        length-layout sets place i,
        width_pos i,
      ) in
      let opcode : Op.op_of (get_or bs (length pre) 0) ≡ some (op_of_line i) =
        ap Op.op_of (
          rw e at (get_or-append pre (layout sets place i ++ post) 0 0)
          ∙ head-layout sets place i post)
        ∙ op_of-code (op_of_line i) in
      rw (lt→ltb _ _ more)
        (rw opcode (rw (operands-layout sets place pre post i h p, size-width i h) refl))

  scanned_cons :
      (i : Line) (is : List Line) (off : ℕ) (s : Scan)
      → scanned is (off + width i) (scanned_one i off s) ≡ scanned (i ∷ is) off s
  unfolding scanned entries
  scanned_cons i is off s =
      let m : List Insn = meaning place i ∷ [] in
      let e : length (s.prog ++ m) ≡ length s.prog + 1 = length-append s.prog m in
      rw (e, append_assoc s.prog m (map (meaning place) is)) refl

  scan_loop-scanned :
      (is : List Line) (fuel : ℕ) (pre : List ℕ) (s : Scan)
      → length is < fuel
      → AllLines IsLine is
      → AllLines (IsPlaced sets place) is
      → scan_loop fuel sets (pre ++ layouts sets place is) (length pre) s
        ≡ some (scanned is (length pre) s)
  unfolding layouts scanned entries
  scan_loop-scanned is zero pre s f h p = elim f [ ]
  scan_loop-scanned [] (suc fuel) pre s f h p =
      let stop : ltb (length pre) (length (pre ++ [])) ≡ false =
        rw (append-nil pre) (ground arith) in
      unfold scan_loop in rw stop (ap some (scanned_none (length pre) s))
  scan_loop-scanned (i ∷ is) (suc fuel) pre s f h p =
      let bytes : List ℕ = layout sets place i in
      let step = scan_round fuel pre (layouts sets place is) i s h.0 p.0 in
      let width_is : length (pre ++ bytes) ≡ length pre + width i =
        length-append pre bytes ∙ ap (λ n. length pre + n) (length-layout sets place i) in
      let assoc = append_assoc pre bytes (layouts sets place is) in
      let rest =
        scan_loop-scanned is fuel (pre ++ bytes) (scanned_one i (length pre) s) (omega arith) h.1
          p.1 in
      step ∙ rw (assoc, width_is) at rest ∙ ap some (scanned_cons i is (length pre) s)

-- A line's offset leads to its index.
index_of-entries_before :
    (off n : ℕ) (is : List Line) (acc : List (ℕ × ℕ)) (t : ℕ)
    → t < off
    → index_of (entries off n is acc) t ≡ index_of acc t
unfolding entries index_of
index_of-entries_before off n [] acc t h = refl
index_of-entries_before off n (i ∷ is) acc t h =
    index_of-entries_before (off + width i) (n + 1) is ((off, n) ∷ acc) t (omega arith)
    ∙ rw (eq_false off t (omega arith)) refl
  where
    eq_false : (a b : ℕ) → b < a → (a == b) ≡ false
    eq_false a b l = ground arith

index_of-entries :
    (off n : ℕ) (is : List Line) (acc : List (ℕ × ℕ)) (k : ℕ)
    → k < length is
    → index_of (entries off n is acc) (off + offset is k) ≡ some (n + k)
unfolding entries index_of offset
index_of-entries off n [] acc k h = elim h [ ]
index_of-entries off n (i ∷ is) acc zero h =
    let e : off + 0 ≡ off = omega arith in
    let z : n + 0 ≡ n = omega arith in
    let hit : (off == off) ≡ true = ground arith in
    rw
      (
        e,
        z,
        index_of-entries_before (off + width i) (n + 1) is ((off, n) ∷ acc) off
            (omega (arith, width_pos i)),
      )
      (unfold index_of in rw hit refl)
index_of-entries off n (i ∷ is) acc (suc k) h =
    let e : off + (width i + offset is k) ≡ off + width i + offset is k = omega arith in
    let z : n + suc k ≡ n + 1 + k = omega arith in
    rw (e, z) (index_of-entries (off + width i) (n + 1) is ((off, n) ∷ acc) k (omega arith))

-- the map from offsets to indices that the first pass leaves
abbrev pub final_index : List Line → List (ℕ × ℕ)
final_index is = (offset is (length is), length is) ∷ entries 0 0 is []

pub index_of-offset :
    (is : List Line) (k : ℕ) → k ≤ length is → index_of (final_index is) (offset is k) ≡ some k
unfolding index_of
index_of-offset is k h = elim (dec_lt k (length is)) [
  | yes inside ↦
      let below = offset-lt is k (length is) inside (omega arith) in
      let miss : (offset is (length is) == offset is k) ≡ false = ground arith in
      let found = index_of-entries 0 0 is [] k inside in
      let z : 0 + offset is k ≡ offset is k = omega arith in
      let y : 0 + k ≡ k = omega arith in rw miss (rw (z, y) at found)
  | no last ↦
      let e : k ≡ length is = omega arith in
      let hit : (offset is (length is) == offset is k) ≡ true = rw e (ground arith) in
      rw hit (ap some (sym e))
]

-- The label of a line, if it has one, satisfies a predicate.
unfoldable pub AtLabel : (ℕ → Type 0) → Line → Type 0
AtLabel P (target op l) = P l
AtLabel P (target_word op l b) = P l
AtLabel P (byte_target op c l) = P l
AtLabel P (set_target op s l) = P l
AtLabel P i = Unit

abbrev has_target : Shape → Bool
has_target label_arg = true
has_target label_i16_args = true
has_target u8_label_args = true
has_target set_label_args = true
has_target s = false

is_target-shape : (op : Op) → is_target op ≡ has_target (shape op)
unfolding is_target shape
is_target-shape Op.char = refl
is_target-shape op = refl

module _ (place resolve : ℕ → ℕ) (idx : List (ℕ × ℕ)) where
  abbrev pub Leads : ℕ → Type 0
  Leads l = index_of idx (place l) ≡ some (resolve l)

  translate-meaning :
      (i : Line)
      → IsLine i
      → AtLabel Leads i
      → translate idx (meaning place i) ≡ some (meaning resolve i)
  unfolding translate meaning IsLine AtLabel index_of_int
  translate-meaning (plain op) h g = rw (is_target-shape op, h) refl
  translate-meaning (byte op a) h g = rw (is_target-shape op, h.0) refl
  translate-meaning (target op l) h g = rw (is_target-shape op, h) (rw g refl)
  translate-meaning (word op a) h g = rw (is_target-shape op, h.0) refl
  translate-meaning (target_word op l b) h g = rw (is_target-shape op, h.0) (rw g refl)
  translate-meaning (byte_target op c l) h g = rw (is_target-shape op, h.0) (rw g refl)
  translate-meaning (wide op a) h g = rw (is_target-shape op, h.0) refl
  translate-meaning (words op a b) h g = rw (is_target-shape op, h.0) refl
  translate-meaning (byte_word op b a) h g = rw (is_target-shape op, h.0) refl
  translate-meaning (with_set op s) h g = rw (is_target-shape op, h) refl
  translate-meaning (set_target op s l) h g = rw (is_target-shape op, h) (rw g refl)

  translate_all-meaning :
      (is : List Line)
      → AllLines IsLine is
      → AllLines (AtLabel Leads) is
      → translate_all idx (map (meaning place) is) ≡ some (map (meaning resolve) is)
  unfolding translate_all
  translate_all-meaning [] h g = refl
  translate_all-meaning (i ∷ is) h g =
      rw (translate-meaning i h.0 g.0, translate_all) (rw (translate_all-meaning is h.1 g.1) refl)

-- Pre-decoding a laid-out program gives the instruction of each line, with its label's target.
pub predecode-layouts :
    (sets : List Charset) (place resolve : ℕ → ℕ) (is : List Line)
    → AllLines IsLine is
    → AllLines (IsPlaced sets place) is
    → AllLines (AtLabel (Leads place resolve (final_index is))) is
    → predecode sets (layouts sets place is) ≡ some (map (meaning resolve) is)
unfolding predecode
predecode-layouts sets place resolve is h p g =
    let start : Scan = record { prog = []; idx = [] } in
    let scan =
      scan_loop-scanned sets place is (length (layouts sets place is) + 1) [] start
        (omega (arith, length-layouts sets place is, le-offset is)) h p in
    rw (scan, predecode)
      (unfold scanned in
        rw (length-layouts sets place is, length-map is (meaning place))
          (translate_all-meaning place resolve (final_index is) is h g))
