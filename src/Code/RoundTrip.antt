-- ===== src/Code/RoundTrip.antt =====
-- Finishing what the builder made, and decoding it: the executable program is the lines that were
-- emitted, with every label resolved.
use libpeg.Prelude.{
  ℕ, zero, suc, ◌≤◌, ◌<◌, ◌^◌, ◌≡◌, refl, ◌∙◌, some, List, [], ◌∷◌, ◌++◌, map, arith, length,
  get_elem?, get_or,
}
use native.Mathlib.Decide.{dec_lt}
use libpeg.Charset.{Charset}
use libpeg.Code.Op.{Op}
use libpeg.Code.Builder.{Fixup, Prog, new, emit_op_u8}
use libpeg.Code.Assembler.{
  Line, byte, target, target_word, byte_target, with_set, set_target, shape, IsLine, emit_line,
  layouts, meaning,
}
use libpeg.Code.Operands.{IsPlaced}
use libpeg.Code.Layout.{offset, offset-lt}
use libpeg.Code.Scan.{AllLines, AtLabel, index_of-offset, final_index, Leads, predecode-layouts}
use libpeg.Code.Patch.{IsTarget, patch_layouts}
use mathlib.Core.Path.{ap₂}
use libpeg.Code.Decode.{predecode}
use libpeg.Code.Finish.{patch_all, finish}
use libpeg.Code.Assembled.{HasSetOf, AllBelow, Assembled, emit_line-Emitted}
use libpeg.Code.Build.{Action, build, plan_of, ActionsFit, emit-Assembled, build-Assembled}

-- the End that `vm_prog_finish` appends
abbrev pub ending : Line
ending = byte Op.end 0

abbrev pub closed : List Line → List Line
closed is = is ++ (ending ∷ [])

-- the instruction index of a label
abbrev pub lab_at : List ℕ → ℕ → ℕ
lab_at labs l = get_or labs l 0

AllLines-imp :
    (P Q : Line → Type 0)
    → ((i : Line) → P i → Q i)
    → (is : List Line) → AllLines P is
    → AllLines Q is
AllLines-imp P Q f [] a = tt
AllLines-imp P Q f (i ∷ is) a = (f i a.0, AllLines-imp P Q f is a.1)

AllLines-both :
    (P Q : Line → Type 0) (is : List Line)
    → AllLines P is
    → AllLines Q is
    → AllLines (λ i. P i × Q i) is
AllLines-both P Q [] a b = tt
AllLines-both P Q (i ∷ is) a b = ((a.0, b.0), AllLines-both P Q is a.1 b.1)

AtLabel-imp : (P Q : ℕ → Type 0) → ((l : ℕ) → P l → Q l) → (i : Line) → AtLabel P i → AtLabel Q i
unfolding AtLabel
AtLabel-imp P Q f (target op l) a = f l a
AtLabel-imp P Q f (target_word op l b) a = f l a
AtLabel-imp P Q f (byte_target op c l) a = f l a
AtLabel-imp P Q f (set_target op s l) a = f l a
AtLabel-imp P Q f i a = tt

-- A label of the builder stands at the offset of its line.
label_place :
    (is : List Line) (labs : List ℕ) (l : ℕ)
    → l < length labs
    → AllBelow (length is) labs
    → (get_elem? (map (offset is) labs) l ≡ some (offset is (lab_at labs l)))
      × (lab_at labs l ≤ length is)
label_place is [] l h b = elim h [ ]
label_place is (k ∷ labs) zero h b = (refl, b.0)
label_place is (k ∷ labs) (suc l) h b = label_place is labs l (omega arith) b.1

offset-le : (is : List Line) (k : ℕ) → k ≤ length is → offset is k ≤ offset is (length is)
offset-le is k h = elim (dec_lt k (length is)) [
  | yes p ↦ omega (arith, offset-lt is k (length is) p (omega arith))
  | no p ↦ let e : k ≡ length is = omega arith in rw e (omega arith)
]

ending-IsLine : IsLine ending
unfolding IsLine shape
ending-IsLine = (refl, omega arith)

-- The builder after the End that `vm_prog_finish` emits.
closed-Assembled :
    (p : Prog) (is : List Line) (labs : List ℕ)
    → Assembled p is labs
    → Assembled (emit_op_u8 p Op.end 0).0 (closed is) labs
closed-Assembled p is labs a =
    emit-Assembled p (emit_op_u8 p Op.end 0).0 is labs ending ending-IsLine
      (emit_line-Emitted p (emit_op_u8 p Op.end 0).0 ending (emit_op_u8 p Op.end 0).1 a.bounded
        (unfold emit_line in refl)).0
      a

IsPlaced-of :
    (sets : List Charset) (place : ℕ → ℕ) (i : Line)
    → HasSetOf sets i × AtLabel (λ l. place l < 2 ^ 24) i
    → IsPlaced sets place i
unfolding IsPlaced HasSetOf AtLabel
IsPlaced-of sets place (target op l) h = h.1
IsPlaced-of sets place (target_word op l b) h = h.1
IsPlaced-of sets place (byte_target op c l) h = h.1
IsPlaced-of sets place (with_set op s) h = h.0
IsPlaced-of sets place (set_target op s l) h = h
IsPlaced-of sets place i h = tt

-- Every line refers to a label that was made.
abbrev pub LabelsMade : List Line → List ℕ → Type 0
LabelsMade is labs = AllLines (AtLabel (λ l. l < length labs)) is

-- The byte stream, where the labels stand before the lines `labs`.
abbrev pub stream_of : List Charset → List Line → List ℕ → List ℕ
stream_of sets is labs = layouts sets (λ l. offset is (lab_at labs l)) is

-- The labels of an assembled builder are the offsets of their lines.
IsTarget-label :
    (q : Prog) (js : List Line) (labs : List ℕ)
    → Assembled q js labs
    → offset js (length js) < 2 ^ 24
    → (l : ℕ) → l < length labs
    → IsTarget q.labels (λ k. offset js (lab_at labs k)) l
IsTarget-label q js labs a small l h =
    let at = label_place js labs l h a.labs_are in
    (rw a.labels_are at.0, omega (arith, small, offset-le js (lab_at labs l) at.1))

IsTarget-lt : (labels : List ℕ) (place : ℕ → ℕ) (l : ℕ) → IsTarget labels place l → place l < 2 ^ 24
IsTarget-lt labels place l t = t.1

AllLines-targets :
    (q : Prog) (js : List Line) (labs : List ℕ)
    → Assembled q js labs
    → LabelsMade js labs
    → offset js (length js) < 2 ^ 24
    → AllLines (AtLabel (IsTarget q.labels (λ k. offset js (lab_at labs k)))) js
AllLines-targets q js labs a made small =
    AllLines-imp _ _ (AtLabel-imp _ _ (IsTarget-label q js labs a small)) js made

patched :
    (js : List Line) (labs : List ℕ) (q : Prog)
    → Assembled q js labs
    → LabelsMade js labs
    → offset js (length js) < 2 ^ 24
    → patch_all q.labels q.fixups q.code ≡ some (stream_of q.sets js labs)
patched js labs q a made small =
    ap₂ (λ (f : List Fixup) (c : List ℕ). patch_all q.labels f c) a.fixups_are a.bytes_are
    ∙ patch_layouts q.labels (λ k. offset js (lab_at labs k)) q.sets [] js
        (AllLines-targets q js labs a made small)

decoded :
    (js : List Line) (labs : List ℕ) (q : Prog)
    → Assembled q js labs
    → LabelsMade js labs
    → offset js (length js) < 2 ^ 24
    → predecode q.sets (stream_of q.sets js labs) ≡ some (map (meaning (lab_at labs)) js)
decoded js labs q a made small =
    let place : ℕ → ℕ = λ k. offset js (lab_at labs k) in
    let small_targets : AllLines (AtLabel (λ l. place l < 2 ^ 24)) js =
      AllLines-imp _ _ (AtLabel-imp _ _ (IsTarget-lt q.labels place)) js
        (AllLines-targets q js labs a made small) in
    let placed : AllLines (IsPlaced q.sets place) js =
      AllLines-imp _ _ (IsPlaced-of q.sets place) js
        (AllLines-both _ _ js a.sets_are small_targets) in
    let leads : AllLines (AtLabel (Leads place (lab_at labs) (final_index js))) js =
      AllLines-imp _ _
        (AtLabel-imp _ _
          (λ l h. index_of-offset js (lab_at labs l) (label_place js labs l h a.labs_are).1))
        js made in
    predecode-layouts q.sets place (lab_at labs) js a.lines_are placed leads

-- `vm_prog_finish` of any program that the builder made, with operands that fit and labels that
-- were made, and less than 2^24 bytes long, returns. The byte stream is that of the lines, the
-- End included, with every label at its offset; the decoded program is those lines, one
-- instruction each, with every label at its index; the tables are the builder's.
pub finish-build :
    (as' : List Action) (p : Prog)
    → ActionsFit as'
    → build new as' ≡ some p
    → let lines = closed (plan_of as').lines in
      let labs = (plan_of as').labs in
      LabelsMade lines labs
      → offset lines (length lines) < 2 ^ 24
      → finish p
        ≡ some (record {
          insns = stream_of p.sets lines labs;
          sets = p.sets;
          errors = p.errors;
          prog = map (meaning (lab_at labs)) lines;
        })
unfolding finish
finish-build as' p fit h made small =
    let lines = closed (plan_of as').lines in
    let labs = (plan_of as').labs in
    let q = (emit_op_u8 p Op.end 0).0 in
    let a = closed-Assembled p (plan_of as').lines labs (build-Assembled as' p fit h) in
    rw (patched lines labs q a made small, finish)
      (rw (decoded lines labs q a made small) (unfold emit_op_u8 in refl))
