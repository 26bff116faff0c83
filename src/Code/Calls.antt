-- ===== src/Code/Calls.antt =====
-- Every `vm_emit_…` function writes a line of the assembler.
use libpeg.Prelude.{
  ℕ, ◌+◌, ◌<◌, ◌≤◌, ◌^◌, ◌≡◌, refl, sym, ap, ◌∙◌, true, false, some, List, arith, length, inl, inr,
  Option-cases,
}
use mathlib.Core.Path.{subst}
use mathlib.Core.Option.{some-injective, some-ne-none}
use libpeg.Charset.{Charset}
use libpeg.Code.Op.{Op}
use libpeg.Code.Builder.{
  Prog, here, add_error, add_set, emit_op_set, emit_op_set_label, emit1, emit_op_u8, emit_op_label,
  emit_op_i16, emit_op_label_i16, emit_op_u8_label, emit_op_u24, emit_op_i16_i16, emit_op_u8_i16,
}
use libpeg.Code.Interned.{Interned, add_error_lem, add_error-le}
use libpeg.Code.Tables.{AddedSet, add_set_lem}
use libpeg.Code.Assembler.{shape, IsLine, emit_line}
use libpeg.Code.Assembled.{Emitted, emit_line-Emitted}
use libpeg.Code.Emit.{
  Call, set, span, test_set, test_set_nochoice, char, any, empty, test_char, test_char_nochoice,
  test_any, capture_begin, capture_late, capture_full, memo_open, memo_tree_open, memo_tree_close,
  error, check_begin, check_end, end, emit, Fits, prepared, line_of,
}

IsLine-line_of :
    (p : Prog) (c : Call)
    → Fits c
    → length p.errors < 2 ^ 24
    → p.ncheckers < 2 ^ 24
    → IsLine (line_of p c)
unfolding IsLine shape
IsLine-line_of p (char c) f e n = (refl, f)
IsLine-line_of p (any c) f e n = (refl, f)
IsLine-line_of p (empty c) f e n = (refl, f)
IsLine-line_of p (test_char c l) f e n = (refl, f)
IsLine-line_of p (test_char_nochoice c l) f e n = (refl, f)
IsLine-line_of p (test_any c l) f e n = (refl, f)
IsLine-line_of p (capture_begin id) f e n = (refl, f)
IsLine-line_of p (capture_late back id) f e n = (refl, f.0, f.1)
IsLine-line_of p (capture_full back id) f e n = (refl, f.0, f.1)
IsLine-line_of p (memo_open l id) f e n = (refl, f)
IsLine-line_of p (memo_tree_open l id) f e n = (refl, f)
IsLine-line_of p (memo_tree_close id) f e n = (refl, f)
IsLine-line_of p (error msg) f e n = (refl, omega (arith, add_error-le p msg))
IsLine-line_of p (check_begin id flag) f e n = (refl, f.0, f.1)
IsLine-line_of p check_end f e n = (refl, n)
IsLine-line_of p (end true) f e n = (refl, omega arith)
IsLine-line_of p (end false) f e n = (refl, omega arith)
IsLine-line_of p c f e n = refl

emit-emit_line : (p : Prog) (c : Call) → emit p c ≡ emit_line (prepared p c) (line_of p c)
unfolding emit emit_line
emit-emit_line p (char c) = refl
emit-emit_line p c = refl

prepared-code :
    (p : Prog) (c : Call) → ((prepared p c).code ≡ p.code) × ((prepared p c).sets ≡ p.sets)
prepared-code p (error msg) =
    let kept = (add_error_lem p msg).2 in (ap (λ q. q.code) kept, ap (λ q. q.sets) kept)
prepared-code p check_end = (refl, refl)
prepared-code p c = (refl, refl)

prepared-here : (p : Prog) (c : Call) → here (prepared p c) ≡ here p
prepared-here p c = ap (λ b. length b) (prepared-code p c).0

prepared-sets : (p : Prog) (c : Call) → length p.sets ≤ 256 → length (prepared p c).sets ≤ 256
prepared-sets p c h = rw ((prepared-code p c).1) h

-- the set table after a call
abbrev pub SetsAfter : List Charset → Call → List Charset → Type 0
SetsAfter xs (set s) ys = (i : ℕ) × Interned xs s ys i
SetsAfter xs (span s) ys = (i : ℕ) × Interned xs s ys i
SetsAfter xs (test_set s l) ys = (i : ℕ) × Interned xs s ys i
SetsAfter xs (test_set_nochoice s l) ys = (i : ℕ) × Interned xs s ys i
SetsAfter xs c ys = ys ≡ xs

-- the error table after a call, which yields the index `i` of its message
abbrev pub ErrorsAfter : List (List ℕ) → Call → ℕ → List (List ℕ) → Type 0
ErrorsAfter xs (error msg) i ys = Interned xs msg ys i
ErrorsAfter xs c i ys = ys ≡ xs

-- how many checkers a call uses
abbrev pub checkers_of : Call → ℕ
checkers_of check_end = 1
checkers_of c = 0

abbrev pub error_index : Prog → Call → ℕ
error_index p (error msg) = (add_error p msg).1
error_index p c = 0

-- the tables and the counter of checkers after a call
abbrev pub TablesAfter : Prog → Call → Prog → Type 0
TablesAfter p c q =
    SetsAfter p.sets c q.sets
    × ErrorsAfter p.errors c (error_index p c) q.errors
    × (q.ncheckers ≡ p.ncheckers + checkers_of c)

-- A call that stores a set leaves the rest of the tables as they are.
abbrev pub Stored : Prog → Charset → Prog → Type 0
Stored p s q =
    ((i : ℕ) × Interned p.sets s q.sets i) × (q.errors ≡ p.errors) × (q.ncheckers ≡ p.ncheckers + 0)

AddedSet-Stored : (p q : Prog) (s : Charset) (i : ℕ) → AddedSet p s q i → Stored p s q
AddedSet-Stored p q s i a =
    ((i, a.interned), ap (λ r. r.errors) a.kept, ap (λ r. r.ncheckers) a.kept ∙ omega arith)

emit_op_set-Stored :
    (p q : Prog) (op : Op) (s : Charset) (at : ℕ)
    → length p.sets ≤ 256
    → emit_op_set p op s ≡ some (q, at)
    → Stored p s q
unfolding emit_op_set emit_op_u8
emit_op_set-Stored p q op s at b h = elim (Option-cases (add_set p s)) [
  | inl full ↦ absurd (some-ne-none _ (sym h ∙ rw (full, emit_op_set) refl))
  | inr ((r, n), added) ↦
      let e = some-injective _ _ (rw (added, emit_op_set) at h) in
      subst (λ (x : Prog × ℕ). Stored p s x.0) e
        (AddedSet-Stored p r s n (add_set_lem p r s n b added))
]

emit_op_set_label-Stored :
    (p q : Prog) (op : Op) (s : Charset) (l at : ℕ)
    → length p.sets ≤ 256
    → emit_op_set_label p op s l ≡ some (q, at)
    → Stored p s q
unfolding emit_op_set_label emit_op_u8_label
emit_op_set_label-Stored p q op s l at b h = elim (Option-cases (add_set p s)) [
  | inl full ↦ absurd (some-ne-none _ (sym h ∙ rw (full, emit_op_set_label) refl))
  | inr ((r, n), added) ↦
      let e = some-injective _ _ (rw (added, emit_op_set_label) at h) in
      subst (λ (x : Prog × ℕ). Stored p s x.0) e
        (AddedSet-Stored p r s n (add_set_lem p r s n b added))
]

emit-TablesAfter :
    (p q : Prog) (c : Call) (at : ℕ)
    → length p.sets ≤ 256
    → emit p c ≡ some (q, at)
    → TablesAfter p c q
unfolding emit emit1 emit_op_u8 emit_op_label emit_op_i16 emit_op_label_i16 emit_op_u8_label
    emit_op_u24 emit_op_i16_i16 emit_op_u8_i16
emit-TablesAfter p q (set s) at b h = emit_op_set-Stored p q _ s at b h
emit-TablesAfter p q (span s) at b h = emit_op_set-Stored p q _ s at b h
emit-TablesAfter p q (test_set s l) at b h = emit_op_set_label-Stored p q _ s l at b h
emit-TablesAfter p q (test_set_nochoice s l) at b h = emit_op_set_label-Stored p q _ s l at b h
emit-TablesAfter p q (error msg) at b h =
    let (there, found, kept) = add_error_lem p msg in
    subst (λ (x : Prog × ℕ). TablesAfter p (error msg) x.0) (some-injective _ (q, at) h)
      (ap (λ r. r.sets) kept, there, ap (λ r. r.ncheckers) kept ∙ omega arith)
emit-TablesAfter p q check_end at b h =
    subst (λ (x : Prog × ℕ). TablesAfter p check_end x.0) (some-injective _ (q, at) h)
      (refl, refl, refl)
emit-TablesAfter p q c at b h =
    subst (λ (x : Prog × ℕ). TablesAfter p c x.0) (some-injective _ (q, at) h)
      (refl, refl, omega arith)

-- Every call that returns appends the bytes of its line to the stream, with its label operand
-- pending, and yields the offset of the line. Its set, if it has one, is in the table of sets after
-- the call, which grows by that set if it was not there and otherwise stays; the error table likewise
-- with the message of `vm_emit_error`; `vm_emit_check_end` alone counts a checker, by one. The line
-- is well formed when the arguments have the range of their C types and the tables fit 24 bits.
pub emit_lem :
    (p q : Prog) (c : Call) (at : ℕ)
    → Fits c
    → length p.errors < 2 ^ 24
    → p.ncheckers < 2 ^ 24
    → length p.sets ≤ 256
    → emit p c ≡ some (q, at)
    → IsLine (line_of p c)
      × Emitted (prepared p c) (line_of p c) q
      × (at ≡ here p)
      × TablesAfter p c q
emit_lem p q c at f e n s h =
    let (added, place) =
      emit_line-Emitted (prepared p c) q (line_of p c) at (prepared-sets p c s)
        (sym (emit-emit_line p c) ∙ h) in
    (IsLine-line_of p c f e n, added, place ∙ prepared-here p c, emit-TablesAfter p q c at s h)
