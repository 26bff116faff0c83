-- ===== src/Code/Assembled.antt =====
-- The builder implements the assembler: after any calls, its bytes, labels and pending operands
-- are those of the lines emitted so far.
use libpeg.Prelude.{
  ℕ, ◌≤◌, ◌≡◌, refl, sym, ◌∙◌, ap, none, some, List, [], ◌∷◌, ◌++◌, map, inl, inr, Option-cases,
  length,
}
use mathlib.Core.Path.{subst}
use mathlib.Core.List.{append-nil}
use mathlib.Core.Option.{some-injective}
use libpeg.Charset.{Charset}
use libpeg.Code.Op.{Op}
use libpeg.Code.Builder.{
  Prog, here, add_set, emit_op_set, emit_op_u8, emit_op_u8_label, emit_op_set_label,
}
use libpeg.Code.Assembler.{
  Line, plain, byte, target, word, target_word, byte_target, wide, words, byte_word, with_set,
  set_target, IsLine, emit_line, set_index, layout, layouts,
}
use libpeg.Code.Tables.{HasSet, AddedSet, add_set_lem}
use libpeg.Code.Layout.{offset}
use libpeg.Code.Scan.{AllLines}
use libpeg.Code.Patch.{blank, fixup_of, fixups}

-- the set of a line, if it has one, is in the table
unfoldable pub HasSetOf : List Charset → Line → Type 0
HasSetOf sets (with_set op s) = HasSet sets s
HasSetOf sets (set_target op s l) = HasSet sets s
HasSetOf sets i = Unit

abbrev pub AllBelow : ℕ → List ℕ → Type 0
AllBelow n [] = Unit
AllBelow n (k ∷ ks) = (k ≤ n) × AllBelow n ks

-- The builder `p` holds the lines `is`, and its labels stand before the lines `labs`.
pub record Assembled (p : Prog) (is : List Line) (labs : List ℕ) : Type 0 where
  pub bytes_are : p.code ≡ layouts p.sets blank is
  pub labels_are : p.labels ≡ map (offset is) labs
  pub fixups_are : p.fixups ≡ fixups 0 is
  pub lines_are : AllLines IsLine is
  pub sets_are : AllLines (HasSetOf p.sets) is
  pub labs_are : AllBelow (length is) labs
  pub bounded : length p.sets ≤ 256

-- What one emitter call adds to the builder.
pub record Emitted (p : Prog) (i : Line) (q : Prog) : Type 0 where
  pub more : List Charset
  pub sets_grow : q.sets ≡ p.sets ++ more
  pub bytes_grow : q.code ≡ p.code ++ layout q.sets blank i
  pub labels_keep : q.labels ≡ p.labels
  pub fixups_grow : q.fixups ≡ p.fixups ++ fixup_of (here p) i
  pub has_set : HasSetOf q.sets i
  pub bounded : length q.sets ≤ 256

plainly :
    (p q : Prog) (i : Line)
    → length p.sets ≤ 256
    → q.sets ≡ p.sets
    → q.code ≡ p.code ++ layout q.sets blank i
    → q.labels ≡ p.labels
    → q.fixups ≡ p.fixups ++ fixup_of (here p) i
    → HasSetOf q.sets i
    → Emitted p i q
plainly p q i b s c l f h = record {
  more = [];
  sets_grow = s ∙ sym (append-nil p.sets);
  bytes_grow = c;
  labels_keep = l;
  fixups_grow = f;
  has_set = h;
  bounded = rw s b;
}

no_fixup : (p : Prog) → p.fixups ≡ p.fixups ++ []
no_fixup p = sym (append-nil p.fixups)

returned :
    (p q : Prog) (i : Line) (at : ℕ) (r : Prog × ℕ)
    → some r ≡ some (q, at)
    → Emitted p i r.0 × (r.1 ≡ here p)
    → Emitted p i q × (at ≡ here p)
returned p q i at r h e =
    subst (λ (x : Prog × ℕ). Emitted p i x.0 × (x.1 ≡ here p)) (some-injective r (q, at) h) e

-- A call that stores a set: first the table, then the bytes.
with_table :
    (p q r : Prog) (s : Charset) (i : Line) (n : ℕ)
    → AddedSet p s q n
    → r.sets ≡ q.sets
    → r.code ≡ q.code ++ layout r.sets blank i
    → r.labels ≡ q.labels
    → r.fixups ≡ q.fixups ++ fixup_of (here q) i
    → HasSetOf r.sets i
    → Emitted p i r
with_table p q r s i n a es ec el ef h = record {
  more = a.more;
  sets_grow = es ∙ a.grown;
  bytes_grow = ec ∙ ap (λ (t : Prog). t.code ++ layout r.sets blank i) a.kept;
  labels_keep = el ∙ ap (λ (t : Prog). t.labels) a.kept;
  fixups_grow = ef ∙ ap (λ (t : Prog). t.fixups ++ fixup_of (here t) i) a.kept;
  has_set = h;
  bounded = rw es a.bounded;
}

AddedSet-index : (p q : Prog) (s : Charset) (n : ℕ) → AddedSet p s q n → n ≡ set_index q.sets s
unfolding set_index
AddedSet-index p q s n a = a.at_index ∙ rw (a.has.found, set_index) refl

stored :
    (p q : Prog) (op : Op) (s : Charset) (n : ℕ)
    → AddedSet p s q n
    → Emitted p (with_set op s) (emit_op_u8 q op n).0 × ((emit_op_u8 q op n).1 ≡ here p)
unfolding emit_op_u8 layout fixup_of HasSetOf
stored p q op s n a = (
  with_table p q _ s (with_set op s) n a refl (rw (AddedSet-index p q s n a) refl) refl
      (sym (append-nil q.fixups)) a.has,
  ap (λ (t : Prog). here t) a.kept,
)

stored_target :
    (p q : Prog) (op : Op) (s : Charset) (l n : ℕ)
    → AddedSet p s q n
    → Emitted p (set_target op s l) (emit_op_u8_label q op n l).0
      × ((emit_op_u8_label q op n l).1 ≡ here p)
unfolding emit_op_u8_label layout fixup_of HasSetOf
stored_target p q op s l n a = (
  with_table p q _ s (set_target op s l) n a refl (rw (AddedSet-index p q s n a) refl) refl refl
      a.has,
  ap (λ (t : Prog). here t) a.kept,
)

emit_op_set-Emitted :
    (p q : Prog) (op : Op) (s : Charset) (at : ℕ)
    → length p.sets ≤ 256
    → emit_op_set p op s ≡ some (q, at)
    → Emitted p (with_set op s) q × (at ≡ here p)
emit_op_set-Emitted p q op s at b h = elim (Option-cases (add_set p s)) [
  | inl full ↦
      let e : emit_op_set p op s ≡ none = unfold emit_op_set in rw (full, emit_op_set) refl in cc
  | inr ((r, n), added) ↦
      let e : emit_op_set p op s ≡ some (emit_op_u8 r op n) =
        unfold emit_op_set in rw (added, emit_op_set) refl in
      returned p q (with_set op s) at (emit_op_u8 r op n) (sym e ∙ h)
        (stored p r op s n (add_set_lem p r s n b added))
]

emit_op_set_label-Emitted :
    (p q : Prog) (op : Op) (s : Charset) (l at : ℕ)
    → length p.sets ≤ 256
    → emit_op_set_label p op s l ≡ some (q, at)
    → Emitted p (set_target op s l) q × (at ≡ here p)
emit_op_set_label-Emitted p q op s l at b h = elim (Option-cases (add_set p s)) [
  | inl full ↦
      let e : emit_op_set_label p op s l ≡ none =
        unfold emit_op_set_label in rw (full, emit_op_set_label) refl in
      cc
  | inr ((r, n), added) ↦
      let e : emit_op_set_label p op s l ≡ some (emit_op_u8_label r op n l) =
        unfold emit_op_set_label in rw (added, emit_op_set_label) refl in
      returned p q (set_target op s l) at (emit_op_u8_label r op n l) (sym e ∙ h)
        (stored_target p r op s l n (add_set_lem p r s n b added))
]

-- Every call that returns appends one laid-out line, and yields the offset that it stands at.
pub emit_line-Emitted :
    (p q : Prog) (i : Line) (at : ℕ)
    → length p.sets ≤ 256
    → emit_line p i ≡ some (q, at)
    → Emitted p i q × (at ≡ here p)
unfolding emit_line layout fixup_of HasSetOf
emit_line-Emitted p q (plain op) at b h =
    returned p q (plain op) at _ h (plainly p _ (plain op) b refl refl refl (no_fixup p) tt, refl)
emit_line-Emitted p q (byte op a) at b h =
    returned p q (byte op a) at _ h (plainly p _ (byte op a) b refl refl refl (no_fixup p) tt, refl)
emit_line-Emitted p q (target op l) at b h =
    returned p q (target op l) at _ h (plainly p _ (target op l) b refl refl refl refl tt, refl)
emit_line-Emitted p q (word op a) at b h =
    returned p q (word op a) at _ h (plainly p _ (word op a) b refl refl refl (no_fixup p) tt, refl)
emit_line-Emitted p q (target_word op l c) at b h =
    returned p q (target_word op l c) at _ h
      (plainly p _ (target_word op l c) b refl refl refl refl tt, refl)
emit_line-Emitted p q (byte_target op c l) at b h =
    returned p q (byte_target op c l) at _ h
      (plainly p _ (byte_target op c l) b refl refl refl refl tt, refl)
emit_line-Emitted p q (wide op a) at b h =
    returned p q (wide op a) at _ h (plainly p _ (wide op a) b refl refl refl (no_fixup p) tt, refl)
emit_line-Emitted p q (words op a c) at b h =
    returned p q (words op a c) at _ h
      (plainly p _ (words op a c) b refl refl refl (no_fixup p) tt, refl)
emit_line-Emitted p q (byte_word op c a) at b h =
    returned p q (byte_word op c a) at _ h
      (plainly p _ (byte_word op c a) b refl refl refl (no_fixup p) tt, refl)
emit_line-Emitted p q (with_set op s) at b h = emit_op_set-Emitted p q op s at b h
emit_line-Emitted p q (set_target op s l) at b h = emit_op_set_label-Emitted p q op s l at b h
